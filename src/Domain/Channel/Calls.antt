-- ===== src/Domain/Channel/Calls.antt =====
-- domain/channel.py: what the ledger of promises sees of a channel and of the calls of its methods.
use unito_blockchain_25_26_p.Base.{
  Bool, List, Option, String, [], false, none, some, string_eq, true, ◌==◌, ◌∷◌, ◌≡◌,
}
use unito_blockchain_25_26_p.Base.Dict.{lookup}
use unito_blockchain_25_26_p.Base.Int.{ℤ}
use unito_blockchain_25_26_p.Domain.Channel.{
  add_htlc, close_cooperatively, redeem_htlc, refund_htlc, resolve_offerer, revoke_prior_state,
}
use unito_blockchain_25_26_p.Domain.Channel.Ledger.{
  of_sender, of_receiver, Event, Ledger, Promise, Side, idle, promised, redeemed, refunded,
}
use unito_blockchain_25_26_p.Domain.Channel.Liveness.{is_senders}
use unito_blockchain_25_26_p.Domain.Predicates.{Hashes}
use unito_blockchain_25_26_p.Domain.Records.{Channel, HtlcContract}
use unito_blockchain_25_26_p.Errors.{Result, err, ok}

abbrev pub side_of : Bool → Side
side_of true = of_sender
side_of false = of_receiver

-- What an HTLC of a channel with the given sender promises.
abbrev pub promise_of : String → HtlcContract → Promise
promise_of sender_alias h = record {
  side = side_of (is_senders sender_alias h);
  amount = h.amount_sat;
  digest = h.payment_hash;
  timeout = h.locktime;
}

abbrev pub promise_in : String → Option HtlcContract → Option Promise
promise_in sender_alias none = none
promise_in sender_alias (some h) = some (promise_of sender_alias h)

-- What the ledger sees of a channel.
abbrev pub view : Channel → Ledger
view c = record {
  sender = c.balance_sender_sat;
  receiver = c.balance_receiver_sat;
  promises = λ id. promise_in c.sender_alias (lookup id c.active_htlcs);
}

-- A call of a method that changes a channel.
pub data Call : Type 0 where
  offers : HtlcContract → (offerer_alias : Option String) → Call
  redeems : (htlc_id preimage_hex : String) → Call
  refunds : (htlc_id : String) → (current_block_height : ℤ) → Call
  revokes : (commitment_number : ℤ) → (secret_hex : String) → Call
  closes : Call

-- The channel after a call.
abbrev pub after : Hashes → Channel → Call → Channel
after hs c (offers h a) = (add_htlc c h a).1
after hs c (redeems k r) = (redeem_htlc hs c k r).1
after hs c (refunds k n) = (refund_htlc c k n).1
after hs c (revokes n s) = revoke_prior_state c n s
after hs c closes = (close_cooperatively c).1

-- The event where a method returns, and none where it raises.
abbrev pub happened : Result Bool → Event → Event
happened (ok answer) event = event
happened (err raised) event = idle

abbrev pub event_of : Hashes → Channel → Call → Event
event_of hs c (offers h a) = happened (add_htlc c h a).0 (
    promised h.htlc_id (record {
      side = side_of (resolve_offerer c h a == c.sender_alias);
      amount = h.amount_sat;
      digest = h.payment_hash;
      timeout = h.locktime;
    }))
event_of hs c (redeems k r) = happened (redeem_htlc hs c k r).0 (redeemed k r)
event_of hs c (refunds k n) = happened (refund_htlc c k n).0 (refunded k n)
event_of hs c (revokes n s) = idle
event_of hs c closes = idle

abbrev pub run_calls : Hashes → Channel → List Call → Channel
run_calls hs c [] = c
run_calls hs c (call ∷ calls) = run_calls hs (after hs c call) calls

abbrev pub events_of : Hashes → Channel → List Call → List Event
events_of hs c [] = []
events_of hs c (call ∷ calls) = event_of hs c call ∷ events_of hs (after hs c call) calls

-- An HTLC is offered under an id that is not pending.
abbrev pub IsNew : Channel → Call → Type 0
IsNew c (offers h a) = lookup h.htlc_id c.active_htlcs ≡ none
IsNew c _ = Unit

abbrev pub AreNew : Hashes → Channel → List Call → Type 0
AreNew hs c [] = Unit
AreNew hs c (call ∷ calls) = IsNew c call × AreNew hs (after hs c call) calls
