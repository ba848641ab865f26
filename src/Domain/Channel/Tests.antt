-- ===== src/Domain/Channel/Tests.antt =====
-- domain/channel.py: runs of the methods, and the theorems at concrete channels.
use unito_blockchain_25_26_p.Base.{
  ◌≡◌, ◌≢◌, ◌↔◌, ◌⊎◌, refl, true, false, none, some, [], ◌∷◌, arith, ◌==◌, string_eq, bytes_eq,
  if◌then◌else◌, List, Option, Bool,
}
use unito_blockchain_25_26_p.Base.Dict.{lookup, insert}
use unito_blockchain_25_26_p.Base.Int.{pos, ◌+ℤ◌, ◌-ℤ◌, ◌≤ℤ◌}
use unito_blockchain_25_26_p.Errors.{
  Result, ok, err, channel_state, invalid_preimage, htlc_expired, revoked_state_broadcast,
}
use unito_blockchain_25_26_p.Protocols.Revocation.Store.{empty_store}
use unito_blockchain_25_26_p.Domain.Predicates.{Hashes}
use unito_blockchain_25_26_p.Domain.Records.{ChannelState, HtlcState, HtlcContract, Channel}
use unito_blockchain_25_26_p.Domain.Channel.{
  resolve_offerer, is_open, add_pending_htlc, is_active, has_valid_preimage, add_htlc, redeem_htlc,
  refund_htlc, revoke_prior_state, verify_commitment_not_revoked, close_cooperatively,
}
use unito_blockchain_25_26_p.Domain.Channel.Funds.{funds, locked}
use unito_blockchain_25_26_p.Domain.Channel.Invariant.{
  IsFunded, here, next, offers, redeems, closes, Reach-IsFunded,
}
use unito_blockchain_25_26_p.Domain.Channel.Settlement.{
  Paid, redeem_htlc-add_htlc, refund_htlc-add_htlc,
}
use unito_blockchain_25_26_p.Domain.Channel.Refusals.{raises_lem, add_htlc_iff}
use unito_blockchain_25_26_p.Domain.Channel.Revoked.{revoked_for_ever}
use unito_blockchain_25_26_p.Domain.Channel.Ledger.{AllowsAll, replay}
use unito_blockchain_25_26_p.Domain.Channel.Liveness.{wind_up, Refunds}
use unito_blockchain_25_26_p.Domain.Channel.Answers.{AnswersAll}
use unito_blockchain_25_26_p.Domain.Channel.Refinement.{view-run_calls}
use unito_blockchain_25_26_p.Domain.Channel.Calls.{view, Call, run_calls, events_of}

-- A toy digest: the preimage "01" has the payment hash "h1", and "zz" is no hex.
abbrev toy_hashes : Hashes
toy_hashes = record {
  sha256 = λ bytes. 1 ∷ bytes;
  x = λ text. if text == "zz" then none else if text == "01" then some (1 ∷ []) else some [];
  b2x = λ bytes. if bytes == 1 ∷ 1 ∷ [] then "h1" else "h0";
}

abbrev channel : Channel
channel = record {
  channel_id = "chan_Alice_Bob";
  sender_alias = "Alice";
  receiver_alias = "Bob";
  sender_pubkey_hex = "02aa";
  receiver_pubkey_hex = "02bb";
  capacity_sat = pos 100;
  balance_sender_sat = pos 100;
  balance_receiver_sat = pos 0;
  state = ChannelState.opened;
  funding_txid = none;
  funding_vout = none;
  active_htlcs = [];
  sequence_number = pos 0;
  revocation_store = empty_store;
}

abbrev htlc : HtlcContract
htlc = record {
  htlc_id = "h";
  payment_hash = "h1";
  amount_sat = pos 40;
  locktime = pos 700;
  offerer_alias = none;
  preimage = none;
  settled = false;
  refunded = false;
  state = HtlcState.offered;
}

abbrev pending : Channel
pending = (add_htlc channel htlc none).1

pending_runs :
    (pending.balance_sender_sat ≡ pos 60)
    × ((redeem_htlc toy_hashes pending "h" "zz").0 ≡ err invalid_preimage)
    × ((redeem_htlc toy_hashes pending "h" "01").1.balance_receiver_sat ≡ pos 40)
    × ((refund_htlc pending "h" (pos 699)).0 ≡ err htlc_expired)
    × ((refund_htlc pending "h" (pos 700)).1.balance_sender_sat ≡ pos 100)
unfolding add_htlc redeem_htlc refund_htlc ◌+ℤ◌ ◌-ℤ◌
pending_runs = (refl, refl, refl, refl, refl)

channel-IsFunded : IsFunded channel
unfolding funds locked ◌+ℤ◌
channel-IsFunded = record {
  total = refl;
  sender = omega arith;
  receiver = omega arith;
  amounts = tt;
  ids = tt;
}

Reach-IsFunded_example :
    IsFunded (close_cooperatively (redeem_htlc toy_hashes pending "h" "01").1).1
Reach-IsFunded_example = Reach-IsFunded {hs = toy_hashes} channel-IsFunded (
    next (next (next here (offers channel htlc none (omega arith) refl)) (redeems pending "h" "01"))
      (closes (redeem_htlc toy_hashes pending "h" "01").1))

redeem_htlc-add_htlc_example :
    let (r, d, _) = redeem_htlc toy_hashes (add_htlc channel htlc none).1 "h" "01" in
    (r ≡ ok true)
    × Paid channel (resolve_offerer channel htlc none) (pos 40) d
    × (d.active_htlcs ≡ [])
    × (d.sequence_number ≡ pos 0 +ℤ pos 2)
unfolding add_htlc is_active has_valid_preimage
redeem_htlc-add_htlc_example =
    redeem_htlc-add_htlc toy_hashes channel htlc none "01" refl refl refl refl

refund_htlc-add_htlc_example :
    let (r, d, _) = refund_htlc (add_htlc channel htlc none).1 "h" (pos 800) in
    (r ≡ ok true) × (d ≡ record channel { sequence_number = pos 0 +ℤ pos 2 })
unfolding add_htlc
refund_htlc-add_htlc_example =
    refund_htlc-add_htlc channel htlc none (pos 800) refl (omega arith) refl

-- A call that fails makes a stranger the offerer of Alice's pending HTLC, and its refund then goes to
-- Bob.
abbrev reoffered : Option (Result Bool × Channel)
reoffered = add_pending_htlc pending "h" (some "Eve")

abbrev misled : Channel
misled = elim reoffered [ none ↦ pending | some (r, d) ↦ d ]

misled_runs :
    (reoffered ≡ some (err channel_state, misled))
    × ((refund_htlc misled "h" (pos 700)).1.balance_sender_sat ≡ pos 60)
    × ((refund_htlc misled "h" (pos 700)).1.balance_receiver_sat ≡ pos 40)
unfolding add_htlc add_pending_htlc refund_htlc ◌+ℤ◌ ◌-ℤ◌
misled_runs = (refl, refl, refl)

raises_lem_example :
    ((add_htlc pending htlc (some "Eve")).0 ≡ err channel_state
      → (add_htlc pending htlc (some "Eve")).1 ≡ pending)
    × ((redeem_htlc toy_hashes pending "h" "zz").0 ≡ err channel_state
        → (redeem_htlc toy_hashes pending "h" "zz").1 ≡ pending)
    × ((refund_htlc pending "h" (pos 3)).0 ≡ err channel_state
        → (refund_htlc pending "h" (pos 3)).1 ≡ pending)
    × ((held : HtlcContract) (d : Channel)
        → lookup "h" pending.active_htlcs ≡ some held
        → add_pending_htlc pending "h" (some "Eve") ≡ some (err channel_state, d)
        → d ≡ (
            if is_open pending
            then record pending {
              active_htlcs =
                  insert "h"
                    (record held {
                      offerer_alias = some (resolve_offerer pending held (some "Eve"));
                    })
                    pending.active_htlcs;
            }
            else pending))
raises_lem_example = raises_lem toy_hashes pending htlc (some "Eve") "h" "zz" (pos 3) channel_state

add_htlc_iff_example :
    let offerer = resolve_offerer channel htlc none in
    ((add_htlc channel htlc none).0 ≡ ok true) ↔ (
      (channel.state ≡ ChannelState.opened)
      × (((offerer ≡ "Alice") × (pos 40 ≤ℤ pos 100))
          ⊎ ((offerer ≢ "Alice") × (offerer ≡ "Bob") × (pos 40 ≤ℤ pos 0))))
add_htlc_iff_example = add_htlc_iff channel htlc none

revoked_for_ever_example :
    let c = revoke_prior_state channel (pos 1) "5e" in
    verify_commitment_not_revoked (add_htlc c htlc none).1 (pos 1) ≡ err revoked_state_broadcast
unfolding revoke_prior_state
revoked_for_ever_example =
    revoked_for_ever {hs = toy_hashes} channel (pos 1) "5e"
      (next here (offers (revoke_prior_state channel (pos 1) "5e") htlc none (omega arith) refl))

pending-IsFunded : IsFunded pending
pending-IsFunded =
    Reach-IsFunded {hs = toy_hashes} channel-IsFunded
      (next here (offers channel htlc none (omega arith) refl))

-- Bob is paid, and may then not offer more than he was paid.
abbrev three_calls : List Call
three_calls =
    Call.offers htlc none
    ∷ Call.redeems "h" "01"
    ∷ Call.offers (record htlc { amount_sat = pos 41 }) (some "Bob")
    ∷ []

view-run_calls_example :
    AnswersAll toy_hashes channel three_calls
    × AllowsAll toy_hashes (view channel) (events_of toy_hashes channel three_calls)
    × (view (run_calls toy_hashes channel three_calls)
        ≡ replay (view channel) (events_of toy_hashes channel three_calls))
unfolding add_htlc redeem_htlc
view-run_calls_example = view-run_calls toy_hashes channel three_calls tt (refl, (tt, (refl, tt)))

-- One HTLC of each party.
abbrev busy : Channel
busy =
    (add_htlc (redeem_htlc toy_hashes pending "h" "01").1 (record htlc { amount_sat = pos 30 })
      (some "Bob")).1

abbrev busier : Channel
busier = (add_htlc busy (record htlc { htlc_id = "i"; amount_sat = pos 20 }) (some "Alice")).1

wind_up_example :
    (d : Channel) × Refunds (pos 800) busier d
    × (d.active_htlcs ≡ [])
    × (d.balance_sender_sat ≡ pos 60)
    × (d.balance_receiver_sat ≡ pos 40)
unfolding add_htlc redeem_htlc ◌+ℤ◌ ◌-ℤ◌
wind_up_example = wind_up busier (pos 800) (omega arith, (omega arith, tt))
