-- ===== src/Domain/Channel/Answers.antt =====
-- domain/channel.py: which calls of the methods return.
use unito_blockchain_25_26_p.Base.{
  Bool, String, arith, inl, inr, refl, some, string_eq, true, ◌≡◌, ◌≢◌, ◌⊎◌, ◌↔◌, Option-cases,
  List, [], ◌∷◌,
}
use unito_blockchain_25_26_p.Base.Dict.{lookup}
use unito_blockchain_25_26_p.Base.Int.{ℤ, ◌≤ℤ◌}
use unito_blockchain_25_26_p.Domain.Channel.{
  add_htlc, has_valid_preimage, is_active, is_expired_at, redeem_htlc, refund_htlc, resolve_offerer,
}
use unito_blockchain_25_26_p.Domain.Channel.Calls.{
  Call, offers, redeems, refunds, revokes, closes, after,
}
use unito_blockchain_25_26_p.Domain.Channel.Refusals.{add_htlc_iff}
use unito_blockchain_25_26_p.Domain.Predicates.{Hashes, digest_matches_iff, preimage_digest}
use unito_blockchain_25_26_p.Domain.Records.{Channel, ChannelState, HtlcContract}
use unito_blockchain_25_26_p.Errors.{Result, ok}

-- What a method returns or raises.
abbrev pub answer : Hashes → Channel → Call → Result Bool
answer hs c (offers h a) = (add_htlc c h a).0
answer hs c (redeems k r) = (redeem_htlc hs c k r).0
answer hs c (refunds k n) = (refund_htlc c k n).0
answer hs c (revokes n s) = ok true
answer hs c closes = ok true

-- When a call should return: an offer on an open channel by a party that has the amount, a redemption of
-- an HTLC that is not settled or refunded with its preimage, a refund of an HTLC at its locktime or later.
abbrev pub Suits : Hashes → Channel → Call → Type 0
Suits hs c (offers h a) =
    let offerer = resolve_offerer c h a in
    (c.state ≡ ChannelState.opened)
    × (((offerer ≡ c.sender_alias) × (h.amount_sat ≤ℤ c.balance_sender_sat))
        ⊎ ((offerer ≢ c.sender_alias)
            × (offerer ≡ c.receiver_alias)
            × (h.amount_sat ≤ℤ c.balance_receiver_sat)))
Suits hs c (redeems k r) =
    (h : HtlcContract) × (lookup k c.active_htlcs ≡ some h)
    × (is_active h ≡ true)
    × (preimage_digest hs r ≡ some h.payment_hash)
Suits hs c (refunds k n) =
    (h : HtlcContract) × (lookup k c.active_htlcs ≡ some h) × (h.locktime ≤ℤ n)
Suits hs c _ = Unit

abbrev pub AnswersAll : Hashes → Channel → List Call → Type 0
AnswersAll hs c [] = Unit
AnswersAll hs c (call ∷ calls) =
    ((answer hs c call ≡ ok true) ↔ Suits hs c call) × AnswersAll hs (after hs c call) calls

redeem_htlc_iff :
    (hs : Hashes) (c : Channel) (k r : String)
    → ((redeem_htlc hs c k r).0 ≡ ok true) ↔ Suits hs c (redeems k r)
unfolding redeem_htlc has_valid_preimage
redeem_htlc_iff hs c k r = (
  (λ q. elim (Option-cases (lookup k c.active_htlcs)) [
    | inl missing ↦ absurd (ground arith)
    | inr (h, found) ↦ (
      h,
      found,
      ground arith,
      (digest_matches_iff (preimage_digest hs r) h.payment_hash).0 (ground arith),
    )
  ]),
  (λ (h, found, active, fits).
      let matched = (digest_matches_iff (preimage_digest hs r) h.payment_hash).1 fits in
      ground (arith, found, active, matched)),
)

refund_htlc_iff :
    (hs : Hashes) (c : Channel) (k : String) (n : ℤ)
    → ((refund_htlc c k n).0 ≡ ok true) ↔ Suits hs c (refunds k n)
unfolding refund_htlc is_expired_at
refund_htlc_iff hs c k n = (
  (λ q. elim (Option-cases (lookup k c.active_htlcs)) [
    | inl missing ↦ absurd (ground arith)
    | inr (h, found) ↦ (h, found, ground arith)
  ]),
  (λ (h, found, expired). ground (arith, found, expired)),
)

pub answer_iff :
    (hs : Hashes) (c : Channel) (call : Call) → (answer hs c call ≡ ok true) ↔ Suits hs c call
answer_iff hs c (offers h a) = add_htlc_iff c h a
answer_iff hs c (redeems k r) = redeem_htlc_iff hs c k r
answer_iff hs c (refunds k n) = refund_htlc_iff hs c k n
answer_iff hs c (revokes n s) = ((λ q. tt), (λ t. refl))
answer_iff hs c closes = ((λ q. tt), (λ t. refl))
