-- ===== src/Domain/Channel/Settlement.antt =====
-- domain/channel.py: what an HTLC does to the two balances from its offer to its end.
use unito_blockchain_25_26_p.Base.{
  String, ◌≡◌, ◌↔◌, true, false, inl, inr, Option, none, some, arith, ◌==◌, string_eq, Option-cases,
  if◌then◌else◌,
}
use unito_blockchain_25_26_p.Base.Int.{
  ℤ, pos, ◌+ℤ◌, ◌-ℤ◌, ◌≤ℤ◌, int_laws, sub_add_cancel, add_one_one,
}
use unito_blockchain_25_26_p.Base.Dict.{
  lookup, erase-insert_new, lookup-insert_self, lookup-erase_self, HasDistinctKeys,
}
use unito_blockchain_25_26_p.Errors.{ok, err, channel_state}
use unito_blockchain_25_26_p.Domain.Predicates.{Hashes, preimage_digest, digest_matches_iff}
use unito_blockchain_25_26_p.Domain.Records.{HtlcContract, Channel}
use unito_blockchain_25_26_p.Domain.Channel.{
  or_alias, resolve_offerer, is_active, has_valid_preimage, add_htlc, redeem_htlc, refund_htlc,
}

-- The balances after a payment of `amount` by `offerer` to the other party.
abbrev pub Paid : Channel → String → ℤ → Channel → Type 0
Paid c offerer amount d =
    (d.balance_sender_sat ≡ (
      if offerer == c.sender_alias
      then c.balance_sender_sat -ℤ amount
      else c.balance_sender_sat +ℤ amount))
    × (d.balance_receiver_sat ≡ (
        if offerer == c.sender_alias
        then c.balance_receiver_sat +ℤ amount
        else c.balance_receiver_sat -ℤ amount))

-- An alias that the fallback chain yields reads the same when it is resolved again.
resolve_offerer_again :
    (c : Channel) (h : HtlcContract) (a : Option String)
    → or_alias (some (resolve_offerer c h a)) c.sender_alias ≡ resolve_offerer c h a
unfolding resolve_offerer
resolve_offerer_again c h a = grind (arith, string_eq.beq_iff)

-- After a successful offer of an active HTLC under a new id, a redemption with a preimage of the
-- payment hash succeeds: the amount has moved from the offerer to the other party, the pending
-- HTLCs are those from before the offer, and the sequence number has advanced by two.
pub redeem_htlc-add_htlc :
    (hs : Hashes) (c : Channel) (h : HtlcContract) (a : Option String) (preimage_hex : String)
    → lookup h.htlc_id c.active_htlcs ≡ none
    → is_active h ≡ true
    → has_valid_preimage hs h preimage_hex ≡ true
    → (add_htlc c h a).0 ≡ ok true
    → let (r, d, _) = redeem_htlc hs (add_htlc c h a).1 h.htlc_id preimage_hex in
      (r ≡ ok true)
      × Paid c (resolve_offerer c h a) h.amount_sat d
      × (d.active_htlcs ≡ c.active_htlcs)
      × (d.sequence_number ≡ c.sequence_number +ℤ pos 2)
unfolding redeem_htlc add_htlc
redeem_htlc-add_htlc hs c h a r fresh active valid done =
    let h' = record h { offerer_alias = some (resolve_offerer c h a) } in
    grind (
      int_laws,
      resolve_offerer_again c h a,
      lookup-insert_self h.htlc_id h' c.active_htlcs,
      erase-insert_new h.htlc_id h' c.active_htlcs fresh,
    )

-- After a successful offer under a new id, a refund at a height that has reached the locktime
-- succeeds and restores both balances and the pending HTLCs; two sequence numbers are used up.
pub refund_htlc-add_htlc :
    (c : Channel) (h : HtlcContract) (a : Option String) (height : ℤ)
    → lookup h.htlc_id c.active_htlcs ≡ none
    → h.locktime ≤ℤ height
    → (add_htlc c h a).0 ≡ ok true
    → let (r, d, _) = refund_htlc (add_htlc c h a).1 h.htlc_id height in
      (r ≡ ok true) × (d ≡ record c { sequence_number = c.sequence_number +ℤ pos 2 })
unfolding refund_htlc add_htlc
refund_htlc-add_htlc c h a n fresh reached done =
    let h' = record h { offerer_alias = some (resolve_offerer c h a) } in
    ground (
      arith,
      resolve_offerer_again c h a,
      lookup-insert_self h.htlc_id h' c.active_htlcs,
      erase-insert_new h.htlc_id h' c.active_htlcs fresh,
      sub_add_cancel c.balance_sender_sat h.amount_sat,
      sub_add_cancel c.balance_receiver_sat h.amount_sat,
      add_one_one c.sequence_number,
    )

-- A redemption succeeds exactly when the id names a pending HTLC that is active and the SHA-256 of
-- the preimage is its payment hash.
pub redeem_htlc_iff :
    (hs : Hashes) (c : Channel) (htlc_id preimage_hex : String)
    → ((redeem_htlc hs c htlc_id preimage_hex).0 ≡ ok true) ↔ (
        (h : HtlcContract) × (lookup htlc_id c.active_htlcs ≡ some h)
        × (h.settled ≡ false)
        × (h.refunded ≡ false)
        × (preimage_digest hs preimage_hex ≡ some h.payment_hash))
unfolding redeem_htlc
redeem_htlc_iff hs c k r = elim (Option-cases (lookup k c.active_htlcs)) [
  | inl missing ↦ ((λ h. ground arith), (λ h. ground arith))
  | inr (g, found) ↦ (
    (λ h. (
      g,
      found,
      ground arith,
      ground arith,
      ground (arith, digest_matches_iff (preimage_digest hs r) g.payment_hash),
    )),
    (λ h. ground (arith, digest_matches_iff (preimage_digest hs r) g.payment_hash)),
  )
]

-- A refund succeeds exactly when the id names a pending HTLC whose locktime the height has reached.
pub refund_htlc_iff :
    (c : Channel) (htlc_id : String) (height : ℤ)
    → ((refund_htlc c htlc_id height).0 ≡ ok true)
      ↔ ((h : HtlcContract) × (lookup htlc_id c.active_htlcs ≡ some h) × (h.locktime ≤ℤ height))
unfolding refund_htlc
refund_htlc_iff c k n = elim (Option-cases (lookup k c.active_htlcs)) [
  | inl missing ↦ ((λ h. ground arith), (λ h. ground arith))
  | inr (g, found) ↦ ((λ h. (g, found, ground arith)), (λ h. ground arith))
]

-- In a channel whose pending ids are distinct, an HTLC ends once: after a successful redemption
-- neither a second one nor a refund of the same id is accepted, and neither changes the channel.
pub redeem_htlc_once :
    (hs : Hashes) (c : Channel) (htlc_id preimage_hex again : String) (height : ℤ)
    → HasDistinctKeys c.active_htlcs
    → (redeem_htlc hs c htlc_id preimage_hex).0 ≡ ok true
    → let d = (redeem_htlc hs c htlc_id preimage_hex).1 in
      (redeem_htlc hs d htlc_id again ≡ (err channel_state, d, none))
      × (refund_htlc d htlc_id height ≡ (err channel_state, d, none))
unfolding redeem_htlc refund_htlc
redeem_htlc_once hs c k r again n v done = elim (Option-cases (lookup k c.active_htlcs)) [
  | inl missing ↦ ground arith
  | inr (h, found) ↦ grind (arith, lookup-erase_self k c.active_htlcs v)
]
