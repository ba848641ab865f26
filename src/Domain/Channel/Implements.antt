-- ===== src/Domain/Channel/Implements.antt =====
-- domain/channel.py: what the ledger sees of a call of add_htlc, redeem_htlc or refund_htlc.
use mathlib.Core.Path.{subst}
use unito_blockchain_25_26_p.Domain.Channel.Calls.{
  offers, redeems, refunds, promise_of, view, side_of, event_of, happened,
}
use unito_blockchain_25_26_p.Domain.Channel.Ledger.{
  of_sender, of_receiver, other, promised, redeemed, refunded,
}
use unito_blockchain_25_26_p.Base.{
  Bool-cases, Option, String, arith, inl, inr, none, refl, some, string_eq, ◌==◌, ◌≡◌, ap, sym, ◌∙◌,
  true, Bool, Option-cases, ◌&&◌,
}
use unito_blockchain_25_26_p.Base.Dict.{HasDistinctKeys, lookup}
use unito_blockchain_25_26_p.Domain.Channel.{
  resolve_offerer, add_htlc, has_sufficient_sender_balance_for, is_open, has_valid_preimage,
  is_active, is_expired_at, redeem_htlc, refund_htlc,
}
use unito_blockchain_25_26_p.Domain.Predicates.{Hashes}
use unito_blockchain_25_26_p.Domain.Records.{Channel, HtlcContract}
use unito_blockchain_25_26_p.Base.Int.{ltb_ℤ, ℤ}
use unito_blockchain_25_26_p.Domain.Channel.Liveness.{is_senders}
use unito_blockchain_25_26_p.Errors.{ok, Result}
use unito_blockchain_25_26_p.Domain.Channel.Writes.{
  Implements, Implements-idle, Implements-promised, Implements-paid, apply-redeemed, apply-refunded,
  redeemable, expired_lem, resolved_lem,
}

module _ (hs : Hashes) (c : Channel) (distinct : HasDistinctKeys c.active_htlcs) where
  pub add_htlc-Implements :
      (h : HtlcContract) (a : Option String)
      → lookup h.htlc_id c.active_htlcs ≡ none
      → Implements hs c (event_of hs c (offers h a)) (add_htlc c h a).1
  unfolding add_htlc
  add_htlc-Implements h a fresh =
      let o = resolve_offerer c h a in
      let h' = record h { offerer_alias = some o } in
      let event = event_of hs c (offers h a) in
      let d = (add_htlc c h a).1 in
      let by : is_senders c.sender_alias h' ≡ (o == c.sender_alias) =
        ap (λ (n : String). n == c.sender_alias) (resolved_lem c h a) in
      elim (Bool-cases (is_open c)) [
        | inr shut ↦
            Implements-idle hs c distinct event d (rw (shut, add_htlc) refl)
              (rw (shut, add_htlc) refl)
        | inl open_now ↦ elim (Bool-cases (o == c.sender_alias)) [
          | inl mine ↦ elim (Bool-cases (has_sufficient_sender_balance_for c h.amount_sat)) [
            | inl enough ↦
                let done : (add_htlc c h a).0 ≡ ok true = ground arith in
                let name : event
                    ≡ promised h.htlc_id
                        (record (promise_of c.sender_alias h') { side = of_sender }) =
                  rw (done, mine) refl in
                subst (λ ev. Implements hs c ev d) (sym name)
                  (Implements-promised hs c distinct d h.htlc_id h' of_sender fresh
                    (ground (arith, enough)) (ap side_of (by ∙ mine)) (ground arith) (ground arith)
                    (ground arith) (ground arith))
            | inr short ↦ Implements-idle hs c distinct event d (ground arith) (ground arith)
          ]
          | inr differs ↦ elim (Bool-cases (o == c.receiver_alias)) [
            | inl theirs ↦ elim (Bool-cases (ltb_ℤ c.balance_receiver_sat h.amount_sat)) [
              | inl short ↦ Implements-idle hs c distinct event d (ground arith) (ground arith)
              | inr enough ↦
                  let done : (add_htlc c h a).0 ≡ ok true = ground arith in
                  let name : event
                      ≡ promised h.htlc_id
                          (record (promise_of c.sender_alias h') { side = of_receiver }) =
                    rw (done, differs) refl in
                  subst (λ ev. Implements hs c ev d) (sym name)
                    (Implements-promised hs c distinct d h.htlc_id h' of_receiver fresh
                      (ground (arith, enough)) (ap side_of (by ∙ differs)) (ground arith)
                      (ground arith) (ground arith) (ground arith))
            ]
            | inr unknown ↦ Implements-idle hs c distinct event d (ground arith) (ground arith)
          ]
        ]
      ]

  pub redeem_htlc-Implements :
      (k r : String) → Implements hs c (event_of hs c (redeems k r)) (redeem_htlc hs c k r).1
  unfolding redeem_htlc
  redeem_htlc-Implements k r =
      let event = event_of hs c (redeems k r) in
      let d = (redeem_htlc hs c k r).1 in
      elim (Option-cases (lookup k c.active_htlcs)) [
        | inl missing ↦
            Implements-idle hs c distinct event d (rw (missing, redeem_htlc) refl)
              (rw (missing, redeem_htlc) refl)
        | inr (h, found) ↦ elim (Bool-cases (is_active h && has_valid_preimage hs h r)) [
          | inr refused ↦ Implements-idle hs c distinct event d (ground arith) (ground arith)
          | inl ok_now ↦
              let happens : (redeem_htlc hs c k r).0 ≡ ok true = ground arith in
              let name : event ≡ redeemed k r =
                ap (λ (x : Result Bool). happened x (redeemed k r)) happens in
              let p = promise_of c.sender_alias h in
              let held : (view c).promises k ≡ some p = rw found refl in
              let (seen, left) =
                Implements-paid hs c distinct d k h (other p.side) found (ground arith)
                  (ground arith) (ground arith) (ground arith) in
              subst (λ ev. Implements hs c ev d) (sym name)
                (
                  (p, held, redeemable hs h r ok_now),
                  seen ∙ sym (apply-redeemed (view c) k r p held),
                  left,
                )
        ]
      ]

  pub refund_htlc-Implements :
      (k : String) (n : ℤ) → Implements hs c (event_of hs c (refunds k n)) (refund_htlc c k n).1
  unfolding refund_htlc
  refund_htlc-Implements k n =
      let event = event_of hs c (refunds k n) in
      let d = (refund_htlc c k n).1 in
      elim (Option-cases (lookup k c.active_htlcs)) [
        | inl missing ↦
            Implements-idle hs c distinct event d (rw (missing, refund_htlc) refl)
              (rw (missing, refund_htlc) refl)
        | inr (h, found) ↦ elim (Bool-cases (is_expired_at h n)) [
          | inr refused ↦ Implements-idle hs c distinct event d (ground arith) (ground arith)
          | inl ok_now ↦
              let happens : (refund_htlc c k n).0 ≡ ok true = ground arith in
              let name : event ≡ refunded k n =
                ap (λ (x : Result Bool). happened x (refunded k n)) happens in
              let p = promise_of c.sender_alias h in
              let held : (view c).promises k ≡ some p = rw found refl in
              let (seen, left) =
                Implements-paid hs c distinct d k h p.side found (ground arith) (ground arith)
                  (ground arith) (ground arith) in
              subst (λ ev. Implements hs c ev d) (sym name)
                (
                  (p, held, expired_lem h n ok_now),
                  seen ∙ sym (apply-refunded (view c) k n p held),
                  left,
                )
        ]
      ]
