-- ===== src/Domain/Channel/Writes.antt =====
-- domain/channel.py: what the ledger sees of a write to a channel.
use unito_blockchain_25_26_p.Domain.Channel.Calls.{promise_in, promise_of, view, side_of}
use unito_blockchain_25_26_p.Domain.Channel.Ledger.{
  of_sender, of_receiver, Allows, Event, apply, idle, other, Side, ledger_eq, pay, pot, promised,
  take_from, write, Ledger, Promise, redeemed, refunded,
}
use unito_blockchain_25_26_p.Base.{
  Bool-cases, Option, String, arith, if◌then◌else◌, inl, inr, none, refl, some, string_eq, ◌==◌,
  ◌≡◌, ap, sym, ◌∙◌, true, ◌&&◌,
}
use unito_blockchain_25_26_p.Base.Dict.{
  Dict, HasDistinctKeys, erase, insert, lookup, lookup-erase_ne, lookup-erase_self, lookup-insert,
  erase-HasDistinctKeys, insert-HasDistinctKeys,
}
use unito_blockchain_25_26_p.Domain.Channel.{
  or_alias, resolve_offerer, has_valid_preimage, is_active, is_expired_at,
}
use unito_blockchain_25_26_p.Domain.Predicates.{Hashes, preimage_digest, digest_matches_iff}
use unito_blockchain_25_26_p.Domain.Records.{Channel, HtlcContract}
use unito_blockchain_25_26_p.Base.Int.{◌≤ℤ◌, ℤ}
use unito_blockchain_25_26_p.Domain.Channel.Liveness.{is_senders}

-- A call is right where its event is allowed, the ledger changes by the event, and ids stay distinct.
abbrev pub Implements : Hashes → Channel → Event → Channel → Type 0
Implements hs c event d =
    Allows hs (view c) event × (view d ≡ apply (view c) event) × HasDistinctKeys d.active_htlcs

or_alias_stays :
    (x : Option String) (b s : String)
    → or_alias (some b) s ≡ b
    → or_alias (some (or_alias x b)) s ≡ or_alias x b
or_alias_stays none b s e = e
or_alias_stays (some a) b s e = elim (Bool-cases (a == "")) [
  | inl blank ↦ rw blank e
  | inr named ↦ rw (named, named) refl
]

take_from-promises :
    (side : Side) (a : ℤ) (l : Ledger) (j : String) → (take_from side a l).promises j ≡ l.promises j
take_from-promises of_sender a l j = refl
take_from-promises of_receiver a l j = refl

pay-promises :
    (side : Side) (a : ℤ) (l : Ledger) (j : String) → (pay side a l).promises j ≡ l.promises j
pay-promises of_sender a l j = refl
pay-promises of_receiver a l j = refl

-- The offerer that is resolved reads back as itself.
pub resolved_lem :
    (c : Channel) (h : HtlcContract) (a : Option String)
    → or_alias (some (resolve_offerer c h a)) c.sender_alias ≡ resolve_offerer c h a
unfolding resolve_offerer
resolved_lem c h a =
    let s = c.sender_alias in
    or_alias_stays a (or_alias h.offerer_alias s) s
      (or_alias_stays h.offerer_alias s s (ground arith))

module _ (s : String) (k : String) (h : HtlcContract) (d : Dict String HtlcContract) where
  promise_in-insert :
      (j : String)
      → promise_in s (lookup j (insert k h d))
        ≡ (if j == k then some (promise_of s h) else promise_in s (lookup j d))
  promise_in-insert j = elim (Bool-cases (j == k)) [
    | inl same ↦ rw (lookup-insert k j h d, same) refl
    | inr differs ↦ rw (lookup-insert k j h d, differs) refl
  ]

module _ (s : String) (k : String) (d : Dict String HtlcContract) where
  promise_in-erase :
      HasDistinctKeys d
      → (j : String)
      → promise_in s (lookup j (erase k d)) ≡ (if j == k then none else promise_in s (lookup j d))
  promise_in-erase distinct j = elim (Bool-cases (j == k)) [
    | inl same ↦ rw (same, (string_eq.beq_iff j k).0 same, lookup-erase_self k d distinct) refl
    | inr differs ↦
        rw (differs, lookup-erase_ne k j d (λ e. ground (arith, string_eq.beq_iff j k, e, differs)))
          refl
  ]

pub apply-redeemed :
    (l : Ledger) (k r : String) (p : Promise)
    → l.promises k ≡ some p
    → apply l (redeemed k r) ≡ write k none (pay (other p.side) p.amount l)
apply-redeemed l k r p held = rw (held, apply) refl

pub apply-refunded :
    (l : Ledger) (k : String) (n : ℤ) (p : Promise)
    → l.promises k ≡ some p
    → apply l (refunded k n) ≡ write k none (pay p.side p.amount l)
apply-refunded l k n p held = rw (held, apply) refl

pub redeemable :
    (hs : Hashes) (h : HtlcContract) (r : String)
    → (is_active h && has_valid_preimage hs h r) ≡ true
    → preimage_digest hs r ≡ some h.payment_hash
unfolding has_valid_preimage
redeemable hs h r ok_now =
    (digest_matches_iff (preimage_digest hs r) h.payment_hash).0 (ground arith)

pub expired_lem : (h : HtlcContract) (n : ℤ) → is_expired_at h n ≡ true → h.locktime ≤ℤ n
unfolding is_expired_at
expired_lem h n ok_now = ground arith

module _ (hs : Hashes) (c : Channel) (distinct : HasDistinctKeys c.active_htlcs) where
  pub Implements-idle :
      (event : Event) (d : Channel) → event ≡ idle → d ≡ c → Implements hs c event d
  Implements-idle event d e same = rw (e, same) (tt, refl, distinct)

  -- An offer that is accepted: what is left of the channel, part by part.
  pub Implements-promised :
      (d : Channel) (k : String) (h : HtlcContract) (side : Side)
      → lookup k c.active_htlcs ≡ none
      → h.amount_sat ≤ℤ pot side (view c)
      → side_of (is_senders c.sender_alias h) ≡ side
      → d.sender_alias ≡ c.sender_alias
      → d.active_htlcs ≡ insert k h c.active_htlcs
      → d.balance_sender_sat ≡ (take_from side h.amount_sat (view c)).sender
      → d.balance_receiver_sat ≡ (take_from side h.amount_sat (view c)).receiver
      → Implements hs c (promised k (record (promise_of c.sender_alias h) { side = side })) d
  Implements-promised d k h side fresh fits by named left to_sender to_receiver =
      let p = record (promise_of c.sender_alias h) { side = side } in
      let promises : (j : String)
          → promise_in d.sender_alias (lookup j d.active_htlcs)
            ≡ (if j == k then some p else promise_in c.sender_alias (lookup j c.active_htlcs)) =
        λ j. rw (named, left, ← by) (promise_in-insert c.sender_alias k h c.active_htlcs j) in
      (
        (rw fresh refl, fits),
        ledger_eq (view d) (apply (view c) (promised k p)) to_sender to_receiver (λ j.
            promises j
            ∙ ap (λ (o : Option Promise). if j == k then some p else o)
                (sym (take_from-promises side h.amount_sat (view c) j))),
        rw left (insert-HasDistinctKeys k h c.active_htlcs distinct),
      )

  -- An HTLC that ends pays a side.
  pub Implements-paid :
      (d : Channel) (k : String) (h : HtlcContract) (side : Side)
      → lookup k c.active_htlcs ≡ some h
      → d.sender_alias ≡ c.sender_alias
      → d.active_htlcs ≡ erase k c.active_htlcs
      → d.balance_sender_sat ≡ (pay side h.amount_sat (view c)).sender
      → d.balance_receiver_sat ≡ (pay side h.amount_sat (view c)).receiver
      → (view d ≡ write k none (pay side h.amount_sat (view c))) × HasDistinctKeys d.active_htlcs
  Implements-paid d k h side found named left to_sender to_receiver =
      let promises : (j : String)
          → promise_in d.sender_alias (lookup j d.active_htlcs)
            ≡ (if j == k then none else promise_in c.sender_alias (lookup j c.active_htlcs)) =
        λ j. rw (named, left) (promise_in-erase c.sender_alias k c.active_htlcs distinct j) in
      (
        ledger_eq (view d) (write k none (pay side h.amount_sat (view c))) to_sender to_receiver
            (λ j.
              promises j
              ∙ ap (λ (o : Option Promise). if j == k then none else o)
                  (sym (pay-promises side h.amount_sat (view c) j))),
        rw left (erase-HasDistinctKeys k c.active_htlcs distinct),
      )
