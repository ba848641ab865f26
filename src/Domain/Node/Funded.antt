-- ===== src/Domain/Node/Funded.antt =====
-- domain/node.py: what holds of all objects, whatever the nodes of a process do.
use unito_blockchain_25_26_p.Base.{
  ℕ, ◌<◌, ◌≡◌, ◌==◌, nat_eq, String, string_eq, Bool, true, false, none, some, arith, inl, inr,
  refl, Bytes, Bool-cases, sym, ◌∙◌, ap,
}
use unito_blockchain_25_26_p.Base.Int.{ℤ, pos, ◌≤ℤ◌, int_eq, int_laws}
use unito_blockchain_25_26_p.Base.Dict.{lookup}
use unito_blockchain_25_26_p.Errors.{Result, ok, err, Result-cases}
use unito_blockchain_25_26_p.Domain.Predicates.{Hashes}
use unito_blockchain_25_26_p.Domain.Records.{Channel}
use unito_blockchain_25_26_p.Domain.Channel.{add_htlc, redeem_htlc, refund_htlc}
use unito_blockchain_25_26_p.Domain.Channel.Funds.{funds, locked}
use unito_blockchain_25_26_p.Domain.Channel.Invariant.{
  IsFunded, add_htlc-IsFunded, redeem_htlc-IsFunded, refund_htlc-IsFunded,
}
use unito_blockchain_25_26_p.Domain.Node.{
  Node, World, update, get_channel_with, open_channel, opened_channel, create_invoice, new_htlc,
  route_htlc_payment, fulfill_htlc, node_refund_htlc, after_offer, set_channel_object,
}
use unito_blockchain_25_26_p.Domain.Node.Pairing.{IsPaired, open_channel-IsPaired}

-- Every channel that was created keeps its funds.
abbrev pub AreFunded : World → Type 0
AreFunded w = (r : ℕ) → r < w.next_channel → IsFunded (w.channel r)

-- A method of a node, by what it does to the objects that channels are found by.
record KeepsLinks (w w' : World) : Type 0 where
  alias : (i : ℕ) → (w'.node i).alias ≡ (w.node i).alias
  channels : (i : ℕ) → (w'.node i).channels ≡ (w.node i).channels
  created : w'.next_channel ≡ w.next_channel

KeepsLinks-IsPaired : {w w' : World} → KeepsLinks w w' → IsPaired w → IsPaired w'
KeepsLinks-IsPaired k v = record {
  distinct = λ i j e. v.distinct i j (sym (k.alias i) ∙ e ∙ k.alias j);
  paired = λ i j. rw (k.alias i, k.alias j, k.channels i, k.channels j) (v.paired i j);
  created = λ i r name found.
      rw k.created (v.created i r name (ap (lookup name) (sym (k.channels i)) ∙ found));
}

opened_channel-IsFunded :
    (chan_id : String → String → String) (self peer : Node) (capacity : ℤ)
    → pos 0 ≤ℤ capacity
    → IsFunded (opened_channel chan_id self peer capacity)
unfolding opened_channel funds locked
opened_channel-IsFunded chan_id self peer capacity p = record {
  total = omega int_laws;
  sender = p;
  receiver = omega arith;
  amounts = tt;
  ids = tt;
}

update-IsFunded :
    (channel : ℕ → Channel) (at : ℕ) (c : Channel) (r : ℕ)
    → IsFunded (channel r)
    → (IsFunded (channel at) → IsFunded c)
    → IsFunded (update channel at c r)
update-IsFunded channel at c r v keep = elim (Bool-cases (r == at)) [
  | inl same ↦ rw same (keep (rw (← (nat_eq.beq_iff r at).0 same) v))
  | inr other ↦ rw other v
]

after_offer-KeepsLinks :
    (w : World) (self : ℕ) (peer_alias secret_hex : String) (result : Result Bool) (seq : ℤ)
    → KeepsLinks w (after_offer w self peer_alias secret_hex result seq).1
      × ((after_offer w self peer_alias secret_hex result seq).1.channel ≡ w.channel)
unfolding after_offer
after_offer-KeepsLinks w self k s (err raised) seq =
    (record { alias = λ i. refl; channels = λ i. refl; created = refl }, refl)
after_offer-KeepsLinks w self k s (ok false) seq =
    (record { alias = λ i. refl; channels = λ i. refl; created = refl }, refl)
after_offer-KeepsLinks w self k s (ok true) seq = (
  record { alias = λ i. ground arith; channels = λ i. ground arith; created = ground arith },
  ground arith,
)

-- Both parts of the invariant.
pub record IsConsistent (w : World) : Type 0 where
  pub links : IsPaired w
  pub money : AreFunded w

-- A write of one channel object by a method that keeps its funds.
IsConsistent-update :
    (w w' : World) (at : ℕ) (c : Channel)
    → KeepsLinks w w'
    → w'.channel ≡ update w.channel at c
    → (IsFunded (w.channel at) → IsFunded c)
    → IsConsistent w
    → IsConsistent w'
IsConsistent-update w w' at c k e keep v = record {
  links = KeepsLinks-IsPaired k v.links;
  money = λ r h. rw e (update-IsFunded w.channel at c r (v.money r (rw (← k.created) h)) keep);
}

pub open_channel-IsConsistent :
    (chan_id : String → String → String) (w : World) (self peer : ℕ) (capacity : ℤ)
    → pos 0 ≤ℤ capacity
    → IsConsistent w
    → IsConsistent (open_channel chan_id w self peer capacity).1
unfolding open_channel
open_channel-IsConsistent chan_id w self peer capacity p v = record {
  links = open_channel-IsPaired chan_id w self peer capacity v.links;
  money = λ r h. elim (Bool-cases (r == w.next_channel)) [
    | inl new ↦ rw new (opened_channel-IsFunded chan_id (w.node self) (w.node peer) capacity p)
    | inr old ↦ rw old (v.money r (ground arith))
  ];
}

pub create_invoice-IsConsistent :
    (hs : Hashes) (w : World) (self : ℕ) (preimage : Bytes)
    → IsConsistent w
    → IsConsistent (create_invoice hs w self preimage).1
unfolding create_invoice
create_invoice-IsConsistent hs w self preimage v = record {
  links =
      KeepsLinks-IsPaired
        (record { alias = λ i. ground arith; channels = λ i. ground arith; created = refl })
        v.links;
  money = v.money;
}

-- The premise says that the id is new on the channel that the alias names.
pub route_htlc_payment-IsConsistent :
    (hs : Hashes) (w : World) (self : ℕ) (peer_alias : String) (amount : ℤ) (payment_hash : String)
    (locktime : ℤ) (htlc_id : String) (secret : Bytes)
    → pos 0 ≤ℤ amount
    → ((r : ℕ)
        → get_channel_with (w.node self) peer_alias ≡ ok r
        → lookup htlc_id (w.channel r).active_htlcs ≡ none)
    → IsConsistent w
    → IsConsistent
        (route_htlc_payment hs w self peer_alias amount payment_hash locktime htlc_id secret).1
unfolding route_htlc_payment set_channel_object
route_htlc_payment-IsConsistent hs w self k amount payment_hash locktime htlc_id secret p fresh v =
    elim (Result-cases (get_channel_with (w.node self) k)) [
      | inr (e, none_open) ↦ rw (none_open, route_htlc_payment) v
      | inl (r, found) ↦
          let me = (w.node self).alias in
          let htlc = new_htlc htlc_id payment_hash amount locktime (some me) in
          let offered = add_htlc (w.channel r) htlc (some me) in
          let kept =
            after_offer-KeepsLinks (set_channel_object w r offered.1) self k (hs.b2x secret)
              offered.0 offered.1.sequence_number in
          let links : KeepsLinks w
              (after_offer (set_channel_object w r offered.1) self k (hs.b2x secret) offered.0
                offered.1.sequence_number).1 =
            record { alias = kept.0.alias; channels = kept.0.channels; created = kept.0.created } in
          rw (found, route_htlc_payment)
            (IsConsistent-update w _ r offered.1 links kept.1
              (add_htlc-IsFunded (w.channel r) htlc (some me) p (fresh r found)) v)
    ]

pub fulfill_htlc-IsConsistent :
    (hs : Hashes) (w : World) (self : ℕ) (peer_alias htlc_id preimage_hex : String)
    → IsConsistent w
    → IsConsistent (fulfill_htlc hs w self peer_alias htlc_id preimage_hex).1
unfolding fulfill_htlc set_channel_object
fulfill_htlc-IsConsistent hs w self k htlc_id preimage_hex v =
    elim (Result-cases (get_channel_with (w.node self) k)) [
      | inr (e, none_open) ↦ rw (none_open, fulfill_htlc) v
      | inl (r, found) ↦
          rw (found, fulfill_htlc)
            (IsConsistent-update w _ r (redeem_htlc hs (w.channel r) htlc_id preimage_hex).1
              (record { alias = λ i. refl; channels = λ i. refl; created = refl }) refl
              (redeem_htlc-IsFunded hs (w.channel r) htlc_id preimage_hex) v)
    ]

pub node_refund_htlc-IsConsistent :
    (w : World) (self : ℕ) (peer_alias htlc_id : String) (height : ℤ)
    → IsConsistent w
    → IsConsistent (node_refund_htlc w self peer_alias htlc_id height).1
unfolding node_refund_htlc set_channel_object
node_refund_htlc-IsConsistent w self k htlc_id height v =
    elim (Result-cases (get_channel_with (w.node self) k)) [
      | inr (e, none_open) ↦ rw (none_open, node_refund_htlc) v
      | inl (r, found) ↦
          rw (found, node_refund_htlc)
            (IsConsistent-update w _ r (refund_htlc (w.channel r) htlc_id height).1
              (record { alias = λ i. refl; channels = λ i. refl; created = refl }) refl
              (refund_htlc-IsFunded (w.channel r) htlc_id height) v)
    ]
