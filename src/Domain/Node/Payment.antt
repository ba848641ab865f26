-- ===== src/Domain/Node/Payment.antt =====
-- domain/node.py: a payment between two nodes, from the opening of their channel to its fulfilment.
use unito_blockchain_25_26_p.Base.{
  ℕ, ◌≡◌, ◌≢◌, nat_eq, String, string_eq, true, none, some, arith, Bytes, refl, ◌∙◌, ap,
}
use unito_blockchain_25_26_p.Base.Int.{ℤ, pos, int_eq, ◌+ℤ◌}
use unito_blockchain_25_26_p.Base.Dict.{lookup, Dict, insert}
use unito_blockchain_25_26_p.Errors.{ok}
use unito_blockchain_25_26_p.Domain.Predicates.{Hashes}
use unito_blockchain_25_26_p.Domain.Records.{Channel}
use unito_blockchain_25_26_p.Domain.Channel.{
  add_htlc, resolve_offerer, has_valid_preimage, is_active,
}
use unito_blockchain_25_26_p.Domain.Node.{
  Node, World, get_channel_with, open_channel, opened_channel, create_invoice, new_htlc,
  route_htlc_payment, fulfill_htlc, update,
}
use unito_blockchain_25_26_p.Domain.Node.Pairing.{lookup-open_channel}
use unito_blockchain_25_26_p.Domain.Channel.Settlement.{Paid, redeem_htlc-add_htlc}
use unito_blockchain_25_26_p.Domain.Node.Offers.{add_htlc-sequence, fulfilled, routed_fulfilled}

get_channel_with_found :
    (n : Node) (k : String) (r : ℕ) → lookup k n.channels ≡ some r → get_channel_with n k ≡ ok r
unfolding get_channel_with
get_channel_with_found n k r found = ground arith

-- Right after `open_channel` each of the two nodes finds the new channel under the other's alias,
-- and it is open with all its capacity on the side of the node that opened it; every other channel
-- object is as it was.
pub open_channel_shared :
    (chan_id : String → String → String) (w : World) (self peer : ℕ) (capacity : ℤ)
    → let (r, w') = open_channel chan_id w self peer capacity in
      (get_channel_with (w'.node self) (w.node peer).alias ≡ ok r)
      × (get_channel_with (w'.node peer) (w.node self).alias ≡ ok r)
      × (w'.channel r ≡ opened_channel chan_id (w.node self) (w.node peer) capacity)
      × ((old : ℕ) → old ≢ r → w'.channel old ≡ w.channel old)
unfolding open_channel
open_channel_shared chan_id w self peer capacity = (
  get_channel_with_found _ _ _ (
      ground (
        arith,
        lookup-open_channel chan_id w self peer capacity self (w.node peer).alias,
        string_eq.beq_iff (w.node peer).alias (w.node peer).alias,
      )),
  get_channel_with_found _ _ _ (
      ground (
        arith,
        lookup-open_channel chan_id w self peer capacity peer (w.node self).alias,
        string_eq.beq_iff (w.node self).alias (w.node self).alias,
      )),
  ground arith,
  λ old other. ground arith,
)

written_twice :
    (f g : ℕ → Channel) (r : ℕ) (c d : Channel)
    → f ≡ update (update g r c) r d
    → (f r ≡ d) × ((other : ℕ) → other ≢ r → f other ≡ g other)
written_twice f g r c d e = rw e (ground arith, λ other ne. ground arith)

module _ (hs : Hashes) (v : World) (peer : ℕ) (preimage : Bytes) where
  abbrev invoiced : World
  invoiced = (create_invoice hs v peer preimage).1

  invoiced_keeps :
      (i : ℕ)
      → ((invoiced.node i).alias ≡ (v.node i).alias)
        × ((invoiced.node i).channels ≡ (v.node i).channels)
        × ((invoiced.node i).revocation_secrets ≡ (v.node i).revocation_secrets)
  unfolding create_invoice
  invoiced_keeps i = (ground arith, ground arith, ground arith)

  get_channel_with-invoiced :
      (i : ℕ) (k : String) → get_channel_with (invoiced.node i) k ≡ get_channel_with (v.node i) k
  unfolding get_channel_with
  get_channel_with-invoiced i k = rw (invoiced_keeps i).1 refl

pub pay :
    (hs : Hashes) (v : World) (self peer r : ℕ) (amount locktime : ℤ) (preimage secret : Bytes)
    (htlc_id : String) (secrets : Dict ℤ String)
    → get_channel_with (v.node self) (v.node peer).alias ≡ ok r
    → get_channel_with (v.node peer) (v.node self).alias ≡ ok r
    → lookup (v.node peer).alias (v.node self).revocation_secrets ≡ some secrets
    → lookup htlc_id (v.channel r).active_htlcs ≡ none
    → hs.x (hs.b2x preimage) ≡ some preimage
    → let me = some (v.node self).alias in
      let ((preimage_hex, payment_hash), v1) = create_invoice hs v peer preimage in
      let htlc = new_htlc htlc_id payment_hash amount locktime me in
      (add_htlc (v.channel r) htlc me).0 ≡ ok true
      → let (offered, v2) =
          route_htlc_payment hs v1 self
            (v.node peer).alias
            amount
            payment_hash
            locktime
            htlc_id
            secret in
        let (fulfilled, v3) = fulfill_htlc hs v2 peer (v.node self).alias htlc_id preimage_hex in
        (offered ≡ ok true)
        × (fulfilled ≡ ok true)
        × Paid (v.channel r) (resolve_offerer (v.channel r) htlc me) amount (v3.channel r)
        × ((v3.channel r).active_htlcs ≡ (v.channel r).active_htlcs)
        × ((other : ℕ) → other ≢ r → v3.channel other ≡ v.channel other)
        × (lookup (v.node peer).alias (v3.node self).revocation_secrets
            ≡ some (insert ((v.channel r).sequence_number +ℤ pos 1) (hs.b2x secret) secrets))
unfolding create_invoice has_valid_preimage is_active
pay hs v self peer r amount locktime preimage secret htlc_id secrets mine theirs kept fresh readable
      accepted =
    let me = (v.node self).alias in
    let you = (v.node peer).alias in
    let preimage_hex = hs.b2x preimage in
    let hash = hs.b2x (hs.sha256 preimage) in
    let keeps = invoiced_keeps hs v peer preimage self in
    let (sends, gets, changes, keeps_secret) =
      routed_fulfilled hs (invoiced hs v peer preimage) self peer r me you amount locktime hash
        preimage_hex secret htlc_id secrets keeps.0
        (get_channel_with-invoiced hs v peer preimage self you ∙ mine)
        (get_channel_with-invoiced hs v peer preimage peer me ∙ theirs)
        (ap (lookup you) keeps.2 ∙ kept) accepted in
    let (redeemed, moved, same, _) =
      redeem_htlc-add_htlc hs (v.channel r) (new_htlc htlc_id hash amount locktime (some me))
        (some me) preimage_hex fresh refl (ground (arith, string_eq.beq_iff hash hash)) accepted in
    let (now, others) = written_twice _ v.channel r _ _ changes in
    let numbered =
      add_htlc-sequence (v.channel r) (new_htlc htlc_id hash amount locktime (some me)) (some me)
        accepted in
    (
      sends,
      gets ∙ redeemed,
      rw now moved,
      rw now same,
      others,
      keeps_secret ∙ ap (λ (n : ℤ). some (insert n (hs.b2x secret) secrets)) numbered,
    )
