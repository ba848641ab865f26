-- ===== src/Domain/Node/Reach.antt =====
-- domain/node.py: everything that the nodes of a process can do, in any order.
use unito_blockchain_25_26_p.Base.{
  ℕ, ◌≡◌, String, Bytes, string_eq, none, some, [], refl, sym, ap, ◌∙◌, arith, ◌<◌,
}
use unito_blockchain_25_26_p.Base.Int.{ℤ, pos, ◌≤ℤ◌}
use unito_blockchain_25_26_p.Base.Dict.{lookup}
use unito_blockchain_25_26_p.Errors.{ok}
use unito_blockchain_25_26_p.Domain.Predicates.{Hashes}
use unito_blockchain_25_26_p.Domain.Node.{
  World, get_channel_with, open_channel, create_invoice, route_htlc_payment, fulfill_htlc,
  node_refund_htlc,
}
use unito_blockchain_25_26_p.Domain.Channel.Invariant.{IsFunded}
use unito_blockchain_25_26_p.Domain.Node.Funded.{
  IsConsistent, open_channel-IsConsistent, create_invoice-IsConsistent,
  route_htlc_payment-IsConsistent, fulfill_htlc-IsConsistent, node_refund_htlc-IsConsistent,
}

-- One call of a method of a node. Capacities and amounts are not negative and an HTLC is offered under
-- an id that is new on its channel; the code checks neither.
pub data NodeStep (chan_id : String → String → String) (hs : Hashes) (w : World)
    : World → Type 0 where
  opens :
      (self peer : ℕ) (capacity : ℤ)
      → pos 0 ≤ℤ capacity
      → NodeStep chan_id hs w (open_channel chan_id w self peer capacity).1
  invoices :
      (self : ℕ) (preimage : Bytes) → NodeStep chan_id hs w (create_invoice hs w self preimage).1
  routes :
      (self : ℕ) (peer_alias : String) (amount : ℤ) (payment_hash : String) (locktime : ℤ)
      (htlc_id : String) (secret : Bytes)
      → pos 0 ≤ℤ amount
      → ((r : ℕ)
          → get_channel_with (w.node self) peer_alias ≡ ok r
          → lookup htlc_id (w.channel r).active_htlcs ≡ none)
      → NodeStep chan_id hs w
          (route_htlc_payment hs w self peer_alias amount payment_hash locktime htlc_id secret).1
  fulfils :
      (self : ℕ) (peer_alias htlc_id preimage_hex : String)
      → NodeStep chan_id hs w (fulfill_htlc hs w self peer_alias htlc_id preimage_hex).1
  refunds :
      (self : ℕ) (peer_alias htlc_id : String) (height : ℤ)
      → NodeStep chan_id hs w (node_refund_htlc w self peer_alias htlc_id height).1

pub data NodeReach (chan_id : String → String → String) (hs : Hashes) (w : World)
    : World → Type 0 where
  here : NodeReach chan_id hs w w
  next :
      {u v : World} → NodeReach chan_id hs w u → NodeStep chan_id hs u v → NodeReach chan_id hs w v

module _ {chan_id : String → String → String} {hs : Hashes} where
  NodeStep-IsConsistent : {w u : World} → NodeStep chan_id hs w u → IsConsistent w → IsConsistent u
  NodeStep-IsConsistent (opens self peer capacity p) v =
      open_channel-IsConsistent chan_id _ self peer capacity p v
  NodeStep-IsConsistent (invoices self preimage) v =
      create_invoice-IsConsistent hs _ self preimage v
  NodeStep-IsConsistent (routes self k amount h locktime i secret p fresh) v =
      route_htlc_payment-IsConsistent hs _ self k amount h locktime i secret p fresh v
  NodeStep-IsConsistent (fulfils self k i preimage) v =
      fulfill_htlc-IsConsistent hs _ self k i preimage v
  NodeStep-IsConsistent (refunds self k i height) v =
      node_refund_htlc-IsConsistent _ self k i height v

  NodeReach-IsConsistent :
      {w u : World} → IsConsistent w → NodeReach chan_id hs w u → IsConsistent u
  NodeReach-IsConsistent v here = v
  NodeReach-IsConsistent v (next r s) = NodeStep-IsConsistent s (NodeReach-IsConsistent v r)

  -- From a process in which no channel has been created and no node has any, and in which no two nodes
  -- have one alias (the code does not check this), however the nodes call one another, where capacities
  -- and amounts are not negative and HTLCs are offered under new ids: two nodes find one and the same
  -- channel object under each other's alias or both find none, each channel that a node finds has been
  -- created, and each channel that was created, also one that was replaced, keeps its funds, neither
  -- balance and no pending amount of it negative.
  pub channels_are_shared :
      {w u : World}
      → ((i j : ℕ) → (w.node i).alias ≡ (w.node j).alias → i ≡ j)
      → ((i : ℕ) → (w.node i).channels ≡ [])
      → w.next_channel ≡ 0
      → NodeReach chan_id hs w u
      → ((i j : ℕ)
          → lookup (u.node j).alias (u.node i).channels
            ≡ lookup (u.node i).alias (u.node j).channels)
        × ((i r : ℕ) (k : String) → lookup k (u.node i).channels ≡ some r → r < u.next_channel)
        × ((r : ℕ) → r < u.next_channel → IsFunded (u.channel r))
  channels_are_shared distinct empty none_yet reached =
      let start : IsConsistent _ = record {
        links = record {
          distinct = distinct;
          paired = λ i j. rw (empty i, empty j) refl;
          created = λ i r k found.
              (let impossible : none ≡ some r = sym (ap (lookup k) (empty i)) ∙ found in cc);
        };
        money = λ r h. absurd (omega (arith, none_yet, h));
      } in
      let end = NodeReach-IsConsistent start reached in
      (end.links.paired, end.links.created, end.money)
