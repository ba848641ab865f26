-- ===== src/Domain/Node/Pairing.antt =====
-- domain/node.py: the two ends of a channel find the same object.
use unito_blockchain_25_26_p.Base.{
  ℕ, ◌<◌, ◌≡◌, ◌==◌, nat_eq, String, string_eq, some, arith, if◌then◌else◌, sym, ◌+◌, ◌∙◌,
}
use unito_blockchain_25_26_p.Base.Int.{ℤ, int_eq}
use unito_blockchain_25_26_p.Base.Dict.{lookup, insert, lookup-insert}
use unito_blockchain_25_26_p.Domain.Node.{World, open_channel}

-- The channels of a node after `open_channel` between two nodes.
pub lookup-open_channel :
    (chan_id : String → String → String) (w : World) (self peer : ℕ) (capacity : ℤ) (i : ℕ)
    (k : String)
    → lookup k ((open_channel chan_id w self peer capacity).1.node i).channels ≡ (
        if i == peer
        then (if k == (w.node self).alias
            then some w.next_channel
            else (if peer == self
                then (if k == (w.node peer).alias
                    then some w.next_channel
                    else lookup k (w.node i).channels)
                else lookup k (w.node i).channels))
        else if i == self
        then (if k == (w.node peer).alias
            then some w.next_channel
            else lookup k (w.node i).channels)
        else lookup k (w.node i).channels)
unfolding open_channel
lookup-open_channel chan_id w self peer capacity i k = ground (
  arith,
  lookup-insert (w.node peer).alias k w.next_channel (w.node self).channels,
  lookup-insert (w.node self).alias k w.next_channel (w.node peer).channels,
  lookup-insert (w.node self).alias k w.next_channel
      (insert (w.node peer).alias w.next_channel (w.node self).channels),
)

pub alias-open_channel :
    (chan_id : String → String → String) (w : World) (self peer : ℕ) (capacity : ℤ) (i : ℕ)
    → ((open_channel chan_id w self peer capacity).1.node i).alias ≡ (w.node i).alias
unfolding open_channel
alias-open_channel chan_id w self peer capacity i = ground arith

-- No two nodes have the same alias, the two ends of each channel hold the same object, and a node
-- holds only channels that were created.
pub record IsPaired (w : World) : Type 0 where
  pub distinct : (i j : ℕ) → (w.node i).alias ≡ (w.node j).alias → i ≡ j
  pub paired :
      (i j : ℕ)
      → lookup (w.node j).alias (w.node i).channels ≡ lookup (w.node i).alias (w.node j).channels
  pub created : (i r : ℕ) (k : String) → lookup k (w.node i).channels ≡ some r → r < w.next_channel

module _ (chan_id : String → String → String) (w : World) (self peer : ℕ) (capacity : ℤ)
    (v : IsPaired w) where
  open_channel-paired :
      (i j : ℕ)
      → let w' = (open_channel chan_id w self peer capacity).1 in
        lookup (w.node j).alias (w'.node i).channels ≡ lookup (w.node i).alias (w'.node j).channels
  open_channel-paired i j = ground (
    arith,
    lookup-open_channel chan_id w self peer capacity i (w.node j).alias,
    lookup-open_channel chan_id w self peer capacity j (w.node i).alias,
    string_eq.beq_iff (w.node j).alias (w.node self).alias,
    string_eq.beq_iff (w.node j).alias (w.node peer).alias,
    string_eq.beq_iff (w.node i).alias (w.node self).alias,
    string_eq.beq_iff (w.node i).alias (w.node peer).alias,
    v.distinct j self,
    v.distinct j peer,
    v.distinct i self,
    v.distinct i peer,
    v.paired i j,
  )

  next_channel-open_channel :
      (open_channel chan_id w self peer capacity).1.next_channel ≡ w.next_channel + 1
  unfolding open_channel
  next_channel-open_channel = omega arith

  open_channel-created :
      (i r : ℕ) (k : String)
      → lookup k ((open_channel chan_id w self peer capacity).1.node i).channels ≡ some r
      → r < w.next_channel + 1
  open_channel-created i r k found =
      ground (arith, lookup-open_channel chan_id w self peer capacity i k, v.created i r k)

  -- Opening a channel keeps the two ends of every channel together.
  pub open_channel-IsPaired : IsPaired (open_channel chan_id w self peer capacity).1
  open_channel-IsPaired =
      let same = alias-open_channel chan_id w self peer capacity in
      record {
        distinct = λ i j e. v.distinct i j (sym (same i) ∙ e ∙ same j);
        paired = λ i j. rw (same i, same j) (open_channel-paired i j);
        created = λ i r k found. rw next_channel-open_channel (open_channel-created i r k found);
      }
