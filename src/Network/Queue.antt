-- ===== src/Network/Queue.antt =====
-- src/payment_communities/network/routing.py: the heap of the search, with the order of its entries.
use Prim.Native.Nat.{Ordering}
use Prim.Native.String.{compare}
use unito_blockchain_25_26_p.Base.{
  string_eq, Bool, List, String, [], false, if◌then◌else◌, ltb, nat_beq, string_eq, true, ℕ, ◌==◌,
  ◌∷◌,
}

-- An entry of the heap: its cost, the node it is at, and the nodes from the source to there.
pub record Entry : Type 0 where
  pub cost : ℕ
  pub current : String
  pub path : List String

-- Python's `<` on strings, by code points.
abbrev pub str_lt : String → String → Bool
str_lt s t = elim (compare s t) [ Ordering.lt ↦ true | _ ↦ false ]

unfoldable pub paths_lt : List String → List String → Bool
paths_lt [] [] = false
paths_lt [] (y ∷ ys) = true
paths_lt (x ∷ xs) [] = false
paths_lt (x ∷ xs) (y ∷ ys) = if x == y then paths_lt xs ys else str_lt x y

-- Python's `<` on the tuples of the heap.
unfoldable pub entry_lt : Entry → Entry → Bool
unfolding paths_lt
entry_lt a b =
    if nat_beq a.cost b.cost
    then (if a.current == b.current then paths_lt a.path b.path else str_lt a.current b.current)
    else ltb a.cost b.cost

-- The heap is kept as a list with its smallest entry first: entries that neither precedes the other are
-- equal, so which of them `heappop` takes does not show.
unfoldable pub heappush : Entry → List Entry → List Entry
unfolding entry_lt
heappush entry [] = entry ∷ []
heappush entry (e ∷ queue) =
    if entry_lt e entry then e ∷ heappush entry queue else entry ∷ e ∷ queue
