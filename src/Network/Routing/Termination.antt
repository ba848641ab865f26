-- ===== src/Network/Routing/Termination.antt =====
-- network/routing.py: the search for a route ends.
use unito_blockchain_25_26_p.Base.{
  Bool-cases, List, String, [], ap, arith, false, inl, inr, none, not, refl, some, string_eq, suc,
  zero, ℕ, ◌&&◌, ◌++◌, ◌+◌, ◌<◌, ◌||◌, ◌∷◌, ◌≡◌, ◌≤◌, ◌⊎◌, ◌∙◌,
}
use unito_blockchain_25_26_p.Base.Dict.{Dict, contains, keys, lookup}
use unito_blockchain_25_26_p.Base.Int.{leb_ℤ, ℤ}
use unito_blockchain_25_26_p.Base.Lists.{length}
use unito_blockchain_25_26_p.Base.Members.{is_member}
use unito_blockchain_25_26_p.Domain.Records.{Channel}
use unito_blockchain_25_26_p.Errors.{Result, err, route_not_found}
use unito_blockchain_25_26_p.Network.Graph.{NetworkGraph, get_capacity, neighbors, row}
use unito_blockchain_25_26_p.Network.Routing.{
  PaymentRoute, Request, Turn, continue, find_route, finished, first_entry, push_neighbors, search,
  search_fuel, turn, unvisited_edges,
}
use unito_blockchain_25_26_p.Network.Queue.{Entry, entry_lt, heappush}

module _ (graph : NetworkGraph) where
  length-heappush :
      (entry : Entry) (queue : List Entry) → length (heappush entry queue) ≡ suc (length queue)
  unfolding heappush
  length-heappush entry [] = refl
  length-heappush entry (e ∷ queue) = elim (Bool-cases (entry_lt e entry)) [
    | inl h ↦ rw h (ap suc (length-heappush entry queue))
    | inr h ↦ rw h refl
  ]

  -- A turn pushes at most one entry for each neighbour.
  length-push_neighbors :
      (amount : ℤ) (entry : Entry) (nodes : List String) (queue : List Entry)
      → length (push_neighbors graph amount entry nodes queue) ≤ length nodes + length queue
  unfolding push_neighbors
  length-push_neighbors amount entry [] queue = omega arith
  length-push_neighbors amount entry (v ∷ nodes) queue =
      let pushed : Entry = record {
        cost = suc entry.cost;
        current = v;
        path = entry.path ++ (v ∷ []);
      } in
      elim (Bool-cases
        (not (is_member v entry.path) && leb_ℤ amount (get_capacity graph entry.current v))) [
          | inl h ↦ rw h (
              omega (
                arith,
                length-push_neighbors amount entry nodes (heappush pushed queue),
                length-heappush pushed queue,
              ))
          | inr h ↦ rw h (omega (arith, length-push_neighbors amount entry nodes queue))
        ]

  length-keys : (row : Dict String Channel) → length (keys row) ≡ length row
  length-keys [] = refl
  length-keys ((k, c) ∷ row) = ap suc (length-keys row)

  -- Visiting one more node never adds edges to visit, and takes away the node's own.
  unvisited_edges-visit_le :
      (u : String) (visited : List String) (adj : Dict String (Dict String Channel))
      → unvisited_edges (u ∷ visited) adj ≤ unvisited_edges visited adj
  unfolding unvisited_edges
  unvisited_edges-visit_le u visited [] = omega arith
  unvisited_edges-visit_le u visited ((w, row) ∷ adj) =
      ground (arith, unvisited_edges-visit_le u visited adj)

  degree : String → Dict String (Dict String Channel) → ℕ
  degree u adj = elim (lookup u adj) [ none ↦ 0 | some row ↦ length row ]

  unvisited_edges-visit :
      (u : String) (visited : List String) (adj : Dict String (Dict String Channel))
      → is_member u visited ≡ false
      → unvisited_edges (u ∷ visited) adj + degree u adj ≤ unvisited_edges visited adj
  unfolding unvisited_edges degree
  unvisited_edges-visit u visited [] h = omega arith
  unvisited_edges-visit u visited ((w, row) ∷ adj) h = ground (
    arith,
    unvisited_edges-visit u visited adj h,
    unvisited_edges-visit_le u visited adj,
    string_eq.beq_iff u w,
    string_eq.beq_iff w u,
  )

  length-row : (u : String) → length (row graph u) ≡ degree u graph.adj
  unfolding degree
  length-row u = ground arith

  length-neighbors : (u : String) → length (neighbors graph u) ≡ degree u graph.adj
  unfolding neighbors
  length-neighbors u = length-keys (row graph u) ∙ length-row u

  -- The entries in the heap and the edges that can still add one.
  potential : List String → List Entry → ℕ
  potential visited queue = length queue + unvisited_edges visited graph.adj

  turn_decreases :
      (request : Request) (visited visited' : List String) (queue queue' : List Entry)
      → turn graph request visited queue ≡ continue visited' queue'
      → potential visited' queue' < potential visited queue
  unfolding turn potential
  turn_decreases request visited visited' [] queue' h = absurd (ground arith)
  turn_decreases request visited visited' (entry ∷ queue) queue' h = ground (
    arith,
    length-push_neighbors request.amount_sat entry (neighbors graph entry.current) queue,
    unvisited_edges-visit entry.current visited graph.adj,
    length-neighbors entry.current,
  )

  pub Turn-cases :
      (t : Turn)
      → ((r : Result PaymentRoute) × (t ≡ finished r))
        ⊎ ((visited : List String) × (queue : List Entry) × (t ≡ continue visited queue))
  Turn-cases (finished r) = inl (r, refl)
  Turn-cases (continue visited queue) = inr (visited, queue, refl)

  search_ends :
      (request : Request) (fuel : ℕ) (visited : List String) (queue : List Entry)
      → potential visited queue < fuel
      → (r : Result PaymentRoute) × (search graph request fuel visited queue ≡ some r)
  unfolding search
  search_ends request zero visited queue h = absurd (omega arith)
  search_ends request (suc fuel) visited queue h =
      elim (Turn-cases (turn graph request visited queue)) [
        | inl (r, e) ↦ (r, rw (e, search) refl)
        | inr (visited', queue', e) ↦
            let (r, s) =
              search_ends request fuel visited' queue'
                (omega (arith, turn_decreases request visited visited' queue queue' e)) in
            (r, rw (e, search) s)
      ]

  -- The search returns a route or raises, whatever the graph and the request: its fuel is never used up.
  pub find_route_ends :
      (request : Request) → (r : Result PaymentRoute) × (find_route graph request ≡ some r)
  unfolding find_route potential
  find_route_ends request =
      elim (Bool-cases
        (not (contains request.source graph.adj) || not (contains request.target graph.adj))) [
          | inl h ↦ (err route_not_found, rw h refl)
          | inr h ↦
              let (r, e) =
                search_ends request (search_fuel graph) [] (first_entry request.source ∷ [])
                  (omega arith) in
              (r, rw h e)
        ]
