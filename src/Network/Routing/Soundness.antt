-- ===== src/Network/Routing/Soundness.antt =====
-- network/routing.py: what a route that the search returns is.
use mathlib.Core.Option.{some-injective}
use mathlib.Core.Path.{subst}
use unito_blockchain_25_26_p.Base.{
  Bool-cases, List, String, [], ap, inl, inr, map, string_eq, suc, true, ◌++◌, ◌∷◌, ◌≡◌,
  Option-cases, arith, refl, some, sym, zero, ℕ, ◌==◌, not, ◌||◌, ◌∙◌,
}
use unito_blockchain_25_26_p.Base.Dict.{contains, contains-keys, keys}
use unito_blockchain_25_26_p.Base.Int.{leb_ℤ, ◌+ℤ◌, pos, ◌*ℤ◌}
use unito_blockchain_25_26_p.Base.Lists.{All, length}
use unito_blockchain_25_26_p.Base.Members.{IsDistinct, append-IsDistinct, is_member}
use unito_blockchain_25_26_p.Network.Graph.{NetworkGraph, get_capacity, row, neighbors}
use unito_blockchain_25_26_p.Network.Routing.{
  PaymentRoute, Request, push_neighbors, Built, Turn, build_path, continue, find_route, finished,
  search, turn, first_entry, search_fuel,
}
use unito_blockchain_25_26_p.Network.Routing.Hops.{
  IsRoute, IsWalk, move, stay, IsRoute-totals, build_hops-IsRoute, receivers-build_hops,
}
use unito_blockchain_25_26_p.Errors.{Result, err, ok, route_not_found}
use unito_blockchain_25_26_p.Network.Routing.Termination.{Turn-cases}
use unito_blockchain_25_26_p.Network.Queue.{Entry, entry_lt, heappush}

pub IsWalk-snoc :
    (graph : NetworkGraph) {u v : String} {rest : List String} (w : String)
    → IsWalk graph u v rest
    → contains w (row graph v) ≡ true
    → IsWalk graph u w (rest ++ (w ∷ []))
IsWalk-snoc graph w stay c = move c stay
IsWalk-snoc graph w (move d walk) c = move d (IsWalk-snoc graph w walk c)

module _ (graph : NetworkGraph) (request : Request) where
  -- The path of an entry is a walk from the source to the entry's node that meets no node twice.
  abbrev IsEntry : Entry → Type 0
  IsEntry entry =
      (rest : List String) × (entry.path ≡ request.source ∷ rest)
      × IsWalk graph request.source entry.current rest
      × IsDistinct entry.path

  heappush-IsEntry :
      (entry : Entry) (queue : List Entry)
      → IsEntry entry
      → All IsEntry queue
      → All IsEntry (heappush entry queue)
  unfolding heappush
  heappush-IsEntry entry [] p h = (p, tt)
  heappush-IsEntry entry (e ∷ queue) p (q, h) = elim (Bool-cases (entry_lt e entry)) [
    | inl b ↦ rw (b, heappush) (q, heappush-IsEntry entry queue p h)
    | inr b ↦ rw (b, heappush) (p, (q, h))
  ]

  push_neighbors-IsEntry :
      (entry : Entry) (nodes : List String) (queue : List Entry)
      → IsEntry entry
      → All (λ v. contains v (row graph entry.current) ≡ true) nodes
      → All IsEntry queue
      → All IsEntry (push_neighbors graph request.amount_sat entry nodes queue)
  unfolding push_neighbors
  push_neighbors-IsEntry entry [] queue p cs h = h
  push_neighbors-IsEntry entry (v ∷ nodes) queue p (c, cs) h =
      let pushed : Entry = record {
        cost = suc entry.cost;
        current = v;
        path = entry.path ++ (v ∷ []);
      } in
      elim (Bool-cases (is_member v entry.path)) [
        | inl b ↦ rw (b, push_neighbors) (push_neighbors-IsEntry entry nodes queue p cs h)
        | inr b ↦
            elim (Bool-cases (leb_ℤ request.amount_sat (get_capacity graph entry.current v))) [
              | inl fits ↦
                  let (rest, eq, walk, distinct) = p in
                  let next : IsEntry pushed = (
                    rest ++ (v ∷ []),
                    ap (λ xs. xs ++ (v ∷ [])) eq,
                    IsWalk-snoc graph v walk c,
                    append-IsDistinct entry.path v distinct b,
                  ) in
                  rw (b, fits, push_neighbors)
                    (push_neighbors-IsEntry entry nodes (heappush pushed queue) p cs
                      (heappush-IsEntry pushed queue next h))
              | inr big ↦
                  rw (b, big, push_neighbors) (push_neighbors-IsEntry entry nodes queue p cs h)
            ]
      ]

  -- What the search promises of a route.
  abbrev pub IsSound : PaymentRoute → Type 0
  IsSound route =
      let receivers = map (λ h. h.receiver_alias) route.hops in
      let steps = pos (length route.hops) *ℤ request.cltv_delta_per_hop in
      IsRoute graph request request.source route.hops route.total_amount_sat
        (request.base_locktime +ℤ steps) route.total_fee_sat
      × IsWalk graph request.source request.target receivers
      × IsDistinct (request.source ∷ receivers)

  build_path-IsSound :
      (entry : Entry) (built : Built)
      → IsEntry entry
      → entry.current ≡ request.target
      → build_path graph request entry.path ≡ some built
      → IsSound (record {
        hops = built.hops;
        total_amount_sat = built.current_amount;
        total_fee_sat = built.total_fee;
      })
  build_path-IsSound entry built (rest, starts, walk, distinct) at_target h =
      let on_path = subst (λ p. build_path graph request p ≡ some built) starts h in
      let to_target = subst (λ v. IsWalk graph request.source v rest) at_target walk in
      let receivers = receivers-build_hops graph request request.source rest built on_path in
      let route = build_hops-IsRoute graph request request.source rest built to_target on_path in
      (
        subst
            (λ l.
              IsRoute graph request request.source built.hops built.current_amount l
                built.total_fee)
            (IsRoute-totals graph request route).1 route,
        subst (λ vs. IsWalk graph request.source request.target vs) (sym receivers) to_target,
        subst (λ vs. IsDistinct (request.source ∷ vs)) (sym receivers)
            (subst (λ p. IsDistinct p) starts distinct),
      )

  -- The end of a turn is sound, or every entry that it leaves is one.
  abbrev IsGoodTurn : Turn → Type 0
  IsGoodTurn (finished (ok route)) = IsSound route
  IsGoodTurn (finished (err e)) = e ≡ route_not_found
  IsGoodTurn (continue visited queue) = All IsEntry queue

  turn-IsGoodTurn :
      (visited : List String) (queue : List Entry)
      → All IsEntry queue
      → IsGoodTurn (turn graph request visited queue)
  unfolding turn neighbors
  turn-IsGoodTurn visited [] h = refl
  turn-IsGoodTurn visited (entry ∷ queue) (p, h) =
      elim (Bool-cases (entry.current == request.target)) [
        | inl b ↦ elim (Option-cases (build_path graph request entry.path)) [
          | inl e ↦ rw (b, e, turn) h
          | inr (built, e) ↦
              rw (b, e, turn)
                (build_path-IsSound entry built p
                  ((string_eq.beq_iff entry.current request.target).0 b) e)
        ]
        | inr b ↦ elim (Bool-cases (is_member entry.current visited)) [
          | inl m ↦ rw (b, m, turn) h
          | inr m ↦
              rw (b, m, turn)
                (push_neighbors-IsEntry entry (keys (row graph entry.current)) queue p
                  (contains-keys (row graph entry.current)) h)
        ]
      ]

  search_sound :
      (fuel : ℕ) (visited : List String) (queue : List Entry) (r : Result PaymentRoute)
      → All IsEntry queue
      → search graph request fuel visited queue ≡ some r
      → IsGoodTurn (finished r)
  unfolding search
  search_sound zero visited queue r h e = absurd (ground arith)
  search_sound (suc fuel) visited queue r h e =
      let good = turn-IsGoodTurn visited queue h in
      elim (Turn-cases graph (turn graph request visited queue)) [
        | inl (r', t) ↦ subst IsGoodTurn (t ∙ ap finished (some-injective _ _ (ground arith))) good
        | inr (visited', queue', t) ↦
            search_sound fuel visited' queue' r (subst IsGoodTurn t good) (ground arith)
      ]

  first_IsEntry : All IsEntry (first_entry request.source ∷ [])
  first_IsEntry = (([], refl, stay, (refl, tt)), tt)

  find_route-IsGoodTurn :
      (r : Result PaymentRoute) → find_route graph request ≡ some r → IsGoodTurn (finished r)
  unfolding find_route
  find_route-IsGoodTurn r h =
      elim (Bool-cases
        (not (contains request.source graph.adj) || not (contains request.target graph.adj))) [
          | inl b ↦
              subst (λ r. IsGoodTurn (finished r))
                (some-injective (err route_not_found) r (ground arith)) refl
          | inr b ↦
              search_sound (search_fuel graph) [] (first_entry request.source ∷ []) r first_IsEntry
                (ground arith)
        ]

  -- A route that is returned starts at the source and ends at the target, along channels of the graph
  -- and meeting no node twice. Each hop fits the capacity of its channel in its direction and carries
  -- what the next node sends with that node's fee, of which the target takes none; the locktime is the
  -- base at the last hop and grows by the delta from each hop to the one before it; the totals are those
  -- of the hops.
  pub find_route-IsSound :
      (route : PaymentRoute) → find_route graph request ≡ some (ok route) → IsSound route
  find_route-IsSound route h = find_route-IsGoodTurn (ok route) h

  -- The total amount of a route that is returned is the payment and all fees.
  pub find_route_totals :
      (route : PaymentRoute)
      → find_route graph request ≡ some (ok route)
      → route.total_amount_sat ≡ request.amount_sat +ℤ route.total_fee_sat
  find_route_totals route h = (IsRoute-totals graph request (find_route-IsSound route h).0).0
