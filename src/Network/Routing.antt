-- ===== src/Network/Routing.antt =====
-- src/payment_communities/network/routing.py: `DijkstraRoutingStrategy.find_route`.
pub mod Hops
pub mod Soundness
pub mod Termination
use unito_blockchain_25_26_p.Base.{
  Bool, List, Option, String, [], false, if◌then◌else◌, ltb, map, nat_beq, none, not, some, suc,
  true, zero, ℕ, ◌&&◌, ◌++◌, ◌+◌, ◌==◌, ◌||◌, ◌∷◌, string_eq,
}
use unito_blockchain_25_26_p.Base.Dict.{Dict, contains}
use unito_blockchain_25_26_p.Base.Int.{leb_ℤ, ltb_ℤ, pos, ℤ, ◌+ℤ◌}
use unito_blockchain_25_26_p.Base.Lists.{length}
use unito_blockchain_25_26_p.Base.Members.{is_member}
use unito_blockchain_25_26_p.Config.{
  default_cltv_delta_blocks, default_routing_base_fee_sat, default_routing_fee_rate_ppm,
}
use unito_blockchain_25_26_p.Domain.Policies.{calculate_fee, routing_fee_policy}
use unito_blockchain_25_26_p.Domain.Records.{Channel}
use unito_blockchain_25_26_p.Errors.{Result, err, ok, route_not_found}
use unito_blockchain_25_26_p.Network.Graph.{NetworkGraph, get_capacity, neighbors, row}
use unito_blockchain_25_26_p.Network.Queue.{Entry, heappush}

pub record RouteHop : Type 0 where
  pub sender_alias : String
  pub receiver_alias : String
  pub amount_sat : ℤ
  pub fee_sat : ℤ
  pub locktime : ℤ

pub record PaymentRoute : Type 0 where
  pub hops : List RouteHop
  pub total_amount_sat : ℤ
  pub total_fee_sat : ℤ

-- `PaymentRoute.path`
unfoldable pub path : PaymentRoute → List String
path route = elim route.hops [
  | [] ↦ []
  | hop ∷ hops ↦ hop.sender_alias ∷ map (λ h. h.receiver_alias) (hop ∷ hops)
]

unfoldable pub calculate_routing_fee : ℤ → ℤ → ℤ → ℤ
calculate_routing_fee amount base_fee fee_rate =
    calculate_fee (routing_fee_policy base_fee fee_rate) amount

-- The arguments of a search.
pub record Request : Type 0 where
  pub source : String
  pub target : String
  pub amount_sat : ℤ
  pub base_locktime : ℤ
  pub cltv_delta_per_hop : ℤ
  pub base_fee_sat : ℤ
  pub fee_rate_ppm : ℤ

-- `find_path` of the graph, with the parameters that have defaults at those.
abbrev pub default_request : String → String → ℤ → Request
default_request source target amount = record {
  source = source;
  target = target;
  amount_sat = amount;
  base_locktime = pos 100;
  cltv_delta_per_hop = default_cltv_delta_blocks;
  base_fee_sat = default_routing_base_fee_sat;
  fee_rate_ppm = default_routing_fee_rate_ppm;
}

-- The variables of the loop that builds the hops from the target back.
pub record Built : Type 0 where
  pub hops : List RouteHop
  pub current_amount : ℤ
  pub current_locktime : ℤ
  pub total_fee : ℤ

-- One turn of that loop; `none` is its `break`.
unfoldable pub build_hop : NetworkGraph → Request → String → String → Built → Option Built
unfolding calculate_routing_fee
build_hop graph request u v built =
    let fee : ℤ =
      if v == request.target
      then pos 0
      else calculate_routing_fee built.current_amount request.base_fee_sat request.fee_rate_ppm in
    let hop_amount = built.current_amount +ℤ fee in
    if ltb_ℤ (get_capacity graph u v) hop_amount
    then none
    else some (record {
      hops =
          record {
            sender_alias = u;
            receiver_alias = v;
            amount_sat = hop_amount;
            fee_sat = fee;
            locktime = built.current_locktime;
          }
          ∷ built.hops;
      current_amount = hop_amount;
      current_locktime = built.current_locktime +ℤ request.cltv_delta_per_hop;
      total_fee = built.total_fee +ℤ fee;
    })

-- The loop, from the last hop back to the first.
unfoldable pub build_hops : NetworkGraph → Request → String → List String → Option Built
build_hops graph request u [] = some (record {
  hops = [];
  current_amount = request.amount_sat;
  current_locktime = request.base_locktime;
  total_fee = pos 0;
})
build_hops graph request u (v ∷ rest) = elim (build_hops graph request v rest) [
  | none ↦ none
  | some built ↦ build_hop graph request u v built
]

-- The loop over the neighbours of the node that is visited.
unfoldable pub push_neighbors : NetworkGraph → ℤ → Entry → List String → List Entry → List Entry
push_neighbors graph amount entry [] queue = queue
push_neighbors graph amount entry (neighbor ∷ rest) queue =
    if not (is_member neighbor entry.path)
      && leb_ℤ amount (get_capacity graph entry.current neighbor)
    then push_neighbors graph amount entry rest (
        heappush
          (record {
            cost = suc entry.cost;
            current = neighbor;
            path = entry.path ++ (neighbor ∷ []);
          })
          queue)
    else push_neighbors graph amount entry rest queue

-- What a turn of the search leaves: the end of it, or the visited nodes and the heap.
pub data Turn : Type 0 where
  finished : Result PaymentRoute → Turn
  continue : List String → List Entry → Turn

-- The hops of a path that is listed from its source on.
abbrev pub build_path : NetworkGraph → Request → List String → Option Built
build_path graph request [] = build_hops graph request request.target []
build_path graph request (u ∷ rest) = build_hops graph request u rest

-- One turn of `while queue`.
unfoldable pub turn : NetworkGraph → Request → List String → List Entry → Turn
turn graph request visited [] = finished (err route_not_found)
turn graph request visited (entry ∷ queue) =
    if entry.current == request.target
    then (elim (build_path graph request entry.path) [
      | none ↦ continue visited queue
      | some built ↦ finished (
          ok (record {
            hops = built.hops;
            total_amount_sat = built.current_amount;
            total_fee_sat = built.total_fee;
          }))
    ])
    else if is_member entry.current visited
    then continue visited queue
    else continue (entry.current ∷ visited)
        (push_neighbors graph request.amount_sat entry (neighbors graph entry.current) queue)

-- `while queue`; `none` when the fuel is used up.
unfoldable pub search :
    NetworkGraph → Request → (fuel : ℕ) → List String → List Entry → Option (Result PaymentRoute)
search graph request zero visited queue = none
search graph request (suc fuel) visited queue = elim (turn graph request visited queue) [
  | finished result ↦ some result
  | continue visited queue ↦ search graph request fuel visited queue
]

-- The lengths of the rows of the nodes that are not visited.
unfoldable pub unvisited_edges : List String → Dict String (Dict String Channel) → ℕ
unvisited_edges visited [] = 0
unvisited_edges visited ((u, row) ∷ adj) =
    (if is_member u visited then 0 else length row) + unvisited_edges visited adj

abbrev pub first_entry : String → Entry
first_entry source = record { cost = 0; current = source; path = source ∷ [] }

-- The turns that a search can take: one for each entry that is ever pushed, and the last one.
abbrev pub search_fuel : NetworkGraph → ℕ
search_fuel graph = 2 + unvisited_edges [] graph.adj

unfoldable pub find_route : NetworkGraph → Request → Option (Result PaymentRoute)
unfolding search
find_route graph request =
    if not (contains request.source graph.adj) || not (contains request.target graph.adj)
    then some (err route_not_found)
    else search graph request (search_fuel graph) [] (first_entry request.source ∷ [])
