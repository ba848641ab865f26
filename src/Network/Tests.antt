-- ===== src/Network/Tests.antt =====
-- network/: searches on small graphs, and the theorems at them.
use unito_blockchain_25_26_p.Base.{
  String, [], none, refl, some, ℕ, ◌+◌, ◌∷◌, ◌≡◌, Bool, Option, false, true,
}
use unito_blockchain_25_26_p.Base.Int.{pos, ◌+ℤ◌, ◌*ℤ◌, ◌//◌}
use unito_blockchain_25_26_p.Domain.Records.{Channel, ChannelState}
use unito_blockchain_25_26_p.Errors.{Result, err, ok, route_not_found}
use unito_blockchain_25_26_p.Network.Graph.{NetworkGraph, add_channel, get_capacity, neighbors}
use unito_blockchain_25_26_p.Network.Routing.{
  path, PaymentRoute, Request, build_hops, build_path, default_request, find_route, Built,
  build_hop, push_neighbors, turn, unvisited_edges,
}
use unito_blockchain_25_26_p.Network.Routing.Soundness.{IsSound, find_route-IsSound}
use unito_blockchain_25_26_p.Network.Routing.Termination.{find_route_ends}
use unito_blockchain_25_26_p.Protocols.Revocation.Store.{empty_store}
use unito_blockchain_25_26_p.Domain.Policies.{calculate_fee}
use unito_blockchain_25_26_p.Network.Queue.{heappush}

-- A channel with the balances `a` and `b`.
abbrev channel_of : String → String → ℕ → ℕ → Channel
channel_of sender receiver a b = record {
  channel_id = "chan";
  sender_alias = sender;
  receiver_alias = receiver;
  sender_pubkey_hex = "02aa";
  receiver_pubkey_hex = "02bb";
  capacity_sat = pos (a + b);
  balance_sender_sat = pos a;
  balance_receiver_sat = pos b;
  state = ChannelState.opened;
  funding_txid = none;
  funding_vout = none;
  active_htlcs = [];
  sequence_number = pos 0;
  revocation_store = empty_store;
}

abbrev empty_graph : NetworkGraph
empty_graph = record { adj = [] }

abbrev bob_carol : Channel
bob_carol = channel_of "Bob" "Carol" 5000 0

abbrev line : NetworkGraph
unfolding add_channel
line = add_channel bob_carol (add_channel (channel_of "Alice" "Bob" 5000 0) empty_graph)

abbrev payment : Request
payment = default_request "Alice" "Carol" (pos 1000)

abbrev line_route : PaymentRoute
line_route = record {
  hops =
      record {
        sender_alias = "Alice";
        receiver_alias = "Bob";
        amount_sat = pos 1002;
        fee_sat = pos 2;
        locktime = pos 140;
      }
      ∷ record {
        sender_alias = "Bob";
        receiver_alias = "Carol";
        amount_sat = pos 1000;
        fee_sat = pos 0;
        locktime = pos 100;
      }
      ∷ [];
  total_amount_sat = pos 1002;
  total_fee_sat = pos 2;
}

line_found : find_route line payment ≡ some (ok line_route)
unfolding find_route line unvisited_edges turn push_neighbors neighbors get_capacity heappush
    build_hops build_hop ◌+ℤ◌ calculate_fee ◌//◌ ◌*ℤ◌
line_found = refl

path_of_line : path line_route ≡ ("Alice" ∷ "Bob" ∷ "Carol" ∷ [])
unfolding path
path_of_line = refl

find_route-IsSound_example : IsSound line payment line_route
find_route-IsSound_example = find_route-IsSound line payment line_route line_found

find_route_ends_example : (r : Result PaymentRoute) × (find_route line payment ≡ some r)
find_route_ends_example = find_route_ends line payment

abbrev is_some : Option Built → Bool
is_some none = false
is_some (some built) = true

-- Bob is reached first by the direct channel, which has no room for his fee, and is not visited a
-- second time by way of Dave: the route that exists is missed.
abbrev detour : NetworkGraph
unfolding add_channel
detour = add_channel (channel_of "Dave" "Bob" 5000 0) (
    add_channel (channel_of "Alice" "Dave" 5000 0)
      (add_channel bob_carol (add_channel (channel_of "Alice" "Bob" 1000 0) empty_graph)))

detour_missed : find_route detour payment ≡ some (err route_not_found)
unfolding find_route detour unvisited_edges turn push_neighbors neighbors get_capacity heappush
    build_hops build_hop ◌+ℤ◌ calculate_fee ◌//◌ ◌*ℤ◌
detour_missed = refl

detour_exists : is_some (build_path detour payment ("Alice" ∷ "Dave" ∷ "Bob" ∷ "Carol" ∷ [])) ≡ true
unfolding detour build_hops build_hop get_capacity ◌+ℤ◌ calculate_fee ◌//◌ ◌*ℤ◌
detour_exists = refl
