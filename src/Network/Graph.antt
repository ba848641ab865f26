-- ===== src/Network/Graph.antt =====
-- src/payment_communities/network/routing.py: `NetworkGraph` as it stands at one moment. A channel that
-- the program changes later is a new graph: the search reads the balances and changes none.
pub mod Channels
use unito_blockchain_25_26_p.Base.{
  List, Option, String, [], if◌then◌else◌, none, some, ◌==◌, string_eq,
}
use unito_blockchain_25_26_p.Base.Dict.{Dict, contains, insert, keys, lookup}
use unito_blockchain_25_26_p.Base.Int.{pos, ℤ}
use unito_blockchain_25_26_p.Domain.Records.{Channel}

pub record NetworkGraph : Type 0 where
  pub adj : Dict String (Dict String Channel)

-- `self.adj[alias] = {}` for a new alias
abbrev pub add_node : String → Dict String (Dict String Channel) → Dict String (Dict String Channel)
add_node alias adj = if contains alias adj then adj else insert alias [] adj

-- `self.adj[u][v] = channel`; both rows exist where the code reaches it.
abbrev pub set_edge :
    String
    → String
    → Channel
    → Dict String (Dict String Channel)
    → Dict String (Dict String Channel)
set_edge u v channel adj = elim (lookup u adj) [
  | none ↦ adj
  | some row ↦ insert u (insert v channel row) adj
]

unfoldable pub add_channel : Channel → NetworkGraph → NetworkGraph
add_channel channel graph =
    let nodes = add_node channel.receiver_alias (add_node channel.sender_alias graph.adj) in
    record {
      adj =
          set_edge channel.receiver_alias channel.sender_alias channel
            (set_edge channel.sender_alias channel.receiver_alias channel nodes);
    }

-- `self.adj[u][v]`, if there is one.
abbrev pub get_channel : NetworkGraph → String → String → Option Channel
get_channel graph u v = elim (lookup u graph.adj) [ none ↦ none | some row ↦ lookup v row ]

unfoldable pub get_capacity : NetworkGraph → String → String → ℤ
get_capacity graph u v = elim (get_channel graph u v) [
  | none ↦ pos 0
  | some channel ↦
      if channel.sender_alias == u then channel.balance_sender_sat else channel.balance_receiver_sat
]

-- `graph.adj.get(u, {})`
abbrev pub row : NetworkGraph → String → Dict String Channel
row graph u = elim (lookup u graph.adj) [ none ↦ [] | some channels ↦ channels ]

-- What the loop over a row sees.
unfoldable pub neighbors : NetworkGraph → String → List String
neighbors graph u = keys (row graph u)
