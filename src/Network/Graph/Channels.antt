-- ===== src/Network/Graph/Channels.antt =====
-- network/routing.py: what `add_channel` does to `get_capacity`.
use unito_blockchain_25_26_p.Base.{
  Option-cases, String, [], arith, if◌then◌else◌, inl, inr, refl, some, string_eq, sym, ◌==◌, ◌∙◌,
  ◌≡◌, ◌≢◌,
}
use unito_blockchain_25_26_p.Base.Dict.{
  Dict, insert, lookup, lookup-insert, lookup-insert_ne, lookup-insert_self,
}
use unito_blockchain_25_26_p.Domain.Records.{Channel}
use unito_blockchain_25_26_p.Network.Graph.{
  NetworkGraph, add_channel, add_node, get_capacity, set_edge,
}

lookup-add_node_self :
    (alias : String) (adj : Dict String (Dict String Channel))
    → (row : Dict String Channel) × (lookup alias (add_node alias adj) ≡ some row)
lookup-add_node_self alias adj = elim (Option-cases (lookup alias adj)) [
  | inl e ↦ ([], ground (arith, lookup-insert_self alias [] adj))
  | inr (row, e) ↦ (row, ground arith)
]

lookup-add_node :
    (alias other : String) (adj : Dict String (Dict String Channel)) (row : Dict String Channel)
    → lookup alias adj ≡ some row
    → lookup alias (add_node other adj) ≡ some row
lookup-add_node alias other adj row h =
    ground (arith, lookup-insert other alias [] adj, string_eq.beq_iff alias other)

lookup-set_edge_self :
    (u v : String) (channel : Channel) (adj : Dict String (Dict String Channel))
    (row : Dict String Channel)
    → lookup u adj ≡ some row
    → lookup u (set_edge u v channel adj) ≡ some (insert v channel row)
lookup-set_edge_self u v channel adj row h =
    rw (h, set_edge) (lookup-insert_self u (insert v channel row) adj)

lookup-set_edge_ne :
    (x u v : String) (channel : Channel) (adj : Dict String (Dict String Channel))
    → x ≢ u
    → lookup x (set_edge u v channel adj) ≡ lookup x adj
lookup-set_edge_ne x u v channel adj ne = elim (Option-cases (lookup u adj)) [
  | inl e ↦ rw (e, set_edge) refl
  | inr (row, e) ↦ rw (e, set_edge) (lookup-insert_ne u x (insert v channel row) adj ne)
]

-- the capacity of an edge whose channel is known
get_capacity-of :
    (graph : NetworkGraph) (u v : String) (row : Dict String Channel) (channel : Channel)
    → lookup u graph.adj ≡ some (insert v channel row)
    → get_capacity graph u v ≡ (
        if channel.sender_alias == u
        then channel.balance_sender_sat
        else channel.balance_receiver_sat)
unfolding get_capacity
get_capacity-of graph u v row channel h =
    rw (h, lookup-insert_self v channel row, get_capacity) refl

-- Between two different nodes, a new channel offers the sender's balance in its own direction and
-- the receiver's in the other one.
pub get_capacity-add_channel :
    (channel : Channel) (graph : NetworkGraph)
    → channel.sender_alias ≢ channel.receiver_alias
    → (get_capacity (add_channel channel graph) channel.sender_alias channel.receiver_alias
        ≡ channel.balance_sender_sat)
      × (get_capacity (add_channel channel graph) channel.receiver_alias channel.sender_alias
          ≡ channel.balance_receiver_sat)
unfolding add_channel
get_capacity-add_channel channel graph ne =
    let s = channel.sender_alias in
    let r = channel.receiver_alias in
    let nodes = add_node r (add_node s graph.adj) in
    let after = set_edge s r channel nodes in
    let (row_s, e_s) = lookup-add_node_self s graph.adj in
    let (row_r, e_r) = lookup-add_node_self r (add_node s graph.adj) in
    let in_s =
      lookup-set_edge_self s r channel nodes row_s
        (lookup-add_node s r (add_node s graph.adj) row_s e_s) in
    let in_r = lookup-set_edge_ne r s r channel nodes (λ e. ne (sym e)) ∙ e_r in
    let graph' : NetworkGraph = record { adj = set_edge r s channel after } in
    (
      get_capacity-of graph' s r row_s channel (lookup-set_edge_ne s r s channel after ne ∙ in_s)
          ∙ ground (arith, string_eq.beq_iff s s),
      get_capacity-of graph' r s row_r channel (lookup-set_edge_self r s channel after row_r in_r)
          ∙ ground (arith, string_eq.beq_iff s r),
    )
