-- ===== src/Network/Routing/Hops.antt =====
-- network/routing.py: the hops that are built from a path.
use mathlib.Core.Option.{some-injective}
use mathlib.Core.Path.{subst}
use unito_blockchain_25_26_p.Base.{
  List, String, [], if◌then◌else◌, some, string_eq, true, ◌==◌, ◌∷◌, ◌≡◌, Option-cases, arith, inl,
  inr, refl, ap, map, sym, ◌∙◌,
}
use unito_blockchain_25_26_p.Base.Dict.{contains}
use unito_blockchain_25_26_p.Base.Int.{
  pos, ℤ, ◌+ℤ◌, ◌≤ℤ◌, int_laws, parts_of_eq, ◌*ℤ◌, mul_suc, zero_mul,
}
use unito_blockchain_25_26_p.Network.Graph.{NetworkGraph, get_capacity, row}
use unito_blockchain_25_26_p.Network.Routing.{
  Built, Request, RouteHop, build_hop, build_hops, calculate_routing_fee,
}
use unito_blockchain_25_26_p.Base.Lists.{length}

-- The hops from a node to the target, with the amount that the node sends, the locktime that the next
-- hop back would get, and the fees. Each hop fits its channel; it carries what the next node sends and
-- that node's fee, which is none where the next node is the target.
pub data IsRoute (graph : NetworkGraph) (request : Request)
    : String → List RouteHop → (amount locktime fees : ℤ) → Type 0 where
  arrived : IsRoute graph request request.target [] request.amount_sat request.base_locktime (pos 0)
  via :
      {v : String} {hops : List RouteHop} {amount locktime fees : ℤ} (u : String) (fee : ℤ)
      → IsRoute graph request v hops amount locktime fees
      → fee ≡ (
          if v == request.target
          then pos 0
          else calculate_routing_fee amount request.base_fee_sat request.fee_rate_ppm)
      → (amount +ℤ fee) ≤ℤ get_capacity graph u v
      → IsRoute graph request u
          (record {
            sender_alias = u;
            receiver_alias = v;
            amount_sat = amount +ℤ fee;
            fee_sat = fee;
            locktime = locktime;
          }
            ∷ hops)
          (amount +ℤ fee)
          (locktime +ℤ request.cltv_delta_per_hop)
          (fees +ℤ fee)

-- The nodes after the first one on a walk along channels.
pub data IsWalk (graph : NetworkGraph) : String → String → List String → Type 0 where
  stay : {u : String} → IsWalk graph u u []
  move :
      {u v w : String} {rest : List String}
      → contains v (row graph u) ≡ true
      → IsWalk graph v w rest
      → IsWalk graph u w (v ∷ rest)

module _ (graph : NetworkGraph) (request : Request) where
  -- The fee of a hop to `v` after which `amount` is sent.
  hop_fee : String → ℤ → ℤ
  hop_fee v amount =
      if v == request.target
      then pos 0
      else calculate_routing_fee amount request.base_fee_sat request.fee_rate_ppm

  with_hop : String → String → Built → Built
  unfolding hop_fee
  with_hop u v built =
      let fee = hop_fee v built.current_amount in
      record {
        hops =
            record {
              sender_alias = u;
              receiver_alias = v;
              amount_sat = built.current_amount +ℤ fee;
              fee_sat = fee;
              locktime = built.current_locktime;
            }
            ∷ built.hops;
        current_amount = built.current_amount +ℤ fee;
        current_locktime = built.current_locktime +ℤ request.cltv_delta_per_hop;
        total_fee = built.total_fee +ℤ fee;
      }

  build_hop_lem :
      (u v : String) (built built' : Built)
      → build_hop graph request u v built ≡ some built'
      → ((built.current_amount +ℤ hop_fee v built.current_amount) ≤ℤ get_capacity graph u v)
        × (with_hop u v built ≡ built')
  unfolding build_hop with_hop
  build_hop_lem u v built built' h = ground arith

  abbrev pub Route : String → Built → Type 0
  Route u built =
      IsRoute graph request u built.hops built.current_amount built.current_locktime built.total_fee

  pub build_hops-IsRoute :
      (u : String) (rest : List String) (built : Built)
      → IsWalk graph u request.target rest
      → build_hops graph request u rest ≡ some built
      → Route u built
  unfolding build_hops with_hop
  build_hops-IsRoute u [] built stay h = subst (λ b. Route u b) (some-injective _ _ h) arrived
  build_hops-IsRoute u (v ∷ rest) built (move c walk) h =
      elim (Option-cases (build_hops graph request v rest)) [
        | inl e ↦ absurd (ground arith)
        | inr (built', e) ↦
            let (fits, eq) = build_hop_lem u v built' built (ground arith) in
            subst (λ b. Route u b) eq
              (via u (hop_fee v built'.current_amount) (build_hops-IsRoute v rest built' walk e)
                refl fits)
      ]

  -- The hops are those of the path.
  pub receivers-build_hops :
      (u : String) (rest : List String) (built : Built)
      → build_hops graph request u rest ≡ some built
      → map (λ h. h.receiver_alias) built.hops ≡ rest
  unfolding build_hops with_hop
  receivers-build_hops u [] built h =
      ap (λ b. map (λ h. h.receiver_alias) b.hops) (sym (some-injective _ _ h))
  receivers-build_hops u (v ∷ rest) built h =
      elim (Option-cases (build_hops graph request v rest)) [
        | inl e ↦ absurd (ground arith)
        | inr (built', e) ↦
            let (fits, eq) = build_hop_lem u v built' built (ground arith) in
            ap (λ b. map (λ h. h.receiver_alias) b.hops) (sym eq)
            ∙ ap (λ vs. v ∷ vs) (receivers-build_hops v rest built' e)
      ]

  -- The totals of a route: its amount is the payment and the fees, and its locktime has one step for
  -- each hop.
  pub IsRoute-totals :
      {u : String} {hops : List RouteHop} {amount locktime fees : ℤ}
      → IsRoute graph request u hops amount locktime fees
      → (amount ≡ request.amount_sat +ℤ fees)
        × (locktime ≡ request.base_locktime +ℤ pos (length hops) *ℤ request.cltv_delta_per_hop)
  IsRoute-totals arrived =
      (omega int_laws, omega (int_laws, parts_of_eq (zero_mul request.cltv_delta_per_hop)))
  IsRoute-totals (via {hops = hops} {amount = a} {locktime = l} {fees = f} u fee route eq fits) =
      let (amounts, locktimes) = IsRoute-totals route in
      let product = mul_suc (length hops) request.cltv_delta_per_hop in
      (
        omega (int_laws, parts_of_eq amounts),
        omega (int_laws, parts_of_eq locktimes, parts_of_eq product),
      )
