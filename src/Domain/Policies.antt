-- ===== src/Domain/Policies.antt =====
-- src/payment_communities/domain/core/policies.py: fees, capacity bounds, timelocks, revocation.
pub mod Fees
mod Tests
use unito_blockchain_25_26_p.Base.{Bool, false, ◌&&◌, ◌||◌, List, [], ◌∷◌, ◌==◌}
use unito_blockchain_25_26_p.Base.Int.{ℤ, ◌+ℤ◌, ◌*ℤ◌, ◌//◌, leb_ℤ, int_eq}
use unito_blockchain_25_26_p.Config.{
  default_routing_base_fee_sat, default_routing_fee_rate_ppm, default_lease_fee_base_sat,
  default_lease_fee_basis_ppm, min_channel_capacity_sat, max_channel_capacity_sat,
  default_cltv_delta_blocks, default_to_self_delay_blocks,
}

-- `FeePolicy` and its three subclasses.
pub data FeePolicy : Type 0 where
  routing_fee_policy : ℤ → ℤ → FeePolicy
  routing_policy : ℤ → ℤ → FeePolicy
  lease_fee_policy : ℤ → ℤ → FeePolicy

abbrev pub default_routing_fee_policy : FeePolicy
default_routing_fee_policy =
    routing_fee_policy default_routing_base_fee_sat default_routing_fee_rate_ppm

abbrev pub default_lease_fee_policy : FeePolicy
default_lease_fee_policy = lease_fee_policy default_lease_fee_base_sat default_lease_fee_basis_ppm

-- `calculate_fee` of each subclass; `RoutingPolicy` inherits `RoutingFeePolicy`'s.
unfoldable pub calculate_fee : FeePolicy → ℤ → ℤ
calculate_fee (routing_fee_policy base_fee fee_rate) amount =
    base_fee +ℤ amount *ℤ fee_rate // 1_000_000
calculate_fee (routing_policy base_fee fee_rate) amount =
    base_fee +ℤ amount *ℤ fee_rate // 1_000_000
calculate_fee (lease_fee_policy base_fee fee_rate) amount =
    base_fee +ℤ amount *ℤ fee_rate // 1_000_000

pub record CapacityPolicy : Type 0 where
  pub min_capacity_sat : ℤ
  pub max_capacity_sat : ℤ

abbrev pub default_capacity_policy : CapacityPolicy
default_capacity_policy = record {
  min_capacity_sat = min_channel_capacity_sat;
  max_capacity_sat = max_channel_capacity_sat;
}

unfoldable pub is_valid_capacity : CapacityPolicy → ℤ → Bool
is_valid_capacity p capacity =
    leb_ℤ p.min_capacity_sat capacity && leb_ℤ capacity p.max_capacity_sat

pub record TimelockPolicy : Type 0 where
  pub cltv_delta_blocks : ℤ
  pub to_self_delay_blocks : ℤ

abbrev pub default_timelock_policy : TimelockPolicy
default_timelock_policy = record {
  cltv_delta_blocks = default_cltv_delta_blocks;
  to_self_delay_blocks = default_to_self_delay_blocks;
}

unfoldable pub calculate_hop_locktime : TimelockPolicy → ℤ → ℤ → ℤ
calculate_hop_locktime p current_height hop_distance =
    current_height +ℤ hop_distance *ℤ p.cltv_delta_blocks

-- `n in set`
abbrev pub mem_set : ℤ → List ℤ → Bool
mem_set n [] = false
mem_set n (m ∷ ms) = n == m || mem_set n ms

-- `RevocationPolicy.is_state_revoked`; the set holds the keys of the revealed secrets.
unfoldable pub policy_is_state_revoked : ℤ → List ℤ → Bool
policy_is_state_revoked commitment_number revealed = mem_set commitment_number revealed
