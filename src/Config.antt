-- ===== src/Config.antt =====
-- src/payment_communities/config.py: the protocol constants that the modelled code reads.
use unito_blockchain_25_26_p.Base.{ℕ}
use unito_blockchain_25_26_p.Base.Int.{ℤ, pos}

abbrev pub bitcoin_dust_limit_sat : ℤ
bitcoin_dust_limit_sat = pos 546

abbrev pub anchor_output_sat : ℤ
anchor_output_sat = pos 330

abbrev pub default_to_self_delay_blocks : ℤ
default_to_self_delay_blocks = pos 144

abbrev pub default_cltv_delta_blocks : ℤ
default_cltv_delta_blocks = pos 40

abbrev pub min_channel_capacity_sat : ℤ
min_channel_capacity_sat = pos 10_000

abbrev pub max_channel_capacity_sat : ℤ
max_channel_capacity_sat = pos 16_777_216

abbrev pub default_routing_base_fee_sat : ℤ
default_routing_base_fee_sat = pos 1

abbrev pub default_routing_fee_rate_ppm : ℤ
default_routing_fee_rate_ppm = pos 1000

abbrev pub default_lease_fee_base_sat : ℤ
default_lease_fee_base_sat = pos 500

abbrev pub default_lease_fee_basis_ppm : ℤ
default_lease_fee_basis_ppm = pos 2000

abbrev pub sequence_cltv_enable_mask : ℕ
sequence_cltv_enable_mask = 0xFFFFFFFE

abbrev pub watchtower_hint_bytes : ℕ
watchtower_hint_bytes = 16

-- The order of the group that the curve's generator spans, a prime.
abbrev pub secp256k1_order : ℕ
secp256k1_order = 0xFFFFFFFFFFFFFFFFFFFFFFFFFFFFFFFEBAAEDCE6AF48A03BBFD25E8CD0364141

abbrev pub eltoo_base_locktime : ℕ
eltoo_base_locktime = 500_000_000
