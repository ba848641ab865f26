-- ===== src/Protocols/Swaps.antt =====
-- src/payment_communities/protocols/swaps.py: submarine swaps and liquidity advertisements.
pub mod Server
pub mod Claims
pub mod Sessions
pub mod Refunds
mod Tests
use unito_blockchain_25_26_p.Base.{ℕ, String, Option, Bytes}
use unito_blockchain_25_26_p.Base.Int.{ℤ, pos}
use unito_blockchain_25_26_p.Bitcoin.Script.{Script}
use unito_blockchain_25_26_p.Bitcoin.Contracts.{create_htlc}
use unito_blockchain_25_26_p.Bitcoin.Builder.{
  BitcoinLibrary, Transaction, new_builder, final_sequence, add_input, add_p2wsh_output, build,
}
use unito_blockchain_25_26_p.Domain.Policies.{FeePolicy, lease_fee_policy, calculate_fee}

pub data SwapType : Type 0 where
  loop_in loop_out : SwapType

pub data SwapState : Type 0 where
  pending fulfilled expired : SwapState

-- A payment hash and a preimage are bytes where the code holds their hex digits.
pub record SubmarineSwap : Type 0 where
  pub swap_id : String
  pub swap_type : SwapType
  pub amount_sat : ℤ
  pub payment_hash : Bytes
  pub preimage : Option Bytes
  pub locktime : ℕ
  pub state : SwapState

unfoldable pub create_submarine_swap_script : Bytes → Bytes → Bytes → ℕ → Script
unfolding create_htlc
create_submarine_swap_script user_pubkey provider_pubkey payment_hash locktime =
    create_htlc user_pubkey provider_pubkey payment_hash (pos locktime)

-- The funder's key takes no part.
unfoldable pub create_submarine_swap_funding_tx :
    BitcoinLibrary → String → ℕ → Bytes → ℤ → Script → Transaction
unfolding add_input add_p2wsh_output build
create_submarine_swap_funding_tx lib utxo_txid utxo_vout funder_pubkey amount script = build (
    add_p2wsh_output lib amount script
      (add_input utxo_txid utxo_vout final_sequence (new_builder 0)))

pub record LiquidityAd : Type 0 where
  pub node_alias : String
  pub node_pubkey_hex : String
  pub lease_fee_base_sat : ℤ
  pub lease_fee_basis_ppm : ℤ
  pub funding_weight : ℤ
  pub max_capacity_sat : ℤ

unfoldable pub get_fee_policy : LiquidityAd → FeePolicy
get_fee_policy ad = lease_fee_policy ad.lease_fee_base_sat ad.lease_fee_basis_ppm

unfoldable pub calculate_lease_fee : LiquidityAd → ℤ → ℤ
unfolding get_fee_policy calculate_fee
calculate_lease_fee ad requested_capacity = calculate_fee (get_fee_policy ad) requested_capacity
