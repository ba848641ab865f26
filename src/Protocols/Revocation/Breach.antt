-- ===== src/Protocols/Revocation/Breach.antt =====
-- src/payment_communities/protocols/revocation.py: `create_breach_remedy_transaction`.
pub mod Remedy
use unito_blockchain_25_26_p.Base.{Bytes, String, [], ℕ, ◌∷◌}
use unito_blockchain_25_26_p.Base.Int.{ℤ}
use unito_blockchain_25_26_p.Bitcoin.Builder.{
  BitcoinLibrary, Transaction, add_input, add_p2wpkh_output, add_witness_stack, build,
  final_sequence, new_builder,
}
use unito_blockchain_25_26_p.Bitcoin.Script.{Script}

unfoldable pub create_breach_remedy_transaction :
    BitcoinLibrary → String → ℕ → Bytes → ℤ → (signature : Bytes) → Script → Transaction
unfolding add_input add_p2wpkh_output add_witness_stack build
create_breach_remedy_transaction lib txid vout sweeper_pubkey amount signature redeem_script =
    build (
      add_witness_stack (signature ∷ (1 ∷ []) ∷ lib.scripts.encode redeem_script ∷ []) (
        add_p2wpkh_output lib amount sweeper_pubkey
          (add_input txid vout final_sequence (new_builder 0))))
