-- ===== src/Bitcoin/Verification.antt =====
-- src/payment_communities/bitcoin/transaction.py: `verify_transaction_witness`.
use unito_blockchain_25_26_p.Base.{Bool, Bytes, List, none, some, ℕ}
use unito_blockchain_25_26_p.Base.Int.{ℤ}
use unito_blockchain_25_26_p.Base.Lists.{get_elem?}
use unito_blockchain_25_26_p.Bitcoin.Builder.{BitcoinLibrary, Transaction, TxIn}
use unito_blockchain_25_26_p.Bitcoin.Machine.{SpendContext}
use unito_blockchain_25_26_p.Bitcoin.Script.{Script}
use unito_blockchain_25_26_p.Bitcoin.Witness.{
  WitnessProgram, from_script_pub_key, v0_key_hash, v0_script_hash, v1_taproot, verify_v0_key_hash,
  verify_v0_script_hash,
}
use unito_blockchain_25_26_p.Errors.{Result, err, index_error, script_verification, ◌>>=◌}

-- What an interpreter of one input reads of the transaction.
abbrev pub spend_context : BitcoinLibrary → Transaction → ℕ → TxIn → ℤ → SpendContext
spend_context lib tx input_index input amount = record {
  sha256 = lib.sha256;
  hash160 = lib.hash160;
  hash256 = lib.hash256;
  ripemd160 = lib.ripemd160;
  n_sequence = input.n_sequence;
  n_lock_time = tx.n_lock_time;
  signature_hash = λ script hashtype.
      lib.signature_hash (lib.scripts.encode script) tx input_index hashtype amount;
  ecdsa_verify = lib.ecdsa_verify;
}

-- `program.verify`; the version 1 program is an argument, `verify_taproot` of Taproot.Program.
abbrev pub verify_program :
    BitcoinLibrary
    → (verify_taproot : Bytes → List Bytes → Result Bool) → SpendContext
    → WitnessProgram
    → List Bytes
    → Result Bool
verify_program lib verify_taproot ctx (v0_key_hash program) stack =
    verify_v0_key_hash ctx program stack
verify_program lib verify_taproot ctx (v0_script_hash program) stack =
    verify_v0_script_hash ctx lib.scripts program stack
verify_program lib verify_taproot ctx (v1_taproot program) stack = verify_taproot program stack

-- A witness for an input that the transaction does not have is an index error at once.
unfoldable pub verify_transaction_witness :
    BitcoinLibrary
    → (verify_taproot : Bytes → List Bytes → Result Bool) → Transaction
    → ℕ
    → Script
    → ℤ
    → Result Bool
unfolding from_script_pub_key verify_v0_key_hash verify_v0_script_hash
verify_transaction_witness lib verify_taproot tx input_index spent_script amount =
    elim (get_elem? tx.wit input_index) [
      | none ↦ err script_verification
      | some stack ↦ from_script_pub_key spent_script >>= λ program.
          elim (get_elem? tx.vin input_index) [
            | none ↦ err index_error
            | some input ↦
                verify_program lib verify_taproot (spend_context lib tx input_index input amount)
                  program stack
          ]
    ]
