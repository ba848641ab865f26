-- ===== src/Bitcoin/Signatures.antt =====
-- src/payment_communities/bitcoin/transaction.py: `sign_commitment_transaction`.
use unito_blockchain_25_26_p.Base.{
  Bytes, List, [], bytes_beq, if◌then◌else◌, suc, zero, ℕ, ◌++◌, ◌∷◌,
}
use unito_blockchain_25_26_p.Base.Int.{ℤ}
use unito_blockchain_25_26_p.Bitcoin.Builder.{BitcoinLibrary, Transaction}
use unito_blockchain_25_26_p.Bitcoin.Contracts.{sorted_pair, witness_multisig_2of2}
use unito_blockchain_25_26_p.Bitcoin.Script.{Script}
use unito_blockchain_25_26_p.Errors.{Result, err, index_error, ok, ◌>>=◌}

-- A key as the wallet holds it: `sign` is the DER signature of a digest.
pub record Secret : Type 0 where
  pub pub_key : Bytes
  pub sign : Bytes → Bytes

-- `sign_sighash`
unfoldable pub sign_sighash : Secret → Bytes → ℕ → Bytes
sign_sighash secret sighash sighash_type = secret.sign sighash ++ (sighash_type ∷ [])

abbrev pub set_elem : List (List Bytes) → ℕ → List Bytes → Result (List (List Bytes))
set_elem [] i stack = err index_error
set_elem (w ∷ ws) zero stack = ok (stack ∷ ws)
set_elem (w ∷ ws) (suc i) stack = set_elem ws i stack >>= λ rest. ok (w ∷ rest)

-- Without witnesses the new one is the only one, whatever the index.
abbrev pub attach_witness : List (List Bytes) → ℕ → List Bytes → Result (List (List Bytes))
attach_witness [] input_index stack = ok (stack ∷ [])
attach_witness (w ∷ ws) input_index stack = set_elem (w ∷ ws) input_index stack

-- The signatures in the order of the sorted keys.
abbrev pub ordered_signatures : Secret → Secret → Bytes → Bytes × Bytes
ordered_signatures sec1 sec2 sighash =
    let sig1 = sign_sighash sec1 sighash 1 in
    let sig2 = sign_sighash sec2 sighash 1 in
    if bytes_beq (sorted_pair sec1.pub_key sec2.pub_key).0 sec1.pub_key
    then (sig1, sig2)
    else (sig2, sig1)

unfoldable pub sign_commitment_transaction :
    BitcoinLibrary → Transaction → ℕ → Script → ℤ → Secret → Secret → Result Transaction
unfolding witness_multisig_2of2 sorted_pair sign_sighash
sign_commitment_transaction lib tx input_index redeem_script capacity sec1 sec2 =
    let sighash = lib.signature_hash (lib.scripts.encode redeem_script) tx input_index 1 capacity in
    let (first, second) = ordered_signatures sec1 sec2 sighash in
    let stack = witness_multisig_2of2 lib.scripts first second redeem_script in
    attach_witness tx.wit input_index stack >>= λ wit. ok (record tx { wit = wit })

-- `sign_p2wsh_input` of contracts.py, with the key that the wallet reads from its text form.
unfoldable pub sign_p2wsh_input : BitcoinLibrary → Transaction → ℕ → Script → Secret → ℤ → Bytes
unfolding sign_sighash
sign_p2wsh_input lib tx input_idx redeem_script secret amount =
    sign_sighash secret
      (lib.signature_hash (lib.scripts.encode redeem_script) tx input_idx 1 amount) 1
