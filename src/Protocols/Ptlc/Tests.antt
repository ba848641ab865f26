-- ===== src/Protocols/Ptlc/Tests.antt =====
-- protocols/ptlc.py: runs of adaptor signatures over a toy group, and the theorems there.
use unito_blockchain_25_26_p.Base.{
  [], arith, false, none, refl, some, true, ◌∷◌, ◌≡◌, string_eq, Bytes, ℕ, ◌%◌, ◌++◌, ◌+◌,
}
use unito_blockchain_25_26_p.Bitcoin.Curve.{ec_point_mul}
use unito_blockchain_25_26_p.Bitcoin.Curve.Tests.{toy_curve, toy_curve-IsGroup}
use unito_blockchain_25_26_p.Bitcoin.Integers.{int_to_bytes, int_from_bytes}
use unito_blockchain_25_26_p.Errors.{ok, Result, err}
use unito_blockchain_25_26_p.Protocols.Ptlc.{
  AdaptorSignature, adapt_signature, adaptor, challenge, create_adaptor_signature,
  extract_adaptor_secret, nonce, of_bytes, of_int, s_prime, scalar, secret_scalar,
  verify_adaptor_signature, verify_schnorr_signature,
}
use unito_blockchain_25_26_p.Protocols.Ptlc.Adaptor.{
  extract_adaptor_secret-adapt_signature, verify-create_adaptor_signature,
  verify_schnorr_signature-adapt_signature,
}
use unito_blockchain_25_26_p.Base.Int.{pos}
use unito_blockchain_25_26_p.Bitcoin.Contracts.{create_p2wsh, create_p2tr}
use unito_blockchain_25_26_p.Bitcoin.Dispatch.{check_signature}
use unito_blockchain_25_26_p.Bitcoin.Script.{Script, code, op_1, push}
use unito_blockchain_25_26_p.Bitcoin.Tests.{alice, bob, bob_sig, pushed}
use unito_blockchain_25_26_p.Bitcoin.Tests.Transactions.{no_taproot, toy_bitcoin}
use unito_blockchain_25_26_p.Bitcoin.Verification.{verify_transaction_witness, spend_context}
use unito_blockchain_25_26_p.Protocols.Ptlc.Settlement.{
  create_ptlc_script, create_ptlc_settlement_transaction, verify-ptlc_settlement,
  create_taproot_ptlc_settlement_transaction,
}
use unito_blockchain_25_26_p.Bitcoin.Builder.{Transaction, TxIn, final_sequence}
use unito_blockchain_25_26_p.Bitcoin.Tagged.{tagged_hash}
use unito_blockchain_25_26_p.Bitcoin.Taproot.{
  schnorr_verify, tagged_scalar, lift_x, schnorr_point_check,
}
use unito_blockchain_25_26_p.Bitcoin.Taproot.Program.{verify_taproot}
use unito_blockchain_25_26_p.Bitcoin.Taproot.Tests.{toy_serialize, toy_taproot}
use unito_blockchain_25_26_p.Config.{secp256k1_order}
use unito_blockchain_25_26_p.Protocols.Ptlc.Taproot.{verify-taproot_settlement}

abbrev sig : AdaptorSignature
sig = record { r_prime = 12 ∷ []; s_prime_bytes = int_to_bytes 32 20; payment_point = 7 ∷ [] }

made : create_adaptor_signature toy_curve (of_int 3) (7 ∷ []) [] ≡ ok sig
unfolding create_adaptor_signature int_from_bytes
made = refl

wrong_message :
    verify_adaptor_signature toy_curve (record sig { r_prime = 13 ∷ [] }) (3 ∷ []) [] none ≡ false
unfolding verify_adaptor_signature int_from_bytes int_to_bytes
wrong_message = refl

verify-create_adaptor_signature_example :
    (verify_adaptor_signature toy_curve sig (3 ∷ []) [] none ≡ true)
    × (verify_adaptor_signature toy_curve sig (3 ∷ []) [] (some (7 ∷ [])) ≡ true)
unfolding ec_point_mul secret_scalar challenge nonce s_prime int_from_bytes int_to_bytes
verify-create_adaptor_signature_example =
    verify-create_adaptor_signature toy_curve toy_curve-IsGroup (of_int 3) 7 (7 ∷ []) (3 ∷ []) []
      sig refl refl made (omega arith) (omega arith) (omega arith) (omega arith)

verify_schnorr_signature-adapt_signature_example :
    verify_schnorr_signature toy_curve
      (3 ∷ [])
      []
      (12 ∷ [])
      (of_bytes (adapt_signature sig (of_int 7)))
    ≡ true
unfolding ec_point_mul secret_scalar challenge nonce s_prime int_from_bytes int_to_bytes
verify_schnorr_signature-adapt_signature_example =
    verify_schnorr_signature-adapt_signature toy_curve toy_curve-IsGroup (of_int 3) 7 (7 ∷ [])
      (3 ∷ []) [] sig refl refl made (omega arith) (omega arith) (omega arith) (omega arith)

extract_adaptor_secret-adapt_signature_example :
    let final = scalar (of_bytes (adapt_signature sig (of_int 7))) in
    (extract_adaptor_secret (adaptor sig) (some final)
      ≡ ok (int_to_bytes 32 (secret_scalar (of_int 7))))
    × (extract_adaptor_secret final (some (adaptor sig))
        ≡ ok (int_to_bytes 32 (secret_scalar (of_int 7))))
extract_adaptor_secret-adapt_signature_example =
    extract_adaptor_secret-adapt_signature sig (of_int 7)

abbrev ptlc : Script
ptlc = create_ptlc_script alice bob (pos 500)

verify-ptlc_settlement_example :
    verify_transaction_witness toy_bitcoin no_taproot
      (create_ptlc_settlement_transaction toy_bitcoin
        (some "aa")
        0
        bob
        (pos 9000)
        bob_sig
        (some ptlc)
        none
        0)
      0
      (create_p2wsh toy_bitcoin.sha256 toy_bitcoin.scripts ptlc)
      (pos 10_000)
    ≡ ok true
unfolding create_ptlc_script check_signature
verify-ptlc_settlement_example =
    verify-ptlc_settlement toy_bitcoin no_taproot "aa" 0 bob alice bob bob_sig (pos 9000)
      (pos 10_000) 500 refl refl (λ e. ground (arith, string_eq.beq_iff "aa" "")) pushed pushed
      pushed

abbrev taproot_key : Bytes
taproot_key = int_to_bytes 32 1

abbrev toy_challenge : ℕ
toy_challenge =
    tagged_scalar toy_taproot "BIP0340/challenge"
      (int_to_bytes 32 5 ++ (taproot_key ++ int_to_bytes 32 0))

abbrev taproot_sig : Bytes
taproot_sig = int_to_bytes 32 5 ++ int_to_bytes 32 ((5 + toy_challenge) % secp256k1_order)

abbrev result_or : Transaction → Result Transaction → Transaction
result_or default (ok tx) = tx
result_or default (err raised) = default

abbrev no_transaction : Transaction
no_transaction = record { vin = []; vout = []; n_lock_time = 0; wit = [] }

abbrev taproot_settlement : Transaction
taproot_settlement =
    result_or no_transaction
      (create_taproot_ptlc_settlement_transaction "aa" 0 taproot_key (pos 4000) taproot_sig)

verify-taproot_settlement_example :
    let input : TxIn = record { txid = "aa"; vout = 0; n_sequence = final_sequence } in
    verify_transaction_witness toy_bitcoin
      (verify_taproot toy_taproot toy_bitcoin toy_serialize
        (spend_context toy_bitcoin taproot_settlement 0 input (pos 5000))
        taproot_settlement)
      taproot_settlement
      0
      (code op_1 ∷ push taproot_key ∷ [])
      (pos 5000)
    ≡ ok true
unfolding create_taproot_ptlc_settlement_transaction create_p2tr schnorr_verify lift_x
    schnorr_point_check tagged_scalar tagged_hash int_from_bytes int_to_bytes
verify-taproot_settlement_example =
    verify-taproot_settlement toy_taproot toy_bitcoin toy_serialize "aa" 0 taproot_key (pos 4000)
      taproot_sig taproot_settlement taproot_key (code op_1 ∷ push taproot_key ∷ []) (pos 5000) refl
      refl refl
