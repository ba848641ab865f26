-- ===== src/Bitcoin/Tests/Transactions.antt =====
-- bitcoin/transaction.py: the theorems on transactions, at toy keys and digests.
use unito_blockchain_25_26_p.Base.{
  Bool, Bytes, List, [], arith, bytes_beq, refl, some, true, ◌∷◌, ◌≡◌,
}
use unito_blockchain_25_26_p.Base.Int.{pos, ◌+ℤ◌, ◌≤ℤ◌}
use unito_blockchain_25_26_p.Base.Lists.{All, length}
use unito_blockchain_25_26_p.Bitcoin.Builder.{BitcoinLibrary, Transaction, TxIn}
use unito_blockchain_25_26_p.Bitcoin.Contracts.{
  bytes_lt, create_htlc, create_multisig_2of2, create_p2wsh,
}
use unito_blockchain_25_26_p.Bitcoin.Dispatch.{check_signature}
use unito_blockchain_25_26_p.Bitcoin.Numbers.{from_bytes_signed}
use unito_blockchain_25_26_p.Bitcoin.Script.{Script}
use unito_blockchain_25_26_p.Bitcoin.Tests.{alice, alice_sig, bob, bob_sig, pushed, toy_library}
use unito_blockchain_25_26_p.Bitcoin.Transaction.{
  Commitment, create_commitment_transaction, create_cooperative_close_transaction,
  create_htlc_claim_transaction, create_htlc_refund_transaction,
}
use unito_blockchain_25_26_p.Bitcoin.Transaction.Funded.{verify-cooperative_close}
use unito_blockchain_25_26_p.Bitcoin.Transaction.Outputs.{
  IsAboveDust, create_commitment_value, total_value,
}
use unito_blockchain_25_26_p.Bitcoin.Transaction.Signing.{verify-sign_commitment}
use unito_blockchain_25_26_p.Errors.{Result, err, ok, script_verification}
use unito_blockchain_25_26_p.Bitcoin.Transaction.Verify.{verify-claim, verify-refund}
use unito_blockchain_25_26_p.Bitcoin.Signatures.{Secret, sign_commitment_transaction}
use unito_blockchain_25_26_p.Bitcoin.Verification.{verify_transaction_witness}

abbrev pub toy_digest : Bytes → Bytes
toy_digest bs =
    length bs
    ∷ 0
    ∷ 0
    ∷ 0
    ∷ 0
    ∷ 0
    ∷ 0
    ∷ 0
    ∷ 0
    ∷ 0
    ∷ 0
    ∷ 0
    ∷ 0
    ∷ 0
    ∷ 0
    ∷ 0
    ∷ 0
    ∷ 0
    ∷ 0
    ∷ 0
    ∷ 0
    ∷ 0
    ∷ 0
    ∷ 0
    ∷ 0
    ∷ 0
    ∷ 0
    ∷ 0
    ∷ 0
    ∷ 0
    ∷ 0
    ∷ 0
    ∷ []

-- A signature of a key is the key itself.
abbrev pub toy_bitcoin : BitcoinLibrary
toy_bitcoin = record {
  scripts = toy_library;
  sha256 = toy_digest;
  hash160 = λ bs. 8 ∷ bs;
  hash256 = λ bs. 9 ∷ bs;
  ripemd160 = λ bs. 10 ∷ bs;
  signature_hash = λ script tx i hashtype amount. i ∷ hashtype ∷ script;
  ecdsa_verify = λ pubkey digest sig. bytes_beq pubkey sig;
}

abbrev pub no_taproot : Bytes → List Bytes → Result Bool
no_taproot program stack = err script_verification

abbrev pub secret_of : Bytes → Secret
secret_of key = record { pub_key = key; sign = λ digest. key }

abbrev payment_hash : Bytes
payment_hash = toy_digest (1 ∷ [])

abbrev htlc : Script
htlc = create_htlc alice bob payment_hash (pos 500)

abbrev htlc_output : Script
htlc_output = create_p2wsh toy_bitcoin.sha256 toy_bitcoin.scripts htlc

verify-refund_example :
    verify_transaction_witness toy_bitcoin no_taproot
      (create_htlc_refund_transaction toy_bitcoin "aa" 0 alice (pos 9000) 500 htlc alice_sig)
      0
      htlc_output
      (pos 10_000)
    ≡ ok true
unfolding create_htlc check_signature from_bytes_signed
verify-refund_example =
    verify-refund toy_bitcoin no_taproot "aa" 0 alice (pos 9000) (pos 10_000) alice bob payment_hash
      alice_sig 500 pushed refl refl refl (omega arith) pushed pushed pushed

verify-claim_example :
    verify_transaction_witness toy_bitcoin no_taproot
      (create_htlc_claim_transaction toy_bitcoin "aa" 0 bob (pos 9000) (1 ∷ []) htlc bob_sig)
      0
      htlc_output
      (pos 10_000)
    ≡ ok true
unfolding create_htlc check_signature
verify-claim_example =
    verify-claim toy_bitcoin no_taproot "aa" 0 bob (pos 9000) (pos 10_000) alice bob payment_hash
      bob_sig 500 (1 ∷ []) pushed refl refl pushed pushed pushed

abbrev funding : Script
funding = create_multisig_2of2 bob alice

abbrev funding_output : Script
funding_output = create_p2wsh toy_bitcoin.sha256 toy_bitcoin.scripts funding

verify-cooperative_close_example :
    verify_transaction_witness toy_bitcoin no_taproot
      (create_cooperative_close_transaction toy_bitcoin "aa" 0 bob alice
        (pos 6000)
        (pos 4000)
        bob_sig
        alice_sig
        (some funding))
      0
      funding_output
      (pos 10_000)
    ≡ ok true
unfolding create_multisig_2of2 bytes_lt check_signature
verify-cooperative_close_example =
    verify-cooperative_close toy_bitcoin no_taproot "aa" 0 bob alice (pos 6000) (pos 4000)
      (pos 10_000) bob_sig alice_sig (λ e. cc) pushed pushed refl refl pushed pushed

abbrev commitment : Commitment
commitment = record {
  funding_txid = "aa";
  funding_vout = 0;
  sender_pubkey = bob;
  receiver_pubkey = alice;
  sender_balance_sat = pos 6000;
  receiver_balance_sat = pos 400;
  htlc_outputs = (pos 3000, htlc) ∷ [];
  sequence_number = 0;
}

abbrev commitment_input : TxIn
commitment_input = record { txid = "aa"; vout = 0; n_sequence = 0 }

verify-sign_commitment_example :
    (result : Transaction) × (sign_commitment_transaction toy_bitcoin
        (create_commitment_transaction toy_bitcoin commitment)
        0
        funding
        (pos 10_000)
        (secret_of bob)
        (secret_of alice)
      ≡ ok result)
    × (verify_transaction_witness toy_bitcoin no_taproot result 0 funding_output (pos 10_000)
        ≡ ok true)
unfolding create_multisig_2of2 bytes_lt create_commitment_transaction
verify-sign_commitment_example =
    verify-sign_commitment toy_bitcoin no_taproot
      (create_commitment_transaction toy_bitcoin commitment) (pos 10_000) (secret_of bob)
      (secret_of alice) commitment_input refl refl (λ digest. refl) (λ digest. refl)
      (λ s i h a w. refl) (λ e. cc) pushed pushed refl refl refl

create_commitment_value_example :
    All IsAboveDust (create_commitment_transaction toy_bitcoin commitment).vout
    × (total_value (create_commitment_transaction toy_bitcoin commitment).vout ≤ℤ pos 9400)
    × (pos 9400
        ≤ℤ (total_value (create_commitment_transaction toy_bitcoin commitment).vout +ℤ pos 1635))
unfolding ◌+ℤ◌
create_commitment_value_example =
    create_commitment_value toy_bitcoin commitment (omega arith) (omega arith) (omega arith, tt)
