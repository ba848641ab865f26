-- ===== src/Bitcoin/Transaction/Verify.antt =====
-- bitcoin/transaction.py and bitcoin/interpreter.py: the transactions that spend a channel's outputs
-- pass the check of the outputs they spend.
use unito_blockchain_25_26_p.Base.{
  Bool, Bytes, List, String, [], arith, refl, some, ℕ, ◌≡◌, ◌≢◌, bytes_beq_iff, ap, bytes_beq,
  if◌then◌else◌, true, ◌&&◌, ◌<◌, ◌∙◌, leb,
}
use unito_blockchain_25_26_p.Base.Int.{ℤ, pos}
use unito_blockchain_25_26_p.Base.Lists.{get_elem?, length}
use unito_blockchain_25_26_p.Bitcoin.Builder.{BitcoinLibrary, Transaction, TxIn, final_sequence}
use unito_blockchain_25_26_p.Bitcoin.Contracts.{
  create_p2wsh, witness_htlc_fulfill, witness_htlc_refund, create_htlc,
}
use unito_blockchain_25_26_p.Bitcoin.Script.{Script, ReadsBack}
use unito_blockchain_25_26_p.Bitcoin.Transaction.{
  create_htlc_claim_transaction, create_htlc_refund_transaction,
}
use unito_blockchain_25_26_p.Bitcoin.Witness.{
  from_script_pub_key, v0_script_hash, verify_v0_script_hash,
}
use unito_blockchain_25_26_p.Config.{sequence_cltv_enable_mask}
use unito_blockchain_25_26_p.Errors.{Result, ok, err, script_verification}
use unito_blockchain_25_26_p.Bitcoin.Witness.Htlc.{spend_fulfill, spend_refund}
use unito_blockchain_25_26_p.Bitcoin.Witness.Spend.{ReadsNumber, signs}
use unito_blockchain_25_26_p.Bitcoin.Verification.{spend_context, verify_transaction_witness}

module _ (lib : BitcoinLibrary) (verify_taproot : Bytes → List Bytes → Result Bool) where
  from_script_pub_key-create_p2wsh :
      (script : Script)
      → length (lib.sha256 (lib.scripts.encode script)) ≡ 32
      → from_script_pub_key (create_p2wsh lib.sha256 lib.scripts script)
        ≡ ok (v0_script_hash (lib.sha256 (lib.scripts.encode script)))
  unfolding from_script_pub_key create_p2wsh
  from_script_pub_key-create_p2wsh script h = ground arith

  -- The check of a script-hash output runs its script in the input's context.
  pub verify-create_p2wsh :
      (tx : Transaction) (i : ℕ) (script : Script) (amount : ℤ) (stack : List Bytes) (input : TxIn)
      → length (lib.sha256 (lib.scripts.encode script)) ≡ 32
      → get_elem? tx.wit i ≡ some stack
      → get_elem? tx.vin i ≡ some input
      → verify_transaction_witness lib verify_taproot tx i
          (create_p2wsh lib.sha256 lib.scripts script)
          amount
        ≡ verify_v0_script_hash
            (spend_context lib tx i input amount)
            lib.scripts
            (lib.sha256 (lib.scripts.encode script))
            stack
  unfolding verify_transaction_witness
  verify-create_p2wsh tx i script amount stack input size wit vin =
      rw (wit, verify_transaction_witness, from_script_pub_key-create_p2wsh script size, vin) refl

  module _ (txid : String) (vout : ℕ) (pubkey : Bytes) (amount spent : ℤ)
      (sender receiver payment_hash sig : Bytes) where
    -- The inputs of a refund and of a claim.
    abbrev pub refund_input : TxIn
    refund_input = record { txid = txid; vout = vout; n_sequence = sequence_cltv_enable_mask }

    abbrev pub claim_input : TxIn
    claim_input = record { txid = txid; vout = vout; n_sequence = final_sequence }

    refund_parts :
        (locktime : ℕ) (script : Script)
        → sig ≢ []
        → let tx = create_htlc_refund_transaction lib txid vout pubkey amount locktime script sig in
          (get_elem? tx.wit 0 ≡ some (witness_htlc_refund lib.scripts sig script))
          × (get_elem? tx.vin 0 ≡ some refund_input)
          × (tx.n_lock_time ≡ locktime)
    unfolding create_htlc_refund_transaction
    refund_parts locktime script ne = ground (arith, bytes_beq_iff sig [])

    claim_parts :
        (preimage : Bytes) (script : Script)
        → sig ≢ []
        → let tx = create_htlc_claim_transaction lib txid vout pubkey amount preimage script sig in
          (get_elem? tx.wit 0 ≡ some (witness_htlc_fulfill lib.scripts sig preimage script))
          × (get_elem? tx.vin 0 ≡ some claim_input)
    unfolding create_htlc_claim_transaction
    claim_parts preimage script ne = ground (arith, bytes_beq_iff sig [])

    module _ (locktime : ℕ) where
      abbrev pub htlc_script : Script
      htlc_script = create_htlc sender receiver payment_hash (pos locktime)

      -- The script as the interpreter reads it.
      abbrev pub parsed_htlc : Script
      parsed_htlc = lib.scripts.parse (lib.scripts.encode htlc_script)

      abbrev pub refund : Transaction
      refund = create_htlc_refund_transaction lib txid vout pubkey amount locktime htlc_script sig

      -- Where digests have 32 bytes, the script and its number read back as they were written, keys and
      -- payment hash are not empty and the locktime is above 16, a refund transaction with a nonempty
      -- signature passes the check of the HTLC output it spends exactly when the signature is the
      -- sender's: the locktime and the sequence that the transaction is given are the ones that the
      -- script asks for.
      pub verify-refund :
          sig ≢ []
          → length (lib.sha256 (lib.scripts.encode htlc_script)) ≡ 32
          → ReadsBack lib.scripts htlc_script
          → ReadsNumber lib.scripts locktime
          → 16 < locktime
          → sender ≢ []
          → receiver ≢ []
          → payment_hash ≢ []
          → verify_transaction_witness lib verify_taproot refund 0
              (create_p2wsh lib.sha256 lib.scripts htlc_script)
              spent
            ≡ (if signs (spend_context lib refund 0 refund_input spent) parsed_htlc sender sig
                then ok true
                else err script_verification)
      verify-refund ne size reads value big s r h =
          let ctx = spend_context lib refund 0 refund_input spent in
          let (wit, vin, lock) = refund_parts locktime htlc_script ne in
          let due : leb locktime refund.n_lock_time ≡ true = ground (arith, lock) in
          verify-create_p2wsh refund 0 htlc_script spent
            (witness_htlc_refund lib.scripts sig htlc_script) refund_input size wit vin
          ∙ spend_refund ctx lib.scripts sender receiver payment_hash sig locktime reads value big s
              r h
          ∙ ap
              (λ due.
                if due && signs ctx parsed_htlc sender sig
                then ok true
                else err script_verification)
              due

      abbrev pub claim : Bytes → Transaction
      claim preimage =
          create_htlc_claim_transaction lib txid vout pubkey amount preimage htlc_script sig

      -- Where digests have 32 bytes, the script reads back as it was written and keys and payment hash
      -- are not empty, a claim transaction with a nonempty signature passes the check of the HTLC output
      -- it spends exactly when the preimage hashes to the payment hash and the signature is the
      -- receiver's.
      pub verify-claim :
          (preimage : Bytes)
          → sig ≢ []
          → length (lib.sha256 (lib.scripts.encode htlc_script)) ≡ 32
          → ReadsBack lib.scripts htlc_script
          → sender ≢ []
          → receiver ≢ []
          → payment_hash ≢ []
          → verify_transaction_witness lib verify_taproot
              (claim preimage)
              0
              (create_p2wsh lib.sha256 lib.scripts htlc_script)
              spent
            ≡ (if bytes_beq payment_hash (lib.sha256 preimage)
                  && signs
                      (spend_context lib (claim preimage) 0 claim_input spent)
                      parsed_htlc
                      receiver
                      sig
                then ok true
                else err script_verification)
      verify-claim preimage ne size reads s r h =
          let (wit, vin) = claim_parts preimage htlc_script ne in
          verify-create_p2wsh (claim preimage) 0 htlc_script spent
            (witness_htlc_fulfill lib.scripts sig preimage htlc_script) claim_input size wit vin
          ∙ spend_fulfill (spend_context lib (claim preimage) 0 claim_input spent) lib.scripts
              sender receiver payment_hash sig preimage locktime reads s r h
