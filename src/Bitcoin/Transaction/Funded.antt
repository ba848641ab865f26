-- ===== src/Bitcoin/Transaction/Funded.antt =====
-- bitcoin/transaction.py: the transactions that spend the 2-of-2 funding output pass its check.
use unito_blockchain_25_26_p.Base.{
  Bool, Bytes, List, String, [], arith, bytes_beq_iff, if◌then◌else◌, some, true, ℕ, ◌&&◌, ◌≡◌, ◌≢◌,
  Bool-cases, false, inl, inr, refl, ◌∙◌, ◌∷◌,
}
use unito_blockchain_25_26_p.Base.Int.{ℤ}
use unito_blockchain_25_26_p.Base.Lists.{get_elem?, length}
use unito_blockchain_25_26_p.Bitcoin.Builder.{BitcoinLibrary, Transaction, TxIn, final_sequence}
use unito_blockchain_25_26_p.Bitcoin.Contracts.{
  bytes_lt, create_multisig_2of2, create_p2wsh, witness_multisig_2of2, sorted_pair,
}
use unito_blockchain_25_26_p.Bitcoin.Script.{ReadsBack, Script}
use unito_blockchain_25_26_p.Bitcoin.Transaction.{create_cooperative_close_transaction}
use unito_blockchain_25_26_p.Bitcoin.Witness.Spend.{signs}
use unito_blockchain_25_26_p.Errors.{Result, err, ok, script_verification}
use unito_blockchain_25_26_p.Bitcoin.Machine.{SpendContext}
use unito_blockchain_25_26_p.Bitcoin.Transaction.Verify.{verify-create_p2wsh}
use unito_blockchain_25_26_p.Bitcoin.Witness.Funding.{spend_multisig_2of2}
use unito_blockchain_25_26_p.Bitcoin.Verification.{spend_context, verify_transaction_witness}

bytes_lt_asym : (a b : Bytes) → bytes_lt a b ≡ true → bytes_lt b a ≡ false
unfolding bytes_lt
bytes_lt_asym [] [] h = refl
bytes_lt_asym [] (y ∷ ys) h = refl
bytes_lt_asym (x ∷ xs) [] h = absurd (ground arith)
bytes_lt_asym (x ∷ xs) (y ∷ ys) h = ground (arith, bytes_lt_asym xs ys)

bytes_lt_total : (a b : Bytes) → a ≢ b → bytes_lt a b ≡ false → bytes_lt b a ≡ true
unfolding bytes_lt
bytes_lt_total [] [] ne h = absurd (ne refl)
bytes_lt_total [] (y ∷ ys) ne h = absurd (ground arith)
bytes_lt_total (x ∷ xs) [] ne h = refl
bytes_lt_total (x ∷ xs) (y ∷ ys) ne h = ground (arith, bytes_lt_total xs ys)

-- Of two different keys, the order does not depend on which is compared with which.
sorted_pair_lem :
    (a b : Bytes) → a ≢ b → sorted_pair a b ≡ (if bytes_lt a b then (a, b) else (b, a))
unfolding sorted_pair
sorted_pair_lem a b ne = elim (Bool-cases (bytes_lt a b)) [
  | inl h ↦ rw (h, bytes_lt_asym a b h) refl
  | inr h ↦ rw (h, bytes_lt_total a b ne h) refl
]

and_comm : (a b : Bool) → (a && b) ≡ (b && a)
and_comm a b = ground arith

module _ (lib : BitcoinLibrary) (verify_taproot : Bytes → List Bytes → Result Bool) (txid : String)
    (vout : ℕ) (sender receiver : Bytes) (final_sender final_receiver capacity : ℤ)
    (sig_sender sig_receiver : Bytes) where
  abbrev funding_script : Script
  funding_script = create_multisig_2of2 sender receiver

  abbrev pub closing : Transaction
  closing =
      create_cooperative_close_transaction lib txid vout sender receiver final_sender final_receiver
        sig_sender sig_receiver (some funding_script)

  abbrev pub closing_input : TxIn
  closing_input = record { txid = txid; vout = vout; n_sequence = final_sequence }

  abbrev pub closing_context : SpendContext
  closing_context = spend_context lib closing 0 closing_input capacity

  -- The script as the interpreter reads it.
  abbrev pub parsed_funding : Script
  parsed_funding = lib.scripts.parse (lib.scripts.encode funding_script)

  -- The signatures by the order of the keys.
  abbrev signatures : Bytes × Bytes
  signatures =
      if bytes_lt sender receiver then (sig_sender, sig_receiver) else (sig_receiver, sig_sender)

  closing_parts :
      sig_sender ≢ []
      → sig_receiver ≢ []
      → (get_elem? closing.wit 0
          ≡ some (witness_multisig_2of2 lib.scripts signatures.0 signatures.1 funding_script))
        × (get_elem? closing.vin 0 ≡ some closing_input)
  unfolding create_cooperative_close_transaction create_multisig_2of2
  closing_parts ne1 ne2 = ground (arith, bytes_beq_iff sig_sender [], bytes_beq_iff sig_receiver [])

  either_order :
      (ctx : SpendContext) (script : Script)
      → sender ≢ receiver
      → (if signs ctx script (sorted_pair sender receiver).0 signatures.0
            && signs ctx script (sorted_pair sender receiver).1 signatures.1
          then ok true
          else err script_verification)
        ≡ (if signs ctx script sender sig_sender && signs ctx script receiver sig_receiver
            then ok true
            else err script_verification)
  either_order ctx script ne =
      rw (sorted_pair_lem sender receiver ne) (elim (Bool-cases (bytes_lt sender receiver)) [
        | inl h ↦ rw h refl
        | inr h ↦
            rw
              (
                h,
                and_comm (signs ctx script receiver sig_receiver)
                    (signs ctx script sender sig_sender),
              )
              refl
      ])

  -- Where digests have 32 bytes, the funding script reads back as it was written and the keys differ and
  -- are not empty, a cooperative close with two nonempty signatures passes the check of the funding
  -- output exactly when each party's signature is one of that party's key, whichever of the two keys is
  -- the smaller one.
  pub verify-cooperative_close :
      sender ≢ receiver
      → sig_sender ≢ []
      → sig_receiver ≢ []
      → length (lib.sha256 (lib.scripts.encode funding_script)) ≡ 32
      → ReadsBack lib.scripts funding_script
      → sender ≢ []
      → receiver ≢ []
      → verify_transaction_witness lib verify_taproot closing 0
          (create_p2wsh lib.sha256 lib.scripts funding_script)
          capacity
        ≡ (if signs closing_context parsed_funding sender sig_sender
              && signs closing_context parsed_funding receiver sig_receiver
            then ok true
            else err script_verification)
  verify-cooperative_close ne ne1 ne2 size reads s r =
      let ctx = closing_context in
      let signed_script = parsed_funding in
      let (wit, vin) = closing_parts ne1 ne2 in
      verify-create_p2wsh lib verify_taproot closing 0 funding_script capacity
        (witness_multisig_2of2 lib.scripts signatures.0 signatures.1 funding_script) closing_input
        size wit vin
      ∙ spend_multisig_2of2 ctx lib.scripts sender receiver signatures.0 signatures.1 reads s r
          (ground arith) (ground arith)
      ∙ either_order ctx signed_script ne
