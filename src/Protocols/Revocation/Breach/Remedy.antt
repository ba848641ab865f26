-- ===== src/Protocols/Revocation/Breach/Remedy.antt =====
-- protocols/revocation.py: a breach remedy spends the delayed output of the cheating party.
use unito_blockchain_25_26_p.Base.{
  Bool, Bytes, List, String, [], arith, if◌then◌else◌, some, true, ℕ, ◌∙◌, ◌∷◌, ◌≡◌, ◌≢◌,
}
use unito_blockchain_25_26_p.Base.Int.{pos, ℤ}
use unito_blockchain_25_26_p.Base.Lists.{get_elem?, length}
use unito_blockchain_25_26_p.Bitcoin.Builder.{BitcoinLibrary, Transaction, TxIn, final_sequence}
use unito_blockchain_25_26_p.Bitcoin.Contracts.{create_p2wsh, create_second_stage_htlc_script}
use unito_blockchain_25_26_p.Bitcoin.Machine.{SpendContext}
use unito_blockchain_25_26_p.Bitcoin.Script.{ReadsBack, Script}
use unito_blockchain_25_26_p.Bitcoin.Transaction.Verify.{verify-create_p2wsh}
use unito_blockchain_25_26_p.Bitcoin.Witness.{verify_v0_script_hash}
use unito_blockchain_25_26_p.Bitcoin.Witness.Delayed.{spend_revoked}
use unito_blockchain_25_26_p.Bitcoin.Witness.Spend.{signs}
use unito_blockchain_25_26_p.Errors.{Result, err, ok, script_verification}
use unito_blockchain_25_26_p.Protocols.Revocation.Breach.{create_breach_remedy_transaction}
use unito_blockchain_25_26_p.Protocols.Revocation.Scripts.{create_revocable_output_script}
use unito_blockchain_25_26_p.Bitcoin.Verification.{spend_context, verify_transaction_witness}

module _ (lib : BitcoinLibrary) (verify_taproot : Bytes → List Bytes → Result Bool) (txid : String)
    (vout : ℕ) (sweeper : Bytes) (amount spent : ℤ) (revocation_pubkey local_pubkey sig : Bytes)
    (delay : ℕ) where
  abbrev pub revocable : Script
  revocable = create_revocable_output_script revocation_pubkey local_pubkey (pos delay)

  abbrev pub remedy : Transaction
  remedy = create_breach_remedy_transaction lib txid vout sweeper amount sig revocable

  abbrev pub remedy_input : TxIn
  remedy_input = record { txid = txid; vout = vout; n_sequence = final_sequence }

  remedy_parts :
      (get_elem? remedy.wit 0 ≡ some (sig ∷ (1 ∷ []) ∷ lib.scripts.encode revocable ∷ []))
      × (get_elem? remedy.vin 0 ≡ some remedy_input)
  unfolding create_breach_remedy_transaction create_revocable_output_script
  remedy_parts = ground arith

  spend_revocable :
      (ctx : SpendContext)
      → ReadsBack lib.scripts revocable
      → revocation_pubkey ≢ []
      → local_pubkey ≢ []
      → verify_v0_script_hash ctx lib.scripts
          (ctx.sha256 (lib.scripts.encode revocable))
          (sig ∷ (1 ∷ []) ∷ lib.scripts.encode revocable ∷ [])
        ≡ (if signs ctx (lib.scripts.parse (lib.scripts.encode revocable)) revocation_pubkey sig
            then ok true
            else err script_verification)
  unfolding create_revocable_output_script create_second_stage_htlc_script
  spend_revocable ctx reads r l =
      spend_revoked ctx lib.scripts revocation_pubkey local_pubkey sig delay reads r l

  -- Where digests have 32 bytes, the script reads back as it was written and its keys are not empty, a
  -- breach remedy passes the check of the delayed output at once exactly when its signature is one of
  -- the revocation key.
  pub verify-breach_remedy :
      length (lib.sha256 (lib.scripts.encode revocable)) ≡ 32
      → ReadsBack lib.scripts revocable
      → revocation_pubkey ≢ []
      → local_pubkey ≢ []
      → verify_transaction_witness lib verify_taproot remedy 0
          (create_p2wsh lib.sha256 lib.scripts revocable)
          spent
        ≡ (if signs
              (spend_context lib remedy 0 remedy_input spent)
              (lib.scripts.parse (lib.scripts.encode revocable))
              revocation_pubkey
              sig
            then ok true
            else err script_verification)
  verify-breach_remedy size reads r l =
      let ctx = spend_context lib remedy 0 remedy_input spent in
      let (wit, vin) = remedy_parts in
      verify-create_p2wsh lib verify_taproot remedy 0 revocable spent
        (sig ∷ (1 ∷ []) ∷ lib.scripts.encode revocable ∷ []) remedy_input size wit vin
      ∙ spend_revocable ctx reads r l
