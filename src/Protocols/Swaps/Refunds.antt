-- ===== src/Protocols/Swaps/Refunds.antt =====
-- protocols/swap_server.py: the refund of a swap spends its output when the timelock has passed.
use unito_blockchain_25_26_p.Base.{
  ℕ, ◌≡◌, ◌≢◌, ◌<◌, ◌∙◌, true, some, List, [], Bytes, String, Bool, arith, bytes_beq_iff,
  if◌then◌else◌, ap, ◌&&◌, leb,
}
use unito_blockchain_25_26_p.Base.Int.{ℤ}
use unito_blockchain_25_26_p.Base.Lists.{get_elem?, length}
use unito_blockchain_25_26_p.Errors.{Result, ok, err, script_verification}
use unito_blockchain_25_26_p.Bitcoin.Script.{Script, ReadsBack}
use unito_blockchain_25_26_p.Bitcoin.Contracts.{create_p2wsh, witness_htlc_refund}
use unito_blockchain_25_26_p.Bitcoin.Builder.{BitcoinLibrary, Transaction, TxIn}
use unito_blockchain_25_26_p.Bitcoin.Transaction.Verify.{verify-create_p2wsh}
use unito_blockchain_25_26_p.Bitcoin.Witness.Htlc.{spend_refund}
use unito_blockchain_25_26_p.Bitcoin.Witness.Spend.{signs, ReadsNumber}
use unito_blockchain_25_26_p.Bitcoin.Verification.{spend_context, verify_transaction_witness}
use unito_blockchain_25_26_p.Protocols.Swaps.{create_submarine_swap_script}
use unito_blockchain_25_26_p.Protocols.Swaps.Server.{create_submarine_swap_refund_tx}

module _ (lib : BitcoinLibrary) (verify_taproot : Bytes → List Bytes → Result Bool) (txid : String)
    (vout : ℕ) (refunder user provider payment_hash sig : Bytes) (amount : ℤ) (locktime : ℕ) where
  abbrev pub swap_output_script : Script
  swap_output_script = create_submarine_swap_script user provider payment_hash locktime

  abbrev pub swap_refund : Transaction
  swap_refund =
      create_submarine_swap_refund_tx lib txid vout refunder amount locktime swap_output_script sig

  abbrev pub swap_refund_input : TxIn
  swap_refund_input = record { txid = txid; vout = vout; n_sequence = 0 }

  refund_parts :
      sig ≢ []
      → (get_elem? swap_refund.wit 0
          ≡ some (witness_htlc_refund lib.scripts sig swap_output_script))
        × (get_elem? swap_refund.vin 0 ≡ some swap_refund_input)
        × (swap_refund.n_lock_time ≡ locktime)
  unfolding create_submarine_swap_refund_tx witness_htlc_refund
  refund_parts ne = ground (arith, bytes_beq_iff sig [])

  -- Where digests have 32 bytes, the script and its number read back as they were written, keys and
  -- payment hash are not empty and the locktime is above 16, the refund of a swap with a nonempty signature
  -- passes the check of the swap's output exactly when the signature is the user's: sequence and locktime
  -- are the ones that the script asks for.
  pub verify-swap_refund :
      sig ≢ []
      → length (lib.sha256 (lib.scripts.encode swap_output_script)) ≡ 32
      → ReadsBack lib.scripts swap_output_script
      → ReadsNumber lib.scripts locktime
      → 16 < locktime
      → user ≢ []
      → provider ≢ []
      → payment_hash ≢ []
      → verify_transaction_witness lib verify_taproot swap_refund 0
          (create_p2wsh lib.sha256 lib.scripts swap_output_script)
          amount
        ≡ (if signs
              (spend_context lib swap_refund 0 swap_refund_input amount)
              (lib.scripts.parse (lib.scripts.encode swap_output_script))
              user
              sig
            then ok true
            else err script_verification)
  unfolding create_submarine_swap_script
  verify-swap_refund ne size reads value big u p h =
      let ctx = spend_context lib swap_refund 0 swap_refund_input amount in
      let parsed = lib.scripts.parse (lib.scripts.encode swap_output_script) in
      let (wit, vin, lock) = refund_parts ne in
      let due : leb locktime swap_refund.n_lock_time ≡ true = ground (arith, lock) in
      verify-create_p2wsh lib verify_taproot swap_refund 0 swap_output_script amount
        (witness_htlc_refund lib.scripts sig swap_output_script) swap_refund_input size wit vin
      ∙ spend_refund ctx lib.scripts user provider payment_hash sig locktime reads value big u p h
      ∙ ap
          (λ (reached : Bool).
            if reached && signs ctx parsed user sig then ok true else err script_verification)
          due
