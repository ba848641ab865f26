-- ===== src/Protocols/Anchors/Spending.antt =====
-- protocols/anchors.py: who can spend the outputs of an anchor commitment, and what they are worth.
use unito_blockchain_25_26_p.Base.{
  Bool, Bytes, List, String, [], arith, if◌then◌else◌, map, refl, some, true, ℕ, ◌||◌, ◌∙◌, ◌∷◌,
  ◌≡◌, ◌≢◌,
}
use unito_blockchain_25_26_p.Base.Int.{pos, ℤ, ◌+ℤ◌, ◌≤ℤ◌, int_laws, leb_ℤ}
use unito_blockchain_25_26_p.Base.Lists.{get_elem?, length}
use unito_blockchain_25_26_p.Bitcoin.Builder.{BitcoinLibrary, Transaction, TxIn}
use unito_blockchain_25_26_p.Bitcoin.Contracts.{create_p2wsh}
use unito_blockchain_25_26_p.Bitcoin.Interpreter.{execute_from, step}
use unito_blockchain_25_26_p.Bitcoin.Machine.{SpendContext}
use unito_blockchain_25_26_p.Bitcoin.Script.{ReadsBack, Script, ScriptLibrary, read_back}
use unito_blockchain_25_26_p.Bitcoin.Transaction.Outputs.{total_value}
use unito_blockchain_25_26_p.Bitcoin.Transaction.Verify.{verify-create_p2wsh}
use unito_blockchain_25_26_p.Bitcoin.Witness.{verify_v0_script_hash}
use unito_blockchain_25_26_p.Bitcoin.Witness.Delayed.{is_mature}
use unito_blockchain_25_26_p.Bitcoin.Witness.Spend.{read_back-push, signs, spend_script}
use unito_blockchain_25_26_p.Errors.{Result, err, ok, script_verification}
use unito_blockchain_25_26_p.Protocols.Anchors.{
  create_anchor_commitment_transaction, create_anchor_script,
}
use unito_blockchain_25_26_p.Config.{bitcoin_dust_limit_sat}
use unito_blockchain_25_26_p.Bitcoin.Verification.{spend_context, verify_transaction_witness}

either_way :
    (a b : Bool) → b ≡ true → (if a || b then ok true else err script_verification) ≡ ok true
either_way a b h = ground arith

module _ (ctx : SpendContext) (lib : ScriptLibrary) (pubkey sig : Bytes) where
  execute_anchor :
      (script : Script)
      → execute_from ctx script (create_anchor_script pubkey) (sig ∷ []) ≡ (
          if signs ctx script pubkey sig || is_mature ctx 16
          then ok true
          else err script_verification)
  unfolding execute_from step create_anchor_script
  execute_anchor script = ground arith

  map-read_back-create_anchor_script :
      pubkey ≢ [] → map (read_back lib) (create_anchor_script pubkey) ≡ create_anchor_script pubkey
  unfolding create_anchor_script
  map-read_back-create_anchor_script ne = rw (read_back-push lib pubkey ne) refl

  -- Where the script reads back as it was written and its key is not empty, an anchor output is spent
  -- exactly when the signature is the key's or the input's relative locktime is enabled and has reached
  -- 16 blocks; in the latter case any bytes do for a signature.
  pub spend_anchor :
      ReadsBack lib (create_anchor_script pubkey)
      → pubkey ≢ []
      → verify_v0_script_hash ctx lib
          (ctx.sha256 (lib.encode (create_anchor_script pubkey)))
          (sig ∷ lib.encode (create_anchor_script pubkey) ∷ [])
        ≡ (if signs ctx (lib.parse (lib.encode (create_anchor_script pubkey))) pubkey sig
              || is_mature ctx 16
            then ok true
            else err script_verification)
  unfolding verify_v0_script_hash
  spend_anchor reads ne =
      let script = create_anchor_script pubkey in
      spend_script ctx lib script script (sig ∷ []) (reads ∙ map-read_back-create_anchor_script ne)
      ∙ execute_anchor (lib.parse (lib.encode script))

module _ (lib : BitcoinLibrary) (txid : String) (vout : ℕ) (sender receiver : Bytes)
    (sender_balance receiver_balance : ℤ) where
  abbrev pub anchored : Transaction
  anchored =
      (create_anchor_commitment_transaction lib txid vout sender receiver sender_balance
        receiver_balance).0

  abbrev pub anchor_output : Script
  anchor_output = create_p2wsh lib.sha256 lib.scripts (create_anchor_script sender)

  -- The output that holds the sender's balance is an anchor output too: where digests have 32 bytes, the
  -- script reads back as it was written, the key is not empty and the balance is not dust, any
  -- transaction whose input has a relative locktime of 16 blocks or more takes the whole balance,
  -- whatever bytes it has for a signature.
  pub balance_open_to_all :
      (verify_taproot : Bytes → List Bytes → Result Bool) (thief : Transaction) (input : TxIn)
      (sig : Bytes)
      → pos 546 ≤ℤ sender_balance
      → length (lib.sha256 (lib.scripts.encode (create_anchor_script sender))) ≡ 32
      → ReadsBack lib.scripts (create_anchor_script sender)
      → sender ≢ []
      → get_elem? thief.vin 0 ≡ some input
      → get_elem? thief.wit 0 ≡ some (sig ∷ lib.scripts.encode (create_anchor_script sender) ∷ [])
      → is_mature (spend_context lib thief 0 input sender_balance) 16 ≡ true
      → (get_elem? anchored.vout 0
          ≡ some (record { n_value = sender_balance; script_pub_key = anchor_output }))
        × (verify_transaction_witness lib verify_taproot thief 0 anchor_output sender_balance
            ≡ ok true)
  unfolding create_anchor_commitment_transaction
  balance_open_to_all verify_taproot thief input sig big size reads ne vin wit mature = (
    ground (arith),
    verify-create_p2wsh lib verify_taproot thief 0 (create_anchor_script sender) sender_balance
          (sig ∷ lib.scripts.encode (create_anchor_script sender) ∷ []) input size wit vin
        ∙ spend_anchor (spend_context lib thief 0 input sender_balance) lib.scripts sender sig reads
            ne
        ∙ either_way _ _ mature,
  )

  -- Where neither balance is dust, the outputs of an anchor commitment are worth the two balances
  -- and 660 sat more.
  pub anchored_value :
      pos 546 ≤ℤ sender_balance
      → pos 546 ≤ℤ receiver_balance
      → total_value anchored.vout ≡ sender_balance +ℤ receiver_balance +ℤ pos 660
  unfolding create_anchor_commitment_transaction total_value
  anchored_value s r =
      let kept_s : leb_ℤ bitcoin_dust_limit_sat sender_balance ≡ true = ground arith in
      let kept_r : leb_ℤ bitcoin_dust_limit_sat receiver_balance ≡ true = ground arith in
      rw (kept_s, kept_r) (omega int_laws)
