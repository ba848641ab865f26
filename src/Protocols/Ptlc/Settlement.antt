-- ===== src/Protocols/Ptlc/Settlement.antt =====
-- protocols/ptlc.py: the script of a PTLC output and the transactions that settle it.
use unito_blockchain_25_26_p.Base.{
  ℕ, Bool, true, Option, none, some, String, string_eq, ◌==◌, List, [], ◌∷◌, ◌≡◌, ◌≢◌, refl, ◌∙◌,
  map, Bytes, bytes_beq, bytes_beq_iff, arith, if◌then◌else◌,
}
use unito_blockchain_25_26_p.Base.Int.{ℤ, pos}
use unito_blockchain_25_26_p.Base.Lists.{get_elem?, length}
use unito_blockchain_25_26_p.Errors.{Result, ok, err, script_verification, ◌>>=◌}
use unito_blockchain_25_26_p.Bitcoin.Script.{
  Op, code, push, int, Script, ScriptLibrary, ReadsBack, read_back, op_if, op_else, op_endif,
  op_drop, op_checksig, op_checklocktimeverify,
}
use unito_blockchain_25_26_p.Bitcoin.Contracts.{create_p2wpkh, create_p2wsh, create_p2tr}
use unito_blockchain_25_26_p.Bitcoin.Builder.{
  BitcoinLibrary, Transaction, new_builder, final_sequence, add_input, add_output,
  add_witness_stack, build, TxIn,
}
use unito_blockchain_25_26_p.Bitcoin.Machine.{SpendContext}
use unito_blockchain_25_26_p.Bitcoin.Interpreter.{execute_from, step}
use unito_blockchain_25_26_p.Bitcoin.Witness.{verify_v0_script_hash}
use unito_blockchain_25_26_p.Bitcoin.Witness.Spend.{
  IsNumber, signs, read_back-IsNumber, read_back-push, spend_script,
}
use unito_blockchain_25_26_p.Bitcoin.Verification.{spend_context, verify_transaction_witness}
use unito_blockchain_25_26_p.Bitcoin.Transaction.Verify.{verify-create_p2wsh}

unfoldable pub create_ptlc_script : Bytes → Bytes → ℤ → Script
create_ptlc_script sender_pubkey receiver_pubkey locktime =
    code op_if
    ∷ push receiver_pubkey
    ∷ code op_checksig
    ∷ code op_else
    ∷ int locktime
    ∷ code op_checklocktimeverify
    ∷ code op_drop
    ∷ push sender_pubkey
    ∷ code op_checksig
    ∷ code op_endif
    ∷ []

-- `a or b`, where `None` and the empty text are false.
abbrev pub or_text : Option String → String → String
or_text none b = b
or_text (some a) b = if a == "" then b else a

-- 64 digits 0.
abbrev pub zero_txid : String
zero_txid = "0000000000000000000000000000000000000000000000000000000000000000"

-- A script that is given and not empty.
abbrev pub nonempty_script : Option Script → Option Script
nonempty_script none = none
nonempty_script (some []) = none
nonempty_script (some (op ∷ ops)) = some (op ∷ ops)

unfoldable pub create_ptlc_settlement_transaction :
    BitcoinLibrary
    → (funding_txid : Option String) → (funding_vout : ℕ) → (claimer_pubkey : Bytes) → ℤ
    → (final_signature : Bytes) → (ptlc_redeem_script : Option Script) → (ptlc_txid : Option String)
    → (ptlc_vout : ℕ) → Transaction
unfolding add_input add_output add_witness_stack build create_p2wpkh
create_ptlc_settlement_transaction lib funding_txid funding_vout claimer_pubkey amount
      final_signature ptlc_redeem_script ptlc_txid ptlc_vout =
    let txid = or_text funding_txid (or_text ptlc_txid zero_txid) in
    let vout : ℕ = elim funding_txid [ none ↦ ptlc_vout | some _ ↦ funding_vout ] in
    let builder =
      add_output amount (create_p2wpkh lib.hash160 claimer_pubkey)
        (add_input txid vout final_sequence (new_builder 0)) in
    build (elim (nonempty_script ptlc_redeem_script) [
      | none ↦ builder
      | some script ↦
          if bytes_beq final_signature []
          then builder
          else add_witness_stack (final_signature ∷ (1 ∷ []) ∷ lib.scripts.encode script ∷ [])
              builder
    ])

unfoldable pub create_taproot_ptlc_settlement_transaction :
    (funding_txid : String)
    → (funding_vout : ℕ) → (claimer_pubkey_x : Bytes) → ℤ
    → (schnorr_sig : Bytes) → Result Transaction
unfolding add_input add_output add_witness_stack build create_p2tr
create_taproot_ptlc_settlement_transaction funding_txid funding_vout claimer_pubkey_x amount
      schnorr_sig =
    create_p2tr claimer_pubkey_x >>= λ script.
    let builder =
      add_output amount script
        (add_input funding_txid funding_vout final_sequence (new_builder 0)) in
    ok (
      build (
        if bytes_beq schnorr_sig [] then builder else add_witness_stack (schnorr_sig ∷ []) builder))

-- The operations of a PTLC script with its number as `number`.
abbrev ptlc_ops : Bytes → Bytes → Op → Script
ptlc_ops sender receiver number =
    code op_if
    ∷ push receiver
    ∷ code op_checksig
    ∷ code op_else
    ∷ number
    ∷ code op_checklocktimeverify
    ∷ code op_drop
    ∷ push sender
    ∷ code op_checksig
    ∷ code op_endif
    ∷ []

execute_claim :
    (ctx : SpendContext) (script : Script) (sender receiver sig : Bytes) (number : Op)
    → IsNumber number
    → execute_from ctx script (ptlc_ops sender receiver number) ((1 ∷ []) ∷ sig ∷ [])
      ≡ (if signs ctx script receiver sig then ok true else err script_verification)
unfolding execute_from step
execute_claim ctx script sender receiver sig (code n) p = elim p [ ]
execute_claim ctx script sender receiver sig (push v) p = ground arith
execute_claim ctx script sender receiver sig (int z) p = ground arith

map-read_back-create_ptlc_script :
    (lib : ScriptLibrary) (sender receiver : Bytes) (n : ℕ)
    → sender ≢ []
    → receiver ≢ []
    → map (read_back lib) (create_ptlc_script sender receiver (pos n))
      ≡ ptlc_ops sender receiver (read_back lib (int (pos n)))
unfolding create_ptlc_script
map-read_back-create_ptlc_script lib sender receiver n s r =
    rw (read_back-push lib sender s, read_back-push lib receiver r) refl

spend_ptlc :
    (ctx : SpendContext) (lib : ScriptLibrary) (sender receiver sig : Bytes) (n : ℕ)
    → ReadsBack lib (create_ptlc_script sender receiver (pos n))
    → sender ≢ []
    → receiver ≢ []
    → let script = create_ptlc_script sender receiver (pos n) in
      verify_v0_script_hash ctx lib
        (ctx.sha256 (lib.encode script))
        (sig ∷ (1 ∷ []) ∷ lib.encode script ∷ [])
      ≡ (if signs ctx (lib.parse (lib.encode script)) receiver sig
          then ok true
          else err script_verification)
unfolding verify_v0_script_hash
spend_ptlc ctx lib sender receiver sig n reads s r =
    let script = create_ptlc_script sender receiver (pos n) in
    let number = read_back lib (int (pos n)) in
    spend_script ctx lib script (ptlc_ops sender receiver number) ((1 ∷ []) ∷ sig ∷ [])
      (reads ∙ map-read_back-create_ptlc_script lib sender receiver n s r)
    ∙ execute_claim ctx (lib.parse (lib.encode script)) sender receiver sig number
        (read_back-IsNumber lib n)

settlement_parts :
    (lib : BitcoinLibrary) (txid : String) (vout : ℕ) (claimer sender receiver sig : Bytes)
    (amount : ℤ) (n : ℕ)
    → txid ≢ ""
    → sig ≢ []
    → let script = create_ptlc_script sender receiver (pos n) in
      let tx =
        create_ptlc_settlement_transaction lib
          (some txid)
          vout
          claimer
          amount
          sig
          (some script)
          none
          0 in
      (get_elem? tx.wit 0 ≡ some (sig ∷ (1 ∷ []) ∷ lib.scripts.encode script ∷ []))
      × (get_elem? tx.vin 0
          ≡ some (record { txid = txid; vout = vout; n_sequence = final_sequence }))
unfolding create_ptlc_settlement_transaction create_ptlc_script
settlement_parts lib txid vout claimer sender receiver sig amount n named ne =
    ground (arith, bytes_beq_iff sig [], string_eq.beq_iff txid "")

-- The payment point takes no part on chain. Where digests have 32 bytes, the script reads back as it was
-- written and the keys are not empty, a settlement with a nonempty signature, for the output that
-- a nonempty txid and an index name, passes the check of the PTLC output exactly when the signature is an
-- ECDSA signature of the receiver's own key: no secret of a payment point is asked for.
pub verify-ptlc_settlement :
    (lib : BitcoinLibrary) (verify_taproot : Bytes → List Bytes → Result Bool) (txid : String)
    (vout : ℕ) (claimer sender receiver sig : Bytes) (amount spent : ℤ) (n : ℕ)
    → length (lib.sha256 (lib.scripts.encode (create_ptlc_script sender receiver (pos n)))) ≡ 32
    → ReadsBack lib.scripts (create_ptlc_script sender receiver (pos n))
    → txid ≢ ""
    → sender ≢ []
    → receiver ≢ []
    → sig ≢ []
    → let script = create_ptlc_script sender receiver (pos n) in
      let tx =
        create_ptlc_settlement_transaction lib
          (some txid)
          vout
          claimer
          amount
          sig
          (some script)
          none
          0 in
      let input : TxIn = record { txid = txid; vout = vout; n_sequence = final_sequence } in
      verify_transaction_witness lib verify_taproot tx 0
        (create_p2wsh lib.sha256 lib.scripts script)
        spent
      ≡ (if signs
            (spend_context lib tx 0 input spent)
            (lib.scripts.parse (lib.scripts.encode script))
            receiver
            sig
          then ok true
          else err script_verification)
verify-ptlc_settlement lib verify_taproot txid vout claimer sender receiver sig amount spent n size
      reads named s r ne =
    let script = create_ptlc_script sender receiver (pos n) in
    let tx =
      create_ptlc_settlement_transaction lib (some txid) vout claimer amount sig (some script) none
        0 in
    let input : TxIn = record { txid = txid; vout = vout; n_sequence = final_sequence } in
    let (wit, vin) = settlement_parts lib txid vout claimer sender receiver sig amount n named ne in
    verify-create_p2wsh lib verify_taproot tx 0 script spent
      (sig ∷ (1 ∷ []) ∷ lib.scripts.encode script ∷ []) input size wit vin
    ∙ spend_ptlc (spend_context lib tx 0 input spent) lib.scripts sender receiver sig n reads s r
