-- ===== src/Bitcoin/Witness/Htlc.antt =====
-- bitcoin/contracts.py and bitcoin/interpreter.py: which witnesses spend an HTLC output.
use unito_blockchain_25_26_p.Base.{
  ℕ, ◌≡◌, ◌≢◌, ◌<◌, refl, ◌∙◌, true, ◌&&◌, not, List, [], ◌∷◌, map, arith, Bytes, bytes_beq, ap,
  nat_beq, leb, if◌then◌else◌,
}
use unito_blockchain_25_26_p.Base.Int.{pos}
use unito_blockchain_25_26_p.Errors.{ok, err, script_verification}
use unito_blockchain_25_26_p.Bitcoin.Script.{
  Op, code, push, int, Script, ScriptLibrary, ReadsBack, read_back, op_if, op_else, op_endif,
  op_drop, op_equalverify, op_sha256, op_checksig, op_checklocktimeverify,
}
use unito_blockchain_25_26_p.Bitcoin.Numbers.{from_bytes_signed}
use unito_blockchain_25_26_p.Bitcoin.Contracts.{
  create_htlc, witness_htlc_fulfill, witness_htlc_refund,
}
use unito_blockchain_25_26_p.Bitcoin.Machine.{SpendContext}
use unito_blockchain_25_26_p.Bitcoin.Dispatch.{dispatch_opcode}
use unito_blockchain_25_26_p.Bitcoin.Interpreter.{execute_from, step}
use unito_blockchain_25_26_p.Bitcoin.Witness.{verify_v0_script_hash}
use unito_blockchain_25_26_p.Bitcoin.Witness.Spend.{
  signs, IsNumber, read_back-IsNumber, read_back-push, spend_script, ReadsNumber,
}

-- The operations of an HTLC script with its number as `number`.
abbrev htlc_ops : Bytes → Bytes → Bytes → Op → Script
htlc_ops sender receiver payment_hash number =
    code op_if
    ∷ code op_sha256
    ∷ push payment_hash
    ∷ code op_equalverify
    ∷ push receiver
    ∷ code op_checksig
    ∷ code op_else
    ∷ number
    ∷ code op_checklocktimeverify
    ∷ code op_drop
    ∷ push sender
    ∷ code op_checksig
    ∷ code op_endif
    ∷ []

module _ (ctx : SpendContext) (script : Script)
    (sender receiver payment_hash sig preimage : Bytes) where
  execute_fulfill :
      (number : Op)
      → IsNumber number
      → execute_from ctx script
          (htlc_ops sender receiver payment_hash number)
          ((1 ∷ []) ∷ preimage ∷ sig ∷ [])
        ≡ (if bytes_beq payment_hash (ctx.sha256 preimage) && signs ctx script receiver sig
            then ok true
            else err script_verification)
  unfolding execute_from step
  execute_fulfill (code n) p = elim p [ ]
  execute_fulfill (push v) p = ground arith
  execute_fulfill (int z) p = ground arith

  execute_refund :
      (number : Op) (v : Bytes) (n : ℕ)
      → IsNumber number
      → ((stack : List Bytes) → dispatch_opcode ctx script number stack ≡ ok (v ∷ stack))
      → from_bytes_signed v ≡ pos n
      → execute_from ctx script (htlc_ops sender receiver payment_hash number) ([] ∷ sig ∷ []) ≡ (
          if not (nat_beq ctx.n_sequence 0xFFFFFFFF)
            && leb n ctx.n_lock_time
            && signs ctx script sender sig
          then ok true
          else err script_verification)
  unfolding execute_from step
  execute_refund (code c) v n p pushes value = elim p [ ]
  execute_refund (push w) v n p pushes value = ground (arith, pushes (sig ∷ []))
  execute_refund (int z) v n p pushes value = ground (arith, pushes (sig ∷ []))

-- What an HTLC script reads back as.
map-read_back-create_htlc :
    (lib : ScriptLibrary) (sender receiver payment_hash : Bytes) (n : ℕ)
    → sender ≢ []
    → receiver ≢ []
    → payment_hash ≢ []
    → map (read_back lib) (create_htlc sender receiver payment_hash (pos n))
      ≡ htlc_ops sender receiver payment_hash (read_back lib (int (pos n)))
unfolding create_htlc
map-read_back-create_htlc lib sender receiver payment_hash n s r h =
    rw
      (
        read_back-push lib sender s,
        read_back-push lib receiver r,
        read_back-push lib payment_hash h,
      )
      refl

-- Where the script reads back as it was written and its keys and hash are not empty, the output of an
-- HTLC is spent by the fulfilling witness exactly when the preimage hashes to the payment hash and the
-- signature is the receiver's.
pub spend_fulfill :
    (ctx : SpendContext) (lib : ScriptLibrary) (sender receiver payment_hash sig preimage : Bytes)
    (n : ℕ)
    → ReadsBack lib (create_htlc sender receiver payment_hash (pos n))
    → sender ≢ []
    → receiver ≢ []
    → payment_hash ≢ []
    → let script = create_htlc sender receiver payment_hash (pos n) in
      verify_v0_script_hash ctx lib
        (ctx.sha256 (lib.encode script))
        (witness_htlc_fulfill lib sig preimage script)
      ≡ (if bytes_beq payment_hash (ctx.sha256 preimage)
            && signs ctx (lib.parse (lib.encode script)) receiver sig
          then ok true
          else err script_verification)
unfolding verify_v0_script_hash witness_htlc_fulfill
spend_fulfill ctx lib sender receiver payment_hash sig preimage n reads s r h =
    let script = create_htlc sender receiver payment_hash (pos n) in
    let number = read_back lib (int (pos n)) in
    spend_script ctx lib script (htlc_ops sender receiver payment_hash number)
      ((1 ∷ []) ∷ preimage ∷ sig ∷ [])
      (reads ∙ map-read_back-create_htlc lib sender receiver payment_hash n s r h)
    ∙ execute_fulfill ctx (lib.parse (lib.encode script)) sender receiver payment_hash sig preimage
        number (read_back-IsNumber lib n)

-- Where the script and its number read back as they were written, its keys and hash are not empty and
-- its locktime is above 16, the output of an HTLC is spent by the refunding witness exactly when the
-- input's sequence is not final, the transaction's locktime is at least the contract's, and the
-- signature is the sender's.
pub spend_refund :
    (ctx : SpendContext) (lib : ScriptLibrary) (sender receiver payment_hash sig : Bytes) (n : ℕ)
    → ReadsBack lib (create_htlc sender receiver payment_hash (pos n))
    → ReadsNumber lib n
    → 16 < n
    → sender ≢ []
    → receiver ≢ []
    → payment_hash ≢ []
    → let script = create_htlc sender receiver payment_hash (pos n) in
      verify_v0_script_hash ctx lib
        (ctx.sha256 (lib.encode script))
        (witness_htlc_refund lib sig script)
      ≡ (if not (nat_beq ctx.n_sequence 0xFFFFFFFF)
            && leb n ctx.n_lock_time
            && signs ctx (lib.parse (lib.encode script)) sender sig
          then ok true
          else err script_verification)
unfolding verify_v0_script_hash witness_htlc_refund dispatch_opcode
spend_refund ctx lib sender receiver payment_hash sig n reads value big s r h =
    let script = create_htlc sender receiver payment_hash (pos n) in
    spend_script ctx lib script (htlc_ops sender receiver payment_hash (push (lib.bn2vch (pos n))))
      ([] ∷ sig ∷ [])
      (reads
        ∙ map-read_back-create_htlc lib sender receiver payment_hash n s r h
        ∙ ap (htlc_ops sender receiver payment_hash) (ground arith))
    ∙ execute_refund ctx (lib.parse (lib.encode script)) sender receiver payment_hash sig []
        (push (lib.bn2vch (pos n))) (lib.bn2vch (pos n)) n tt (λ stack. refl) value
