-- ===== src/Bitcoin/Witness/Delayed.antt =====
-- bitcoin/contracts.py and bitcoin/interpreter.py: which witnesses spend an output that is delayed for
-- its owner and open to the holder of the revocation key.
use unito_blockchain_25_26_p.Base.{
  Bool, Bytes, [], ap, arith, if◌then◌else◌, leb, map, nat_beq, refl, true, ℕ, ◌%◌, ◌&&◌, ◌/◌, ◌<◌,
  ◌^◌, ◌∙◌, ◌∷◌, ◌≡◌, ◌≢◌, not,
}
use unito_blockchain_25_26_p.Base.Int.{pos}
use unito_blockchain_25_26_p.Bitcoin.Contracts.{create_second_stage_htlc_script}
use unito_blockchain_25_26_p.Bitcoin.Interpreter.{execute_from, step}
use unito_blockchain_25_26_p.Bitcoin.Machine.{SpendContext}
use unito_blockchain_25_26_p.Bitcoin.Numbers.{from_bytes_signed}
use unito_blockchain_25_26_p.Bitcoin.Script.{
  Op, ReadsBack, Script, ScriptLibrary, code, int, op_checksequenceverify, op_checksig, op_drop,
  op_else, op_endif, op_if, push, read_back,
}
use unito_blockchain_25_26_p.Bitcoin.Witness.{verify_v0_script_hash}
use unito_blockchain_25_26_p.Bitcoin.Witness.Spend.{
  IsNumber, ReadsNumber, signs, read_back-IsNumber, read_back-push, spend_script,
}
use unito_blockchain_25_26_p.Errors.{err, ok, script_verification}

-- The operations of such a script with its number as `number`.
abbrev delayed_ops : Bytes → Bytes → Op → Script
delayed_ops revocation_pubkey local_pubkey number =
    code op_if
    ∷ push revocation_pubkey
    ∷ code op_checksig
    ∷ code op_else
    ∷ number
    ∷ code op_checksequenceverify
    ∷ code op_drop
    ∷ push local_pubkey
    ∷ code op_checksig
    ∷ code op_endif
    ∷ []

-- The input's relative locktime is enabled and is at least `n` blocks.
abbrev pub is_mature : SpendContext → ℕ → Bool
is_mature ctx n =
    not (nat_beq ctx.n_sequence 0xFFFFFFFF)
    && nat_beq (ctx.n_sequence / 2 ^ 31 % 2) 0
    && leb n (ctx.n_sequence % 65_536)

module _ (ctx : SpendContext) (script : Script) (revocation_pubkey local_pubkey sig : Bytes) where
  execute_revoked :
      (number : Op)
      → IsNumber number
      → execute_from ctx script
          (delayed_ops revocation_pubkey local_pubkey number)
          ((1 ∷ []) ∷ sig ∷ [])
        ≡ (if signs ctx script revocation_pubkey sig then ok true else err script_verification)
  unfolding execute_from step
  execute_revoked (code n) p = elim p [ ]
  execute_revoked (push v) p = ground arith
  execute_revoked (int z) p = ground arith

  execute_delayed :
      (v : Bytes) (n : ℕ)
      → from_bytes_signed v ≡ pos n
      → execute_from ctx script
          (delayed_ops revocation_pubkey local_pubkey (push v))
          ([] ∷ sig ∷ [])
        ≡ (if is_mature ctx n && signs ctx script local_pubkey sig
            then ok true
            else err script_verification)
  unfolding execute_from step
  execute_delayed v n value = ground arith

map-read_back-create_second_stage :
    (lib : ScriptLibrary) (revocation_pubkey local_pubkey : Bytes) (n : ℕ)
    → revocation_pubkey ≢ []
    → local_pubkey ≢ []
    → map (read_back lib) (create_second_stage_htlc_script revocation_pubkey local_pubkey (pos n))
      ≡ delayed_ops revocation_pubkey local_pubkey (read_back lib (int (pos n)))
unfolding create_second_stage_htlc_script
map-read_back-create_second_stage lib revocation_pubkey local_pubkey n r l =
    rw (read_back-push lib revocation_pubkey r, read_back-push lib local_pubkey l) refl

-- Where the script reads back as it was written and its keys are not empty, the delayed output is spent
-- at once by the witness with a true selector exactly when the signature is one of the revocation key.
pub spend_revoked :
    (ctx : SpendContext) (lib : ScriptLibrary) (revocation_pubkey local_pubkey sig : Bytes) (n : ℕ)
    → ReadsBack lib (create_second_stage_htlc_script revocation_pubkey local_pubkey (pos n))
    → revocation_pubkey ≢ []
    → local_pubkey ≢ []
    → let script = create_second_stage_htlc_script revocation_pubkey local_pubkey (pos n) in
      verify_v0_script_hash ctx lib
        (ctx.sha256 (lib.encode script))
        (sig ∷ (1 ∷ []) ∷ lib.encode script ∷ [])
      ≡ (if signs ctx (lib.parse (lib.encode script)) revocation_pubkey sig
          then ok true
          else err script_verification)
unfolding verify_v0_script_hash
spend_revoked ctx lib revocation_pubkey local_pubkey sig n reads r l =
    let script = create_second_stage_htlc_script revocation_pubkey local_pubkey (pos n) in
    let number = read_back lib (int (pos n)) in
    spend_script ctx lib script (delayed_ops revocation_pubkey local_pubkey number)
      ((1 ∷ []) ∷ sig ∷ [])
      (reads ∙ map-read_back-create_second_stage lib revocation_pubkey local_pubkey n r l)
    ∙ execute_revoked ctx (lib.parse (lib.encode script)) revocation_pubkey local_pubkey sig number
        (read_back-IsNumber lib n)

-- Where the script and its number read back as they were written, its keys are not empty and the delay
-- is above 16, the delayed output is spent by the witness with an empty selector exactly when the
-- input's relative locktime is enabled and has reached the delay, and the signature is one of the local
-- key.
pub spend_delayed :
    (ctx : SpendContext) (lib : ScriptLibrary) (revocation_pubkey local_pubkey sig : Bytes) (n : ℕ)
    → ReadsBack lib (create_second_stage_htlc_script revocation_pubkey local_pubkey (pos n))
    → ReadsNumber lib n
    → 16 < n
    → revocation_pubkey ≢ []
    → local_pubkey ≢ []
    → let script = create_second_stage_htlc_script revocation_pubkey local_pubkey (pos n) in
      verify_v0_script_hash ctx lib
        (ctx.sha256 (lib.encode script))
        (sig ∷ [] ∷ lib.encode script ∷ [])
      ≡ (if is_mature ctx n && signs ctx (lib.parse (lib.encode script)) local_pubkey sig
          then ok true
          else err script_verification)
unfolding verify_v0_script_hash
spend_delayed ctx lib revocation_pubkey local_pubkey sig n reads value big r l =
    let script = create_second_stage_htlc_script revocation_pubkey local_pubkey (pos n) in
    spend_script ctx lib script
      (delayed_ops revocation_pubkey local_pubkey (push (lib.bn2vch (pos n)))) ([] ∷ sig ∷ [])
      (reads
        ∙ map-read_back-create_second_stage lib revocation_pubkey local_pubkey n r l
        ∙ ap (delayed_ops revocation_pubkey local_pubkey) (ground arith))
    ∙ execute_delayed ctx (lib.parse (lib.encode script)) revocation_pubkey local_pubkey sig
        (lib.bn2vch (pos n)) n value
