-- ===== src/Bitcoin/Witness/Spend.antt =====
-- bitcoin/interpreter.py: spending a script through its hash, and what a script reads back as.
use unito_blockchain_25_26_p.Base.{
  ℕ, ◌≡◌, ◌≢◌, refl, Bool, false, none, some, List, [], ◌∷◌, Bytes, bytes_beq_refl, ap, leb,
  Bool-cases, inl, inr,
}
use unito_blockchain_25_26_p.Base.Int.{pos}
use unito_blockchain_25_26_p.Bitcoin.Script.{Op, code, push, int, Script, ScriptLibrary, read_back}
use unito_blockchain_25_26_p.Bitcoin.Numbers.{from_bytes_signed}
use unito_blockchain_25_26_p.Bitcoin.Machine.{SpendContext}
use unito_blockchain_25_26_p.Bitcoin.Dispatch.{check_signature}
use unito_blockchain_25_26_p.Bitcoin.Interpreter.{execute, execute_from}
use unito_blockchain_25_26_p.Bitcoin.Witness.{script_hash_spend}

-- Whether a signature is one of the key over the script's signature hash; an empty one is not.
abbrev pub signs : SpendContext → Script → Bytes → Bytes → Bool
signs ctx script pubkey sig = elim (check_signature ctx script pubkey sig) [
  | none ↦ false
  | some valid ↦ valid
]

-- A number in a script, as it reads back.
abbrev pub IsNumber : Op → Type 0
IsNumber (code n) = ⊥
IsNumber (push v) = Unit
IsNumber (int z) = Unit

pub read_back-IsNumber : (lib : ScriptLibrary) (n : ℕ) → IsNumber (read_back lib (int (pos n)))
read_back-IsNumber lib n = elim (Bool-cases (leb n 16)) [ inl e ↦ rw e tt | inr e ↦ rw e tt ]

pub read_back-push : (lib : ScriptLibrary) (v : Bytes) → v ≢ [] → read_back lib (push v) ≡ push v
read_back-push lib [] p = elim (p refl) [ ]
read_back-push lib (b ∷ bs) p = refl

-- A script that is spent through its hash runs over the stack under it.
pub spend_script :
    (ctx : SpendContext) (lib : ScriptLibrary) (script ops : Script) (stack : List Bytes)
    → lib.parse (lib.encode script) ≡ ops
    → script_hash_spend ctx lib (ctx.sha256 (lib.encode script)) (lib.encode script ∷ stack)
      ≡ execute_from ctx (lib.parse (lib.encode script)) ops stack
unfolding script_hash_spend execute
spend_script ctx lib script ops stack e =
    rw (bytes_beq_refl (ctx.sha256 (lib.encode script)))
      (ap (λ ops. execute_from ctx (lib.parse (lib.encode script)) ops stack) e)

-- a number that the script library writes reads back as itself
abbrev pub ReadsNumber : ScriptLibrary → ℕ → Type 0
ReadsNumber lib n = from_bytes_signed (lib.bn2vch (pos n)) ≡ pos n
