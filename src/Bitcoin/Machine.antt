-- ===== src/Bitcoin/Machine.antt =====
-- src/payment_communities/bitcoin/interpreter.py: the script machine. Both stacks are lists with
-- their top first, where the Python lists have it last; `pc` is what is left of the script.
use unito_blockchain_25_26_p.Base.{
  ℕ, Bool, true, false, not, ◌&&◌, ◌||◌, Option, none, some, List, [], ◌∷◌, Bytes, nat_beq,
  if◌then◌else◌,
}
use unito_blockchain_25_26_p.Errors.{Result, ok, err, script_verification}
use unito_blockchain_25_26_p.Bitcoin.Script.{
  Op, code, push, int, Script, op_if, op_notif, op_else, op_endif,
}

-- Empty strings, zeros and negative zero are false.
unfoldable pub cast_to_bool : Bytes → Bool
cast_to_bool [] = false
cast_to_bool (b ∷ []) = not (nat_beq b 0 || nat_beq b 0x80)
cast_to_bool (b ∷ c ∷ bs) = if nat_beq b 0 then cast_to_bool (c ∷ bs) else true

-- What a run reads of its surroundings: the digests, the fields of the spending transaction, and the
-- library's signature hash (`SignatureHash` of this script and input, by hash type) and ECDSA check.
pub record SpendContext : Type 0 where
  pub sha256 : Bytes → Bytes
  pub hash160 : Bytes → Bytes
  pub hash256 : Bytes → Bytes
  pub ripemd160 : Bytes → Bytes
  pub n_sequence : ℕ
  pub n_lock_time : ℕ
  pub signature_hash : Script → ℕ → Bytes
  pub ecdsa_verify : Bytes → Bytes → Bytes → Bool

pub record Machine : Type 0 where
  pub eval_stack : List Bytes
  pub exec_stack : List Bool

-- `all(self.exec_stack)`
unfoldable pub is_executing : List Bool → Bool
is_executing [] = true
is_executing (b ∷ bs) = b && is_executing bs

-- `sig[:-1]` and `sig[-1]`; `none` for the empty string.
unfoldable pub split_signature : Bytes → Option (Bytes × ℕ)
split_signature [] = none
split_signature (b ∷ []) = some ([], b)
split_signature (b ∷ c ∷ bs) = elim (split_signature (c ∷ bs)) [
  | none ↦ none
  | some (der, hashtype) ↦ some (b ∷ der, hashtype)
]

-- `OP_IF` and `OP_NOTIF`
op_conditional : Bool → Machine → Result Machine
unfolding is_executing cast_to_bool
op_conditional negated m =
    if is_executing m.exec_stack
    then (elim m.eval_stack [
      | [] ↦ err script_verification
      | top ∷ rest ↦ ok (record {
        eval_stack = rest;
        exec_stack = (if negated then not (cast_to_bool top) else cast_to_bool top) ∷ m.exec_stack;
      })
    ])
    else ok (record m { exec_stack = false ∷ m.exec_stack })

op_toggle : Machine → Result Machine
op_toggle m = elim m.exec_stack [
  | [] ↦ err script_verification
  | top ∷ rest ↦ ok (record m { exec_stack = not top ∷ rest })
]

op_end : Machine → Result Machine
op_end m = elim m.exec_stack [
  | [] ↦ err script_verification
  | top ∷ rest ↦ ok (record m { exec_stack = rest })
]

-- `some` where the opcode was handled here.
unfoldable pub handle_control_flow : Machine → Op → Option (Result Machine)
unfolding op_conditional op_toggle op_end
handle_control_flow m (push bytes) = none
handle_control_flow m (int n) = none
handle_control_flow m (code op) =
    if nat_beq op op_if
    then some (op_conditional false m)
    else if nat_beq op op_notif
    then some (op_conditional true m)
    else if nat_beq op op_else
    then some (op_toggle m)
    else if nat_beq op op_endif
    then some (op_end m)
    else none
