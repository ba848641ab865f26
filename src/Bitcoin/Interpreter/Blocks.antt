-- ===== src/Bitcoin/Interpreter/Blocks.antt =====
-- bitcoin/interpreter.py: conditional blocks, and opcodes that the machine does not know.
use unito_blockchain_25_26_p.Base.{
  ℕ, ◌≡◌, refl, sym, ◌∙◌, Bool, true, false, not, ◌&&◌, ◌||◌, List, [], ◌∷◌, ◌++◌, arith, nat_beq,
  leb,
}
use unito_blockchain_25_26_p.Errors.{ok, ◌>>=◌, >>=-cong, >>=_assoc}
use unito_blockchain_25_26_p.Bitcoin.Script.{
  Op, code, push, int, Script, op_0, op_1, op_16, op_if, op_notif, op_else, op_endif, op_2drop,
  op_ifdup, op_drop, op_dup, op_equal, op_equalverify, op_ripemd160, op_sha256, op_hash160,
  op_hash256, op_checksig, op_checksigverify, op_checkmultisig, op_checkmultisigverify,
  op_checklocktimeverify, op_checksequenceverify,
}
use unito_blockchain_25_26_p.Bitcoin.Machine.{SpendContext, Machine, is_executing}
use unito_blockchain_25_26_p.Bitcoin.Interpreter.{step, run}

-- Running a script is running its first part and then the rest.
pub run-append :
    (ctx : SpendContext) (script xs ys : Script) (m : Machine)
    → run ctx script (xs ++ ys) m ≡ (run ctx script xs m >>= run ctx script ys)
unfolding run
run-append ctx script [] ys m = refl
run-append ctx script (x ∷ xs) ys m =
    >>=-cong (step ctx script x m) (run ctx script (xs ++ ys))
      (λ m'. run ctx script xs m' >>= run ctx script ys) (run-append ctx script xs ys)
    ∙ sym (>>=_assoc (step ctx script x m) (run ctx script xs) (run ctx script ys))

-- An operation that is none of the four conditional opcodes.
abbrev pub IsPlain : Op → Type 0
IsPlain (push bytes) = Unit
IsPlain (int n) = Unit
IsPlain (code op) =
    (nat_beq op op_if || nat_beq op op_notif || nat_beq op op_else || nat_beq op op_endif) ≡ false

-- A part of a script in which every conditional is closed, with at most one `OP_ELSE` each.
pub data IsBalanced : Script → Type 0 where
  empty : IsBalanced []
  plain : {ops : Script} (op : Op) → IsPlain op → IsBalanced ops → IsBalanced (op ∷ ops)
  block :
      {body rest : Script} (op : ℕ)
      → (nat_beq op op_if || nat_beq op op_notif) ≡ true
      → IsBalanced body
      → IsBalanced rest
      → IsBalanced (code op ∷ (body ++ (code op_endif ∷ rest)))
  block_else :
      {body other rest : Script} (op : ℕ)
      → (nat_beq op op_if || nat_beq op op_notif) ≡ true
      → IsBalanced body
      → IsBalanced other
      → IsBalanced rest
      → IsBalanced (code op ∷ (body ++ (code op_else ∷ (other ++ (code op_endif ∷ rest)))))

module _ (ctx : SpendContext) (script : Script) where
  step_skipped_plain :
      (op : Op) (m : Machine)
      → IsPlain op
      → is_executing m.exec_stack ≡ false
      → step ctx script op m ≡ ok m
  unfolding step
  step_skipped_plain (push bytes) m p h = rw h
  step_skipped_plain (int n) m p h = rw h
  step_skipped_plain (code op) m p h = ground arith

  step_skipped_if :
      (op : ℕ) (m : Machine)
      → (nat_beq op op_if || nat_beq op op_notif) ≡ true
      → is_executing m.exec_stack ≡ false
      → step ctx script (code op) m ≡ ok (record m { exec_stack = false ∷ m.exec_stack })
  unfolding step
  step_skipped_if op m p h = ground arith

  -- `OP_ENDIF` closes a block and `OP_ELSE` turns to its other branch, executing or not.
  step_endif :
      (b : Bool) (m : Machine)
      → step ctx script (code op_endif) (record m { exec_stack = b ∷ m.exec_stack }) ≡ ok m
  unfolding step
  step_endif b m = refl

  step_else :
      (b : Bool) (m : Machine)
      → step ctx script (code op_else) (record m { exec_stack = b ∷ m.exec_stack })
        ≡ ok (record m { exec_stack = not b ∷ m.exec_stack })
  unfolding step
  step_else b m = refl

  -- In a branch that is not taken, a balanced part of a script has no effect at all: it neither
  -- raises nor changes a stack, whatever opcodes and nested conditionals it holds.
  pub run_skipped :
      {ops : Script} (m : Machine)
      → IsBalanced ops
      → is_executing m.exec_stack ≡ false
      → run ctx script ops m ≡ ok m
  unfolding run is_executing
  run_skipped m empty h = refl
  run_skipped m (plain op p rest) h = rw (step_skipped_plain op m p h) (run_skipped m rest h)
  run_skipped m (block {body = b} {rest = r} op p body rest) h =
      let inner = record m { exec_stack = false ∷ m.exec_stack } in
      rw
        (
          step_skipped_if op m p h,
          run-append ctx script b (code op_endif ∷ r) inner,
          run_skipped inner body refl,
          step_endif false m,
        )
        (run_skipped m rest h)
  run_skipped m (block_else {body = b} {other = o} {rest = r} op p body other rest) h =
      let inner = record m { exec_stack = false ∷ m.exec_stack } in
      let turned = record m { exec_stack = true ∷ m.exec_stack } in
      rw
        (
          step_skipped_if op m p h,
          run-append ctx script b (code op_else ∷ (o ++ (code op_endif ∷ r))) inner,
          run_skipped inner body refl,
          step_else false m,
          run-append ctx script o (code op_endif ∷ r) turned,
          run_skipped turned other h,
          step_endif true m,
        )
        (run_skipped m rest h)

-- The opcodes that the machine acts on.
abbrev pub known_opcodes : List ℕ
known_opcodes =
    op_0 ∷ op_if ∷ op_notif ∷ op_else ∷ op_endif ∷ op_drop ∷ op_2drop ∷ op_dup ∷ op_ifdup ∷ op_equal
    ∷ op_equalverify ∷ op_sha256 ∷ op_hash160 ∷ op_hash256 ∷ op_ripemd160 ∷ op_checklocktimeverify
    ∷ op_checksequenceverify ∷ op_checksig ∷ op_checksigverify ∷ op_checkmultisig
    ∷ op_checkmultisigverify ∷ []

abbrev pub is_one_of : ℕ → List ℕ → Bool
is_one_of op [] = false
is_one_of op (known ∷ rest) = nat_beq op known || is_one_of op rest

abbrev pub IsUnknown : ℕ → Type 0
IsUnknown op = (is_one_of op known_opcodes || (leb op_1 op && leb op op_16)) ≡ false

step_unknown :
    (ctx : SpendContext) (script : Script) (op : ℕ) (m : Machine)
    → IsUnknown op
    → step ctx script (code op) m ≡ ok m
unfolding step
step_unknown ctx script op m u = ground arith

-- An opcode that the machine does not know, such as `OP_RETURN`, has no effect wherever it stands: a
-- script with such opcodes inserted after any part of it has the same outcome from every stack.
pub unknown_opcode_ignored :
    (ctx : SpendContext) (script before after : Script) (op : ℕ) (m : Machine)
    → IsUnknown op
    → run ctx script (before ++ (code op ∷ after)) m ≡ run ctx script (before ++ after) m
unfolding run
unknown_opcode_ignored ctx script [] after op m u = rw (step_unknown ctx script op m u)
unknown_opcode_ignored ctx script (x ∷ xs) after op m u =
    >>=-cong (step ctx script x m) (run ctx script (xs ++ (code op ∷ after)))
      (run ctx script (xs ++ after)) (λ m'. unknown_opcode_ignored ctx script xs after op m' u)
