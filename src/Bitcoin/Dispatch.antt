-- ===== src/Bitcoin/Dispatch.antt =====
-- src/payment_communities/bitcoin/interpreter.py: `_dispatch_opcode` and the handlers it calls, as
-- functions from the evaluation stack, top first, to the new one.
pub mod Multisig
use unito_blockchain_25_26_p.Base.{
  ℕ, suc, zero, ◌-◌, ◌/◌, ◌%◌, ◌^◌, Bool, true, false, not, ◌&&◌, ◌||◌, Option, none, some, List,
  [], ◌∷◌, Bytes, bytes_beq, nat_beq, leb, ltb, if◌then◌else◌,
}
use unito_blockchain_25_26_p.Base.Int.{ℤ, pos, pos_part, int_beq, ltb_ℤ}
use unito_blockchain_25_26_p.Errors.{Result, ok, err, script_verification, index_error, ◌>>=◌}
use unito_blockchain_25_26_p.Bitcoin.Numbers.{from_bytes_signed, to_bytes_signed}
use unito_blockchain_25_26_p.Bitcoin.Script.{
  Op, code, push, int, Script, op_0, op_1, op_16, op_2drop, op_ifdup, op_drop, op_dup, op_equal,
  op_equalverify, op_ripemd160, op_sha256, op_hash160, op_hash256, op_checksig, op_checksigverify,
  op_checkmultisig, op_checkmultisigverify, op_checklocktimeverify, op_checksequenceverify,
}
use unito_blockchain_25_26_p.Bitcoin.Machine.{SpendContext, cast_to_bool, split_signature}

abbrev pub Stack : Type 0
Stack = List Bytes

-- The stack element that a test leaves: `b"\x01"` or `b""`.
abbrev pub truth : Bool → Bytes
truth true = 1 ∷ []
truth false = []

-- With `verify` a failed test raises, and a passed one leaves nothing.
abbrev pub conclude : Bool → Bool → Stack → Result Stack
conclude true true stack = ok stack
conclude true false stack = err script_verification
conclude false valid stack = ok (truth valid ∷ stack)

op_drop_item : Stack → Result Stack
op_drop_item [] = err script_verification
op_drop_item (a ∷ stack) = ok stack

op_2drop_items : Stack → Result Stack
op_2drop_items [] = err script_verification
op_2drop_items (a ∷ []) = err script_verification
op_2drop_items (a ∷ b ∷ stack) = ok stack

op_dup_item : Stack → Result Stack
op_dup_item [] = err script_verification
op_dup_item (a ∷ stack) = ok (a ∷ a ∷ stack)

op_ifdup_item : Stack → Result Stack
unfolding cast_to_bool
op_ifdup_item [] = err script_verification
op_ifdup_item (a ∷ stack) = ok (if cast_to_bool a then a ∷ a ∷ stack else a ∷ stack)

op_equal_items : Bool → Stack → Result Stack
op_equal_items verify [] = err script_verification
op_equal_items verify (a ∷ []) = err script_verification
op_equal_items verify (a ∷ b ∷ stack) = conclude verify (bytes_beq a b) stack

op_hash_item : (Bytes → Bytes) → Stack → Result Stack
op_hash_item hash_func [] = err script_verification
op_hash_item hash_func (a ∷ stack) = ok (hash_func a ∷ stack)

-- The operand stays on the stack.
op_cltv : SpendContext → Stack → Result Stack
unfolding from_bytes_signed
op_cltv ctx [] = err script_verification
op_cltv ctx (a ∷ stack) =
    if nat_beq ctx.n_sequence 0xFFFFFFFF
    then err script_verification
    else if ltb_ℤ (pos ctx.n_lock_time) (from_bytes_signed a)
    then err script_verification
    else ok (a ∷ stack)

-- `in_seq & (1 << 31)` and `in_seq & 0xFFFF`
op_csv : SpendContext → Stack → Result Stack
unfolding from_bytes_signed
op_csv ctx [] = err script_verification
op_csv ctx (a ∷ stack) =
    if nat_beq ctx.n_sequence 0xFFFFFFFF || not (nat_beq (ctx.n_sequence / 2 ^ 31 % 2) 0)
    then err script_verification
    else if ltb_ℤ (pos (ctx.n_sequence % 65_536)) (from_bytes_signed a)
    then err script_verification
    else ok (a ∷ stack)

-- The check of one signature; `none` for an empty one, which has no hash type.
unfoldable pub check_signature : SpendContext → Script → Bytes → Bytes → Option Bool
unfolding split_signature
check_signature ctx script pubkey sig = elim (split_signature sig) [
  | none ↦ none
  | some (der, hashtype) ↦ some (ctx.ecdsa_verify pubkey (ctx.signature_hash script hashtype) der)
]

op_checksig_items : SpendContext → Script → Bool → Stack → Result Stack
unfolding check_signature
op_checksig_items ctx script verify [] = err script_verification
op_checksig_items ctx script verify (pubkey ∷ []) = err script_verification
op_checksig_items ctx script verify (pubkey ∷ sig ∷ stack) =
    conclude verify
      (elim (check_signature ctx script pubkey sig) [ none ↦ false | some valid ↦ valid ]) stack

-- `[self.eval_stack.pop() for _ in range(n)]`
unfoldable pub pop_items : ℕ → Stack → Result (List Bytes × Stack)
pop_items zero stack = ok ([], stack)
pop_items (suc n) [] = err index_error
pop_items (suc n) (a ∷ stack) = pop_items n stack >>= λ r. ok (a ∷ r.0, r.1)

-- A count and that many items under it.
pop_counted : Stack → Result (List Bytes × Stack)
unfolding pop_items from_bytes_signed
pop_counted [] = err index_error
pop_counted (n_raw ∷ stack) = pop_items (pos_part (from_bytes_signed n_raw)) stack

abbrev drop_dummy : Stack → Stack
drop_dummy [] = []
drop_dummy (dummy ∷ stack) = stack

-- The `while` loop: each key is tried against the signature that is due, and is not tried again.
unfoldable pub match_signatures : SpendContext → Script → List Bytes → List Bytes → Result Bool
unfolding check_signature
match_signatures ctx script [] keys = ok true
match_signatures ctx script (sig ∷ sigs) [] = ok false
match_signatures ctx script (sig ∷ sigs) (pubkey ∷ keys) =
    elim (check_signature ctx script pubkey sig) [
      | none ↦ err index_error
      | some true ↦ match_signatures ctx script sigs keys
      | some false ↦ match_signatures ctx script (sig ∷ sigs) keys
    ]

op_checkmultisig_items : SpendContext → Script → Bool → Stack → Result Stack
unfolding pop_counted match_signatures
op_checkmultisig_items ctx script verify [] = err script_verification
op_checkmultisig_items ctx script verify (n_raw ∷ stack) = do
  (keys, below_keys) ← pop_counted (n_raw ∷ stack)
  (sigs, below_sigs) ← pop_counted below_keys
  valid_ms ← match_signatures ctx script sigs keys
  conclude verify valid_ms (drop_dummy below_sigs)

-- The chain of tests on an opcode; one that no test names does nothing.
dispatch_code : SpendContext → Script → ℕ → Stack → Result Stack
unfolding op_drop_item op_2drop_items op_dup_item op_ifdup_item op_equal_items op_hash_item op_cltv
    op_csv op_checksig_items op_checkmultisig_items
dispatch_code ctx script op stack =
    if nat_beq op op_0
    then ok ([] ∷ stack)
    else if leb op_1 op && leb op op_16
    then ok (((op - 80) ∷ []) ∷ stack)
    else if nat_beq op op_drop
    then op_drop_item stack
    else if nat_beq op op_2drop
    then op_2drop_items stack
    else if nat_beq op op_dup
    then op_dup_item stack
    else if nat_beq op op_ifdup
    then op_ifdup_item stack
    else if nat_beq op op_equal || nat_beq op op_equalverify
    then op_equal_items (nat_beq op op_equalverify) stack
    else if nat_beq op op_sha256
    then op_hash_item ctx.sha256 stack
    else if nat_beq op op_hash160
    then op_hash_item ctx.hash160 stack
    else if nat_beq op op_hash256
    then op_hash_item ctx.hash256 stack
    else if nat_beq op op_ripemd160
    then op_hash_item ctx.ripemd160 stack
    else if nat_beq op op_checklocktimeverify
    then op_cltv ctx stack
    else if nat_beq op op_checksequenceverify
    then op_csv ctx stack
    else if nat_beq op op_checksig || nat_beq op op_checksigverify
    then op_checksig_items ctx script (nat_beq op op_checksigverify) stack
    else if nat_beq op op_checkmultisig || nat_beq op op_checkmultisigverify
    then op_checkmultisig_items ctx script (nat_beq op op_checkmultisigverify) stack
    else ok stack

unfoldable pub dispatch_opcode : SpendContext → Script → Op → Stack → Result Stack
unfolding dispatch_code to_bytes_signed
dispatch_opcode ctx script (push bytes) stack = ok (bytes ∷ stack)
dispatch_opcode ctx script (code op) stack = dispatch_code ctx script op stack
dispatch_opcode ctx script (int n) stack =
    if int_beq n (pos 0)
    then ok ([] ∷ stack)
    else (to_bytes_signed n >>= λ bytes. ok (bytes ∷ stack))
