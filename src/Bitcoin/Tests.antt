-- ===== src/Bitcoin/Tests.antt =====
-- bitcoin/: the theorems on scripts, at a small script library and toy signatures.
pub mod Transactions
use unito_blockchain_25_26_p.Base.{
  Bool, Bytes, List, [], bytes_beq, false, if◌then◌else◌, leb, ltb, nat_beq, refl, suc, true, zero,
  ℕ, ◌%◌, ◌&&◌, ◌++◌, ◌+◌, ◌-◌, ◌/◌, ◌↔◌, ◌∷◌, ◌≡◌, ◌≢◌, arith,
}
use unito_blockchain_25_26_p.Base.Int.{negsuc, pos, ℤ}
use unito_blockchain_25_26_p.Base.Lists.{length, take}
use unito_blockchain_25_26_p.Bitcoin.Contracts.{
  create_htlc, create_multisig_2of2, create_second_stage_htlc_script, witness_htlc_fulfill,
  witness_htlc_refund, witness_multisig_2of2, bytes_lt,
}
use unito_blockchain_25_26_p.Bitcoin.Dispatch.{check_signature, match_signatures}
use unito_blockchain_25_26_p.Bitcoin.Dispatch.Multisig.{IsSignedBy, match_signatures_iff}
use unito_blockchain_25_26_p.Bitcoin.Interpreter.{run}
use unito_blockchain_25_26_p.Bitcoin.Interpreter.Blocks.{
  block, empty, plain, run_skipped, unknown_opcode_ignored,
}
use unito_blockchain_25_26_p.Bitcoin.Machine.{Machine, SpendContext, is_executing}
use unito_blockchain_25_26_p.Bitcoin.Numbers.{
  four_bytes, from_bytes_signed, from_bytes_signed-to_bytes_signed, to_bytes_signed,
}
use unito_blockchain_25_26_p.Bitcoin.Script.{
  Op, Script, ScriptLibrary, code, int, op_1, op_16, op_drop, op_endif, op_if, push,
}
use unito_blockchain_25_26_p.Bitcoin.Witness.{verify_v0_script_hash}
use unito_blockchain_25_26_p.Bitcoin.Witness.Delayed.{spend_delayed, spend_revoked}
use unito_blockchain_25_26_p.Bitcoin.Witness.Funding.{spend_multisig_2of2}
use unito_blockchain_25_26_p.Bitcoin.Witness.Htlc.{spend_fulfill, spend_refund}
use unito_blockchain_25_26_p.Errors.{ok}

-- A signature of a key is the key and a hash type.
abbrev pub toy_context : (sequence locktime : ℕ) → SpendContext
toy_context sequence locktime = record {
  sha256 = λ bs. 7 ∷ bs;
  hash160 = λ bs. 8 ∷ bs;
  hash256 = λ bs. 9 ∷ bs;
  ripemd160 = λ bs. 10 ∷ bs;
  n_sequence = sequence;
  n_lock_time = locktime;
  signature_hash = λ script hashtype. length script ∷ hashtype ∷ [];
  ecdsa_verify = λ pubkey digest sig. bytes_beq pubkey sig;
}

abbrev two_bytes : ℤ → Bytes
two_bytes (pos n) = n % 256 ∷ n / 256 ∷ []
two_bytes (negsuc n) = n % 256 ∷ (128 + n / 256) ∷ []

-- The encoding of the items that the program's scripts have: pushes are shorter than 76 bytes.
abbrev encode_item : Op → Bytes
encode_item (code n) = n ∷ []
encode_item (push bytes) = length bytes ∷ bytes
encode_item (int (pos zero)) = 0 ∷ []
encode_item (int (pos (suc n))) = if ltb n 16 then (81 + n) ∷ [] else 2 ∷ two_bytes (pos (suc n))
encode_item (int (negsuc n)) = 2 ∷ two_bytes (negsuc n)

abbrev encode_items : Script → Bytes
encode_items [] = []
encode_items (op ∷ ops) = encode_item op ++ encode_items ops

abbrev decode_item : ℕ → Bytes → Op
decode_item n bytes =
    if nat_beq n 0
    then int (pos 0)
    else if ltb n 76
    then push bytes
    else if leb op_1 n && leb n op_16
    then int (pos (n - 80))
    else code n

-- The number of bytes that follow the first byte of an item.
abbrev data_length : ℕ → ℕ
data_length n = if ltb n 76 then n else 0

abbrev drop_bytes : ℕ → Bytes → Bytes
drop_bytes zero bs = bs
drop_bytes (suc n) [] = []
drop_bytes (suc n) (b ∷ bs) = drop_bytes n bs

abbrev parse_items : (fuel : ℕ) → Bytes → Script
parse_items zero bs = []
parse_items (suc fuel) [] = []
parse_items (suc fuel) (n ∷ bs) =
    decode_item n (take (data_length n) bs) ∷ parse_items fuel (drop_bytes (data_length n) bs)

abbrev pub toy_library : ScriptLibrary
toy_library = record { encode = encode_items; parse = parse_items 40; bn2vch = two_bytes }

abbrev pub alice : Bytes
alice = 2 ∷ 5 ∷ []

abbrev pub bob : Bytes
bob = 3 ∷ 6 ∷ []

abbrev pub alice_sig : Bytes
alice_sig = 2 ∷ 5 ∷ 1 ∷ []

abbrev pub bob_sig : Bytes
bob_sig = 3 ∷ 6 ∷ 1 ∷ []

pub pushed : {b : ℕ} {bs : Bytes} → (b ∷ bs) ≢ []
pushed h = cc

abbrev skipped_machine : Machine
skipped_machine = record { eval_stack = []; exec_stack = false ∷ true ∷ [] }

run_skipped_example :
    run (toy_context 0 0) [] (code op_if ∷ code op_drop ∷ code op_endif ∷ []) skipped_machine
    ≡ ok skipped_machine
unfolding is_executing
run_skipped_example =
    run_skipped (toy_context 0 0) [] skipped_machine
      (block op_if refl (plain (code op_drop) refl empty) empty) refl

abbrev both_keys : List Bytes
both_keys = alice ∷ bob ∷ []

match_signatures_iff_example :
    ((valid : Bool) × (match_signatures (toy_context 0 0) [] (bob_sig ∷ []) both_keys ≡ ok valid))
    × ((match_signatures (toy_context 0 0) [] (bob_sig ∷ []) both_keys ≡ ok true)
        ↔ IsSignedBy (toy_context 0 0) [] (bob_sig ∷ []) both_keys)
match_signatures_iff_example =
    match_signatures_iff (toy_context 0 0) [] (bob_sig ∷ []) both_keys (pushed, tt)

abbrev htlc_example : Script
htlc_example = create_htlc alice bob (7 ∷ 1 ∷ []) (pos 500)

abbrev funding_example : Script
funding_example = create_multisig_2of2 bob alice

abbrev delayed_example : Script
delayed_example = create_second_stage_htlc_script alice bob (pos 144)

spend_delayed_example :
    verify_v0_script_hash
      (toy_context 150 0)
      toy_library
      ((toy_context 150 0).sha256 (toy_library.encode delayed_example))
      (bob_sig ∷ [] ∷ toy_library.encode delayed_example ∷ [])
    ≡ ok true
unfolding create_second_stage_htlc_script check_signature from_bytes_signed
spend_delayed_example =
    spend_delayed (toy_context 150 0) toy_library alice bob bob_sig 144 refl refl (omega arith)
      pushed pushed
