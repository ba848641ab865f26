-- ===== src/Bitcoin/Witness.antt =====
-- src/payment_communities/bitcoin/interpreter.py: the witness programs of SegWit version 0, and the
-- classification of a scriptPubKey.
pub mod Spend
pub mod Htlc
pub mod Funding
pub mod Delayed
use unito_blockchain_25_26_p.Base.{
  ℕ, Bool, true, false, ◌||◌, ◌&&◌, not, Option, none, some, List, [], ◌∷◌, Bytes, bytes_beq,
  nat_beq, if◌then◌else◌,
}
use mathlib.Core.List.{reverse}
use unito_blockchain_25_26_p.Base.Int.{ℤ, pos, int_beq}
use unito_blockchain_25_26_p.Base.Lists.{length}
use unito_blockchain_25_26_p.Errors.{Result, ok, err, script_verification}
use unito_blockchain_25_26_p.Bitcoin.Script.{Op, code, push, int, Script, ScriptLibrary}
use unito_blockchain_25_26_p.Bitcoin.Contracts.{create_p2wpkh_script_code}
use unito_blockchain_25_26_p.Bitcoin.Machine.{SpendContext, split_signature}
use unito_blockchain_25_26_p.Bitcoin.Interpreter.{execute}

-- The three subclasses of `WitnessProgram`, with their program bytes.
pub data WitnessProgram : Type 0 where
  v0_key_hash : Bytes → WitnessProgram
  v0_script_hash : Bytes → WitnessProgram
  v1_taproot : Bytes → WitnessProgram

-- The number that a version operand compares equal to; pushed data equals none.
abbrev version_number : Op → Option ℤ
version_number (code n) = some (pos n)
version_number (int n) = some n
version_number (push bytes) = none

is_version_0 : Option ℤ → Bool
is_version_0 none = false
is_version_0 (some n) = int_beq n (pos 0)

is_version_1 : Option ℤ → Bool
is_version_1 none = false
is_version_1 (some n) = int_beq n (pos 1) || int_beq n (pos 81)

classify : Option ℤ → Bytes → Result WitnessProgram
unfolding is_version_0 is_version_1
classify version program =
    if is_version_0 version && nat_beq (length program) 20
    then ok (v0_key_hash program)
    else if is_version_0 version && nat_beq (length program) 32
    then ok (v0_script_hash program)
    else if is_version_1 version && nat_beq (length program) 32
    then ok (v1_taproot program)
    else err script_verification

unfoldable pub from_script_pub_key : Script → Result WitnessProgram
unfolding classify
from_script_pub_key (version_op ∷ push program ∷ []) = classify (version_number version_op) program
from_script_pub_key _ = err script_verification

-- `WitnessV0KeyHashProgram.verify`; an empty signature is checked with hash type 1.
unfoldable pub verify_v0_key_hash : SpendContext → Bytes → List Bytes → Result Bool
unfolding split_signature create_p2wpkh_script_code
verify_v0_key_hash ctx program (sig ∷ pubkey ∷ []) =
    if bytes_beq (ctx.hash160 pubkey) program
    then (let script_code = create_p2wpkh_script_code ctx.hash160 pubkey in
        let valid : Bool = elim (split_signature sig) [
          | none ↦ ctx.ecdsa_verify pubkey (ctx.signature_hash script_code 1) []
          | some (der, hashtype) ↦
              ctx.ecdsa_verify pubkey (ctx.signature_hash script_code hashtype) der
        ] in
        if valid then ok true else err script_verification)
    else err script_verification
verify_v0_key_hash ctx program _ = err script_verification

-- `witness_stack[-1]` and `witness_stack[:-1]`, the latter as an evaluation stack, top first.
unfoldable pub script_hash_spend : SpendContext → ScriptLibrary → Bytes → List Bytes → Result Bool
script_hash_spend ctx lib program [] = err script_verification
script_hash_spend ctx lib program (witness_script ∷ stack) =
    if bytes_beq (ctx.sha256 witness_script) program
    then execute ctx (lib.parse witness_script) stack
    else err script_verification

-- `WitnessV0ScriptHashProgram.verify`
unfoldable pub verify_v0_script_hash :
    SpendContext → ScriptLibrary → Bytes → List Bytes → Result Bool
unfolding script_hash_spend
verify_v0_script_hash ctx lib program witness_stack =
    script_hash_spend ctx lib program (reverse witness_stack)
