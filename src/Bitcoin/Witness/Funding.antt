-- ===== src/Bitcoin/Witness/Funding.antt =====
-- bitcoin/contracts.py and bitcoin/interpreter.py: which witnesses spend the 2-of-2 funding output.
use unito_blockchain_25_26_p.Base.{
  ◌≡◌, ◌≢◌, ◌&&◌, some, [], ◌∷◌, arith, Bytes, inl, inr, Bool-cases, if◌then◌else◌, map, true, ◌∙◌,
  Bool, Option, false, none, refl,
}
use unito_blockchain_25_26_p.Base.Int.{pos}
use unito_blockchain_25_26_p.Errors.{ok, err, script_verification}
use unito_blockchain_25_26_p.Bitcoin.Script.{
  code, push, int, Script, op_checkmultisig, ReadsBack, ScriptLibrary, read_back,
}
use unito_blockchain_25_26_p.Bitcoin.Machine.{SpendContext}
use unito_blockchain_25_26_p.Bitcoin.Dispatch.{check_signature, match_signatures}
use unito_blockchain_25_26_p.Bitcoin.Dispatch.Multisig.{check_nonempty}
use unito_blockchain_25_26_p.Bitcoin.Witness.Spend.{signs, read_back-push, spend_script}
use unito_blockchain_25_26_p.Bitcoin.Contracts.{
  bytes_lt, create_multisig_2of2, sorted_pair, witness_multisig_2of2,
}
use unito_blockchain_25_26_p.Bitcoin.Interpreter.{execute_from, step}
use unito_blockchain_25_26_p.Bitcoin.Witness.{verify_v0_script_hash}

-- What a funding script with these keys, in this order, reads back as.
abbrev funding_ops : Bytes → Bytes → Script
funding_ops first second =
    int (pos 2) ∷ push first ∷ push second ∷ int (pos 2) ∷ code op_checkmultisig ∷ []

some_valid : (o : Option Bool) → o ≢ none → o ≡ some (elim o [ none ↦ false | some v ↦ v ])
some_valid none ne = absurd (ne refl)
some_valid (some v) ne = refl

nonempty_check :
    (ctx : SpendContext) (script : Script) (pubkey sig : Bytes)
    → sig ≢ []
    → check_signature ctx script pubkey sig ≡ some (signs ctx script pubkey sig)
nonempty_check ctx script pubkey sig ne =
    some_valid (check_signature ctx script pubkey sig) (check_nonempty ctx script sig pubkey ne)

match_two :
    (ctx : SpendContext) (script : Script) (first second sig1 sig2 : Bytes)
    → sig1 ≢ []
    → sig2 ≢ []
    → match_signatures ctx script (sig2 ∷ sig1 ∷ []) (second ∷ first ∷ [])
      ≡ ok (signs ctx script first sig1 && signs ctx script second sig2)
unfolding match_signatures
match_two ctx script first second sig1 sig2 ne1 ne2 = ground (
  arith,
  nonempty_check ctx script second sig2 ne2,
  nonempty_check ctx script first sig2 ne2,
  nonempty_check ctx script first sig1 ne1,
)

execute_funding :
    (ctx : SpendContext) (script : Script) (first second sig1 sig2 : Bytes)
    → sig1 ≢ []
    → sig2 ≢ []
    → execute_from ctx script (funding_ops first second) (sig2 ∷ sig1 ∷ [] ∷ []) ≡ (
        if signs ctx script first sig1 && signs ctx script second sig2
        then ok true
        else err script_verification)
unfolding execute_from step
execute_funding ctx script first second sig1 sig2 ne1 ne2 = ground (
  arith,
  nonempty_check ctx script second sig2 ne2,
  nonempty_check ctx script first sig2 ne2,
  nonempty_check ctx script first sig1 ne1,
)

map-read_back-create_multisig_2of2 :
    (lib : ScriptLibrary) (pubkey1 pubkey2 : Bytes)
    → pubkey1 ≢ []
    → pubkey2 ≢ []
    → map (read_back lib) (create_multisig_2of2 pubkey1 pubkey2)
      ≡ funding_ops (sorted_pair pubkey1 pubkey2).0 (sorted_pair pubkey1 pubkey2).1
unfolding create_multisig_2of2
map-read_back-create_multisig_2of2 lib pubkey1 pubkey2 ne1 ne2 =
    elim (Bool-cases (bytes_lt pubkey2 pubkey1)) [
      | inl e ↦ rw (e, read_back-push lib pubkey1 ne1, read_back-push lib pubkey2 ne2)
      | inr e ↦ rw (e, read_back-push lib pubkey1 ne1, read_back-push lib pubkey2 ne2)
    ]

-- Where the script reads back as it was written and the keys are not empty, the 2-of-2 output of two
-- keys is spent by two nonempty signatures exactly when the first is one of the smaller key and the
-- second one of the greater, in the order of the keys' bytes and not of the arguments.
pub spend_multisig_2of2 :
    (ctx : SpendContext) (lib : ScriptLibrary) (pubkey1 pubkey2 sig1 sig2 : Bytes)
    → ReadsBack lib (create_multisig_2of2 pubkey1 pubkey2)
    → pubkey1 ≢ []
    → pubkey2 ≢ []
    → sig1 ≢ []
    → sig2 ≢ []
    → let script = create_multisig_2of2 pubkey1 pubkey2 in
      let signed_script = lib.parse (lib.encode script) in
      verify_v0_script_hash ctx lib
        (ctx.sha256 (lib.encode script))
        (witness_multisig_2of2 lib sig1 sig2 script)
      ≡ (if signs ctx signed_script (sorted_pair pubkey1 pubkey2).0 sig1
            && signs ctx signed_script (sorted_pair pubkey1 pubkey2).1 sig2
          then ok true
          else err script_verification)
unfolding verify_v0_script_hash witness_multisig_2of2
spend_multisig_2of2 ctx lib pubkey1 pubkey2 sig1 sig2 reads ne1 ne2 s1 s2 =
    let script = create_multisig_2of2 pubkey1 pubkey2 in
    let (first, second) = sorted_pair pubkey1 pubkey2 in
    spend_script ctx lib script (funding_ops first second) (sig2 ∷ sig1 ∷ [] ∷ [])
      (reads ∙ map-read_back-create_multisig_2of2 lib pubkey1 pubkey2 ne1 ne2)
    ∙ execute_funding ctx (lib.parse (lib.encode script)) first second sig1 sig2 s1 s2
