-- ===== src/Bitcoin/Taproot/Program.antt =====
-- src/payment_communities/bitcoin/interpreter.py: `WitnessV1TaprootProgram`.
use mathlib.Core.List.{reverse}
use unito_blockchain_25_26_p.Base.{
  Bool, Bytes, List, [], bytes_beq, false, if◌then◌else◌, leb, ltb, nat_beq, some, suc, true, zero,
  ℕ, ◌++◌, ◌||◌, ◌∷◌,
}
use unito_blockchain_25_26_p.Base.Cuts.{drop}
use unito_blockchain_25_26_p.Base.Lists.{length, take}
use unito_blockchain_25_26_p.Bitcoin.Builder.{BitcoinLibrary, Transaction, TxIn, TxOut}
use unito_blockchain_25_26_p.Bitcoin.Contracts.{bytes_lt}
use unito_blockchain_25_26_p.Bitcoin.Interpreter.{execute}
use unito_blockchain_25_26_p.Bitcoin.Machine.{SpendContext}
use unito_blockchain_25_26_p.Bitcoin.Script.{ScriptLibrary}
use unito_blockchain_25_26_p.Bitcoin.Tagged.{tagged_hash}
use unito_blockchain_25_26_p.Bitcoin.Taproot.{
  TaprootLibrary, schnorr_verify, tapleaf_hash, taproot_tweak_pubkey,
}
use unito_blockchain_25_26_p.Errors.{Result, err, ok, script_verification, ◌>>=◌}

-- A hash of two nodes of the script tree, the smaller one first.
unfoldable pub branch : (sha256 : Bytes → Bytes) → Bytes → Bytes → Bytes
unfolding tagged_hash bytes_lt
branch sha256 curr_hash sibling =
    if bytes_lt curr_hash sibling
    then tagged_hash sha256 "TapBranch" (curr_hash ++ sibling)
    else tagged_hash sha256 "TapBranch" (sibling ++ curr_hash)

-- The loop over the siblings, for what is left of the control block; each turn takes 32 bytes of it, so
-- its length is fuel enough.
unfoldable pub climb : (sha256 : Bytes → Bytes) → (fuel : ℕ) → (curr_hash rest : Bytes) → Bytes
unfolding branch
climb sha256 zero curr_hash rest = curr_hash
climb sha256 (suc fuel) curr_hash rest = elim (leb 32 (length rest)) [
  | true ↦ climb sha256 fuel (branch sha256 curr_hash (take 32 rest)) (drop 32 rest)
  | false ↦ curr_hash
]

-- The root that a script and a control block give.
unfoldable pub merkle_root : (sha256 : Bytes → Bytes) → (script control : Bytes) → Bytes
unfolding climb tapleaf_hash
merkle_root sha256 script control =
    climb sha256 (length control) (tapleaf_hash sha256 script 0xC0) (drop 33 control)

-- The hash type after the 64 bytes of a signature, 0 where there is none.
abbrev pub sighash_type : Bytes → ℕ
sighash_type sig = elim (drop 64 sig) [ [] ↦ 0 | flag ∷ _ ↦ flag ]

unfoldable pub key_path_spend :
    TaprootLibrary → (base_tx_bytes : Bytes) → (program sig : Bytes) → Result Bool
key_path_spend lib base_tx_bytes program sig =
    if nat_beq (length sig) 64 || nat_beq (length sig) 65
    then (schnorr_verify lib program
          (tagged_hash lib.curve.sha256 "TapSighash" (base_tx_bytes ++ (sighash_type sig ∷ [])))
          (take 64 sig)
        >>= λ valid. if valid then ok true else err script_verification)
    else err script_verification

unfoldable pub script_path_spend :
    TaprootLibrary
    → SpendContext
    → ScriptLibrary
    → (program control script : Bytes) → List Bytes
    → Result Bool
script_path_spend lib ctx scripts program control script stack =
    if ltb (length control) 33
    then err script_verification
    else (taproot_tweak_pubkey lib (take 32 (drop 1 control))
          (some (merkle_root lib.curve.sha256 script control))
        >>= λ tweaked.
            if bytes_beq tweaked.0 program
            then execute ctx (scripts.parse script) stack
            else err script_verification)

-- By the witness stack from its end: one item is a signature, more are arguments, script and control
-- block.
unfoldable pub taproot_spend :
    TaprootLibrary
    → SpendContext
    → ScriptLibrary
    → (base_tx_bytes program : Bytes) → List Bytes
    → Result Bool
unfolding key_path_spend script_path_spend
taproot_spend lib ctx scripts base_tx_bytes program [] = err script_verification
taproot_spend lib ctx scripts base_tx_bytes program (sig ∷ []) =
    key_path_spend lib base_tx_bytes program sig
taproot_spend lib ctx scripts base_tx_bytes program (control ∷ script ∷ stack) =
    script_path_spend lib ctx scripts program control script stack

-- `WitnessV1TaprootProgram.verify` for input `input_index` of `tx`; `serialize` stands for
-- `CTransaction(vin, vout, nLockTime).serialize()`.
unfoldable pub verify_taproot :
    TaprootLibrary
    → BitcoinLibrary
    → (serialize : List TxIn → List TxOut → ℕ → Bytes) → SpendContext
    → Transaction
    → (program : Bytes) → List Bytes
    → Result Bool
unfolding taproot_spend
verify_taproot lib bitcoin serialize ctx tx program witness_stack =
    taproot_spend lib ctx bitcoin.scripts (serialize tx.vin tx.vout tx.n_lock_time) program
      (reverse witness_stack)
