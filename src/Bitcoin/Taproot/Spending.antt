-- ===== src/Bitcoin/Taproot/Spending.antt =====
-- interpreter.py, taproot.py: what a spend over the script path of a Taproot output runs.
use mathlib.Core.List.{reverse, reverse-append}
use unito_blockchain_25_26_p.Base.{
  Bytes, List, [], arith, ℕ, ◌++◌, ◌<◌, ◌∷◌, ◌≡◌, ◌∙◌, bytes_beq_refl, false, ltb, some, Bool, ap,
  bytes_beq, if◌then◌else◌, Bool-cases, inl, inr, nat_beq,
}
use unito_blockchain_25_26_p.Base.Lists.{All, length, take, get_elem?}
use unito_blockchain_25_26_p.Bitcoin.Taproot.{tapleaf_hash, TaprootLibrary, taproot_tweak_pubkey}
use unito_blockchain_25_26_p.Bitcoin.Taproot.Program.{
  merkle_root, script_path_spend, taproot_spend, verify_taproot,
}
use unito_blockchain_25_26_p.Base.Cuts.{take_append, drop}
use unito_blockchain_25_26_p.Bitcoin.Contracts.{create_p2tr}
use unito_blockchain_25_26_p.Bitcoin.Interpreter.{execute}
use unito_blockchain_25_26_p.Bitcoin.Machine.{SpendContext}
use unito_blockchain_25_26_p.Bitcoin.Script.{Script, ScriptLibrary}
use unito_blockchain_25_26_p.Bitcoin.Witness.{from_script_pub_key, v1_taproot}
use unito_blockchain_25_26_p.Errors.{ok, Result, err, script_verification, ◌>>=◌}
use unito_blockchain_25_26_p.Base.Int.{ℤ}
use unito_blockchain_25_26_p.Bitcoin.Builder.{BitcoinLibrary, Transaction, TxIn, TxOut}
use unito_blockchain_25_26_p.Bitcoin.Verification.{spend_context, verify_transaction_witness}
use unito_blockchain_25_26_p.Bitcoin.Taproot.Merkle.{
  control_block, fold_branches, join, length-control_block, merkle_root-control_block,
}

module _ (lib : TaprootLibrary) where
  script_path_found :
      (ctx : SpendContext) (scripts : ScriptLibrary) (key script control : Bytes) (parity : ℕ)
      (stack : List Bytes)
      → ltb (length control) 33 ≡ false
      → taproot_tweak_pubkey lib
          (take 32 (drop 1 control))
          (some (merkle_root lib.curve.sha256 script control))
        ≡ ok (key, parity)
      → script_path_spend lib ctx scripts key control script stack
        ≡ execute ctx (scripts.parse script) stack
  unfolding script_path_spend
  script_path_found ctx scripts key script control parity stack long tweaks =
      ap
        (λ (short : Bool).
          if short
          then err script_verification
          else (taproot_tweak_pubkey lib (take 32 (drop 1 control))
                (some (merkle_root lib.curve.sha256 script control))
              >>= λ tweaked.
                  if bytes_beq tweaked.0 key
                  then execute ctx (scripts.parse script) stack
                  else err script_verification))
        long
      ∙ ap
          (λ (call : Result (Bytes × ℕ)). call >>= λ tweaked.
            if bytes_beq tweaked.0 key
            then execute ctx (scripts.parse script) stack
            else err script_verification)
          tweaks
      ∙ ap
          (λ (same : Bool).
            if same then execute ctx (scripts.parse script) stack else err script_verification)
          (bytes_beq_refl key)

  script_path_spend_lem :
      (ctx : SpendContext) (scripts : ScriptLibrary) (key script : Bytes) (parity version : ℕ)
      (internal : Bytes) (siblings : List Bytes) (trailing : Bytes) (stack : List Bytes)
      → length internal ≡ 32
      → All (λ (s : Bytes). length s ≡ 32) siblings
      → length trailing < 32
      → taproot_tweak_pubkey lib internal (
          some
            (fold_branches lib.curve.sha256 (tapleaf_hash lib.curve.sha256 script 0xC0) siblings))
        ≡ ok (key, parity)
      → script_path_spend lib ctx scripts key
          (control_block version internal siblings trailing)
          script
          stack
        ≡ execute ctx (scripts.parse script) stack
  script_path_spend_lem ctx scripts key script parity version internal siblings trailing stack e all
        short tweaks =
      let control = control_block version internal siblings trailing in
      let sha256 = lib.curve.sha256 in
      script_path_found ctx scripts key script control parity stack
        (length-control_block version internal siblings trailing e)
        (ap (λ (x : Bytes). taproot_tweak_pubkey lib x (some (merkle_root sha256 script control)))
            (take_append 32 internal (join siblings trailing) e)
          ∙ ap (λ (root : Bytes). taproot_tweak_pubkey lib internal (some root))
              (merkle_root-control_block sha256 script version internal siblings trailing e all
                short)
          ∙ tweaks)

  pub from_script_pub_key-create_p2tr :
      (key : Bytes) (spent : Script)
      → create_p2tr key ≡ ok spent
      → from_script_pub_key spent ≡ ok (v1_taproot key)
  unfolding create_p2tr from_script_pub_key
  from_script_pub_key-create_p2tr key spent h = elim (Bool-cases (nat_beq (length key) 32)) [
    | inl fits ↦ ground (arith, fits, h)
    | inr other ↦ ground (arith, other, h)
  ]

  pub verify_witnessed :
      (bitcoin : BitcoinLibrary) (verify : Bytes → List Bytes → Result Bool) (tx : Transaction)
      (index : ℕ) (input : TxIn) (spent : Script) (amount : ℤ) (key : Bytes) (stack : List Bytes)
      → from_script_pub_key spent ≡ ok (v1_taproot key)
      → get_elem? tx.vin index ≡ some input
      → get_elem? tx.wit index ≡ some stack
      → verify_transaction_witness bitcoin verify tx index spent amount ≡ verify key stack
  unfolding verify_transaction_witness
  verify_witnessed bitcoin verify tx index input spent amount key stack program found witnessed =
      ground (arith, witnessed, program, found)

  verify_taproot-script :
      (ctx : SpendContext) (bitcoin : BitcoinLibrary)
      (serialize : List TxIn → List TxOut → ℕ → Bytes) (tx : Transaction) (key : Bytes)
      (arguments : List Bytes) (script control : Bytes)
      → verify_taproot lib bitcoin serialize ctx tx key (arguments ++ (script ∷ control ∷ []))
        ≡ script_path_spend lib ctx bitcoin.scripts key control script (reverse arguments)
  unfolding verify_taproot taproot_spend
  verify_taproot-script ctx bitcoin serialize tx key arguments script control =
      ap (taproot_spend lib ctx bitcoin.scripts (serialize tx.vin tx.vout tx.n_lock_time) key)
        (reverse-append arguments (script ∷ control ∷ []))

  -- A spend of a Taproot output over the script path runs its script. Where a key is the internal key
  -- tweaked by the root over the script's leaf and the given siblings, each of 32 bytes, and the
  -- output's script is that of the key: a witness of arguments, the script and a control block of the
  -- internal key and the siblings passes the check of the output as the script does over the arguments,
  -- whatever the first byte of the control block, and whatever fewer than 32 bytes follow the siblings.
  pub spend_script_path :
      (bitcoin : BitcoinLibrary) (serialize : List TxIn → List TxOut → ℕ → Bytes) (tx : Transaction)
      (index : ℕ) (input : TxIn) (spent : Script) (amount : ℤ) (arguments : List Bytes)
      (key script : Bytes) (parity version : ℕ) (internal : Bytes) (siblings : List Bytes)
      (trailing : Bytes)
      → length internal ≡ 32
      → All (λ (s : Bytes). length s ≡ 32) siblings
      → length trailing < 32
      → taproot_tweak_pubkey lib internal (
          some
            (fold_branches lib.curve.sha256 (tapleaf_hash lib.curve.sha256 script 0xC0) siblings))
        ≡ ok (key, parity)
      → create_p2tr key ≡ ok spent
      → get_elem? tx.vin index ≡ some input
      → get_elem? tx.wit index
        ≡ some (arguments ++ (script ∷ control_block version internal siblings trailing ∷ []))
      → let ctx = spend_context bitcoin tx index input amount in
        verify_transaction_witness bitcoin
          (verify_taproot lib bitcoin serialize ctx tx)
          tx
          index
          spent
          amount
        ≡ execute ctx (bitcoin.scripts.parse script) (reverse arguments)
  spend_script_path bitcoin serialize tx index input spent amount arguments key script parity
        version internal siblings trailing e all short tweaks pays found witnessed =
      let ctx = spend_context bitcoin tx index input amount in
      let control = control_block version internal siblings trailing in
      verify_witnessed bitcoin (verify_taproot lib bitcoin serialize ctx tx) tx index input spent
        amount key (arguments ++ (script ∷ control ∷ []))
        (from_script_pub_key-create_p2tr key spent pays) found witnessed
      ∙ verify_taproot-script ctx bitcoin serialize tx key arguments script control
      ∙ script_path_spend_lem ctx bitcoin.scripts key script parity version internal siblings
          trailing (reverse arguments) e all short tweaks
