-- ===== src/Bitcoin/Contracts.antt =====
-- src/payment_communities/bitcoin/contracts.py: `ScriptFactory`. A script is its list of items; its
-- bytes, where a witness or a hash needs them, are the script library's `encode`.
use unito_blockchain_25_26_p.Base.{
  Bool, true, false, List, [], ◌∷◌, Bytes, ltb, nat_beq, if◌then◌else◌,
}
use unito_blockchain_25_26_p.Base.Int.{ℤ}
use unito_blockchain_25_26_p.Base.Lists.{length}
use unito_blockchain_25_26_p.Errors.{Result, ok, err, value_error}
use unito_blockchain_25_26_p.Bitcoin.Script.{
  code, push, int, Script, ScriptLibrary, op_0, op_1, op_2, op_if, op_else, op_endif, op_drop,
  op_dup, op_equalverify, op_sha256, op_hash160, op_checksig, op_checkmultisig,
  op_checklocktimeverify, op_checksequenceverify,
}

-- Python's `<` on bytes: lexicographic, a proper prefix being smaller.
unfoldable pub bytes_lt : Bytes → Bytes → Bool
bytes_lt [] [] = false
bytes_lt [] (y ∷ ys) = true
bytes_lt (x ∷ xs) [] = false
bytes_lt (x ∷ xs) (y ∷ ys) = if nat_beq x y then bytes_lt xs ys else ltb x y

-- `sorted([a, b])`, which is stable.
unfoldable pub sorted_pair : Bytes → Bytes → Bytes × Bytes
sorted_pair a b = if bytes_lt b a then (b, a) else (a, b)

unfoldable pub create_multisig_2of2 : Bytes → Bytes → Script
unfolding sorted_pair
create_multisig_2of2 pubkey1 pubkey2 =
    let (first, second) = sorted_pair pubkey1 pubkey2 in
    code op_2 ∷ push first ∷ push second ∷ code op_2 ∷ code op_checkmultisig ∷ []

unfoldable pub create_p2wsh : (sha256 : Bytes → Bytes) → ScriptLibrary → Script → Script
create_p2wsh sha256 lib redeem_script = code op_0 ∷ push (sha256 (lib.encode redeem_script)) ∷ []

unfoldable pub create_p2wpkh : (hash160 : Bytes → Bytes) → Bytes → Script
create_p2wpkh hash160 pubkey = code op_0 ∷ push (hash160 pubkey) ∷ []

unfoldable pub create_p2wpkh_script_code : (hash160 : Bytes → Bytes) → Bytes → Script
create_p2wpkh_script_code hash160 pubkey =
    code op_dup
    ∷ code op_hash160
    ∷ push (hash160 pubkey)
    ∷ code op_equalverify
    ∷ code op_checksig
    ∷ []

unfoldable pub create_htlc : Bytes → Bytes → Bytes → ℤ → Script
create_htlc sender_pubkey receiver_pubkey payment_hash locktime =
    code op_if
    ∷ code op_sha256
    ∷ push payment_hash
    ∷ code op_equalverify
    ∷ push receiver_pubkey
    ∷ code op_checksig
    ∷ code op_else
    ∷ int locktime
    ∷ code op_checklocktimeverify
    ∷ code op_drop
    ∷ push sender_pubkey
    ∷ code op_checksig
    ∷ code op_endif
    ∷ []

-- A witness stack lists its items from the bottom up, as the transaction does.
unfoldable pub witness_htlc_fulfill : ScriptLibrary → Bytes → Bytes → Script → List Bytes
witness_htlc_fulfill lib signature preimage redeem_script =
    signature ∷ preimage ∷ (1 ∷ []) ∷ lib.encode redeem_script ∷ []

unfoldable pub witness_htlc_refund : ScriptLibrary → Bytes → Script → List Bytes
witness_htlc_refund lib signature redeem_script = signature ∷ [] ∷ lib.encode redeem_script ∷ []

unfoldable pub witness_multisig_2of2 : ScriptLibrary → Bytes → Bytes → Script → List Bytes
witness_multisig_2of2 lib sig1 sig2 redeem_script = [] ∷ sig1 ∷ sig2 ∷ lib.encode redeem_script ∷ []

unfoldable pub create_p2tr : Bytes → Result Script
create_p2tr output_key_x_only =
    if nat_beq (length output_key_x_only) 32
    then ok (code op_1 ∷ push output_key_x_only ∷ [])
    else err value_error

unfoldable pub create_second_stage_htlc_script : Bytes → Bytes → ℤ → Script
create_second_stage_htlc_script revocation_pubkey local_delayed_pubkey to_self_delay =
    code op_if
    ∷ push revocation_pubkey
    ∷ code op_checksig
    ∷ code op_else
    ∷ int to_self_delay
    ∷ code op_checksequenceverify
    ∷ code op_drop
    ∷ push local_delayed_pubkey
    ∷ code op_checksig
    ∷ code op_endif
    ∷ []
