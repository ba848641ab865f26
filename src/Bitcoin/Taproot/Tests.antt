-- ===== src/Bitcoin/Taproot/Tests.antt =====
-- taproot.py, interpreter.py: a spend over the script path of a toy output.
use unito_blockchain_25_26_p.Base.{
  Bytes, List, [], arith, nat_beq, refl, some, true, ℕ, ◌-◌, ◌∷◌, ◌≡◌, false, none, ◌%◌, ◌*◌, ◌≢◌,
}
use unito_blockchain_25_26_p.Base.Int.{pos}
use unito_blockchain_25_26_p.Bitcoin.Builder.{Transaction, TxIn, TxOut}
use unito_blockchain_25_26_p.Bitcoin.Contracts.{create_p2tr}
use unito_blockchain_25_26_p.Bitcoin.Curve.Tests.{toy_curve, toy_curve-IsGroup}
use unito_blockchain_25_26_p.Bitcoin.Dispatch.{check_signature}
use unito_blockchain_25_26_p.Bitcoin.Integers.{int_from_bytes, int_to_bytes}
use unito_blockchain_25_26_p.Bitcoin.Interpreter.{execute, step}
use unito_blockchain_25_26_p.Bitcoin.Script.{code, op_1, op_checksig, push}
use unito_blockchain_25_26_p.Bitcoin.Taproot.{
  TaprootLibrary, lift_x, pubkey_to_x_only, tapleaf_hash, taproot_tweak_pubkey, even_scalar, is_odd,
  schnorr_verify, tagged_scalar, taproot_tweak_seckey, tweak_x_only,
}
use unito_blockchain_25_26_p.Bitcoin.Taproot.Program.{branch, verify_taproot}
use unito_blockchain_25_26_p.Bitcoin.Taproot.Merkle.{control_block, fold_branches}
use unito_blockchain_25_26_p.Bitcoin.Taproot.Spending.{spend_script_path}
use unito_blockchain_25_26_p.Bitcoin.Tests.{alice, alice_sig, toy_library}
use unito_blockchain_25_26_p.Bitcoin.Tests.Transactions.{toy_bitcoin, toy_digest}
use unito_blockchain_25_26_p.Bitcoin.Verification.{spend_context, verify_transaction_witness}
use unito_blockchain_25_26_p.Config.{secp256k1_order}
use unito_blockchain_25_26_p.Errors.{Result, err, ok}
use unito_blockchain_25_26_p.Bitcoin.Curve.Multiples.{IsGroup}
use unito_blockchain_25_26_p.Bitcoin.Scalars.{of_int, secret_scalar}
use unito_blockchain_25_26_p.Bitcoin.Tagged.{tagged_hash}
use unito_blockchain_25_26_p.Bitcoin.Taproot.Schnorr.{schnorr_sign, sign_with_nonce, xor_bytes}
use unito_blockchain_25_26_p.Bitcoin.Taproot.Schnorr.Points.{HasCoordinates}
use unito_blockchain_25_26_p.Bitcoin.Taproot.Schnorr.Signing.{schnorr_verify-schnorr_sign}
use unito_blockchain_25_26_p.Bitcoin.Taproot.Tweak.{taproot_tweak_key_pair}

-- The toy group, where a point's x coordinate is the point and its y coordinate is even.
abbrev pub toy_taproot : TaprootLibrary
toy_taproot = record {
  curve = record toy_curve { sha256 = toy_digest };
  point = λ x y. x;
  negate = λ p. (secp256k1_order - p) % secp256k1_order;
  is_infinity = λ p. nat_beq p 0;
  x_of = λ p. ok p;
  y_of = λ p. ok 2;
}

abbrev pub toy_serialize : List TxIn → List TxOut → ℕ → Bytes
toy_serialize inputs outputs locktime = locktime ∷ []

-- The point of x coordinate 1, which the curve has.
abbrev internal : Bytes
internal = int_to_bytes 32 1

lifts_one : lift_x toy_taproot internal ≡ some 1
unfolding lift_x int_from_bytes int_to_bytes
lifts_one = refl

abbrev leaf_script : Bytes
leaf_script = toy_library.encode (push alice ∷ code op_checksig ∷ [])

abbrev sibling : Bytes
sibling = toy_digest (1 ∷ 2 ∷ 3 ∷ [])

abbrev tweaked : Result (Bytes × ℕ)
tweaked =
    taproot_tweak_pubkey toy_taproot internal
      (some (fold_branches toy_digest (tapleaf_hash toy_digest leaf_script 0xC0) (sibling ∷ [])))

abbrev key_of : Result (Bytes × ℕ) → Bytes
key_of (ok (key, parity)) = key
key_of (err raised) = []

abbrev output_key : Bytes
output_key = key_of tweaked

abbrev funding_input : TxIn
funding_input = record { txid = "aa"; vout = 0; n_sequence = 0 }

abbrev spending : Transaction
spending = record {
  vin = funding_input ∷ [];
  vout = [];
  n_lock_time = 0;
  wit = (alice_sig ∷ leaf_script ∷ control_block 7 internal (sibling ∷ []) (9 ∷ []) ∷ []) ∷ [];
}

spend_script_path_example :
    verify_transaction_witness toy_bitcoin
      (verify_taproot toy_taproot toy_bitcoin toy_serialize
        (spend_context toy_bitcoin spending 0 funding_input (pos 5000))
        spending)
      spending
      0
      (code op_1 ∷ push output_key ∷ [])
      (pos 5000)
    ≡ ok true
unfolding step tweak_x_only pubkey_to_x_only taproot_tweak_pubkey tapleaf_hash branch int_from_bytes
    int_to_bytes lift_x create_p2tr execute check_signature
spend_script_path_example =
    spend_script_path toy_taproot toy_bitcoin toy_serialize spending 0 funding_input
      (code op_1 ∷ push output_key ∷ []) (pos 5000) (alice_sig ∷ []) output_key leaf_script 0 7
      internal (sibling ∷ []) (9 ∷ []) refl (refl, tt) (omega arith) refl refl refl refl

toy_IsGroup : IsGroup toy_taproot.curve
toy_IsGroup = record {
  sum = toy_curve-IsGroup.sum;
  product = toy_curve-IsGroup.product;
  period = toy_curve-IsGroup.period;
  compressed = toy_curve-IsGroup.compressed;
}

toy_finite : (a : ℕ) → a % secp256k1_order ≢ 0 → nat_beq (a * 1 % secp256k1_order) 0 ≡ false
toy_finite a h = ground arith

toy_mirrored : (y : ℕ) → Path (Result ℕ) (ok 2) (ok y) → is_odd y ≡ true → ⊥
toy_mirrored y e odd = let same : 2 ≡ y = cc in ground (arith, odd, same)

toy_HasCoordinates : HasCoordinates toy_taproot
toy_HasCoordinates = record {
  negated = λ a. omega arith;
  finite = toy_finite;
  coordinates = λ a h. (a * 1 % secp256k1_order, 2, refl, refl, omega arith);
  mirrored = λ a x y small xs ys odd. absurd (toy_mirrored y ys odd);
}

abbrev signature_or : Bytes → Result Bytes → Bytes
signature_or default (ok sig) = sig
signature_or default (err raised) = default

abbrev toy_signature : Bytes
toy_signature = signature_or [] (schnorr_sign toy_taproot (of_int 1) (4 ∷ []) none (toy_digest []))

schnorr_verify-schnorr_sign_example :
    schnorr_verify toy_taproot internal (4 ∷ []) toy_signature ≡ ok true
unfolding schnorr_sign sign_with_nonce tagged_scalar tagged_hash int_from_bytes int_to_bytes lift_x
    even_scalar xor_bytes secret_scalar
schnorr_verify-schnorr_sign_example =
    schnorr_verify-schnorr_sign toy_taproot toy_IsGroup toy_HasCoordinates (of_int 1) (4 ∷ []) none
      (toy_digest []) toy_signature 1 1 refl refl refl refl

taproot_tweak_key_pair_example :
    (q : ℕ) × (x : ℕ) × (y : ℕ) × (taproot_tweak_seckey toy_taproot internal (some sibling)
      ≡ ok (int_to_bytes 32 q))
    × (toy_taproot.x_of (toy_taproot.curve.multiply q toy_taproot.curve.generator) ≡ ok x)
    × (toy_taproot.y_of (toy_taproot.curve.multiply q toy_taproot.curve.generator) ≡ ok y)
    × (taproot_tweak_pubkey toy_taproot internal (some sibling) ≡ ok (int_to_bytes 32 x, y % 2))
unfolding even_scalar int_from_bytes int_to_bytes lift_x tagged_scalar tagged_hash
taproot_tweak_key_pair_example =
    taproot_tweak_key_pair toy_taproot toy_IsGroup toy_HasCoordinates internal (some sibling) 1 1
      refl refl refl (omega arith)
