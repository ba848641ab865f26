-- ===== src/Bitcoin/Taproot/Schnorr/Signing.antt =====
-- taproot.py: what `schnorr_sign` returns passes `schnorr_verify`.
use unito_blockchain_25_26_p.Base.{
  Bool-cases, ap, arith, false, inl, inr, refl, true, ℕ, ◌%◌, ◌*◌, ◌+◌, ◌<◌, ◌∙◌, ◌≡◌, ◌≢◌, Bytes,
  leb, nat_beq, not, some, ◌&&◌, ◌++◌, ◌||◌, Bool, Option, if◌then◌else◌, sym, String, none,
}
use unito_blockchain_25_26_p.Bitcoin.Curve.Multiples.{IsGroup}
use unito_blockchain_25_26_p.Bitcoin.Taproot.{
  TaprootLibrary, even_scalar, schnorr_point_check, lift_x, schnorr_verify, tagged_scalar,
}
use unito_blockchain_25_26_p.Bitcoin.Taproot.Power.{secp256k1_field_p}
use unito_blockchain_25_26_p.Config.{secp256k1_order}
use unito_blockchain_25_26_p.Errors.{ok, Result, err, runtime_error, value_error}
use unito_blockchain_25_26_p.Base.Lists.{length, length-append, take}
use unito_blockchain_25_26_p.Bitcoin.Integers.{
  int_to_bytes, length-int_to_bytes, int_from_bytes-int_to_bytes, int_from_bytes,
}
use unito_blockchain_25_26_p.Base.Cuts.{drop_append, take_append, drop}
use unito_blockchain_25_26_p.Bitcoin.Scalars.{ScalarInput, secret_scalar}
use unito_blockchain_25_26_p.Bitcoin.Tagged.{tagged_hash}
use unito_blockchain_25_26_p.Bitcoin.Taproot.Schnorr.{
  or_drawn, schnorr_sign, sign_with_nonce, xor_bytes,
}
use unito_blockchain_25_26_p.Bitcoin.Taproot.Schnorr.Points.{
  HasCoordinates, even_scalar-IsEven, point_check,
}

module _ (lib : TaprootLibrary) (g : IsGroup lib.curve) (c : HasCoordinates lib) where
  -- `schnorr_verify` by the parts of the signature, its size first.
  abbrev verdict : ℕ → (r_bytes : Bytes) → (r s : ℕ) → (x_only msg : Bytes) → Result Bool
  verdict size r_bytes r s x_only msg =
      if not (nat_beq size 64 && nat_beq (length x_only) 32)
      then ok false
      else if leb secp256k1_field_p r || leb secp256k1_order s
      then ok false
      else elim (lift_x lib x_only) [
        | none ↦ ok false
        | some point ↦
            schnorr_point_check lib s
              (tagged_scalar lib "BIP0340/challenge" (r_bytes ++ (x_only ++ msg))) point r
      ]

  verify_parts :
      (key msg : Bytes) (r s : ℕ) (point : lib.curve.Point)
      → length key ≡ 32
      → r < secp256k1_field_p
      → s < secp256k1_order
      → lift_x lib key ≡ some point
      → schnorr_point_check lib s
          (tagged_scalar lib "BIP0340/challenge" (int_to_bytes 32 r ++ (key ++ msg)))
          point
          r
        ≡ ok true
      → schnorr_verify lib key msg (int_to_bytes 32 r ++ int_to_bytes 32 s) ≡ ok true
  unfolding schnorr_verify
  verify_parts key msg r s point size r_below s_below lifts checked =
      let rs = int_to_bytes 32 r in
      let ss = int_to_bytes 32 s in
      let lr = length-int_to_bytes 32 r in
      let total : length (rs ++ ss) ≡ 64 =
        omega (arith, length-append rs ss, lr, length-int_to_bytes 32 s) in
      let small : (leb secp256k1_field_p r || leb secp256k1_order s) ≡ false =
        ground (arith, r_below, s_below) in
      let narrow : nat_beq (length key) 33 ≡ false = ground (arith, size) in
      ap
        (λ (b : Bool).
          verdict (length (rs ++ ss)) (take 32 (rs ++ ss)) (int_from_bytes (take 32 (rs ++ ss)))
            (int_from_bytes (drop 32 (rs ++ ss))) (if b then drop 1 key else key) msg)
        narrow
      ∙ ap
          (λ (n : ℕ).
            verdict n (take 32 (rs ++ ss)) (int_from_bytes (take 32 (rs ++ ss)))
              (int_from_bytes (drop 32 (rs ++ ss))) key msg)
          total
      ∙ ap
          (λ (t : Bytes).
            verdict 64 t (int_from_bytes t) (int_from_bytes (drop 32 (rs ++ ss))) key msg)
          (take_append 32 rs ss lr)
      ∙ ap (λ (t : Bytes). verdict 64 rs (int_from_bytes rs) (int_from_bytes t) key msg)
          (drop_append 32 rs ss lr)
      ∙ ap (λ (n : ℕ). verdict 64 rs n (int_from_bytes ss) key msg)
          (int_from_bytes-int_to_bytes 32 r (omega arith))
      ∙ ap (λ (n : ℕ). verdict 64 rs r n key msg) (int_from_bytes-int_to_bytes 32 s (omega arith))
      ∙ rw (size, small, lifts) checked

  tagged_scalar_below : (tag : String) (m : Bytes) → tagged_scalar lib tag m < secp256k1_order
  unfolding tagged_scalar
  tagged_scalar_below tag m = omega arith

  false_ne : (n : ℕ) → nat_beq n 0 ≡ false → n ≢ 0
  false_ne n h = ground arith

  -- What a signature that was made under a nonce holds.
  verify-sign_with_nonce :
      (k0 d px : ℕ) (msg sig : Bytes)
      → k0 < secp256k1_order
      → k0 ≢ 0
      → lift_x lib (int_to_bytes 32 px) ≡ some (lib.curve.multiply d lib.curve.generator)
      → sign_with_nonce lib k0 d (int_to_bytes 32 px) msg ≡ ok sig
      → schnorr_verify lib (int_to_bytes 32 px) msg sig ≡ ok true
  unfolding sign_with_nonce
  verify-sign_with_nonce k0 d px msg sig small nonzero lifts signed =
      let (x, k, xs, below, found, v) = even_scalar-IsEven lib g c k0 small nonzero in
      let e =
        tagged_scalar lib "BIP0340/challenge" (int_to_bytes 32 x ++ (int_to_bytes 32 px ++ msg)) in
      let s = (k + e * d) % secp256k1_order in
      let full : sign_with_nonce lib k0 d (int_to_bytes 32 px) msg
          ≡ ok (int_to_bytes 32 x ++ int_to_bytes 32 s) =
        rw (found, xs) refl in
      let same : int_to_bytes 32 x ++ int_to_bytes 32 s ≡ sig = cc in
      ap (schnorr_verify lib (int_to_bytes 32 px) msg) (sym same)
      ∙ verify_parts (int_to_bytes 32 px) msg x s (lib.curve.multiply d lib.curve.generator)
          (length-int_to_bytes 32 px) below (omega arith) lifts
          (point_check lib g c k d e x s v refl)

  -- A BIP 340 signature that `schnorr_sign` returns passes `schnorr_verify` for the message under the
  -- key's x coordinate, whatever the auxiliary randomness: where the library computes in the group of
  -- the generator and its points have coordinates, and `lift_x` recovers the key's point of even y from
  -- its x coordinate.
  pub schnorr_verify-schnorr_sign :
      (key : ScalarInput) (msg : Bytes) (aux_rand : Option Bytes) (drawn sig : Bytes) (d px : ℕ)
      → even_scalar lib (secret_scalar key) ≡ ok d
      → lib.x_of (lib.curve.multiply (secret_scalar key) lib.curve.generator) ≡ ok px
      → lift_x lib (int_to_bytes 32 px) ≡ some (lib.curve.multiply d lib.curve.generator)
      → schnorr_sign lib key msg aux_rand drawn ≡ ok sig
      → schnorr_verify lib (int_to_bytes 32 px) msg sig ≡ ok true
  unfolding schnorr_sign
  schnorr_verify-schnorr_sign key msg aux_rand drawn sig d px evened xs lifts signed =
      let t =
        xor_bytes (int_to_bytes 32 d)
          (tagged_hash lib.curve.sha256 "BIP0340/aux" (or_drawn aux_rand drawn)) in
      let k0 = tagged_scalar lib "BIP0340/nonce" (t ++ (int_to_bytes 32 px ++ msg)) in
      let signed_by : nat_beq (secret_scalar key) 0 ≡ false
          → nat_beq k0 0 ≡ false
          → sign_with_nonce lib k0 d (int_to_bytes 32 px) msg ≡ ok sig =
        λ some_key some_nonce. sym (rw (some_key, evened, xs, some_nonce) refl) ∙ signed in
      elim (Bool-cases (nat_beq (secret_scalar key) 0)) [
        | inl no_key ↦
            let failed : err value_error ≡ ok sig = sym (rw no_key refl) ∙ signed in absurd cc
        | inr some_key ↦ elim (Bool-cases (nat_beq k0 0)) [
          | inl no_nonce ↦
              let failed : err runtime_error ≡ ok sig =
                sym (rw (some_key, evened, xs, no_nonce) refl) ∙ signed in
              absurd cc
          | inr some_nonce ↦
              verify-sign_with_nonce k0 d px msg sig (tagged_scalar_below "BIP0340/nonce" _)
                (false_ne k0 some_nonce) lifts (signed_by some_key some_nonce)
        ]
      ]
