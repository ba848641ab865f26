-- ===== src/Bitcoin/Taproot/Schnorr/Points.antt =====
-- taproot.py: points by the parity of y, and the equation that `schnorr_verify` tests.
use unito_blockchain_25_26_p.Base.{
  Bool-cases, ap, arith, false, inl, inr, nat_beq_iff, refl, true, ℕ, ◌%◌, ◌*◌, ◌+◌, ◌-◌, ◌<◌, ◌∙◌,
  ◌≡◌, ◌≢◌,
}
use unito_blockchain_25_26_p.Bitcoin.Curve.Multiples.{IsGroup, multiply-cong}
use unito_blockchain_25_26_p.Bitcoin.Taproot.{
  TaprootLibrary, even_scalar, is_odd, schnorr_point_check,
}
use unito_blockchain_25_26_p.Bitcoin.Taproot.Power.{secp256k1_field_p}
use unito_blockchain_25_26_p.Config.{secp256k1_order}
use unito_blockchain_25_26_p.Errors.{ok}

-- What ecdsa documents of negation and of the coordinates of a point that is not the one at infinity:
-- they are below the prime of the field, and a point and its negative share x and differ in parity of y.
pub record HasCoordinates (lib : TaprootLibrary) : Type 0 where
  pub negated :
      (a : ℕ)
      → lib.negate (lib.curve.multiply a lib.curve.generator)
        ≡ lib.curve.multiply ((secp256k1_order - 1) * a) lib.curve.generator
  pub finite :
      (a : ℕ)
      → a % secp256k1_order ≢ 0
      → lib.is_infinity (lib.curve.multiply a lib.curve.generator) ≡ false
  pub coordinates :
      (a : ℕ)
      → a % secp256k1_order ≢ 0
      → (x : ℕ) × (y : ℕ) × (lib.x_of (lib.curve.multiply a lib.curve.generator) ≡ ok x)
        × (lib.y_of (lib.curve.multiply a lib.curve.generator) ≡ ok y)
        × (x < secp256k1_field_p)
  pub mirrored :
      (a x y : ℕ)
      → a < secp256k1_order
      → lib.x_of (lib.curve.multiply a lib.curve.generator) ≡ ok x
      → lib.y_of (lib.curve.multiply a lib.curve.generator) ≡ ok y
      → is_odd y ≡ true
      → (z : ℕ) × (lib.x_of (lib.curve.multiply (secp256k1_order - a) lib.curve.generator) ≡ ok x)
        × (lib.y_of (lib.curve.multiply (secp256k1_order - a) lib.curve.generator) ≡ ok z)
        × (is_odd z ≡ false)

-- A scalar whose point has the given x coordinate and an even y coordinate.
pub record IsEven (lib : TaprootLibrary) (a x : ℕ) : Type 0 where
  pub nonzero : a % secp256k1_order ≢ 0
  pub y : ℕ
  pub x_is : lib.x_of (lib.curve.multiply a lib.curve.generator) ≡ ok x
  pub y_is : lib.y_of (lib.curve.multiply a lib.curve.generator) ≡ ok y
  pub even : is_odd y ≡ false

module _ (lib : TaprootLibrary) (g : IsGroup lib.curve) (c : HasCoordinates lib) where
  pub even_scalar-IsEven :
      (a : ℕ)
      → a < secp256k1_order
      → a ≢ 0
      → (x : ℕ) × (d : ℕ) × (lib.x_of (lib.curve.multiply a lib.curve.generator) ≡ ok x)
        × (x < secp256k1_field_p)
        × (even_scalar lib a ≡ ok d)
        × IsEven lib d x
  unfolding even_scalar
  even_scalar-IsEven a small nonzero =
      let (x, y, xs, ys, below) = c.coordinates a (λ z. nonzero (omega (arith, z))) in
      elim (Bool-cases (is_odd y)) [
        | inl odd ↦
            let (z, mx, mz, even) = c.mirrored a x y small xs ys odd in
            (
              x,
              secp256k1_order - a,
              xs,
              below,
              rw (ys, odd) refl,
              record {
                nonzero = λ e. nonzero (omega (arith, e));
                y = z;
                x_is = mx;
                y_is = mz;
                even = even;
              },
            )
        | inr even ↦ (
          x,
          a,
          xs,
          below,
          rw (ys, even) refl,
          record {
            nonzero = λ e. nonzero (omega (arith, e));
            y = y;
            x_is = xs;
            y_is = ys;
            even = even;
          },
        )
      ]

  -- s * G - e * P is k * G, for P = d * G and s = k + e * d.
  pub point_check :
      (k d e x s : ℕ)
      → IsEven lib k x
      → s ≡ (k + e * d) % secp256k1_order
      → schnorr_point_check lib s e (lib.curve.multiply d lib.curve.generator) x ≡ ok true
  unfolding schnorr_point_check
  point_check k d e x s v es =
      let n = secp256k1_order - 1 in
      let ed = e * d in
      let back : lib.curve.add (lib.curve.multiply s lib.curve.generator)
            (lib.negate (lib.curve.multiply e (lib.curve.multiply d lib.curve.generator)))
          ≡ lib.curve.multiply k lib.curve.generator =
        ap
          (λ (p : lib.curve.Point).
            lib.curve.add (lib.curve.multiply s lib.curve.generator) (lib.negate p))
          (g.product e d)
        ∙ ap (lib.curve.add (lib.curve.multiply s lib.curve.generator)) (c.negated ed)
        ∙ g.sum s (n * ed)
        ∙ multiply-cong lib.curve g (s + n * ed) k (omega (arith, es)) in
      rw (back, c.finite k v.nonzero, v.y_is, v.x_is, v.even, (nat_beq_iff x x).1 refl) refl
