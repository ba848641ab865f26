-- ===== src/Bitcoin/Taproot/Power.antt =====
-- src/payment_communities/bitcoin/taproot.py: the prime of the field, and Python's
-- `pow(base, exponent, modulus)` by the bits of the exponent.
use native.Mathlib.Nat.{pow-zero, pow-suc, pow-succ', two-pow-succ, mul_assoc}
use unito_blockchain_25_26_p.Base.{
  if◌then◌else◌, nat_beq, refl, suc, zero, ℕ, ◌%◌, ◌*◌, ◌/◌, ◌<◌, ◌^◌, ◌≡◌, Bool-cases, ap, arith,
  inl, inr, sym, ◌∙◌,
}
use unito_blockchain_25_26_p.Bitcoin.Integers.{mod_mul, mul_mod}

abbrev pub secp256k1_field_p : ℕ
secp256k1_field_p = 0xFFFFFFFFFFFFFFFFFFFFFFFFFFFFFFFFFFFFFFFFFFFFFFFFFFFFFFFEFFFFFC2F

unfoldable pub power : (bits base exponent modulus : ℕ) → ℕ
power zero base exponent modulus = 1 % modulus
power (suc bits) base exponent modulus =
    let half = power bits (base * base % modulus) (exponent / 2) modulus in
    if nat_beq (exponent % 2) 1 then base * half % modulus else half

-- For exponents of at most 256 bits.
unfoldable pub pow_mod : ℕ → ℕ → ℕ → ℕ
unfolding power
pow_mod base exponent modulus = power 256 base exponent modulus

mod-pow : (a k m : ℕ) → (a % m) ^ k % m ≡ a ^ k % m
mod-pow a zero m = rw (pow-zero (a % m), pow-zero a) refl
mod-pow a (suc k) m =
    ap (λ (t : ℕ). t % m) (pow-suc (a % m) k)
    ∙ mul_mod ((a % m) ^ k) a m
    ∙ sym (mod_mul ((a % m) ^ k) a m)
    ∙ ap (λ (t : ℕ). t * a % m) (mod-pow a k m)
    ∙ mod_mul (a ^ k) a m
    ∙ ap (λ (t : ℕ). t % m) (sym (pow-suc a k))

pow-double : (a k : ℕ) → (a * a) ^ k ≡ a ^ (2 * k)
pow-double a zero = let e : 2 * 0 ≡ 0 = omega arith in rw (pow-zero (a * a), e, pow-zero a) refl
pow-double a (suc k) =
    pow-suc (a * a) k
    ∙ ap (λ (t : ℕ). t * (a * a)) (pow-double a k)
    ∙ sym (mul_assoc (a ^ (2 * k)) a a)
    ∙ ap (λ (t : ℕ). t * a) (sym (pow-suc a (2 * k)))
    ∙ sym (pow-suc a (suc (2 * k)))
    ∙ ap (λ (t : ℕ). a ^ t) (omega arith)

-- Enough bits give the power.
pub power_lem :
    (bits base exponent modulus : ℕ)
    → exponent < 2 ^ bits
    → power bits base exponent modulus ≡ base ^ exponent % modulus
unfolding power
power_lem zero base exponent modulus h =
    let e : exponent ≡ 0 = omega (arith, h) in rw (e, pow-zero base) refl
power_lem (suc bits) base exponent modulus h =
    let q = exponent / 2 in
    let half : power bits (base * base % modulus) q modulus ≡ base ^ (2 * q) % modulus =
      power_lem bits (base * base % modulus) q modulus (omega (arith, two-pow-succ bits))
      ∙ mod-pow (base * base) q modulus
      ∙ ap (λ (t : ℕ). t % modulus) (pow-double base q) in
    elim (Bool-cases (nat_beq (exponent % 2) 1)) [
      | inl odd ↦
          rw (odd, half)
            (mul_mod base (base ^ (2 * q)) modulus
              ∙ ap (λ (t : ℕ). t % modulus) (sym (pow-succ' base (2 * q)))
              ∙ ap (λ (t : ℕ). base ^ t % modulus) (ground (arith, odd)))
      | inr even ↦ rw (even, half) (ap (λ (t : ℕ). base ^ t % modulus) (ground (arith, even)))
    ]
