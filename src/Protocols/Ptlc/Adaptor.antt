-- ===== src/Protocols/Ptlc/Adaptor.antt =====
-- protocols/ptlc.py: an adaptor signature verifies, turns into a signature by the payment secret,
-- and that signature gives the secret away.
use unito_blockchain_25_26_p.Base.{
  ℕ, ◌+◌, ◌*◌, ◌%◌, ◌≡◌, ◌≢◌, refl, ◌∙◌, ap, true, none, some, Bytes, arith,
}
use unito_blockchain_25_26_p.Config.{secp256k1_order}
use unito_blockchain_25_26_p.Errors.{ok, Result, ◌>>=◌}
use unito_blockchain_25_26_p.Bitcoin.Integers.{int_from_bytes, int_to_bytes, take-int_to_bytes}
use unito_blockchain_25_26_p.Bitcoin.Curve.{CurveLibrary, ec_point_mul, ec_point_add}
use unito_blockchain_25_26_p.Bitcoin.Curve.Multiples.{
  IsGroup, IsMultiple, ec_point_mul-Gives, ec_point_mul-IsMultiple, ec_point_add-Gives,
  product_ne_zero_right, int_from_bytes-scalar,
}
use unito_blockchain_25_26_p.Protocols.Ptlc.{
  AdaptorSignature, ScalarInput, of_bytes, of_int, adaptor, scalar, s_prime, secret_scalar, nonce,
  challenge, create_adaptor_signature, verify_adaptor_signature, verify_schnorr_signature,
  adapt_signature, extract_adaptor_secret, or_false, scalar_difference, adaptor_check,
}
use unito_blockchain_25_26_p.Protocols.Ptlc.Equations.{adaptor_check_lem, schnorr_check_lem}
use unito_blockchain_25_26_p.Base.Lists.{take}

nonce_ne_zero :
    (lib : CurveLibrary) (key : ScalarInput) (point msg : Bytes)
    → nonce lib key point msg % secp256k1_order ≢ 0
unfolding nonce
nonce_ne_zero lib key point msg = ground arith

-- What both ways to make a signature do, for the challenge of a public key and an adaptor point.
abbrev pub signed_with :
    CurveLibrary
    → ScalarInput
    → Bytes
    → Bytes
    → (challenge_of : Bytes → Bytes → ℕ) → Result AdaptorSignature
signed_with lib key point msg challenge_of = do
  p_pub ← ec_point_mul lib (secret_scalar key)
  r_point ← ec_point_mul lib (nonce lib key point msg)
  r ← ec_point_add lib r_point point
  ok (record {
    r_prime = r;
    s_prime_bytes =
        int_to_bytes 32
          ((nonce lib key point msg + challenge_of p_pub r * secret_scalar key) % secp256k1_order);
    payment_point = point;
  })

module _ (lib : CurveLibrary) (g : IsGroup lib) (key : ScalarInput) (t : ℕ)
    (point pubkey msg : Bytes) (sig : AdaptorSignature) (challenge_of : Bytes → Bytes → ℕ) where
  abbrev k : ℕ
  k = nonce lib key point msg

  abbrev p : ℕ
  p = secret_scalar key

  abbrev e : ℕ
  e = challenge_of pubkey sig.r_prime

  abbrev signature_of : Bytes → AdaptorSignature
  signature_of r = record {
    r_prime = r;
    s_prime_bytes = int_to_bytes 32 ((k + challenge_of pubkey r * p) % secp256k1_order);
    payment_point = point;
  }

  module _ (pointed : ec_point_mul lib t ≡ ok point) (keyed : ec_point_mul lib p ≡ ok pubkey)
      (made : signed_with lib key point msg challenge_of ≡ ok sig) (ht : t % secp256k1_order ≢ 0)
      (hp : e * p % secp256k1_order ≢ 0) (hk : (k + t) % secp256k1_order ≢ 0) where
    -- What a signature that was made holds.
    made_lem :
        IsMultiple lib (k + t) sig.r_prime
        × (sig.s_prime_bytes ≡ int_to_bytes 32 ((k + e * p) % secp256k1_order))
        × (sig.payment_point ≡ point)
    made_lem =
        let on = ec_point_mul-IsMultiple lib g t point ht pointed in
        let (r, er, mr) = ec_point_mul-Gives lib g k (nonce_ne_zero lib key point msg) in
        let (r', er', mr') = ec_point_add-Gives lib g k t r point mr on hk in
        let full : signed_with lib key point msg challenge_of ≡ ok (signature_of r') =
          rw (keyed, er, er') refl in
        let held : signature_of r' ≡ sig = cc in rw (← held) (mr', refl, refl)

    s_prime-made : s_prime sig ≡ (k + e * p) % secp256k1_order
    unfolding s_prime
    s_prime-made = ap int_from_bytes made_lem.1 ∙ int_from_bytes-scalar (k + e * p)

    keyed_lem : IsMultiple lib p pubkey
    keyed_lem = ec_point_mul-IsMultiple lib g p pubkey (product_ne_zero_right lib g e p hp) keyed

    -- The check of an adaptor signature that was made, for its own payment point.
    pub adaptor_check-made :
        s_prime sig ≢ 0
        → (sig.payment_point ≡ point)
          × (adaptor_check lib (s_prime sig) sig.r_prime point e pubkey ≡ ok true)
    adaptor_check-made hs =
        let (mr, _, own) = made_lem in
        let value = s_prime-made in
        (
          own,
          adaptor_check_lem lib g k t e p (s_prime sig) sig.r_prime point pubkey mr
              (ec_point_mul-IsMultiple lib g t point ht pointed) keyed_lem
              (nonce_ne_zero lib key point msg) ht hp (λ z. hs (value ∙ z)) (omega (arith, value)),
        )

-- An adaptor signature that is made for a key and a payment point verifies under the public key, for
-- the payment point that it carries and for the same point given apart: where the library computes in
-- the group of the generator and none of the scalars is a multiple of its order (the payment
-- secret, the challenge times the key, the nonce plus the secret, and the signature itself).
pub verify-create_adaptor_signature :
    (lib : CurveLibrary)
    → IsGroup lib
    → (key : ScalarInput) (t : ℕ) (point pubkey msg : Bytes) (sig : AdaptorSignature)
    → ec_point_mul lib t ≡ ok point
    → ec_point_mul lib (secret_scalar key) ≡ ok pubkey
    → create_adaptor_signature lib key point msg ≡ ok sig
    → t % secp256k1_order ≢ 0
    → challenge lib sig.r_prime pubkey msg * secret_scalar key % secp256k1_order ≢ 0
    → (nonce lib key point msg + t) % secp256k1_order ≢ 0
    → s_prime sig ≢ 0
    → (verify_adaptor_signature lib sig pubkey msg none ≡ true)
      × (verify_adaptor_signature lib sig pubkey msg (some point) ≡ true)
unfolding create_adaptor_signature verify_adaptor_signature
verify-create_adaptor_signature lib g key t point pubkey msg sig pointed keyed made ht hp hk hs =
    let (own, checked) =
      adaptor_check-made lib g key t point pubkey msg sig (λ p r. challenge lib r p msg) pointed
        keyed made ht hp hk hs in
    (rw own (ap or_false checked), ap or_false checked)

-- With the payment secret the adaptor signature becomes a Schnorr signature: under the same
-- conditions, and where the sum of the two scalars is not a multiple of the order, what
-- `adapt_signature` returns verifies under the public key for the adaptor point.
pub verify_schnorr_signature-adapt_signature :
    (lib : CurveLibrary)
    → IsGroup lib
    → (key : ScalarInput) (t : ℕ) (point pubkey msg : Bytes) (sig : AdaptorSignature)
    → ec_point_mul lib t ≡ ok point
    → ec_point_mul lib (secret_scalar key) ≡ ok pubkey
    → create_adaptor_signature lib key point msg ≡ ok sig
    → t % secp256k1_order ≢ 0
    → challenge lib sig.r_prime pubkey msg * secret_scalar key % secp256k1_order ≢ 0
    → (nonce lib key point msg + t) % secp256k1_order ≢ 0
    → (s_prime sig + t) % secp256k1_order ≢ 0
    → verify_schnorr_signature lib pubkey msg sig.r_prime
        (of_bytes (adapt_signature sig (of_int t)))
      ≡ true
unfolding create_adaptor_signature verify_schnorr_signature adapt_signature
verify_schnorr_signature-adapt_signature lib g key t point pubkey msg sig pointed keyed made ht hp
      hk hs =
    let (mr, _, own) =
      made_lem lib g key t point pubkey msg sig (λ p r. challenge lib r p msg) pointed keyed made ht
        hp hk in
    let value =
      s_prime-made lib g key t point pubkey msg sig (λ p r. challenge lib r p msg) pointed keyed
        made ht hp hk in
    let k = nonce lib key point msg in
    let ep = challenge lib sig.r_prime pubkey msg * secret_scalar key in
    let read = int_from_bytes-scalar (s_prime sig + t % secp256k1_order) in
    ap or_false (
      schnorr_check_lem lib g (k + t) (challenge lib sig.r_prime pubkey msg) (secret_scalar key) _
        sig.r_prime pubkey mr
        (keyed_lem lib g key t point pubkey msg sig (λ p r. challenge lib r p msg) pointed keyed
          made ht hp hk)
        hp (λ z. hs (omega (arith, value))) (omega (arith, read, value)))

secret_scalar-mod :
    (secret : ScalarInput) → secret_scalar secret % secp256k1_order ≡ secret_scalar secret
unfolding secret_scalar
secret_scalar-mod (of_int n) = omega arith
secret_scalar-mod (of_bytes bytes) = omega arith

-- The sum of two scalars less one of them, through 32 bytes.
difference_of_sum :
    (s t : ℕ)
    → t % secp256k1_order ≡ t
    → scalar_difference (int_from_bytes (take 32 (int_to_bytes 32 ((s + t) % secp256k1_order)))) s
      ≡ t
unfolding scalar_difference
difference_of_sum s t h =
    rw (take-int_to_bytes 32 ((s + t) % secp256k1_order))
      (rw (int_from_bytes-scalar (s + t)) (omega (arith, h)))

-- Whoever sees the adaptor signature and the signature that it became learns the payment secret:
-- whatever the adaptor signature, `extract_adaptor_secret` returns the 32 bytes of the secret that
-- `adapt_signature` was given, in either order of its arguments.
pub extract_adaptor_secret-adapt_signature :
    (sig : AdaptorSignature) (secret : ScalarInput)
    → let final = scalar (of_bytes (adapt_signature sig secret)) in
      (extract_adaptor_secret (adaptor sig) (some final)
        ≡ ok (int_to_bytes 32 (secret_scalar secret)))
      × (extract_adaptor_secret final (some (adaptor sig))
          ≡ ok (int_to_bytes 32 (secret_scalar secret)))
unfolding extract_adaptor_secret adapt_signature
extract_adaptor_secret-adapt_signature sig secret =
    let back = difference_of_sum (s_prime sig) (secret_scalar secret) (secret_scalar-mod secret) in
    let same = ap (λ (n : ℕ). ok (int_to_bytes 32 n)) back in (same, same)
