-- ===== src/Protocols/Ptlc/Bip340/Verifies.antt =====
-- protocols/ptlc.py: an adaptor signature with the challenge of BIP 340 verifies, and gives its secret
-- away once it is adapted.
use unito_blockchain_25_26_p.Base.{
  Bytes, none, some, true, ℕ, ◌%◌, ◌*◌, ◌+◌, ◌≡◌, ◌≢◌, Bool, ap, arith, if◌then◌else◌, nat_beq, ◌∙◌,
  ◌∷◌, [],
}
use unito_blockchain_25_26_p.Base.Lists.{length, take, take_of_length_le}
use unito_blockchain_25_26_p.Bitcoin.Curve.{CurveLibrary, ec_point_mul}
use unito_blockchain_25_26_p.Bitcoin.Curve.Multiples.{IsGroup}
use unito_blockchain_25_26_p.Config.{secp256k1_order}
use unito_blockchain_25_26_p.Errors.{ok}
use unito_blockchain_25_26_p.Protocols.Ptlc.{
  AdaptorSignature, ScalarInput, nonce, s_prime, secret_scalar, adaptor_check, or_false,
  adapt_signature, adaptor, extract_adaptor_secret, of_bytes, scalar,
}
use unito_blockchain_25_26_p.Protocols.Ptlc.Bip340.{
  bip340_challenge, create_bip340_adaptor_signature, verify_bip340_adaptor_signature, x_bytes,
  compressed_pubkey, adapt_bip340_signature,
}
use unito_blockchain_25_26_p.Protocols.Ptlc.Adaptor.{
  adaptor_check-made, extract_adaptor_secret-adapt_signature,
}
use unito_blockchain_25_26_p.Base.Cuts.{drop, drop_append, take_append}
use unito_blockchain_25_26_p.Bitcoin.Integers.{int_to_bytes}

length-x_bytes : (point : Bytes) → length point ≡ 33 → length (x_bytes point) ≡ 32
length-x_bytes [] e = absurd (omega arith)
length-x_bytes (b ∷ x) e = ap length (take_of_length_le 32 x (omega (arith, e))) ∙ omega (arith, e)

-- An adaptor signature with the challenge of BIP 340 that is made for a key and a payment point
-- verifies under the public key of 33 bytes, for the payment point that it carries and for the same
-- point given apart: where the library computes in the group of the generator and none of the scalars
-- is a multiple of its order (the payment secret, the challenge times the key, the nonce plus the
-- secret, and the signature itself).
pub verify-create_bip340_adaptor_signature :
    (lib : CurveLibrary)
    → IsGroup lib
    → (key : ScalarInput) (t : ℕ) (point pubkey msg : Bytes) (sig : AdaptorSignature)
    → length pubkey ≡ 33
    → ec_point_mul lib t ≡ ok point
    → ec_point_mul lib (secret_scalar key) ≡ ok pubkey
    → create_bip340_adaptor_signature lib key point msg ≡ ok sig
    → t % secp256k1_order ≢ 0
    → bip340_challenge lib (x_bytes sig.r_prime) (x_bytes pubkey) msg
        * secret_scalar key
        % secp256k1_order
      ≢ 0
    → (nonce lib key point msg + t) % secp256k1_order ≢ 0
    → s_prime sig ≢ 0
    → (verify_bip340_adaptor_signature lib sig pubkey msg none ≡ true)
      × (verify_bip340_adaptor_signature lib sig pubkey msg (some point) ≡ true)
unfolding create_bip340_adaptor_signature verify_bip340_adaptor_signature s_prime
verify-create_bip340_adaptor_signature lib g key t point pubkey msg sig wide pointed keyed made ht
      hp hk hs =
    let challenge_of : Bytes → Bytes → ℕ =
      λ p r. bip340_challenge lib (x_bytes r) (x_bytes p) msg in
    let (own, checked) =
      adaptor_check-made lib g key t point pubkey msg sig challenge_of pointed keyed made ht hp hk
        hs in
    let is_wide : nat_beq (length pubkey) 33 ≡ true = ground (arith, wide) in
    let full =
      ap
        (λ (x : Bytes).
          adaptor_check lib (s_prime sig) sig.r_prime point
            (bip340_challenge lib (x_bytes sig.r_prime) x msg) (compressed_pubkey pubkey))
        (ap (λ (b : Bool). if b then x_bytes pubkey else take 32 pubkey) is_wide)
      ∙ ap
          (λ (c : Bytes).
            adaptor_check lib (s_prime sig) sig.r_prime point
              (bip340_challenge lib (x_bytes sig.r_prime) (x_bytes pubkey) msg) c)
          (ap
            (λ (b : Bool).
              if b then pubkey else if nat_beq (length pubkey) 32 then 2 ∷ pubkey else pubkey)
            is_wide)
      ∙ checked in
    (rw own (ap or_false full), ap or_false full)

-- The secret also comes out of the signature of 64 bytes: whatever the adaptor signature whose point
-- has 33 bytes, `extract_adaptor_secret` of it and of the last 32 bytes of what
-- `adapt_bip340_signature` returns gives the 32 bytes of the payment secret, and the first 32 bytes are
-- the x coordinate of the point.
pub extract_adaptor_secret-adapt_bip340_signature :
    (sig : AdaptorSignature) (secret : ScalarInput)
    → length sig.r_prime ≡ 33
    → (take 32 (adapt_bip340_signature sig secret) ≡ x_bytes sig.r_prime)
      × (extract_adaptor_secret
            (adaptor sig)
            (some (scalar (of_bytes (drop 32 (adapt_bip340_signature sig secret)))))
          ≡ ok (int_to_bytes 32 (secret_scalar secret)))
unfolding adapt_bip340_signature adapt_signature
extract_adaptor_secret-adapt_bip340_signature sig secret wide =
    let x = x_bytes sig.r_prime in
    let s = adapt_signature sig secret in
    let size : length x ≡ 32 = length-x_bytes sig.r_prime wide in
    (
      take_append 32 x s size,
      ap (λ (b : Bytes). extract_adaptor_secret (adaptor sig) (some (scalar (of_bytes b))))
            (drop_append 32 x s size)
          ∙ (extract_adaptor_secret-adapt_signature sig secret).0,
    )
