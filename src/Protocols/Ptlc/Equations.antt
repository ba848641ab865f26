-- ===== src/Protocols/Ptlc/Equations.antt =====
-- protocols/ptlc.py: the equations between points that the two checks of signatures test.
use unito_blockchain_25_26_p.Base.{
  ℕ, ◌+◌, ◌-◌, ◌*◌, ◌%◌, ◌≡◌, ◌≢◌, refl, true, Bytes, bytes_beq_refl, arith,
}
use unito_blockchain_25_26_p.Config.{secp256k1_order}
use unito_blockchain_25_26_p.Errors.{ok}
use unito_blockchain_25_26_p.Bitcoin.Curve.{CurveLibrary}
use unito_blockchain_25_26_p.Bitcoin.Curve.Multiples.{
  IsGroup, IsMultiple, ec_point_mul-eq, ec_point_add-Gives, ec_point_sub-Gives,
  ec_scalar_mul_point-Gives, product_ne_zero,
}
use unito_blockchain_25_26_p.Protocols.Ptlc.{adaptor_check, schnorr_check}

module _ (lib : CurveLibrary) (g : IsGroup lib) where
  -- s' * G = (R' - T) + e * P, for R' = (k + t) * G, T = t * G, P = p * G and s' = k + e * p.
  pub adaptor_check_lem :
      (k t e p s : ℕ) (r point pubkey : Bytes)
      → IsMultiple lib (k + t) r
      → IsMultiple lib t point
      → IsMultiple lib p pubkey
      → k % secp256k1_order ≢ 0
      → t % secp256k1_order ≢ 0
      → e * p % secp256k1_order ≢ 0
      → (k + e * p) % secp256k1_order ≢ 0
      → s % secp256k1_order ≡ (k + e * p) % secp256k1_order
      → adaptor_check lib s r point e pubkey ≡ ok true
  unfolding adaptor_check
  adaptor_check_lem k t e p s r point pubkey mr mt mp hk ht hp hs es =
      let (d, ed, md) =
        ec_point_sub-Gives lib g (k + t) t r point mr mt ht (λ z. hk (omega arith)) in
      let (q, eq, mq) =
        ec_scalar_mul_point-Gives lib g e p pubkey mp (product_ne_zero lib g e p hp) hp in
      let total = k + t + (secp256k1_order - 1) * t + e * p in
      let (x, ex, mx) =
        ec_point_add-Gives lib g (k + t + (secp256k1_order - 1) * t) (e * p) d q md mq
          (λ z. hs (omega arith)) in
      let signed = ec_point_mul-eq lib g total s x (omega (arith, es)) (λ z. hs (omega arith)) mx in
      rw (signed, ed, eq, ex, bytes_beq_refl x) refl

  -- s * G = R' + e * P, for R' = k * G, P = p * G and s = k + e * p.
  pub schnorr_check_lem :
      (k e p s : ℕ) (r pubkey : Bytes)
      → IsMultiple lib k r
      → IsMultiple lib p pubkey
      → e * p % secp256k1_order ≢ 0
      → (k + e * p) % secp256k1_order ≢ 0
      → s % secp256k1_order ≡ (k + e * p) % secp256k1_order
      → schnorr_check lib s r e pubkey ≡ ok true
  unfolding schnorr_check
  schnorr_check_lem k e p s r pubkey mr mp hp hs es =
      let (q, eq, mq) =
        ec_scalar_mul_point-Gives lib g e p pubkey mp (product_ne_zero lib g e p hp) hp in
      let (x, ex, mx) = ec_point_add-Gives lib g k (e * p) r q mr mq hs in
      let signed = ec_point_mul-eq lib g (k + e * p) s x es hs mx in
      rw (signed, eq, ex, bytes_beq_refl x) refl
