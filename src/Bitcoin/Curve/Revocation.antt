-- ===== src/Bitcoin/Curve/Revocation.antt =====
-- bitcoin/utils.py: the key that punishes the broadcast of a revoked commitment.
use unito_blockchain_25_26_p.Base.{◌*◌, ◌%◌, ◌≡◌, ◌≢◌, ◌++◌, Bytes, arith, refl, ℕ, ◌+◌, ap, ◌∙◌}
use unito_blockchain_25_26_p.Base.Lists.{take}
use unito_blockchain_25_26_p.Config.{secp256k1_order}
use unito_blockchain_25_26_p.Errors.{Result, ok, ◌>>=◌}
use unito_blockchain_25_26_p.Bitcoin.Integers.{int_from_bytes, int_to_bytes}
use unito_blockchain_25_26_p.Bitcoin.Curve.{
  CurveLibrary, ec_point_mul, ec_point_add, ec_scalar_mul_point, hash_scalar,
  derive_revocation_pubkey, revocation_scalar, derive_revocation_privkey,
}
use unito_blockchain_25_26_p.Bitcoin.Curve.Multiples.{
  IsGroup, Gives, ec_point_mul-IsMultiple, ec_point_add-Gives, ec_scalar_mul_point-Gives,
  product_ne_zero, Gives-cong, product_ne_zero_right, ec_point_mul-eq, int_from_bytes-scalar,
}

module _ (lib : CurveLibrary) (g : IsGroup lib)
    (base_secret commit_secret base_pub point : Bytes) where
  abbrev s_base : ℕ
  s_base = int_from_bytes (take 32 base_secret) % secp256k1_order

  abbrev s_commit : ℕ
  s_commit = int_from_bytes (take 32 commit_secret) % secp256k1_order

  abbrev a : ℕ
  a = hash_scalar lib (base_pub ++ point)

  abbrev b : ℕ
  b = hash_scalar lib (point ++ base_pub)

  module _ (based : ec_point_mul lib s_base ≡ ok base_pub)
      (committed : ec_point_mul lib s_commit ≡ ok point) (p : a * s_base % secp256k1_order ≢ 0)
      (q : b * s_commit % secp256k1_order ≢ 0)
      (r : revocation_scalar lib s_base s_commit base_pub point ≢ 0) where
    derive_pubkey-Gives :
        Gives lib (derive_revocation_pubkey lib base_pub point) (a * s_base + b * s_commit)
    unfolding derive_revocation_pubkey revocation_scalar
    derive_pubkey-Gives =
        let base_on =
          ec_point_mul-IsMultiple lib g s_base base_pub (product_ne_zero_right lib g a s_base p)
            based in
        let point_on =
          ec_point_mul-IsMultiple lib g s_commit point (product_ne_zero_right lib g b s_commit q)
            committed in
        let (p1, e1, m1) =
          ec_scalar_mul_point-Gives lib g a s_base base_pub base_on
            (product_ne_zero lib g a s_base p) p in
        let (p2, e2, m2) =
          ec_scalar_mul_point-Gives lib g b s_commit point point_on
            (product_ne_zero lib g b s_commit q) q in
        Gives-cong lib g (a * s_base + b * s_commit)
          (ap
              (λ (x : Result Bytes). x >>= λ (p1 : Bytes).
                ec_scalar_mul_point lib b point >>= λ (p2 : Bytes). ec_point_add lib p1 p2)
              e1
            ∙ ap (λ (x : Result Bytes). x >>= λ (p2 : Bytes). ec_point_add lib p1 p2) e2)
          (ec_point_add-Gives lib g (a * s_base) (b * s_commit) p1 p2 m1 m2 r)

    derive_privkey_lem :
        derive_revocation_privkey lib base_secret commit_secret
        ≡ ok (int_to_bytes 32 (revocation_scalar lib s_base s_commit base_pub point))
    unfolding derive_revocation_privkey
    derive_privkey_lem = rw (based, committed) refl

-- Whoever holds both secrets holds the key of the revocation output. Where the library computes in the
-- group of the generator and no scalar on the way is a multiple of its order: for the points of a base
-- secret and of a commitment secret, the private key that the secrets give has the public key that the
-- two points give.
pub derive_revocation_key_pair :
    (lib : CurveLibrary)
    → IsGroup lib
    → (base_secret commit_secret base_pub point : Bytes)
    → let s_base = int_from_bytes (take 32 base_secret) % secp256k1_order in
      let s_commit = int_from_bytes (take 32 commit_secret) % secp256k1_order in
      ec_point_mul lib s_base ≡ ok base_pub
      → ec_point_mul lib s_commit ≡ ok point
      → hash_scalar lib (base_pub ++ point) * s_base % secp256k1_order ≢ 0
      → hash_scalar lib (point ++ base_pub) * s_commit % secp256k1_order ≢ 0
      → revocation_scalar lib s_base s_commit base_pub point ≢ 0
      → (key : Bytes) × (pubkey : Bytes) × (derive_revocation_privkey lib base_secret commit_secret
          ≡ ok key)
        × (derive_revocation_pubkey lib base_pub point ≡ ok pubkey)
        × (ec_point_mul lib (int_from_bytes key) ≡ ok pubkey)
unfolding revocation_scalar
derive_revocation_key_pair lib g base_secret commit_secret base_pub point based committed p q r =
    let s1 = int_from_bytes (take 32 base_secret) % secp256k1_order in
    let s2 = int_from_bytes (take 32 commit_secret) % secp256k1_order in
    let sum = hash_scalar lib (base_pub ++ point) * s1 + hash_scalar lib (point ++ base_pub) * s2 in
    let (pubkey, e, m) =
      derive_pubkey-Gives lib g base_secret commit_secret base_pub point based committed p q r in
    (
      int_to_bytes 32 (sum % secp256k1_order),
      pubkey,
      derive_privkey_lem lib g base_secret commit_secret base_pub point based committed p q r,
      e,
      ap (ec_point_mul lib) (int_from_bytes-scalar sum)
          ∙ ec_point_mul-eq lib g sum (sum % secp256k1_order) pubkey (omega arith) r m,
    )
