-- ===== src/Bitcoin/Curve.antt =====
-- src/payment_communities/bitcoin/utils.py: points of secp256k1 as compressed bytes, and the keys
-- of revocable outputs. The arithmetic of points is the ecdsa library's.
pub mod Multiples
pub mod Revocation
pub mod Tests
use unito_blockchain_25_26_p.Base.{ℕ, ◌+◌, ◌-◌, ◌*◌, ◌%◌, nat_beq, if◌then◌else◌, Bytes, ◌++◌}
use unito_blockchain_25_26_p.Base.Lists.{take}
use unito_blockchain_25_26_p.Config.{secp256k1_order}
use unito_blockchain_25_26_p.Errors.{Result, ok, ◌>>=◌}
use unito_blockchain_25_26_p.Bitcoin.Integers.{int_from_bytes, int_to_bytes}

-- What the code takes from ecdsa and hashlib. The point at infinity has no compressed form, and bytes
-- that encode no point of the curve are refused: both raise.
pub record CurveLibrary : Type 1 where
  pub Point : Type 0
  pub generator : Point
  pub multiply : ℕ → Point → Point
  pub add : Point → Point → Point
  pub to_bytes : Point → Result Bytes
  pub from_bytes : Bytes → Result Point
  pub sha256 : Bytes → Bytes

-- `scalar % N`, with 1 in place of 0.
unfoldable pub scalar_norm : ℕ → ℕ
scalar_norm scalar = if nat_beq (scalar % secp256k1_order) 0 then 1 else scalar % secp256k1_order

module _ (lib : CurveLibrary) where
  unfoldable pub ec_point_mul : ℕ → Result Bytes
  unfolding scalar_norm
  ec_point_mul scalar = lib.to_bytes (lib.multiply (scalar_norm scalar) lib.generator)

  unfoldable pub ec_point_add : Bytes → Bytes → Result Bytes
  ec_point_add pubkey1 pubkey2 = do
    p1 ← lib.from_bytes pubkey1
    p2 ← lib.from_bytes pubkey2
    lib.to_bytes (lib.add p1 p2)

  unfoldable pub ec_scalar_mul_point : ℕ → Bytes → Result Bytes
  unfolding scalar_norm
  ec_scalar_mul_point scalar pubkey = do
    point ← lib.from_bytes pubkey
    lib.to_bytes (lib.multiply (scalar_norm scalar) point)

  unfoldable pub ec_point_neg : Bytes → Result Bytes
  unfolding ec_scalar_mul_point
  ec_point_neg pubkey = ec_scalar_mul_point (secp256k1_order - 1) pubkey

  unfoldable pub ec_point_sub : Bytes → Bytes → Result Bytes
  unfolding ec_point_neg ec_point_add
  ec_point_sub pubkey1 pubkey2 = do neg_p2 ← ec_point_neg pubkey2; ec_point_add pubkey1 neg_p2

  -- `int.from_bytes(sha256(data), "big") % N`
  unfoldable pub hash_scalar : Bytes → ℕ
  hash_scalar message = int_from_bytes (lib.sha256 message) % secp256k1_order

  unfoldable pub derive_revocation_pubkey : Bytes → Bytes → Result Bytes
  unfolding hash_scalar ec_scalar_mul_point ec_point_add
  derive_revocation_pubkey base_pubkey per_commitment_point = do
    p1 ← ec_scalar_mul_point (hash_scalar (base_pubkey ++ per_commitment_point)) base_pubkey
    p2 ←
        ec_scalar_mul_point (hash_scalar (per_commitment_point ++ base_pubkey)) per_commitment_point
    ec_point_add p1 p2

  -- The scalar that the last two lines of `derive_revocation_privkey` compute.
  unfoldable pub revocation_scalar : ℕ → ℕ → Bytes → Bytes → ℕ
  unfolding hash_scalar
  revocation_scalar s_base s_commit base_pub commit_point =
      (hash_scalar (base_pub ++ commit_point) * s_base
        + hash_scalar (commit_point ++ base_pub) * s_commit)
      % secp256k1_order

  unfoldable pub derive_revocation_privkey : Bytes → Bytes → Result Bytes
  unfolding ec_point_mul revocation_scalar
  derive_revocation_privkey base_secret per_commitment_secret = do
    let s_base = int_from_bytes (take 32 base_secret) % secp256k1_order
    let s_commit = int_from_bytes (take 32 per_commitment_secret) % secp256k1_order
    base_pub ← ec_point_mul s_base
    commit_point ← ec_point_mul s_commit
    ok (int_to_bytes 32 (revocation_scalar s_base s_commit base_pub commit_point))
