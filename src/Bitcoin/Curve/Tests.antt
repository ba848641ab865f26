-- ===== src/Bitcoin/Curve/Tests.antt =====
-- bitcoin/utils.py: the theorem on keys over a toy group of the curve's order.
use unito_blockchain_25_26_p.Base.{
  ℕ, ◌+◌, ◌*◌, ◌%◌, ◌≡◌, ◌≢◌, refl, [], ◌∷◌, Bytes, nat_beq, if◌then◌else◌, arith, ap, ◌∙◌,
}
use unito_blockchain_25_26_p.Config.{secp256k1_order}
use unito_blockchain_25_26_p.Errors.{Result, ok, err, library_error, value_error}
use unito_blockchain_25_26_p.Bitcoin.Integers.{mul_mod, int_from_bytes}
use unito_blockchain_25_26_p.Bitcoin.Curve.{
  CurveLibrary, ec_point_mul, derive_revocation_pubkey, derive_revocation_privkey, hash_scalar,
  revocation_scalar,
}
use unito_blockchain_25_26_p.Bitcoin.Curve.Multiples.{IsGroup}
use unito_blockchain_25_26_p.Bitcoin.Curve.Revocation.{derive_revocation_key_pair}

abbrev read_point : Bytes → Result ℕ
read_point [] = err value_error
read_point (x ∷ bytes) = ok x

-- The residues modulo the order, with 1 as the generator; each digest is 5.
abbrev pub toy_curve : CurveLibrary
toy_curve = record {
  Point = ℕ;
  generator = 1;
  multiply = λ k p. k * p % secp256k1_order;
  add = λ p q. (p + q) % secp256k1_order;
  to_bytes = λ p. if nat_beq p 0 then err library_error else ok (p ∷ []);
  from_bytes = read_point;
  sha256 = λ bytes. 5 ∷ [];
}

toy_product :
    (k a : ℕ) → k * (a * 1 % secp256k1_order) % secp256k1_order ≡ k * a * 1 % secp256k1_order
toy_product k a =
    mul_mod k (a * 1) secp256k1_order ∙ ap (λ (t : ℕ). t % secp256k1_order) (grind arith)

toy_compressed :
    (a : ℕ)
    → a % secp256k1_order ≢ 0
    → (b : Bytes) × (toy_curve.to_bytes (a * 1 % secp256k1_order) ≡ ok b)
      × (read_point b ≡ ok (a * 1 % secp256k1_order))
toy_compressed a h = (a * 1 % secp256k1_order ∷ [], ground arith, refl)

pub toy_curve-IsGroup : IsGroup toy_curve
toy_curve-IsGroup = record {
  sum = λ a b. omega arith;
  product = toy_product;
  period = λ a. omega arith;
  compressed = toy_compressed;
}

derive_revocation_key_pair_example :
    (key : Bytes) × (pubkey : Bytes) × (derive_revocation_privkey toy_curve (3 ∷ []) (4 ∷ [])
      ≡ ok key)
    × (derive_revocation_pubkey toy_curve (3 ∷ []) (4 ∷ []) ≡ ok pubkey)
    × (ec_point_mul toy_curve (int_from_bytes key) ≡ ok pubkey)
unfolding ec_point_mul int_from_bytes hash_scalar revocation_scalar
derive_revocation_key_pair_example =
    derive_revocation_key_pair toy_curve toy_curve-IsGroup (3 ∷ []) (4 ∷ []) (3 ∷ []) (4 ∷ []) refl
      refl (omega arith) (omega arith) (omega arith)
