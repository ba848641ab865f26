-- ===== src/Protocols/Ptlc/Bip340/Tests.antt =====
-- protocols/ptlc.py: the theorems on BIP 340 adaptor signatures over a toy group.
use unito_blockchain_25_26_p.Base.{
  Bytes, [], ap, arith, if◌then◌else◌, nat_beq, none, refl, some, true, ℕ, ◌%◌, ◌*◌, ◌∷◌, ◌≡◌, ◌≢◌,
}
use unito_blockchain_25_26_p.Base.Cuts.{drop}
use unito_blockchain_25_26_p.Bitcoin.Curve.{CurveLibrary, ec_point_add, ec_point_mul, scalar_norm}
use unito_blockchain_25_26_p.Bitcoin.Curve.Multiples.{IsGroup}
use unito_blockchain_25_26_p.Bitcoin.Curve.Tests.{toy_curve, toy_curve-IsGroup}
use unito_blockchain_25_26_p.Bitcoin.Integers.{
  int_from_bytes, int_from_bytes-int_to_bytes, int_to_bytes,
}
use unito_blockchain_25_26_p.Config.{secp256k1_order}
use unito_blockchain_25_26_p.Errors.{err, library_error, ok}
use unito_blockchain_25_26_p.Protocols.Ptlc.{
  AdaptorSignature, nonce, of_int, s_prime, secret_scalar,
}
use unito_blockchain_25_26_p.Protocols.Ptlc.Bip340.{
  bip340_challenge, create_bip340_adaptor_signature, verify_bip340_adaptor_signature,
}
use unito_blockchain_25_26_p.Protocols.Ptlc.Bip340.Verifies.{verify-create_bip340_adaptor_signature}
use unito_blockchain_25_26_p.Bitcoin.Tagged.{tagged_hash}

-- The toy group with points of 33 bytes.
abbrev wide_curve : CurveLibrary
wide_curve = record toy_curve {
  to_bytes = λ p. if nat_beq p 0 then err library_error else ok (2 ∷ int_to_bytes 32 p);
  from_bytes = λ bytes. ok (int_from_bytes (drop 1 bytes));
}

wide_compressed :
    (a : ℕ)
    → a % secp256k1_order ≢ 0
    → (b : Bytes) × (wide_curve.to_bytes (a * 1 % secp256k1_order) ≡ ok b)
      × (wide_curve.from_bytes b ≡ ok (a * 1 % secp256k1_order))
wide_compressed a h = (
  2 ∷ int_to_bytes 32 (a * 1 % secp256k1_order),
  ground arith,
  ap (λ (n : ℕ). ok n) (int_from_bytes-int_to_bytes 32 (a * 1 % secp256k1_order) (omega arith)),
)

wide_curve-IsGroup : IsGroup wide_curve
wide_curve-IsGroup = record {
  sum = toy_curve-IsGroup.sum;
  product = toy_curve-IsGroup.product;
  period = toy_curve-IsGroup.period;
  compressed = wide_compressed;
}

abbrev point_of : ℕ → Bytes
point_of n = 2 ∷ int_to_bytes 32 n

abbrev sig : AdaptorSignature
sig = record {
  r_prime = point_of 12;
  s_prime_bytes = int_to_bytes 32 20;
  payment_point = point_of 7;
}

made : create_bip340_adaptor_signature wide_curve (of_int 3) (point_of 7) [] ≡ ok sig
unfolding create_bip340_adaptor_signature int_from_bytes int_to_bytes nonce ec_point_mul
    ec_point_add bip340_challenge secret_scalar scalar_norm tagged_hash
made = refl

verify-create_bip340_adaptor_signature_example :
    (verify_bip340_adaptor_signature wide_curve sig (point_of 3) [] none ≡ true)
    × (verify_bip340_adaptor_signature wide_curve sig (point_of 3) [] (some (point_of 7)) ≡ true)
unfolding tagged_hash ec_point_mul secret_scalar bip340_challenge nonce s_prime int_from_bytes
    int_to_bytes
verify-create_bip340_adaptor_signature_example =
    verify-create_bip340_adaptor_signature wide_curve wide_curve-IsGroup (of_int 3) 7 (point_of 7)
      (point_of 3) [] sig refl refl refl made (omega arith) (omega arith) (omega arith)
      (omega arith)
