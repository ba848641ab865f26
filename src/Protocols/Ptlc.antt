-- ===== src/Protocols/Ptlc.antt =====
-- src/payment_communities/protocols/ptlc.py: adaptor signatures. An `AdaptorSignature` holds bytes
-- where the code holds their hex digits; a number that is given as a secret or a signature is a
-- natural one.
pub mod Equations
pub mod Adaptor
pub mod Settlement
pub mod Taproot
pub mod Bip340
mod Tests
pub use unito_blockchain_25_26_p.Bitcoin.Scalars.{ScalarInput, of_bytes, of_int}
unfoldable pub use unito_blockchain_25_26_p.Bitcoin.Scalars.{secret_scalar}
use unito_blockchain_25_26_p.Base.{
  ℕ, ◌+◌, ◌-◌, ◌*◌, ◌%◌, nat_beq, if◌then◌else◌, Bool, false, Option, none, some, Bytes, bytes_beq,
  ◌++◌,
}
use unito_blockchain_25_26_p.Base.Lists.{take}
use unito_blockchain_25_26_p.Config.{secp256k1_order}
use unito_blockchain_25_26_p.Errors.{Result, ok, err, type_error, ◌>>=◌}
use unito_blockchain_25_26_p.Bitcoin.Integers.{int_from_bytes, int_to_bytes}
use unito_blockchain_25_26_p.Bitcoin.Curve.{
  CurveLibrary, ec_point_mul, ec_point_add, ec_point_sub, ec_scalar_mul_point, hash_scalar,
}

pub record AdaptorSignature : Type 0 where
  pub r_prime : Bytes
  pub s_prime_bytes : Bytes
  pub payment_point : Bytes

unfoldable pub s_prime : AdaptorSignature → ℕ
s_prime sig = int_from_bytes sig.s_prime_bytes

-- `priv_bytes`
unfoldable pub private_bytes : ScalarInput → Bytes
private_bytes (of_int n) = int_to_bytes 32 (n % secp256k1_order)
private_bytes (of_bytes bytes) = take 32 bytes

-- `except Exception: return False`
abbrev pub or_false : Result Bool → Bool
or_false (ok answer) = answer
or_false (err raised) = false

abbrev pub given_or_own : Option Bytes → AdaptorSignature → Bytes
given_or_own none sig = sig.payment_point
given_or_own (some point) sig = point

-- `final_signature` as a scalar; all its bytes count.
unfoldable pub final_scalar : ScalarInput → ℕ
final_scalar (of_int n) = n % secp256k1_order
final_scalar (of_bytes bytes) = int_from_bytes bytes % secp256k1_order

module _ (lib : CurveLibrary) where
  -- `k_secret`: the hash of the key, the message and the payment point, with 1 in place of 0.
  unfoldable pub nonce : ScalarInput → Bytes → Bytes → ℕ
  unfolding hash_scalar private_bytes
  nonce private_key payment_point msg_hash =
      let k = hash_scalar lib (private_bytes private_key ++ (msg_hash ++ payment_point)) in
      if nat_beq k 0 then 1 else k

  -- `e`, of the adaptor point, the public key and the message.
  unfoldable pub challenge : Bytes → Bytes → Bytes → ℕ
  unfolding hash_scalar
  challenge r pubkey msg_hash = hash_scalar lib (r ++ (pubkey ++ msg_hash))

  unfoldable pub create_adaptor_signature : ScalarInput → Bytes → Bytes → Result AdaptorSignature
  unfolding secret_scalar nonce challenge ec_point_mul ec_point_add
  create_adaptor_signature private_key payment_point msg_hash = do
    p_pub ← ec_point_mul lib (secret_scalar private_key)
    let k = nonce private_key payment_point msg_hash
    r_point ← ec_point_mul lib k
    r_prime_point ← ec_point_add lib r_point payment_point
    let e = challenge r_prime_point p_pub msg_hash
    ok (record {
      r_prime = r_prime_point;
      s_prime_bytes = int_to_bytes 32 ((k + e * secret_scalar private_key) % secp256k1_order);
      payment_point = payment_point;
    })

  -- `s' * G == (R' - T) + e * P`
  unfoldable pub adaptor_check : ℕ → Bytes → Bytes → ℕ → Bytes → Result Bool
  unfolding ec_point_mul ec_point_sub ec_scalar_mul_point ec_point_add
  adaptor_check s r t e pubkey = do
    s_prime_g ← ec_point_mul lib s
    r_point ← ec_point_sub lib r t
    e_p ← ec_scalar_mul_point lib e pubkey
    expected_point ← ec_point_add lib r_point e_p
    ok (bytes_beq s_prime_g expected_point)

  unfoldable pub verify_adaptor_signature : AdaptorSignature → Bytes → Bytes → Option Bytes → Bool
  unfolding adaptor_check challenge s_prime
  verify_adaptor_signature sig pubkey msg_hash payment_point = or_false (
      adaptor_check (s_prime sig) sig.r_prime (given_or_own payment_point sig)
        (challenge sig.r_prime pubkey msg_hash) pubkey)

  -- `s * G == R' + e * P`
  unfoldable pub schnorr_check : ℕ → Bytes → ℕ → Bytes → Result Bool
  unfolding ec_point_mul ec_scalar_mul_point ec_point_add
  schnorr_check s r e pubkey = do
    s_g ← ec_point_mul lib s
    e_p ← ec_scalar_mul_point lib e pubkey
    expected ← ec_point_add lib r e_p
    ok (bytes_beq s_g expected)

  unfoldable pub verify_schnorr_signature : Bytes → Bytes → Bytes → ScalarInput → Bool
  unfolding schnorr_check challenge final_scalar
  verify_schnorr_signature pubkey msg_hash r_point final_signature = or_false (
      schnorr_check (final_scalar final_signature) r_point (challenge r_point pubkey msg_hash)
        pubkey)

unfoldable pub adapt_signature : AdaptorSignature → ScalarInput → Bytes
unfolding s_prime secret_scalar
adapt_signature sig secret =
    int_to_bytes 32 ((s_prime sig + secret_scalar secret) % secp256k1_order)

-- What `extract_adaptor_secret` takes in either place.
pub data SignatureInput : Type 0 where
  adaptor : AdaptorSignature → SignatureInput
  scalar : ScalarInput → SignatureInput

-- A number as it is, or the number of the first 32 bytes.
unfoldable pub raw_scalar : ScalarInput → ℕ
raw_scalar (of_int n) = n
raw_scalar (of_bytes bytes) = int_from_bytes (take 32 bytes)

-- `(s - s_prime) % N`, where Python's difference may be negative.
unfoldable pub scalar_difference : ℕ → ℕ → ℕ
scalar_difference s s' = (s + secp256k1_order - s' % secp256k1_order) % secp256k1_order

unfoldable pub extract_adaptor_secret : SignatureInput → Option SignatureInput → Result Bytes
unfolding s_prime raw_scalar scalar_difference
extract_adaptor_secret (adaptor sig) (some (scalar s)) =
    ok (int_to_bytes 32 (scalar_difference (raw_scalar s) (s_prime sig)))
extract_adaptor_secret (adaptor sig) (some (adaptor other)) = err type_error
extract_adaptor_secret (adaptor sig) none = err type_error
extract_adaptor_secret (scalar s) (some (scalar s')) =
    ok (int_to_bytes 32 (scalar_difference (raw_scalar s) (raw_scalar s')))
extract_adaptor_secret (scalar s) (some (adaptor sig)) =
    ok (int_to_bytes 32 (scalar_difference (raw_scalar s) (s_prime sig)))
extract_adaptor_secret (scalar s) none = err type_error
