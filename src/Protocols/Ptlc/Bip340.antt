-- ===== src/Protocols/Ptlc/Bip340.antt =====
-- src/payment_communities/protocols/ptlc.py: the adaptor signatures with the challenge of BIP 340.
pub mod Verifies
mod Tests
use unito_blockchain_25_26_p.Base.{
  Bool, Bytes, Option, if◌then◌else◌, nat_beq, ℕ, ◌%◌, ◌*◌, ◌++◌, ◌+◌, ◌∷◌,
}
use unito_blockchain_25_26_p.Base.Cuts.{drop}
use unito_blockchain_25_26_p.Base.Lists.{length, take}
use unito_blockchain_25_26_p.Bitcoin.Curve.{CurveLibrary, ec_point_add, ec_point_mul}
use unito_blockchain_25_26_p.Bitcoin.Integers.{int_from_bytes, int_to_bytes}
use unito_blockchain_25_26_p.Bitcoin.Tagged.{tagged_hash}
use unito_blockchain_25_26_p.Config.{secp256k1_order}
use unito_blockchain_25_26_p.Errors.{Result, ok, ◌>>=◌}
use unito_blockchain_25_26_p.Protocols.Ptlc.{
  AdaptorSignature, ScalarInput, adaptor_check, given_or_own, nonce, or_false, s_prime,
  secret_scalar,
}

-- `point[1:33]`
abbrev pub x_bytes : Bytes → Bytes
x_bytes point = take 32 (drop 1 point)

-- `P_x`
abbrev pub pubkey_x : Bytes → Bytes
pubkey_x pubkey = if nat_beq (length pubkey) 33 then x_bytes pubkey else take 32 pubkey

-- `P_comp`
abbrev pub compressed_pubkey : Bytes → Bytes
compressed_pubkey pubkey =
    if nat_beq (length pubkey) 33
    then pubkey
    else if nat_beq (length pubkey) 32
    then 2 ∷ pubkey
    else pubkey

unfoldable pub adapt_bip340_signature : AdaptorSignature → ScalarInput → Bytes
adapt_bip340_signature sig secret =
    let s = (s_prime sig + secret_scalar secret) % secp256k1_order in
    x_bytes sig.r_prime ++ int_to_bytes 32 s

module _ (lib : CurveLibrary) where
  unfoldable pub bip340_challenge : (r_x p_x msg_hash : Bytes) → ℕ
  bip340_challenge r_x p_x msg_hash =
      int_from_bytes (tagged_hash lib.sha256 "BIP0340/challenge" (r_x ++ (p_x ++ msg_hash)))
      % secp256k1_order

  unfoldable pub create_bip340_adaptor_signature :
      ScalarInput → Bytes → Bytes → Result AdaptorSignature
  create_bip340_adaptor_signature private_key payment_point msg_hash = do
    p_pub ← ec_point_mul lib (secret_scalar private_key)
    let k = nonce lib private_key payment_point msg_hash
    r_point ← ec_point_mul lib k
    r_prime_point ← ec_point_add lib r_point payment_point
    let e = bip340_challenge (x_bytes r_prime_point) (x_bytes p_pub) msg_hash
    ok (record {
      r_prime = r_prime_point;
      s_prime_bytes = int_to_bytes 32 ((k + e * secret_scalar private_key) % secp256k1_order);
      payment_point = payment_point;
    })

  unfoldable pub verify_bip340_adaptor_signature :
      AdaptorSignature → Bytes → Bytes → Option Bytes → Bool
  verify_bip340_adaptor_signature sig pubkey msg_hash payment_point = or_false (
      adaptor_check lib (s_prime sig) sig.r_prime (given_or_own payment_point sig)
        (bip340_challenge (x_bytes sig.r_prime) (pubkey_x pubkey) msg_hash)
        (compressed_pubkey pubkey))
