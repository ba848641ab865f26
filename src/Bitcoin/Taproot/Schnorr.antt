-- ===== src/Bitcoin/Taproot/Schnorr.antt =====
-- src/payment_communities/bitcoin/taproot.py: `schnorr_sign`.
pub mod Points
pub mod Signing
use Prim.Native.Nat.{bit_xor}
use unito_blockchain_25_26_p.Base.{
  Bytes, Option, [], if◌then◌else◌, nat_beq, none, some, ℕ, ◌%◌, ◌*◌, ◌++◌, ◌+◌, ◌∷◌,
}
use unito_blockchain_25_26_p.Bitcoin.Integers.{int_to_bytes}
use unito_blockchain_25_26_p.Bitcoin.Scalars.{ScalarInput, secret_scalar}
use unito_blockchain_25_26_p.Bitcoin.Tagged.{tagged_hash}
use unito_blockchain_25_26_p.Bitcoin.Taproot.{TaprootLibrary, even_scalar, tagged_scalar}
use unito_blockchain_25_26_p.Config.{secp256k1_order}
use unito_blockchain_25_26_p.Errors.{Result, err, ok, runtime_error, value_error, ◌>>=◌}

-- `bytes(a ^ b for a, b in zip(xs, ys))`
unfoldable pub xor_bytes : Bytes → Bytes → Bytes
xor_bytes [] ys = []
xor_bytes (x ∷ xs) [] = []
xor_bytes (x ∷ xs) (y ∷ ys) = bit_xor x y ∷ xor_bytes xs ys

-- `aux_rand or secrets.token_bytes(32)`
abbrev pub or_drawn : Option Bytes → Bytes → Bytes
or_drawn none drawn = drawn
or_drawn (some []) drawn = drawn
or_drawn (some (b ∷ bytes)) drawn = b ∷ bytes

module _ (lib : TaprootLibrary) where
  -- What follows the nonce.
  unfoldable pub sign_with_nonce : (k0 d : ℕ) → (p_x msg : Bytes) → Result Bytes
  sign_with_nonce k0 d p_x msg = do
    k ← even_scalar lib k0
    r_x ← lib.x_of (lib.curve.multiply k0 lib.curve.generator)
    let e = tagged_scalar lib "BIP0340/challenge" (int_to_bytes 32 r_x ++ (p_x ++ msg))
    ok (int_to_bytes 32 r_x ++ int_to_bytes 32 ((k + e * d) % secp256k1_order))

  -- `drawn` is the random 32 bytes.
  unfoldable pub schnorr_sign : ScalarInput → Bytes → Option Bytes → (drawn : Bytes) → Result Bytes
  schnorr_sign private_key msg aux_rand drawn =
      let d0 = secret_scalar private_key in
      if nat_beq d0 0 then err value_error else (do
        d ← even_scalar lib d0
        p_x ← lib.x_of (lib.curve.multiply d0 lib.curve.generator)
        let t =
            xor_bytes (int_to_bytes 32 d)
              (tagged_hash lib.curve.sha256 "BIP0340/aux" (or_drawn aux_rand drawn))
        let k0 = tagged_scalar lib "BIP0340/nonce" (t ++ (int_to_bytes 32 p_x ++ msg))
        (if nat_beq k0 0
            then err runtime_error
            else sign_with_nonce k0 d (int_to_bytes 32 p_x) msg))
