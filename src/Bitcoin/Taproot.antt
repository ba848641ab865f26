-- ===== src/Bitcoin/Taproot.antt =====
-- src/payment_communities/bitcoin/taproot.py: points by their x coordinate, Schnorr signatures, and the
-- keys and leaves of Taproot outputs.
pub mod Power
pub mod Program
pub mod Merkle
pub mod Spending
pub mod Schnorr
pub mod Tweak
pub mod Tests
use mathlib.Core.List.{reverse}
use unito_blockchain_25_26_p.Base.{
  Bool, Bytes, Option, String, [], false, if◌then◌else◌, leb, ltb, nat_beq, none, not, some, ℕ, ◌%◌,
  ◌&&◌, ◌++◌, ◌+◌, ◌-◌, ◌/◌, ◌||◌, ◌∷◌,
}
use unito_blockchain_25_26_p.Base.Cuts.{drop}
use unito_blockchain_25_26_p.Base.Lists.{length, take}
use unito_blockchain_25_26_p.Bitcoin.Curve.{CurveLibrary}
use unito_blockchain_25_26_p.Bitcoin.Integers.{int_from_bytes, int_to_bytes}
use unito_blockchain_25_26_p.Bitcoin.Tagged.{tagged_hash}
use unito_blockchain_25_26_p.Bitcoin.Taproot.Power.{pow_mod, secp256k1_field_p}
use unito_blockchain_25_26_p.Config.{secp256k1_order}
use unito_blockchain_25_26_p.Errors.{Result, err, ok, value_error, ◌>>=◌}

-- What the code takes from ecdsa besides the operations on points: a point by its coordinates, and
-- `int` of a coordinate, which raises at infinity.
pub record TaprootLibrary : Type 1 where
  pub curve : CurveLibrary
  pub point : ℕ → ℕ → curve.Point
  pub negate : curve.Point → curve.Point
  pub is_infinity : curve.Point → Bool
  pub x_of : curve.Point → Result ℕ
  pub y_of : curve.Point → Result ℕ

abbrev pub is_odd : ℕ → Bool
is_odd n = nat_beq (n % 2) 1

unfoldable pub pubkey_to_x_only : Bytes → Result (Bytes × Bool)
pubkey_to_x_only pubkey =
    if nat_beq (length pubkey) 32
    then ok (pubkey, false)
    else if nat_beq (length pubkey) 33
    then ok (drop 1 pubkey, elim pubkey [ [] ↦ false | prefix ∷ _ ↦ nat_beq prefix 3 ])
    else err value_error

-- `bytes([leaf_version]) + len_bytes + script_bytes`
unfoldable pub tapleaf_payload : Bytes → ℕ → Bytes
tapleaf_payload script leaf_version =
    let size = length script in
    let len_bytes =
      if ltb size 253
      then size ∷ []
      else if leb size 0xFFFF
      then 0xFD ∷ reverse (int_to_bytes 2 size)
      else 0xFE ∷ reverse (int_to_bytes 4 size) in
    leaf_version ∷ (len_bytes ++ script)

unfoldable pub tapleaf_hash : (sha256 : Bytes → Bytes) → Bytes → ℕ → Bytes
unfolding tagged_hash tapleaf_payload
tapleaf_hash sha256 script leaf_version =
    tagged_hash sha256 "TapLeaf" (tapleaf_payload script leaf_version)

-- `merkle_root if merkle_root is not None else b""`
abbrev pub root_bytes : Option Bytes → Bytes
root_bytes none = []
root_bytes (some root) = root

module _ (lib : TaprootLibrary) where
  unfoldable pub point_from_x : ℕ → Option lib.curve.Point
  unfolding pow_mod
  point_from_x x =
      let p = secp256k1_field_p in
      let y_sq = (pow_mod x 3 p + 7) % p in
      let y = pow_mod y_sq ((p + 1) / 4) p in
      if leb p x
      then none
      else if nat_beq (pow_mod y 2 p) y_sq
      then some (lib.point x (if is_odd y then p - y else y))
      else none

  unfoldable pub lift_x : Bytes → Option lib.curve.Point
  unfolding point_from_x
  lift_x x_bytes =
      if nat_beq (length x_bytes) 32 then point_from_x (int_from_bytes x_bytes) else none

  -- `int.from_bytes(tagged_hash(tag, data), "big") % N`
  unfoldable pub tagged_scalar : String → Bytes → ℕ
  unfolding tagged_hash
  tagged_scalar tag message =
      int_from_bytes (tagged_hash lib.curve.sha256 tag message) % secp256k1_order

  -- `taproot_tweak_pubkey` after `pubkey_to_x_only`.
  unfoldable pub tweak_x_only : Bytes → Option Bytes → Result (Bytes × ℕ)
  tweak_x_only x_only merkle_root = elim (lift_x x_only) [
    | none ↦ err value_error
    | some point ↦ do
      let t = tagged_scalar "TapTweak" (x_only ++ root_bytes merkle_root)
      let q = lib.curve.add point (lib.curve.multiply t lib.curve.generator)
      q_x ← lib.x_of q
      q_y ← lib.y_of q
      ok (int_to_bytes 32 q_x, q_y % 2)
  ]

  unfoldable pub taproot_tweak_pubkey : Bytes → Option Bytes → Result (Bytes × ℕ)
  taproot_tweak_pubkey internal_pubkey merkle_root =
      pubkey_to_x_only internal_pubkey >>= λ key. tweak_x_only key.0 merkle_root

  -- The scalar of `secret`'s point, or of its negative, whichever has the even y coordinate.
  unfoldable pub even_scalar : ℕ → Result ℕ
  even_scalar d = do
    y ← lib.y_of (lib.curve.multiply d lib.curve.generator)
    ok (if is_odd y then secp256k1_order - d else d)

  unfoldable pub taproot_tweak_seckey : Bytes → Option Bytes → Result Bytes
  taproot_tweak_seckey internal_seckey merkle_root = do
    let d0 = int_from_bytes (take 32 internal_seckey) % secp256k1_order
    d ← even_scalar d0
    p_x ← lib.x_of (lib.curve.multiply d0 lib.curve.generator)
    let t = tagged_scalar "TapTweak" (int_to_bytes 32 p_x ++ root_bytes merkle_root)
    ok (int_to_bytes 32 ((d + t) % secp256k1_order))

  -- `s*G - e*P` against the x coordinate of the signature.
  unfoldable pub schnorr_point_check : ℕ → ℕ → lib.curve.Point → ℕ → Result Bool
  schnorr_point_check s e point r_x =
      let r =
        lib.curve.add (lib.curve.multiply s lib.curve.generator)
          (lib.negate (lib.curve.multiply e point)) in
      if lib.is_infinity r
      then ok false
      else (do y ← lib.y_of r; x ← lib.x_of r; ok (not (is_odd y) && nat_beq x r_x))

  unfoldable pub schnorr_verify : Bytes → Bytes → Bytes → Result Bool
  schnorr_verify pubkey msg sig =
      let x_only = if nat_beq (length pubkey) 33 then drop 1 pubkey else pubkey in
      let r_x = int_from_bytes (take 32 sig) in
      let s = int_from_bytes (drop 32 sig) in
      if not (nat_beq (length sig) 64 && nat_beq (length x_only) 32)
      then ok false
      else if leb secp256k1_field_p r_x || leb secp256k1_order s
      then ok false
      else elim (lift_x x_only) [
        | none ↦ ok false
        | some point ↦
            let e = tagged_scalar "BIP0340/challenge" (take 32 sig ++ (x_only ++ msg)) in
            schnorr_point_check s e point r_x
      ]
