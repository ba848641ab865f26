-- ===== src/Bitcoin/Taproot/Tweak.antt =====
-- taproot.py: the tweaked secret key is the one of the tweaked public key.
use unito_blockchain_25_26_p.Base.{
  Bytes, Option, arith, false, refl, some, sym, ℕ, ◌%◌, ◌++◌, ◌+◌, ◌∙◌, ◌≡◌, ◌≢◌, Bool, ap,
}
use unito_blockchain_25_26_p.Base.Lists.{take}
use unito_blockchain_25_26_p.Bitcoin.Curve.Multiples.{IsGroup}
use unito_blockchain_25_26_p.Bitcoin.Integers.{int_from_bytes, int_to_bytes, length-int_to_bytes}
use unito_blockchain_25_26_p.Bitcoin.Taproot.{
  TaprootLibrary, even_scalar, lift_x, pubkey_to_x_only, root_bytes, tagged_scalar,
  taproot_tweak_pubkey, taproot_tweak_seckey, tweak_x_only,
}
use unito_blockchain_25_26_p.Bitcoin.Taproot.Schnorr.Points.{HasCoordinates}
use unito_blockchain_25_26_p.Config.{secp256k1_order}
use unito_blockchain_25_26_p.Errors.{ok, Result, ◌>>=◌}

pubkey_to_x_only_lem :
    (x : ℕ) → pubkey_to_x_only (int_to_bytes 32 x) ≡ ok (int_to_bytes 32 x, false)
unfolding pubkey_to_x_only
pubkey_to_x_only_lem x = rw (length-int_to_bytes 32 x) refl

module _ (lib : TaprootLibrary) (g : IsGroup lib.curve) (c : HasCoordinates lib) where
  tweaked_lem :
      (px : ℕ) (root : Option Bytes) (point q : lib.curve.Point) (x y : ℕ)
      → lift_x lib (int_to_bytes 32 px) ≡ some point
      → lib.curve.add point (
          lib.curve.multiply
            (tagged_scalar lib "TapTweak" (int_to_bytes 32 px ++ root_bytes root))
            lib.curve.generator)
        ≡ q
      → lib.x_of q ≡ ok x
      → lib.y_of q ≡ ok y
      → taproot_tweak_pubkey lib (int_to_bytes 32 px) root ≡ ok (int_to_bytes 32 x, y % 2)
  unfolding taproot_tweak_pubkey tweak_x_only
  tweaked_lem px root point q x y lifts sum x_is y_is =
      let found : tweak_x_only lib (int_to_bytes 32 px) root ≡ ok (int_to_bytes 32 x, y % 2) =
        ground (arith, lifts, sum, x_is, y_is) in
      ap (λ (call : Result (Bytes × Bool)). call >>= λ key. tweak_x_only lib key.0 root)
        (pubkey_to_x_only_lem px)
      ∙ found

  pub taproot_tweak_key_pair :
      (seckey : Bytes) (root : Option Bytes) (d px : ℕ)
      → let d0 = int_from_bytes (take 32 seckey) % secp256k1_order in
        let t = tagged_scalar lib "TapTweak" (int_to_bytes 32 px ++ root_bytes root) in
        even_scalar lib d0 ≡ ok d
        → lib.x_of (lib.curve.multiply d0 lib.curve.generator) ≡ ok px
        → lift_x lib (int_to_bytes 32 px) ≡ some (lib.curve.multiply d lib.curve.generator)
        → (d + t) % secp256k1_order ≢ 0
        → (q : ℕ) × (x : ℕ) × (y : ℕ) × (taproot_tweak_seckey lib seckey root
            ≡ ok (int_to_bytes 32 q))
          × (lib.x_of (lib.curve.multiply q lib.curve.generator) ≡ ok x)
          × (lib.y_of (lib.curve.multiply q lib.curve.generator) ≡ ok y)
          × (taproot_tweak_pubkey lib (int_to_bytes 32 px) root ≡ ok (int_to_bytes 32 x, y % 2))
  unfolding taproot_tweak_seckey
  taproot_tweak_key_pair seckey root d px evened xs lifts nonzero =
      let t = tagged_scalar lib "TapTweak" (int_to_bytes 32 px ++ root_bytes root) in
      let q = (d + t) % secp256k1_order in
      let (x, y, x_is, y_is, _) = c.coordinates q (λ z. nonzero (omega (arith, z))) in
      let sum : lib.curve.add (lib.curve.multiply d lib.curve.generator)
            (lib.curve.multiply t lib.curve.generator)
          ≡ lib.curve.multiply q lib.curve.generator =
        g.sum d t ∙ sym (g.period (d + t)) in
      (
        q,
        x,
        y,
        rw (evened, xs) refl,
        x_is,
        y_is,
        tweaked_lem px root (lib.curve.multiply d lib.curve.generator)
            (lib.curve.multiply q lib.curve.generator) x y lifts sum x_is y_is,
      )
