-- ===== src/Bitcoin/Curve/Multiples.antt =====
-- bitcoin/utils.py: the functions on points compute with scalars modulo the order of the group.
use native.Mathlib.Nat.{mul_comm}
use unito_blockchain_25_26_p.Base.{ℕ, ◌+◌, ◌-◌, ◌*◌, ◌%◌, ◌≡◌, ◌≢◌, sym, ◌∙◌, ap, Bytes, arith}
use unito_blockchain_25_26_p.Config.{secp256k1_order}
use unito_blockchain_25_26_p.Errors.{Result, ok, ◌>>=◌}
use unito_blockchain_25_26_p.Bitcoin.Integers.{
  mod_mul, int_from_bytes, int_from_bytes-int_to_bytes, int_to_bytes,
}
use unito_blockchain_25_26_p.Bitcoin.Curve.{
  CurveLibrary, scalar_norm, ec_point_mul, ec_point_add, ec_scalar_mul_point, ec_point_sub,
}

-- What ecdsa documents of the generator: it spans a group of the given order, and every point but the
-- one at infinity has a compressed form that reads back.
pub record IsGroup (lib : CurveLibrary) : Type 0 where
  pub sum :
      (a b : ℕ)
      → lib.add (lib.multiply a lib.generator) (lib.multiply b lib.generator)
        ≡ lib.multiply (a + b) lib.generator
  pub product :
      (k a : ℕ) → lib.multiply k (lib.multiply a lib.generator) ≡ lib.multiply (k * a) lib.generator
  pub period :
      (a : ℕ) → lib.multiply (a % secp256k1_order) lib.generator ≡ lib.multiply a lib.generator
  pub compressed :
      (a : ℕ)
      → a % secp256k1_order ≢ 0
      → (b : Bytes) × (lib.to_bytes (lib.multiply a lib.generator) ≡ ok b)
        × (lib.from_bytes b ≡ ok (lib.multiply a lib.generator))

-- Bytes that stand for a multiple of the generator.
pub record IsMultiple (lib : CurveLibrary) (a : ℕ) (bytes : Bytes) : Type 0 where
  pub writes : lib.to_bytes (lib.multiply a lib.generator) ≡ ok bytes
  pub reads : lib.from_bytes bytes ≡ ok (lib.multiply a lib.generator)

-- A call that returns the bytes of a multiple of the generator.
abbrev pub Gives : CurveLibrary → Result Bytes → ℕ → Type 0
Gives lib call a = (b : Bytes) × (call ≡ ok b) × IsMultiple lib a b

module _ (lib : CurveLibrary) (g : IsGroup lib) where
  pub multiply-cong :
      (a b : ℕ)
      → a % secp256k1_order ≡ b % secp256k1_order
      → lib.multiply a lib.generator ≡ lib.multiply b lib.generator
  multiply-cong a b e =
      sym (g.period a) ∙ ap (λ (t : ℕ). lib.multiply t lib.generator) e ∙ g.period b

  pub IsMultiple-cong :
      (a b : ℕ) (bytes : Bytes)
      → a % secp256k1_order ≡ b % secp256k1_order
      → IsMultiple lib a bytes
      → IsMultiple lib b bytes
  IsMultiple-cong a b bytes e m = record {
    writes = rw (← multiply-cong a b e) m.writes;
    reads = rw (← multiply-cong a b e) m.reads;
  }

  pub IsMultiple-unique : (a : ℕ) (x y : Bytes) → IsMultiple lib a x → IsMultiple lib a y → x ≡ y
  IsMultiple-unique a x y m n = cc (m.writes, n.writes)

  compressed-Gives :
      (a : ℕ) → a % secp256k1_order ≢ 0 → Gives lib (lib.to_bytes (lib.multiply a lib.generator)) a
  compressed-Gives a h =
      let (b, w, r) = g.compressed a h in (b, w, record { writes = w; reads = r })

  pub Gives-cong :
      {call other : Result Bytes} (a : ℕ) → call ≡ other → Gives lib other a → Gives lib call a
  Gives-cong a e (b, h, m) = (b, e ∙ h, m)

  scalar_norm_lem : (s : ℕ) → s % secp256k1_order ≢ 0 → scalar_norm s ≡ s % secp256k1_order
  unfolding scalar_norm
  scalar_norm_lem s h = ground arith

  pub ec_point_mul-Gives : (s : ℕ) → s % secp256k1_order ≢ 0 → Gives lib (ec_point_mul lib s) s
  unfolding ec_point_mul
  ec_point_mul-Gives s h =
      Gives-cong s
        (ap (λ (t : ℕ). lib.to_bytes (lib.multiply t lib.generator)) (scalar_norm_lem s h)
          ∙ ap lib.to_bytes (g.period s))
        (compressed-Gives s h)

  pub ec_point_add-Gives :
      (a b : ℕ) (x y : Bytes)
      → IsMultiple lib a x
      → IsMultiple lib b y
      → (a + b) % secp256k1_order ≢ 0
      → Gives lib (ec_point_add lib x y) (a + b)
  unfolding ec_point_add
  ec_point_add-Gives a b x y m n h = rw (m.reads, n.reads, g.sum a b) (compressed-Gives (a + b) h)

  pub ec_scalar_mul_point-Gives :
      (k a : ℕ) (x : Bytes)
      → IsMultiple lib a x
      → k % secp256k1_order ≢ 0
      → k * a % secp256k1_order ≢ 0
      → Gives lib (ec_scalar_mul_point lib k x) (k * a)
  unfolding ec_scalar_mul_point
  ec_scalar_mul_point-Gives k a x m h p =
      Gives-cong (k * a)
        (ap
            (λ (q : Result lib.Point).
              q >>= λ (point : lib.Point). lib.to_bytes (lib.multiply (scalar_norm k) point))
            m.reads
          ∙ ap (λ (t : ℕ). lib.to_bytes (lib.multiply t (lib.multiply a lib.generator)))
              (scalar_norm_lem k h)
          ∙ ap lib.to_bytes
              (g.product (k % secp256k1_order) a ∙ multiply-cong _ _ (mod_mul k a secp256k1_order)))
        (compressed-Gives (k * a) p)

  -- Minus one is N - 1.
  pub ec_point_sub-Gives :
      (a b : ℕ) (x y : Bytes)
      → IsMultiple lib a x
      → IsMultiple lib b y
      → b % secp256k1_order ≢ 0
      → (a + (secp256k1_order - 1) * b) % secp256k1_order ≢ 0
      → Gives lib (ec_point_sub lib x y) (a + (secp256k1_order - 1) * b)
  unfolding ec_point_sub
  ec_point_sub-Gives a b x y m n h p =
      let (z, e, o) =
        ec_scalar_mul_point-Gives (secp256k1_order - 1) b y n (omega arith) (omega arith) in
      Gives-cong (a + (secp256k1_order - 1) * b)
        (ap (λ (q : Result Bytes). q >>= λ (neg : Bytes). ec_point_add lib x neg) e)
        (ec_point_add-Gives a ((secp256k1_order - 1) * b) x z m o p)

  -- A factor of a product that is not zero is not zero.
  pub product_ne_zero : (k a : ℕ) → k * a % secp256k1_order ≢ 0 → k % secp256k1_order ≢ 0
  product_ne_zero k a p z =
      p (
        sym (mod_mul k a secp256k1_order) ∙ ap (λ (t : ℕ). t * a % secp256k1_order) z ∙ omega arith)

  pub product_ne_zero_right : (k a : ℕ) → k * a % secp256k1_order ≢ 0 → a % secp256k1_order ≢ 0
  product_ne_zero_right k a p =
      product_ne_zero a k (λ z. p (ap (λ (t : ℕ). t % secp256k1_order) (mul_comm k a) ∙ z))

  pub ec_point_mul-IsMultiple :
      (s : ℕ) (x : Bytes) → s % secp256k1_order ≢ 0 → ec_point_mul lib s ≡ ok x → IsMultiple lib s x
  ec_point_mul-IsMultiple s x h e =
      let (y, f, m) = ec_point_mul-Gives s h in let same : y ≡ x = cc in rw (← same) m

  pub ec_point_mul-eq :
      (a s : ℕ) (x : Bytes)
      → s % secp256k1_order ≡ a % secp256k1_order
      → a % secp256k1_order ≢ 0
      → IsMultiple lib a x
      → ec_point_mul lib s ≡ ok x
  ec_point_mul-eq a s x e h m =
      let (y, f, n) = ec_point_mul-Gives s (λ z. h (sym e ∙ z)) in
      f ∙ ap ok (IsMultiple-unique a y x (IsMultiple-cong s a y e n) m)

-- A scalar below the order fits 32 bytes.
pub int_from_bytes-scalar :
    (a : ℕ) → int_from_bytes (int_to_bytes 32 (a % secp256k1_order)) ≡ a % secp256k1_order
int_from_bytes-scalar a = int_from_bytes-int_to_bytes 32 (a % secp256k1_order) (omega arith)
