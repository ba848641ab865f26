-- ===== src/Protocols/Shachain/Ancestors.antt =====
-- protocols/shachain.py: a secret derives the secrets below it.
use mathlib.Core.Path.{subst}
use native.Mathlib.Nat.{mod-eq_of_lt}
use unito_blockchain_25_26_p.Base.{
  Bool-cases, ap, arith, false, inl, inr, nat_beq, refl, suc, zero, ℕ, ◌*◌, ◌+◌, ◌/◌, ◌<◌, ◌^◌, ◌∙◌,
  ◌≡◌, ◌≤◌, Bytes, sym, true, ◌%◌, ◌-◌, ◌≢◌, if◌then◌else◌, ◌⊎◌, nat_beq_iff,
}
use unito_blockchain_25_26_p.Protocols.Shachain.{
  has_bit, low_zeros, shift_right, trailing_zeros, can_derive, descend, derive_from_ancestor,
  derive_shachain_secret, flip_at,
}
use unito_blockchain_25_26_p.Errors.{ok, ◌>>=◌, >>=-cong, >>=_assoc, Result}

pow_suc : (k : ℕ) → 2 ^ suc k ≡ 2 * 2 ^ k
pow_suc k = omega arith

shift_right-add : (x a b : ℕ) → shift_right x (a + b) ≡ shift_right (shift_right x a) b
shift_right-add x zero b = let same : 0 + b ≡ b = omega arith in ap (shift_right x) same
shift_right-add x (suc a) b =
    let step : suc a + b ≡ suc (a + b) = omega arith in
    ap (shift_right x) step ∙ shift_right-add (x / 2) a b

shift_right_lt : (x k n : ℕ) → x < 2 ^ (k + n) → shift_right x k < 2 ^ n
shift_right_lt x zero n h = let same : 0 + n ≡ n = omega arith in subst (λ m. x < 2 ^ m) same h
shift_right_lt x (suc k) n h =
    let step : suc k + n ≡ suc (k + n) = omega arith in
    let wide : x < 2 ^ suc (k + n) = subst (λ m. x < 2 ^ m) step h in
    shift_right_lt (x / 2) k n (omega (arith, pow_suc (k + n)))

-- The bits below the trailing zeros are zero.
low_bits : (fuel x b : ℕ) → b < low_zeros fuel x → has_bit x b ≡ false
unfolding low_zeros
low_bits zero x b h = absurd (omega arith)
low_bits (suc fuel) x zero h = ground arith
low_bits (suc fuel) x (suc b) h = ground (arith, low_bits fuel (x / 2) b)

low_zeros_le : (fuel x k : ℕ) → 0 < x → x < 2 ^ k → low_zeros fuel x ≤ k
unfolding low_zeros
low_zeros_le zero x k p h = omega arith
low_zeros_le (suc fuel) x zero p h = absurd (omega arith)
low_zeros_le (suc fuel) x (suc k) p h = ground (arith, pow_suc k, low_zeros_le fuel (x / 2) k)

zero_bits : (b : ℕ) → has_bit 0 b ≡ false
zero_bits zero = refl
zero_bits (suc b) = zero_bits b

zeros_below : (x b : ℕ) → b < trailing_zeros x → has_bit x b ≡ false
zeros_below zero b h = zero_bits b
zeros_below (suc x) b h = low_bits (suc x) (suc x) b (ground arith)

trailing_zeros_le : (x : ℕ) → x < 2 ^ 48 → trailing_zeros x ≤ 48
trailing_zeros_le x h = ground (arith, low_zeros_le x x 48)

-- Numbers that agree above `z` have the same bits there.
same_bits : (s t z b : ℕ) → shift_right s z ≡ shift_right t z → z ≤ b → has_bit s b ≡ has_bit t b
same_bits s t z b e h =
    let sum : b ≡ z + (b - z) = omega arith in
    let shifted : shift_right s (z + (b - z)) ≡ shift_right t (z + (b - z)) =
      shift_right-add s z (b - z)
      ∙ ap (λ x. shift_right x (b - z)) e
      ∙ sym (shift_right-add t z (b - z)) in
    subst (λ c. has_bit s c ≡ has_bit t c) (sym sum) (ap (λ x. nat_beq (x % 2) 1) shifted)

mod_small : (x m : ℕ) → x < m → x % m ≡ x
mod_small x m h = mod-eq_of_lt h

-- What `can_derive` tests, for indices below 2^48.
agree_above :
    (s t : ℕ)
    → s < 2 ^ 48
    → t < 2 ^ 48
    → s ≢ t
    → can_derive s t ≡ true
    → shift_right s (trailing_zeros s) ≡ shift_right t (trailing_zeros s)
unfolding can_derive
agree_above s t hs ht ne h =
    let z = trailing_zeros s in
    let le : z ≤ 48 = trailing_zeros_le s hs in
    let sum : 48 ≡ z + (48 - z) = omega arith in
    let small_s : shift_right s z < 2 ^ (48 - z) =
      shift_right_lt s z (48 - z) (subst (λ k. s < 2 ^ k) sum hs) in
    let small_t : shift_right t z < 2 ^ (48 - z) =
      shift_right_lt t z (48 - z) (subst (λ k. t < 2 ^ k) sum ht) in
    ground (
      arith,
      mod_small (shift_right s z) (2 ^ (48 - z)) small_s,
      mod_small (shift_right t z) (2 ^ (48 - z)) small_t,
    )

le_suc_cases : (z b : ℕ) → z ≤ suc b → (z ≡ suc b) ⊎ (z ≤ b)
le_suc_cases z b h = ground arith

module _ (sha256 : Bytes → Bytes) where
  descend_zeros :
      (n s : ℕ) (p : Bytes) → ((b : ℕ) → b < n → has_bit s b ≡ false) → descend sha256 n s p ≡ ok p
  unfolding descend
  descend_zeros zero s p h = refl
  descend_zeros (suc b) s p h =
      rw (h b (omega arith), descend) (descend_zeros b s p (λ c below. h c (omega arith)))

  first_step : ℕ → ℕ → Bytes → Result Bytes
  first_step b x p =
      if has_bit x b then (flip_at p (b / 8) (b % 8) >>= λ q. ok (sha256 q)) else ok p

  -- Going down to `t` is going down to `s`, whose bits below `z` are zero, and from there on.
  descend_split :
      (n z s t : ℕ) (p : Bytes)
      → z ≤ n
      → ((b : ℕ) → z ≤ b → has_bit s b ≡ has_bit t b)
      → ((b : ℕ) → b < z → has_bit s b ≡ false)
      → descend sha256 n t p ≡ (descend sha256 n s p >>= descend sha256 z t)
  unfolding descend first_step
  descend_split zero z s t p le above below =
      let none_left : z ≡ 0 = omega arith in
      subst (λ k. ok p ≡ (descend sha256 0 s p >>= descend sha256 k t)) (sym none_left) refl
  descend_split (suc b) z s t p le above below = elim (le_suc_cases z b le) [
    | inl e ↦
        let untouched = descend_zeros (suc b) s p (λ c h. below c (omega arith)) in
        rw (untouched) (ap (λ k. descend sha256 k t p) (sym e))
    | inr le' ↦
        let at_b = above b le' in
        rw (sym at_b) (
          >>=-cong (first_step b s p) (descend sha256 b t)
            (λ q. descend sha256 b s q >>= descend sha256 z t)
            (λ q. descend_split b z s t q le' above below)
          ∙ sym (>>=_assoc (first_step b s p) (descend sha256 b s) (descend sha256 z t)))
  ]

  -- What a derivation is, where it succeeds, and what it would be for another index.
  derive_lem :
      (seed secret : Bytes) (s t : ℕ)
      → t < 2 ^ 48
      → derive_shachain_secret sha256 seed s ≡ ok secret
      → (descend sha256 48 s seed ≡ ok secret)
        × (derive_shachain_secret sha256 seed t ≡ descend sha256 48 t seed)
  unfolding derive_shachain_secret
  derive_lem seed secret s t ht derived = ground arith

  -- From a secret of the chain, every secret that `can_derive` allows is derived as from the seed, for
  -- indices below 2^48.
  pub derive_from_ancestor-derive_shachain_secret :
      (seed secret : Bytes) (s t : ℕ)
      → s < 2 ^ 48
      → t < 2 ^ 48
      → can_derive s t ≡ true
      → derive_shachain_secret sha256 seed s ≡ ok secret
      → derive_from_ancestor sha256 secret s t ≡ derive_shachain_secret sha256 seed t
  unfolding derive_from_ancestor
  derive_from_ancestor-derive_shachain_secret seed secret s t hs ht can derived =
      elim (Bool-cases (nat_beq s t)) [
        | inl e ↦
            let same : s ≡ t = (nat_beq_iff s t).0 e in
            rw (e, derive_from_ancestor)
              (sym (subst (λ k. derive_shachain_secret sha256 seed k ≡ ok secret) same derived))
        | inr e ↦
            let z = trailing_zeros s in
            let different : s ≢ t = ground (arith, nat_beq_iff s t) in
            let (reached, wanted) = derive_lem seed secret s t ht derived in
            let agree = agree_above s t hs ht different can in
            let split =
              descend_split 48 z s t seed (trailing_zeros_le s hs)
                (λ b h. same_bits s t z b agree h) (zeros_below s) in
            rw (e, derive_from_ancestor)
              (sym (wanted ∙ split ∙ ap (λ r. r >>= descend sha256 z t) reached))
      ]
