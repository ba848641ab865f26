-- ===== src/Protocols/Shachain/Genuine.antt =====
-- protocols/shachain.py: what `ShachainReceiver` holds and returns, when it was given the secrets of a
-- seed.
use mathlib.Core.Path.{subst}
use unito_blockchain_25_26_p.Base.{
  nat_eq, Bool-cases, Bytes, List, Option-cases, [], arith, bytes_beq_refl, inl, inr, nat_eq, none,
  not, refl, some, true, ℕ, ◌&&◌, ◌<◌, ◌==◌, ◌^◌, ◌∷◌, ◌≡◌, ◌⊎◌,
}
use unito_blockchain_25_26_p.Base.Dict.{Dict, contains, erase, insert, keys, lookup}
use unito_blockchain_25_26_p.Base.Lists.{All, length}
use unito_blockchain_25_26_p.Errors.{ok}
use unito_blockchain_25_26_p.Protocols.Shachain.{
  ShachainReceiver, add_secret, can_derive, check_known, derive_from_ancestor,
  derive_shachain_secret, first_ancestor, get_secret, prune, prune_below, sort_slots,
}
use unito_blockchain_25_26_p.Protocols.Shachain.Ancestors.{
  derive_from_ancestor-derive_shachain_secret,
}

module _ (sha256 : Bytes → Bytes) (seed : Bytes) where
  -- An entry that the seed derives.
  abbrev pub IsDerived : ℕ × Bytes → Type 0
  IsDerived entry = (entry.0 < 2 ^ 48) × (derive_shachain_secret sha256 seed entry.0 ≡ ok entry.1)

  abbrev pub IsGenuine : ShachainReceiver → Type 0
  IsGenuine r = All IsDerived r.elements

  erase-IsGenuine : (k : ℕ) (els : Dict ℕ Bytes) → All IsDerived els → All IsDerived (erase k els)
  erase-IsGenuine k [] h = tt
  erase-IsGenuine k ((j, s) ∷ els) (p, h) = elim (Bool-cases (k == j)) [
    | inl e ↦ rw (e, erase) h
    | inr e ↦ rw (e, erase) (p, erase-IsGenuine k els h)
  ]

  insert-IsGenuine :
      (k : ℕ) (s : Bytes) (els : Dict ℕ Bytes)
      → IsDerived (k, s)
      → All IsDerived els
      → All IsDerived (insert k s els)
  insert-IsGenuine k s [] p h = (p, tt)
  insert-IsGenuine k s ((j, r) ∷ els) p (q, h) = elim (Bool-cases (k == j)) [
    | inl e ↦
        let same : k ≡ j = (nat_eq.beq_iff k j).0 e in
        rw (e, insert) (subst (λ i. IsDerived (i, s)) same p, h)
    | inr e ↦ rw (e, insert) (q, insert-IsGenuine k s els p h)
  ]

  lookup-IsDerived :
      (k : ℕ) (s : Bytes) (els : Dict ℕ Bytes)
      → All IsDerived els
      → lookup k els ≡ some s
      → derive_shachain_secret sha256 seed k ≡ ok s
  lookup-IsDerived k s [] h e = absurd (ground arith)
  lookup-IsDerived k s ((j, r) ∷ els) (q, h) e =
      ground (arith, nat_eq.beq_iff k j, lookup-IsDerived k s els h)

  -- What a stored ancestor derives is what the seed derives.
  stored_derives :
      (slot index : ℕ) (stored : Bytes)
      → IsDerived (slot, stored)
      → index < 2 ^ 48
      → can_derive slot index ≡ true
      → derive_from_ancestor sha256 stored slot index ≡ derive_shachain_secret sha256 seed index
  stored_derives slot index stored (small, d) h can =
      derive_from_ancestor-derive_shachain_secret sha256 seed stored slot index small h can d

  first_ancestor_lem :
      (index : ℕ) (secret : Bytes) (els : Dict ℕ Bytes)
      → All IsDerived els
      → index < 2 ^ 48
      → first_ancestor sha256 index els ≡ ok (some secret)
      → derive_shachain_secret sha256 seed index ≡ ok secret
  unfolding first_ancestor
  first_ancestor_lem index secret [] h small e = absurd (ground arith)
  first_ancestor_lem index secret ((slot, stored) ∷ els) (q, h) small e =
      ground
        (arith, stored_derives slot index stored q small, first_ancestor_lem index secret els h)

  check_known_lem :
      (index : ℕ) (secret : Bytes) (els : Dict ℕ Bytes)
      → All IsDerived els
      → index < 2 ^ 48
      → derive_shachain_secret sha256 seed index ≡ ok secret
      → (check_known sha256 secret index els ≡ none)
        ⊎ (check_known sha256 secret index els ≡ some (ok tt))
  unfolding check_known
  check_known_lem index secret [] h small e = inl refl
  check_known_lem index secret ((slot, stored) ∷ els) (q, h) small e = ground (
    arith,
    stored_derives slot index stored q small,
    check_known_lem index secret els h small e,
    bytes_beq_refl secret,
  )

  prune_below-IsGenuine :
      (s1 : ℕ) (slots : List ℕ) (els : Dict ℕ Bytes)
      → All IsDerived els
      → All IsDerived (prune_below s1 slots els)
  unfolding prune_below
  prune_below-IsGenuine s1 [] els h = h
  prune_below-IsGenuine s1 (s2 ∷ slots) els h =
      elim (Bool-cases (contains s2 els && not (s1 == s2) && can_derive s1 s2)) [
        | inl e ↦ rw e (prune_below-IsGenuine s1 slots (erase s2 els) (erase-IsGenuine s2 els h))
        | inr e ↦ rw e (prune_below-IsGenuine s1 slots els h)
      ]

  prune-IsGenuine :
      (slots rest : List ℕ) (els : Dict ℕ Bytes)
      → All IsDerived els
      → All IsDerived (prune slots rest els)
  unfolding prune
  prune-IsGenuine slots [] els h = h
  prune-IsGenuine slots (s1 ∷ rest) els h = elim (Bool-cases (contains s1 els)) [
    | inl e ↦ rw e (
        prune-IsGenuine slots rest (prune_below s1 slots els)
          (prune_below-IsGenuine s1 slots els h))
    | inr e ↦ rw e (prune-IsGenuine slots rest els h)
  ]

  -- A receiver that holds secrets of one seed returns no other secret, for indices below 2^48: what
  -- `get_secret` finds or derives is what the seed derives.
  pub get_secret_genuine :
      (r : ShachainReceiver) (index : ℕ) (secret : Bytes)
      → IsGenuine r
      → index < 2 ^ 48
      → get_secret sha256 r index ≡ ok (some secret)
      → derive_shachain_secret sha256 seed index ≡ ok secret
  unfolding get_secret
  get_secret_genuine r index secret h small e = elim (Option-cases (lookup index r.elements)) [
    | inl missing ↦ first_ancestor_lem index secret r.elements h small (ground arith)
    | inr (found, at) ↦ lookup-IsDerived index secret r.elements h (ground arith)
  ]

  -- A receiver that holds secrets of one seed accepts every 32-byte secret of that seed at its
  -- index below 2^48, and holds secrets of that seed only from then on, whatever it prunes.
  pub add_secret-IsGenuine :
      (r : ShachainReceiver) (index : ℕ) (secret : Bytes)
      → IsGenuine r
      → index < 2 ^ 48
      → length secret ≡ 32
      → derive_shachain_secret sha256 seed index ≡ ok secret
      → ((add_secret sha256 r secret index).0 ≡ ok tt)
        × IsGenuine (add_secret sha256 r secret index).1
  unfolding add_secret
  add_secret-IsGenuine r index secret h small size e =
      let placed = insert index secret r.elements in
      let slots = sort_slots (keys placed) in
      elim (check_known_lem index secret r.elements h small e) [
        | inl unknown ↦
            rw (size, unknown)
              (
                refl,
                prune-IsGenuine slots slots placed
                    (insert-IsGenuine index secret r.elements (small, e) h),
              )
        | inr known ↦ rw (size, known) (refl, h)
      ]
