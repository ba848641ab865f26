-- ===== src/Base/Dict.antt =====
-- A Python dict as an association list in insertion order, over any type of keys with equality.
use mathlib.Core.Path.{◌≡◌, refl}
use mathlib.Core.Logic.{◌≢◌}
use mathlib.Core.Bool.{Bool, true, false}
use mathlib.Core.Option.{Option, none, some}
use mathlib.Core.List.{List, [], ◌∷◌, map}
use native.Mathlib.Omega.{arith}
use unito_blockchain_25_26_p.Base.Lists.{All, All-mono}
use unito_blockchain_25_26_p.Base.Tests.{Eq, ◌==◌, if◌then◌else◌}

abbrev pub Dict {ℓ κ} : Type ℓ → Type κ → Type (ℓ ⊔ κ)
Dict K V = List (K × V)

module _ {ℓ κ} {K : Type ℓ} {V : Type κ} ⦃e : Eq K⦄ where
  -- `d.get(k)`
  abbrev pub lookup : K → Dict K V → Option V
  lookup k [] = none
  lookup k ((j, v) ∷ d) = if k == j then some v else lookup k d

  -- `k in d`
  abbrev pub contains : K → Dict K V → Bool
  contains k d = elim (lookup k d) [ none ↦ false | some _ ↦ true ]

  -- `d[k] = v`
  abbrev pub insert : K → V → Dict K V → Dict K V
  insert k v [] = (k, v) ∷ []
  insert k v ((j, w) ∷ d) = if k == j then (j, v) ∷ d else (j, w) ∷ insert k v d

  -- `del d[k]`
  abbrev pub erase : K → Dict K V → Dict K V
  erase k [] = []
  erase k ((j, w) ∷ d) = if k == j then d else (j, w) ∷ erase k d

  -- `d.keys()`
  abbrev pub keys : Dict K V → List K
  keys d = map (λ p. p.0) d

  pub lookup-insert :
      (k j : K) (v : V) (d : Dict K V)
      → lookup j (insert k v d) ≡ (if j == k then some v else lookup j d)
  lookup-insert k j v [] = refl
  lookup-insert k j v ((i, w) ∷ d) =
      ground (arith, e.beq_iff k i, e.beq_iff j i, e.beq_iff j k, lookup-insert k j v d)

  pub lookup-insert_self : (k : K) (v : V) (d : Dict K V) → lookup k (insert k v d) ≡ some v
  lookup-insert_self k v d = ground (arith, lookup-insert k k v d, e.beq_iff k k)

  pub lookup-insert_ne :
      (k j : K) (v : V) (d : Dict K V) → j ≢ k → lookup j (insert k v d) ≡ lookup j d
  lookup-insert_ne k j v d h = ground (arith, lookup-insert k j v d, e.beq_iff j k)

  pub insert-insert : (k : K) (v w : V) (d : Dict K V) → insert k v (insert k w d) ≡ insert k v d
  insert-insert k v w [] = ground (arith, e.beq_iff k k)
  insert-insert k v w ((i, u) ∷ d) = ground (arith, e.beq_iff k i, insert-insert k v w d)

  pub lookup-erase_ne : (k j : K) (d : Dict K V) → j ≢ k → lookup j (erase k d) ≡ lookup j d
  lookup-erase_ne k j [] h = refl
  lookup-erase_ne k j ((i, w) ∷ d) h =
      ground (arith, e.beq_iff k i, e.beq_iff j i, lookup-erase_ne k j d h)

  -- Taking back an entry that was new leaves the dict as it was, in the same order.
  pub erase-insert_new :
      (k : K) (v : V) (d : Dict K V) → lookup k d ≡ none → erase k (insert k v d) ≡ d
  erase-insert_new k v [] h = ground (arith, e.beq_iff k k)
  erase-insert_new k v ((i, w) ∷ d) h = ground (arith, e.beq_iff k i, erase-insert_new k v d)

  -- No key is listed twice, as in every Python dict.
  abbrev pub HasDistinctKeys : Dict K V → Type κ
  HasDistinctKeys [] = Unit
  HasDistinctKeys ((k, v) ∷ d) = (lookup k d ≡ none) × HasDistinctKeys d

  pub lookup-erase_self : (k : K) (d : Dict K V) → HasDistinctKeys d → lookup k (erase k d) ≡ none
  lookup-erase_self k [] h = refl
  lookup-erase_self k ((i, w) ∷ d) h = ground (arith, e.beq_iff k i, lookup-erase_self k d h.1)

  pub insert-HasDistinctKeys :
      (k : K) (v : V) (d : Dict K V) → HasDistinctKeys d → HasDistinctKeys (insert k v d)
  insert-HasDistinctKeys k v [] h = (refl, tt)
  insert-HasDistinctKeys k v ((i, w) ∷ d) h =
      ground (
        arith,
        e.beq_iff k i,
        e.beq_iff i k,
        insert-HasDistinctKeys k v d h.1,
        lookup-insert k i v d,
      )

  pub erase-HasDistinctKeys :
      (k : K) (d : Dict K V) → HasDistinctKeys d → HasDistinctKeys (erase k d)
  erase-HasDistinctKeys k [] h = tt
  erase-HasDistinctKeys k ((i, w) ∷ d) h =
      ground
        (arith, e.beq_iff k i, e.beq_iff i k, erase-HasDistinctKeys k d h.1, lookup-erase_ne k i d)

  pub contains-keys : (d : Dict K V) → All (λ k. contains k d ≡ true) (keys d)
  contains-keys [] = tt
  contains-keys ((k, v) ∷ d) = (
    ground (arith, e.beq_iff k k),
    All-mono (λ j. contains j d ≡ true) (λ j. contains j ((k, v) ∷ d) ≡ true) (keys d)
        (λ j h. ground (arith, e.beq_iff j k)) (contains-keys d),
  )
