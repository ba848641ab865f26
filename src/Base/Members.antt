-- ===== src/Base/Members.antt =====
-- Membership of lists by a Boolean test, and lists without repetition.
use mathlib.Core.Path.{◌≡◌, refl}
use mathlib.Core.Bool.{Bool, false, ◌||◌}
use mathlib.Core.List.{List, [], ◌∷◌, ◌++◌}
use native.Mathlib.Omega.{arith}
use unito_blockchain_25_26_p.Base.Tests.{Eq, ◌==◌}

module _ {ℓ} {A : Type ℓ} ⦃e : Eq A⦄ where
  -- `a in xs`
  abbrev pub is_member : A → List A → Bool
  is_member a [] = false
  is_member a (x ∷ xs) = a == x || is_member a xs

  -- No member is listed twice.
  abbrev pub IsDistinct : List A → Type 0
  IsDistinct [] = Unit
  IsDistinct (x ∷ xs) = (is_member x xs ≡ false) × IsDistinct xs

  pub is_member-append :
      (a : A) (xs ys : List A) → is_member a (xs ++ ys) ≡ (is_member a xs || is_member a ys)
  is_member-append a [] ys = refl
  is_member-append a (x ∷ xs) ys = ground (arith, is_member-append a xs ys)

  -- A new member at the end.
  pub append-IsDistinct :
      (xs : List A) (a : A) → IsDistinct xs → is_member a xs ≡ false → IsDistinct (xs ++ (a ∷ []))
  append-IsDistinct [] a h n = (refl, tt)
  append-IsDistinct (x ∷ xs) a h n = ground (
    arith,
    append-IsDistinct xs a h.1,
    is_member-append x xs (a ∷ []),
    e.beq_iff a x,
    e.beq_iff x a,
  )
