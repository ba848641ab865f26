-- ===== src/Protocols/Shachain/Tests.antt =====
-- protocols/shachain.py: the theorems at a chain of a toy digest.
use unito_blockchain_25_26_p.Base.{Bytes, [], arith, refl, ℕ, ◌∷◌, ◌≡◌}
use unito_blockchain_25_26_p.Base.Int.{pos}
use unito_blockchain_25_26_p.Errors.{ok}
use unito_blockchain_25_26_p.Protocols.Shachain.{
  ShachainReceiver, add_secret, can_derive, derive_from_ancestor, derive_shachain_secret, flip_at,
  get_secret,
}
use unito_blockchain_25_26_p.Protocols.Shachain.Ancestors.{
  derive_from_ancestor-derive_shachain_secret,
}
use unito_blockchain_25_26_p.Protocols.Shachain.Genuine.{
  IsGenuine, add_secret-IsGenuine, get_secret_genuine,
}

abbrev keep : Bytes → Bytes
keep bs = bs

-- 32 bytes that start with `v`.
abbrev block : ℕ → Bytes
block v =
    v ∷ 0 ∷ 0 ∷ 0 ∷ 0 ∷ 0 ∷ 0 ∷ 0 ∷ 0 ∷ 0 ∷ 0 ∷ 0 ∷ 0 ∷ 0 ∷ 0 ∷ 0 ∷ 0 ∷ 0 ∷ 0 ∷ 0 ∷ 0 ∷ 0 ∷ 0 ∷ 0
    ∷ 0 ∷ 0 ∷ 0 ∷ 0 ∷ 0 ∷ 0 ∷ 0 ∷ 0 ∷ []

derive_from_ancestor-derive_shachain_secret_example :
    derive_from_ancestor keep (block 8) 8 10 ≡ derive_shachain_secret keep (block 0) 10
unfolding can_derive derive_shachain_secret flip_at
derive_from_ancestor-derive_shachain_secret_example =
    derive_from_ancestor-derive_shachain_secret keep (block 0) (block 8) 8 10 (omega arith)
      (omega arith) refl refl

abbrev one_secret : ShachainReceiver
one_secret = record { elements = (8, block 8) ∷ []; last_index = pos 8 }

get_secret_genuine_example : derive_shachain_secret keep (block 0) 10 ≡ ok (block 10)
unfolding get_secret derive_from_ancestor can_derive derive_shachain_secret flip_at
get_secret_genuine_example =
    get_secret_genuine keep (block 0) one_secret 10 (block 10) ((omega arith, refl), tt)
      (omega arith) refl

add_secret-IsGenuine_example :
    ((add_secret keep one_secret (block 16) 16).0 ≡ ok tt)
    × IsGenuine keep (block 0) (add_secret keep one_secret (block 16) 16).1
unfolding derive_shachain_secret flip_at
add_secret-IsGenuine_example =
    add_secret-IsGenuine keep (block 0) one_secret 16 (block 16) ((omega arith, refl), tt)
      (omega arith) refl refl

-- A secret of another chain replaces the genuine ones under it: only the other direction is checked.
descendants_unchecked :
    add_secret keep one_secret (block 77) 0
    ≡ (ok tt, record { elements = (0, block 77) ∷ []; last_index = pos 0 })
unfolding add_secret can_derive
descendants_unchecked = refl
