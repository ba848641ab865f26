-- ===== src/Bitcoin/Taproot/Merkle.antt =====
-- interpreter.py: the root that a Taproot control block gives.
use unito_blockchain_25_26_p.Base.{
  Bytes, List, [], arith, refl, suc, zero, ℕ, ◌++◌, ◌<◌, ◌∷◌, ◌≡◌, ◌≤◌, ◌∙◌, false, ltb,
}
use unito_blockchain_25_26_p.Base.Lists.{All, length, length-append, take}
use unito_blockchain_25_26_p.Bitcoin.Taproot.{tapleaf_hash}
use unito_blockchain_25_26_p.Bitcoin.Taproot.Program.{branch, climb, merkle_root}
use unito_blockchain_25_26_p.Base.Cuts.{drop_append, take_append, drop}

-- The siblings in a row, and what follows them.
abbrev pub join : List Bytes → Bytes → Bytes
join [] trailing = trailing
join (part ∷ parts) trailing = part ++ join parts trailing

-- The root over a leaf, by the hashes beside its path upwards.
abbrev pub fold_branches : (sha256 : Bytes → Bytes) → Bytes → List Bytes → Bytes
fold_branches sha256 leaf [] = leaf
fold_branches sha256 leaf (sibling ∷ siblings) =
    fold_branches sha256 (branch sha256 leaf sibling) siblings

-- A control block, with what follows its siblings.
abbrev pub control_block : ℕ → Bytes → List Bytes → Bytes → Bytes
control_block version internal siblings trailing = version ∷ (internal ++ join siblings trailing)

climb-suc :
    (sha256 : Bytes → Bytes) (fuel : ℕ) (curr rest : Bytes)
    → 32 ≤ length rest
    → climb sha256 (suc fuel) curr rest
      ≡ climb sha256 fuel (branch sha256 curr (take 32 rest)) (drop 32 rest)
unfolding climb
climb-suc sha256 fuel curr rest h = ground arith

climb_lem :
    (sha256 : Bytes → Bytes) (siblings : List Bytes) (fuel : ℕ) (curr trailing : Bytes)
    → All (λ (s : Bytes). length s ≡ 32) siblings
    → length trailing < 32
    → length (join siblings trailing) ≤ fuel
    → climb sha256 fuel curr (join siblings trailing) ≡ fold_branches sha256 curr siblings
unfolding climb
climb_lem sha256 [] zero curr trailing all short enough = refl
climb_lem sha256 [] (suc fuel) curr trailing all short enough = ground arith
climb_lem sha256 (s ∷ siblings) zero curr trailing (e, all) short enough =
    absurd (omega (arith, length-append s (join siblings trailing)))
climb_lem sha256 (s ∷ siblings) (suc fuel) curr trailing (e, all) short enough =
    let rest = join siblings trailing in
    let size = length-append s rest in
    climb-suc sha256 fuel curr (s ++ rest) (omega (arith, size))
    ∙ rw (take_append 32 s rest e, drop_append 32 s rest e)
        (climb_lem sha256 siblings fuel (branch sha256 curr s) trailing all short
          (omega (arith, size)))

pub merkle_root-control_block :
    (sha256 : Bytes → Bytes) (script : Bytes) (version : ℕ) (internal : Bytes)
    (siblings : List Bytes) (trailing : Bytes)
    → length internal ≡ 32
    → All (λ (s : Bytes). length s ≡ 32) siblings
    → length trailing < 32
    → merkle_root sha256 script (control_block version internal siblings trailing)
      ≡ fold_branches sha256 (tapleaf_hash sha256 script 0xC0) siblings
unfolding merkle_root climb
merkle_root-control_block sha256 script version internal siblings trailing e all short =
    rw (drop_append 32 internal (join siblings trailing) e) (
      climb_lem sha256 siblings (length (control_block version internal siblings trailing))
        (tapleaf_hash sha256 script 0xC0) trailing all short
        (omega (arith, length-append internal (join siblings trailing))))

pub length-control_block :
    (version : ℕ) (internal : Bytes) (siblings : List Bytes) (trailing : Bytes)
    → length internal ≡ 32
    → ltb (length (control_block version internal siblings trailing)) 33 ≡ false
length-control_block version internal siblings trailing e =
    ground (arith, length-append internal (join siblings trailing))
