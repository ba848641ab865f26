-- ===== src/Protocols/Shachain.antt =====
-- src/payment_communities/protocols/shachain.py. Indices are natural numbers and secrets byte strings;
-- the receiver keeps the bytes whose hex digits the code keeps.
pub mod Ancestors
pub mod Genuine
mod Tests
use unito_blockchain_25_26_p.Base.{
  nat_eq, Bool, Bytes, List, Option, [], bytes_beq, if◌then◌else◌, leb, ltb, nat_beq, none, not,
  some, suc, true, zero, ℕ, ◌%◌, ◌&&◌, ◌+◌, ◌-◌, ◌/◌, ◌==◌, ◌^◌, ◌∷◌,
}
use unito_blockchain_25_26_p.Base.Dict.{Dict, contains, erase, insert, keys, lookup}
use unito_blockchain_25_26_p.Base.Int.{pos, ℤ}
use unito_blockchain_25_26_p.Base.Lists.{length}
use unito_blockchain_25_26_p.Errors.{Result, err, index_error, ok, value_error, ◌>>=◌}

-- `x >> b`
abbrev pub shift_right : ℕ → ℕ → ℕ
shift_right x zero = x
shift_right x (suc b) = shift_right (x / 2) b

-- `(x >> b) & 1`
abbrev pub has_bit : ℕ → ℕ → Bool
has_bit x b = nat_beq (shift_right x b % 2) 1

-- `v ^ 1 << i`
abbrev pub flip : ℕ → ℕ → ℕ
flip v i = if nat_beq (v / 2 ^ i % 2) 0 then v + 2 ^ i else v - 2 ^ i

-- `p[byte_idx] ^= 1 << bit_idx`
unfoldable pub flip_at : Bytes → ℕ → ℕ → Result Bytes
flip_at [] byte_idx bit_idx = err index_error
flip_at (v ∷ p) zero bit_idx = ok (flip v bit_idx ∷ p)
flip_at (v ∷ p) (suc byte_idx) bit_idx = flip_at p byte_idx bit_idx >>= λ q. ok (v ∷ q)

-- The loop over the bits of `index` below `n`, from the highest one down.
unfoldable pub descend : (sha256 : Bytes → Bytes) → ℕ → ℕ → Bytes → Result Bytes
descend sha256 zero index p = ok p
descend sha256 (suc b) index p =
    (if has_bit index b then (flip_at p (b / 8) (b % 8) >>= λ q. ok (sha256 q)) else ok p)
    >>= descend sha256 b index

abbrev pub index_bits : ℕ
index_bits = 48

unfoldable pub derive_shachain_secret : (sha256 : Bytes → Bytes) → Bytes → ℕ → Result Bytes
unfolding descend
derive_shachain_secret sha256 seed index =
    if not (nat_beq (length seed) 32)
    then err value_error
    else if leb (2 ^ 48) index
    then err value_error
    else descend sha256 index_bits index seed

-- `(x & -x).bit_length() - 1`, in at most `fuel` halvings; a positive number halves to an odd one
-- before these are used up where `fuel` is the number itself.
unfoldable pub low_zeros : (fuel : ℕ) → ℕ → ℕ
low_zeros zero x = 0
low_zeros (suc fuel) x =
    let rest = low_zeros fuel (x / 2) in if nat_beq (x % 2) 0 then suc rest else 0

abbrev pub trailing_zeros : ℕ → ℕ
trailing_zeros x = if nat_beq x 0 then index_bits else low_zeros x x

-- Equality under the mask of the bits from the trailing zeros of the source up to bit 47.
unfoldable pub can_derive : ℕ → ℕ → Bool
unfolding low_zeros
can_derive source target =
    if nat_beq source target
    then true
    else (let zeros = trailing_zeros source in
        nat_beq (shift_right source zeros % 2 ^ (index_bits - zeros))
          (shift_right target zeros % 2 ^ (index_bits - zeros)))

unfoldable pub derive_from_ancestor : (sha256 : Bytes → Bytes) → Bytes → ℕ → ℕ → Result Bytes
unfolding descend low_zeros
derive_from_ancestor sha256 secret ancestor target =
    if nat_beq ancestor target
    then ok secret
    else descend sha256 (trailing_zeros ancestor) target secret

-- `ShachainGenerator.get_commitment_secret`; a commitment number above the last index is a negative
-- index, which is out of range.
unfoldable pub get_commitment_secret : (sha256 : Bytes → Bytes) → Bytes → ℕ → Result Bytes
unfolding derive_shachain_secret
get_commitment_secret sha256 seed commitment_number =
    if nat_beq (length seed) 32 && ltb (2 ^ 48 - 1) commitment_number
    then err value_error
    else derive_shachain_secret sha256 seed (2 ^ 48 - 1 - commitment_number)

pub record ShachainReceiver : Type 0 where
  pub elements : Dict ℕ Bytes
  pub last_index : ℤ

-- The first loop of `add_secret`: `some` where it returns or raises.
unfoldable pub check_known :
    (sha256 : Bytes → Bytes) → Bytes → ℕ → Dict ℕ Bytes → Option (Result (Unit {0}))
unfolding can_derive derive_from_ancestor
check_known sha256 secret index [] = none
check_known sha256 secret index ((slot, stored) ∷ rest) =
    if can_derive slot index
    then some (
        derive_from_ancestor sha256 stored slot index >>= λ derived.
        if bytes_beq derived secret then ok tt else err value_error)
    else check_known sha256 secret index rest

-- Python's `sorted` on the slots.
abbrev pub insert_sorted : ℕ → List ℕ → List ℕ
insert_sorted n [] = n ∷ []
insert_sorted n (m ∷ ms) = if ltb m n then m ∷ insert_sorted n ms else n ∷ m ∷ ms

abbrev pub sort_slots : List ℕ → List ℕ
sort_slots [] = []
sort_slots (n ∷ ns) = insert_sorted n (sort_slots ns)

-- The inner loop of the pruning.
unfoldable pub prune_below : ℕ → List ℕ → Dict ℕ Bytes → Dict ℕ Bytes
unfolding can_derive
prune_below s1 [] elements = elements
prune_below s1 (s2 ∷ slots) elements = prune_below s1 slots (
    if contains s2 elements && not (s1 == s2) && can_derive s1 s2
    then erase s2 elements
    else elements)

unfoldable pub prune : List ℕ → List ℕ → Dict ℕ Bytes → Dict ℕ Bytes
unfolding prune_below
prune slots [] elements = elements
prune slots (s1 ∷ rest) elements =
    prune slots rest (if contains s1 elements then prune_below s1 slots elements else elements)

unfoldable pub add_secret :
    (sha256 : Bytes → Bytes) → ShachainReceiver → Bytes → ℕ → Result (Unit {0}) × ShachainReceiver
unfolding check_known prune
add_secret sha256 r secret index =
    if not (nat_beq (length secret) 32)
    then (err value_error, r)
    else (elim (check_known sha256 secret index r.elements) [
      | some outcome ↦ (outcome, r)
      | none ↦
          let placed = insert index secret r.elements in
          let slots = sort_slots (keys placed) in
          (ok tt, record { elements = prune slots slots placed; last_index = pos index })
    ])

-- The loop of `get_secret`.
unfoldable pub first_ancestor : (sha256 : Bytes → Bytes) → ℕ → Dict ℕ Bytes → Result (Option Bytes)
unfolding can_derive derive_from_ancestor
first_ancestor sha256 index [] = ok none
first_ancestor sha256 index ((slot, stored) ∷ rest) =
    if can_derive slot index
    then (derive_from_ancestor sha256 stored slot index >>= λ secret. ok (some secret))
    else first_ancestor sha256 index rest

unfoldable pub get_secret : (sha256 : Bytes → Bytes) → ShachainReceiver → ℕ → Result (Option Bytes)
unfolding first_ancestor
get_secret sha256 r index = elim (lookup index r.elements) [
  | some secret ↦ ok (some secret)
  | none ↦ first_ancestor sha256 index r.elements
]
