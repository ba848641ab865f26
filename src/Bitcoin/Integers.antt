-- ===== src/Bitcoin/Integers.antt =====
-- Python's `int.from_bytes(b, "big")` and `n.to_bytes(size, "big")`, and remainders of products.
use native.Mathlib.Nat.{mul_comm, add-mul-mod_self_left, mod-add-div}
use unito_blockchain_25_26_p.Base.{
  ℕ, zero, suc, ◌+◌, ◌*◌, ◌/◌, ◌%◌, ◌^◌, ◌<◌, ◌≡◌, refl, ◌∙◌, ap, [], ◌∷◌, ◌++◌, Bytes, arith, sym,
}
use unito_blockchain_25_26_p.Base.Lists.{length, length-append, take, take_of_length_le}

from_digits : ℕ → Bytes → ℕ
from_digits acc [] = acc
from_digits acc (b ∷ bytes) = from_digits (acc * 256 + b) bytes

unfoldable pub int_from_bytes : Bytes → ℕ
unfolding from_digits
int_from_bytes bytes = from_digits 0 bytes

-- The bytes of a number that fits `size` of them.
unfoldable pub int_to_bytes : ℕ → ℕ → Bytes
int_to_bytes zero n = []
int_to_bytes (suc size) n = int_to_bytes size (n / 256) ++ (n % 256 ∷ [])

pub length-int_to_bytes : (size n : ℕ) → length (int_to_bytes size n) ≡ size
unfolding int_to_bytes
length-int_to_bytes zero n = refl
length-int_to_bytes (suc size) n = omega (
  arith,
  length-append (int_to_bytes size (n / 256)) (n % 256 ∷ []),
  length-int_to_bytes size (n / 256),
)

from_digits-append :
    (acc : ℕ) (xs : Bytes) (b : ℕ) → from_digits acc (xs ++ (b ∷ [])) ≡ from_digits acc xs * 256 + b
unfolding from_digits
from_digits-append acc [] b = refl
from_digits-append acc (x ∷ xs) b = from_digits-append (acc * 256 + x) xs b

-- A number that fits is read back.
pub int_from_bytes-int_to_bytes :
    (size n : ℕ) → n < 256 ^ size → int_from_bytes (int_to_bytes size n) ≡ n
unfolding int_from_bytes int_to_bytes
int_from_bytes-int_to_bytes zero n h = omega arith
int_from_bytes-int_to_bytes (suc size) n h =
    from_digits-append 0 (int_to_bytes size (n / 256)) (n % 256)
    ∙ omega (arith, int_from_bytes-int_to_bytes size (n / 256) (omega arith))

pub mul_mod : (a b m : ℕ) → a * (b % m) % m ≡ a * b % m
mul_mod a b m =
    sym (add-mul-mod_self_left (a * (b % m)) m (a * (b / m)))
    ∙ ap (λ (t : ℕ). t % m) (grind (arith, mod-add-div b m))

pub mod_mul : (a b m : ℕ) → a % m * b % m ≡ a * b % m
mod_mul a b m =
    ap (λ (t : ℕ). t % m) (mul_comm (a % m) b)
    ∙ mul_mod b a m
    ∙ ap (λ (t : ℕ). t % m) (mul_comm b a)

pub take-int_to_bytes : (size n : ℕ) → take size (int_to_bytes size n) ≡ int_to_bytes size n
take-int_to_bytes size n =
    take_of_length_le size (int_to_bytes size n) (omega (arith, length-int_to_bytes size n))
