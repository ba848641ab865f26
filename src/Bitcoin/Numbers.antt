-- ===== src/Bitcoin/Numbers.antt =====
-- Python's `int.from_bytes` and `int.to_bytes` on little-endian bytes, as bitcoin/interpreter.py uses
-- them on stack elements.
use unito_blockchain_25_26_p.Base.{
  ℕ, ◌+◌, ◌-◌, ◌*◌, ◌/◌, ◌%◌, ◌^◌, ◌≡◌, [], ◌∷◌, arith, Bytes, leb, ltb, if◌then◌else◌,
}
use unito_blockchain_25_26_p.Base.Int.{ℤ, pos, negsuc, sub_ℕ}
use unito_blockchain_25_26_p.Base.Lists.{length}
use unito_blockchain_25_26_p.Errors.{Result, ok, err, overflow_error}

unfoldable pub from_bytes_unsigned : Bytes → ℕ
from_bytes_unsigned [] = 0
from_bytes_unsigned (b ∷ bs) = b + 256 * from_bytes_unsigned bs

-- `int.from_bytes(bs, "little", signed=True)`: two's complement over the whole string.
unfoldable pub from_bytes_signed : Bytes → ℤ
unfolding from_bytes_unsigned
from_bytes_signed bs =
    let n = from_bytes_unsigned bs in
    let modulus = 256 ^ length bs in if leb modulus (2 * n) then sub_ℕ n modulus else pos n

-- The four low bytes of a number, least significant first.
abbrev pub four_bytes : ℕ → Bytes
four_bytes n = n % 256 ∷ n / 256 % 256 ∷ n / 65_536 % 256 ∷ n / 16_777_216 % 256 ∷ []

-- `n.to_bytes(4, "little", signed=True)`
unfoldable pub to_bytes_signed : ℤ → Result Bytes
to_bytes_signed (pos n) = if ltb n 2_147_483_648 then ok (four_bytes n) else err overflow_error
to_bytes_signed (negsuc n) =
    if ltb n 2_147_483_648 then ok (four_bytes (4_294_967_295 - n)) else err overflow_error

-- Four bytes written and read back give the number, over the whole signed 32-bit range.
pub from_bytes_signed-to_bytes_signed :
    (n : ℤ) (bs : Bytes) → to_bytes_signed n ≡ ok bs → from_bytes_signed bs ≡ n
unfolding from_bytes_signed to_bytes_signed
from_bytes_signed-to_bytes_signed (pos n) bs h = ground arith
from_bytes_signed-to_bytes_signed (negsuc n) bs h = ground arith
