-- ===== src/Bitcoin/Scalars.antt =====
-- src/payment_communities/bitcoin/taproot.py, protocols/ptlc.py: secrets that are given as a number or
-- as bytes.
use unito_blockchain_25_26_p.Base.{Bytes, ℕ, ◌%◌}
use unito_blockchain_25_26_p.Base.Lists.{take}
use unito_blockchain_25_26_p.Bitcoin.Integers.{int_from_bytes}
use unito_blockchain_25_26_p.Config.{secp256k1_order}

-- `bytes | int`
pub data ScalarInput : Type 0 where
  of_bytes : Bytes → ScalarInput
  of_int : ℕ → ScalarInput

-- A secret as a scalar; of bytes, the first 32 count.
unfoldable pub secret_scalar : ScalarInput → ℕ
secret_scalar (of_int n) = n % secp256k1_order
secret_scalar (of_bytes bytes) = int_from_bytes (take 32 bytes) % secp256k1_order
