-- ===== src/Domain/Policies/Fees.antt =====
-- domain/core/policies.py: what a fee policy charges.
use unito_blockchain_25_26_p.Base.{ℕ, ◌+◌, ◌*◌, ◌/◌, ◌≤◌, ◌<◌, ◌≡◌, arith}
use unito_blockchain_25_26_p.Base.Int.{ℤ, pos, ◌+ℤ◌, ◌*ℤ◌, ◌//◌}
use unito_blockchain_25_26_p.Domain.Policies.{
  FeePolicy, routing_fee_policy, routing_policy, lease_fee_policy, calculate_fee,
}

-- The two parameters of a policy, whichever its class.
abbrev pub base_fee_sat : FeePolicy → ℤ
base_fee_sat (routing_fee_policy b r) = b
base_fee_sat (routing_policy b r) = b
base_fee_sat (lease_fee_policy b r) = b

abbrev pub fee_rate_ppm : FeePolicy → ℤ
fee_rate_ppm (routing_fee_policy b r) = r
fee_rate_ppm (routing_policy b r) = r
fee_rate_ppm (lease_fee_policy b r) = r

-- The fee on an amount that is not negative, in natural numbers.
pub calculate_fee_pos :
    (p : FeePolicy) (b r a : ℕ)
    → base_fee_sat p ≡ pos b
    → fee_rate_ppm p ≡ pos r
    → calculate_fee p (pos a) ≡ pos (b + a * r / 1_000_000)
unfolding calculate_fee ◌+ℤ◌ ◌*ℤ◌ ◌//◌
calculate_fee_pos (routing_fee_policy _ _) b r a e f = ground arith
calculate_fee_pos (routing_policy _ _) b r a e f = ground arith
calculate_fee_pos (lease_fee_policy _ _) b r a e f = ground arith

fee_value :
    (p : FeePolicy) (b r a fee : ℕ)
    → base_fee_sat p ≡ pos b
    → fee_rate_ppm p ≡ pos r
    → calculate_fee p (pos a) ≡ pos fee
    → fee ≡ b + a * r / 1_000_000
fee_value p b r a fee e f q = ground (arith, calculate_fee_pos p b r a e f)

-- A million times the proportional part of a fee is the product of amount and rate, rounded down by
-- less than a million: the fee is the exact one cut to whole satoshis. So for every policy class,
-- where neither amount nor parameters are negative.
pub calculate_fee_bounds :
    (p : FeePolicy) (b r a fee : ℕ)
    → base_fee_sat p ≡ pos b
    → fee_rate_ppm p ≡ pos r
    → calculate_fee p (pos a) ≡ pos fee
    → (b ≤ fee)
      × (1_000_000 * fee ≤ 1_000_000 * b + a * r)
      × (1_000_000 * b + a * r < 1_000_000 * fee + 1_000_000)
calculate_fee_bounds p b r a fee e f q = omega (arith, fee_value p b r a fee e f q)

-- Where amounts and parameters are not negative, paying in two parts instead of one costs at most
-- one base fee more, and at least one base fee less a satoshi more.
pub calculate_fee_split :
    (p : FeePolicy) (b r a a' fee fee' whole : ℕ)
    → base_fee_sat p ≡ pos b
    → fee_rate_ppm p ≡ pos r
    → calculate_fee p (pos a) ≡ pos fee
    → calculate_fee p (pos a') ≡ pos fee'
    → calculate_fee p (pos (a + a')) ≡ pos whole
    → (fee + fee' ≤ whole + b) × (whole + b ≤ fee + fee' + 1)
calculate_fee_split p b r a a' fee fee' whole e f q q' qw = omega (
  arith,
  fee_value p b r a fee e f q,
  fee_value p b r a' fee' e f q',
  fee_value p b r (a + a') whole e f qw,
)
