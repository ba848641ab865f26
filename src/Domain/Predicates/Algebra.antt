-- ===== src/Domain/Predicates/Algebra.antt =====
-- domain/core/predicates.py: composed specifications obey the Boolean laws.
use unito_blockchain_25_26_p.Base.{◌≡◌, arith}
use unito_blockchain_25_26_p.Domain.Predicates.{Specification, is_satisfied_by, ◌&◌, ◌∣◌, invert}

-- `~(a & b)` and `~a | ~b` are satisfied by the same candidates, so are `~(a | b)` and `~a & ~b`,
-- `~~a` and `a`, and `a & (b | c)` and `a & b | a & c`.
pub is_satisfied_by_laws :
    {T : Type 0} (a b c : Specification T) (candidate : T)
    → (is_satisfied_by (invert (a & b)) candidate ≡ is_satisfied_by (invert a ∣ invert b) candidate)
      × (is_satisfied_by (invert (a ∣ b)) candidate
          ≡ is_satisfied_by (invert a & invert b) candidate)
      × (is_satisfied_by (invert (invert a)) candidate ≡ is_satisfied_by a candidate)
      × (is_satisfied_by (a & (b ∣ c)) candidate ≡ is_satisfied_by (a & b ∣ a & c) candidate)
unfolding is_satisfied_by ◌&◌ ◌∣◌ invert
is_satisfied_by_laws a b c candidate = ground arith
