-- ===== src/Domain/Predicates.antt =====
-- src/payment_communities/domain/core/predicates.py: specifications, composed by &, | and ~.
pub mod Algebra
mod Tests
use unito_blockchain_25_26_p.Base.{
  String, Bool, true, false, not, ◌&&◌, ◌||◌, Option, none, some, ◌≡◌, ◌↔◌, arith, Bytes, ◌==◌,
  string_eq,
}
use unito_blockchain_25_26_p.Base.Int.{ℤ, leb_ℤ}
use unito_blockchain_25_26_p.Domain.Records.{ChannelState, HtlcContract, Channel}

-- A specification over candidates of type `T`: a concrete subclass, by its `is_satisfied_by`, or a
-- composition.
pub data Specification (T : Type 0) : Type 0 where
  concrete : (T → Bool) → Specification T
  and_specification : Specification T → Specification T → Specification T
  or_specification : Specification T → Specification T → Specification T
  not_specification : Specification T → Specification T

module _ {T : Type 0} where
  unfoldable pub is_satisfied_by : Specification T → T → Bool
  is_satisfied_by (concrete f) candidate = f candidate
  is_satisfied_by (and_specification left right) candidate =
      is_satisfied_by left candidate && is_satisfied_by right candidate
  is_satisfied_by (or_specification left right) candidate =
      is_satisfied_by left candidate || is_satisfied_by right candidate
  is_satisfied_by (not_specification spec) candidate = not (is_satisfied_by spec candidate)

  infixl 35 ◌&◌
  infixl 30 ◌∣◌
  -- `__and__`, `__or__` and `__invert__`
  unfoldable pub ◌&◌ : Specification T → Specification T → Specification T
  left & right = and_specification left right

  unfoldable pub ◌∣◌ : Specification T → Specification T → Specification T
  left ∣ right = or_specification left right

  unfoldable pub invert : Specification T → Specification T
  invert spec = not_specification spec

-- What `hashlib` and `bitcoin.core` supply: SHA-256, and the conversions `x` (which raises on a
-- text that is no hex, here `none`) and `b2x`.
pub record Hashes : Type 0 where
  pub sha256 : Bytes → Bytes
  pub x : String → Option Bytes
  pub b2x : Bytes → String

-- `candidate.state == ChannelState.OPEN`
is_opened : ChannelState → Bool
is_opened ChannelState.opened = true
is_opened _ = false

unfoldable pub is_channel_open : Specification Channel
unfolding is_opened
is_channel_open = concrete (λ c. is_opened c.state)

unfoldable pub has_sufficient_balance : ℤ → Specification Channel
has_sufficient_balance required = concrete (λ c. leb_ℤ required c.balance_sender_sat)

unfoldable pub is_htlc_active : Specification HtlcContract
is_htlc_active = concrete (λ h. not h.settled && not h.refunded)

unfoldable pub is_timelock_expired : ℤ → Specification HtlcContract
is_timelock_expired current_height = concrete (λ h. leb_ℤ h.locktime current_height)

-- The digest that `IsPreimageValid` compares; `none` where `hex_to_bytes` raises `ValueError`.
abbrev pub preimage_digest : Hashes → String → Option String
preimage_digest hs preimage_hex = elim (hs.x preimage_hex) [
  | none ↦ none
  | some bytes ↦ some (hs.b2x (hs.sha256 bytes))
]

-- The `except` clause makes a malformed preimage an invalid one.
abbrev pub digest_matches : Option String → String → Bool
digest_matches none payment_hash = false
digest_matches (some digest) payment_hash = digest == payment_hash

unfoldable pub is_preimage_valid : Hashes → String → Specification HtlcContract
is_preimage_valid hs preimage_hex =
    concrete (λ h. digest_matches (preimage_digest hs preimage_hex) h.payment_hash)

pub digest_matches_iff :
    (digest : Option String) (payment_hash : String)
    → (digest_matches digest payment_hash ≡ true) ↔ (digest ≡ some payment_hash)
digest_matches_iff none payment_hash = ((λ h. cc), (λ h. cc))
digest_matches_iff (some d) payment_hash = ground (arith, string_eq.beq_iff d payment_hash)
