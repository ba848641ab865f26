-- ===== src/Errors.antt =====
-- src/payment_communities/exceptions.py: the exceptions that the program raises, as values.
use unito_blockchain_25_26_p.Base.{◌≡◌, refl, inl, inr, ◌⊎◌}

-- The first nine are the program's; the others are Python's own, which the code can also raise.
pub data Error : Type 0 where
  payment_community : Error
  insufficient_balance : Error
  htlc_expired : Error
  invalid_preimage : Error
  channel_state : Error
  revoked_state_broadcast : Error
  script_verification : Error
  route_not_found : Error
  network : Error
  key_error : Error
  index_error : Error
  value_error : Error
  overflow_error : Error
  type_error : Error
  runtime_error : Error
  library_error : Error

-- The outcome of code that may raise.
pub data Result {κ} (T : Type κ) : Type κ where
  err : Error → Result T
  ok : T → Result T

infixl 5 ◌>>=◌
-- What follows runs on a value, and an exception passes it by.
abbrev pub ◌>>=◌ {κ μ} : {T : Type κ} {U : Type μ} → Result T → (T → Result U) → Result U
err raised >>= next = err raised
ok value >>= next = next value

pub >>=-cong {ℓ κ} :
    {A : Type ℓ} {B : Type κ} (m : Result A) (f g : A → Result B)
    → ((a : A) → f a ≡ g a)
    → (m >>= f) ≡ (m >>= g)
>>=-cong (ok a) f g h = h a
>>=-cong (err e) f g h = refl

pub >>=_assoc {ℓ κ μ} :
    {A : Type ℓ} {B : Type κ} {C : Type μ} (m : Result A) (f : A → Result B) (g : B → Result C)
    → ((m >>= f) >>= g) ≡ (m >>= λ a. f a >>= g)
>>=_assoc (ok a) f g = refl
>>=_assoc (err e) f g = refl

pub Result-cases {ℓ} :
    {A : Type ℓ} (m : Result A) → ((a : A) × (m ≡ ok a)) ⊎ ((e : Error) × (m ≡ err e))
Result-cases (ok a) = inl (a, refl)
Result-cases (err e) = inr (e, refl)
