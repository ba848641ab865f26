-- ===== src/Domain/Channel/Funds.antt =====
-- domain/channel.py: the satoshis that a channel's HTLCs hold, under each update of `active_htlcs`.
use unito_blockchain_25_26_p.Base.{String, ◌≡◌, none, some, [], ◌∷◌, arith, string_eq}
use unito_blockchain_25_26_p.Base.Int.{ℤ, pos, ◌+ℤ◌, ◌≤ℤ◌, int_laws}
use unito_blockchain_25_26_p.Base.Dict.{Dict, lookup, insert, erase}
use unito_blockchain_25_26_p.Domain.Records.{HtlcContract, Channel}

-- The sum of the amounts of the HTLCs in a dict.
unfoldable pub locked : Dict String HtlcContract → ℤ
locked [] = pos 0
locked ((k, h) ∷ d) = h.amount_sat +ℤ locked d

-- All the satoshis of a channel: both balances, and what the HTLCs hold.
unfoldable pub funds : Channel → ℤ
funds c = c.balance_sender_sat +ℤ c.balance_receiver_sat +ℤ locked c.active_htlcs

abbrev pub AreNonneg : Dict String HtlcContract → Type 0
AreNonneg [] = Unit
AreNonneg ((k, h) ∷ d) = (pos 0 ≤ℤ h.amount_sat) × AreNonneg d

pub locked-insert_new :
    (k : String) (h : HtlcContract) (d : Dict String HtlcContract)
    → lookup k d ≡ none
    → locked (insert k h d) ≡ locked d +ℤ h.amount_sat
unfolding locked
locked-insert_new k h [] e = omega int_laws
locked-insert_new k h ((j, g) ∷ d) e = grind (int_laws, locked-insert_new k h d)

pub locked-insert :
    (k : String) (h old : HtlcContract) (d : Dict String HtlcContract)
    → lookup k d ≡ some old
    → locked (insert k h d) +ℤ old.amount_sat ≡ locked d +ℤ h.amount_sat
unfolding locked
locked-insert k h old [] e = cc
locked-insert k h old ((j, g) ∷ d) e = grind (int_laws, locked-insert k h old d)

pub locked-erase :
    (k : String) (old : HtlcContract) (d : Dict String HtlcContract)
    → lookup k d ≡ some old
    → locked (erase k d) +ℤ old.amount_sat ≡ locked d
unfolding locked
locked-erase k old [] e = cc
locked-erase k old ((j, g) ∷ d) e = grind (int_laws, locked-erase k old d)

pub insert-AreNonneg :
    (k : String) (h : HtlcContract) (d : Dict String HtlcContract)
    → AreNonneg d
    → pos 0 ≤ℤ h.amount_sat
    → AreNonneg (insert k h d)
insert-AreNonneg k h [] a p = (p, tt)
insert-AreNonneg k h ((j, g) ∷ d) a p = ground (arith, insert-AreNonneg k h d a.1 p)

pub erase-AreNonneg :
    (k : String) (d : Dict String HtlcContract) → AreNonneg d → AreNonneg (erase k d)
erase-AreNonneg k [] a = tt
erase-AreNonneg k ((j, g) ∷ d) a = ground (arith, erase-AreNonneg k d a.1)

pub lookup-AreNonneg :
    (k : String) (old : HtlcContract) (d : Dict String HtlcContract)
    → AreNonneg d
    → lookup k d ≡ some old
    → pos 0 ≤ℤ old.amount_sat
lookup-AreNonneg k old [] a e = cc
lookup-AreNonneg k old ((j, g) ∷ d) a e = ground (arith, lookup-AreNonneg k old d a.1)
