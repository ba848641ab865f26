-- ===== src/Domain/Channel/Ledger.antt =====
-- domain/channel.py: what a channel promises, as a ledger of two pots and of promises by id. It forgets
-- the order of the HTLCs and all that is kept about them besides who offered what on which terms.
use unito_blockchain_25_26_p.Base.{
  List, Option, String, [], if◌then◌else◌, none, some, string_eq, ◌==◌, ◌∷◌, ◌≡◌,
}
use unito_blockchain_25_26_p.Base.Int.{ℤ, ◌+ℤ◌, ◌-ℤ◌, ◌≤ℤ◌}
use unito_blockchain_25_26_p.Domain.Predicates.{Hashes, preimage_digest}

pub data Side : Type 0 where
  of_sender of_receiver : Side

abbrev pub other : Side → Side
other of_sender = of_receiver
other of_receiver = of_sender

-- An amount that one side has set aside until a preimage or a timeout.
pub record Promise : Type 0 where
  pub side : Side
  pub amount : ℤ
  pub digest : String
  pub timeout : ℤ

pub record Ledger : Type 0 where
  pub sender : ℤ
  pub receiver : ℤ
  pub promises : String → Option Promise

pub data Event : Type 0 where
  promised : String → Promise → Event
  redeemed : (id preimage_hex : String) → Event
  refunded : (id : String) → (height : ℤ) → Event
  idle : Event

abbrev pub pot : Side → Ledger → ℤ
pot of_sender l = l.sender
pot of_receiver l = l.receiver

abbrev pub pay : Side → ℤ → Ledger → Ledger
pay of_sender amount l = record l { sender = l.sender +ℤ amount }
pay of_receiver amount l = record l { receiver = l.receiver +ℤ amount }

abbrev pub take_from : Side → ℤ → Ledger → Ledger
take_from of_sender amount l = record l { sender = l.sender -ℤ amount }
take_from of_receiver amount l = record l { receiver = l.receiver -ℤ amount }

abbrev pub write : String → Option Promise → Ledger → Ledger
write id p l = record l { promises = λ j. if j == id then p else l.promises j }

-- What an event does. A redemption pays the other side of a promise, a refund the side that made it.
abbrev pub apply : Ledger → Event → Ledger
apply l (promised id p) = write id (some p) (take_from p.side p.amount l)
apply l (redeemed id preimage_hex) = elim (l.promises id) [
  | none ↦ l
  | some p ↦ write id none (pay (other p.side) p.amount l)
]
apply l (refunded id height) = elim (l.promises id) [
  | none ↦ l
  | some p ↦ write id none (pay p.side p.amount l)
]
apply l idle = l

-- When an event may happen: a promise under a new id and of no more than its side has, a redemption of a
-- promise with a preimage of its digest, a refund of a promise at its timeout or later.
abbrev pub Allows : Hashes → Ledger → Event → Type 0
Allows hs l (promised id p) = (l.promises id ≡ none) × (p.amount ≤ℤ pot p.side l)
Allows hs l (redeemed id preimage_hex) =
    (p : Promise) × (l.promises id ≡ some p) × (preimage_digest hs preimage_hex ≡ some p.digest)
Allows hs l (refunded id height) = (p : Promise) × (l.promises id ≡ some p) × (p.timeout ≤ℤ height)
Allows hs l idle = Unit

abbrev pub replay : Ledger → List Event → Ledger
replay l [] = l
replay l (event ∷ events) = replay (apply l event) events

abbrev pub AllowsAll : Hashes → Ledger → List Event → Type 0
AllowsAll hs l [] = Unit
AllowsAll hs l (event ∷ events) = Allows hs l event × AllowsAll hs (apply l event) events

pub ledger_eq :
    (l m : Ledger)
    → l.sender ≡ m.sender
    → l.receiver ≡ m.receiver
    → ((id : String) → l.promises id ≡ m.promises id)
    → l ≡ m
ledger_eq l m s r p = λ i. record { sender = s i; receiver = r i; promises = λ id. p id i }
