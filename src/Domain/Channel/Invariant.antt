-- ===== src/Domain/Channel/Invariant.antt =====
-- domain/channel.py: a channel keeps its funds, whatever is done to it.
use unito_blockchain_25_26_p.Base.{
  String, string_eq, ◌≡◌, inl, inr, Option, none, some, arith, Option-cases,
}
use unito_blockchain_25_26_p.Base.Int.{ℤ, pos, ◌≤ℤ◌, int_laws}
use unito_blockchain_25_26_p.Base.Dict.{
  lookup, HasDistinctKeys, insert-HasDistinctKeys, erase-HasDistinctKeys,
}
use unito_blockchain_25_26_p.Domain.Predicates.{Hashes}
use unito_blockchain_25_26_p.Domain.Records.{HtlcContract, Channel}
use unito_blockchain_25_26_p.Domain.Channel.{
  resolve_offerer, add_htlc, redeem_htlc, refund_htlc, revoke_prior_state, close_cooperatively,
}
use unito_blockchain_25_26_p.Domain.Channel.Funds.{
  funds, AreNonneg, locked-insert_new, locked-erase, insert-AreNonneg, erase-AreNonneg,
  lookup-AreNonneg,
}

-- The funds make up the capacity, no part of them is negative, and no HTLC id stands twice.
pub record IsFunded (c : Channel) : Type 0 where
  pub total : funds c ≡ c.capacity_sat
  pub sender : pos 0 ≤ℤ c.balance_sender_sat
  pub receiver : pos 0 ≤ℤ c.balance_receiver_sat
  pub amounts : AreNonneg c.active_htlcs
  pub ids : HasDistinctKeys c.active_htlcs

pub add_htlc-IsFunded :
    (c : Channel) (h : HtlcContract) (offerer_alias : Option String)
    → pos 0 ≤ℤ h.amount_sat
    → lookup h.htlc_id c.active_htlcs ≡ none
    → IsFunded c
    → IsFunded (add_htlc c h offerer_alias).1
unfolding add_htlc funds
add_htlc-IsFunded c h a p fresh v =
    let h' = record h { offerer_alias = some (resolve_offerer c h a) } in
    grind (
      int_laws,
      locked-insert_new h.htlc_id h' c.active_htlcs fresh,
      insert-AreNonneg h.htlc_id h' c.active_htlcs v.amounts p,
      insert-HasDistinctKeys h.htlc_id h' c.active_htlcs v.ids,
    )

pub redeem_htlc-IsFunded :
    (hs : Hashes) (c : Channel) (htlc_id preimage_hex : String)
    → IsFunded c
    → IsFunded (redeem_htlc hs c htlc_id preimage_hex).1
unfolding redeem_htlc funds
redeem_htlc-IsFunded hs c k r v = elim (Option-cases (lookup k c.active_htlcs)) [
  | inl missing ↦ ground (arith)
  | inr (h, found) ↦ grind (
    int_laws,
    locked-erase k h c.active_htlcs found,
    erase-AreNonneg k c.active_htlcs v.amounts,
    lookup-AreNonneg k h c.active_htlcs v.amounts found,
    erase-HasDistinctKeys k c.active_htlcs v.ids,
  )
]

pub refund_htlc-IsFunded :
    (c : Channel) (htlc_id : String) (current_block_height : ℤ)
    → IsFunded c
    → IsFunded (refund_htlc c htlc_id current_block_height).1
unfolding refund_htlc funds
refund_htlc-IsFunded c k n v = elim (Option-cases (lookup k c.active_htlcs)) [
  | inl missing ↦ ground (arith)
  | inr (h, found) ↦ grind (
    int_laws,
    locked-erase k h c.active_htlcs found,
    erase-AreNonneg k c.active_htlcs v.amounts,
    lookup-AreNonneg k h c.active_htlcs v.amounts found,
    erase-HasDistinctKeys k c.active_htlcs v.ids,
  )
]

-- What a party may do to a channel. An HTLC that is offered has an id of its own and an amount that
-- is not negative, which `add_htlc` does not check.
pub data Step (hs : Hashes) : Channel → Channel → Type 0 where
  offers :
      (c : Channel) (h : HtlcContract) (offerer_alias : Option String)
      → pos 0 ≤ℤ h.amount_sat
      → lookup h.htlc_id c.active_htlcs ≡ none
      → Step hs c (add_htlc c h offerer_alias).1
  redeems :
      (c : Channel) (htlc_id preimage_hex : String)
      → Step hs c (redeem_htlc hs c htlc_id preimage_hex).1
  refunds :
      (c : Channel) (htlc_id : String) (current_block_height : ℤ)
      → Step hs c (refund_htlc c htlc_id current_block_height).1
  revokes :
      (c : Channel) (commitment_number : ℤ) (secret_hex : String)
      → Step hs c (revoke_prior_state c commitment_number secret_hex)
  closes : (c : Channel) → Step hs c (close_cooperatively c).1

pub data Reach (hs : Hashes) (c : Channel) : Channel → Type 0 where
  here : Reach hs c c
  next : {d e : Channel} → Reach hs c d → Step hs d e → Reach hs c e

Step-IsFunded : {hs : Hashes} {c d : Channel} → Step hs c d → IsFunded c → IsFunded d
unfolding revoke_prior_state close_cooperatively funds
Step-IsFunded (offers c h a p fresh) v = add_htlc-IsFunded c h a p fresh v
Step-IsFunded (redeems c k r) v = redeem_htlc-IsFunded _ c k r v
Step-IsFunded (refunds c k n) v = refund_htlc-IsFunded c k n v
Step-IsFunded (revokes c n s) v = record {
  total = v.total;
  sender = v.sender;
  receiver = v.receiver;
  amounts = v.amounts;
  ids = v.ids;
}
Step-IsFunded (closes c) v = record {
  total = v.total;
  sender = v.sender;
  receiver = v.receiver;
  amounts = v.amounts;
  ids = v.ids;
}

-- However a funded channel is used, where HTLCs are offered under new ids and of amounts that are not
-- negative, its balances and pending HTLCs add up to the capacity, and none
-- of them is negative.
pub Reach-IsFunded : {hs : Hashes} {c d : Channel} → IsFunded c → Reach hs c d → IsFunded d
Reach-IsFunded v here = v
Reach-IsFunded v (next r s) = Step-IsFunded s (Reach-IsFunded v r)
