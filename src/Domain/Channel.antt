-- ===== src/Domain/Channel.antt =====
-- src/payment_communities/domain/channel.py: the methods of `HTLCContract` and `Channel`. A method
-- returns its result, or the exception it raises, beside the objects it has written to.
pub mod Funds
pub mod Invariant
pub mod Settlement
pub mod Refusals
pub mod Revoked
pub mod Ledger
pub mod Calls
pub mod Answers
pub mod Writes
pub mod Implements
pub mod Refinement
pub mod Liveness
mod Tests
use unito_blockchain_25_26_p.Base.{
  String, Bool, true, Option, none, some, [], ◌==◌, string_eq, if◌then◌else◌,
}
use unito_blockchain_25_26_p.Base.Int.{ℤ, pos, ◌+ℤ◌, ◌-ℤ◌, ltb_ℤ}
use unito_blockchain_25_26_p.Base.Dict.{Dict, lookup, insert, erase}
use unito_blockchain_25_26_p.Errors.{
  Result, ok, err, channel_state, insufficient_balance, invalid_preimage, htlc_expired,
  revoked_state_broadcast,
}
use unito_blockchain_25_26_p.Protocols.Revocation.Store.{register_remote_secret, is_state_revoked}
use unito_blockchain_25_26_p.Domain.Predicates.{
  Hashes, is_satisfied_by, is_channel_open, has_sufficient_balance, is_htlc_active,
  is_timelock_expired, is_preimage_valid,
}
use unito_blockchain_25_26_p.Domain.Records.{ChannelState, HtlcState, HtlcContract, Channel}

unfoldable pub is_active : HtlcContract → Bool
unfolding is_satisfied_by is_htlc_active
is_active h = is_satisfied_by is_htlc_active h

unfoldable pub is_expired_at : HtlcContract → ℤ → Bool
unfolding is_satisfied_by is_timelock_expired
is_expired_at h block_height = is_satisfied_by (is_timelock_expired block_height) h

unfoldable pub has_valid_preimage : Hashes → HtlcContract → String → Bool
unfolding is_satisfied_by is_preimage_valid
has_valid_preimage hs h preimage_hex = is_satisfied_by (is_preimage_valid hs preimage_hex) h

unfoldable pub is_open : Channel → Bool
unfolding is_satisfied_by is_channel_open
is_open c = is_satisfied_by is_channel_open c

unfoldable pub has_sufficient_sender_balance_for : Channel → ℤ → Bool
unfolding is_satisfied_by has_sufficient_balance
has_sufficient_sender_balance_for c amount = is_satisfied_by (has_sufficient_balance amount) c

unfoldable pub get_balance : Channel → String → ℤ
get_balance c node_alias =
    if node_alias == c.sender_alias
    then c.balance_sender_sat
    else if node_alias == c.receiver_alias
    then c.balance_receiver_sat
    else pos 0

-- `a or b`, where `a` is an alias that may be `None` or empty.
abbrev pub or_alias : Option String → String → String
or_alias none b = b
or_alias (some a) b = if a == "" then b else a

-- `self.active_htlcs[htlc.htlc_id] = htlc; self.sequence_number += 1`
abbrev enter_htlc : Channel → HtlcContract → Channel
enter_htlc c h = record c {
  active_htlcs = insert h.htlc_id h c.active_htlcs;
  sequence_number = c.sequence_number +ℤ pos 1;
}

-- `del self.active_htlcs[htlc_id]; self.sequence_number += 1`
abbrev leave_htlc : Channel → String → Channel
leave_htlc c htlc_id = record c {
  active_htlcs = erase htlc_id c.active_htlcs;
  sequence_number = c.sequence_number +ℤ pos 1;
}

-- The offerer that `add_htlc` resolves; it writes it to the contract before the balance checks.
unfoldable pub resolve_offerer : Channel → HtlcContract → Option String → String
resolve_offerer c h offerer_alias = or_alias offerer_alias (or_alias h.offerer_alias c.sender_alias)

-- The branches of `add_htlc` once the offerer is known.
offer : Channel → HtlcContract → String → Result Bool × Channel
unfolding has_sufficient_sender_balance_for
offer c h offerer =
    if offerer == c.sender_alias
    then (if has_sufficient_sender_balance_for c h.amount_sat
        then (
          ok true,
          enter_htlc (record c { balance_sender_sat = c.balance_sender_sat -ℤ h.amount_sat }) h,
        )
        else (err insufficient_balance, c))
    else if offerer == c.receiver_alias
    then (if ltb_ℤ c.balance_receiver_sat h.amount_sat then (err insufficient_balance, c) else (
      ok true,
      enter_htlc (record c { balance_receiver_sat = c.balance_receiver_sat -ℤ h.amount_sat }) h,
    ))
    else (err channel_state, c)

-- `add_htlc` of a contract object that the channel does not hold yet.
unfoldable pub add_htlc :
    Channel → HtlcContract → Option String → Result Bool × Channel × HtlcContract
unfolding is_open resolve_offerer offer
add_htlc c h offerer_alias =
    if is_open c
    then (let offerer = resolve_offerer c h offerer_alias in
        let h' = record h { offerer_alias = some offerer } in
        let (result, c') = offer c h' offerer in (result, c', h'))
    else (err channel_state, c, h)

-- `add_htlc` of the contract object that the channel holds under the given id. The offerer is written
-- to it before the balance checks, so the channel sees that write also where they raise.
add_pending :
    Channel → String → Option String → Option HtlcContract → Option (Result Bool × Channel)
unfolding is_open resolve_offerer offer
add_pending c htlc_id offerer_alias none = none
add_pending c htlc_id offerer_alias (some h) =
    if is_open c
    then (let offerer = resolve_offerer c h offerer_alias in
        let h' = record h { offerer_alias = some offerer } in
        some (offer (record c { active_htlcs = insert htlc_id h' c.active_htlcs }) h' offerer))
    else some (err channel_state, c)

-- The result is `none` where the channel holds no object under the id.
unfoldable pub add_pending_htlc : Channel → String → Option String → Option (Result Bool × Channel)
unfolding add_pending
add_pending_htlc c htlc_id offerer_alias =
    add_pending c htlc_id offerer_alias (lookup htlc_id c.active_htlcs)

-- The counterparty of the offerer is credited.
unfoldable pub credit_counterparty : Channel → HtlcContract → Channel
credit_counterparty c h =
    if or_alias h.offerer_alias c.sender_alias == c.sender_alias
    then record c { balance_receiver_sat = c.balance_receiver_sat +ℤ h.amount_sat }
    else record c { balance_sender_sat = c.balance_sender_sat +ℤ h.amount_sat }

-- The offerer gets its funds back.
unfoldable pub restore_offerer : Channel → HtlcContract → Channel
restore_offerer c h =
    if or_alias h.offerer_alias c.sender_alias == c.sender_alias
    then record c { balance_sender_sat = c.balance_sender_sat +ℤ h.amount_sat }
    else record c { balance_receiver_sat = c.balance_receiver_sat +ℤ h.amount_sat }

-- `redeem_htlc` on the contract that the id stands for; the third part is that contract after the
-- writes to it.
redeem_found :
    Hashes
    → Channel
    → String
    → String
    → Option HtlcContract
    → Result Bool × Channel × Option HtlcContract
unfolding is_active has_valid_preimage credit_counterparty
redeem_found hs c htlc_id preimage_hex none = (err channel_state, c, none)
redeem_found hs c htlc_id preimage_hex (some h) =
    if is_active h
    then (if has_valid_preimage hs h preimage_hex
        then (let h' = record h {
          preimage = some preimage_hex;
          settled = true;
          state = HtlcState.settled;
        } in
            (ok true, leave_htlc (credit_counterparty c h') htlc_id, some h'))
        else (err invalid_preimage, c, some h))
    else (err channel_state, c, some h)

unfoldable pub redeem_htlc :
    Hashes → Channel → String → String → Result Bool × Channel × Option HtlcContract
unfolding redeem_found
redeem_htlc hs c htlc_id preimage_hex =
    redeem_found hs c htlc_id preimage_hex (lookup htlc_id c.active_htlcs)

refund_found :
    Channel → String → ℤ → Option HtlcContract → Result Bool × Channel × Option HtlcContract
unfolding is_expired_at restore_offerer
refund_found c htlc_id current_block_height none = (err channel_state, c, none)
refund_found c htlc_id current_block_height (some h) =
    if is_expired_at h current_block_height
    then (let h' = record h { refunded = true; state = HtlcState.refunded } in
        (ok true, leave_htlc (restore_offerer c h') htlc_id, some h'))
    else (err htlc_expired, c, some h)

unfoldable pub refund_htlc : Channel → String → ℤ → Result Bool × Channel × Option HtlcContract
unfolding refund_found
refund_htlc c htlc_id current_block_height =
    refund_found c htlc_id current_block_height (lookup htlc_id c.active_htlcs)

unfoldable pub revoke_prior_state : Channel → ℤ → String → Channel
unfolding register_remote_secret
revoke_prior_state c commitment_number secret_hex = record c {
  revocation_store = register_remote_secret c.revocation_store commitment_number secret_hex;
}

unfoldable pub verify_commitment_not_revoked : Channel → ℤ → Result (Unit {0})
unfolding is_state_revoked
verify_commitment_not_revoked c commitment_number =
    if is_state_revoked c.revocation_store commitment_number
    then err revoked_state_broadcast
    else ok tt

-- The final balances, as a dict display: a later entry replaces an earlier one of the same alias.
unfoldable pub close_cooperatively : Channel → Dict String ℤ × Channel
close_cooperatively c = (
  insert c.receiver_alias c.balance_receiver_sat (insert c.sender_alias c.balance_sender_sat []),
  record c { state = ChannelState.settled },
)
