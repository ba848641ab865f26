-- ===== src/Domain/Channel/Refusals.antt =====
-- domain/channel.py: what the methods refuse, and what they fail to refuse.
use unito_blockchain_25_26_p.Base.{
  ℕ, suc, String, ◌⊎◌, ◌∙◌, [], ◌≡◌, ◌≢◌, ◌↔◌, refl, true, if◌then◌else◌, Option, some, arith,
  string_eq,
}
use unito_blockchain_25_26_p.Base.Int.{ℤ, pos, negsuc, ◌+ℤ◌, ◌-ℤ◌, ◌≤ℤ◌, int_laws, parts_of_eq}
use unito_blockchain_25_26_p.Base.Dict.{lookup, insert, lookup-insert_self, lookup-insert_ne}
use unito_blockchain_25_26_p.Errors.{Error, ok, err, channel_state}
use unito_blockchain_25_26_p.Domain.Predicates.{Hashes}
use unito_blockchain_25_26_p.Domain.Records.{ChannelState, HtlcContract, Channel}
use unito_blockchain_25_26_p.Domain.Channel.{
  resolve_offerer, is_open, add_pending_htlc, add_htlc, redeem_htlc, refund_htlc,
  close_cooperatively,
}
use unito_blockchain_25_26_p.Domain.Channel.Funds.{locked, funds, locked-insert}

-- What a method that raises leaves behind. `redeem_htlc`, `refund_htlc`, and `add_htlc` of a contract
-- object that the channel does not hold, leave the channel as it was. `add_htlc` of the very object that
-- the channel holds under an id leaves a channel that is not open as it was, and changes one thing of an
-- open one: the offerer of that HTLC, which is then the one that the refused call resolved, its argument
-- or else the earlier offerer or else the sender.
pub raises_lem :
    (hs : Hashes) (c : Channel) (h : HtlcContract) (a : Option String)
    (htlc_id preimage_hex : String) (height : ℤ) (e : Error)
    → ((add_htlc c h a).0 ≡ err e → (add_htlc c h a).1 ≡ c)
      × ((redeem_htlc hs c htlc_id preimage_hex).0 ≡ err e
          → (redeem_htlc hs c htlc_id preimage_hex).1 ≡ c)
      × ((refund_htlc c htlc_id height).0 ≡ err e → (refund_htlc c htlc_id height).1 ≡ c)
      × ((held : HtlcContract) (d : Channel)
          → lookup htlc_id c.active_htlcs ≡ some held
          → add_pending_htlc c htlc_id a ≡ some (err e, d)
          → d ≡ (
              if is_open c
              then record c {
                active_htlcs =
                    insert htlc_id
                      (record held { offerer_alias = some (resolve_offerer c held a) })
                      c.active_htlcs;
              }
              else c))
unfolding add_htlc redeem_htlc refund_htlc add_pending_htlc
raises_lem hs c h a k r n e = (
  (λ q. ground arith),
  (λ q. ground arith),
  (λ q. ground arith),
  (λ held d found q. ground arith),
)

-- `add_htlc` succeeds exactly when the channel is open and the resolved offerer is one of the two
-- parties and holds the amount.
pub add_htlc_iff :
    (c : Channel) (h : HtlcContract) (a : Option String)
    → let offerer = resolve_offerer c h a in
      ((add_htlc c h a).0 ≡ ok true) ↔ (
        (c.state ≡ ChannelState.opened)
        × (((offerer ≡ c.sender_alias) × (h.amount_sat ≤ℤ c.balance_sender_sat))
            ⊎ ((offerer ≢ c.sender_alias)
                × (offerer ≡ c.receiver_alias)
                × (h.amount_sat ≤ℤ c.balance_receiver_sat))))
unfolding add_htlc
add_htlc_iff c h a = (
  (λ q. ground (
    arith,
    string_eq.beq_iff (resolve_offerer c h a) c.sender_alias,
    string_eq.beq_iff (resolve_offerer c h a) c.receiver_alias,
  )),
  (λ q. ground (
    arith,
    string_eq.beq_iff (resolve_offerer c h a) c.sender_alias,
    string_eq.beq_iff (resolve_offerer c h a) c.receiver_alias,
  )),
)

moved_from_sender :
    (s r amount old before after : ℤ)
    → after +ℤ old ≡ before +ℤ amount
    → s -ℤ amount +ℤ r +ℤ after +ℤ old ≡ s +ℤ r +ℤ before
moved_from_sender s r amount old before after h = omega (int_laws, parts_of_eq h)

moved_from_receiver :
    (s r amount old before after : ℤ)
    → after +ℤ old ≡ before +ℤ amount
    → s +ℤ (r -ℤ amount) +ℤ after +ℤ old ≡ s +ℤ r +ℤ before
moved_from_receiver s r amount old before after h = omega (int_laws, parts_of_eq h)

-- A successful offer under an id that is already pending replaces the pending HTLC: the funds of
-- the channel fall by the amount of the one that was there.
pub add_htlc_duplicate :
    (c : Channel) (h old : HtlcContract) (a : Option String)
    → lookup h.htlc_id c.active_htlcs ≡ some old
    → (add_htlc c h a).0 ≡ ok true
    → funds (add_htlc c h a).1 +ℤ old.amount_sat ≡ funds c
unfolding add_htlc funds
add_htlc_duplicate c h old a found done =
    let h' = record h { offerer_alias = some (resolve_offerer c h a) } in
    let replaced = locked-insert h.htlc_id h' old c.active_htlcs found in
    let after = locked (insert h.htlc_id h' c.active_htlcs) in
    let s = c.balance_sender_sat in
    let r = c.balance_receiver_sat in
    ground (
      arith,
      moved_from_sender s r h.amount_sat old.amount_sat (locked c.active_htlcs) after replaced,
      moved_from_receiver s r h.amount_sat old.amount_sat (locked c.active_htlcs) after replaced,
    )

-- On an open channel whose sender has no negative balance, an HTLC of a negative amount that the
-- sender offers is accepted, and raises the balance of the sender by what the amount is short of
-- zero.
pub add_htlc_negative :
    (c : Channel) (h : HtlcContract) (a : Option String) (n : ℕ)
    → c.state ≡ ChannelState.opened
    → resolve_offerer c h a ≡ c.sender_alias
    → pos 0 ≤ℤ c.balance_sender_sat
    → h.amount_sat ≡ negsuc n
    → ((add_htlc c h a).0 ≡ ok true)
      × ((add_htlc c h a).1.balance_sender_sat ≡ c.balance_sender_sat +ℤ pos (suc n))
unfolding add_htlc ◌+ℤ◌ ◌-ℤ◌
add_htlc_negative c h a n o r b e =
    ground (arith, string_eq.beq_iff (resolve_offerer c h a) c.sender_alias)

breakdown_lookups :
    (s r : String) (a b : ℤ)
    → s ≢ r
    → (lookup s (insert r b (insert s a [])) ≡ some a)
      × (lookup r (insert r b (insert s a [])) ≡ some b)
breakdown_lookups s r a b ne = (
  lookup-insert_ne r s b (insert s a []) ne ∙ lookup-insert_self s a [],
  lookup-insert_self r b (insert s a []),
)

-- Where the two parties differ, a cooperative close pays both balances out and leaves out exactly
-- what pending HTLCs hold; from then on no HTLC can be offered, and redemptions and refunds of
-- pending ones have the outcomes that they had before.
pub close_cooperatively_lem :
    (hs : Hashes) (c : Channel) (h : HtlcContract) (a : Option String)
    (htlc_id preimage_hex : String) (height : ℤ)
    → c.sender_alias ≢ c.receiver_alias
    → let (breakdown, d) = close_cooperatively c in
      (lookup c.sender_alias breakdown ≡ some c.balance_sender_sat)
      × (lookup c.receiver_alias breakdown ≡ some c.balance_receiver_sat)
      × (c.balance_sender_sat +ℤ c.balance_receiver_sat +ℤ locked c.active_htlcs ≡ funds d)
      × (add_htlc d h a ≡ (err channel_state, d, h))
      × ((redeem_htlc hs d htlc_id preimage_hex).0 ≡ (redeem_htlc hs c htlc_id preimage_hex).0)
      × ((refund_htlc d htlc_id height).0 ≡ (refund_htlc c htlc_id height).0)
unfolding close_cooperatively add_htlc redeem_htlc refund_htlc funds
close_cooperatively_lem hs c h a k r n ne =
    let paid =
      breakdown_lookups c.sender_alias c.receiver_alias c.balance_sender_sat c.balance_receiver_sat
        ne in
    (paid.0, paid.1, refl, ground arith, ground arith, ground arith)
