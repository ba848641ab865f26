-- ===== src/Domain/Channel/Liveness.antt =====
-- domain/channel.py: a channel can always be wound up.
use unito_blockchain_25_26_p.Base.{
  String, string_eq, ◌≡◌, refl, [], ◌∷◌, arith, ◌∙◌, Bool, if◌then◌else◌, sym, true, ◌==◌, ap,
}
use unito_blockchain_25_26_p.Base.Int.{ℤ, ◌+ℤ◌, ◌≤ℤ◌, int_laws, pos}
use unito_blockchain_25_26_p.Base.Dict.{Dict}
use unito_blockchain_25_26_p.Domain.Records.{HtlcContract, Channel}
use unito_blockchain_25_26_p.Domain.Channel.{refund_htlc, or_alias}
use unito_blockchain_25_26_p.Errors.{ok}

-- The height has reached the locktime of every HTLC in a dict.
abbrev pub AreExpiredAt : ℤ → Dict String HtlcContract → Type 0
AreExpiredAt height [] = Unit
AreExpiredAt height ((k, h) ∷ d) = (h.locktime ≤ℤ height) × AreExpiredAt height d

add_zero : (a : ℤ) → a +ℤ pos 0 ≡ a
add_zero a = omega int_laws

add_assoc : (a b c : ℤ) → a +ℤ b +ℤ c ≡ a +ℤ (b +ℤ c)
add_assoc a b c = omega int_laws

-- Refunds at one height, none of which raises, lead from one channel to another.
pub data Refunds (height : ℤ) : Channel → Channel → Type 0 where
  done : (c : Channel) → Refunds height c c
  refund :
      (c d : Channel) (htlc_id : String)
      → (refund_htlc c htlc_id height).0 ≡ ok true
      → Refunds height (refund_htlc c htlc_id height).1 d
      → Refunds height c d

-- Whether the sender of a channel with the given sender alias offered an HTLC.
abbrev pub is_senders : String → HtlcContract → Bool
is_senders sender_alias h = or_alias h.offerer_alias sender_alias == sender_alias

-- What the HTLCs of a dict hold that the sender offered, and that the other party offered.
abbrev pub locked_by_sender : String → Dict String HtlcContract → ℤ
locked_by_sender sender_alias [] = pos 0
locked_by_sender sender_alias ((k, h) ∷ d) =
    (if is_senders sender_alias h then h.amount_sat else pos 0) +ℤ locked_by_sender sender_alias d

abbrev pub locked_by_receiver : String → Dict String HtlcContract → ℤ
locked_by_receiver sender_alias [] = pos 0
locked_by_receiver sender_alias ((k, h) ∷ d) =
    (if is_senders sender_alias h then pos 0 else h.amount_sat) +ℤ locked_by_receiver sender_alias d

module _ (c : Channel) (k : String) (h : HtlcContract) (d : Dict String HtlcContract) (height : ℤ)
    (first : c.active_htlcs ≡ (k, h) ∷ d) (expired : h.locktime ≤ℤ height) where
  -- The refund of the HTLC that stands first succeeds, leaves the others and pays its offerer.
  refund_htlc_first :
      ((refund_htlc c k height).0 ≡ ok true)
      × ((refund_htlc c k height).1.active_htlcs ≡ d)
      × ((refund_htlc c k height).1.sender_alias ≡ c.sender_alias)
  unfolding refund_htlc
  refund_htlc_first = ground (arith, string_eq.beq_iff k k)

  refund_htlc_pays :
      ((refund_htlc c k height).1.balance_sender_sat
        ≡ c.balance_sender_sat +ℤ (if is_senders c.sender_alias h then h.amount_sat else pos 0))
      × ((refund_htlc c k height).1.balance_receiver_sat
          ≡ c.balance_receiver_sat +ℤ (if is_senders c.sender_alias h then pos 0 else h.amount_sat))
  unfolding refund_htlc
  refund_htlc_pays =
      ground (
        arith,
        string_eq.beq_iff k k,
        add_zero c.balance_sender_sat,
        add_zero c.balance_receiver_sat,
      )

wind_up_from :
    (sender_alias : String) (c : Channel) (ds : Dict String HtlcContract) (height : ℤ)
    → c.sender_alias ≡ sender_alias
    → c.active_htlcs ≡ ds
    → AreExpiredAt height ds
    → (d : Channel) × Refunds height c d
      × (d.active_htlcs ≡ [])
      × (d.balance_sender_sat ≡ c.balance_sender_sat +ℤ locked_by_sender sender_alias ds)
      × (d.balance_receiver_sat ≡ c.balance_receiver_sat +ℤ locked_by_receiver sender_alias ds)
wind_up_from a c [] height named e expired =
    (c, done c, e, sym (add_zero c.balance_sender_sat), sym (add_zero c.balance_receiver_sat))
wind_up_from a c ((k, h) ∷ ds) height named e (now, later) =
    let (good, left, same) = refund_htlc_first c k h ds height e now in
    let (to_sender, to_receiver) = refund_htlc_pays c k h ds height e now in
    let (d, steps, none_left, s, r) =
      wind_up_from a (refund_htlc c k height).1 ds height (same ∙ named) left later in
    (
      d,
      refund c d k good steps,
      none_left,
      s
          ∙ ap (λ (b : ℤ). b +ℤ locked_by_sender a ds)
              (to_sender
                ∙ ap
                    (λ (n : String).
                      c.balance_sender_sat +ℤ (if is_senders n h then h.amount_sat else pos 0))
                    named)
          ∙ add_assoc c.balance_sender_sat (if is_senders a h then h.amount_sat else pos 0)
              (locked_by_sender a ds),
      r
          ∙ ap (λ (b : ℤ). b +ℤ locked_by_receiver a ds)
              (to_receiver
                ∙ ap
                    (λ (n : String).
                      c.balance_receiver_sat +ℤ (if is_senders n h then pos 0 else h.amount_sat))
                    named)
          ∙ add_assoc c.balance_receiver_sat (if is_senders a h then pos 0 else h.amount_sat)
              (locked_by_receiver a ds),
    )

pub wind_up :
    (c : Channel) (height : ℤ)
    → AreExpiredAt height c.active_htlcs
    → (d : Channel) × Refunds height c d
      × (d.active_htlcs ≡ [])
      × (d.balance_sender_sat
          ≡ c.balance_sender_sat +ℤ locked_by_sender c.sender_alias c.active_htlcs)
      × (d.balance_receiver_sat
          ≡ c.balance_receiver_sat +ℤ locked_by_receiver c.sender_alias c.active_htlcs)
wind_up c height expired = wind_up_from c.sender_alias c c.active_htlcs height refl refl expired
