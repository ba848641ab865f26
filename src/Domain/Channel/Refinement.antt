-- ===== src/Domain/Channel/Refinement.antt =====
-- domain/channel.py: the methods of a channel implement the ledger of promises.
use mathlib.Core.Path.{subst}
use unito_blockchain_25_26_p.Domain.Channel.Answers.{AnswersAll, answer_iff}
use unito_blockchain_25_26_p.Domain.Channel.Calls.{
  offers, redeems, refunds, revokes, closes, view, event_of, AreNew, Call, IsNew, after, events_of,
  run_calls,
}
use unito_blockchain_25_26_p.Domain.Channel.Ledger.{AllowsAll, replay}
use unito_blockchain_25_26_p.Base.{refl, string_eq, ◌≡◌, ap, ◌∙◌, List, [], ◌∷◌}
use unito_blockchain_25_26_p.Base.Dict.{HasDistinctKeys}
use unito_blockchain_25_26_p.Domain.Channel.{close_cooperatively, revoke_prior_state}
use unito_blockchain_25_26_p.Domain.Predicates.{Hashes}
use unito_blockchain_25_26_p.Domain.Records.{Channel}
use unito_blockchain_25_26_p.Domain.Channel.Writes.{Implements}
use unito_blockchain_25_26_p.Domain.Channel.Implements.{
  add_htlc-Implements, redeem_htlc-Implements, refund_htlc-Implements,
}

call-Implements :
    (hs : Hashes) (c : Channel) (call : Call)
    → HasDistinctKeys c.active_htlcs
    → IsNew c call
    → Implements hs c (event_of hs c call) (after hs c call)
unfolding revoke_prior_state close_cooperatively
call-Implements hs c (offers h a) distinct fresh = add_htlc-Implements hs c distinct h a fresh
call-Implements hs c (redeems k r) distinct fresh = redeem_htlc-Implements hs c distinct k r
call-Implements hs c (refunds k n) distinct fresh = refund_htlc-Implements hs c distinct k n
call-Implements hs c (revokes n s) distinct fresh = (tt, refl, distinct)
call-Implements hs c closes distinct fresh = (tt, refl, distinct)

-- The methods implement the ledger of promises. For a channel whose HTLC ids are distinct and any
-- sequence of calls that offers HTLCs under ids that are not pending: a call returns exactly where it
-- should (an offer on an open channel by a party that has the amount, a redemption of an HTLC that is
-- neither settled nor refunded with its preimage, a refund of an HTLC at its locktime or later, any
-- revocation or close), the event of each call that returns is one that the ledger allows then, and what
-- the ledger sees of the channel at the end, both balances and who promised what on which terms under
-- each id, is what these events make of what it saw at the start.
pub view-run_calls :
    (hs : Hashes) (c : Channel) (calls : List Call)
    → HasDistinctKeys c.active_htlcs
    → AreNew hs c calls
    → AnswersAll hs c calls
      × AllowsAll hs (view c) (events_of hs c calls)
      × (view (run_calls hs c calls) ≡ replay (view c) (events_of hs c calls))
view-run_calls hs c [] distinct fresh = (tt, tt, refl)
view-run_calls hs c (call ∷ calls) distinct (now, later) =
    let (allowed, seen, left) = call-Implements hs c call distinct now in
    let (answers, rest, same) = view-run_calls hs (after hs c call) calls left later in
    let events = events_of hs (after hs c call) calls in
    (
      (answer_iff hs c call, answers),
      (allowed, subst (λ l. AllowsAll hs l events) seen rest),
      same ∙ ap (λ l. replay l events) seen,
    )
