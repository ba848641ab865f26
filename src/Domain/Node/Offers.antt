-- ===== src/Domain/Node/Offers.antt =====
-- domain/node.py: what `route_htlc_payment` and `fulfill_htlc` write, in terms of the channel.
use unito_blockchain_25_26_p.Base.{
  ℕ, ◌≡◌, ◌==◌, nat_eq, String, string_eq, true, some, arith, Bytes, refl, Bool, Bool-cases, Option,
  inl, inr, ◌∙◌, ap,
}
use unito_blockchain_25_26_p.Base.Int.{ℤ, pos, int_eq, ◌+ℤ◌}
use unito_blockchain_25_26_p.Base.Dict.{lookup, lookup-insert_self, Dict, insert}
use unito_blockchain_25_26_p.Errors.{ok, Result}
use unito_blockchain_25_26_p.Domain.Predicates.{Hashes}
use unito_blockchain_25_26_p.Domain.Records.{Channel, HtlcContract}
use unito_blockchain_25_26_p.Domain.Channel.{add_htlc, redeem_htlc}
use unito_blockchain_25_26_p.Domain.Node.{
  Node, World, get_channel_with, new_htlc, route_htlc_payment, fulfill_htlc, after_offer,
  keep_secret, update,
}

-- An offer that the channel accepts, where the node keeps secrets for the peer.
route_htlc_payment_succeeds :
    (hs : Hashes) (v : World) (self : ℕ) (me k : String) (amount : ℤ) (payment_hash : String)
    (locktime : ℤ) (htlc_id : String) (secret : Bytes) (r : ℕ) (secrets : Dict ℤ String)
    → (v.node self).alias ≡ me
    → get_channel_with (v.node self) k ≡ ok r
    → lookup k (v.node self).revocation_secrets ≡ some secrets
    → let (result, c, _) =
        add_htlc
          (v.channel r)
          (new_htlc htlc_id payment_hash amount locktime (some me))
          (some me) in
      result ≡ ok true
      → route_htlc_payment hs v self k amount payment_hash locktime htlc_id secret ≡ (
        ok true,
        record v {
          channel = update v.channel r c;
          node = update v.node self (record (v.node self) {
            revocation_secrets =
                insert k
                  (insert c.sequence_number (hs.b2x secret) secrets)
                  (v.node self).revocation_secrets;
          });
        },
      )
unfolding route_htlc_payment
route_htlc_payment_succeeds hs v self me k amount payment_hash locktime htlc_id secret r secrets
      named found kept =
    rw (← named) (λ done.
      rw (found, route_htlc_payment) (rw (done, after_offer) (rw (kept, keep_secret) refl)))

-- A node finds its channels where only its secrets have changed.
get_channel_with-secrets :
    (node : ℕ → Node) (self i : ℕ) (secrets : Dict String (Dict ℤ String)) (k : String)
    → get_channel_with (update node self (record (node self) { revocation_secrets = secrets }) i) k
      ≡ get_channel_with (node i) k
unfolding get_channel_with
get_channel_with-secrets node self i secrets k = elim (Bool-cases (i == self)) [
  | inl same ↦ rw (same, (nat_eq.beq_iff i self).0 same) refl
  | inr other ↦ rw other refl
]

fulfill_htlc_found :
    (hs : Hashes) (v : World) (self r : ℕ) (k htlc_id preimage_hex : String)
    → get_channel_with (v.node self) k ≡ ok r
    → let (result, c, _) = redeem_htlc hs (v.channel r) htlc_id preimage_hex in
      fulfill_htlc hs v self k htlc_id preimage_hex
      ≡ (result, record v { channel = update v.channel r c })
unfolding fulfill_htlc
fulfill_htlc_found hs v self r k htlc_id preimage_hex found = rw (found, fulfill_htlc) refl

pub add_htlc-sequence :
    (c : Channel) (h : HtlcContract) (a : Option String)
    → (add_htlc c h a).0 ≡ ok true
    → (add_htlc c h a).1.sequence_number ≡ c.sequence_number +ℤ pos 1
unfolding add_htlc
add_htlc-sequence c h a done = ground arith

module _ (hs : Hashes) (v : World) (self peer r : ℕ) (me you : String) (amount locktime : ℤ)
    (payment_hash preimage_hex : String) (secret : Bytes) (htlc_id : String)
    (secrets : Dict ℤ String) (named : (v.node self).alias ≡ me)
    (mine : get_channel_with (v.node self) you ≡ ok r)
    (theirs : get_channel_with (v.node peer) me ≡ ok r)
    (kept : lookup you (v.node self).revocation_secrets ≡ some secrets) where
  abbrev pub htlc : HtlcContract
  htlc = new_htlc htlc_id payment_hash amount locktime (some me)

  abbrev pub routed : Result Bool × World
  routed = route_htlc_payment hs v self you amount payment_hash locktime htlc_id secret

  abbrev pub fulfilled : Result Bool × World
  fulfilled = fulfill_htlc hs routed.1 peer me htlc_id preimage_hex

  abbrev pub locked_channel : Channel
  locked_channel = (add_htlc (v.channel r) htlc (some me)).1

  abbrev pub settled : Result Bool × Channel × Option HtlcContract
  settled = redeem_htlc hs locked_channel htlc_id preimage_hex

  abbrev sent_secrets : Dict String (Dict ℤ String)
  sent_secrets =
      insert you (insert locked_channel.sequence_number (hs.b2x secret) secrets)
        (v.node self).revocation_secrets

  abbrev sent : World
  sent = record v {
    channel = update v.channel r locked_channel;
    node = update v.node self (record (v.node self) { revocation_secrets = sent_secrets });
  }

  fulfilled_lem :
      fulfill_htlc hs sent peer me htlc_id preimage_hex
      ≡ (settled.0, record sent { channel = update sent.channel r settled.1 })
  fulfilled_lem =
      let found = get_channel_with-secrets v.node self peer sent_secrets me ∙ theirs in
      let same : sent.channel r ≡ locked_channel = ground arith in
      fulfill_htlc_found hs sent peer r me htlc_id preimage_hex found
      ∙ ap
          (λ (c : Channel).
            let (result, d, _) = redeem_htlc hs c htlc_id preimage_hex in
            (result, record sent { channel = update sent.channel r d }))
          same

  -- What the two calls return and leave, in terms of the methods of the channel.
  pub routed_fulfilled :
      (add_htlc (v.channel r) htlc (some me)).0 ≡ ok true
      → (routed.0 ≡ ok true)
        × (fulfilled.0 ≡ settled.0)
        × (fulfilled.1.channel ≡ update (update v.channel r locked_channel) r settled.1)
        × (lookup you (fulfilled.1.node self).revocation_secrets
            ≡ some (insert locked_channel.sequence_number (hs.b2x secret) secrets))
  routed_fulfilled accepted =
      let stored =
        lookup-insert_self you (insert locked_channel.sequence_number (hs.b2x secret) secrets)
          (v.node self).revocation_secrets in
      let routes =
        route_htlc_payment_succeeds hs v self me you amount payment_hash locktime htlc_id secret r
          secrets named mine kept accepted in
      rw routes (rw fulfilled_lem (refl, refl, refl, ground (arith, stored)))
