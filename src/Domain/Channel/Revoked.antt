-- ===== src/Domain/Channel/Revoked.antt =====
-- domain/channel.py and protocols/revocation.py: which commitments a channel refuses to broadcast.
use unito_blockchain_25_26_p.Base.{
  String, ◌≡◌, refl, true, false, ◌||◌, none, some, [], ◌∷◌, arith, ◌==◌,
}
use unito_blockchain_25_26_p.Base.Int.{ℤ, int_eq}
use unito_blockchain_25_26_p.Base.Dict.{Dict, lookup, insert, keys}
use unito_blockchain_25_26_p.Errors.{err, revoked_state_broadcast}
use unito_blockchain_25_26_p.Domain.Policies.{mem_set}
use unito_blockchain_25_26_p.Domain.Predicates.{Hashes}
use unito_blockchain_25_26_p.Domain.Records.{Channel}
use unito_blockchain_25_26_p.Domain.Channel.{
  add_htlc, redeem_htlc, refund_htlc, revoke_prior_state, verify_commitment_not_revoked,
  close_cooperatively,
}
use unito_blockchain_25_26_p.Domain.Channel.Invariant.{
  Step, offers, redeems, refunds, revokes, closes, Reach, here, next,
}

mem_set-keys :
    (n : ℤ) (d : Dict ℤ String)
    → mem_set n (keys d) ≡ elim (lookup n d) [ none ↦ false | some _ ↦ true ]
mem_set-keys n [] = refl
mem_set-keys n ((m, s) ∷ d) = ground (arith, int_eq.beq_iff n m, mem_set-keys n d)

mem_set-keys-insert :
    (n m : ℤ) (s : String) (d : Dict ℤ String)
    → mem_set n (keys (insert m s d)) ≡ (n == m || mem_set n (keys d))
mem_set-keys-insert n m s [] = refl
mem_set-keys-insert n m s ((k, t) ∷ d) =
    ground (
      arith,
      int_eq.beq_iff m k,
      int_eq.beq_iff n k,
      int_eq.beq_iff n m,
      mem_set-keys-insert n m s d,
    )

-- Revealing the secret of one commitment revokes that one and no other.
pub revoke_prior_state_exact :
    (c : Channel) (n m : ℤ) (secret_hex : String)
    → verify_commitment_not_revoked (revoke_prior_state c n secret_hex) m ≡ elim (m == n) [
      | true ↦ err revoked_state_broadcast
      | false ↦ verify_commitment_not_revoked c m
    ]
unfolding revoke_prior_state verify_commitment_not_revoked
revoke_prior_state_exact c n m s =
    ground (arith, mem_set-keys-insert m n s c.revocation_store.remote_revealed_secrets)

abbrev IsRevoked : ℤ → Channel → Type 0
IsRevoked n c = mem_set n (keys c.revocation_store.remote_revealed_secrets) ≡ true

Step-IsRevoked : {hs : Hashes} {c d : Channel} (n : ℤ) → Step hs c d → IsRevoked n c → IsRevoked n d
unfolding add_htlc redeem_htlc refund_htlc revoke_prior_state close_cooperatively
Step-IsRevoked n (offers c h a p fresh) r = ground arith
Step-IsRevoked n (redeems c k p) r = ground arith
Step-IsRevoked n (refunds c k height) r = ground arith
Step-IsRevoked n (revokes c m s) r =
    ground (arith, mem_set-keys-insert n m s c.revocation_store.remote_revealed_secrets)
Step-IsRevoked n (closes c) r = r

Reach-IsRevoked :
    {hs : Hashes} {c d : Channel} (n : ℤ) → IsRevoked n c → Reach hs c d → IsRevoked n d
Reach-IsRevoked n r here = r
Reach-IsRevoked n r (next p s) = Step-IsRevoked n s (Reach-IsRevoked n r p)

-- A revoked commitment stays revoked: however the channel is used after the secret is revealed,
-- where HTLCs are offered under new ids and of amounts that are not negative, a broadcast of the
-- commitment is refused.
pub revoked_for_ever :
    {hs : Hashes} (c : Channel) {d : Channel} (n : ℤ) (secret_hex : String)
    → Reach hs (revoke_prior_state c n secret_hex) d
    → verify_commitment_not_revoked d n ≡ err revoked_state_broadcast
unfolding revoke_prior_state verify_commitment_not_revoked
revoked_for_ever c n s p =
    let revealed : IsRevoked n (revoke_prior_state c n s) = ground (
      arith,
      mem_set-keys-insert n n s c.revocation_store.remote_revealed_secrets,
      int_eq.beq_iff n n,
    ) in
    ground (arith, Reach-IsRevoked n revealed p)
