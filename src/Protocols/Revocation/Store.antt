-- ===== src/Protocols/Revocation/Store.antt =====
-- src/payment_communities/protocols/revocation.py: the store of revealed per-commitment secrets.
use unito_blockchain_25_26_p.Base.{String, Bool, Option, []}
use unito_blockchain_25_26_p.Base.Int.{ℤ, int_eq}
use unito_blockchain_25_26_p.Base.Dict.{Dict, lookup, insert, keys}
use unito_blockchain_25_26_p.Domain.Policies.{policy_is_state_revoked}

-- The policy object has no state: its one method is `policy_is_state_revoked`.
pub record RevocationStore : Type 0 where
  pub local_secrets : Dict ℤ String
  pub remote_revealed_secrets : Dict ℤ String

abbrev pub empty_store : RevocationStore
empty_store = record { local_secrets = []; remote_revealed_secrets = [] }

unfoldable pub register_remote_secret : RevocationStore → ℤ → String → RevocationStore
register_remote_secret store commitment_number secret_hex = record store {
  remote_revealed_secrets = insert commitment_number secret_hex store.remote_revealed_secrets;
}

unfoldable pub is_state_revoked : RevocationStore → ℤ → Bool
unfolding policy_is_state_revoked
is_state_revoked store commitment_number =
    policy_is_state_revoked commitment_number (keys store.remote_revealed_secrets)

unfoldable pub get_revocation_secret : RevocationStore → ℤ → Option String
get_revocation_secret store commitment_number =
    lookup commitment_number store.remote_revealed_secrets
