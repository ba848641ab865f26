-- ===== src/Protocols/Revocation/Scripts.antt =====
-- src/payment_communities/protocols/revocation.py: `create_revocable_output_script`.
use unito_blockchain_25_26_p.Base.{Bytes, [], ◌∷◌}
use unito_blockchain_25_26_p.Base.Int.{ℤ}
use unito_blockchain_25_26_p.Bitcoin.Script.{
  Script, code, int, op_checksequenceverify, op_checksig, op_drop, op_else, op_endif, op_if, push,
}

unfoldable pub create_revocable_output_script : Bytes → Bytes → ℤ → Script
create_revocable_output_script revocation_pubkey local_pubkey to_self_delay =
    code op_if
    ∷ push revocation_pubkey
    ∷ code op_checksig
    ∷ code op_else
    ∷ int to_self_delay
    ∷ code op_checksequenceverify
    ∷ code op_drop
    ∷ push local_pubkey
    ∷ code op_checksig
    ∷ code op_endif
    ∷ []
