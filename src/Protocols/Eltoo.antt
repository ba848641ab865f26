-- ===== src/Protocols/Eltoo.antt =====
-- src/payment_communities/protocols/eltoo.py: states, and the update and settlement transactions.
pub mod Updates
mod Tests
use unito_blockchain_25_26_p.Base.{
  ℕ, ◌+◌, Bool, true, Option, none, some, List, [], ◌∷◌, Bytes, bytes_beq, leb, if◌then◌else◌,
  String,
}
use unito_blockchain_25_26_p.Base.Int.{ℤ, ◌+ℤ◌}
use unito_blockchain_25_26_p.Config.{eltoo_base_locktime, sequence_cltv_enable_mask}
use unito_blockchain_25_26_p.Errors.{Result, ok, err, payment_community}
use unito_blockchain_25_26_p.Bitcoin.Script.{code, push, op_0, Script}
use unito_blockchain_25_26_p.Bitcoin.Contracts.{create_p2wpkh}
use unito_blockchain_25_26_p.Bitcoin.Builder.{
  BitcoinLibrary, Transaction, TransactionBuilder, new_builder, add_input, add_output,
  add_witness_stack, build,
}
use unito_blockchain_25_26_p.Bitcoin.Signatures.{Secret, ordered_signatures}

pub record EltooState : Type 0 where
  pub state_number : ℕ
  pub sender_balance_sat : ℤ
  pub receiver_balance_sat : ℤ

-- The property `locktime`.
unfoldable pub eltoo_locktime : EltooState → ℕ
eltoo_locktime state = eltoo_base_locktime + state.state_number

abbrev pub total_sat : EltooState → ℤ
total_sat state = state.sender_balance_sat +ℤ state.receiver_balance_sat

unfoldable pub validate_eltoo_override : EltooState → EltooState → Result Bool
validate_eltoo_override broadcast_state current_state =
    if leb current_state.state_number broadcast_state.state_number
    then err payment_community
    else ok true

-- Both secrets, where both are given.
abbrev pub both_secrets : Option Secret → Option Secret → Option (Secret × Secret)
both_secrets none receiver = none
both_secrets (some sender) none = none
both_secrets (some sender) (some receiver) = some (sender, receiver)

-- The signatures by the order of the keys, over the first input of `tx`, or those that were given.
unfoldable pub eltoo_signatures :
    BitcoinLibrary
    → Transaction
    → Bytes
    → ℤ
    → Bytes × Bytes
    → Option (Secret × Secret)
    → Bytes × Bytes
eltoo_signatures lib tx redeem capacity given none = given
eltoo_signatures lib tx redeem capacity given (some (sender, receiver)) =
    ordered_signatures sender receiver (lib.signature_hash redeem tx 0 1 capacity)

-- `ScriptFactory.witness_multisig_2of2` of a script that is given by its bytes.
abbrev pub multisig_witness : Bytes × Bytes → Bytes → List Bytes
multisig_witness sigs redeem = [] ∷ sigs.0 ∷ sigs.1 ∷ redeem ∷ []

-- The builder of an update transaction, which the code writes out twice.
unfoldable pub update_builder :
    BitcoinLibrary → String → ℕ → EltooState → Bytes → TransactionBuilder
unfolding add_input add_output eltoo_locktime
update_builder lib spending_txid spending_vout state redeem =
    add_output (total_sat state) (code op_0 ∷ push (lib.sha256 redeem) ∷ []) (
      add_input spending_txid spending_vout sequence_cltv_enable_mask
        (new_builder (eltoo_locktime state)))

unfoldable pub create_eltoo_update_transaction :
    BitcoinLibrary
    → (spending_txid : String) → (spending_vout : ℕ) → EltooState
    → (multisig_redeem_script : Bytes) → (given : Bytes × Bytes)
    → (sec_sender sec_receiver : Option Secret) → Transaction
unfolding update_builder add_witness_stack build eltoo_signatures
create_eltoo_update_transaction lib spending_txid spending_vout state redeem given sec_sender
      sec_receiver =
    let builder = update_builder lib spending_txid spending_vout state redeem in
    let sigs =
      eltoo_signatures lib (build builder) redeem (total_sat state) given
        (both_secrets sec_sender sec_receiver) in
    build (add_witness_stack (multisig_witness sigs redeem) builder)

-- The builder of a settlement transaction.
unfoldable pub settlement_builder :
    BitcoinLibrary → String → ℕ → Bytes → Bytes → EltooState → TransactionBuilder
unfolding add_input add_output create_p2wpkh
settlement_builder lib update_txid update_vout sender_pubkey receiver_pubkey state =
    add_output state.receiver_balance_sat (create_p2wpkh lib.hash160 receiver_pubkey) (
      add_output state.sender_balance_sat (create_p2wpkh lib.hash160 sender_pubkey)
        (add_input update_txid update_vout sequence_cltv_enable_mask (new_builder 0)))

-- The given signatures stand where a secret is missing or the script is empty.
unfoldable pub create_eltoo_settlement_transaction :
    BitcoinLibrary
    → (update_txid : String) → (update_vout : ℕ) → (sender_pubkey receiver_pubkey : Bytes)
    → EltooState
    → (given : Bytes × Bytes) → (multisig_redeem_script : Bytes)
    → (sec_sender sec_receiver : Option Secret) → Transaction
unfolding settlement_builder add_witness_stack build eltoo_signatures
create_eltoo_settlement_transaction lib update_txid update_vout sender_pubkey receiver_pubkey state
      given redeem sec_sender sec_receiver =
    let builder =
      settlement_builder lib update_txid update_vout sender_pubkey receiver_pubkey state in
    let secrets = if bytes_beq redeem [] then none else both_secrets sec_sender sec_receiver in
    let sigs = eltoo_signatures lib (build builder) redeem (total_sat state) given secrets in
    build (add_witness_stack (multisig_witness sigs redeem) builder)
