-- ===== src/Bitcoin/Transaction.antt =====
-- src/payment_communities/bitcoin/transaction.py: the transactions of a channel.
pub mod Verify
pub mod Outputs
pub mod Funded
pub mod Signing
use unito_blockchain_25_26_p.Base.{
  Bool, Bytes, List, Option, String, [], bytes_beq, if◌then◌else◌, none, not, some, suc, zero, ℕ,
  ◌++◌, ◌||◌, ◌∷◌,
}
use unito_blockchain_25_26_p.Base.Int.{leb_ℤ, ℤ}
use unito_blockchain_25_26_p.Base.Lists.{get_elem?}
use unito_blockchain_25_26_p.Bitcoin.Builder.{
  BitcoinLibrary, Transaction, TransactionBuilder, TxIn, add_input, add_p2wpkh_output,
  add_p2wsh_output, add_witness_stack, build, final_sequence, new_builder,
}
use unito_blockchain_25_26_p.Bitcoin.Contracts.{
  bytes_lt, create_multisig_2of2, create_second_stage_htlc_script, sorted_pair,
  witness_htlc_fulfill, witness_htlc_refund, witness_multisig_2of2,
}
use unito_blockchain_25_26_p.Bitcoin.Machine.{SpendContext}
use unito_blockchain_25_26_p.Bitcoin.Script.{Script}
use unito_blockchain_25_26_p.Bitcoin.Witness.{
  WitnessProgram, from_script_pub_key, v0_key_hash, v0_script_hash, v1_taproot, verify_v0_key_hash,
  verify_v0_script_hash,
}
use unito_blockchain_25_26_p.Config.{sequence_cltv_enable_mask, bitcoin_dust_limit_sat}
use unito_blockchain_25_26_p.Errors.{Result, err, index_error, ok, script_verification, ◌>>=◌}
use unito_blockchain_25_26_p.Protocols.Revocation.Scripts.{create_revocable_output_script}

unfoldable pub create_funding_transaction :
    BitcoinLibrary → String → ℕ → Bytes → Bytes → ℤ → Transaction × Script
unfolding add_input add_p2wsh_output build create_multisig_2of2
create_funding_transaction lib utxo_txid utxo_vout funder_pubkey counterparty_pubkey capacity =
    let redeem_script = create_multisig_2of2 funder_pubkey counterparty_pubkey in
    (
      build (
          add_p2wsh_output lib capacity redeem_script
            (add_input utxo_txid utxo_vout final_sequence (new_builder 0))),
      redeem_script,
    )

-- The loop over the HTLC outputs.
unfoldable pub add_htlc_outputs :
    BitcoinLibrary → List (ℤ × Script) → TransactionBuilder → TransactionBuilder
unfolding add_p2wsh_output
add_htlc_outputs lib [] b = b
add_htlc_outputs lib ((amount, script) ∷ rest) b =
    add_htlc_outputs lib rest (add_p2wsh_output lib amount script b)

-- The arguments of a commitment.
pub record Commitment : Type 0 where
  pub funding_txid : String
  pub funding_vout : ℕ
  pub sender_pubkey : Bytes
  pub receiver_pubkey : Bytes
  pub sender_balance_sat : ℤ
  pub receiver_balance_sat : ℤ
  pub htlc_outputs : List (ℤ × Script)
  pub sequence_number : ℕ

unfoldable pub create_commitment_transaction : BitcoinLibrary → Commitment → Transaction
unfolding add_input add_p2wpkh_output add_htlc_outputs build
create_commitment_transaction lib c =
    let funded = add_input c.funding_txid c.funding_vout c.sequence_number (new_builder 0) in
    let to_sender = add_p2wpkh_output lib c.sender_balance_sat c.sender_pubkey funded in
    let to_both = add_p2wpkh_output lib c.receiver_balance_sat c.receiver_pubkey to_sender in
    build (add_htlc_outputs lib c.htlc_outputs to_both)

-- The local balance goes to the delayed output; the sender of `c` is the local side.
unfoldable pub create_asymmetric_commitment_transaction :
    BitcoinLibrary → Commitment → (revocation_pubkey : Bytes) → (to_self_delay : ℤ) → Transaction
unfolding add_input add_p2wsh_output add_p2wpkh_output add_htlc_outputs build
    create_revocable_output_script
create_asymmetric_commitment_transaction lib c revocation_pubkey to_self_delay =
    let script = create_revocable_output_script revocation_pubkey c.sender_pubkey to_self_delay in
    let funded = add_input c.funding_txid c.funding_vout c.sequence_number (new_builder 0) in
    let to_local : TransactionBuilder =
      if leb_ℤ bitcoin_dust_limit_sat c.sender_balance_sat
      then add_p2wsh_output lib c.sender_balance_sat script funded
      else funded in
    let to_both : TransactionBuilder =
      if leb_ℤ bitcoin_dust_limit_sat c.receiver_balance_sat
      then add_p2wpkh_output lib c.receiver_balance_sat c.receiver_pubkey to_local
      else to_local in
    build (add_htlc_outputs lib c.htlc_outputs to_both)

-- `redeem_script` is `none` where no script is given, which an empty one counts as.
unfoldable pub create_cooperative_close_transaction :
    BitcoinLibrary
    → String
    → ℕ
    → Bytes
    → Bytes
    → ℤ
    → ℤ
    → (sig_sender sig_receiver : Bytes) → Option Script
    → Transaction
unfolding add_input add_p2wpkh_output add_witness_stack build witness_multisig_2of2 bytes_lt
create_cooperative_close_transaction lib txid vout sender receiver final_sender final_receiver
      sig_sender sig_receiver redeem_script =
    let paid = add_p2wpkh_output lib final_receiver receiver (
      add_p2wpkh_output lib final_sender sender
        (add_input txid vout final_sequence (new_builder 0))) in
    elim redeem_script [
      | none ↦ build paid
      | some [] ↦ build paid
      | some (op ∷ ops) ↦
          if bytes_beq sig_sender [] || bytes_beq sig_receiver []
          then build paid
          else build (
              add_witness_stack
                (if bytes_lt sender receiver
                  then witness_multisig_2of2 lib.scripts sig_sender sig_receiver (op ∷ ops)
                  else witness_multisig_2of2 lib.scripts sig_receiver sig_sender (op ∷ ops))
                paid)
    ]

-- `if claimer_signature:` and `if sender_signature:`
abbrev pub add_stack_if : Bool → List Bytes → TransactionBuilder → TransactionBuilder
add_stack_if given stack b = if given then add_witness_stack stack b else b

unfoldable pub create_htlc_claim_transaction :
    BitcoinLibrary
    → String
    → ℕ
    → Bytes
    → ℤ
    → (preimage : Bytes) → Script
    → (signature : Bytes) → Transaction
unfolding add_input add_p2wpkh_output add_witness_stack build witness_htlc_fulfill
create_htlc_claim_transaction lib txid vout pubkey amount preimage redeem_script signature = build (
    add_stack_if (not (bytes_beq signature []))
      (witness_htlc_fulfill lib.scripts signature preimage redeem_script)
      (add_p2wpkh_output lib amount pubkey (add_input txid vout final_sequence (new_builder 0))))

unfoldable pub create_htlc_refund_transaction :
    BitcoinLibrary
    → String
    → ℕ
    → Bytes
    → ℤ
    → (locktime : ℕ) → Script
    → (signature : Bytes) → Transaction
unfolding add_input add_p2wpkh_output add_witness_stack build witness_htlc_refund
create_htlc_refund_transaction lib txid vout pubkey amount locktime redeem_script signature =
    build (
      add_stack_if (not (bytes_beq signature []))
        (witness_htlc_refund lib.scripts signature redeem_script)
        (add_p2wpkh_output lib amount pubkey
          (add_input txid vout sequence_cltv_enable_mask (new_builder locktime))))

unfoldable pub create_second_stage_transaction :
    BitcoinLibrary
    → String
    → ℕ
    → ℤ
    → Bytes
    → Bytes
    → (to_self_delay : ℤ) → (locktime : ℕ) → Option (List Bytes)
    → Transaction × Script
unfolding add_input add_p2wsh_output add_witness_stack build create_second_stage_htlc_script
create_second_stage_transaction lib txid vout amount revocation_pubkey local_pubkey to_self_delay
      locktime stack =
    let script = create_second_stage_htlc_script revocation_pubkey local_pubkey to_self_delay in
    let paid =
      add_p2wsh_output lib amount script
        (add_input txid vout sequence_cltv_enable_mask (new_builder locktime)) in
    elim stack [
      | none ↦ (build paid, script)
      | some [] ↦ (build paid, script)
      | some (item ∷ items) ↦ (build (add_witness_stack (item ∷ items) paid), script)
    ]
