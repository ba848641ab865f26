-- ===== src/Protocols/Anchors.antt =====
-- src/payment_communities/protocols/anchors.py: anchor outputs and child-pays-for-parent.
pub mod Spending
mod Tests
use unito_blockchain_25_26_p.Base.{
  Bool, Bytes, Option, String, [], bytes_beq, if◌then◌else◌, none, not, some, string_eq, ℕ, ◌&&◌,
  ◌==◌, ◌∷◌,
}
use unito_blockchain_25_26_p.Base.Int.{leb_ℤ, ltb_ℤ, pos, ℤ, ◌+ℤ◌, ◌-ℤ◌}
use unito_blockchain_25_26_p.Bitcoin.Builder.{
  BitcoinLibrary, Transaction, TransactionBuilder, add_input, add_output, add_witness_stack, build,
  final_sequence, new_builder,
}
use unito_blockchain_25_26_p.Bitcoin.Contracts.{create_p2wpkh, create_p2wsh}
use unito_blockchain_25_26_p.Bitcoin.Script.{
  Script, code, int, op_checksequenceverify, op_checksig, op_endif, op_ifdup, op_notif, push,
}
use unito_blockchain_25_26_p.Config.{
  anchor_output_sat, bitcoin_dust_limit_sat, sequence_cltv_enable_mask,
}

unfoldable pub create_anchor_script : Bytes → Script
create_anchor_script pubkey =
    push pubkey
    ∷ code op_checksig
    ∷ code op_ifdup
    ∷ code op_notif
    ∷ int (pos 16)
    ∷ code op_checksequenceverify
    ∷ code op_endif
    ∷ []

-- `if balance >= BITCOIN_DUST_LIMIT_SAT: tx_builder.add_output(…)`
abbrev pub add_balance_output : ℤ → Script → TransactionBuilder → TransactionBuilder
add_balance_output balance script b =
    if leb_ℤ bitcoin_dust_limit_sat balance then add_output balance script b else b

unfoldable pub create_anchor_commitment_transaction :
    BitcoinLibrary → String → ℕ → Bytes → Bytes → ℤ → ℤ → Transaction × Script × Script
unfolding add_input add_output build create_anchor_script create_p2wsh
create_anchor_commitment_transaction lib txid vout sender receiver sender_balance receiver_balance =
    let local_script = create_anchor_script sender in
    let remote_script = create_anchor_script receiver in
    let local_output = create_p2wsh lib.sha256 lib.scripts local_script in
    let remote_output = create_p2wsh lib.sha256 lib.scripts remote_script in
    let funded = add_input txid vout final_sequence (new_builder 0) in
    let to_sender = add_balance_output sender_balance local_output funded in
    let to_both = add_balance_output receiver_balance remote_output to_sender in
    (
      build (
          add_output anchor_output_sat remote_output
            (add_output anchor_output_sat local_output to_both)),
      local_script,
      remote_script,
    )

-- `wallet_utxo_txid` and the three parameters that go with it; an empty txid counts as none.
pub record WalletInput : Type 0 where
  pub txid : String
  pub vout : ℕ
  pub amount_sat : ℤ
  pub signature : Option Bytes

-- `if wallet_utxo_txid and wallet_utxo_amount_sat > 0`
abbrev pub has_wallet_input : WalletInput → Bool
has_wallet_input w = not (w.txid == "") && ltb_ℤ (pos 0) w.amount_sat

abbrev pub wallet_witness : WalletInput → Bytes → TransactionBuilder → TransactionBuilder
wallet_witness w pubkey b = elim w.signature [
  | none ↦ b
  | some signature ↦
      if bytes_beq signature [] then b else add_witness_stack (signature ∷ pubkey ∷ []) b
]

unfoldable pub create_cpfp_fee_bump_transaction :
    BitcoinLibrary → String → ℕ → Bytes → ℤ → Script → Bytes → WalletInput → Transaction
unfolding add_input add_output add_witness_stack build create_p2wpkh
create_cpfp_fee_bump_transaction lib txid anchor_vout pubkey fee_bump anchor_script signature w =
    let change = anchor_output_sat +ℤ w.amount_sat -ℤ fee_bump in
    let script = create_p2wpkh lib.hash160 pubkey in
    let spending =
      add_witness_stack (signature ∷ lib.scripts.encode anchor_script ∷ [])
        (add_input txid anchor_vout sequence_cltv_enable_mask (new_builder 0)) in
    if has_wallet_input w
    then (let funded =
          wallet_witness w pubkey (add_input w.txid w.vout sequence_cltv_enable_mask spending) in
        build (if ltb_ℤ (pos 0) change then add_output change script funded else funded))
    else build (add_output (if ltb_ℤ change (pos 0) then pos 0 else change) script spending)
