-- ===== src/Protocols/Eltoo/Updates.antt =====
-- protocols/eltoo.py: which outputs an update and a settlement can spend.
use unito_blockchain_25_26_p.Base.{
  ℕ, ◌≡◌, ◌≢◌, refl, ◌∙◌, ap, true, some, List, [], ◌∷◌, Bytes, String, arith, bytes_beq_iff, Bool,
  Option, map, bytes_beq, false, if◌then◌else◌, none,
}
use unito_blockchain_25_26_p.Base.Int.{ℤ}
use unito_blockchain_25_26_p.Base.Lists.{get_elem?, length}
use unito_blockchain_25_26_p.Errors.{Result, ok}
use unito_blockchain_25_26_p.Config.{sequence_cltv_enable_mask}
use unito_blockchain_25_26_p.Bitcoin.Script.{Script, ReadsBack}
use unito_blockchain_25_26_p.Bitcoin.Contracts.{
  create_multisig_2of2, create_p2wsh, witness_multisig_2of2,
}
use unito_blockchain_25_26_p.Bitcoin.Builder.{BitcoinLibrary, Transaction, TxIn, TxOut, build}
use unito_blockchain_25_26_p.Bitcoin.Signatures.{Secret, ordered_signatures}
use unito_blockchain_25_26_p.Bitcoin.Transaction.Signing.{
  IsSigning, IgnoresWitness, sign_commitment_lem, verify-sign_commitment, signed,
}
use unito_blockchain_25_26_p.Bitcoin.Verification.{verify_transaction_witness}
use unito_blockchain_25_26_p.Protocols.Eltoo.{
  EltooState, total_sat, update_builder, settlement_builder, create_eltoo_update_transaction,
  create_eltoo_settlement_transaction, eltoo_signatures, multisig_witness,
}

module _ (lib : BitcoinLibrary) (verify_taproot : Bytes → List Bytes → Result Bool)
    (sec1 sec2 : Secret) where
  abbrev script : Script
  script = create_multisig_2of2 sec1.pub_key sec2.pub_key

  abbrev redeem : Bytes
  redeem = lib.scripts.encode script

  abbrev output : Script
  output = create_p2wsh lib.sha256 lib.scripts script

  -- A transaction that takes the witness of both signatures passes the check of the funding output.
  signed_passes :
      (tx : Transaction) (capacity : ℤ) (input : TxIn)
      → tx.wit ≡ []
      → get_elem? tx.vin 0 ≡ some input
      → IsSigning lib sec1
      → IsSigning lib sec2
      → IgnoresWitness lib tx
      → sec1.pub_key ≢ sec2.pub_key
      → sec1.pub_key ≢ []
      → sec2.pub_key ≢ []
      → length (lib.sha256 redeem) ≡ 32
      → ReadsBack lib.scripts script
      → lib.scripts.encode (lib.scripts.parse redeem) ≡ redeem
      → verify_transaction_witness lib verify_taproot
          (record tx {
            wit =
                multisig_witness
                  (ordered_signatures sec1 sec2 (lib.signature_hash redeem tx 0 1 capacity))
                  redeem
                ∷ [];
          })
          0
          output
          capacity
        ≡ ok true
  unfolding witness_multisig_2of2
  signed_passes tx capacity input wit vin good1 good2 ignores ne ne1 ne2 size reads same =
      let (result, made, passes) =
        verify-sign_commitment lib verify_taproot tx capacity sec1 sec2 input wit vin good1 good2
          ignores ne ne1 ne2 size reads same in
      let expected = sign_commitment_lem lib verify_taproot tx capacity sec1 sec2 wit in
      let found : signed lib verify_taproot tx capacity sec1 sec2 ≡ result = cc in
      ap (λ (t : Transaction). verify_transaction_witness lib verify_taproot t 0 output capacity)
        found
      ∙ passes

  module _ (good1 : IsSigning lib sec1) (good2 : IsSigning lib sec2)
      (ne : sec1.pub_key ≢ sec2.pub_key) (ne1 : sec1.pub_key ≢ []) (ne2 : sec2.pub_key ≢ [])
      (size : length (lib.sha256 redeem) ≡ 32) (reads : ReadsBack lib.scripts script)
      (same : lib.scripts.encode (lib.scripts.parse redeem) ≡ redeem) where
    -- Updates float, without an order. Where a key's signatures verify under it, the signature hash
    -- leaves witnesses out, digests have 32 bytes, the funding script reads back as it was written and to
    -- the same bytes, and the keys differ and are not empty: the update transaction of any state, signed
    -- by both keys for any outpoint, passes the check of the first output of the update transaction of
    -- any other state, whichever of the two state numbers is the larger one, for an amount of that state's
    -- total.
    pub update_spends_update :
        (old_txid txid : String) (old_vout vout : ℕ) (old new : EltooState)
        (old_given given : Bytes × Bytes) (old_sec1 old_sec2 : Option Secret)
        → IgnoresWitness lib (build (update_builder lib txid vout new redeem))
        → let replaced =
            create_eltoo_update_transaction lib old_txid old_vout old redeem old_given old_sec1
              old_sec2 in
          let update =
            create_eltoo_update_transaction lib txid vout new redeem given
              (some sec1)
              (some sec2) in
          (out : TxOut) × (get_elem? replaced.vout 0 ≡ some out)
          × (out.n_value ≡ total_sat old)
          × (verify_transaction_witness lib verify_taproot update 0 out.script_pub_key
                (total_sat new)
              ≡ ok true)
    unfolding create_eltoo_update_transaction create_p2wsh
    update_spends_update old_txid txid old_vout vout old new old_given given old_sec1 old_sec2
          ignores =
        (
          record { n_value = total_sat old; script_pub_key = output },
          refl,
          refl,
          signed_passes (build (update_builder lib txid vout new redeem)) (total_sat new)
              (record { txid = txid; vout = vout; n_sequence = sequence_cltv_enable_mask }) refl
              refl good1 good2 ignores ne ne1 ne2 size reads same,
        )

    -- Under the same conditions, and where the script has bytes, the settlement transaction of any state,
    -- signed by both keys, passes the check of the output of the update transaction of any state, and pays
    -- both balances of its own state.
    pub settlement_spends_update :
        (old_txid txid : String) (old_vout vout : ℕ) (old state : EltooState)
        (sender_pubkey receiver_pubkey : Bytes) (old_given given : Bytes × Bytes)
        (old_sec1 old_sec2 : Option Secret)
        → IgnoresWitness lib
            (build (settlement_builder lib txid vout sender_pubkey receiver_pubkey state))
        → redeem ≢ []
        → let replaced =
            create_eltoo_update_transaction lib old_txid old_vout old redeem old_given old_sec1
              old_sec2 in
          let settlement =
            create_eltoo_settlement_transaction lib txid vout sender_pubkey receiver_pubkey state
              given redeem
              (some sec1)
              (some sec2) in
          (out : TxOut) × (get_elem? replaced.vout 0 ≡ some out)
          × (verify_transaction_witness lib verify_taproot settlement 0 out.script_pub_key
                (total_sat state)
              ≡ ok true)
          × (map (λ (o : TxOut). o.n_value) settlement.vout
              ≡ state.sender_balance_sat ∷ state.receiver_balance_sat ∷ [])
    unfolding create_eltoo_update_transaction create_eltoo_settlement_transaction create_p2wsh
    settlement_spends_update old_txid txid old_vout vout old state sender_pubkey receiver_pubkey
          old_given given old_sec1 old_sec2 ignores some_bytes =
        let nonempty : bytes_beq redeem [] ≡ false = ground (arith, bytes_beq_iff redeem []) in
        let tx = build (settlement_builder lib txid vout sender_pubkey receiver_pubkey state) in
        let with_secrets = λ (b : Bool).
          let sigs =
            eltoo_signatures lib tx redeem (total_sat state) given
              (if b then none else some (sec1, sec2)) in
          verify_transaction_witness lib verify_taproot
            (record tx { wit = multisig_witness sigs redeem ∷ [] }) 0 output (total_sat state) in
        (
          record { n_value = total_sat old; script_pub_key = output },
          refl,
          ap with_secrets nonempty
              ∙ signed_passes tx (total_sat state)
                  (record { txid = txid; vout = vout; n_sequence = sequence_cltv_enable_mask }) refl
                  refl good1 good2 ignores ne ne1 ne2 size reads same,
          refl,
        )
