-- ===== src/Protocols/Ptlc/Taproot.antt =====
-- protocols/ptlc.py: a Taproot settlement against the output that it spends.
use unito_blockchain_25_26_p.Base.{
  Bool, Bytes, List, [], if◌then◌else◌, true, ℕ, ◌++◌, ◌∷◌, ◌≡◌, ap, arith, nat_beq, ◌||◌, ◌∙◌,
  Bool-cases, String, inl, inr, some,
}
use unito_blockchain_25_26_p.Base.Lists.{length, take, take_of_length_le, get_elem?}
use unito_blockchain_25_26_p.Bitcoin.Builder.{
  BitcoinLibrary, Transaction, TxIn, TxOut, final_sequence,
}
use unito_blockchain_25_26_p.Bitcoin.Machine.{SpendContext}
use unito_blockchain_25_26_p.Bitcoin.Tagged.{tagged_hash}
use unito_blockchain_25_26_p.Bitcoin.Taproot.{TaprootLibrary, schnorr_verify}
use unito_blockchain_25_26_p.Bitcoin.Taproot.Program.{
  key_path_spend, taproot_spend, verify_taproot, sighash_type,
}
use unito_blockchain_25_26_p.Errors.{Result, err, ok, script_verification, ◌>>=◌}
use unito_blockchain_25_26_p.Base.Cuts.{drop_of_length_le}
use unito_blockchain_25_26_p.Base.Int.{ℤ}
use unito_blockchain_25_26_p.Bitcoin.Contracts.{create_p2tr}
use unito_blockchain_25_26_p.Bitcoin.Script.{Script}
use unito_blockchain_25_26_p.Bitcoin.Taproot.Spending.{
  from_script_pub_key-create_p2tr, verify_witnessed,
}
use unito_blockchain_25_26_p.Bitcoin.Verification.{spend_context, verify_transaction_witness}
use unito_blockchain_25_26_p.Protocols.Ptlc.Settlement.{create_taproot_ptlc_settlement_transaction}

module _ (lib : TaprootLibrary) where
  -- The verdict on a signature of 64 bytes: the Schnorr check of the key over the tagged hash of the
  -- transaction without its witness and hash type 0.
  abbrev pub key_path_verdict : (base_tx_bytes key sig : Bytes) → Result Bool
  key_path_verdict base_tx_bytes key sig =
      schnorr_verify lib key (tagged_hash lib.curve.sha256 "TapSighash" (base_tx_bytes ++ (0 ∷ [])))
        sig
      >>= λ valid. if valid then ok true else err script_verification

  key_path_spend_lem :
      (base_tx_bytes key sig : Bytes)
      → length sig ≡ 64
      → key_path_spend lib base_tx_bytes key sig ≡ key_path_verdict base_tx_bytes key sig
  unfolding key_path_spend
  key_path_spend_lem base_tx_bytes key sig e =
      let verdict : Bool → Bytes → ℕ → Result Bool = λ fits raw flag.
        if fits
        then (schnorr_verify lib key
              (tagged_hash lib.curve.sha256 "TapSighash" (base_tx_bytes ++ (flag ∷ []))) raw
            >>= λ valid. if valid then ok true else err script_verification)
        else err script_verification in
      let fits : (nat_beq (length sig) 64 || nat_beq (length sig) 65) ≡ true = ground (arith, e) in
      ap (λ (b : Bool). verdict b (take 64 sig) (sighash_type sig)) fits
      ∙ ap (λ (raw : Bytes). verdict true raw (sighash_type sig))
          (take_of_length_le 64 sig (omega (arith, e)))
      ∙ ap (λ (rest : Bytes). verdict true sig (elim rest [ [] ↦ 0 | flag ∷ _ ↦ flag ]))
          (drop_of_length_le 64 sig (omega (arith, e)))

  verify_taproot-key :
      (ctx : SpendContext) (bitcoin : BitcoinLibrary)
      (serialize : List TxIn → List TxOut → ℕ → Bytes) (tx : Transaction) (key sig : Bytes)
      → length sig ≡ 64
      → verify_taproot lib bitcoin serialize ctx tx key (sig ∷ [])
        ≡ key_path_verdict (serialize tx.vin tx.vout tx.n_lock_time) key sig
  unfolding verify_taproot taproot_spend
  verify_taproot-key ctx bitcoin serialize tx key sig e =
      key_path_spend_lem (serialize tx.vin tx.vout tx.n_lock_time) key sig e

  settlement_parts :
      (txid : String) (vout : ℕ) (claimer : Bytes) (paid : ℤ) (sig : Bytes) (tx : Transaction)
      → length sig ≡ 64
      → create_taproot_ptlc_settlement_transaction txid vout claimer paid sig ≡ ok tx
      → (get_elem? tx.vin 0
          ≡ some (record { txid = txid; vout = vout; n_sequence = final_sequence }))
        × (get_elem? tx.wit 0 ≡ some (sig ∷ []))
  unfolding create_taproot_ptlc_settlement_transaction create_p2tr
  settlement_parts txid vout claimer paid [] tx e h = absurd (omega arith)
  settlement_parts txid vout claimer paid (b ∷ sig) tx e h =
      elim (Bool-cases (nat_beq (length claimer) 32)) [
        | inl fits ↦ (ground (arith, fits, h), ground (arith, fits, h))
        | inr other ↦ absurd (ground (arith, other, h))
      ]

  -- The settlement of a Taproot PTLC against the output that it spends. For a signature of 64 bytes and
  -- an output of any key, the settlement that is created passes the check of the output where the
  -- signature passes the Schnorr check of that key, and fails or raises where the check does; the digest
  -- is the tagged hash of the settlement's inputs, outputs and locktime with hash type 0, and the amount
  -- of the output has no part in it.
  pub verify-taproot_settlement :
      (bitcoin : BitcoinLibrary) (serialize : List TxIn → List TxOut → ℕ → Bytes) (txid : String)
      (vout : ℕ) (claimer : Bytes) (paid : ℤ) (sig : Bytes) (tx : Transaction) (key : Bytes)
      (spent : Script) (amount : ℤ)
      → length sig ≡ 64
      → create_taproot_ptlc_settlement_transaction txid vout claimer paid sig ≡ ok tx
      → create_p2tr key ≡ ok spent
      → let input : TxIn = record { txid = txid; vout = vout; n_sequence = final_sequence } in
        verify_transaction_witness bitcoin
          (verify_taproot lib bitcoin serialize (spend_context bitcoin tx 0 input amount) tx)
          tx
          0
          spent
          amount
        ≡ key_path_verdict (serialize tx.vin tx.vout tx.n_lock_time) key sig
  verify-taproot_settlement bitcoin serialize txid vout claimer paid sig tx key spent amount e made
        pays =
      let input : TxIn = record { txid = txid; vout = vout; n_sequence = final_sequence } in
      let ctx = spend_context bitcoin tx 0 input amount in
      let (found, witnessed) = settlement_parts txid vout claimer paid sig tx e made in
      verify_witnessed lib bitcoin (verify_taproot lib bitcoin serialize ctx tx) tx 0 input spent
        amount key (sig ∷ []) (from_script_pub_key-create_p2tr lib key spent pays) found witnessed
      ∙ verify_taproot-key ctx bitcoin serialize tx key sig e
