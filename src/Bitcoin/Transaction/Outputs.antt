-- ===== src/Bitcoin/Transaction/Outputs.antt =====
-- bitcoin/transaction.py: the outputs of a commitment and what they leave for the fee.
use mathlib.Core.Path.{subst}
use unito_blockchain_25_26_p.Base.{
  Bool-cases, List, [], arith, if◌then◌else◌, inl, inr, suc, ℕ, ◌*◌, ◌++◌, ◌+◌, ◌∷◌, ◌≡◌, refl,
}
use unito_blockchain_25_26_p.Base.Int.{int_laws, leb_ℤ, parts_of_eq, pos, ℤ, ◌+ℤ◌, ◌≤ℤ◌}
use unito_blockchain_25_26_p.Base.Lists.{All, length}
use unito_blockchain_25_26_p.Bitcoin.Builder.{
  BitcoinLibrary, TransactionBuilder, TxOut, add_output, add_input, add_p2wpkh_output,
  add_p2wsh_output, new_builder,
}
use unito_blockchain_25_26_p.Bitcoin.Script.{Script}
use unito_blockchain_25_26_p.Bitcoin.Transaction.{
  Commitment, add_htlc_outputs, create_commitment_transaction,
}
use unito_blockchain_25_26_p.Config.{bitcoin_dust_limit_sat}
use unito_blockchain_25_26_p.Bitcoin.Contracts.{create_p2wpkh, create_p2wsh}

unfoldable pub total_value : List TxOut → ℤ
total_value [] = pos 0
total_value (o ∷ os) = o.n_value +ℤ total_value os

abbrev pub total_amount : List (ℤ × Script) → ℤ
total_amount [] = pos 0
total_amount ((amount, script) ∷ rest) = amount +ℤ total_amount rest

abbrev pub IsAboveDust : TxOut → Type 0
IsAboveDust o = pos 546 ≤ℤ o.n_value

-- `done` is what has been asked for so far, in so many outputs: the outputs are above dust, pay no
-- more, and less only by dust.
abbrev Pays : List TxOut → ℤ → ℕ → Type 0
Pays outputs done n =
    All IsAboveDust outputs
    × (total_value outputs ≤ℤ done)
    × (done ≤ℤ (total_value outputs +ℤ pos (545 * n)))

total_value-snoc :
    (os : List TxOut) (o : TxOut) → total_value (os ++ (o ∷ [])) ≡ total_value os +ℤ o.n_value
unfolding total_value
total_value-snoc [] o = omega int_laws
total_value-snoc (p ∷ os) o = omega (int_laws, parts_of_eq (total_value-snoc os o))

All-snoc :
    (os : List TxOut) (o : TxOut)
    → All IsAboveDust os
    → IsAboveDust o
    → All IsAboveDust (os ++ (o ∷ []))
All-snoc [] o h p = (p, tt)
All-snoc (q ∷ os) o (x, h) p = (x, All-snoc os o h p)

Pays-eq :
    (os : List TxOut) (done done' : ℤ) (n n' : ℕ)
    → done ≡ done'
    → n ≡ n'
    → Pays os done n
    → Pays os done' n'
Pays-eq os done done' n n' e f pays =
    subst (λ k. Pays os done' k) f (subst (λ d. Pays os d n) e pays)

-- One more output, if it is above dust.
add_trimmed :
    (b : TransactionBuilder) (amount done : ℤ) (n : ℕ) (script : Script)
    → pos 0 ≤ℤ amount
    → Pays b.outputs done n
    → Pays
        (if leb_ℤ bitcoin_dust_limit_sat amount then add_output amount script b else b).outputs
        (done +ℤ amount)
        (suc n)
unfolding add_output
add_trimmed b amount done n script h (above, most, least) =
    let o : TxOut = record { n_value = amount; script_pub_key = script } in
    elim (Bool-cases (leb_ℤ bitcoin_dust_limit_sat amount)) [
      | inl e ↦ rw e (
        All-snoc b.outputs o above (ground arith),
        omega (int_laws, parts_of_eq (total_value-snoc b.outputs o)),
        omega (int_laws, parts_of_eq (total_value-snoc b.outputs o)),
      )
      | inr e ↦
          let small : amount ≤ℤ pos 545 = ground arith in
          rw e (above, omega int_laws, omega int_laws)
    ]

module _ (lib : BitcoinLibrary) where
  add_htlc_outputs-Pays :
      (htlcs : List (ℤ × Script)) (b : TransactionBuilder) (done : ℤ) (n : ℕ)
      → All (λ h. pos 0 ≤ℤ h.0) htlcs
      → Pays b.outputs done n
      → Pays (add_htlc_outputs lib htlcs b).outputs (done +ℤ total_amount htlcs) (n + length htlcs)
  unfolding add_htlc_outputs add_p2wsh_output
  add_htlc_outputs-Pays [] b done n h (above, most, least) = (above, omega int_laws, omega int_laws)
  add_htlc_outputs-Pays ((amount, script) ∷ rest) b done n (p, h) pays =
      Pays-eq _ (done +ℤ amount +ℤ total_amount rest) (done +ℤ (amount +ℤ total_amount rest))
        (suc n + length rest) (n + suc (length rest)) (omega int_laws) (omega arith)
        (add_htlc_outputs-Pays rest (add_p2wsh_output lib amount script b) (done +ℤ amount) (suc n)
          h (add_trimmed b amount done n (create_p2wsh lib.sha256 lib.scripts script) p pays))

  -- A commitment to balances and HTLC amounts that are not negative has no output below the dust
  -- limit, pays no more than these amounts together, and leaves for the fee at most 545 sat for
  -- each of them.
  pub create_commitment_value :
      (c : Commitment)
      → pos 0 ≤ℤ c.sender_balance_sat
      → pos 0 ≤ℤ c.receiver_balance_sat
      → All (λ h. pos 0 ≤ℤ h.0) c.htlc_outputs
      → let outputs = (create_commitment_transaction lib c).vout in
        let asked = c.sender_balance_sat +ℤ c.receiver_balance_sat +ℤ total_amount c.htlc_outputs in
        All IsAboveDust outputs
        × (total_value outputs ≤ℤ asked)
        × (asked ≤ℤ (total_value outputs +ℤ pos (545 * (2 + length c.htlc_outputs))))
  unfolding create_commitment_transaction total_value
  create_commitment_value c s r h =
      let funded = add_input c.funding_txid c.funding_vout c.sequence_number (new_builder 0) in
      let to_sender = add_p2wpkh_output lib c.sender_balance_sat c.sender_pubkey funded in
      let to_both = add_p2wpkh_output lib c.receiver_balance_sat c.receiver_pubkey to_sender in
      let one =
        add_trimmed funded c.sender_balance_sat (pos 0) 0
          (create_p2wpkh lib.hash160 c.sender_pubkey) s (tt, omega int_laws, omega int_laws) in
      let two =
        add_trimmed to_sender c.receiver_balance_sat (pos 0 +ℤ c.sender_balance_sat) 1
          (create_p2wpkh lib.hash160 c.receiver_pubkey) r one in
      Pays-eq _
        (pos 0 +ℤ c.sender_balance_sat +ℤ c.receiver_balance_sat +ℤ total_amount c.htlc_outputs)
        (c.sender_balance_sat +ℤ c.receiver_balance_sat +ℤ total_amount c.htlc_outputs)
        (2 + length c.htlc_outputs) (2 + length c.htlc_outputs) (omega int_laws) refl
        (add_htlc_outputs-Pays c.htlc_outputs to_both
          (pos 0 +ℤ c.sender_balance_sat +ℤ c.receiver_balance_sat) 2 h two)
