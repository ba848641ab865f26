-- ===== src/Bitcoin/Transaction/Signing.antt =====
-- bitcoin/transaction.py: a commitment that both parties sign spends the funding output.
use unito_blockchain_25_26_p.Base.{
  Bool, Bool-cases, Bytes, List, [], ap, if◌then◌else◌, inl, inr, refl, some, true, ℕ, ◌&&◌, ◌++◌,
  ◌∙◌, ◌∷◌, ◌≡◌, ◌≢◌, arith, bytes_beq, bytes_beq_iff, bytes_beq_refl, false,
}
use unito_blockchain_25_26_p.Base.Int.{ℤ}
use unito_blockchain_25_26_p.Base.Lists.{get_elem?, length}
use unito_blockchain_25_26_p.Bitcoin.Builder.{BitcoinLibrary, Transaction, TxIn}
use unito_blockchain_25_26_p.Bitcoin.Contracts.{
  bytes_lt, create_multisig_2of2, create_p2wsh, sorted_pair, witness_multisig_2of2,
}
use unito_blockchain_25_26_p.Bitcoin.Dispatch.{check_signature}
use unito_blockchain_25_26_p.Bitcoin.Machine.{SpendContext, split_signature}
use unito_blockchain_25_26_p.Bitcoin.Script.{ReadsBack, Script}
use unito_blockchain_25_26_p.Bitcoin.Transaction.Verify.{verify-create_p2wsh}
use unito_blockchain_25_26_p.Bitcoin.Witness.Funding.{spend_multisig_2of2}
use unito_blockchain_25_26_p.Bitcoin.Witness.Spend.{signs}
use unito_blockchain_25_26_p.Errors.{Result, err, ok, script_verification, ◌>>=◌}
use unito_blockchain_25_26_p.Bitcoin.Signatures.{
  Secret, attach_witness, ordered_signatures, sign_commitment_transaction, sign_sighash,
}
use unito_blockchain_25_26_p.Bitcoin.Verification.{spend_context, verify_transaction_witness}

split_signature-snoc :
    (der : Bytes) (hashtype : ℕ) → split_signature (der ++ (hashtype ∷ [])) ≡ some (der, hashtype)
unfolding split_signature
split_signature-snoc [] hashtype = refl
split_signature-snoc (b ∷ []) hashtype = refl
split_signature-snoc (b ∷ c ∷ bs) hashtype =
    rw (split_signature-snoc (c ∷ bs) hashtype, split_signature) refl

pub snoc_nonempty : (xs : Bytes) (x : ℕ) → (xs ++ (x ∷ [])) ≢ []
snoc_nonempty [] x h = cc
snoc_nonempty (y ∷ ys) x h = cc

-- A key's signature verifies under it.
abbrev pub IsSigning : BitcoinLibrary → Secret → Type 0
IsSigning lib secret =
    (digest : Bytes) → lib.ecdsa_verify secret.pub_key digest (secret.sign digest) ≡ true

-- The signature hash leaves the witnesses out.
abbrev pub IgnoresWitness : BitcoinLibrary → Transaction → Type 0
IgnoresWitness lib tx =
    (script : Bytes) (i hashtype : ℕ) (amount : ℤ) (wit : List (List Bytes))
    → lib.signature_hash script (record tx { wit = wit }) i hashtype amount
      ≡ lib.signature_hash script tx i hashtype amount

pub signs-sign_sighash :
    (ctx : SpendContext) (script : Script) (secret : Secret) (digest : Bytes)
    → ctx.signature_hash script 1 ≡ digest
    → ctx.ecdsa_verify secret.pub_key digest (secret.sign digest) ≡ true
    → signs ctx script secret.pub_key (sign_sighash secret digest 1) ≡ true
unfolding check_signature sign_sighash
signs-sign_sighash ctx script secret digest e valid =
    ground (arith, split_signature-snoc (secret.sign digest) 1)

pub both_true : (a b : Bool) → a ≡ true → b ≡ true → (a && b) ≡ true
both_true a b h k = ground arith

module _ (lib : BitcoinLibrary) (verify_taproot : Bytes → List Bytes → Result Bool)
    (tx : Transaction) (capacity : ℤ) (sec1 sec2 : Secret) where
  abbrev pub script : Script
  script = create_multisig_2of2 sec1.pub_key sec2.pub_key

  abbrev pub digest : Bytes
  digest = lib.signature_hash (lib.scripts.encode script) tx 0 1 capacity

  abbrev pub sigs : Bytes × Bytes
  sigs = ordered_signatures sec1 sec2 digest

  abbrev pub signed : Transaction
  signed = record tx { wit = witness_multisig_2of2 lib.scripts sigs.0 sigs.1 script ∷ [] }

  pub sign_commitment_lem :
      tx.wit ≡ [] → sign_commitment_transaction lib tx 0 script capacity sec1 sec2 ≡ ok signed
  unfolding sign_commitment_transaction create_multisig_2of2
  sign_commitment_lem e =
      ap
        (λ wit.
          attach_witness wit 0 (witness_multisig_2of2 lib.scripts sigs.0 sigs.1 script) >>= λ wit.
          ok (record tx { wit = wit }))
        e

  both_sign :
      (ctx : SpendContext) (parsed : Script)
      → sec1.pub_key ≢ sec2.pub_key
      → signs ctx parsed sec1.pub_key (sign_sighash sec1 digest 1) ≡ true
      → signs ctx parsed sec2.pub_key (sign_sighash sec2 digest 1) ≡ true
      → (signs ctx parsed (sorted_pair sec1.pub_key sec2.pub_key).0 sigs.0
          && signs ctx parsed (sorted_pair sec1.pub_key sec2.pub_key).1 sigs.1)
        ≡ true
  unfolding sorted_pair
  both_sign ctx parsed ne s1 s2 =
      let different : bytes_beq sec2.pub_key sec1.pub_key ≡ false =
        ground (arith, bytes_beq_iff sec2.pub_key sec1.pub_key) in
      elim (Bool-cases (bytes_lt sec2.pub_key sec1.pub_key)) [
        | inl h ↦ rw (h, different) (both_true _ _ s2 s1)
        | inr h ↦ rw (h, bytes_beq_refl sec1.pub_key) (both_true _ _ s1 s2)
      ]

  nonempty : (sigs.0 ≢ []) × (sigs.1 ≢ [])
  unfolding sign_sighash
  nonempty = ground (arith, snoc_nonempty (sec1.sign digest) 1, snoc_nonempty (sec2.sign digest) 1)

  -- Where a key's signatures verify under it, the signature hash leaves witnesses out, digests have 32
  -- bytes, the funding script reads back as it was written and to the same bytes, and the keys differ and
  -- are not empty: a transaction without witnesses that both keys sign for its first input passes the
  -- check of the funding output, in whichever order the keys are given.
  pub verify-sign_commitment :
      (input : TxIn)
      → tx.wit ≡ []
      → get_elem? tx.vin 0 ≡ some input
      → IsSigning lib sec1
      → IsSigning lib sec2
      → IgnoresWitness lib tx
      → sec1.pub_key ≢ sec2.pub_key
      → sec1.pub_key ≢ []
      → sec2.pub_key ≢ []
      → length (lib.sha256 (lib.scripts.encode script)) ≡ 32
      → ReadsBack lib.scripts script
      → lib.scripts.encode (lib.scripts.parse (lib.scripts.encode script))
        ≡ lib.scripts.encode script
      → (result : Transaction) × (sign_commitment_transaction lib tx 0 script capacity sec1 sec2
          ≡ ok result)
        × (verify_transaction_witness lib verify_taproot result 0
              (create_p2wsh lib.sha256 lib.scripts script)
              capacity
            ≡ ok true)
  verify-sign_commitment input wit vin good1 good2 ignores ne ne1 ne2 size reads same =
      let ctx = spend_context lib signed 0 input capacity in
      let parsed = lib.scripts.parse (lib.scripts.encode script) in
      let hash : ctx.signature_hash parsed 1 ≡ digest =
        ap (λ bytes. lib.signature_hash bytes signed 0 1 capacity) same
        ∙ ignores (lib.scripts.encode script) 0 1 capacity signed.wit in
      (
        signed,
        sign_commitment_lem wit,
        verify-create_p2wsh lib verify_taproot signed 0 script capacity
              (witness_multisig_2of2 lib.scripts sigs.0 sigs.1 script) input size refl vin
            ∙ spend_multisig_2of2 ctx lib.scripts sec1.pub_key sec2.pub_key sigs.0 sigs.1 reads ne1
                ne2 nonempty.0 nonempty.1
            ∙ ap (λ valid. if valid then ok true else err script_verification)
                (both_sign ctx parsed ne
                  (signs-sign_sighash ctx parsed sec1 digest hash (good1 digest))
                  (signs-sign_sighash ctx parsed sec2 digest hash (good2 digest))),
      )
