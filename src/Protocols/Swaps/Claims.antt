-- ===== src/Protocols/Swaps/Claims.antt =====
-- protocols/swap_server.py: the claim of a Loop In swap spends the output that the user funded.
use unito_blockchain_25_26_p.Base.{
  ℕ, ◌≡◌, ◌≢◌, refl, ◌∙◌, ap, sym, Bool, true, false, some, List, [], ◌∷◌, Bytes, String, string_eq,
  arith, bytes_beq, bytes_beq_iff, bytes_beq_refl, if◌then◌else◌,
}
use unito_blockchain_25_26_p.Base.Int.{ℤ, pos}
use unito_blockchain_25_26_p.Base.Lists.{length}
use unito_blockchain_25_26_p.Base.Dict.{lookup, insert, lookup-insert_self}
use unito_blockchain_25_26_p.Errors.{Result, ok, err, script_verification}
use unito_blockchain_25_26_p.Bitcoin.Script.{Script, ReadsBack}
use unito_blockchain_25_26_p.Bitcoin.Contracts.{
  create_htlc, create_p2wsh, create_p2wpkh, witness_htlc_fulfill,
}
use unito_blockchain_25_26_p.Bitcoin.Builder.{
  BitcoinLibrary, Transaction, TxIn, build, final_sequence,
}
use unito_blockchain_25_26_p.Bitcoin.Signatures.{Secret, sign_p2wsh_input}
use unito_blockchain_25_26_p.Bitcoin.Transaction.Signing.{
  IsSigning, IgnoresWitness, snoc_nonempty, signs-sign_sighash, both_true,
}
use unito_blockchain_25_26_p.Bitcoin.Transaction.Verify.{verify-create_p2wsh}
use unito_blockchain_25_26_p.Bitcoin.Witness.Htlc.{spend_fulfill}
use unito_blockchain_25_26_p.Bitcoin.Witness.Spend.{signs}
use unito_blockchain_25_26_p.Bitcoin.Verification.{spend_context, verify_transaction_witness}
use unito_blockchain_25_26_p.Protocols.Swaps.{SubmarineSwap, loop_in, SwapState}
use unito_blockchain_25_26_p.Protocols.Swaps.Server.{
  SwapCoordinator, new_swap, claim_builder, create_submarine_swap_claim_tx, signed_claim,
  less_miner_fee, initiate_loop_in, register_funding_utxo, complete_loop_in_with_preimage,
  is_loop_in,
}

module _ (lib : BitcoinLibrary) (secret : Secret) (server : Bytes) (txid : String) (vout : ℕ)
    (amount : ℤ) (preimage : Bytes) (script : Script) where
  abbrev unsigned : Transaction
  unsigned = build (claim_builder lib txid vout server amount)

  abbrev claim_sig : Bytes
  claim_sig = sign_p2wsh_input lib unsigned 0 script secret amount

  abbrev with_witness : Transaction
  with_witness = record unsigned {
    wit = witness_htlc_fulfill lib.scripts claim_sig preimage script ∷ [];
  }

  claim_sig_nonempty : claim_sig ≢ []
  unfolding sign_p2wsh_input
  claim_sig_nonempty = snoc_nonempty _ 1

  create_claim_tx_unsigned :
      create_submarine_swap_claim_tx lib txid vout server amount preimage script [] ≡ unsigned
  unfolding create_submarine_swap_claim_tx
  create_claim_tx_unsigned = refl

  create_claim_tx_signed :
      create_submarine_swap_claim_tx lib txid vout server amount preimage script claim_sig
      ≡ with_witness
  unfolding create_submarine_swap_claim_tx witness_htlc_fulfill
  create_claim_tx_signed =
      let nonempty : bytes_beq claim_sig [] ≡ false =
        ground (arith, bytes_beq_iff claim_sig [], claim_sig_nonempty) in
      rw nonempty refl

module _ (lib : BitcoinLibrary) (verify_taproot : Bytes → List Bytes → Result Bool)
    (secret : Secret) (server : Bytes) (txid : String) (vout : ℕ) (amount : ℤ)
    (preimage user : Bytes) (n : ℕ) where
  abbrev swap_script : Script
  swap_script = create_htlc user server (lib.sha256 preimage) (pos n)

  abbrev swap_claim : Transaction
  swap_claim = with_witness lib secret server txid vout amount preimage swap_script

  claim_passes :
      IsSigning lib secret
      → secret.pub_key ≡ server
      → IgnoresWitness lib (unsigned lib secret server txid vout amount preimage swap_script)
      → length (lib.sha256 (lib.scripts.encode swap_script)) ≡ 32
      → ReadsBack lib.scripts swap_script
      → lib.scripts.encode (lib.scripts.parse (lib.scripts.encode swap_script))
        ≡ lib.scripts.encode swap_script
      → user ≢ []
      → server ≢ []
      → lib.sha256 preimage ≢ []
      → verify_transaction_witness lib verify_taproot swap_claim 0
          (create_p2wsh lib.sha256 lib.scripts swap_script)
          amount
        ≡ ok true
  unfolding sign_p2wsh_input build claim_builder
  claim_passes good own ignores size reads same u k h =
      let input : TxIn = record { txid = txid; vout = vout; n_sequence = final_sequence } in
      let ctx = spend_context lib swap_claim 0 input amount in
      let parsed = lib.scripts.parse (lib.scripts.encode swap_script) in
      let tx = unsigned lib secret server txid vout amount preimage swap_script in
      let sighash = lib.signature_hash (lib.scripts.encode swap_script) tx 0 1 amount in
      let sig = claim_sig lib secret server txid vout amount preimage swap_script in
      let hash : ctx.signature_hash parsed 1 ≡ sighash =
        ap (λ (bytes : Bytes). lib.signature_hash bytes swap_claim 0 1 amount) same
        ∙ ignores (lib.scripts.encode swap_script) 0 1 amount swap_claim.wit in
      verify-create_p2wsh lib verify_taproot swap_claim 0 swap_script amount
        (witness_htlc_fulfill lib.scripts sig preimage swap_script) input size refl refl
      ∙ spend_fulfill ctx lib.scripts user server (lib.sha256 preimage) sig preimage n reads u k h
      ∙ ap (λ (valid : Bool). if valid then ok true else err script_verification)
          (both_true (bytes_beq (lib.sha256 preimage) (lib.sha256 preimage))
            (signs ctx parsed server sig) (bytes_beq_refl (lib.sha256 preimage))
            (ap (λ (key : Bytes). signs ctx parsed key sig) (sym own)
              ∙ signs-sign_sighash ctx parsed secret sighash hash (good sighash)))

register_lem :
    (c : SwapCoordinator) (swap_id txid : String) (vout : ℕ) (swap : SubmarineSwap)
    → lookup swap_id c.swaps ≡ some swap
    → register_funding_utxo c swap_id txid vout
      ≡ (ok tt, record c { onchain_funding = insert swap_id (txid, vout) c.onchain_funding })
unfolding register_funding_utxo
register_lem c swap_id txid vout swap found = ground arith

pub complete_lem :
    (lib : BitcoinLibrary) (c : SwapCoordinator) (swap_id : String) (preimage : Bytes)
    (swap : SubmarineSwap) (outpoint : String × ℕ) (script : Script)
    → lookup swap_id c.swaps ≡ some swap
    → is_loop_in swap.swap_type ≡ true
    → bytes_beq (lib.sha256 preimage) swap.payment_hash ≡ true
    → lookup swap_id c.onchain_funding ≡ some outpoint
    → lookup swap_id c.swap_scripts ≡ some script
    → complete_loop_in_with_preimage lib c swap_id preimage ≡ (
      ok (signed_claim lib c swap outpoint script preimage),
      record c {
        swaps =
            insert swap_id
              (record swap { preimage = some preimage; state = SwapState.fulfilled })
              c.swaps;
      },
    )
unfolding complete_loop_in_with_preimage
complete_lem lib c swap_id preimage swap outpoint script found loops matches funded kept =
    ground arith

-- A Loop In swap from its start to its claim. Where the coordinator's public key is its secret's and
-- that secret's signatures verify, the signature hash leaves witnesses out, digests have 32 bytes, the
-- swap's script reads back as it was written and to the same bytes, and keys and hash are not empty: once
-- the swap is initiated for the hash of a preimage and its funding output is registered, completing it
-- with the preimage returns a transaction that passes the check of that output and pays its
-- amount less the miner fee to the server, and the swap is fulfilled and holds the preimage.
pub complete_loop_in_claims :
    (lib : BitcoinLibrary) (verify_taproot : Bytes → List Bytes → Result Bool) (c : SwapCoordinator)
    (swap_id txid : String) (vout : ℕ) (amount : ℤ) (preimage user : Bytes) (n : ℕ)
    → IsSigning lib c.server_secret
    → c.server_secret.pub_key ≡ c.server_pubkey
    → IgnoresWitness lib (build (claim_builder lib txid vout c.server_pubkey amount))
    → let ((swap, script), c1) = initiate_loop_in c swap_id user (lib.sha256 preimage) amount n in
      length (lib.sha256 (lib.scripts.encode script)) ≡ 32
      → ReadsBack lib.scripts script
      → lib.scripts.encode (lib.scripts.parse (lib.scripts.encode script))
        ≡ lib.scripts.encode script
      → user ≢ []
      → c.server_pubkey ≢ []
      → lib.sha256 preimage ≢ []
      → let (registered, c2) = register_funding_utxo c1 swap_id txid vout in
        let (result, c3) = complete_loop_in_with_preimage lib c2 swap_id preimage in
        (registered ≡ ok tt)
        × (tx : Transaction) × (result ≡ ok tx)
        × (verify_transaction_witness lib verify_taproot tx 0
              (create_p2wsh lib.sha256 lib.scripts script)
              amount
            ≡ ok true)
        × (tx.vout
            ≡ record {
              n_value = less_miner_fee amount;
              script_pub_key = create_p2wpkh lib.hash160 c.server_pubkey;
            }
              ∷ [])
        × (lookup swap_id c3.swaps
            ≡ some (record swap { preimage = some preimage; state = SwapState.fulfilled }))
unfolding initiate_loop_in signed_claim claim_builder build create_submarine_swap_claim_tx
complete_loop_in_claims lib verify_taproot c swap_id txid vout amount preimage user n good own
      ignores size reads same u k h =
    let secret = c.server_secret in
    let server = c.server_pubkey in
    let script = create_htlc user server (lib.sha256 preimage) (pos n) in
    let swap = new_swap swap_id loop_in amount (lib.sha256 preimage) n in
    let c1 = (initiate_loop_in c swap_id user (lib.sha256 preimage) amount n).1 in
    let c2 = record c1 { onchain_funding = insert swap_id (txid, vout) c1.onchain_funding } in
    let found = lookup-insert_self swap_id swap c.swaps in
    let registers = register_lem c1 swap_id txid vout swap found in
    let completes =
      complete_lem lib c2 swap_id preimage swap (txid, vout) script found refl
        (bytes_beq_refl (lib.sha256 preimage))
        (lookup-insert_self swap_id (txid, vout) c.onchain_funding)
        (lookup-insert_self swap_id script c.swap_scripts) in
    rw registers (
      rw completes (
        refl,
        with_witness lib secret server txid vout amount preimage script,
        ap ok (create_claim_tx_signed lib secret server txid vout amount preimage script),
        claim_passes lib verify_taproot secret server txid vout amount preimage user n good own
            ignores size reads same u k h,
        refl,
        lookup-insert_self swap_id _ c1.swaps,
      ))
