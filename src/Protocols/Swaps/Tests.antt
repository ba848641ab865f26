-- ===== src/Protocols/Swaps/Tests.antt =====
-- protocols/swap_server.py: the theorems at a toy server, and runs of the coordinator.
use unito_blockchain_25_26_p.Base.{Bytes, [], arith, refl, string_eq, some, true, ◌∷◌, ◌≡◌}
use unito_blockchain_25_26_p.Base.Dict.{lookup}
use unito_blockchain_25_26_p.Base.Int.{pos}
use unito_blockchain_25_26_p.Bitcoin.Builder.{Transaction}
use unito_blockchain_25_26_p.Bitcoin.Contracts.{create_htlc, create_p2wpkh, create_p2wsh}
use unito_blockchain_25_26_p.Bitcoin.Dispatch.{check_signature}
use unito_blockchain_25_26_p.Bitcoin.Numbers.{from_bytes_signed}
use unito_blockchain_25_26_p.Bitcoin.Tests.{alice, alice_sig, bob, pushed}
use unito_blockchain_25_26_p.Bitcoin.Tests.Transactions.{no_taproot, secret_of, toy_bitcoin}
use unito_blockchain_25_26_p.Bitcoin.Verification.{verify_transaction_witness}
use unito_blockchain_25_26_p.Errors.{Result, err, key_error, ok, payment_community}
use unito_blockchain_25_26_p.Protocols.Swaps.{SwapState, create_submarine_swap_script, loop_in}
use unito_blockchain_25_26_p.Protocols.Swaps.Claims.{complete_loop_in_claims}
use unito_blockchain_25_26_p.Protocols.Swaps.Refunds.{swap_refund, verify-swap_refund}
use unito_blockchain_25_26_p.Protocols.Swaps.Server.{
  SwapCoordinator, complete_loop_in_with_preimage, initiate_loop_in, less_miner_fee,
  new_coordinator, new_swap, register_funding_utxo, signed_claim,
}
use unito_blockchain_25_26_p.Protocols.Swaps.Sessions.{
  AreProven, SwapReach-AreProven, completes, here, initiates_in, next, registers,
}

abbrev server : SwapCoordinator
server = new_coordinator (secret_of bob)

abbrev preimage : Bytes
preimage = 1 ∷ []

abbrev started : SwapCoordinator
started = (initiate_loop_in server "s" alice (toy_bitcoin.sha256 preimage) (pos 9000) 500).1

abbrev funded : SwapCoordinator
funded = (register_funding_utxo started "s" "aa" 0).1

abbrev completed : Result Transaction × SwapCoordinator
completed = complete_loop_in_with_preimage toy_bitcoin funded "s" preimage

coordinator_refuses :
    ((register_funding_utxo started "t" "aa" 0).0 ≡ err payment_community)
    × ((complete_loop_in_with_preimage toy_bitcoin started "s" preimage).0 ≡ err key_error)
    × ((complete_loop_in_with_preimage toy_bitcoin funded "s" []).0 ≡ err payment_community)
    × ((complete_loop_in_with_preimage toy_bitcoin funded "t" preimage).0 ≡ err payment_community)
unfolding initiate_loop_in register_funding_utxo complete_loop_in_with_preimage
coordinator_refuses = (refl, refl, refl, refl)

-- No amount is refused, whatever the bounds of the configuration.
takes_any_amount : (initiate_loop_in server "s" alice preimage (pos 1) 500).0.0.amount_sat ≡ pos 1
unfolding initiate_loop_in
takes_any_amount = refl

complete_loop_in_claims_example :
    let ((swap, script), c1) =
      initiate_loop_in server "s" alice (toy_bitcoin.sha256 preimage) (pos 9000) 500 in
    let (registered, c2) = register_funding_utxo c1 "s" "aa" 0 in
    let (result, c3) = complete_loop_in_with_preimage toy_bitcoin c2 "s" preimage in
    (registered ≡ ok tt)
    × (tx : Transaction) × (result ≡ ok tx)
    × (verify_transaction_witness toy_bitcoin no_taproot tx 0
          (create_p2wsh toy_bitcoin.sha256 toy_bitcoin.scripts script)
          (pos 9000)
        ≡ ok true)
    × (tx.vout
        ≡ record {
          n_value = less_miner_fee (pos 9000);
          script_pub_key = create_p2wpkh toy_bitcoin.hash160 server.server_pubkey;
        }
          ∷ [])
    × (lookup "s" c3.swaps
        ≡ some (record swap { preimage = some preimage; state = SwapState.fulfilled }))
unfolding initiate_loop_in
complete_loop_in_claims_example =
    complete_loop_in_claims toy_bitcoin no_taproot server "s" "aa" 0 (pos 9000) preimage alice 500
      (λ digest. refl) refl (λ s i h a w. refl) refl refl refl pushed pushed pushed

SwapReach-AreProven_example : AreProven toy_bitcoin completed.1
SwapReach-AreProven_example = SwapReach-AreProven {lib = toy_bitcoin} (secret_of bob) (
    next
      (next (next here (initiates_in "s" alice (toy_bitcoin.sha256 preimage) (pos 9000) 500))
        (registers "s" "aa" 0))
      (completes "s" preimage))

abbrev claim_tx : Transaction
claim_tx =
    signed_claim toy_bitcoin funded
      (new_swap "s" loop_in (pos 9000) (toy_bitcoin.sha256 preimage) 500) ("aa", 0)
      (create_htlc alice bob (toy_bitcoin.sha256 preimage) (pos 500)) preimage

verify-swap_refund_example :
    verify_transaction_witness toy_bitcoin no_taproot
      (swap_refund toy_bitcoin no_taproot "aa" 0 alice alice bob preimage alice_sig (pos 9000) 500)
      0
      (create_p2wsh toy_bitcoin.sha256 toy_bitcoin.scripts
        (create_submarine_swap_script alice bob preimage 500))
      (pos 9000)
    ≡ ok true
unfolding create_submarine_swap_script check_signature from_bytes_signed
verify-swap_refund_example =
    verify-swap_refund toy_bitcoin no_taproot "aa" 0 alice alice bob preimage alice_sig (pos 9000)
      500 pushed refl refl refl (omega arith) pushed pushed pushed
