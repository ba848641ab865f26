-- ===== src/Protocols/Swaps/Server.antt =====
-- src/payment_communities/protocols/swap_server.py: the transactions of a swap and the coordinator.
-- A returned swap is the object that the coordinator holds; the model keeps the coordinator's.
use unito_blockchain_25_26_p.Base.{
  ℕ, String, string_eq, Bool, true, false, Option, none, some, [], ◌∷◌, Bytes, bytes_beq,
  if◌then◌else◌,
}
use unito_blockchain_25_26_p.Base.Int.{ℤ, pos, ◌-ℤ◌, ltb_ℤ}
use unito_blockchain_25_26_p.Base.Dict.{Dict, lookup, contains, insert}
use unito_blockchain_25_26_p.Errors.{Result, ok, err, payment_community, key_error}
use unito_blockchain_25_26_p.Bitcoin.Script.{Script}
use unito_blockchain_25_26_p.Bitcoin.Contracts.{create_htlc, create_p2wpkh}
use unito_blockchain_25_26_p.Bitcoin.Builder.{
  BitcoinLibrary, Transaction, TransactionBuilder, new_builder, final_sequence, add_input,
  add_output, add_witness_stack, set_locktime, build,
}
use unito_blockchain_25_26_p.Bitcoin.Signatures.{Secret, sign_p2wsh_input}
use unito_blockchain_25_26_p.Protocols.Swaps.{
  SwapType, loop_in, loop_out, pending, fulfilled, SubmarineSwap,
}

-- `max(0, amount_sat - 500)`
abbrev pub less_miner_fee : ℤ → ℤ
less_miner_fee amount = if ltb_ℤ (pos 0) (amount -ℤ pos 500) then amount -ℤ pos 500 else pos 0

-- The claim before its witness.
unfoldable pub claim_builder : BitcoinLibrary → String → ℕ → Bytes → ℤ → TransactionBuilder
unfolding add_input add_output create_p2wpkh
claim_builder lib txid vout claimer_pubkey amount =
    add_output (less_miner_fee amount) (create_p2wpkh lib.hash160 claimer_pubkey)
      (add_input txid vout final_sequence (new_builder 0))

unfoldable pub create_submarine_swap_claim_tx :
    BitcoinLibrary
    → (funding_txid : String) → (funding_vout : ℕ) → (claimer_pubkey : Bytes) → (amount : ℤ)
    → (preimage : Bytes) → Script
    → (claim_sig : Bytes) → Transaction
unfolding claim_builder add_witness_stack build
create_submarine_swap_claim_tx lib txid vout claimer_pubkey amount preimage redeem_script
      claim_sig =
    let builder = claim_builder lib txid vout claimer_pubkey amount in
    build (
      if bytes_beq claim_sig []
      then builder
      else add_witness_stack
          (claim_sig ∷ preimage ∷ (1 ∷ []) ∷ lib.scripts.encode redeem_script ∷ []) builder)

unfoldable pub create_submarine_swap_refund_tx :
    BitcoinLibrary
    → (funding_txid : String) → (funding_vout : ℕ) → (refunder_pubkey : Bytes) → (amount : ℤ)
    → (locktime : ℕ) → Script
    → (refund_sig : Bytes) → Transaction
unfolding add_input add_output create_p2wpkh add_witness_stack set_locktime build
create_submarine_swap_refund_tx lib txid vout refunder_pubkey amount locktime redeem_script
      refund_sig =
    let builder =
      add_output (less_miner_fee amount) (create_p2wpkh lib.hash160 refunder_pubkey)
        (set_locktime locktime (add_input txid vout 0 (new_builder 0))) in
    build (
      if bytes_beq refund_sig []
      then builder
      else add_witness_stack (refund_sig ∷ [] ∷ lib.scripts.encode redeem_script ∷ []) builder)

-- `SwapCoordinator`, with the fields of its configuration that it reads.
pub record SwapCoordinator : Type 0 where
  pub server_secret : Secret
  pub server_pubkey : Bytes
  pub swaps : Dict String SubmarineSwap
  pub swap_scripts : Dict String Script
  pub onchain_funding : Dict String (String × ℕ)

-- `SwapCoordinator()`: the key pair is drawn.
abbrev pub new_coordinator : Secret → SwapCoordinator
new_coordinator secret = record {
  server_secret = secret;
  server_pubkey = secret.pub_key;
  swaps = [];
  swap_scripts = [];
  onchain_funding = [];
}

abbrev pub new_swap : String → SwapType → ℤ → Bytes → ℕ → SubmarineSwap
new_swap swap_id swap_type amount payment_hash locktime = record {
  swap_id = swap_id;
  swap_type = swap_type;
  amount_sat = amount;
  payment_hash = payment_hash;
  preimage = none;
  locktime = locktime;
  state = pending;
}

-- `self.swaps[swap_id] = swap; self.swap_scripts[swap_id] = redeem_script`
abbrev keep_swap : SwapCoordinator → String → SubmarineSwap → Script → SwapCoordinator
keep_swap c swap_id swap script = record c {
  swaps = insert swap_id swap c.swaps;
  swap_scripts = insert swap_id script c.swap_scripts;
}

unfoldable pub initiate_loop_in :
    SwapCoordinator → String → Bytes → Bytes → ℤ → ℕ → (SubmarineSwap × Script) × SwapCoordinator
unfolding create_htlc
initiate_loop_in c swap_id user_pubkey payment_hash amount locktime =
    let script = create_htlc user_pubkey c.server_pubkey payment_hash (pos locktime) in
    let swap = new_swap swap_id loop_in amount payment_hash locktime in
    ((swap, script), keep_swap c swap_id swap script)

unfoldable pub initiate_loop_out :
    SwapCoordinator → String → Bytes → Bytes → ℤ → ℕ → (SubmarineSwap × Script) × SwapCoordinator
unfolding create_htlc
initiate_loop_out c swap_id user_pubkey payment_hash amount locktime =
    let script = create_htlc c.server_pubkey user_pubkey payment_hash (pos locktime) in
    let swap = new_swap swap_id loop_out amount payment_hash locktime in
    ((swap, script), keep_swap c swap_id swap script)

unfoldable pub register_funding_utxo :
    SwapCoordinator → String → String → ℕ → Result (Unit {0}) × SwapCoordinator
register_funding_utxo c swap_id txid vout =
    if contains swap_id c.swaps
    then (ok tt, record c { onchain_funding = insert swap_id (txid, vout) c.onchain_funding })
    else (err payment_community, c)

abbrev pub is_loop_in : SwapType → Bool
is_loop_in loop_in = true
is_loop_in loop_out = false

-- The claim that the server signs: built without a signature, signed, and built again with it.
unfoldable pub signed_claim :
    BitcoinLibrary → SwapCoordinator → SubmarineSwap → String × ℕ → Script → Bytes → Transaction
unfolding create_submarine_swap_claim_tx sign_p2wsh_input
signed_claim lib c swap (txid, vout) redeem_script preimage =
    let claim =
      create_submarine_swap_claim_tx lib txid vout c.server_pubkey swap.amount_sat preimage
        redeem_script in
    claim (sign_p2wsh_input lib (claim []) 0 redeem_script c.server_secret swap.amount_sat)

-- What follows the checks of `complete_loop_in_with_preimage`, by what the two dicts hold.
claim_swap :
    BitcoinLibrary
    → SwapCoordinator
    → String
    → Bytes
    → SubmarineSwap
    → Option (String × ℕ)
    → Option Script
    → Result Transaction × SwapCoordinator
unfolding signed_claim
claim_swap lib c swap_id preimage swap none script = (err key_error, c)
claim_swap lib c swap_id preimage swap (some outpoint) none = (err key_error, c)
claim_swap lib c swap_id preimage swap (some outpoint) (some script) = (
  ok (signed_claim lib c swap outpoint script preimage),
  record c {
    swaps = insert swap_id (record swap { preimage = some preimage; state = fulfilled }) c.swaps;
  },
)

complete_found :
    BitcoinLibrary
    → SwapCoordinator
    → String
    → Bytes
    → Option SubmarineSwap
    → Result Transaction × SwapCoordinator
unfolding claim_swap
complete_found lib c swap_id preimage none = (err payment_community, c)
complete_found lib c swap_id preimage (some swap) =
    if is_loop_in swap.swap_type
    then (if bytes_beq (lib.sha256 preimage) swap.payment_hash
        then claim_swap lib c swap_id preimage swap (lookup swap_id c.onchain_funding)
            (lookup swap_id c.swap_scripts)
        else (err payment_community, c))
    else (err payment_community, c)

unfoldable pub complete_loop_in_with_preimage :
    BitcoinLibrary → SwapCoordinator → String → Bytes → Result Transaction × SwapCoordinator
unfolding complete_found
complete_loop_in_with_preimage lib c swap_id preimage =
    complete_found lib c swap_id preimage (lookup swap_id c.swaps)
