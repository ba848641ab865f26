-- ===== src/Protocols/Eltoo/Tests.antt =====
-- protocols/eltoo.py: runs of the checks, and the theorems at toy keys: an update of state 1 spends
-- the output of the update of state 2.
use unito_blockchain_25_26_p.Base.{Bytes, [], none, refl, some, true, ◌≡◌}
use unito_blockchain_25_26_p.Base.Int.{pos}
use unito_blockchain_25_26_p.Base.Lists.{get_elem?}
use unito_blockchain_25_26_p.Bitcoin.Builder.{TxOut}
use unito_blockchain_25_26_p.Bitcoin.Contracts.{bytes_lt, create_multisig_2of2}
use unito_blockchain_25_26_p.Bitcoin.Script.{Script}
use unito_blockchain_25_26_p.Bitcoin.Tests.{alice, bob, pushed}
use unito_blockchain_25_26_p.Bitcoin.Tests.Transactions.{no_taproot, secret_of, toy_bitcoin}
use unito_blockchain_25_26_p.Bitcoin.Verification.{verify_transaction_witness}
use unito_blockchain_25_26_p.Errors.{err, ok, payment_community}
use unito_blockchain_25_26_p.Protocols.Eltoo.{
  EltooState, create_eltoo_update_transaction, total_sat, validate_eltoo_override,
}
use unito_blockchain_25_26_p.Protocols.Eltoo.Updates.{update_spends_update}

abbrev funding : Script
funding = create_multisig_2of2 bob alice

abbrev redeem_script : Bytes
redeem_script = toy_bitcoin.scripts.encode funding

abbrev first_state : EltooState
first_state = record {
  state_number = 1;
  sender_balance_sat = pos 9000;
  receiver_balance_sat = pos 1000;
}

abbrev second_state : EltooState
second_state = record {
  state_number = 2;
  sender_balance_sat = pos 4000;
  receiver_balance_sat = pos 6000;
}

abbrev no_signatures : Bytes × Bytes
no_signatures = ([], [])

override_runs :
    (validate_eltoo_override first_state second_state ≡ ok true)
    × (validate_eltoo_override second_state first_state ≡ err payment_community)
    × (validate_eltoo_override first_state first_state ≡ err payment_community)
unfolding validate_eltoo_override
override_runs = (refl, refl, refl)

update_spends_update_example :
    let replaced =
      create_eltoo_update_transaction toy_bitcoin "aa" 0 second_state redeem_script no_signatures
        none none in
    let update =
      create_eltoo_update_transaction toy_bitcoin "bb" 0 first_state redeem_script no_signatures
        (some (secret_of bob))
        (some (secret_of alice)) in
    (out : TxOut) × (get_elem? replaced.vout 0 ≡ some out)
    × (out.n_value ≡ total_sat second_state)
    × (verify_transaction_witness toy_bitcoin no_taproot update 0 out.script_pub_key
          (total_sat first_state)
        ≡ ok true)
unfolding create_multisig_2of2 bytes_lt
update_spends_update_example =
    update_spends_update toy_bitcoin no_taproot (secret_of bob) (secret_of alice) (λ digest. refl)
      (λ digest. refl) (λ e. cc) pushed pushed refl refl refl "aa" "bb" 0 0 second_state first_state
      no_signatures no_signatures none none (λ s i h a w. refl)
