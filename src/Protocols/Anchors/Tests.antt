-- ===== src/Protocols/Anchors/Tests.antt =====
-- protocols/anchors.py: the theorems at toy keys.
use unito_blockchain_25_26_p.Base.{[], arith, refl, some, true, ◌∷◌, ◌≡◌}
use unito_blockchain_25_26_p.Base.Int.{pos}
use unito_blockchain_25_26_p.Base.Lists.{get_elem?}
use unito_blockchain_25_26_p.Bitcoin.Builder.{Transaction}
use unito_blockchain_25_26_p.Bitcoin.Tests.{alice, bob, pushed, toy_library}
use unito_blockchain_25_26_p.Bitcoin.Tests.Transactions.{no_taproot, toy_bitcoin}
use unito_blockchain_25_26_p.Errors.{ok}
use unito_blockchain_25_26_p.Protocols.Anchors.{create_anchor_script}
use unito_blockchain_25_26_p.Protocols.Anchors.Spending.{
  anchor_output, anchored, balance_open_to_all,
}
use unito_blockchain_25_26_p.Bitcoin.Verification.{verify_transaction_witness}

-- A transaction of somebody who has no key.
abbrev thief : Transaction
unfolding create_anchor_script
thief = record {
  vin = record { txid = "cc"; vout = 0; n_sequence = 16 } ∷ [];
  vout = [];
  n_lock_time = 0;
  wit = ([] ∷ toy_library.encode (create_anchor_script alice) ∷ []) ∷ [];
}

balance_open_to_all_example :
    (get_elem? (anchored toy_bitcoin "aa" 0 alice bob (pos 6000) (pos 4000)).vout 0
      ≡ some (record {
        n_value = pos 6000;
        script_pub_key = anchor_output toy_bitcoin "aa" 0 alice bob (pos 6000) (pos 4000);
      }))
    × (verify_transaction_witness toy_bitcoin no_taproot thief 0
          (anchor_output toy_bitcoin "aa" 0 alice bob (pos 6000) (pos 4000))
          (pos 6000)
        ≡ ok true)
unfolding create_anchor_script thief
balance_open_to_all_example =
    balance_open_to_all toy_bitcoin "aa" 0 alice bob (pos 6000) (pos 4000) no_taproot thief
      (record { txid = "cc"; vout = 0; n_sequence = 16 }) [] (omega arith) refl refl pushed refl
      refl refl
