-- ===== src/Bitcoin/Builder.antt =====
-- src/payment_communities/bitcoin/transaction.py: `TransactionBuilder`. A transaction is its inputs,
-- outputs, locktime and witness stacks, as python-bitcoinlib keeps them; the library's checks of a
-- txid's form and of the ranges of numbers are left out, so these are arguments in range.
use unito_blockchain_25_26_p.Base.{Bool, Bytes, List, String, [], if◌then◌else◌, ℕ, ◌++◌, ◌∷◌}
use unito_blockchain_25_26_p.Base.Int.{leb_ℤ, ℤ}
use unito_blockchain_25_26_p.Bitcoin.Contracts.{create_p2tr, create_p2wpkh, create_p2wsh}
use unito_blockchain_25_26_p.Bitcoin.Script.{Script, ScriptLibrary}
use unito_blockchain_25_26_p.Errors.{Result, ok, ◌>>=◌}
use unito_blockchain_25_26_p.Config.{bitcoin_dust_limit_sat}

pub record TxIn : Type 0 where
  pub txid : String
  pub vout : ℕ
  pub n_sequence : ℕ

pub record TxOut : Type 0 where
  pub n_value : ℤ
  pub script_pub_key : Script

pub record Transaction : Type 0 where
  pub vin : List TxIn
  pub vout : List TxOut
  pub n_lock_time : ℕ
  pub wit : List (List Bytes)

-- What transactions take from python-bitcoinlib and from hashlib. A signature hash is of the script's
-- bytes, the transaction, the input's index, the hash type and the amount.
pub record BitcoinLibrary : Type 0 where
  pub scripts : ScriptLibrary
  pub sha256 : Bytes → Bytes
  pub hash160 : Bytes → Bytes
  pub hash256 : Bytes → Bytes
  pub ripemd160 : Bytes → Bytes
  pub signature_hash : Bytes → Transaction → ℕ → ℕ → ℤ → Bytes
  pub ecdsa_verify : Bytes → Bytes → Bytes → Bool

pub record TransactionBuilder : Type 0 where
  pub inputs : List TxIn
  pub outputs : List TxOut
  pub witnesses : List (List Bytes)
  pub locktime : ℕ

abbrev pub new_builder : ℕ → TransactionBuilder
new_builder locktime = record { inputs = []; outputs = []; witnesses = []; locktime = locktime }

-- The sequence number that an input has where no other is given.
abbrev pub final_sequence : ℕ
final_sequence = 0xFFFFFFFF

unfoldable pub add_input : String → ℕ → ℕ → TransactionBuilder → TransactionBuilder
add_input txid vout sequence b = record b {
  inputs = b.inputs ++ (record { txid = txid; vout = vout; n_sequence = sequence } ∷ []);
}

unfoldable pub add_output : ℤ → Script → TransactionBuilder → TransactionBuilder
add_output amount script b = record b {
  outputs = b.outputs ++ (record { n_value = amount; script_pub_key = script } ∷ []);
}

unfoldable pub add_p2wpkh_output :
    BitcoinLibrary → ℤ → Bytes → TransactionBuilder → TransactionBuilder
unfolding add_output create_p2wpkh
add_p2wpkh_output lib amount pubkey b =
    if leb_ℤ bitcoin_dust_limit_sat amount
    then add_output amount (create_p2wpkh lib.hash160 pubkey) b
    else b

unfoldable pub add_p2wsh_output :
    BitcoinLibrary → ℤ → Script → TransactionBuilder → TransactionBuilder
unfolding add_output create_p2wsh
add_p2wsh_output lib amount redeem_script b =
    if leb_ℤ bitcoin_dust_limit_sat amount
    then add_output amount (create_p2wsh lib.sha256 lib.scripts redeem_script) b
    else b

unfoldable pub add_p2tr_output : ℤ → Bytes → TransactionBuilder → Result TransactionBuilder
unfolding add_output create_p2tr
add_p2tr_output amount output_key b =
    if leb_ℤ bitcoin_dust_limit_sat amount
    then (create_p2tr output_key >>= λ script. ok (add_output amount script b))
    else ok b

unfoldable pub add_witness_stack : List Bytes → TransactionBuilder → TransactionBuilder
add_witness_stack stack b = record b { witnesses = b.witnesses ++ (stack ∷ []) }

unfoldable pub set_locktime : ℕ → TransactionBuilder → TransactionBuilder
set_locktime locktime b = record b { locktime = locktime }

unfoldable pub build : TransactionBuilder → Transaction
build b = record { vin = b.inputs; vout = b.outputs; n_lock_time = b.locktime; wit = b.witnesses }
