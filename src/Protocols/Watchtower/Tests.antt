-- ===== src/Protocols/Watchtower/Tests.antt =====
-- protocols/watchtower.py and protocols/revocation.py: the theorems at toy keys and a toy cipher.
use unito_blockchain_25_26_p.Base.{
  bytes_eq, string_eq, string_eq, [], ap, refl, some, true, ◌∷◌, ◌≡◌, if◌then◌else◌, ◌==◌, ◌≢◌,
  arith,
}
use unito_blockchain_25_26_p.Base.Int.{pos}
use unito_blockchain_25_26_p.Bitcoin.Contracts.{create_p2wsh}
use unito_blockchain_25_26_p.Bitcoin.Dispatch.{check_signature}
use unito_blockchain_25_26_p.Bitcoin.Tests.{alice, alice_sig, bob, pushed}
use unito_blockchain_25_26_p.Bitcoin.Tests.Transactions.{no_taproot, toy_bitcoin}
use unito_blockchain_25_26_p.Errors.{ok}
use unito_blockchain_25_26_p.Protocols.Revocation.Breach.{create_breach_remedy_transaction}
use unito_blockchain_25_26_p.Protocols.Revocation.Breach.Remedy.{verify-breach_remedy}
use unito_blockchain_25_26_p.Protocols.Revocation.Scripts.{create_revocable_output_script}
use unito_blockchain_25_26_p.Protocols.Watchtower.{
  JusticePackage, WatchtowerDaemon, WatchtowerLibrary, scan_transaction, derive_watchtower_hint,
}
use unito_blockchain_25_26_p.Protocols.Watchtower.Detection.{
  scan_transaction-register_justice_package, watching,
}
use unito_blockchain_25_26_p.Bitcoin.Verification.{verify_transaction_witness}

abbrev parcel : JusticePackage
parcel = record {
  revoked_txid = "aa";
  revoked_vout = 0;
  sweeper_pubkey = "02";
  amount_sat = pos 9000;
  revocation_sig = "03";
  revocation_pubkey = "04";
  local_pubkey = "05";
  to_self_delay = pos 144;
  nonce_len = 12;
  tag_len = 16;
}

-- JSON that knows this package only, and a cipher that leaves a payload as it is.
abbrev toy_watchtower : WatchtowerLibrary
toy_watchtower = record {
  sha256 = λ bs. 7 ∷ bs;
  hex_to_bytes = λ text. if text == "bb" then some (2 ∷ []) else some (1 ∷ []);
  hex = λ bs. if bs == 7 ∷ 2 ∷ [] then "0702" else "0701";
  dumps = λ p. [];
  loads = λ bs. some parcel;
  aes_encrypt = λ key nonce payload. payload;
  aes_decrypt = λ key nonce ciphertext. some ciphertext;
}

abbrev idle : WatchtowerDaemon
idle = record {
  session = record { session_id = "wt_session_01"; hint_map = []; registered_txids = [] };
  swept_transactions = [];
}

abbrev later_parcel : JusticePackage
later_parcel = record parcel { revoked_txid = "bb" }

later_hint : derive_watchtower_hint toy_watchtower "bb" ≢ ok "0701"
unfolding derive_watchtower_hint
later_hint same = ground (arith, string_eq.beq_iff "0702" "0701", same)

scan_transaction-register_justice_package_example :
    (scan_transaction toy_bitcoin toy_watchtower
      (watching toy_bitcoin toy_watchtower [] idle parcel (([], later_parcel) ∷ []))
      "aa").0
    ≡ ok (
        some (
          create_breach_remedy_transaction toy_bitcoin "aa" 0
            (1 ∷ [])
            (pos 9000)
            (1 ∷ [])
            (create_revocable_output_script (1 ∷ []) (1 ∷ []) (pos 144))))
scan_transaction-register_justice_package_example =
    ap (λ r. r.0)
      (scan_transaction-register_justice_package toy_bitcoin toy_watchtower [] idle parcel (1 ∷ [])
        (1 ∷ []) (1 ∷ []) (1 ∷ []) (1 ∷ []) (([], later_parcel) ∷ []) (λ key payload. refl) refl
        refl refl refl refl refl (later_hint, tt))

verify-breach_remedy_example :
    verify_transaction_witness toy_bitcoin no_taproot
      (create_breach_remedy_transaction toy_bitcoin "aa" 0 bob
        (pos 9000)
        alice_sig
        (create_revocable_output_script alice bob (pos 144)))
      0
      (create_p2wsh toy_bitcoin.sha256 toy_bitcoin.scripts
        (create_revocable_output_script alice bob (pos 144)))
      (pos 10_000)
    ≡ ok true
unfolding create_revocable_output_script check_signature
verify-breach_remedy_example =
    verify-breach_remedy toy_bitcoin no_taproot "aa" 0 bob (pos 9000) (pos 10_000) alice bob
      alice_sig 144 refl refl pushed pushed
