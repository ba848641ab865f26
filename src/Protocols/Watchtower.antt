-- ===== src/Protocols/Watchtower.antt =====
-- src/payment_communities/protocols/watchtower.py. The cipher, JSON, SHA-256 and the hex codec are
-- parameters, and the nonce that `encrypt_justice_payload` draws is an argument.
pub mod Detection
mod Tests
use unito_blockchain_25_26_p.Base.{
  Bytes, List, Option, String, [], if◌then◌else◌, nat_beq, none, some, string_eq, suc, zero, ℕ, ◌%◌,
  ◌*◌, ◌++◌, ◌+◌, ◌/◌, ◌∷◌,
}
use unito_blockchain_25_26_p.Base.Dict.{Dict, insert, lookup}
use unito_blockchain_25_26_p.Base.Int.{ℤ}
use unito_blockchain_25_26_p.Base.Lists.{get_elem?, length, take}
use unito_blockchain_25_26_p.Bitcoin.Builder.{BitcoinLibrary, Transaction}
use unito_blockchain_25_26_p.Config.{watchtower_hint_bytes}
use unito_blockchain_25_26_p.Errors.{
  Result, err, index_error, library_error, ok, value_error, ◌>>=◌,
}
use unito_blockchain_25_26_p.Protocols.Revocation.Breach.{create_breach_remedy_transaction}
use unito_blockchain_25_26_p.Protocols.Revocation.Scripts.{create_revocable_output_script}

pub record JusticePackage : Type 0 where
  pub revoked_txid : String
  pub revoked_vout : ℕ
  pub sweeper_pubkey : String
  pub amount_sat : ℤ
  pub revocation_sig : String
  pub revocation_pubkey : String
  pub local_pubkey : String
  pub to_self_delay : ℤ
  pub nonce_len : ℕ
  pub tag_len : ℕ

-- `hex_to_bytes` is `none` where it raises `ValueError`, and so are decryption and parsing where they
-- raise.
pub record WatchtowerLibrary : Type 0 where
  pub sha256 : Bytes → Bytes
  pub hex_to_bytes : String → Option Bytes
  pub hex : Bytes → String
  pub dumps : JusticePackage → Bytes
  pub loads : Bytes → Option JusticePackage
  pub aes_encrypt : (key nonce payload : Bytes) → Bytes
  pub aes_decrypt : (key nonce ciphertext : Bytes) → Option Bytes

-- A blob's text: two hex fields around a colon, or one field of the legacy format.
pub data Blob : Type 0 where
  sealed : Bytes → Bytes → Blob
  legacy : Bytes → Blob

-- `hex_to_bytes`, with its exception.
abbrev pub decode_hex : WatchtowerLibrary → String → Result Bytes
decode_hex lib text = elim (lib.hex_to_bytes text) [
  | none ↦ err value_error
  | some bytes ↦ ok bytes
]

-- `key[i % len(key)] ^ b` for one byte.
abbrev pub xor_bits : (bits : ℕ) → ℕ → ℕ → ℕ
xor_bits zero a b = 0
xor_bits (suc n) a b = (a + b) % 2 + 2 * xor_bits n (a / 2) (b / 2)

-- The comprehension over the bytes of a legacy blob, from position `i` on.
abbrev pub xor_key : Bytes → ℕ → Bytes → Result Bytes
xor_key key i [] = ok []
xor_key key i (b ∷ bs) =
    if nat_beq (length key) 0 then err value_error else elim (get_elem? key (i % length key)) [
      | none ↦ err index_error
      | some k ↦ xor_key key (suc i) bs >>= λ rest. ok (xor_bits 8 b k ∷ rest)
    ]

-- Hint = SHA256(txid)[:16], in hex.
unfoldable pub derive_watchtower_hint : WatchtowerLibrary → String → Result String
derive_watchtower_hint lib txid =
    decode_hex lib txid >>= λ bytes. ok (lib.hex (take watchtower_hint_bytes (lib.sha256 bytes)))

unfoldable pub encrypt_justice_payload :
    WatchtowerLibrary → (nonce : Bytes) → String → JusticePackage → Result Blob
encrypt_justice_payload lib nonce txid parcel = decode_hex lib txid >>= λ bytes.
    ok (sealed nonce (lib.aes_encrypt (lib.sha256 bytes) nonce (lib.dumps parcel)))

-- `json.loads(plain_bytes.decode("utf-8"))`
abbrev pub parse_package : WatchtowerLibrary → Bytes → Result JusticePackage
parse_package lib opened_bytes = elim (lib.loads opened_bytes) [
  | none ↦ err value_error
  | some p ↦ ok p
]

-- The two formats, under the key of a txid.
abbrev pub open_blob : WatchtowerLibrary → Bytes → Blob → Result JusticePackage
open_blob lib key (sealed nonce ciphertext) = elim (lib.aes_decrypt key nonce ciphertext) [
  | none ↦ err library_error
  | some opened_bytes ↦ parse_package lib opened_bytes
]
open_blob lib key (legacy cipher) = xor_key key 0 cipher >>= parse_package lib

unfoldable pub decrypt_justice_payload : WatchtowerLibrary → String → Blob → Result JusticePackage
decrypt_justice_payload lib txid blob =
    decode_hex lib txid >>= λ bytes. open_blob lib (lib.sha256 bytes) blob

pub record WatchtowerSession : Type 0 where
  pub session_id : String
  pub hint_map : Dict String Blob
  pub registered_txids : Dict String String

-- The package holds the txid that it is registered for.
-- The hint and the blob of a registration.
abbrev pub seal : WatchtowerLibrary → (nonce : Bytes) → JusticePackage → Result (String × Blob)
seal lib nonce parcel = do
  hint ← derive_watchtower_hint lib parcel.revoked_txid
  blob ← encrypt_justice_payload lib nonce parcel.revoked_txid parcel
  ok (hint, blob)

unfoldable pub register_justice_package :
    WatchtowerLibrary
    → (nonce : Bytes) → WatchtowerSession
    → JusticePackage
    → Result String × WatchtowerSession
unfolding derive_watchtower_hint encrypt_justice_payload
register_justice_package lib nonce session parcel = elim (seal lib nonce parcel) [
  | err e ↦ (err e, session)
  | ok (hint, blob) ↦ (
    ok hint,
    record session {
      hint_map = insert hint blob session.hint_map;
      registered_txids = insert hint parcel.revoked_txid session.registered_txids;
    },
  )
]

pub record WatchtowerDaemon : Type 0 where
  pub session : WatchtowerSession
  pub swept_transactions : List Transaction

-- The penalty transaction of a package.
unfoldable pub build_justice :
    BitcoinLibrary → WatchtowerLibrary → String → JusticePackage → Result Transaction
unfolding create_revocable_output_script create_breach_remedy_transaction
build_justice bitcoin lib txid parcel = do
  revocation_pubkey ← decode_hex lib parcel.revocation_pubkey
  local_pubkey ← decode_hex lib parcel.local_pubkey
  sweeper_pubkey ← decode_hex lib parcel.sweeper_pubkey
  sig ← decode_hex lib parcel.revocation_sig
  ok (
      create_breach_remedy_transaction bitcoin txid parcel.revoked_vout sweeper_pubkey
        parcel.amount_sat sig
        (create_revocable_output_script revocation_pubkey local_pubkey parcel.to_self_delay))

-- What the daemon makes of a blob.
abbrev pub justice_of :
    BitcoinLibrary → WatchtowerLibrary → String → Option Blob → Result (Option Transaction)
justice_of bitcoin lib txid none = ok none
justice_of bitcoin lib txid (some blob) = decrypt_justice_payload lib txid blob >>= λ parcel.
    build_justice bitcoin lib txid parcel >>= λ tx. ok (some tx)

unfoldable pub scan_transaction :
    BitcoinLibrary
    → WatchtowerLibrary
    → WatchtowerDaemon
    → String
    → Result (Option Transaction) × WatchtowerDaemon
unfolding derive_watchtower_hint decrypt_justice_payload build_justice
scan_transaction bitcoin lib d txid =
    elim (derive_watchtower_hint lib txid >>= λ hint.
    justice_of bitcoin lib txid (lookup hint d.session.hint_map)) [
      | err e ↦ (err e, d)
      | ok none ↦ (ok none, d)
      | ok (some tx) ↦
          (ok (some tx), record d { swept_transactions = d.swept_transactions ++ (tx ∷ []) })
    ]
