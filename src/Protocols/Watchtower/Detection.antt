-- ===== src/Protocols/Watchtower/Detection.antt =====
-- protocols/watchtower.py: a registered commitment that is broadcast is swept.
use unito_blockchain_25_26_p.Base.{
  string_eq, Bytes, [], some, ◌++◌, ◌∷◌, ◌≡◌, ap, refl, ◌∙◌, String, arith, List, inl, inr, sym,
  ◌≢◌,
}
use unito_blockchain_25_26_p.Bitcoin.Builder.{BitcoinLibrary}
use unito_blockchain_25_26_p.Errors.{ok, Result-cases}
use unito_blockchain_25_26_p.Protocols.Revocation.Breach.{create_breach_remedy_transaction}
use unito_blockchain_25_26_p.Protocols.Revocation.Scripts.{create_revocable_output_script}
use unito_blockchain_25_26_p.Protocols.Watchtower.{
  JusticePackage, WatchtowerDaemon, WatchtowerLibrary, register_justice_package, scan_transaction,
  build_justice, decrypt_justice_payload, derive_watchtower_hint, encrypt_justice_payload, sealed,
  decode_hex, open_blob, WatchtowerSession,
}
use unito_blockchain_25_26_p.Base.Dict.{lookup, lookup-insert_self, lookup-insert_ne}
use unito_blockchain_25_26_p.Config.{watchtower_hint_bytes}
use unito_blockchain_25_26_p.Base.Lists.{take, All}
use unito_blockchain_25_26_p.Protocols.Ptlc.{nonce}

-- The session after the packages of a list are registered, first to last, each under a nonce.
abbrev pub register_all :
    WatchtowerLibrary → WatchtowerSession → List (Bytes × JusticePackage) → WatchtowerSession
register_all lib session [] = session
register_all lib session ((nonce, parcel) ∷ parcels) =
    register_all lib (register_justice_package lib nonce session parcel).1 parcels

-- No package of a list has the given hint.
abbrev pub HaveOtherHint : WatchtowerLibrary → String → List (Bytes × JusticePackage) → Type 0
HaveOtherHint lib hint parcels =
    All (λ (p : Bytes × JusticePackage). derive_watchtower_hint lib p.1.revoked_txid ≢ ok hint)
      parcels

register_keeps :
    (lib : WatchtowerLibrary) (nonce : Bytes) (session : WatchtowerSession)
    (parcel : JusticePackage) (hint : String)
    → derive_watchtower_hint lib parcel.revoked_txid ≢ ok hint
    → lookup hint (register_justice_package lib nonce session parcel).1.hint_map
      ≡ lookup hint session.hint_map
unfolding register_justice_package
register_keeps lib nonce session parcel hint other =
    elim (Result-cases (derive_watchtower_hint lib parcel.revoked_txid)) [
      | inr (e, failed) ↦ rw (failed, register_justice_package) refl
      | inl (h, derived) ↦
          elim (Result-cases (encrypt_justice_payload lib nonce parcel.revoked_txid parcel)) [
            | inr (e, failed) ↦ rw (derived, failed, register_justice_package) refl
            | inl (blob, made) ↦
                rw (derived, made, register_justice_package)
                  (lookup-insert_ne h hint blob session.hint_map
                    (λ same. other (derived ∙ ap ok (sym same))))
          ]
    ]

register_all-keeps :
    (lib : WatchtowerLibrary) (session : WatchtowerSession) (hint : String)
    (parcels : List (Bytes × JusticePackage))
    → HaveOtherHint lib hint parcels
    → lookup hint (register_all lib session parcels).hint_map ≡ lookup hint session.hint_map
register_all-keeps lib session hint [] others = refl
register_all-keeps lib session hint ((nonce, parcel) ∷ parcels) (other, others) =
    register_all-keeps lib (register_justice_package lib nonce session parcel).1 hint parcels others
    ∙ register_keeps lib nonce session parcel hint other

decode_hex_lem :
    (lib : WatchtowerLibrary) (text : String) (bytes : Bytes)
    → lib.hex_to_bytes text ≡ some bytes
    → decode_hex lib text ≡ ok bytes
decode_hex_lem lib text bytes h = rw (h, decode_hex) refl

open_blob_lem :
    (lib : WatchtowerLibrary) (key nonce ciphertext payload : Bytes) (parcel : JusticePackage)
    → lib.aes_decrypt key nonce ciphertext ≡ some payload
    → lib.loads payload ≡ some parcel
    → open_blob lib key (sealed nonce ciphertext) ≡ ok parcel
open_blob_lem lib key nonce ciphertext payload parcel opens reads = ground (arith, opens, reads)

module _ (bitcoin : BitcoinLibrary) (lib : WatchtowerLibrary) (nonce : Bytes)
    (daemon : WatchtowerDaemon) (parcel : JusticePackage) where
  -- The daemon once the package is registered, and after it the packages of a list.
  abbrev pub watching : List (Bytes × JusticePackage) → WatchtowerDaemon
  watching later = record daemon {
    session = register_all lib (register_justice_package lib nonce daemon.session parcel).1 later;
  }

  hint_lem :
      (txid_bytes : Bytes)
      → lib.hex_to_bytes parcel.revoked_txid ≡ some txid_bytes
      → derive_watchtower_hint lib parcel.revoked_txid
        ≡ ok (lib.hex (take watchtower_hint_bytes (lib.sha256 txid_bytes)))
  unfolding derive_watchtower_hint
  hint_lem txid_bytes t =
      rw (decode_hex_lem lib parcel.revoked_txid txid_bytes t, derive_watchtower_hint) refl

  blob_lem :
      (txid_bytes : Bytes)
      → lib.hex_to_bytes parcel.revoked_txid ≡ some txid_bytes
      → encrypt_justice_payload lib nonce parcel.revoked_txid parcel
        ≡ ok (sealed nonce (lib.aes_encrypt (lib.sha256 txid_bytes) nonce (lib.dumps parcel)))
  unfolding encrypt_justice_payload
  blob_lem txid_bytes t =
      rw (decode_hex_lem lib parcel.revoked_txid txid_bytes t, encrypt_justice_payload) refl

  -- The registration keeps the blob under the hint of the txid, and later ones of other hints leave it.
  watching_lem :
      (txid_bytes : Bytes) (later : List (Bytes × JusticePackage))
      → lib.hex_to_bytes parcel.revoked_txid ≡ some txid_bytes
      → let hint = lib.hex (take watchtower_hint_bytes (lib.sha256 txid_bytes)) in
        HaveOtherHint lib hint later
        → lookup hint (watching later).session.hint_map
          ≡ some (sealed nonce (lib.aes_encrypt (lib.sha256 txid_bytes) nonce (lib.dumps parcel)))
  unfolding register_justice_package
  watching_lem txid_bytes later t others =
      let hint = lib.hex (take watchtower_hint_bytes (lib.sha256 txid_bytes)) in
      let session = (register_justice_package lib nonce daemon.session parcel).1 in
      let blob = sealed nonce (lib.aes_encrypt (lib.sha256 txid_bytes) nonce (lib.dumps parcel)) in
      let kept : lookup hint session.hint_map ≡ some blob =
        rw (hint_lem txid_bytes t, blob_lem txid_bytes t, register_justice_package)
          (lookup-insert_self hint blob daemon.session.hint_map) in
      register_all-keeps lib session hint later others ∙ kept

  opened_lem :
      (txid_bytes : Bytes)
      → ((key payload : Bytes)
          → lib.aes_decrypt key nonce (lib.aes_encrypt key nonce payload) ≡ some payload)
      → lib.loads (lib.dumps parcel) ≡ some parcel
      → lib.hex_to_bytes parcel.revoked_txid ≡ some txid_bytes
      → decrypt_justice_payload lib parcel.revoked_txid
          (sealed nonce (lib.aes_encrypt (lib.sha256 txid_bytes) nonce (lib.dumps parcel)))
        ≡ ok parcel
  unfolding decrypt_justice_payload
  opened_lem txid_bytes opens reads t =
      rw (decode_hex_lem lib parcel.revoked_txid txid_bytes t, decrypt_justice_payload)
        (open_blob_lem lib (lib.sha256 txid_bytes) nonce
          (lib.aes_encrypt (lib.sha256 txid_bytes) nonce (lib.dumps parcel)) (lib.dumps parcel)
          parcel (opens (lib.sha256 txid_bytes) (lib.dumps parcel)) reads)

  justice_lem :
      (revocation_pubkey local_pubkey sweeper sig : Bytes)
      → lib.hex_to_bytes parcel.revocation_pubkey ≡ some revocation_pubkey
      → lib.hex_to_bytes parcel.local_pubkey ≡ some local_pubkey
      → lib.hex_to_bytes parcel.sweeper_pubkey ≡ some sweeper
      → lib.hex_to_bytes parcel.revocation_sig ≡ some sig
      → build_justice bitcoin lib parcel.revoked_txid parcel
        ≡ ok (
            create_breach_remedy_transaction bitcoin parcel.revoked_txid parcel.revoked_vout sweeper
              parcel.amount_sat sig
              (create_revocable_output_script revocation_pubkey local_pubkey parcel.to_self_delay))
  unfolding build_justice
  justice_lem revocation_pubkey local_pubkey sweeper sig r l s g =
      rw
        (
          decode_hex_lem lib parcel.revocation_pubkey revocation_pubkey r,
          decode_hex_lem lib parcel.local_pubkey local_pubkey l,
          decode_hex_lem lib parcel.sweeper_pubkey sweeper s,
          decode_hex_lem lib parcel.revocation_sig sig g,
          build_justice,
        )
        refl

  -- A registered txid that is broadcast is swept, whatever was registered before it and whatever is
  -- registered after it under other hints: where the cipher and JSON give back what was put in and the
  -- txid and the four hex fields are hex, the daemon returns the breach remedy that the package
  -- describes and adds it to the swept transactions. A later package of the same hint is excluded, since
  -- it takes the place of the registered one.
  pub scan_transaction-register_justice_package :
      (txid_bytes revocation_pubkey local_pubkey sweeper sig : Bytes)
      (later : List (Bytes × JusticePackage))
      → ((key payload : Bytes)
          → lib.aes_decrypt key nonce (lib.aes_encrypt key nonce payload) ≡ some payload)
      → lib.loads (lib.dumps parcel) ≡ some parcel
      → lib.hex_to_bytes parcel.revoked_txid ≡ some txid_bytes
      → lib.hex_to_bytes parcel.revocation_pubkey ≡ some revocation_pubkey
      → lib.hex_to_bytes parcel.local_pubkey ≡ some local_pubkey
      → lib.hex_to_bytes parcel.sweeper_pubkey ≡ some sweeper
      → lib.hex_to_bytes parcel.revocation_sig ≡ some sig
      → HaveOtherHint lib (lib.hex (take watchtower_hint_bytes (lib.sha256 txid_bytes))) later
      → let justice =
          create_breach_remedy_transaction bitcoin parcel.revoked_txid parcel.revoked_vout sweeper
            parcel.amount_sat sig
            (create_revocable_output_script revocation_pubkey local_pubkey parcel.to_self_delay) in
        scan_transaction bitcoin lib (watching later) parcel.revoked_txid ≡ (
          ok (some justice),
          record (watching later) {
            swept_transactions = daemon.swept_transactions ++ (justice ∷ []);
          },
        )
  unfolding scan_transaction
  scan_transaction-register_justice_package txid_bytes revocation_pubkey local_pubkey sweeper sig
        later opens reads t r l s g others =
      rw
        (
          hint_lem txid_bytes t,
          watching_lem txid_bytes later t others,
          opened_lem txid_bytes opens reads t,
          justice_lem revocation_pubkey local_pubkey sweeper sig r l s g,
          scan_transaction,
        )
        refl
