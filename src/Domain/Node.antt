-- ===== src/Domain/Node.antt =====
-- src/payment_communities/domain/node.py: `Node`. Two nodes share one channel object, so the objects
-- stand in a store: a node is named by its number, and a node's `channels` hold the numbers of
-- channels. The keys that a node draws and the secrets it generates are arguments.
pub mod Pairing
pub mod Offers
pub mod Payment
pub mod Funded
pub mod Reach
mod Tests
use unito_blockchain_25_26_p.Base.{
  ℕ, suc, ◌==◌, nat_eq, String, string_eq, Bool, true, false, Option, none, some, [], Bytes,
  if◌then◌else◌,
}
use unito_blockchain_25_26_p.Base.Int.{ℤ, pos, int_eq}
use unito_blockchain_25_26_p.Base.Dict.{Dict, lookup, contains, insert}
use unito_blockchain_25_26_p.Errors.{Result, ok, err, channel_state, key_error, ◌>>=◌}
use unito_blockchain_25_26_p.Protocols.Revocation.Store.{empty_store}
use unito_blockchain_25_26_p.Domain.Predicates.{Hashes}
use unito_blockchain_25_26_p.Domain.Records.{ChannelState, HtlcState, HtlcContract, Channel}
use unito_blockchain_25_26_p.Domain.Channel.{add_htlc, redeem_htlc, refund_htlc}

pub record Node : Type 0 where
  pub alias : String
  pub pubkey_bytes : Bytes
  pub pubkey_hex : String
  pub address : String
  pub channels : Dict String ℕ
  pub known_preimages : Dict String String
  pub revocation_secrets : Dict String (Dict ℤ String)

-- `Node.__init__`, for the public key that the wallet gives and its address as a text.
unfoldable pub new_node : Hashes → (p2wpkh_address : Bytes → String) → String → Bytes → Node
new_node hs p2wpkh_address alias pubkey_bytes = record {
  alias = alias;
  pubkey_bytes = pubkey_bytes;
  pubkey_hex = hs.b2x pubkey_bytes;
  address = p2wpkh_address pubkey_bytes;
  channels = [];
  known_preimages = [];
  revocation_secrets = [];
}

-- The objects of a process: nodes, and the channels that have been created, which are those below
-- `next_channel`.
pub record World : Type 0 where
  pub node : ℕ → Node
  pub channel : ℕ → Channel
  pub next_channel : ℕ

-- A write to one object of a store.
abbrev pub update {ℓ} : {T : Type ℓ} → (ℕ → T) → ℕ → T → ℕ → T
update f at value k = if k == at then value else f k

unfoldable pub has_channel_with : Node → String → Bool
has_channel_with n peer_alias = contains peer_alias n.channels

-- `self.channels[peer_alias]`
abbrev pub subscript {ℓ} : {T : Type ℓ} → Dict String T → String → Result T
subscript d k = elim (lookup k d) [ none ↦ err key_error | some value ↦ ok value ]

unfoldable pub get_channel_with : Node → String → Result ℕ
unfolding has_channel_with
get_channel_with n peer_alias =
    if has_channel_with n peer_alias then subscript n.channels peer_alias else err channel_state

unfoldable pub set_channel : World → ℕ → String → ℕ → World
set_channel w self peer_alias reference = record w {
  node =
      update w.node self
        (record (w.node self) { channels = insert peer_alias reference (w.node self).channels });
}

unfoldable pub clear_secrets : World → ℕ → String → World
clear_secrets w self peer_alias = record w {
  node = update w.node self (record (w.node self) {
    revocation_secrets = insert peer_alias [] (w.node self).revocation_secrets;
  });
}

-- The channel that `open_channel` creates; `chan_id` is the f-string of the two aliases.
unfoldable pub opened_channel : (chan_id : String → String → String) → Node → Node → ℤ → Channel
opened_channel chan_id self peer capacity_sat = record {
  channel_id = chan_id self.alias peer.alias;
  sender_alias = self.alias;
  receiver_alias = peer.alias;
  sender_pubkey_hex = self.pubkey_hex;
  receiver_pubkey_hex = peer.pubkey_hex;
  capacity_sat = capacity_sat;
  balance_sender_sat = capacity_sat;
  balance_receiver_sat = pos 0;
  state = ChannelState.opened;
  funding_txid = none;
  funding_vout = none;
  active_htlcs = [];
  sequence_number = pos 0;
  revocation_store = empty_store;
}

-- The new object takes the next number of the store.
unfoldable pub open_channel : (chan_id : String → String → String) → World → ℕ → ℕ → ℤ → ℕ × World
unfolding set_channel clear_secrets opened_channel
open_channel chan_id w self peer capacity_sat =
    let reference = w.next_channel in
    let self_alias = (w.node self).alias in
    let peer_alias = (w.node peer).alias in
    let created = record w {
      channel =
          update w.channel reference
            (opened_channel chan_id (w.node self) (w.node peer) capacity_sat);
      next_channel = suc reference;
    } in
    let linked =
      set_channel (set_channel created self peer_alias reference) peer self_alias reference in
    (reference, clear_secrets (clear_secrets linked self peer_alias) peer self_alias)

-- `preimage` is the random secret.
unfoldable pub create_invoice : Hashes → World → ℕ → Bytes → (String × String) × World
create_invoice hs w self preimage =
    let preimage_hex = hs.b2x preimage in
    let hash_hex = hs.b2x (hs.sha256 preimage) in
    (
      (preimage_hex, hash_hex),
      record w {
        node = update w.node self (record (w.node self) {
          known_preimages = insert hash_hex preimage_hex (w.node self).known_preimages;
        });
      },
    )

-- `HTLCContract(...)` with its defaults.
abbrev pub new_htlc : String → String → ℤ → ℤ → Option String → HtlcContract
new_htlc htlc_id payment_hash amount_sat locktime offerer_alias = record {
  htlc_id = htlc_id;
  payment_hash = payment_hash;
  amount_sat = amount_sat;
  locktime = locktime;
  offerer_alias = offerer_alias;
  preimage = none;
  settled = false;
  refunded = false;
  state = HtlcState.offered;
}

unfoldable pub set_channel_object : World → ℕ → Channel → World
set_channel_object w reference c = record w { channel = update w.channel reference c }

-- `self.revocation_secrets[target_peer_alias][seq] = ...`
unfoldable pub keep_secret : World → ℕ → String → ℤ → String → Result Bool × World
keep_secret w self peer_alias seq secret_hex =
    elim (lookup peer_alias (w.node self).revocation_secrets) [
      | none ↦ (err key_error, w)
      | some secrets ↦ (
        ok true,
        record w {
          node = update w.node self (record (w.node self) {
            revocation_secrets =
                insert peer_alias (insert seq secret_hex secrets) (w.node self).revocation_secrets;
          });
        },
      )
    ]

-- What follows `channel.add_htlc`: a secret is kept where it returns true.
unfoldable pub after_offer : World → ℕ → String → String → Result Bool → ℤ → Result Bool × World
unfolding keep_secret
after_offer w self peer_alias secret_hex (err raised) seq = (err raised, w)
after_offer w self peer_alias secret_hex (ok false) seq = (ok false, w)
after_offer w self peer_alias secret_hex (ok true) seq =
    keep_secret w self peer_alias seq secret_hex

unfoldable pub route_htlc_payment :
    Hashes → World → ℕ → String → ℤ → String → ℤ → String → Bytes → Result Bool × World
unfolding get_channel_with set_channel_object after_offer
route_htlc_payment hs w self peer_alias amount_sat payment_hash locktime htlc_id secret_bytes =
    elim (get_channel_with (w.node self) peer_alias) [
      | err raised ↦ (err raised, w)
      | ok reference ↦
          let me = (w.node self).alias in
          let htlc = new_htlc htlc_id payment_hash amount_sat locktime (some me) in
          let (result, c, _) = add_htlc (w.channel reference) htlc (some me) in
          after_offer (set_channel_object w reference c) self peer_alias (hs.b2x secret_bytes)
            result c.sequence_number
    ]

unfoldable pub fulfill_htlc : Hashes → World → ℕ → String → String → String → Result Bool × World
unfolding get_channel_with set_channel_object
fulfill_htlc hs w self peer_alias htlc_id preimage_hex =
    elim (get_channel_with (w.node self) peer_alias) [
      | err raised ↦ (err raised, w)
      | ok reference ↦
          let (result, c, _) = redeem_htlc hs (w.channel reference) htlc_id preimage_hex in
          (result, set_channel_object w reference c)
    ]

unfoldable pub node_refund_htlc : World → ℕ → String → String → ℤ → Result Bool × World
unfolding get_channel_with set_channel_object
node_refund_htlc w self peer_alias htlc_id current_block_height =
    elim (get_channel_with (w.node self) peer_alias) [
      | err raised ↦ (err raised, w)
      | ok reference ↦
          let (result, c, _) = refund_htlc (w.channel reference) htlc_id current_block_height in
          (result, set_channel_object w reference c)
    ]
