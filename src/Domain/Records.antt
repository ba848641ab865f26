-- ===== src/Domain/Records.antt =====
-- src/payment_communities/domain/channel.py: the data of channels and HTLCs.
use unito_blockchain_25_26_p.Base.{String, Bool, Option}
use unito_blockchain_25_26_p.Base.Int.{ℤ}
use unito_blockchain_25_26_p.Base.Dict.{Dict}
use unito_blockchain_25_26_p.Protocols.Revocation.Store.{RevocationStore}

pub data ChannelState : Type 0 where
  closed funding opened dispute settled : ChannelState

pub data HtlcState : Type 0 where
  offered accepted settled refunded expired : HtlcState

pub record HtlcContract : Type 0 where
  pub htlc_id : String
  pub payment_hash : String
  pub amount_sat : ℤ
  pub locktime : ℤ
  pub offerer_alias : Option String
  pub preimage : Option String
  pub settled : Bool
  pub refunded : Bool
  pub state : HtlcState

pub record Channel : Type 0 where
  pub channel_id : String
  pub sender_alias : String
  pub receiver_alias : String
  pub sender_pubkey_hex : String
  pub receiver_pubkey_hex : String
  pub capacity_sat : ℤ
  pub balance_sender_sat : ℤ
  pub balance_receiver_sat : ℤ
  pub state : ChannelState
  pub funding_txid : Option String
  pub funding_vout : Option ℤ
  pub active_htlcs : Dict String HtlcContract
  pub sequence_number : ℤ
  pub revocation_store : RevocationStore
