-- ===== src/Domain/Predicates/Tests.antt =====
-- domain/core/predicates.py: the laws at concrete specifications.
use unito_blockchain_25_26_p.Base.{false, none}
use unito_blockchain_25_26_p.Base.Int.{pos}
use unito_blockchain_25_26_p.Domain.Records.{HtlcContract, HtlcState}

abbrev offered_htlc : HtlcContract
offered_htlc = record {
  htlc_id = "h";
  payment_hash = "h1";
  amount_sat = pos 40;
  locktime = pos 700;
  offerer_alias = none;
  preimage = none;
  settled = false;
  refunded = false;
  state = HtlcState.offered;
}
