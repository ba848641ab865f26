-- ===== src/Domain/Node/Tests.antt =====
-- domain/node.py: runs of the methods, and the theorems at concrete nodes.
use Prim.Native.String.{String}
use mathlib.Core.Logic.{◌≢◌}
use unito_blockchain_25_26_p.Base.{
  ◌<◌, bytes_eq, nat_eq, Option, [], ap, arith, if◌then◌else◌, none, refl, some, string_eq, suc,
  true, zero, ℕ, ◌==◌, ◌∷◌, ◌≡◌,
}
use unito_blockchain_25_26_p.Base.Dict.{insert, lookup}
use unito_blockchain_25_26_p.Base.Int.{int_eq, pos, ◌+ℤ◌}
use unito_blockchain_25_26_p.Domain.Channel.{add_htlc, resolve_offerer}
use unito_blockchain_25_26_p.Domain.Node.Reach.{here, next, opens, fulfils}
use unito_blockchain_25_26_p.Domain.Channel.Settlement.{Paid}
use unito_blockchain_25_26_p.Domain.Node.{
  World, create_invoice, fulfill_htlc, get_channel_with, new_htlc, new_node, open_channel,
  opened_channel, route_htlc_payment,
}
use unito_blockchain_25_26_p.Domain.Node.Payment.{pay}
use unito_blockchain_25_26_p.Domain.Node.Reach.{channels_are_shared}
use unito_blockchain_25_26_p.Domain.Predicates.{Hashes}
use unito_blockchain_25_26_p.Errors.{ok}
use unito_blockchain_25_26_p.Domain.Channel.Invariant.{IsFunded}
use unito_blockchain_25_26_p.Domain.Node.Offers.{fulfilled}

abbrev toy_hashes : Hashes
toy_hashes = record {
  sha256 = λ bytes. 1 ∷ bytes;
  x = λ text. if text == "p" then some (7 ∷ []) else none;
  b2x = λ bytes. if bytes == 7 ∷ [] then "p" else if bytes == 1 ∷ 7 ∷ [] then "h" else "s";
}

abbrev chan_id : String → String → String
chan_id a b = "chan"

-- The nodes "", "x", "xx" and so on.
abbrev name : ℕ → String
name zero = ""
name (suc n) = String.◌∷◌ "x" (name n)

name_injective : (i j : ℕ) → name i ≡ name j → i ≡ j
name_injective zero zero e = refl
name_injective zero (suc j) e = cc
name_injective (suc i) zero e = cc
name_injective (suc i) (suc j) e = ap suc (name_injective i j (cc))

abbrev fresh_world : World
fresh_world = record {
  node = λ i. new_node toy_hashes (λ key. "tb1") (name i) (i ∷ []);
  channel = λ r.
      opened_channel chan_id (new_node toy_hashes (λ key. "tb1") "x" [])
        (new_node toy_hashes (λ key. "tb1") "x" []) (pos 0);
  next_channel = 0;
}

abbrev opened_world : World
opened_world = (open_channel chan_id fresh_world 1 2 (pos 100)).1

channels_are_shared_example :
    let u = (fulfill_htlc toy_hashes opened_world 2 "x" "h1" "p").1 in
    ((i j : ℕ)
      → lookup (u.node j).alias (u.node i).channels ≡ lookup (u.node i).alias (u.node j).channels)
    × ((i r : ℕ) (k : String) → lookup k (u.node i).channels ≡ some r → r < u.next_channel)
    × ((r : ℕ) → r < u.next_channel → IsFunded (u.channel r))
unfolding new_node
channels_are_shared_example =
    channels_are_shared {chan_id = chan_id} {hs = toy_hashes} {w = fresh_world} name_injective
      (λ i. refl) refl
      (next (next here (opens 1 2 (pos 100) (omega arith))) (fulfils 2 "x" "h1" "p"))

abbrev payer : Option String
payer = some (opened_world.node 1).alias

pay_example :
    let ((preimage_hex, payment_hash), v1) = create_invoice toy_hashes opened_world 2 (7 ∷ []) in
    let htlc = new_htlc "h1" payment_hash (pos 40) (pos 700) payer in
    let (offered, v2) =
      route_htlc_payment toy_hashes v1 1
        (opened_world.node 2).alias
        (pos 40)
        payment_hash
        (pos 700)
        "h1"
        (9 ∷ []) in
    let (fulfilled, v3) =
      fulfill_htlc toy_hashes v2 2 (opened_world.node 1).alias "h1" preimage_hex in
    (offered ≡ ok true)
    × (fulfilled ≡ ok true)
    × Paid
        (opened_world.channel 0)
        (resolve_offerer (opened_world.channel 0) htlc payer)
        (pos 40)
        (v3.channel 0)
    × ((v3.channel 0).active_htlcs ≡ (opened_world.channel 0).active_htlcs)
    × ((other : ℕ) → other ≢ 0 → v3.channel other ≡ opened_world.channel other)
    × (lookup (opened_world.node 2).alias (v3.node 1).revocation_secrets
        ≡ some (
            insert
              ((opened_world.channel 0).sequence_number +ℤ pos 1)
              (toy_hashes.b2x (9 ∷ []))
              []))
unfolding open_channel new_node get_channel_with add_htlc create_invoice
pay_example =
    pay toy_hashes opened_world 1 2 0 (pos 40) (pos 700) (7 ∷ []) (9 ∷ []) "h1" [] refl refl refl
      refl refl refl
