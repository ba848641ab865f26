-- ===== src/Protocols/Swaps/Sessions.antt =====
-- protocols/swap_server.py: what holds of a coordinator, whatever swaps it is asked for.
use unito_blockchain_25_26_p.Base.{
  ℕ, ◌≡◌, refl, true, some, Bytes, String, string_eq, arith, bytes_beq_iff, ◌==◌, Bool-cases, inl,
  inr, Option-cases, bytes_beq, ◌&&◌, ◌⊎◌, ap, sym, ◌∙◌,
}
use unito_blockchain_25_26_p.Base.Int.{ℤ}
use unito_blockchain_25_26_p.Base.Dict.{
  lookup, insert, lookup-insert, insert-insert, lookup-insert_self, Dict,
}
use unito_blockchain_25_26_p.Errors.{Result, ok}
use unito_blockchain_25_26_p.Bitcoin.Builder.{BitcoinLibrary, Transaction}
use unito_blockchain_25_26_p.Protocols.Swaps.{SwapType, loop_in, loop_out, SubmarineSwap, SwapState}
use unito_blockchain_25_26_p.Protocols.Swaps.Server.{
  SwapCoordinator, new_coordinator, initiate_loop_in, initiate_loop_out, register_funding_utxo,
  complete_loop_in_with_preimage, is_loop_in, new_swap, signed_claim,
}
use unito_blockchain_25_26_p.Bitcoin.Signatures.{Secret}
use unito_blockchain_25_26_p.Bitcoin.Script.{Script}
use unito_blockchain_25_26_p.Protocols.Swaps.Claims.{complete_lem}

-- A swap is fulfilled only as a Loop In whose preimage is known: it hashes to the payment hash.
abbrev pub IsProven : BitcoinLibrary → SubmarineSwap → Type 0
IsProven lib swap =
    swap.state ≡ SwapState.fulfilled
    → (swap.swap_type ≡ loop_in)
      × (p : Bytes) × (swap.preimage ≡ some p)
      × (lib.sha256 p ≡ swap.payment_hash)

abbrev pub AreProven : BitcoinLibrary → SwapCoordinator → Type 0
AreProven lib c =
    (k : String) (swap : SubmarineSwap) → lookup k c.swaps ≡ some swap → IsProven lib swap

pub data SwapStep (lib : BitcoinLibrary) (c : SwapCoordinator) : SwapCoordinator → Type 0 where
  initiates_in :
      (swap_id : String) (user payment_hash : Bytes) (amount : ℤ) (locktime : ℕ)
      → SwapStep lib c (initiate_loop_in c swap_id user payment_hash amount locktime).1
  initiates_out :
      (swap_id : String) (user payment_hash : Bytes) (amount : ℤ) (locktime : ℕ)
      → SwapStep lib c (initiate_loop_out c swap_id user payment_hash amount locktime).1
  registers :
      (swap_id txid : String) (vout : ℕ)
      → SwapStep lib c (register_funding_utxo c swap_id txid vout).1
  completes :
      (swap_id : String) (preimage : Bytes)
      → SwapStep lib c (complete_loop_in_with_preimage lib c swap_id preimage).1

pub data SwapReach (lib : BitcoinLibrary) (c : SwapCoordinator) : SwapCoordinator → Type 0 where
  here : SwapReach lib c c
  next : {d e : SwapCoordinator} → SwapReach lib c d → SwapStep lib d e → SwapReach lib c e

insert-AreProven :
    (lib : BitcoinLibrary) (c : SwapCoordinator) (k : String) (new : SubmarineSwap)
    → AreProven lib c
    → IsProven lib new
    → (j : String) (swap : SubmarineSwap) → lookup j (insert k new c.swaps) ≡ some swap
    → IsProven lib swap
insert-AreProven lib c k new v p j swap found = elim (Bool-cases (j == k)) [
  | inl same ↦ let e : new ≡ swap = ground (arith, lookup-insert k j new c.swaps) in rw (← e) p
  | inr other ↦ v j swap (ground (arith, lookup-insert k j new c.swaps))
]

is_loop_in_iff : (t : SwapType) → is_loop_in t ≡ true → t ≡ loop_in
is_loop_in_iff SwapType.loop_in h = refl
is_loop_in_iff SwapType.loop_out h = cc

-- What a completion writes: nothing, or one swap, of the right type and with its preimage.
complete_writes :
    (lib : BitcoinLibrary) (c : SwapCoordinator) (k : String) (preimage : Bytes)
    → ((complete_loop_in_with_preimage lib c k preimage).1 ≡ c)
      ⊎ ((swap : SubmarineSwap) × (swap.swap_type ≡ loop_in)
          × (lib.sha256 preimage ≡ swap.payment_hash)
          × ((complete_loop_in_with_preimage lib c k preimage).1.swaps
              ≡ insert k
                  (record swap { preimage = some preimage; state = SwapState.fulfilled })
                  c.swaps))
unfolding complete_loop_in_with_preimage
complete_writes lib c k preimage = elim (Option-cases (lookup k c.swaps)) [
  | inl missing ↦ inl (ground arith)
  | inr (swap, found) ↦
      elim (Bool-cases
        (is_loop_in swap.swap_type && bytes_beq (lib.sha256 preimage) swap.payment_hash)) [
          | inr refused ↦ inl (ground arith)
          | inl good ↦ elim (Option-cases (lookup k c.onchain_funding)) [
            | inl unfunded ↦ inl (ground arith)
            | inr (outpoint, funded) ↦ elim (Option-cases (lookup k c.swap_scripts)) [
              | inl lost ↦ inl (ground arith)
              | inr (script, kept) ↦ inr (
                swap,
                is_loop_in_iff swap.swap_type (ground arith),
                (bytes_beq_iff _ _).0 (ground arith),
                ground arith,
              )
            ]
          ]
        ]
]

module _ {lib : BitcoinLibrary} where
  SwapStep-AreProven :
      {c d : SwapCoordinator} → SwapStep lib c d → AreProven lib c → AreProven lib d
  unfolding initiate_loop_in initiate_loop_out register_funding_utxo
  SwapStep-AreProven {c} (initiates_in k user payment_hash amount n) v =
      insert-AreProven lib c k (new_swap k loop_in amount payment_hash n) v (λ e. cc)
  SwapStep-AreProven {c} (initiates_out k user payment_hash amount n) v =
      insert-AreProven lib c k (new_swap k loop_out amount payment_hash n) v (λ e. cc)
  SwapStep-AreProven {c} (registers k txid vout) v = λ j swap found. v j swap (ground arith)
  SwapStep-AreProven {c} (completes k preimage) v = elim (complete_writes lib c k preimage) [
    | inl unchanged ↦ rw unchanged v
    | inr (swap, loops, hashes, written) ↦ rw written (
        insert-AreProven lib c k
          (record swap { preimage = some preimage; state = SwapState.fulfilled }) v
          (λ e. (loops, preimage, refl, hashes)))
  ]

  -- However a new coordinator is used, a swap that it holds is fulfilled only where it is a Loop In and
  -- the coordinator holds a preimage that hashes to the payment hash of the swap.
  pub SwapReach-AreProven :
      (secret : Secret) {c : SwapCoordinator}
      → SwapReach lib (new_coordinator secret) c
      → AreProven lib c
  SwapReach-AreProven secret here = λ j swap found. cc
  SwapReach-AreProven secret (next r s) = SwapStep-AreProven s (SwapReach-AreProven secret r)

-- What a completion that succeeds has found.
record Completed (lib : BitcoinLibrary) (c : SwapCoordinator) (k : String) (preimage : Bytes)
    : Type 0 where
  swap : SubmarineSwap
  outpoint : String × ℕ
  script : Script
  found : lookup k c.swaps ≡ some swap
  loops : is_loop_in swap.swap_type ≡ true
  matches : bytes_beq (lib.sha256 preimage) swap.payment_hash ≡ true
  funded : lookup k c.onchain_funding ≡ some outpoint
  kept : lookup k c.swap_scripts ≡ some script

complete-Completed :
    (lib : BitcoinLibrary) (c : SwapCoordinator) (k : String) (preimage : Bytes) (tx : Transaction)
    → (complete_loop_in_with_preimage lib c k preimage).0 ≡ ok tx
    → Completed lib c k preimage
unfolding complete_loop_in_with_preimage
complete-Completed lib c k preimage tx done = elim (Option-cases (lookup k c.swaps)) [
  | inl missing ↦ absurd (ground arith)
  | inr (swap, found) ↦ elim (Option-cases (lookup k c.onchain_funding)) [
    | inl unfunded ↦ absurd (ground arith)
    | inr (outpoint, funded) ↦ elim (Option-cases (lookup k c.swap_scripts)) [
      | inl lost ↦ absurd (ground arith)
      | inr (script, kept) ↦ record {
        swap = swap;
        outpoint = outpoint;
        script = script;
        found = found;
        loops = ground arith;
        matches = ground arith;
        funded = funded;
        kept = kept;
      }
    ]
  ]
]

-- A completion that succeeds can be repeated: the same call returns the same transaction and leaves the
-- coordinator as it is.
pub complete_loop_in_again :
    (lib : BitcoinLibrary) (c d : SwapCoordinator) (swap_id : String) (preimage : Bytes)
    (tx : Transaction)
    → complete_loop_in_with_preimage lib c swap_id preimage ≡ (ok tx, d)
    → complete_loop_in_with_preimage lib d swap_id preimage ≡ (ok tx, d)
unfolding signed_claim
complete_loop_in_again lib c d k preimage tx done =
    let f =
      complete-Completed lib c k preimage tx
        (ap (λ (r : Result Transaction × SwapCoordinator). r.0) done) in
    let first =
      complete_lem lib c k preimage f.swap f.outpoint f.script f.found f.loops f.matches f.funded
        f.kept in
    let swap' = record f.swap { preimage = some preimage; state = SwapState.fulfilled } in
    let d' = record c { swaps = insert k swap' c.swaps } in
    let second =
      complete_lem lib d' k preimage swap' f.outpoint f.script (lookup-insert_self k swap' c.swaps)
        f.loops f.matches f.funded f.kept in
    let whole = sym first ∙ done in
    let same : d' ≡ d = ap (λ (r : Result Transaction × SwapCoordinator). r.1) whole in
    let claim = signed_claim lib c f.swap f.outpoint f.script preimage in
    ap (λ (x : SwapCoordinator). complete_loop_in_with_preimage lib x k preimage) (sym same)
    ∙ second
    ∙ ap
        (λ (swaps : Dict String SubmarineSwap).
          let r : Result Transaction × SwapCoordinator = (ok claim, record c { swaps = swaps }) in
          r)
        (insert-insert k swap' swap' c.swaps)
    ∙ whole
