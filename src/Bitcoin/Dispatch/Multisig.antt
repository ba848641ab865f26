-- ===== src/Bitcoin/Dispatch/Multisig.antt =====
-- bitcoin/interpreter.py: the matching loop of `OP_CHECKMULTISIG` against its specification.
use unito_blockchain_25_26_p.Base.{
  ℕ, ◌≡◌, ◌≢◌, ◌↔◌, ◌⊎◌, sym, ◌∙◌, refl, Bool, true, false, Option, none, some, List, [], ◌∷◌,
  arith, Bytes, inl, inr,
}
use unito_blockchain_25_26_p.Base.Lists.{All}
use unito_blockchain_25_26_p.Errors.{ok, err, index_error}
use unito_blockchain_25_26_p.Bitcoin.Script.{Script}
use unito_blockchain_25_26_p.Bitcoin.Machine.{SpendContext, split_signature}
use unito_blockchain_25_26_p.Bitcoin.Dispatch.{check_signature, match_signatures}

split_signature-some :
    (b : ℕ) (bs : Bytes)
    → (der : Bytes) × (hashtype : ℕ) × (split_signature (b ∷ bs) ≡ some (der, hashtype))
unfolding split_signature
split_signature-some b [] = ([], b, refl)
split_signature-some b (c ∷ bs) =
    let (der, hashtype, e) = split_signature-some c bs in (b ∷ der, hashtype, rw e)

-- No signature is empty, so each of them has a hash type.
abbrev pub AreNonempty : List Bytes → Type 0
AreNonempty = All (λ sig. (sig ≡ []) → ⊥)

module _ (ctx : SpendContext) (script : Script) where
  -- The signatures can be assigned to keys that they verify under, each to a key of its own and in
  -- the order of the keys.
  pub data IsSignedBy : List Bytes → List Bytes → Type 0 where
    done : {keys : List Bytes} → IsSignedBy [] keys
    use_key :
        {sigs keys : List Bytes} (sig pubkey : Bytes)
        → check_signature ctx script pubkey sig ≡ some true
        → IsSignedBy sigs keys
        → IsSignedBy (sig ∷ sigs) (pubkey ∷ keys)
    skip_key :
        {sigs keys : List Bytes} (pubkey : Bytes)
        → IsSignedBy sigs keys
        → IsSignedBy sigs (pubkey ∷ keys)

  -- Fewer signatures need no more keys.
  IsSignedBy-tail :
      {sigs keys : List Bytes} (sig : Bytes) → IsSignedBy (sig ∷ sigs) keys → IsSignedBy sigs keys
  IsSignedBy-tail sig (use_key _ pubkey v rest) = skip_key pubkey rest
  IsSignedBy-tail sig (skip_key pubkey rest) = skip_key pubkey (IsSignedBy-tail sig rest)

  -- One turn of the loop, by the outcome of the check.
  match_used :
      (sig pubkey : Bytes) (sigs keys : List Bytes)
      → check_signature ctx script pubkey sig ≡ some true
      → match_signatures ctx script (sig ∷ sigs) (pubkey ∷ keys)
        ≡ match_signatures ctx script sigs keys
  unfolding match_signatures
  match_used sig pubkey sigs keys e = rw (e, match_signatures)

  match_skipped :
      (sig pubkey : Bytes) (sigs keys : List Bytes)
      → check_signature ctx script pubkey sig ≡ some false
      → match_signatures ctx script (sig ∷ sigs) (pubkey ∷ keys)
        ≡ match_signatures ctx script (sig ∷ sigs) keys
  unfolding match_signatures
  match_skipped sig pubkey sigs keys e = rw (e, match_signatures)

  match_empty :
      (sig pubkey : Bytes) (sigs keys : List Bytes)
      → check_signature ctx script pubkey sig ≡ none
      → match_signatures ctx script (sig ∷ sigs) (pubkey ∷ keys) ≡ err index_error
  unfolding match_signatures
  match_empty sig pubkey sigs keys e = rw (e, match_signatures)

  check_cases : (r : Option Bool) → (r ≡ none) ⊎ (r ≡ some true) ⊎ (r ≡ some false)
  check_cases r = ground arith

  match_signatures_sound :
      (sigs keys : List Bytes)
      → match_signatures ctx script sigs keys ≡ ok true
      → IsSignedBy sigs keys
  unfolding match_signatures
  match_signatures_sound [] keys h = done
  match_signatures_sound (sig ∷ sigs) [] h = absurd (ground arith)
  match_signatures_sound (sig ∷ sigs) (pubkey ∷ keys) h =
      elim (check_cases (check_signature ctx script pubkey sig)) [
        | inl e ↦ absurd (ground (arith, match_empty sig pubkey sigs keys e))
        | inr (inl e) ↦
            use_key sig pubkey e
              (match_signatures_sound sigs keys (sym (match_used sig pubkey sigs keys e) ∙ h))
        | inr (inr e) ↦ skip_key pubkey (
            match_signatures_sound (sig ∷ sigs) keys
              (sym (match_skipped sig pubkey sigs keys e) ∙ h))
      ]

  pub check_nonempty :
      (sig pubkey : Bytes) → ((sig ≡ []) → ⊥) → check_signature ctx script pubkey sig ≢ none
  unfolding check_signature
  check_nonempty [] pubkey ne h = ne refl
  check_nonempty (b ∷ bs) pubkey ne h =
      let (der, hashtype, e) = split_signature-some b bs in ground (arith)

  match_signatures_complete :
      (sigs keys : List Bytes)
      → AreNonempty sigs
      → IsSignedBy sigs keys
      → match_signatures ctx script sigs keys ≡ ok true
  unfolding match_signatures
  match_signatures_complete [] keys ne s = refl
  match_signatures_complete (sig ∷ sigs) [] ne s = elim s [ ]
  match_signatures_complete (sig ∷ sigs) (pubkey ∷ keys) ne (use_key _ _ v rest) =
      match_used sig pubkey sigs keys v ∙ match_signatures_complete sigs keys ne.1 rest
  match_signatures_complete (sig ∷ sigs) (pubkey ∷ keys) ne (skip_key _ rest) =
      elim (check_cases (check_signature ctx script pubkey sig)) [
        | inl e ↦ absurd (check_nonempty sig pubkey ne.0 e)
        | inr (inl e) ↦
            match_used sig pubkey sigs keys e
            ∙ match_signatures_complete sigs keys ne.1 (IsSignedBy-tail sig rest)
        | inr (inr e) ↦
            match_skipped sig pubkey sigs keys e
            ∙ match_signatures_complete (sig ∷ sigs) keys ne rest
      ]

  match_signatures_total :
      (sigs keys : List Bytes)
      → AreNonempty sigs
      → (valid : Bool) × (match_signatures ctx script sigs keys ≡ ok valid)
  unfolding match_signatures
  match_signatures_total [] keys ne = (true, refl)
  match_signatures_total (sig ∷ sigs) [] ne = (false, refl)
  match_signatures_total (sig ∷ sigs) (pubkey ∷ keys) ne =
      elim (check_cases (check_signature ctx script pubkey sig)) [
        | inl e ↦ absurd (check_nonempty sig pubkey ne.0 e)
        | inr (inl e) ↦
            let (valid, r) = match_signatures_total sigs keys ne.1 in
            (valid, match_used sig pubkey sigs keys e ∙ r)
        | inr (inr e) ↦
            let (valid, r) = match_signatures_total (sig ∷ sigs) keys ne in
            (valid, match_skipped sig pubkey sigs keys e ∙ r)
      ]

  -- Where no signature is empty, the greedy loop ends with an answer, and it answers yes exactly when
  -- the signatures can be assigned to keys of their own in the keys' order: trying each key once, in
  -- turn, misses no valid assignment.
  pub match_signatures_iff :
      (sigs keys : List Bytes)
      → AreNonempty sigs
      → ((valid : Bool) × (match_signatures ctx script sigs keys ≡ ok valid))
        × ((match_signatures ctx script sigs keys ≡ ok true) ↔ IsSignedBy sigs keys)
  match_signatures_iff sigs keys ne = (
    match_signatures_total sigs keys ne,
    (match_signatures_sound sigs keys, match_signatures_complete sigs keys ne),
  )
