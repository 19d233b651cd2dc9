-- ===== src/Jobs/TrieSync/Spent.antt =====
-- updateSpentClaims and getSpentClaimsToUpdate of daemon/jobs/claimtriesync.go: claims whose output was
-- spent since the last run are marked as spent. The locks of single claims are left out.
use chainquery.Jobs.TrieSync.Batches.{batch_size, batches_from}
use chainquery.Prelude.Go.{or_err, Go, ◌>>=◌, ok, err}
use chainquery.Prelude.{
  ℕ, zero, suc, ◌≡◌, refl, inl, inr, Bool, true, false, Option, none, some, List, [], ◌∷◌, map,
  ◌==◌, if◌then◌else◌, Option-cases, length,
}
use chainquery.Prelude.Text.{Text}

pub record SpentOutput : Type 0 where
  pub id : ℕ
  pub transaction_hash : Text

pub record SpentClaim : Type 0 where
  pub id : ℕ
  pub claim_id : Text
  pub transaction_hash_id : Option Text
  pub transaction_hash_update : Option Text

-- A page of the outputs that were spent since the last run, with ids above one; the claims whose
-- transaction, or whose last update, is one of some transactions; and the writes of the bid state.
pub record SpentStore : Type 1 where
  pub State : Type 0
  pub spent_outputs : State → (after : ℕ) → Option (List SpentOutput)
  pub claims_of : State → (has_update : Bool) → List Text → Option (List SpentClaim)
  pub mark_spent : State → ℕ → Option State
  pub mark_all_spent : State → List ℕ → Option State

pub data SpentError : Type 0 where
  query_failed out_of_fuel : SpentError

-- The query selects the id, the claim id and one column of a transaction's hash; the other one is null.
abbrev pub selected : Bool → SpentClaim → SpentClaim
selected true c = record c { transaction_hash_id = none }
selected false c = record c { transaction_hash_update = none }

abbrev pub last_id : ℕ → List SpentOutput → ℕ
last_id after [] = after
last_id after (o ∷ outputs) = last_id o.id outputs

module _ (db : SpentStore) where
  open db use {State, spent_outputs, claims_of, mark_spent, mark_all_spent}

  abbrev pub claims_of_page :
      Bool → ℕ → List SpentOutput → State → Go SpentError (List SpentClaim × ℕ)
  claims_of_page has_update after [] s = ok ([], after)
  claims_of_page has_update after (o ∷ outputs) s =
      or_err query_failed (claims_of s has_update (map (λ x. x.transaction_hash) (o ∷ outputs)))
      >>= λ claims. ok (map (selected has_update) claims, last_id after (o ∷ outputs))

  unfoldable pub get_spent_claims_to_update : Bool → ℕ → State → Go SpentError (List SpentClaim × ℕ)
  get_spent_claims_to_update has_update after s =
      or_err query_failed (spent_outputs s after) >>= λ outputs.
      claims_of_page has_update after outputs s

  -- A claim with an update is passed over.
  abbrev pub mark_unless_updated : SpentClaim → State → Go SpentError State
  mark_unless_updated c s = elim c.transaction_hash_update [
    | some t ↦ ok s
    | none ↦ or_err query_failed (mark_spent s c.id)
  ]

  unfoldable pub mark_without_update : List SpentClaim → State → Go SpentError State
  mark_without_update [] s = ok s
  mark_without_update (c ∷ claims) s = mark_unless_updated c s >>= mark_without_update claims

  unfoldable pub first_pass : (fuel after : ℕ) → State → Go SpentError State
  unfolding get_spent_claims_to_update mark_without_update
  first_pass zero after s = err out_of_fuel
  first_pass (suc fuel) after s = get_spent_claims_to_update false after s >>= λ page.
      mark_without_update page.0 s >>= λ s'.
      let rest = first_pass fuel page.1 s' in if after == page.1 then ok s' else rest

  abbrev pub mark_batches : List (List ℕ) → State → Go SpentError State
  mark_batches [] s = ok s
  mark_batches (b ∷ bs) s = or_err query_failed (mark_all_spent s b) >>= mark_batches bs

  unfoldable pub second_pass : (fuel after : ℕ) → State → Go SpentError State
  unfolding get_spent_claims_to_update
  second_pass zero after s = err out_of_fuel
  second_pass (suc fuel) after s = get_spent_claims_to_update true after s >>= λ page.
      let ids = map (λ c. c.id) page.0 in
      or_err out_of_fuel (batches_from (suc (length ids)) batch_size 0 ids) >>= λ bs.
      mark_batches bs s >>= λ s'.
      let rest = second_pass fuel page.1 s' in if after == page.1 then ok s' else rest

  unfoldable pub update_spent_claims : ℕ → State → Go SpentError State
  unfolding first_pass second_pass
  update_spent_claims fuel s = first_pass fuel 0 s >>= second_pass fuel 0

  -- Each of some claims is marked.
  abbrev pub mark_each : List ℕ → State → Go SpentError State
  mark_each [] s = ok s
  mark_each (id ∷ ids) s = or_err query_failed (mark_spent s id) >>= mark_each ids

  -- The pass over the claims without an update, on the claims of a page as the first query selects
  -- them, marks each of them as spent, in their order, also those that have an update.
  pub first_query_marks_updated :
      (claims : List SpentClaim) (s : State)
      → mark_without_update (map (selected false) claims) s ≡ mark_each (map (λ c. c.id) claims) s
  unfolding mark_without_update
  first_query_marks_updated [] s = refl
  first_query_marks_updated (c ∷ claims) s = elim (Option-cases (mark_spent s c.id)) [
    | inl n ↦ rw (n) refl
    | inr (s', h) ↦ rw (h) (first_query_marks_updated claims s')
  ]
