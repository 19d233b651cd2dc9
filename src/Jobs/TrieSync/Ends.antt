-- ===== src/Jobs/TrieSync/Ends.antt =====
-- The two passes of updateSpentClaims in daemon/jobs/claimtriesync.go end.
use chainquery.Jobs.TrieSync.Batches.{batches_from, batch_size, batches_cover}
use chainquery.Prelude.Go.{panic, ◌>>=◌, or_err-ok, bind-ok, ok-injective, err, ok, Go, or_err}
use chainquery.Jobs.TrieSync.Spent.{
  out_of_fuel, claims_of_page, last_id, mark_unless_updated, SpentClaim, SpentError, SpentOutput,
  first_pass, get_spent_claims_to_update, mark_batches, mark_without_update, query_failed,
  second_pass, update_spent_claims, SpentStore,
}
use chainquery.Prelude.{
  ℕ, zero, suc, ◌-◌, ◌≤◌, ◌<◌, ◌≡◌, refl, ap, subst, ◌≢◌, ◌⊎◌, inl, inr, Bool, true, false, Option,
  none, some, List, [], ◌∷◌, map, arith, ◌==◌, if◌then◌else◌, Bool-cases, Option-cases, length, All,
}

abbrev Ends : {A : Type 0} → Go SpentError A → Type 0
Ends r = r ≢ err out_of_fuel

-- A query, or a write, may fail but does not go on for ever.
or_err-Ends : {A : Type 0} (o : Option A) → Ends (or_err query_failed o)
or_err-Ends none e = cc
or_err-Ends (some a) e = cc

bind-Ends :
    {A : Type 0} {B : Type 0} (x : Go SpentError A) (next : A → Go SpentError B)
    → Ends x
    → ((a : A) → x ≡ ok a → Ends (next a))
    → Ends (x >>= next)
bind-Ends (ok a) next h k e = k a refl e
bind-Ends (err query_failed) next h k e = cc
bind-Ends (err out_of_fuel) next h k e = h refl
bind-Ends panic next h k e = cc

module _ (db : SpentStore) where
  open db use {State, spent_outputs, mark_all_spent}

  abbrev Within : (low bound : ℕ) → SpentOutput → Type 0
  Within low bound o = (low < o.id) × (o.id ≤ bound)

  -- The outputs of a page have ids above the one it starts after, and none above `bound`.
  abbrev pub PagesWithin : ℕ → Type 0
  PagesWithin bound =
      (s : State) (after : ℕ) (outputs : List SpentOutput)
      → spent_outputs s after ≡ some outputs
      → All (λ o. (after < o.id) × (o.id ≤ bound)) outputs

  last_id-Within :
      (low bound n : ℕ) (outputs : List SpentOutput)
      → low < n
      → n ≤ bound
      → All (Within low bound) outputs
      → (low < last_id n outputs) × (last_id n outputs ≤ bound)
  last_id-Within low bound n [] l u h = (l, u)
  last_id-Within low bound n (o ∷ outputs) l u ((l', u'), h) =
      last_id-Within low bound o.id outputs l' u' h

  -- A page starts the next one where it started itself, or further on.
  claims_of_page-after :
      (has_update : Bool) (after bound : ℕ) (outputs : List SpentOutput) (s : State)
      (page : List SpentClaim × ℕ)
      → All (Within after bound) outputs
      → claims_of_page db has_update after outputs s ≡ ok page
      → (after ≡ page.1) ⊎ ((after < page.1) × (page.1 ≤ bound))
  claims_of_page-after has_update after bound [] s page h e =
      inl (ap (λ p. p.1) (ok-injective ([], after) page e))
  claims_of_page-after has_update after bound (o ∷ outputs) s page ((l, u), h) e =
      let (claims, e1, e2) =
        bind-ok
          (or_err query_failed
            (db.claims_of s has_update (map (λ x. x.transaction_hash) (o ∷ outputs))))
          _ page e in
      let same = ap (λ p. p.1) (ok-injective _ page e2) in
      inr (
        subst (λ n. (after < n) × (n ≤ bound)) same (last_id-Within after bound o.id outputs l u h))

  claims_of_page-Ends :
      (has_update : Bool) (after : ℕ) (outputs : List SpentOutput) (s : State)
      → Ends (claims_of_page db has_update after outputs s)
  claims_of_page-Ends has_update after [] s = λ e. cc
  claims_of_page-Ends has_update after (o ∷ outputs) s =
      bind-Ends _ _
        (or_err-Ends (db.claims_of s has_update (map (λ x. x.transaction_hash) (o ∷ outputs))))
        (λ claims h e. cc)

  page-after :
      (has_update : Bool) (after bound : ℕ) (s : State) (page : List SpentClaim × ℕ)
      → PagesWithin bound
      → get_spent_claims_to_update db has_update after s ≡ ok page
      → (after ≡ page.1) ⊎ ((after < page.1) × (page.1 ≤ bound))
  unfolding get_spent_claims_to_update
  page-after has_update after bound s page within e =
      let (outputs, e1, e2) = bind-ok (or_err query_failed (spent_outputs s after)) _ page e in
      claims_of_page-after has_update after bound outputs s page
        (within s after outputs (or_err-ok query_failed (spent_outputs s after) outputs e1)) e2

  page-Ends :
      (has_update : Bool) (after : ℕ) (s : State)
      → Ends (get_spent_claims_to_update db has_update after s)
  unfolding get_spent_claims_to_update
  page-Ends has_update after s =
      bind-Ends (or_err query_failed (spent_outputs s after)) _
        (or_err-Ends (spent_outputs s after))
        (λ outputs h. claims_of_page-Ends has_update after outputs s)

  mark_unless_updated-Ends : (c : SpentClaim) (s : State) → Ends (mark_unless_updated db c s)
  mark_unless_updated-Ends c s = elim (Option-cases c.transaction_hash_update) [
    | inl n ↦ rw (n) (or_err-Ends (db.mark_spent s c.id))
    | inr (t, h) ↦ rw (h) (λ e. cc)
  ]

  mark_without_update-Ends :
      (claims : List SpentClaim) (s : State) → Ends (mark_without_update db claims s)
  unfolding mark_without_update
  mark_without_update-Ends [] s = λ e. cc
  mark_without_update-Ends (c ∷ claims) s =
      bind-Ends (mark_unless_updated db c s) (mark_without_update db claims)
        (mark_unless_updated-Ends c s) (λ s' h. mark_without_update-Ends claims s')

  mark_batches-Ends : (bs : List (List ℕ)) (s : State) → Ends (mark_batches db bs s)
  mark_batches-Ends [] s = λ e. cc
  mark_batches-Ends (b ∷ bs) s =
      bind-Ends (or_err query_failed (mark_all_spent s b)) (mark_batches db bs)
        (or_err-Ends (mark_all_spent s b)) (λ s' h. mark_batches-Ends bs s')

  -- The end of a turn: the pass goes on only behind a higher id.
  turn-Ends :
      (after next bound : ℕ) (s : State) (rest : Go SpentError State)
      → (after ≡ next) ⊎ ((after < next) × (next ≤ bound))
      → (after < next → next ≤ bound → Ends rest)
      → Ends (if after == next then ok s else rest)
  turn-Ends after next bound s rest h k = elim (Bool-cases (after == next)) [
    | inl t ↦ rw (t) (λ e. cc)
    | inr f ↦ elim h [ inl same ↦ absurd (ground (arith, same)) | inr (l, u) ↦ rw (f) (k l u) ]
  ]

  first_pass-Ends :
      (fuel after bound : ℕ) (s : State)
      → PagesWithin bound
      → after ≤ bound
      → bound - after < fuel
      → Ends (first_pass db fuel after s)
  unfolding first_pass
  first_pass-Ends zero after bound s within u h = absurd (omega arith)
  first_pass-Ends (suc fuel) after bound s within u h =
      bind-Ends (get_spent_claims_to_update db false after s) _ (page-Ends false after s) (λ page e.
        bind-Ends (mark_without_update db page.0 s) _ (mark_without_update-Ends page.0 s) (λ s' e'.
          turn-Ends after page.1 bound s' (first_pass db fuel page.1 s')
            (page-after false after bound s page within e)
            (λ l v. first_pass-Ends fuel page.1 bound s' within v (omega arith))))

  second_pass-Ends :
      (fuel after bound : ℕ) (s : State)
      → PagesWithin bound
      → after ≤ bound
      → bound - after < fuel
      → Ends (second_pass db fuel after s)
  unfolding second_pass
  second_pass-Ends zero after bound s within u h = absurd (omega arith)
  second_pass-Ends (suc fuel) after bound s within u h =
      bind-Ends (get_spent_claims_to_update db true after s) _ (page-Ends true after s) (λ page e.
        let ids = map (λ c. c.id) page.0 in
        let (bs, whole, covers) = batches_cover batch_size ids (omega arith) in
        bind-Ends (or_err out_of_fuel (batches_from (suc (length ids)) batch_size 0 ids)) _
          (rw (whole) (λ f. cc))
          (λ bs' e1. bind-Ends (mark_batches db bs' s) _ (mark_batches-Ends bs' s) (λ s' e2.
            turn-Ends after page.1 bound s' (second_pass db fuel page.1 s')
              (page-after true after bound s page within e)
              (λ l v. second_pass-Ends fuel page.1 bound s' within v (omega arith)))))

  -- Let the outputs of a page have ids above the one it starts after, and none above a bound,
  -- whatever was written. With fuel for one turn more than the bound, the two passes over the spent
  -- outputs do not run out of it.
  pub update_spent_claims_ends :
      (bound : ℕ) (s : State)
      → PagesWithin bound
      → update_spent_claims db (suc bound) s ≢ err out_of_fuel
  unfolding update_spent_claims
  update_spent_claims_ends bound s within =
      bind-Ends (first_pass db (suc bound) 0 s) (second_pass db (suc bound) 0)
        (first_pass-Ends (suc bound) 0 bound s within (omega arith) (omega arith))
        (λ s' e. second_pass-Ends (suc bound) 0 bound s' within (omega arith) (omega arith))
