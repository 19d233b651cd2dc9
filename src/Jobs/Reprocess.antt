-- ===== src/Jobs/Reprocess.antt =====
-- reprocessUpdatedClaims and the paging queries of daemon/jobs/claimtriesync.go: the claims that come
-- through the channel are processed in batches, one claim for each name.
use chainquery.Processing.Graph.Counts.{occ}
use chainquery.Prelude.{
  ℕ, ◌+◌, ◌≤◌, min, ◌≡◌, refl, ap, ◌∙◌, ◌≢◌, inl, inr, ite, Bool, true, false, Option, none, some,
  List, [], ◌∷◌, ◌++◌, append-nil, append_assoc, arith, ltb, if◌then◌else◌, Bool-cases,
  Option-cases, length, length-append, All,
}
use chainquery.Prelude.Text.{Text, text_discrete}

abbrev pub reprocess_batch_size : ℕ
reprocess_batch_size = 5000

-- `reprocessedNamesMap[c.Name]`
unfoldable pub is_known : Text → List Text → Bool
is_known name [] = false
is_known name (x ∷ xs) = ite (text_discrete x name) true (is_known name xs)

module _ {S : Type 0} (process_batch : S → List Text → Option S) where
  -- The loop on the names of the claims in the channel, with the names that were met, the batch and
  -- the number of processed claims. The last batch is processed when the channel is closed.
  unfoldable pub reprocess : (known batch : List Text) → ℕ → List Text → S → Option (ℕ × S)
  reprocess known batch processed [] s = elim (process_batch s batch) [
    | none ↦ none
    | some s' ↦ some (processed + length batch, s')
  ]
  reprocess known batch processed (name ∷ names) s =
      let batch' = if is_known name known then batch else batch ++ name ∷ [] in
      let known' = if is_known name known then known else name ∷ known in
      if ltb reprocess_batch_size (length batch')
      then elim (process_batch s batch') [
        | none ↦ none
        | some s' ↦ reprocess known' [] (processed + length batch') names s'
      ]
      else reprocess known' batch' processed names s

  -- The batches one after the other.
  unfoldable pub process_all : List (List Text) → S → Option S
  process_all [] s = some s
  process_all (b ∷ bs) s = elim (process_batch s b) [ none ↦ none | some s' ↦ process_all bs s' ]

-- The names that are not known, each once, where it is met first.
unfoldable new_names : (known : List Text) → List Text → List Text
new_names known [] = []
new_names known (name ∷ names) =
    if is_known name known then new_names known names else name ∷ new_names (name ∷ known) names

abbrev pub concat : List (List Text) → List Text
concat [] = []
concat (b ∷ bs) = b ++ concat bs

module _ {S : Type 0} (process_batch : S → List Text → Option S) where
  -- What the loop amounts to from any point.
  abbrev Batched : (known batch : List Text) → ℕ → List Text → (s s' : S) → ℕ → Type 0
  Batched known batch processed names s s' n =
      (batches : List (List Text)) × (concat batches ≡ batch ++ new_names known names)
      × All (λ b. length b ≤ reprocess_batch_size + 1) batches
      × (process_all process_batch batches s ≡ some s')
      × (n ≡ processed + length (concat batches))

  reprocess-Batched :
      (known batch : List Text) (processed : ℕ) (names : List Text) (s s' : S) (n : ℕ)
      → length batch ≤ reprocess_batch_size
      → reprocess process_batch known batch processed names s ≡ some (n, s')
      → Batched known batch processed names s s' n
  unfolding reprocess process_all new_names
  reprocess-Batched known batch processed [] s s' n l e =
      elim (Option-cases (process_batch s batch)) [
        | inl f ↦ absurd (ground arith)
        | inr (t, f) ↦ (
          batch ∷ [],
          refl,
          (omega arith, tt),
          ground arith,
          rw (append-nil batch) (ground arith),
        )
      ]
  reprocess-Batched known batch processed (name ∷ names) s s' n l e =
      elim (Bool-cases (is_known name known)) [
        | inl k ↦
            rw (k, new_names)
              (reprocess-Batched known batch processed names s s' n l (ground arith))
        | inr k ↦
            let batch' = batch ++ name ∷ [] in
            let size = length-append batch (name ∷ []) in
            rw (k, new_names)
              (elim (Bool-cases (ltb reprocess_batch_size (length batch'))) [
                | inr small ↦
                    let (bs, c, a, p, q) =
                      reprocess-Batched (name ∷ known) batch' processed names s s' n (ground arith)
                        (rw (k, small, reprocess) at e) in
                    (
                      bs,
                      c ∙ append_assoc batch (name ∷ []) (new_names (name ∷ known) names),
                      a,
                      p,
                      q,
                    )
                | inl full ↦ elim (Option-cases (process_batch s batch')) [
                  | inl f ↦ absurd (ground arith)
                  | inr (t, f) ↦
                      let (bs, c, a, p, q) =
                        reprocess-Batched (name ∷ known) [] (processed + length batch') names t s' n
                          (omega arith) (rw k at (rw (k, full, f, reprocess) at e)) in
                      let sum = length-append batch' (concat bs) in
                      (
                        batch' ∷ bs,
                        ap (◌++◌ batch') c
                            ∙ append_assoc batch (name ∷ []) (new_names (name ∷ known) names),
                        (omega arith, a),
                        rw (f, process_all) p,
                        omega arith,
                      )
                ]
              ])
      ]

occ-new_names :
    (c : Text) (known names : List Text)
    → occ c (new_names known names) ≡ (if is_known c known then 0 else min 1 (occ c names))
unfolding new_names is_known
occ-new_names c known [] = ground arith
occ-new_names c known (name ∷ names) =
    let rest = occ-new_names c known names in
    let rest' = occ-new_names c (name ∷ known) names in ground arith

module _ {S : Type 0} (process_batch : S → List Text → Option S) where
  reprocess_returns :
      (known batch : List Text) (processed : ℕ) (names : List Text) (s : S)
      → ((t : S) (b : List Text) → process_batch t b ≢ none)
      → reprocess process_batch known batch processed names s ≢ none
  unfolding reprocess
  reprocess_returns known batch processed [] s total e = let p = total s batch in ground arith
  reprocess_returns known batch processed (name ∷ names) s total e =
      let batch' = if is_known name known then batch else batch ++ name ∷ [] in
      let known' = if is_known name known then known else name ∷ known in
      elim (Bool-cases (ltb reprocess_batch_size (length batch'))) [
        | inr small ↦
            reprocess_returns known' batch' processed names s total (rw (small, reprocess) at e)
        | inl full ↦ elim (Option-cases (process_batch s batch')) [
          | inl f ↦ total s batch' f
          | inr (t, f) ↦
              reprocess_returns known' [] (processed + length batch') names t total
                (rw (full, f, reprocess) at e)
        ]
      ]

  -- Where the processing of a batch does not fail, reprocessing the claims of a channel ends, and
  -- amounts to processing batches one after the other, of at most 5001 names each; a name that was
  -- met stands in one batch, once, and no other name does; and the number reported is that of the
  -- names in the batches.
  pub reprocess_in_batches :
      (names : List Text) (s : S)
      → ((t : S) (b : List Text) → process_batch t b ≢ none)
      → (s' : S) × (n : ℕ) × (batches : List (List Text)) × (reprocess process_batch [] [] 0 names s
          ≡ some (n, s'))
        × (process_all process_batch batches s ≡ some s')
        × (n ≡ length (concat batches))
        × All (λ b. length b ≤ reprocess_batch_size + 1) batches
        × ((c : Text) → occ c (concat batches) ≡ min 1 (occ c names))
  unfolding is_known
  reprocess_in_batches names s total =
      elim (Option-cases (reprocess process_batch [] [] 0 names s)) [
        | inl e ↦ absurd (reprocess_returns [] [] 0 names s total e)
        | inr ((n, s'), e) ↦
            let (bs, c, a, p, q) =
              reprocess-Batched process_batch [] [] 0 names s s' n (omega arith) e in
            (s', n, bs, e, p, omega arith, a, λ d. rw c (occ-new_names d [] names))
      ]
