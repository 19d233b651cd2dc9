-- ===== src/Jobs/Paging.antt =====
-- The loop of getModifiedClaims and getNewValidClaims of daemon/jobs/claimtriesync.go: a table is read
-- in pages, each of which holds rows with ids above the last one met. The query is an argument.
use chainquery.Prelude.{ℕ, zero, suc, Option, none, some, List, [], ◌∷◌, ◌++◌, ◌==◌, if◌then◌else◌}

-- One more than the last id of a page, or what it was before an empty one. The id -1, from which the
-- loop starts, is 0 here.
unfoldable pub last_after : List ℕ → ℕ → ℕ
last_after [] after = after
last_after (id ∷ ids) after = last_after ids (suc id)

-- The ids that are sent on; `none` is an error of the query, or fuel that does not suffice.
unfoldable pub send_pages : (query : ℕ → Option (List ℕ)) → (fuel after : ℕ) → Option (List ℕ)
send_pages query zero after = none
send_pages query (suc fuel) after = elim (query after) [
  | none ↦ none
  | some ids ↦
      if last_after ids after == after
      then some ids
      else elim (send_pages query fuel (last_after ids after)) [
        | none ↦ none
        | some rest ↦ some (ids ++ rest)
      ]
]
