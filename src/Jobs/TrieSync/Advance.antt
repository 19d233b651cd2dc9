-- ===== src/Jobs/TrieSync/Advance.antt =====
-- When ClaimTrieSync moves the time of the last sync, from which the next run asks for changes.
use chainquery.Jobs.TrieSync.Run.{JobStatus, Queries, TrieTables, produced, is_none}
use chainquery.Jobs.Reprocess.{reprocess}
use chainquery.Prelude.{ℕ, ◌≡◌, ◌⊎◌, true, some, List, []}
use chainquery.Prelude.Text.{Text}

-- The row of the status is what was stored last, and is not touched by the work on the claims.
pub record StatusLaws (db : TrieTables) : Type 0 where
  pub load_update :
      (s s' : db.State) (st : JobStatus)
      → db.update_status s st ≡ some s'
      → db.load_status s' ≡ some st
  pub load_upsert :
      (s s' : db.State) (st : JobStatus)
      → db.upsert_status s st ≡ some s'
      → db.load_status s' ≡ some st
  pub load_spent :
      (s s' : db.State) → db.update_spent s ≡ some s' → db.load_status s' ≡ db.load_status s
  pub load_batch :
      (height : ℕ) (s s' : db.State) (names : List Text)
      → db.process_batch height s names ≡ some s'
      → db.load_status s' ≡ db.load_status s

module _ (db : TrieTables) (laws : StatusLaws db) (message : Text) where
  open db use {
    State, load_status, update_spent, block_count, process_batch, update_status, upsert_status,
  }

  abbrev LoadGoal : ℕ → (known batch : List Text) → ℕ → List Text → (s : State) → ℕ × State → Type 0
  LoadGoal height known batch n names s r =
      reprocess (process_batch height) known batch n names s ≡ some r
      → load_status r.1 ≡ load_status s

  -- Nothing was left out: the claims marked as spent, all queries complete, all batches processed.
  abbrev pub Advanced : (started : ℕ) → Queries → JobStatus → State → JobStatus → Type 0
  Advanced started queries st s st' =
      (height : ℕ) × (n : ℕ) × (s1 : State) × (s2 : State) × (st'.last_sync ≡ some started)
      × (st'.is_success ≡ true)
      × ((produced queries (is_none st.last_sync)).1 ≡ true)
      × (update_spent s ≡ some s1)
      × (reprocess (process_batch height) [] [] 0 (produced queries (is_none st.last_sync)).0 s1
          ≡ some (n, s2))

  abbrev pub Outcome : (started : ℕ) → Queries → JobStatus → (s s' : State) → Type 0
  Outcome started queries st s s' =
      (st' : JobStatus) × (load_status s' ≡ some st')
      × ((st'.last_sync ≡ st.last_sync) ⊎ Advanced started queries st s st')
