-- ===== src/Jobs/TrieSync/Run.antt =====
-- ClaimTrieSync of daemon/jobs/claimtriesync.go: one run of the job, with the row of its status. The
-- three queries for claims are given by the names that they send and whether they end with an error,
-- since they run beside the processing of the claims.
use chainquery.Jobs.Reprocess.{reprocess}
use chainquery.Prelude.Go.{Go, ok, panic}
use chainquery.Prelude.{ℕ, Bool, true, false, Option, none, some, List, [], ◌++◌, if◌then◌else◌}
use chainquery.Prelude.Text.{Text}

-- No time of the last sync is the zero time, which is that of the first run.
pub record JobStatus : Type 0 where
  pub last_sync : Option ℕ
  pub is_success : Bool
  pub error_message : Option Text
  pub previous_sync : Option ℕ
  pub last_height : ℕ

-- The names that a query sends to the channel, and whether it ends without an error.
pub record Sent : Type 0 where
  pub names : List Text
  pub complete : Bool

pub record Queries : Type 0 where
  pub modified : Sent
  pub supported : Sent
  pub new_valid : Sent

-- `load_status` makes the row where there is none. `update_status` is that at the end of a run, and
-- `upsert_status` the one after an error.
pub record TrieTables : Type 1 where
  pub State : Type 0
  pub load_status : State → Option JobStatus
  pub update_spent : State → Option State
  pub block_count : State → Option ℕ
  pub process_batch : ℕ → State → List Text → Option State
  pub update_status : State → JobStatus → Option State
  pub upsert_status : State → JobStatus → Option State

-- What is in the channel when it is closed, and whether all queries were complete. The later queries
-- are not made after an error, nor on the first run.
abbrev pub produced : Queries → (is_first : Bool) → List Text × Bool
produced q is_first =
    if q.modified.complete
    then (if is_first
        then (q.modified.names, true)
        else if q.supported.complete
        then (q.modified.names ++ (q.supported.names ++ q.new_valid.names), q.new_valid.complete)
        else (q.modified.names ++ q.supported.names, false))
    else (q.modified.names, false)

abbrev pub is_none : Option ℕ → Bool
is_none none = true
is_none (some t) = false

module _ (db : TrieTables) (message : Text) where
  open db use {
    State, load_status, update_spent, block_count, process_batch, update_status, upsert_status,
  }

  -- That the error cannot be saved is only logged.
  unfoldable pub save_job_error : JobStatus → State → State
  save_job_error st s =
      elim (upsert_status s (record st { error_message = some message; is_success = false })) [
        | none ↦ s
        | some s' ↦ s'
      ]

  abbrev pub finished : JobStatus → (started height : ℕ) → JobStatus
  finished st started height = record st {
    last_sync = some started;
    is_success = true;
    error_message = none;
    previous_sync = st.last_sync;
    last_height = height;
  }

  abbrev pub or_panic : Option State → Go (Unit {0}) State
  or_panic none = panic
  or_panic (some s) = ok s

  -- The channel is closed and the claims in it are processed also where a query has failed.
  abbrev pub after_processing :
      JobStatus
      → (started height : ℕ) → (complete : Bool) → State
      → Option (ℕ × State)
      → Go (Unit {0}) State
  after_processing st started height complete s none = ok (save_job_error st s)
  after_processing st started height complete s (some (n, s')) =
      if complete
      then or_panic (update_status s' (finished st started height))
      else ok (save_job_error st s')

  unfoldable pub claim_trie_sync : (started : ℕ) → Queries → State → Go (Unit {0}) State
  unfolding reprocess save_job_error
  claim_trie_sync started queries s = elim (load_status s) [
    | none ↦ ok s
    | some st ↦ elim (update_spent s) [
      | none ↦ ok (save_job_error st s)
      | some s1 ↦ elim (block_count s1) [
        | none ↦ ok s1
        | some height ↦
            let sent = produced queries (is_none st.last_sync) in
            after_processing st started height sent.1 s1
              (reprocess (process_batch height) [] [] 0 sent.0 s1)
      ]
    ]
  ]
