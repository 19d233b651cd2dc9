-- ===== src/Processing/Scheduler.antt =====
-- The scheduler of daemon/processing/block_scheduler.go: one round of the loop of
-- runBlockTxScheduler is a function of what its channels deliver, so a run is a list of rounds.
pub mod Invariant
pub mod Release
pub mod Runs
pub mod Delivered
pub mod Stalled
pub mod Safety
pub mod Refinement
pub mod Order
pub mod Failure
use chainquery.Processing.Graph.{is_empty, update, Graph, release_children}
use chainquery.Prelude.{
  ℕ, zero, suc, ◌+◌, ◌-◌, Bool, true, false, ◌&&◌, Option, none, some, List, [], ◌∷◌, ◌++◌, ltb,
  ◌==◌, if◌then◌else◌, length, get_elem?,
}
use chainquery.Prelude.Text.{Text}
use chainquery.Util.Bytes.{go_min}
use chainquery.Processing.Errors.{
  TxError, missing_source_output_from_error, is_retryable_scheduled_tx_error,
}

-- txToProcess; a job is known by the id of its transaction.
pub record TxToProcess : Type 0 where
  pub tx_id : Text
  pub block_time : ℕ
  pub block_height : ℕ
  pub failcount : ℕ

-- txProcessResult
pub record TxProcessResult : Type 0 where
  pub tx_id : Text
  pub block_time : ℕ
  pub block_height : ℕ
  pub error : Option TxError
  pub failcount : ℕ

pub data ScheduleError : Type 0 where
  manual_shut_down : ScheduleError
  graph_stalled : (completed total : ℕ) → ScheduleError
  scheduler_invariant :
      (prevout_tx_id : Text) (prevout_n : ℕ) (tx_id : Text) (height : ℕ) → ScheduleError
  tx_failed : TxError → ScheduleError
  too_many_failures : Text → TxError → ScheduleError

-- The local variables of the loop, the jobs that the workers hold and the ids that wait out their
-- backoff.
pub record Loop : Type 0 where
  pub graph : Graph
  pub in_flight : List TxToProcess
  pub retries : List Text
  pub active : ℕ
  pub completed : ℕ
  pub pending_retries : ℕ
  pub terminal : Option ScheduleError

-- At each job the stopper may be seen before it is taken from the ready ids, or while it is sent.
pub data Offer : Type 0 where
  sent stopped_before stopped_sending : Offer

pub data Event : Type 0 where
  finished : (i : ℕ) (error : Option TxError) (stop_seen : Bool) → Event
  retry_ready : (i : ℕ) → Event
  stopped : Event

pub record Round : Type 0 where
  pub offers : List Offer
  pub event : Event

pub data Next : Type 0 where
  again left : Loop → Next
  -- The event cannot happen in this state, or the loop has ended before.
  impossible : Next

module _ {ℓ} {A : Type ℓ} where
  unfoldable pub remove_at : ℕ → List A → List A
  remove_at i [] = []
  remove_at zero (x ∷ xs) = xs
  remove_at (suc i) (x ∷ xs) = x ∷ remove_at i xs

module _ (block_time block_height : ℕ) where
  abbrev job_of : Graph → Text → TxToProcess
  job_of g tx_id = record {
    tx_id = tx_id;
    block_time = block_time;
    block_height = block_height;
    failcount = g.attempts tx_id;
  }

  abbrev taken : Loop → List Text → Loop
  taken s rest = record s { graph = record (s.graph) { ready = rest } }

  abbrev dispatched : Loop → Text → List Text → Loop
  dispatched s tx_id rest = record s {
    graph = record (s.graph) { ready = rest };
    in_flight = s.in_flight ++ job_of s.graph tx_id ∷ [];
    active = suc s.active;
  }

  abbrev shut_down : Loop → Loop
  shut_down s = record s { terminal = some manual_shut_down }

  -- dispatchReadyTransactions; the recursion is on the capacity that is left. Offers that are not
  -- given are taken.
  unfoldable pub dispatch : ℕ → List Offer → List Text → Loop → Loop
  dispatch zero offers ready s = s
  dispatch (suc capacity) offers [] s = s
  dispatch (suc capacity) [] (id ∷ rest) s = dispatch capacity [] rest (dispatched s id rest)
  dispatch (suc capacity) (sent ∷ offers) (id ∷ rest) s =
      dispatch capacity offers rest (dispatched s id rest)
  dispatch (suc capacity) (stopped_before ∷ offers) (id ∷ rest) s = shut_down s
  dispatch (suc capacity) (stopped_sending ∷ offers) (id ∷ rest) s = shut_down (taken s rest)

-- One job of a worker: `process_tx` is the processing of the transaction.
unfoldable pub run_scheduled_tx : (TxToProcess → Option TxError) → TxToProcess → TxProcessResult
run_scheduled_tx process_tx job = record {
  tx_id = job.tx_id;
  block_time = job.block_time;
  block_height = job.block_height;
  error = process_tx job;
  failcount = job.failcount + 1;
}

abbrev has_tx : Graph → Text → Bool
has_tx g id = elim (g.tx_by_id id) [ none ↦ false | some _ ↦ true ]

abbrev after_error : Loop → Text → Graph × Option ScheduleError → Loop
after_error s id (g, none) = record s {
  graph = g;
  retries = s.retries ++ id ∷ [];
  pending_retries = suc s.pending_retries;
}
after_error s id (g, some e) = record s { graph = g; terminal = some e }

abbrev after_success : Loop → Text → Loop
after_success s id = record s {
  completed = suc s.completed;
  graph = release_children (record (s.graph) { completed = update s.graph.completed id true }) id;
}

abbrev off_flight : Loop → ℕ → Loop
off_flight s i = record s { in_flight = remove_at i s.in_flight; active = s.active - 1 }

-- With a terminal error the loop takes results until no job is active.
unfoldable pub drain : Loop → Event → Next
drain s (finished i error stop_seen) = elim (get_elem? s.in_flight i) [
  | none ↦ impossible
  | some job ↦ again (off_flight s i)
]
drain s _ = impossible

abbrev is_idle : Loop → Bool
is_idle s = s.active == 0 && is_empty s.graph.ready && s.pending_retries == 0

abbrev stall : Loop → Loop
stall s = record s { terminal = some (graph_stalled s.completed (length s.graph.order)) }

-- Ready transactions are sent to the free workers, unless there is a terminal error.
unfoldable pub fill : (workers block_time block_height : ℕ) → Loop → List Offer → Loop
fill workers block_time block_height s offers = elim s.terminal [
  | some e ↦ s
  | none ↦ dispatch block_time block_height (workers - s.active) offers s.graph.ready s
]

module _ (max_failures : ℕ) where
  -- `none` starts a retry.
  unfoldable pub scheduled_tx_verdict : Graph → TxProcessResult → TxError → Option ScheduleError
  scheduled_tx_verdict g result e = elim (missing_source_output_from_error e) [
    | some missing ↦ some (
        if has_tx g missing.prevout_tx_id
        then scheduler_invariant missing.prevout_tx_id missing.prevout_n result.tx_id
            result.block_height
        else tx_failed e)
    | none ↦
        if is_retryable_scheduled_tx_error e
        then (if ltb max_failures result.failcount
            then some (too_many_failures result.tx_id e)
            else none)
        else some (tx_failed e)
  ]

  -- handleScheduledTxError: the attempts are recorded on every branch.
  unfoldable pub handle_scheduled_tx_error :
      Graph → TxProcessResult → TxError → Graph × Option ScheduleError
  unfolding scheduled_tx_verdict
  handle_scheduled_tx_error g result e = (
    record g { attempts = update g.attempts result.tx_id result.failcount },
    scheduled_tx_verdict g result e,
  )

  -- What the loop does with a result of a job that it has taken off the active ones.
  unfoldable pub receive : Loop → TxProcessResult → Bool → Loop
  receive s result true = record s { terminal = some manual_shut_down }
  receive s result false = elim result.error [
    | none ↦ after_success s result.tx_id
    | some e ↦ after_error s result.tx_id (handle_scheduled_tx_error s.graph result e)
  ]

  -- The `select` of a round.
  unfoldable pub select : Loop → Event → Next
  select s (finished i error stop_seen) = elim (get_elem? s.in_flight i) [
    | none ↦ impossible
    | some job ↦ again (receive (off_flight s i) (run_scheduled_tx (λ _. error) job) stop_seen)
  ]
  select s (retry_ready i) = elim (get_elem? s.retries i) [
    | none ↦ impossible
    | some id ↦ again (record s {
      retries = remove_at i s.retries;
      pending_retries = s.pending_retries - 1;
      graph = record (s.graph) { ready = s.graph.ready ++ id ∷ [] };
    })
  ]
  select s stopped = again (record s { terminal = some manual_shut_down })

  -- The round from the point where the ready transactions have been sent.
  unfoldable pub after_dispatch : Loop → Event → Next
  after_dispatch s event = elim s.terminal [
    | some e ↦ if s.active == 0 then left s else drain s event
    | none ↦ if is_idle s then left (stall s) else select s event
  ]

  module _ (workers block_time block_height : ℕ) where
    unfoldable pub round : Loop → Round → Next
    round s r =
        if ltb s.completed (length s.graph.order)
        then after_dispatch (fill workers block_time block_height s r.offers) r.event
        else left s

    unfoldable pub run : Loop → List Round → Next
    run s [] = again s
    run s (r ∷ rs) = elim (round s r) [
      | again s' ↦ run s' rs
      | left s' ↦ left s'
      | impossible ↦ impossible
    ]

unfoldable pub start : Graph → Loop
start g = record {
  graph = g;
  in_flight = [];
  retries = [];
  active = 0;
  completed = 0;
  pending_retries = 0;
  terminal = none;
}

-- The number of workers; `limit` is MaxParallelTxProcessing.
unfoldable worker_count : ℕ → Graph → ℕ
worker_count limit g = let count = go_min (length g.order) limit in if ltb count 1 then 1 else count

-- What runBlockTxScheduler returns once the loop is left: `cleanup` resets the spent outputs of
-- the aborted block, and its error takes the place of the terminal one.
pub data Finished : Type 0 where
  success : Finished
  failure : ScheduleError → Finished
  cleanup_failure : ScheduleError → TxError → Finished

unfoldable pub finish : (List Text → Option TxError) → Loop → Finished
finish cleanup s = elim s.terminal [
  | none ↦ success
  | some e ↦ elim (cleanup s.graph.order) [ none ↦ failure e | some e' ↦ cleanup_failure e e' ]
]
