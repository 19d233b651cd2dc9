-- ===== src/Processing/Scheduler/Failure.antt =====
-- What the scheduler makes of a failed transaction, and how it ends after a terminal error.
use chainquery.Processing.Scheduler.Invariant.{length-remove_at}
use chainquery.Processing.Scheduler.{
  again, off_flight, left, ScheduleError, Loop, remove_at, drain, after_dispatch, fill, round,
  handle_scheduled_tx_error, run, stopped, TxProcessResult, Round, scheduled_tx_verdict, finished,
}
use chainquery.Processing.Graph.Counts.{same}
use chainquery.Prelude.Text.{Text}
use chainquery.Prelude.{
  ℕ, zero, suc, ◌-◌, ◌≤◌, ◌<◌, ◌≡◌, refl, subst, ◌∙◌, ◌↔◌, ◌⊎◌, inl, inr, Bool, Option, none, some,
  List, [], ◌∷◌, arith, if◌then◌else◌, Option-cases, length, get_elem?,
}
use chainquery.Processing.Errors.{
  TxError, missing_source_output_from_error, is_retryable_storage_error,
  is_retryable_scheduled_tx_error,
}
use chainquery.Processing.Graph.{Graph}

-- A failed transaction is tried again exactly when its error has no missing output, is a lock wait
-- timeout or a deadlock, and its failures do not exceed the limit.
retried_iff :
    (max_failures : ℕ) (g : Graph) (r : TxProcessResult) (e : TxError)
    → (scheduled_tx_verdict max_failures g r e ≡ none) ↔ (
        (e.missing ≡ none)
        × ((e.mysql_number ≡ some 1205) ⊎ (e.mysql_number ≡ some 1213))
        × (r.failcount ≤ max_failures))
unfolding scheduled_tx_verdict missing_source_output_from_error is_retryable_scheduled_tx_error
    is_retryable_storage_error
retried_iff max_failures g r e = elim (Option-cases e.missing) [
  | inr (m, p) ↦ (λ h. absurd (ground arith), λ h. absurd (ground arith))
  | inl p ↦ elim (Option-cases e.mysql_number) [
    | inl q ↦ (λ h. absurd (ground arith), λ h. absurd (ground arith))
    | inr (n, q) ↦ (λ h. (p, ground arith, ground arith), λ h. ground arith)
  ]
]

-- Handling an error records the number of failures of the transaction, and of no other; ready ids,
-- counters and completed ids stay as they are.
handle_records_attempt :
    (max_failures : ℕ) (g : Graph) (r : TxProcessResult) (e : TxError) (c : Text)
    → let g' = (handle_scheduled_tx_error max_failures g r e).0 in
      (g'.attempts c ≡ (if same r.tx_id c then r.failcount else g.attempts c))
      × (g'.ready ≡ g.ready)
      × (g'.unresolved c ≡ g.unresolved c)
      × (g'.completed c ≡ g.completed c)
unfolding handle_scheduled_tx_error
handle_records_attempt max_failures g r e c = (ground arith, refl, refl, refl)

-- What a worker sends: the position of its job among those in flight, the error, and whether the
-- stopper is seen closed.
abbrev pub Outcome : Type 0
Outcome = ℕ × Option TxError × Bool

-- The rounds that take some results; the last round is the one that leaves the loop.
abbrev pub results_of : List Outcome → List Round
results_of [] = record { offers = []; event = stopped } ∷ []
results_of ((i, x, seen) ∷ xs) = record { offers = []; event = finished i x seen } ∷ results_of xs

-- As many results as there are jobs in flight, each of some job that is still in flight then.
abbrev pub AreOf : ℕ → List Outcome → Type 0
AreOf jobs [] = jobs ≡ 0
AreOf jobs ((i, _, _) ∷ xs) = (i < jobs) × AreOf (jobs - 1) xs

get_elem?-within :
    {A : Type 0} (xs : List A) (i : ℕ) → i < length xs → (x : A) × (get_elem? xs i ≡ some x)
get_elem?-within [] i h = absurd (omega arith)
get_elem?-within (x ∷ xs) zero h = (x, refl)
get_elem?-within (x ∷ xs) (suc i) h = get_elem?-within xs i (omega arith)

no_elements : {A : Type 0} (xs : List A) → length xs ≡ 0 → xs ≡ []
no_elements [] h = refl
no_elements (x ∷ xs) h = absurd (omega arith)

drain_step :
    (max_failures workers time height : ℕ) (s : Loop) (d : ScheduleError) (i : ℕ)
    (x : Option TxError) (seen : Bool)
    → s.terminal ≡ some d
    → s.active ≡ length s.in_flight
    → s.completed < length s.graph.order
    → i < length s.in_flight
    → (round max_failures workers time height s (record { offers = []; event = finished i x seen })
        ≡ again (off_flight s i))
      × (length s.in_flight ≡ suc (length (remove_at i s.in_flight)))
unfolding round fill after_dispatch drain
drain_step f w t h s d i x seen term active busy inside =
    let (job, at) = get_elem?-within s.in_flight i inside in
    (ground arith, length-remove_at i s.in_flight job at)

-- In a loop with a terminal error whose jobs in flight are as many as its active ones, and whose
-- completed transactions are fewer than the block's, the results of these jobs, in any order, with
-- or without errors, and whether or not the stopper is closed, and one more round leave the loop,
-- with no job in flight and otherwise unchanged.
pub terminal_drains :
    (max_failures workers time height : ℕ) (s : Loop) (d : ScheduleError) (outcomes : List Outcome)
    → s.terminal ≡ some d
    → s.active ≡ length s.in_flight
    → s.completed < length s.graph.order
    → AreOf (length s.in_flight) outcomes
    → run max_failures workers time height s (results_of outcomes)
      ≡ left (record s { in_flight = []; active = 0 })
unfolding run round fill after_dispatch
terminal_drains f w t h s d [] term active busy none_left =
    let empty = no_elements s.in_flight none_left in
    let at_rest : s.active ≡ 0 = active ∙ none_left in ground arith
terminal_drains f w t h s d ((i, x, seen) ∷ xs) term active busy (inside, more) =
    let (step, size) = drain_step f w t h s d i x seen term active busy inside in
    let rest =
      terminal_drains f w t h (off_flight s i) d xs term (omega arith) busy
        (subst (λ n. AreOf n xs) (omega arith) more) in
    rw (step, run) rest
