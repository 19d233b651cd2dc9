-- ===== src/Processing/Scheduler/Stalled.antt =====
-- When the scheduler reports ErrDependencyGraphStalled.
use chainquery.Processing.Errors.{TxError}
use chainquery.Processing.Scheduler.{
  run_scheduled_tx, stall, TxProcessResult, after_error, dispatched, is_idle, off_flight, Event,
  Offer, Round, handle_scheduled_tx_error, Loop, Next, ScheduleError, after_dispatch, dispatch,
  drain, fill, receive, round, run, scheduled_tx_verdict, select, sent, stopped_before,
  stopped_sending, retry_ready, stopped, finished, again, left, impossible, graph_stalled,
}
use chainquery.Processing.Graph.{Graph}
use chainquery.Processing.Scheduler.Delivered.{next_cases, left_injective}
use chainquery.Prelude.{
  ℕ, zero, suc, ◌-◌, ◌≡◌, refl, sym, ap, subst, ◌∙◌, ◌≢◌, inl, inr, Bool, true, false, Option, none,
  some, List, [], ◌∷◌, arith, ltb, ◌==◌, if◌then◌else◌, Bool-cases, Option-cases, length, get_elem?,
}
use chainquery.Prelude.Text.{Text}

-- The error is not that of a stalled graph.
abbrev pub NotStall : Option ScheduleError → Type 0
NotStall t = (n total : ℕ) → t ≢ some (graph_stalled n total)

verdict-NotStall :
    (max_failures : ℕ) (g : Graph) (r : TxProcessResult) (e : TxError)
    → NotStall (scheduled_tx_verdict max_failures g r e)
unfolding scheduled_tx_verdict
verdict-NotStall max_failures g r e n total h = ground arith

select_not_left :
    (max_failures : ℕ) (s : Loop) (event : Event) (s' : Loop)
    → select max_failures s event ≢ left s'
unfolding select
select_not_left max_failures s (finished i error stop) s' e = ground arith
select_not_left max_failures s (retry_ready i) s' e = ground arith
select_not_left max_failures s stopped s' e = cc

drain_not_left : (s : Loop) (event : Event) (s' : Loop) → drain s event ≢ left s'
unfolding drain
drain_not_left s (finished i error stop) s' e = ground arith
drain_not_left s (retry_ready i) s' e = cc
drain_not_left s stopped s' e = cc

module _ (max_failures workers time height : ℕ) where
  dispatch-NotStall :
      (capacity : ℕ) (offers : List Offer) (ready : List Text) (s : Loop)
      → NotStall s.terminal
      → NotStall (dispatch time height capacity offers ready s).terminal
  unfolding dispatch
  dispatch-NotStall zero offers ready s v = v
  dispatch-NotStall (suc k) offers [] s v = v
  dispatch-NotStall (suc k) [] (id ∷ rest) s v =
      dispatch-NotStall k [] rest (dispatched time height s id rest) v
  dispatch-NotStall (suc k) (sent ∷ offers) (id ∷ rest) s v =
      dispatch-NotStall k offers rest (dispatched time height s id rest) v
  dispatch-NotStall (suc k) (stopped_before ∷ offers) (id ∷ rest) s v = λ n total e. cc
  dispatch-NotStall (suc k) (stopped_sending ∷ offers) (id ∷ rest) s v = λ n total e. cc

  fill-NotStall :
      (s : Loop) (offers : List Offer)
      → NotStall s.terminal
      → NotStall (fill workers time height s offers).terminal
  unfolding fill
  fill-NotStall s offers v = elim (Option-cases s.terminal) [
    | inl n ↦ rw (n, fill) (dispatch-NotStall (workers - s.active) offers s.graph.ready s v)
    | inr (e, n) ↦ rw (n, fill) v
  ]

  after_error-NotStall :
      (s : Loop) (id : Text) (g : Graph) (d : Option ScheduleError)
      → NotStall s.terminal
      → NotStall d
      → NotStall (after_error s id (g, d)).terminal
  after_error-NotStall s id g none v w = v
  after_error-NotStall s id g (some d) v w = w

  receive-NotStall :
      (s : Loop) (r : TxProcessResult) (stop : Bool)
      → NotStall s.terminal
      → NotStall (receive max_failures s r stop).terminal
  unfolding receive handle_scheduled_tx_error
  receive-NotStall s r true v = λ n total e. cc
  receive-NotStall s r false v = elim (Option-cases r.error) [
    | inl n ↦ rw (n, receive) v
    | inr (x, n) ↦
        rw (n, receive)
          (after_error-NotStall s r.tx_id (handle_scheduled_tx_error max_failures s.graph r x).0
            (scheduled_tx_verdict max_failures s.graph r x) v
            (verdict-NotStall max_failures s.graph r x))
  ]

  abbrev NextNotStall : Next → Type 0
  NextNotStall (again s) = NotStall s.terminal
  NextNotStall (left s) = Unit
  NextNotStall impossible = Unit

  select-NotStall :
      (f : Loop) (event : Event) → NotStall f.terminal → NextNotStall (select max_failures f event)
  unfolding select
  select-NotStall f (finished i error stop) v = elim (Option-cases (get_elem? f.in_flight i)) [
    | inl n ↦ rw (n, select) tt
    | inr (job, j) ↦
        rw (j, select)
          (receive-NotStall (off_flight f i) (run_scheduled_tx (λ _. error) job) stop v)
  ]
  select-NotStall f (retry_ready i) v = elim (Option-cases (get_elem? f.retries i)) [
    | inl n ↦ rw (n, select) tt
    | inr (id, j) ↦ rw (j, select) v
  ]
  select-NotStall f stopped v = λ n total e. cc

  drain-NotStall : (f : Loop) (event : Event) → NotStall f.terminal → NextNotStall (drain f event)
  unfolding drain
  drain-NotStall f (finished i error stop) v = elim (Option-cases (get_elem? f.in_flight i)) [
    | inl n ↦ rw (n, drain) tt
    | inr (job, j) ↦ rw (j, drain) v
  ]
  drain-NotStall f (retry_ready i) v = tt
  drain-NotStall f stopped v = tt

  if-NextNotStall :
      (b : Bool) (n n' : Next)
      → NextNotStall n
      → NextNotStall n'
      → NextNotStall (if b then n else n')
  if-NextNotStall true n n' p q = p
  if-NextNotStall false n n' p q = q

  round-NotStall :
      (s : Loop) (r : Round)
      → NotStall s.terminal
      → NextNotStall (round max_failures workers time height s r)
  unfolding round after_dispatch
  round-NotStall s r v =
      let f = fill workers time height s r.offers in
      let w = fill-NotStall s r.offers v in
      if-NextNotStall (ltb s.completed (length s.graph.order))
        (after_dispatch max_failures f r.event) (left s)
        (elim (Option-cases f.terminal) [
          | inl n ↦
              rw (n, after_dispatch)
                (if-NextNotStall (is_idle f) (left (stall f)) (select max_failures f r.event) tt
                  (select-NotStall f r.event w))
          | inr (e, n) ↦
              rw (n, after_dispatch)
                (if-NextNotStall (f.active == 0) (left f) (drain f r.event) tt
                  (drain-NotStall f r.event w))
        ])
        tt

  -- A round that leaves the loop with that error found it idle, and without an error.
  abbrev pub StalledAt : Loop → Round → Loop → Type 0
  StalledAt s r s' =
      let f = fill workers time height s r.offers in
      (f.terminal ≡ none) × (is_idle f ≡ true) × (s' ≡ stall f)

  idle_left :
      (f s' : Loop) (event : Event) (n total : ℕ)
      → NotStall f.terminal
      → after_dispatch max_failures f event ≡ left s'
      → s'.terminal ≡ some (graph_stalled n total)
      → (f.terminal ≡ none) × (is_idle f ≡ true) × (s' ≡ stall f)
  unfolding after_dispatch
  idle_left f s' event n total v e h = elim (Option-cases f.terminal) [
    | inl none_yet ↦ elim (Bool-cases (is_idle f)) [
      | inl t ↦
          (none_yet, t, sym (left_injective (stall f) s' (rw (none_yet, t, after_dispatch) at e)))
      | inr i ↦
          absurd (select_not_left max_failures f event s' (rw (none_yet, i, after_dispatch) at e))
    ]
    | inr (d, some_error) ↦ elim (Bool-cases (f.active == 0)) [
      | inl t ↦
          let same = left_injective f s' (rw (some_error, t, after_dispatch) at e) in
          absurd (v n total (ap (λ x. x.terminal) same ∙ h))
      | inr i ↦ absurd (drain_not_left f event s' (rw (some_error, i, after_dispatch) at e))
    ]
  ]

  pub round-StalledAt :
      (s s' : Loop) (r : Round) (n total : ℕ)
      → NotStall s.terminal
      → round max_failures workers time height s r ≡ left s'
      → s'.terminal ≡ some (graph_stalled n total)
      → StalledAt s r s'
  unfolding round
  round-StalledAt s s' r n total v e h =
      elim (Bool-cases (ltb s.completed (length s.graph.order))) [
        | inl t ↦
            idle_left (fill workers time height s r.offers) s' r.event n total
              (fill-NotStall s r.offers v) (rw (t, round) at e) h
        | inr f ↦
            absurd (v n total (ap (λ x. x.terminal) (left_injective s s' (rw (f, round) at e)) ∙ h))
      ]

  -- A run that is left with that error was so by its last round.
  pub run-StalledAt :
      (rs : List Round) (s s' : Loop) (n total : ℕ)
      → NotStall s.terminal
      → run max_failures workers time height s rs ≡ left s'
      → s'.terminal ≡ some (graph_stalled n total)
      → (before : List Round) × (t : Loop) × (r : Round) × (run max_failures workers time height s
            before
          ≡ again t)
        × StalledAt t r s'
  unfolding run
  run-StalledAt [] s s' n total v e h = absurd (ground arith)
  run-StalledAt (r ∷ rs) s s' n total v e h =
      elim (next_cases (round max_failures workers time height s r)) [
        | inl (t, q) ↦
            let (before, u, last, reached, at) =
              run-StalledAt rs t s' n total (subst NextNotStall q (round-NotStall s r v))
                (rw (q, run) at e) h in
            (r ∷ before, u, last, rw (q, run) reached, at)
        | inr (inl (t, q)) ↦
            let same = left_injective t s' (rw (q, run) at e) in
            ([], s, r, refl, round-StalledAt s s' r n total v (q ∙ ap left same) h)
        | inr (inr q) ↦ absurd (ground (arith, rw (q, run) at e))
      ]
