-- ===== src/Processing/Scheduler/Delivered.antt =====
-- Which transactions are completed in a run of the scheduler: those whose processing a worker has reported
-- without an error.
use chainquery.Processing.Graph.{update}
use chainquery.Processing.Scheduler.{
  sent, stopped_before, stopped_sending, retry_ready, stopped, scheduled_tx_verdict, off_flight,
  after_error, after_success, stall, ScheduleError, dispatched, finished, handle_scheduled_tx_error,
  impossible, is_idle, Event, Offer, Round, TxToProcess, again, left, run_scheduled_tx, Loop, Next,
  after_dispatch, dispatch, drain, fill, receive, round, run, select,
}
use chainquery.Prelude.Text.{text_discrete, Text}
use chainquery.Processing.Scheduler.Release.{completing_frame}
use chainquery.Processing.Errors.{TxError}
use chainquery.Prelude.{
  ℕ, zero, suc, ◌-◌, ◌≡◌, refl, sym, ap, subst, ◌∙◌, ◌⊎◌, inl, inr, if_neg, Bool, true, false,
  Option, none, some, List, [], ◌∷◌, arith, ltb, ◌==◌, if◌then◌else◌, Option-cases, length,
  get_elem?,
}

pub next_cases :
    (n : Next) → ((t : Loop) × (n ≡ again t)) ⊎ ((t : Loop) × (n ≡ left t)) ⊎ (n ≡ impossible)
next_cases (again t) = inl (t, refl)
next_cases (left t) = inr (inl (t, refl))
next_cases impossible = inr (inr refl)

pub left_injective : (s s' : Loop) → left s ≡ left s' → s ≡ s'
left_injective s s' e = cc

module _ (max_failures workers time height : ℕ) where
  -- In the round `r` a worker that holds `c` reports that it was processed without an error.
  abbrev pub Reports : Loop → Event → Text → Type 0
  Reports f event c =
      (i : ℕ) × (job : TxToProcess) × (event ≡ finished i none false)
      × (get_elem? f.in_flight i ≡ some job)
      × (job.tx_id ≡ c)

  -- In some round of a run it is reported.
  abbrev pub Delivered : Loop → List Round → Text → Type 0
  Delivered s [] c = ⊥
  Delivered s (r ∷ rs) c =
      Reports (fill workers time height s r.offers) r.event c
      ⊎ ((t : Loop) × (round max_failures workers time height s r ≡ again t) × Delivered t rs c)

  dispatch-completed :
      (capacity : ℕ) (offers : List Offer) (ready : List Text) (s : Loop)
      → (dispatch time height capacity offers ready s).graph.completed ≡ s.graph.completed
  unfolding dispatch
  dispatch-completed zero offers ready s = refl
  dispatch-completed (suc k) offers [] s = refl
  dispatch-completed (suc k) [] (id ∷ rest) s =
      dispatch-completed k [] rest (dispatched time height s id rest)
  dispatch-completed (suc k) (sent ∷ offers) (id ∷ rest) s =
      dispatch-completed k offers rest (dispatched time height s id rest)
  dispatch-completed (suc k) (stopped_before ∷ offers) (id ∷ rest) s = refl
  dispatch-completed (suc k) (stopped_sending ∷ offers) (id ∷ rest) s = refl

  fill-completed :
      (s : Loop) (offers : List Offer)
      → (fill workers time height s offers).graph.completed ≡ s.graph.completed
  unfolding fill
  fill-completed s offers = elim (Option-cases s.terminal) [
    | inl n ↦ rw (n, fill) (dispatch-completed (workers - s.active) offers s.graph.ready s)
    | inr (e, n) ↦ rw (n, fill) refl
  ]

  module _ (c : Text) where
    -- What is completed was so before, or is reported by the event.
    abbrev Old : Loop → Event → Loop → Type 0
    Old f event s' = s'.graph.completed c ≡ true → (f.graph.completed c ≡ true) ⊎ Reports f event c

    abbrev OldNext : Loop → Event → Next → Type 0
    OldNext f event (again s') = Old f event s'
    OldNext f event (left s') = Old f event s'
    OldNext f event impossible = Unit

    success-Old :
        (f : Loop) (i : ℕ) (job : TxToProcess)
        → get_elem? f.in_flight i ≡ some job
        → Old f (finished i none false) (after_success (off_flight f i) job.tx_id)
    success-Old f i job j h =
        let (done, _, _, _, _, _) = completing_frame f.graph job.tx_id in
        elim (text_discrete job.tx_id c) [
          | yes p ↦ inr (i, job, refl, j, p)
          | no p ↦ inl (
              sym (if_neg (text_discrete job.tx_id c) p true (f.graph.completed c))
              ∙ sym (ap (λ m. m c) done)
              ∙ h)
        ]

    after_error-Old :
        (f : Loop) (event : Event) (i : ℕ) (id : Text) (attempts : Text → ℕ)
        (d : Option ScheduleError)
        → Old f event
            (after_error (off_flight f i) id (record (f.graph) { attempts = attempts }, d))
    after_error-Old f event i id attempts none h = inl h
    after_error-Old f event i id attempts (some d) h = inl h

    receive-Old :
        (f : Loop) (i : ℕ) (job : TxToProcess) (error : Option TxError) (stop : Bool)
        → get_elem? f.in_flight i ≡ some job
        → Old f
            (finished i error stop)
            (receive max_failures (off_flight f i) (run_scheduled_tx (λ _. error) job) stop)
    unfolding receive run_scheduled_tx handle_scheduled_tx_error
    receive-Old f i job error true j h = inl h
    receive-Old f i job none false j h = success-Old f i job j h
    receive-Old f i job (some x) false j h =
        let result = run_scheduled_tx (λ _. some x) job in
        after_error-Old f (finished i (some x) false) i job.tx_id
          (update f.graph.attempts job.tx_id result.failcount)
          (scheduled_tx_verdict max_failures f.graph result x) h

    select-Old : (f : Loop) (event : Event) → OldNext f event (select max_failures f event)
    unfolding select
    select-Old f (finished i error stop) = elim (Option-cases (get_elem? f.in_flight i)) [
      | inl n ↦ rw (n, select) tt
      | inr (job, j) ↦ rw (j, select) (receive-Old f i job error stop j)
    ]
    select-Old f (retry_ready i) = elim (Option-cases (get_elem? f.retries i)) [
      | inl n ↦ rw (n, select) tt
      | inr (id, j) ↦ rw (j, select) (λ h. inl h)
    ]
    select-Old f stopped = λ h. inl h

    drain-Old : (f : Loop) (event : Event) → OldNext f event (drain f event)
    unfolding drain
    drain-Old f (finished i error stop) = elim (Option-cases (get_elem? f.in_flight i)) [
      | inl n ↦ rw (n, drain) tt
      | inr (job, j) ↦ rw (j, drain) (λ h. inl h)
    ]
    drain-Old f (retry_ready i) = tt
    drain-Old f stopped = tt

    if-OldNext :
        (f : Loop) (event : Event) (b : Bool) (n n' : Next)
        → OldNext f event n
        → OldNext f event n'
        → OldNext f event (if b then n else n')
    if-OldNext f event true n n' p q = p
    if-OldNext f event false n n' p q = q

    after_dispatch-Old :
        (f : Loop) (event : Event) → OldNext f event (after_dispatch max_failures f event)
    unfolding after_dispatch
    after_dispatch-Old f event = elim (Option-cases f.terminal) [
      | inl n ↦
          rw (n, after_dispatch)
            (if-OldNext f event (is_idle f) (left (stall f)) (select max_failures f event)
              (λ h. inl h) (select-Old f event))
      | inr (e, n) ↦
          rw (n, after_dispatch)
            (if-OldNext f event (f.active == 0) (left f) (drain f event) (λ h. inl h)
              (drain-Old f event))
    ]

    round-Old :
        (s : Loop) (r : Round)
        → OldNext
            (fill workers time height s r.offers)
            r.event
            (round max_failures workers time height s r)
    unfolding round
    round-Old s r =
        let f = fill workers time height s r.offers in
        if-OldNext f r.event (ltb s.completed (length s.graph.order))
          (after_dispatch max_failures f r.event) (left s) (after_dispatch-Old f r.event)
          (λ h. inl (ap (λ m. m c) (fill-completed s r.offers) ∙ h))

    before_fill :
        (s : Loop) (r : Round)
        → ((fill workers time height s r.offers).graph.completed c ≡ true)
          ⊎ Reports (fill workers time height s r.offers) r.event c
        → (s.graph.completed c ≡ true) ⊎ Reports (fill workers time height s r.offers) r.event c
    before_fill s r (inl h) = inl (sym (ap (λ m. m c) (fill-completed s r.offers)) ∙ h)
    before_fill s r (inr h) = inr h

    -- A transaction that is completed when the loop is left was so at first, or was reported on the way.
    pub left-Delivered :
        (rs : List Round) (s s' : Loop)
        → run max_failures workers time height s rs ≡ left s'
        → s'.graph.completed c ≡ true
        → (s.graph.completed c ≡ true) ⊎ Delivered s rs c
    unfolding run
    left-Delivered [] s s' e h = absurd (ground arith)
    left-Delivered (r ∷ rs) s s' e h =
        elim (next_cases (round max_failures workers time height s r)) [
          | inl (t, q) ↦ elim (left-Delivered rs t s' (rw (q, run) at e) h) [
            | inr later ↦ inr (inr (t, q, later))
            | inl now ↦
                elim (before_fill s r (
                  subst (OldNext (fill workers time height s r.offers) r.event) q (round-Old s r)
                    now)) [ inl b ↦ inl b | inr d ↦ inr (inl d) ]
          ]
          | inr (inl (t, q)) ↦
              let same : t ≡ s' = left_injective t s' (rw (q, run) at e) in
              elim (before_fill s r (
                subst (OldNext (fill workers time height s r.offers) r.event) q (round-Old s r)
                  (ap (λ x. x.graph.completed c) same ∙ h))) [ inl b ↦ inl b | inr d ↦ inr (inl d) ]
          | inr (inr q) ↦ absurd (ground arith)
        ]
