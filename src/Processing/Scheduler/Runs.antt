-- ===== src/Processing/Scheduler/Runs.antt =====
-- What holds of the scheduler over every list of rounds.
use chainquery.Processing.Graph.Counts.{count_if-le, occ}
use chainquery.Processing.Scheduler.{
  left, again, impossible, Next, run, Round, drain, after_dispatch, round, after_error, fill,
  scheduled_tx_verdict, Offer, ScheduleError, off_flight, TxToProcess, Loop, Event,
  run_scheduled_tx, handle_scheduled_tx_error, receive, select, finished, retry_ready, stopped,
}
use chainquery.Processing.Scheduler.Invariant.{
  dispatch-Inv, retried-Inv, retry_ready-Inv, Inv, success-Inv,
}
use chainquery.Processing.Graph.{update}
use chainquery.Prelude.{
  ℕ, ◌-◌, ◌≤◌, ◌<◌, ◌≡◌, refl, ap, subst, ◌∙◌, ◌≢◌, ◌⊎◌, inl, inr, Bool, true, false, Option, none,
  some, List, [], ◌∷◌, arith, ltb, Bool-cases, Option-cases, length, get_elem?, count_if,
}
use chainquery.Prelude.Text.{Text}
use chainquery.Processing.Errors.{TxError}

module _ (o : List Text) (max_failures workers time height : ℕ)
    (distinct : (c : Text) → occ c o ≤ 1) where
  abbrev pub Kept : Loop → Type 0
  Kept s = s.terminal ≡ none → Inv o workers s

  after_error-Inv :
      (s : Loop) (i : ℕ) (job : TxToProcess) (attempts : Text → ℕ) (d : Option ScheduleError)
      → get_elem? s.in_flight i ≡ some job
      → Inv o workers s
      → Kept (after_error (off_flight s i) job.tx_id (record (s.graph) { attempts = attempts }, d))
  after_error-Inv s i job attempts none e v t = retried-Inv o workers distinct s v i job e attempts
  after_error-Inv s i job attempts (some d) e v t = cc

  receive-Inv :
      (s : Loop) (i : ℕ) (job : TxToProcess) (error : Option TxError) (stop : Bool)
      → get_elem? s.in_flight i ≡ some job
      → Inv o workers s
      → Kept (receive max_failures (off_flight s i) (run_scheduled_tx (λ _. error) job) stop)
  unfolding receive run_scheduled_tx handle_scheduled_tx_error
  receive-Inv s i job error true e v t = cc
  receive-Inv s i job none false e v t = success-Inv o workers distinct s v i job e
  receive-Inv s i job (some x) false e v t =
      let result = run_scheduled_tx (λ _. some x) job in
      after_error-Inv s i job (update s.graph.attempts job.tx_id result.failcount)
        (scheduled_tx_verdict max_failures s.graph result x) e v t

  pub again-injective : (s s' : Loop) → again s ≡ again s' → s ≡ s'
  again-injective s s' e = cc

  select-Inv :
      (s : Loop) (event : Event) (s' : Loop)
      → Inv o workers s
      → select max_failures s event ≡ again s'
      → Kept s'
  unfolding select
  select-Inv s (finished i error stop) s' v e = elim (Option-cases (get_elem? s.in_flight i)) [
    | inl n ↦ absurd (ground arith)
    | inr (job, j) ↦
        subst Kept (again-injective _ s' (rw (j, select) at e)) (receive-Inv s i job error stop j v)
  ]
  select-Inv s (retry_ready i) s' v e = elim (Option-cases (get_elem? s.retries i)) [
    | inl n ↦ absurd (ground arith)
    | inr (id, j) ↦
        subst Kept (again-injective _ s' (rw (j, select) at e))
          (λ _. retry_ready-Inv o workers distinct s v i id j)
  ]
  select-Inv s stopped s' v e = subst Kept (again-injective _ s' e) (λ t. cc)

  pub fill-Inv :
      (s : Loop) (offers : List Offer) → Kept s → Kept (fill workers time height s offers)
  unfolding fill
  fill-Inv s offers v t = elim (Option-cases s.terminal) [
    | inl n ↦
        rw (n, fill)
          (dispatch-Inv o workers time height (workers - s.active) offers s.graph.ready s refl
            (omega (arith, (v n).within)) (v n) (rw (n, fill) at t))
    | inr (d, n) ↦ absurd (ground arith)
  ]

  drain-terminal :
      (f : Loop) (event : Event) (s' : Loop) → drain f event ≡ again s' → s'.terminal ≡ f.terminal
  unfolding drain
  drain-terminal f (finished i error stop) s' e = ground arith
  drain-terminal f (retry_ready i) s' e = cc
  drain-terminal f stopped s' e = cc

  after_dispatch-Inv :
      (f : Loop) (event : Event) (s' : Loop)
      → Kept f
      → after_dispatch max_failures f event ≡ again s'
      → Kept s'
  unfolding after_dispatch
  after_dispatch-Inv f event s' v e t = elim (Option-cases f.terminal) [
    | inr (d, n) ↦ absurd (ground (arith, drain-terminal f event s'))
    | inl n ↦ select-Inv f event s' (v n) (ground arith) t
  ]

  -- A round after which the loop goes on.
  pub round-Inv :
      (s : Loop) (r : Round) (s' : Loop)
      → Kept s
      → round max_failures workers time height s r ≡ again s'
      → Kept s'
  unfolding round
  round-Inv s r s' v e =
      after_dispatch-Inv (fill workers time height s r.offers) r.event s' (fill-Inv s r.offers v)
        (ground arith)

  pub Next-cases :
      (n : Next) → ((t : Loop) × (n ≡ again t)) ⊎ ((t : Loop) × (n ≡ left t)) ⊎ (n ≡ impossible)
  Next-cases (again t) = inl (t, refl)
  Next-cases (left t) = inr (inl (t, refl))
  Next-cases impossible = inr (inr refl)

  -- After any rounds at all, the loop is in the invariant unless it has met a terminal error.
  pub run-Inv :
      (rs : List Round) (s s' : Loop)
      → Kept s
      → run max_failures workers time height s rs ≡ again s'
      → Kept s'
  unfolding run
  run-Inv [] s s' v e = subst Kept (again-injective s s' e) v
  run-Inv (r ∷ rs) s s' v e = elim (Next-cases (round max_failures workers time height s r)) [
    | inl (t, q) ↦ run-Inv rs t s' (round-Inv s r t v q) (rw (q, run) at e)
    | inr (inl (t, q)) ↦ absurd (ground arith)
    | inr (inr q) ↦ absurd (ground arith)
  ]

  pub left-injective : (s s' : Loop) → left s ≡ left s' → s ≡ s'
  left-injective s s' e = cc

  select-not_left : (s : Loop) (event : Event) (s' : Loop) → select max_failures s event ≢ left s'
  unfolding select
  select-not_left s (finished i error stop) s' e = ground arith
  select-not_left s (retry_ready i) s' e = ground arith
  select-not_left s stopped s' e = cc

  drain-not_left : (s : Loop) (event : Event) (s' : Loop) → drain s event ≢ left s'
  unfolding drain
  drain-not_left s (finished i error stop) s' e = ground arith
  drain-not_left s (retry_ready i) s' e = cc
  drain-not_left s stopped s' e = cc

  -- A round in the middle of the loop leaves it with a terminal error only.
  after_dispatch_left :
      (f : Loop) (event : Event) (s' : Loop)
      → after_dispatch max_failures f event ≡ left s'
      → s'.terminal ≢ none
  unfolding after_dispatch
  after_dispatch_left f event s' e t =
      ground (arith, drain-not_left f event s', select-not_left f event s')

  round_left :
      (s : Loop) (r : Round) (s' : Loop)
      → Kept s
      → round max_failures workers time height s r ≡ left s'
      → s'.terminal ≡ none
      → Inv o workers s' × (length s'.graph.order ≤ s'.completed)
  unfolding round
  round_left s r s' v e t = elim (Bool-cases (ltb s.completed (length s.graph.order))) [
    | inl n ↦
        absurd
          (after_dispatch_left (fill workers time height s r.offers) r.event s' (ground arith) t)
    | inr n ↦
        let same_state : s ≡ s' = ground arith in rw (← same_state) (v (ground arith), ground arith)
  ]

  count_if_full :
      (p : Text → Bool) (xs : List Text) (c : Text)
      → length xs ≤ count_if p xs
      → 0 < occ c xs
      → p c ≡ true
  count_if_full p [] c h k = absurd (omega arith)
  count_if_full p (x ∷ xs) c h k = ground (arith, count_if-le p xs, count_if_full p xs c)

  -- A block is reported processed only when all its transactions are completed: if the loop is
  -- left without a terminal error, each id of the order is completed.
  pub run_left :
      (rs : List Round) (s s' : Loop)
      → Kept s
      → run max_failures workers time height s rs ≡ left s'
      → s'.terminal ≡ none
      → (c : Text) → 0 < occ c o
      → s'.graph.completed c ≡ true
  unfolding run
  run_left [] s s' v e t c h = cc
  run_left (r ∷ rs) s s' v e t c h =
      elim (Next-cases (round max_failures workers time height s r)) [
        | inl (u, q) ↦ run_left rs u s' (round-Inv s r u v q) (rw (q, run) at e) t c h
        | inr (inl (u, q)) ↦
            let end = left-injective u s' (rw (q, run) at e) in
            let (v', full) = round_left s r s' v (q ∙ ap left end) t in
            count_if_full s'.graph.completed o c
              (omega (arith, v'.progress, ap length v'.same_order)) h
        | inr (inr q) ↦ absurd (ground arith)
      ]
