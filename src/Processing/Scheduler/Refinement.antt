-- ===== src/Processing/Scheduler/Refinement.antt =====
-- The scheduler refines a machine that processes the transactions of a block one by one, each after
-- the transactions it depends on.
use chainquery.Processing.Scheduler.Safety.{completed-Delivered, success_completes, kept, none_open}
use chainquery.Processing.Scheduler.Delivered.{Delivered}
use chainquery.Prelude.Text.{text_discrete, Text}
use chainquery.Processing.Graph.Build.{build_dependencies-IsBuilt}
use chainquery.Processing.Scheduler.{
  success, finish, stall, Round, is_idle, Next, round, run, start, finished, retry_ready, stopped,
  again, left, impossible, scheduled_tx_verdict, handle_scheduled_tx_error, Event, after_error,
  run_scheduled_tx, ScheduleError, after_dispatch, drain, receive, select, off_flight,
  after_success, dispatched, TxToProcess, Loop, Offer, dispatch, fill, sent, stopped_before,
  stopped_sending,
}
use chainquery.Processing.Graph.{
  order_of, graph, new_block_tx_graph, build_dependencies, ClaimEvent, Graph, Edge, update,
}
use chainquery.Processing.Scheduler.Runs.{round-Inv, Next-cases, fill-Inv, Kept}
use chainquery.Processing.Tx.{TxRawResult}
use chainquery.Processing.Errors.{TxError}
use chainquery.Processing.Graph.Counts.{same, occ}
use chainquery.Processing.Scheduler.Release.{completing_frame}
use chainquery.Prelude.{
  ℕ, zero, suc, ◌-◌, ◌≤◌, ◌<◌, ◌≡◌, refl, sym, ap, subst, ◌∙◌, inl, inr, if_pos, if_neg, Bool, true,
  false, Option, none, some, List, [], ◌∷◌, arith, dec_lt, ltb, ◌==◌, if◌then◌else◌, Bool-cases,
  Option-cases, length, get_elem?, All,
}
use chainquery.Processing.Scheduler.Invariant.{one_if, Inv, count_if-remove_at, fresh}

-- The machine: what is processed, and the order in which it was, the last one first. A step takes a
-- transaction of the block that is not processed and whose dependencies all are.
pub data Sequential (order : List Text) (edges : List Edge)
    : (Text → Bool) → List Text → Type 0 where
  nothing : {done : Text → Bool} → ((c : Text) → done c ≡ false) → Sequential order edges done []
  then_one :
      {done done' : Text → Bool} {log : List Text} (c : Text)
      → Sequential order edges done log
      → 0 < occ c order
      → done c ≡ false
      → All (λ e. e.child ≡ c → done e.parent ≡ true) edges
      → done' ≡ update done c true
      → Sequential order edges done' (c ∷ log)

-- What is processed stands once in the log, and nothing else does.
occ-log :
    {order : List Text} {edges : List Edge} {done : Text → Bool} {log : List Text}
    → Sequential order edges done log
    → (c : Text) → occ c log ≡ one_if (done c)
occ-log (nothing none_done) c = rw (none_done c) refl
occ-log (then_one {done} {done'} {log} d before here fresh ready e) c =
    let rest = occ-log before c in rw e (ground (arith, fresh))

log-in_order :
    {order : List Text} {edges : List Edge} {done : Text → Bool} {log : List Text}
    → Sequential order edges done log
    → (c : Text) → 0 < occ c log
    → 0 < occ c order
log-in_order {order} (nothing none_done) c h = absurd (omega arith)
log-in_order {order} (then_one d before here fresh ready e) c h =
    let rest = log-in_order before c in
    elim (text_discrete d c) [ yes p ↦ subst (λ x. 0 < occ x order) p here | no p ↦ ground arith ]

still : (done : Text → Bool) (d c : Text) → done c ≡ true → update done d true c ≡ true
still done d c t = elim (text_discrete d c) [
  | yes p ↦ if_pos (text_discrete d c) p true (done c)
  | no p ↦ if_neg (text_discrete d c) p true (done c) ∙ t
]

-- What holds of all that is processed holds of the whole log.
All-log :
    {order : List Text} {edges : List Edge} {done : Text → Bool} {log : List Text}
    {P : Text → Type 0}
    → Sequential order edges done log
    → ((c : Text) → done c ≡ true → P c)
    → All P log
All-log (nothing none_done) h = tt
All-log (then_one {done} {done'} {log} d before here _ ready e) h = (
  h d (ap (λ m. m d) e ∙ if_pos (text_discrete d d) refl true (done d)),
  All-log before (λ c t. h c (ap (λ m. m c) e ∙ still done d c t)),
)

module _ (o : List Text) (max_failures workers time height : ℕ)
    (distinct : (c : Text) → occ c o ≤ 1) (edges : List Edge) where
  -- A state of the machine that shows the same transactions as processed.
  abbrev pub Refines : Loop → Type 0
  Refines s =
      (s.graph.edge_set ≡ edges) × ((log : List Text) × Sequential o edges s.graph.completed log)

  same_frame :
      (s s' : Loop)
      → s'.graph.edge_set ≡ s.graph.edge_set
      → s'.graph.completed ≡ s.graph.completed
      → Refines s
      → Refines s'
  same_frame s s' e c (f, (log, r)) =
      (e ∙ f, (log, subst (λ d. Sequential o edges d log) (sym c) r))

  dispatch-Refines :
      (capacity : ℕ) (offers : List Offer) (ready : List Text) (s : Loop)
      → Refines s
      → Refines (dispatch time height capacity offers ready s)
  unfolding dispatch
  dispatch-Refines zero offers ready s r = r
  dispatch-Refines (suc k) offers [] s r = r
  dispatch-Refines (suc k) [] (id ∷ rest) s r =
      dispatch-Refines k [] rest (dispatched time height s id rest) r
  dispatch-Refines (suc k) (sent ∷ offers) (id ∷ rest) s r =
      dispatch-Refines k offers rest (dispatched time height s id rest) r
  dispatch-Refines (suc k) (stopped_before ∷ offers) (id ∷ rest) s r = r
  dispatch-Refines (suc k) (stopped_sending ∷ offers) (id ∷ rest) s r = r

  fill-Refines :
      (s : Loop) (offers : List Offer) → Refines s → Refines (fill workers time height s offers)
  unfolding fill
  fill-Refines s offers r =
      elim s.terminal
        as (λ t. Refines (elim t [
          | some e ↦ s
          | none ↦ dispatch time height (workers - s.active) offers s.graph.ready s
        ])) [ none ↦ dispatch-Refines (workers - s.active) offers s.graph.ready s r | some e ↦ r ]

  -- A transaction that a worker holds is the next step of the machine.
  success-Refines :
      (s : Loop) (i : ℕ) (job : TxToProcess)
      → get_elem? s.in_flight i ≡ some job
      → Inv o workers s
      → Refines s
      → Refines (after_success (off_flight s i) job.tx_id)
  success-Refines s i job e v (f, (log, r)) =
      let id = job.tx_id in
      let (done, same_edges, _, _, _, _) = completing_frame s.graph id in
      let held = count_if-remove_at (λ (j : TxToProcess). same j.tx_id id) i s.in_flight job e in
      (
        same_edges ∙ f,
        (
          id ∷ log,
          then_one id r (ground (arith, v.places id)) (fresh o workers distinct s v i job e)
              (subst (All (λ d. d.child ≡ id → s.graph.completed d.parent ≡ true)) f (
                none_open s.graph.completed id s.graph.edge_set
                  (ground (arith, v.places id, v.counted.counters id))))
              done,
        ),
      )

  after_error-Refines :
      (s : Loop) (id : Text) (attempts : Text → ℕ) (d : Option ScheduleError)
      → Refines s
      → Refines (after_error s id (record (s.graph) { attempts = attempts }, d))
  after_error-Refines s id attempts none r = r
  after_error-Refines s id attempts (some d) r = r

  receive-Refines :
      (s : Loop) (i : ℕ) (job : TxToProcess) (error : Option TxError) (stop : Bool)
      → get_elem? s.in_flight i ≡ some job
      → Inv o workers s
      → Refines s
      → Refines (receive max_failures (off_flight s i) (run_scheduled_tx (λ _. error) job) stop)
  unfolding receive run_scheduled_tx handle_scheduled_tx_error
  receive-Refines s i job error true e v r = r
  receive-Refines s i job none false e v r = success-Refines s i job e v r
  receive-Refines s i job (some x) false e v r =
      let result = run_scheduled_tx (λ _. some x) job in
      after_error-Refines (off_flight s i) job.tx_id
        (update s.graph.attempts job.tx_id result.failcount)
        (scheduled_tx_verdict max_failures s.graph result x) r

  abbrev pub RefinesNext : Next → Type 0
  RefinesNext (again s) = Refines s
  RefinesNext (left s) = Refines s
  RefinesNext impossible = Unit

  select-Refines :
      (s : Loop) (event : Event)
      → Inv o workers s
      → Refines s
      → RefinesNext (select max_failures s event)
  unfolding select
  select-Refines s (finished i error stop) v r = elim (Option-cases (get_elem? s.in_flight i)) [
    | inl n ↦ rw (n, select) tt
    | inr (job, j) ↦ rw (j, select) (receive-Refines s i job error stop j v r)
  ]
  select-Refines s (retry_ready i) v r = elim (Option-cases (get_elem? s.retries i)) [
    | inl n ↦ rw (n, select) tt
    | inr (id, j) ↦ rw (j, select) r
  ]
  select-Refines s stopped v r = r

  drain-Refines : (s : Loop) (event : Event) → Refines s → RefinesNext (drain s event)
  unfolding drain
  drain-Refines s (finished i error stop) r = elim (Option-cases (get_elem? s.in_flight i)) [
    | inl n ↦ rw (n, drain) tt
    | inr (job, j) ↦ rw (j, drain) r
  ]
  drain-Refines s (retry_ready i) r = tt
  drain-Refines s stopped r = tt

  if-RefinesNext :
      (b : Bool) (n n' : Next) → RefinesNext n → RefinesNext n' → RefinesNext (if b then n else n')
  if-RefinesNext true n n' p q = p
  if-RefinesNext false n n' p q = q

  after_dispatch-Refines :
      (f : Loop) (event : Event)
      → Kept o max_failures workers time height distinct f
      → Refines f
      → RefinesNext (after_dispatch max_failures f event)
  unfolding after_dispatch
  after_dispatch-Refines f event v r =
      elim f.terminal
          as (λ t.
            f.terminal ≡ t
            → RefinesNext (elim t [
              | some e ↦ if f.active == 0 then left f else drain f event
              | none ↦ if is_idle f then left (stall f) else select max_failures f event
            ])) [
              | none ↦ λ n.
                  if-RefinesNext (is_idle f) (left (stall f)) (select max_failures f event) r
                    (select-Refines f event (v n) r)
              | some e ↦ λ n.
                  if-RefinesNext (f.active == 0) (left f) (drain f event) r
                    (drain-Refines f event r)
            ]
        refl

  round-Refines :
      (s : Loop) (r : Round)
      → Kept o max_failures workers time height distinct s
      → Refines s
      → RefinesNext (round max_failures workers time height s r)
  unfolding round
  round-Refines s r v q =
      if-RefinesNext (ltb s.completed (length s.graph.order))
        (after_dispatch max_failures (fill workers time height s r.offers) r.event) (left s)
        (after_dispatch-Refines (fill workers time height s r.offers) r.event
          (fill-Inv o max_failures workers time height distinct s r.offers v)
          (fill-Refines s r.offers q))
        q

  pub run-Refines :
      (rs : List Round) (s : Loop)
      → Kept o max_failures workers time height distinct s
      → Refines s
      → RefinesNext (run max_failures workers time height s rs)
  unfolding run
  run-Refines [] s v q = q
  run-Refines (r ∷ rs) s v q =
      elim (Next-cases o max_failures workers time height distinct
        (round max_failures workers time height s r)) [
          | inl (t, e) ↦
              rw (e, run)
                (run-Refines rs t (round-Inv o max_failures workers time height distinct s r t v e)
                  (subst RefinesNext e (round-Refines s r v q)))
          | inr (inl (t, e)) ↦ rw (e, run) (subst RefinesNext e (round-Refines s r v q))
          | inr (inr e) ↦ rw (e, run) tt
        ]

  start-Refines :
      (g : Graph) → g.edge_set ≡ edges → ((c : Text) → g.completed c ≡ false) → Refines (start g)
  unfolding start
  start-Refines g e n = (e, ([], nothing n))

module _ (events : TxRawResult → List ClaimEvent) (txs : List (Option TxRawResult))
    (by_id : Text → Option TxRawResult) (g : Graph)
    (built : build_dependencies events (new_block_tx_graph txs by_id) ≡ graph g)
    (distinct : (c : Text) → occ c (order_of txs) ≤ 1) (max_failures workers time height : ℕ)
    (rounds : List Round) (s : Loop) where
  run-Sequential :
      RefinesNext
        (order_of txs)
        max_failures
        workers
        time
        height
        distinct
        g.edge_set
        (run max_failures workers time height (start g) rounds)
  run-Sequential =
      let v = build_dependencies-IsBuilt events txs by_id g built in
      run-Refines (order_of txs) max_failures workers time height distinct g.edge_set rounds
        (start g) (kept events txs by_id g built distinct max_failures workers time height rounds s)
        (start-Refines (order_of txs) max_failures workers time height distinct g.edge_set g refl
          v.none_completed)

  pub again-Refines :
      run max_failures workers time height (start g) rounds ≡ again s
      → Refines (order_of txs) max_failures workers time height distinct g.edge_set s
  again-Refines e =
      subst (RefinesNext (order_of txs) max_failures workers time height distinct g.edge_set) e
        run-Sequential

  -- Let the graph of a block be built without failing, and let no transaction id stand twice in the
  -- block. Whatever a run of the scheduler on that graph was like, once it has left its loop the
  -- completed transactions are those that some sequential run has processed, one after the other,
  -- each once and after all its dependencies in the graph; each of them was reported by a worker
  -- without an error; and if the scheduler ends in success, this sequential run has processed each
  -- transaction of the block.
  pub run_refines :
      (cleanup : List Text → Option TxError)
      → run max_failures workers time height (start g) rounds ≡ left s
      → (log : List Text) × Sequential (order_of txs) g.edge_set s.graph.completed log
        × All (Delivered max_failures workers time height (start g) rounds) log
        × (finish cleanup s ≡ success → (c : Text) → occ c log ≡ occ c (order_of txs))
  run_refines cleanup e =
      let (_, (log, r)) =
        subst (RefinesNext (order_of txs) max_failures workers time height distinct g.edge_set) e
          run-Sequential in
      (
        log,
        r,
        All-log r (λ c.
            completed-Delivered events txs by_id g built distinct max_failures workers time height
              rounds s c e),
        λ done c.
            let once = occ-log r c in
            let within = log-in_order r c in
            let all_done =
              (success_completes events txs by_id g built distinct max_failures workers time height
                rounds s cleanup e done c) in
            elim (Bool-cases (s.graph.completed c)) [
              | inl t ↦ ground (arith, distinct c)
              | inr f ↦ elim (dec_lt 0 (occ c (order_of txs))) [
                | yes h ↦ absurd (ground (arith, (all_done h).0))
                | no h ↦ ground (arith, distinct c)
              ]
            ],
      )
