-- ===== src/Processing/Scheduler/Invariant.antt =====
-- Where each transaction of a block stands while the scheduler runs without a terminal error.
use chainquery.Processing.Scheduler.{
  job_of, off_flight, after_success, dispatched, TxToProcess, Loop, Offer, remove_at, dispatch,
  start, sent, stopped_before, stopped_sending,
}
use chainquery.Prelude.{
  ℕ, zero, suc, ◌+◌, ◌-◌, ◌≤◌, ◌<◌, ◌≡◌, refl, sym, ap, ◌∙◌, Bool, false, none, some, List, [], ◌∷◌,
  ◌++◌, arith, if◌then◌else◌, length, get_elem?, length-append, count_if,
}
use chainquery.Prelude.Text.{Text}
use chainquery.Processing.Graph.{is_zero, Graph}
use chainquery.Processing.Graph.Counts.{count_if-append, same, occ, is_child}
use chainquery.Processing.Graph.Build.{IsCounted, IsBuilt}
use chainquery.Processing.Scheduler.Release.{
  completing_frame, completing-IsCounted, ready-completing, completing_zero, completing_target,
  count_if-completed,
}

abbrev pub job_occ : Text → List TxToProcess → ℕ
job_occ c = count_if (λ j. same j.tx_id c)

abbrev pub one_if : Bool → ℕ
one_if b = if b then 1 else 0

-- `order` is the order of the block and `workers` the number of workers. A transaction without
-- open dependencies is in one place: ready, with a worker, waiting to be tried again, or
-- completed; one with an open dependency is in none.
pub record Inv (order : List Text) (workers : ℕ) (s : Loop) : Type 0 where
  pub counted : IsCounted s.graph
  pub targets : (c : Text) → 0 < count_if (is_child c) s.graph.edge_set → 0 < occ c order
  pub same_order : s.graph.order ≡ order
  pub places :
      (c : Text)
      → occ c s.graph.ready + job_occ c s.in_flight + occ c s.retries + one_if (s.graph.completed c)
        ≡ (if is_zero (s.graph.unresolved c) then occ c order else 0)
  pub active_jobs : s.active ≡ length s.in_flight
  pub pending : s.pending_retries ≡ length s.retries
  pub within : s.active ≤ workers
  pub progress : s.completed ≡ count_if s.graph.completed order

module _ {ℓ} {A : Type ℓ} where
  pub count_if-remove_at :
      (p : A → Bool) (i : ℕ) (xs : List A) (x : A)
      → get_elem? xs i ≡ some x
      → count_if p xs
        ≡ (if p x then suc (count_if p (remove_at i xs)) else count_if p (remove_at i xs))
  unfolding remove_at
  count_if-remove_at p i [] x e = cc
  count_if-remove_at p zero (y ∷ xs) x e = ground arith
  count_if-remove_at p (suc i) (y ∷ xs) x e = ground (arith, count_if-remove_at p i xs x e)

  pub length-remove_at :
      (i : ℕ) (xs : List A) (x : A)
      → get_elem? xs i ≡ some x
      → length xs ≡ suc (length (remove_at i xs))
  unfolding remove_at
  length-remove_at i [] x e = cc
  length-remove_at zero (y ∷ xs) x e = refl
  length-remove_at (suc i) (y ∷ xs) x e = ap suc (length-remove_at i xs x e)

count_if-none :
    {A : Type 0} (p : A → Bool) (xs : List A) → ((x : A) → p x ≡ false) → count_if p xs ≡ 0
count_if-none p [] h = refl
count_if-none p (x ∷ xs) h = ground (arith, h x, count_if-none p xs h)

-- A graph that has been built starts in the invariant.
pub start-Inv : (o : List Text) (workers : ℕ) (g : Graph) → IsBuilt o g → Inv o workers (start g)
unfolding start
start-Inv o workers g v = record {
  counted = v.counted;
  targets = v.targets;
  same_order = v.same_order;
  places = λ c. ground (arith, v.ready_ids c, v.none_completed c);
  active_jobs = refl;
  pending = refl;
  within = omega arith;
  progress = sym (count_if-none g.completed o v.none_completed);
}

module _ (o : List Text) (workers time height : ℕ) where
  dispatched-Inv :
      (s : Loop) (id : Text) (rest : List Text)
      → s.graph.ready ≡ id ∷ rest
      → s.active < workers
      → Inv o workers s
      → Inv o workers (dispatched time height s id rest)
  dispatched-Inv s id rest e h v = record {
    counted = record { counters = v.counted.counters; lists = v.counted.lists };
    targets = v.targets;
    same_order = v.same_order;
    places = λ c. ground (
      arith,
      v.places c,
      ap (occ c) e,
      count_if-append (λ (j : TxToProcess). same j.tx_id c) s.in_flight
          (job_of time height s.graph id ∷ []),
    );
    active_jobs =
        omega
          (arith, v.active_jobs, length-append s.in_flight (job_of time height s.graph id ∷ []));
    pending = v.pending;
    within = omega arith;
    progress = v.progress;
  }

  -- Sending the ready transactions keeps the invariant, unless the stopper was seen.
  pub dispatch-Inv :
      (capacity : ℕ) (offers : List Offer) (ready : List Text) (s : Loop)
      → s.graph.ready ≡ ready
      → s.active + capacity ≤ workers
      → Inv o workers s
      → (dispatch time height capacity offers ready s).terminal ≡ none
      → Inv o workers (dispatch time height capacity offers ready s)
  unfolding dispatch
  dispatch-Inv zero offers ready s e h v t = v
  dispatch-Inv (suc k) offers [] s e h v t = v
  dispatch-Inv (suc k) [] (id ∷ rest) s e h v t =
      dispatch-Inv k [] rest (dispatched time height s id rest) refl (omega arith)
        (dispatched-Inv s id rest e (omega arith) v) t
  dispatch-Inv (suc k) (sent ∷ offers) (id ∷ rest) s e h v t =
      dispatch-Inv k offers rest (dispatched time height s id rest) refl (omega arith)
        (dispatched-Inv s id rest e (omega arith) v) t
  dispatch-Inv (suc k) (stopped_before ∷ offers) (id ∷ rest) s e h v t = cc
  dispatch-Inv (suc k) (stopped_sending ∷ offers) (id ∷ rest) s e h v t = cc

module _ (o : List Text) (workers : ℕ) (distinct : (c : Text) → occ c o ≤ 1) where
  module _ (s : Loop) (v : Inv o workers s) (i : ℕ) (job : TxToProcess)
      (e : get_elem? s.in_flight i ≡ some job) where
    -- A transaction with a worker is not completed.
    pub fresh : s.graph.completed job.tx_id ≡ false
    fresh = ground (
      arith,
      v.places job.tx_id,
      distinct job.tx_id,
      count_if-remove_at (λ (j : TxToProcess). same j.tx_id job.tx_id) i s.in_flight job e,
    )

    here_once : occ job.tx_id o ≡ 1
    here_once = ground (
      arith,
      v.places job.tx_id,
      distinct job.tx_id,
      count_if-remove_at (λ (j : TxToProcess). same j.tx_id job.tx_id) i s.in_flight job e,
    )

    pub success-Inv : Inv o workers (after_success (off_flight s i) job.tx_id)
    success-Inv =
        let id = job.tx_id in
        let (done, edges, _, order, _, _) = completing_frame s.graph id in
        record {
          counted = completing-IsCounted s.graph id v.counted fresh;
          targets = λ c. rw edges (v.targets c);
          same_order = order ∙ v.same_order;
          places = λ c. ground (
            arith,
            v.places c,
            distinct c,
            ap (λ (f : Text → Bool). f c) done,
            ready-completing s.graph id v.counted fresh c,
            completing_zero s.graph id v.counted fresh c,
            completing_target s.graph id v.counted fresh c,
            v.targets c,
            count_if-remove_at (λ (j : TxToProcess). same j.tx_id c) i s.in_flight job e,
          );
          active_jobs = omega (arith, v.active_jobs, length-remove_at i s.in_flight job e);
          pending = v.pending;
          within = omega (arith, v.within);
          progress = rw done (
              omega
                (arith, v.progress, here_once, count_if-completed s.graph.completed id o fresh));
        }

    -- A job that failed and is tried again.
    pub retried-Inv :
        (attempts : Text → ℕ)
        → Inv o workers (record (off_flight s i) {
          graph = record (s.graph) { attempts = attempts };
          retries = s.retries ++ job.tx_id ∷ [];
          pending_retries = suc s.pending_retries;
        })
    retried-Inv attempts = record {
      counted = record { counters = v.counted.counters; lists = v.counted.lists };
      targets = v.targets;
      same_order = v.same_order;
      places = λ c. ground (
        arith,
        v.places c,
        count_if-append (λ (x : Text). same x c) s.retries (job.tx_id ∷ []),
        count_if-remove_at (λ (j : TxToProcess). same j.tx_id c) i s.in_flight job e,
      );
      active_jobs = omega (arith, v.active_jobs, length-remove_at i s.in_flight job e);
      pending = omega (arith, v.pending, length-append s.retries (job.tx_id ∷ []));
      within = omega (arith, v.within);
      progress = v.progress;
    }

  module _ (s : Loop) (v : Inv o workers s) (i : ℕ) (id : Text)
      (e : get_elem? s.retries i ≡ some id) where
    -- An id whose backoff is over is ready again.
    pub retry_ready-Inv : Inv o workers (record s {
      retries = remove_at i s.retries;
      pending_retries = s.pending_retries - 1;
      graph = record (s.graph) { ready = s.graph.ready ++ id ∷ [] };
    })
    retry_ready-Inv = record {
      counted = record { counters = v.counted.counters; lists = v.counted.lists };
      targets = v.targets;
      same_order = v.same_order;
      places = λ c. ground (
        arith,
        v.places c,
        count_if-append (λ (x : Text). same x c) s.graph.ready (id ∷ []),
        count_if-remove_at (λ (x : Text). same x c) i s.retries id e,
      );
      active_jobs = v.active_jobs;
      pending = omega (arith, v.pending, length-remove_at i s.retries id e);
      within = v.within;
      progress = v.progress;
    }
