-- ===== src/Processing/Scheduler/Safety.antt =====
-- The scheduler on the graph of a block: order of dependencies, completion, stalls.
use chainquery.Processing.Scheduler.Runs.{fill-Inv, Kept, run-Inv, run_left}
use chainquery.Processing.Scheduler.{
  fill, graph_stalled, TxToProcess, is_idle, Loop, Round, run, start, finish, again, left, success,
}
use chainquery.Processing.Scheduler.Delivered.{left-Delivered, Delivered}
use chainquery.Processing.Scheduler.Stalled.{run-StalledAt}
use chainquery.Processing.Graph.Counts.{same, count_if-le, occ, is_open}
use chainquery.Prelude.{
  ℕ, ◌≤◌, ◌<◌, ◌≡◌, sym, ap, subst, ◌∙◌, ◌⊎◌, inl, inr, Bool, true, false, Option, none, some, List,
  [], ◌∷◌, arith, Bool-cases, All, count_if,
}
use chainquery.Prelude.Text.{Text}
use chainquery.Processing.Tx.{TxRawResult}
use chainquery.Processing.Errors.{TxError}
use chainquery.Processing.Graph.{
  Edge, Graph, order_of, new_block_tx_graph, ClaimEvent, build_dependencies, graph,
}
use chainquery.Processing.Graph.Build.{build_dependencies-IsBuilt}
use chainquery.Processing.Scheduler.Invariant.{Inv, start-Inv}

-- Every dependency of `c` has been completed.
abbrev pub DependenciesDone : Text → Graph → Type 0
DependenciesDone c g = All (λ e. e.child ≡ c → g.completed e.parent ≡ true) g.edge_set

-- Some dependency of `c` has not been completed.
abbrev pub HasOpenDependency : Text → (Text → Bool) → List Edge → Type 0
HasOpenDependency c completed [] = ⊥
HasOpenDependency c completed (e ∷ es) =
    ((e.child ≡ c) × (completed e.parent ≡ false)) ⊎ HasOpenDependency c completed es

pub none_open :
    (completed : Text → Bool) (c : Text) (es : List Edge)
    → count_if (is_open completed c) es ≡ 0
    → All (λ e. e.child ≡ c → completed e.parent ≡ true) es
none_open completed c [] h = tt
none_open completed c (e ∷ es) h = (ground arith, none_open completed c es (ground arith))

some_open :
    (completed : Text → Bool) (c : Text) (es : List Edge)
    → 0 < count_if (is_open completed c) es
    → HasOpenDependency c completed es
some_open completed c [] h = absurd (omega arith)
some_open completed c (e ∷ es) h = elim (Bool-cases (is_open completed c e)) [
  | inl p ↦ inl (ground arith, ground arith)
  | inr p ↦ inr (some_open completed c es (ground arith))
]

module _ (o : List Text) (workers : ℕ) (f : Loop) (v : Inv o workers f) (idle : is_idle f ≡ true)
    (c : Text) (inside : 0 < occ c o) (open_yet : f.graph.completed c ≡ false) where
  idle_blocked : HasOpenDependency c f.graph.completed f.graph.edge_set
  idle_blocked = some_open f.graph.completed c f.graph.edge_set (
      ground (
        arith,
        v.places c,
        v.counted.counters c,
        v.active_jobs,
        v.pending,
        count_if-le (λ (j : TxToProcess). same j.tx_id c) f.in_flight,
        count_if-le (λ (x : Text). same x c) f.retries,
      ))

module _ (events : TxRawResult → List ClaimEvent) (txs : List (Option TxRawResult))
    (by_id : Text → Option TxRawResult) (g : Graph)
    (built : build_dependencies events (new_block_tx_graph txs by_id) ≡ graph g)
    (distinct : (c : Text) → occ c (order_of txs) ≤ 1) (max_failures workers time height : ℕ)
    (rounds : List Round) (s : Loop) where
  pub kept : Kept (order_of txs) max_failures workers time height distinct (start g)
  kept _ = start-Inv (order_of txs) workers g (build_dependencies-IsBuilt events txs by_id g built)

  pub reached :
      run max_failures workers time height (start g) rounds ≡ again s
      → s.terminal ≡ none
      → Inv (order_of txs) workers s
  reached = run-Inv (order_of txs) max_failures workers time height distinct rounds (start g) s kept

  -- Whatever is completed when the loop is left was reported by a worker.
  pub completed-Delivered :
      (c : Text)
      → run max_failures workers time height (start g) rounds ≡ left s
      → s.graph.completed c ≡ true
      → Delivered max_failures workers time height (start g) rounds c
  unfolding start
  completed-Delivered c e done =
      let v = build_dependencies-IsBuilt events txs by_id g built in
      elim (left-Delivered max_failures workers time height c rounds (start g) s e done) [
        | inl before ↦ absurd (ground (arith, v.none_completed c))
        | inr later ↦ later
      ]

  -- Let the graph of a block be built without failing, and let no transaction id stand twice in the
  -- block. If a run of the scheduler on that graph leaves its loop and ends in success, every
  -- transaction of the block is completed, and a worker has reported it without an error.
  pub success_completes :
      (cleanup : List Text → Option TxError)
      → run max_failures workers time height (start g) rounds ≡ left s
      → finish cleanup s ≡ success
      → (c : Text) → 0 < occ c (order_of txs)
      → (s.graph.completed c ≡ true) × Delivered max_failures workers time height (start g) rounds c
  unfolding finish
  success_completes cleanup e f c h =
      let done =
        run_left (order_of txs) max_failures workers time height distinct rounds (start g) s kept e
          (ground arith) c h in
      (done, completed-Delivered c e done)

  -- Let the graph of a block be built without failing, and let no transaction id stand twice in the
  -- block. If a run of the scheduler on that graph leaves its loop with the error that the
  -- dependency graph is stalled, each transaction of the block that is not completed has a
  -- dependency that is not completed either.
  pub stall_is_blocked :
      (n total : ℕ)
      → run max_failures workers time height (start g) rounds ≡ left s
      → s.terminal ≡ some (graph_stalled n total)
      → (c : Text) → 0 < occ c (order_of txs)
      → s.graph.completed c ≡ false
      → HasOpenDependency c s.graph.completed s.graph.edge_set
  unfolding start
  stall_is_blocked n total e stall_error c h k =
      let o = order_of txs in
      let (before, t, r, there, (quiet, idle, end)) =
        run-StalledAt max_failures workers time height rounds (start g) s n total (λ m l x. cc) e
          stall_error in
      let f = fill workers time height t r.offers in
      let v =
        fill-Inv o max_failures workers time height distinct t r.offers
          (run-Inv o max_failures workers time height distinct before (start g) t kept there)
          quiet in
      subst (λ (x : Loop). HasOpenDependency c x.graph.completed x.graph.edge_set) (sym end)
        (idle_blocked o workers f v idle c h (ap (λ (x : Loop). x.graph.completed c) (sym end) ∙ k))
