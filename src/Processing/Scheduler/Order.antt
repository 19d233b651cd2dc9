-- ===== src/Processing/Scheduler/Order.antt =====
-- A worker only holds a transaction whose dependencies are all completed.
use chainquery.Processing.Graph.Spending.{build_dependencies-spends, SpendsOutputOf, spent_edge}
use chainquery.Processing.Scheduler.Refinement.{again-Refines}
use chainquery.Processing.Scheduler.Safety.{none_open, reached, DependenciesDone}
use chainquery.Processing.Scheduler.Invariant.{job_occ}
use chainquery.Processing.Scheduler.{again, run, Loop, Round, start}
use chainquery.Processing.Graph.{
  order_of, graph, edge_discrete, new_block_tx_graph, build_dependencies, ClaimEvent, Edge, Graph,
  has_edge,
}
use chainquery.Processing.Graph.Counts.{occ}
use chainquery.Processing.Tx.{TxRawResult}
use chainquery.Prelude.{
  ℕ, ◌≤◌, ◌<◌, ◌≡◌, sym, ap, ◌∙◌, if_neg, Bool, true, false, Option, none, List, [], ◌∷◌, arith,
  All,
}
use chainquery.Prelude.Text.{Text}

-- Every transaction of the block of which `c` spends an output has been completed.
abbrev pub SpentDone : List Text → (Text → Option TxRawResult) → Text → Graph → Type 0
SpentDone order by_id c g = (p : Text) → SpendsOutputOf order by_id p c → g.completed p ≡ true

done_at :
    (completed : Text → Bool) (p c : Text) (es : List Edge)
    → All (λ e. e.child ≡ c → completed e.parent ≡ true) es
    → has_edge (spent_edge p c) es ≡ true
    → completed p ≡ true
unfolding has_edge
done_at completed p c [] all h = absurd (ground arith)
done_at completed p c (e ∷ es) (now, later) h = elim (edge_discrete e (spent_edge p c)) [
  | yes same_edge ↦
      ap completed (sym (ap (λ x. x.parent) same_edge)) ∙ now (ap (λ x. x.child) same_edge)
  | no other ↦
      done_at completed p c es later
        (sym (if_neg (edge_discrete e (spent_edge p c)) other true _) ∙ h)
]

module _ (events : TxRawResult → List ClaimEvent) (txs : List (Option TxRawResult))
    (by_id : Text → Option TxRawResult) (g : Graph)
    (built : build_dependencies events (new_block_tx_graph txs by_id) ≡ graph g)
    (distinct : (c : Text) → occ c (order_of txs) ≤ 1) (max_failures workers time height : ℕ)
    (rounds : List Round) (s : Loop) where
  -- Let the graph of a block be built without failing, and let no transaction id stand twice in the
  -- block. Wherever a run of the scheduler on that graph stands without a terminal error, a
  -- transaction that a worker holds has all its dependencies in the graph completed, and so is
  -- every other transaction of the block whose output it spends; it is not completed itself, and is
  -- held by one worker only.
  pub in_flight_safe :
      run max_failures workers time height (start g) rounds ≡ again s
      → s.terminal ≡ none
      → (c : Text) → 0 < job_occ c s.in_flight
      → DependenciesDone c s.graph
        × SpentDone (order_of txs) by_id c s.graph
        × (s.graph.completed c ≡ false)
        × (job_occ c s.in_flight ≡ 1)
  in_flight_safe e t c h =
      let v =
        reached events txs by_id g built distinct max_failures workers time height rounds s e t in
      let all =
        none_open s.graph.completed c s.graph.edge_set
          (ground (arith, v.places c, v.counted.counters c)) in
      let same_edges =
        (again-Refines events txs by_id g built distinct max_failures workers time height rounds s
          e).0 in
      (
        all,
        λ p spends.
            done_at s.graph.completed p c s.graph.edge_set all
              (rw same_edges (build_dependencies-spends events txs by_id g p c built spends)),
        ground (arith, v.places c, distinct c),
        ground (arith, v.places c, distinct c),
      )
