-- ===== src/Tests/Scheduler.antt =====
-- A block of three transactions, of which the last two spend outputs of the first.
use chainquery.Processing.Graph.Counts.{occ}
use chainquery.Processing.Scheduler.Refinement.{run_refines, Sequential}
use chainquery.Processing.Scheduler.{
  success, TxToProcess, tx_failed, finish, drain, run_scheduled_tx, remove_at, dispatch, receive,
  select, after_dispatch, fill, round, run, Loop, Round, Next, start, finished, again, left,
  impossible,
}
use chainquery.Processing.Scheduler.Safety.{
  stall_is_blocked, HasOpenDependency, DependenciesDone, success_completes,
}
use chainquery.Processing.Graph.{
  release_edges, release_children, edge_lt, edge_discrete, Graph, has_edge, order_of,
  new_block_tx_graph, add_edge, add_dependency, add_utxo_edges, add_utxo_loop,
  add_utxo_dependencies, ClaimEvent, add_claim_events, add_claim_loop, add_claim_dependencies,
  order_index, insert_edge, sort_edges, sort_children, ready_of, Built, finish_build,
  build_dependencies, graph,
}
use chainquery.Processing.Errors.{TxError}
use chainquery.Processing.Graph.Build.{IsBuilt, build_dependencies-IsBuilt}
use chainquery.Processing.Scheduler.Failure.{results_of, terminal_drains}
use chainquery.Processing.Scheduler.Order.{in_flight_safe, SpentDone}
use chainquery.Processing.Scheduler.Delivered.{Delivered}
use chainquery.Processing.Scheduler.Invariant.{job_occ}
use chainquery.Prelude.{
  ◌≤◌, ◌≡◌, refl, ite, true, false, Option, none, some, List, [], ◌∷◌, arith, All,
}
use chainquery.Prelude.Text.{Text, text, text_discrete}
use chainquery.Processing.Tx.{TxRawResult}

abbrev a : Text
a = text "a"

abbrev b : Text
b = text "b"

abbrev c : Text
c = text "c"

abbrev spends : Text → Text → TxRawResult
spends id source = record { tx_id = id; vin = record { tx_id = source; vout = 0 } ∷ []; vout = [] }

abbrev by_id : Text → Option TxRawResult
by_id id = ite (text_discrete id a) (some (spends a [])) (
    ite (text_discrete id b) (some (spends b a))
      (ite (text_discrete id c) (some (spends c a)) none))

abbrev txs : List (Option TxRawResult)
txs = some (spends a []) ∷ some (spends b a) ∷ some (spends c a) ∷ []

abbrev events : TxRawResult → List ClaimEvent
events tx = []

abbrev graph_of : Built → Graph
graph_of (graph g) = g
graph_of _ = new_block_tx_graph txs by_id

abbrev g : Graph
g = graph_of (build_dependencies events (new_block_tx_graph txs by_id))

abbrev state_of : Next → Loop
state_of (again s) = s
state_of (left s) = s
state_of impossible = start g

abbrev done : Round
done = record { offers = []; event = finished 0 none false }

abbrev two : List Round
two = done ∷ done ∷ []

built : build_dependencies events (new_block_tx_graph txs by_id) ≡ graph g
unfolding text_discrete build_dependencies new_block_tx_graph order_of add_utxo_dependencies
    add_utxo_loop add_utxo_edges add_dependency add_edge has_edge edge_discrete
    add_claim_dependencies add_claim_loop add_claim_events sort_children sort_edges insert_edge
    order_index finish_build ready_of
built = refl

distinct : (x : Text) → occ x (order_of txs) ≤ 1
unfolding order_of
distinct x = ground arith

abbrev after : List Round → Loop
after rounds = state_of (run 3 2 100 7 (start g) rounds)

halfway : run 3 2 100 7 (start g) two ≡ again (after two)
unfolding text_discrete build_dependencies new_block_tx_graph order_of add_utxo_dependencies
    add_utxo_loop add_utxo_edges add_dependency add_edge has_edge edge_discrete
    add_claim_dependencies add_claim_loop add_claim_events sort_children sort_edges insert_edge
    order_index finish_build ready_of edge_lt run round fill after_dispatch select receive dispatch
    remove_at run_scheduled_tx start release_children release_edges drain finish
halfway = refl

in_flight_safe_example :
    DependenciesDone c (after two).graph
    × SpentDone (order_of txs) by_id c (after two).graph
    × ((after two).graph.completed c ≡ false)
    × (job_occ c (after two).in_flight ≡ 1)
unfolding text_discrete build_dependencies new_block_tx_graph order_of add_utxo_dependencies
    add_utxo_loop add_utxo_edges add_dependency add_edge has_edge edge_discrete
    add_claim_dependencies add_claim_loop add_claim_events sort_children sort_edges insert_edge
    order_index finish_build ready_of edge_lt run round fill after_dispatch select receive dispatch
    remove_at run_scheduled_tx start release_children release_edges drain finish
in_flight_safe_example =
    in_flight_safe events txs by_id g built distinct 3 2 100 7 two (after two) halfway refl c
      (omega arith)

abbrev solo : List (Option TxRawResult)
solo = some (spends a []) ∷ []

abbrev solo_graph : Graph
solo_graph = graph_of (build_dependencies events (new_block_tx_graph solo by_id))

abbrev solo_end : Loop
solo_end = state_of (run 3 2 100 7 (start solo_graph) (done ∷ done ∷ []))

success_completes_example :
    (solo_end.graph.completed a ≡ true)
    × Delivered 3 2 100 7 (start solo_graph) (done ∷ done ∷ []) a
unfolding text_discrete build_dependencies new_block_tx_graph order_of add_utxo_dependencies
    add_utxo_loop add_utxo_edges add_dependency add_edge has_edge edge_discrete
    add_claim_dependencies add_claim_loop add_claim_events sort_children sort_edges insert_edge
    order_index finish_build ready_of edge_lt run round fill after_dispatch select receive dispatch
    remove_at run_scheduled_tx start release_children release_edges drain finish
success_completes_example =
    success_completes events solo by_id solo_graph refl (λ x. ground arith) 3 2 100 7
      (done ∷ done ∷ []) solo_end (λ _. none) refl refl a (omega arith)

run_refines_example :
    (log : List Text) × Sequential (order_of solo) solo_graph.edge_set solo_end.graph.completed log
    × All (Delivered 3 2 100 7 (start solo_graph) (done ∷ done ∷ [])) log
    × (finish (λ _. none) solo_end ≡ success → (x : Text) → occ x log ≡ occ x (order_of solo))
unfolding text_discrete build_dependencies new_block_tx_graph order_of add_utxo_dependencies
    add_utxo_loop add_utxo_edges add_dependency add_edge has_edge edge_discrete
    add_claim_dependencies add_claim_loop add_claim_events sort_children sort_edges insert_edge
    order_index finish_build ready_of edge_lt run round fill after_dispatch select receive dispatch
    remove_at run_scheduled_tx start release_children release_edges drain finish
run_refines_example =
    run_refines events solo by_id solo_graph refl (λ x. ground arith) 3 2 100 7 (done ∷ done ∷ [])
      solo_end (λ _. none) refl

-- Two transactions that spend each other, behind one that does not.
abbrev cycle_by_id : Text → Option TxRawResult
cycle_by_id id = ite (text_discrete id a) (some (spends a [])) (
    ite (text_discrete id b) (some (spends b c))
      (ite (text_discrete id c) (some (spends c b)) none))

abbrev cycle : List (Option TxRawResult)
cycle = some (spends a []) ∷ some (spends b c) ∷ some (spends c b) ∷ []

abbrev cycle_graph : Graph
cycle_graph = graph_of (build_dependencies events (new_block_tx_graph cycle cycle_by_id))

abbrev stuck : Loop
stuck = state_of (run 3 2 100 7 (start cycle_graph) (done ∷ done ∷ []))

cycle_distinct : (x : Text) → occ x (order_of cycle) ≤ 1
unfolding order_of
cycle_distinct x = ground arith

stall_is_blocked_example : HasOpenDependency b stuck.graph.completed stuck.graph.edge_set
unfolding text_discrete build_dependencies new_block_tx_graph order_of add_utxo_dependencies
    add_utxo_loop add_utxo_edges add_dependency add_edge has_edge edge_discrete
    add_claim_dependencies add_claim_loop add_claim_events sort_children sort_edges insert_edge
    order_index finish_build ready_of edge_lt run round fill after_dispatch select receive dispatch
    remove_at run_scheduled_tx start release_children release_edges drain finish
stall_is_blocked_example =
    stall_is_blocked events cycle cycle_by_id cycle_graph refl cycle_distinct 3 2 100 7
      (done ∷ done ∷ []) stuck 1 3 refl refl b (omega arith) refl

build_dependencies-IsBuilt_example : IsBuilt (order_of txs) g
build_dependencies-IsBuilt_example = build_dependencies-IsBuilt events txs by_id g built

abbrev deadlock : TxError
deadlock = record { missing = none; mysql_number = some 1213 }

abbrev job : TxToProcess
job = record { tx_id = b; block_time = 100; block_height = 7; failcount = 0 }

abbrev broken : Loop
broken = record (start g) {
  in_flight = job ∷ job ∷ [];
  active = 2;
  terminal = some (tx_failed deadlock);
}

terminal_drains_example :
    run 3 2 100 7 broken (results_of ((1, none, false) ∷ (0, some deadlock, true) ∷ []))
    ≡ left (record broken { in_flight = []; active = 0 })
unfolding text_discrete build_dependencies new_block_tx_graph order_of add_utxo_dependencies
    add_utxo_loop add_utxo_edges add_dependency add_edge has_edge edge_discrete
    add_claim_dependencies add_claim_loop add_claim_events sort_children sort_edges insert_edge
    order_index finish_build ready_of edge_lt run round fill after_dispatch select receive dispatch
    remove_at run_scheduled_tx start release_children release_edges drain finish
terminal_drains_example =
    terminal_drains 3 2 100 7 broken (tx_failed deadlock)
      ((1, none, false) ∷ (0, some deadlock, true) ∷ []) refl refl (omega arith)
      (omega arith, (omega arith, refl))
