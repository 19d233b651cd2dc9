-- ===== src/Processing/Graph.antt =====
-- The dependency graph of a block, daemon/processing/block_scheduler.go. A Go map is a function
-- that gives the zero value of its type where a key is missing.
pub mod Events
pub mod Counts
pub mod Build
pub mod Spending
use chainquery.Prelude.{
  ℕ, zero, suc, ◌+◌, ite, Bool, true, false, not, ◌&&◌, Option, none, some, List, [], ◌∷◌, ◌++◌,
  ℕ_discrete, ltb, ◌==◌, if◌then◌else◌,
}
use chainquery.Prelude.Text.{Text, text_discrete}
use chainquery.Processing.Tx.{Vin, TxRawResult}
use Prim.Native.Nat.{compare, Ordering}

-- Go's int, for the counter of open dependencies.
pub data ℤ : Type 0 where
  pos : ℕ → ℤ
  negsuc : ℕ → ℤ

abbrev pub increment : ℤ → ℤ
increment (pos n) = pos (suc n)
increment (negsuc zero) = pos 0
increment (negsuc (suc n)) = negsuc n

abbrev pub decrement : ℤ → ℤ
decrement (pos zero) = negsuc 0
decrement (pos (suc n)) = pos n
decrement (negsuc n) = negsuc (suc n)

abbrev pub is_zero : ℤ → Bool
is_zero (pos zero) = true
is_zero _ = false

pub data Reason : Type 0 where
  claim utxo : Reason

-- blockTxDependency
pub record Edge : Type 0 where
  pub parent : Text
  pub child : Text
  pub reason : Reason

unfoldable pub edge_discrete : Discrete Edge
unfolding ℕ_discrete
edge_discrete = hlevel ℕ_discrete

abbrev pub update {ℓ} : {V : Type ℓ} → (Text → V) → Text → V → Text → V
update m k v j = ite (text_discrete k j) v (m j)

-- blockTxGraph
pub record Graph : Type 0 where
  pub tx_by_id : Text → Option TxRawResult
  pub children : Text → List Edge
  pub unresolved : Text → ℤ
  pub completed : Text → Bool
  pub attempts : Text → ℕ
  pub edge_set : List Edge
  pub order : List Text
  pub ready : List Text

-- `_, ok := graph.edgeSet[edge]`
unfoldable pub has_edge : Edge → List Edge → Bool
has_edge e [] = false
has_edge e (d ∷ ds) = ite (edge_discrete d e) true (has_edge e ds)

-- The nil entries of the fetched transactions are passed over.
unfoldable pub order_of : List (Option TxRawResult) → List Text
order_of [] = []
order_of (none ∷ txs) = order_of txs
order_of (some tx ∷ txs) = tx.tx_id ∷ order_of txs

unfoldable pub new_block_tx_graph : List (Option TxRawResult) → (Text → Option TxRawResult) → Graph
unfolding order_of
new_block_tx_graph ordered_txs tx_by_id = record {
  tx_by_id = tx_by_id;
  children = λ _. [];
  unresolved = λ _. pos 0;
  completed = λ _. false;
  attempts = λ _. 0;
  edge_set = [];
  order = order_of ordered_txs;
  ready = [];
}

unfoldable pub add_edge : Graph → Edge → Graph
add_edge g e = record g {
  edge_set = g.edge_set ++ e ∷ [];
  children = update g.children e.parent (g.children e.parent ++ e ∷ []);
  unresolved = update g.unresolved e.child (increment (g.unresolved e.child));
}

unfoldable pub add_dependency : Graph → Text → Text → Reason → Graph
add_dependency g parent child reason =
    let e : Edge = record { parent = parent; child = child; reason = reason } in
    ite (text_discrete parent []) g (
      ite (text_discrete child []) g
        (ite (text_discrete parent child) g (if has_edge e g.edge_set then g else add_edge g e)))

-- The inputs of one transaction.
unfoldable pub add_utxo_edges : Graph → Text → List Vin → Graph
add_utxo_edges g tx_id [] = g
add_utxo_edges g tx_id (v ∷ vins) =
    add_utxo_edges
      (elim (g.tx_by_id v.tx_id) [ none ↦ g | some _ ↦ add_dependency g v.tx_id tx_id utxo ]) tx_id
      vins

-- A transaction that the map lacks is a nil pointer, and reading it panics.
unfoldable pub add_utxo_loop : Graph → List Text → Option Graph
add_utxo_loop g [] = some g
add_utxo_loop g (tx_id ∷ ids) = elim (g.tx_by_id tx_id) [
  | none ↦ none
  | some tx ↦ add_utxo_loop (add_utxo_edges g tx_id tx.vin) ids
]

unfoldable pub add_utxo_dependencies : Graph → Option Graph
add_utxo_dependencies g = add_utxo_loop g g.order

-- claimGraphEvent; an event is a writer or a reader.
pub record ClaimEvent : Type 0 where
  pub claim_id : Text
  pub writer : Bool
  pub reader : Bool

-- The two maps that addClaimDependencies keeps; "" is no writer.
pub record ClaimState : Type 0 where
  pub latest_writer : Text → Text
  pub waiting_readers : Text → List Text

unfoldable pub add_reader_edges : Graph → List Text → Text → Graph
add_reader_edges g [] tx_id = g
add_reader_edges g (r ∷ readers) tx_id =
    add_reader_edges (add_dependency g r tx_id claim) readers tx_id

unfoldable pub add_writer_edge : Graph → Text → Text → Graph
add_writer_edge g previous tx_id =
    ite (text_discrete previous []) g (add_dependency g previous tx_id claim)

unfoldable pub add_claim_event : Graph × ClaimState → Text → ClaimEvent → Graph × ClaimState
add_claim_event (g, s) tx_id event =
    let g' = add_writer_edge g (s.latest_writer event.claim_id) tx_id in
    if event.writer
    then (
      add_reader_edges g' (s.waiting_readers event.claim_id) tx_id,
      record {
        latest_writer = update s.latest_writer event.claim_id tx_id;
        waiting_readers = update s.waiting_readers event.claim_id [];
      },
    )
    else if event.reader
    then (
      g',
      record s {
        waiting_readers =
            update s.waiting_readers event.claim_id
              (s.waiting_readers event.claim_id ++ tx_id ∷ []);
      },
    )
    else (g, s)

unfoldable pub add_claim_events : Graph × ClaimState → Text → List ClaimEvent → Graph × ClaimState
add_claim_events gs tx_id [] = gs
add_claim_events gs tx_id (e ∷ events) = add_claim_events (add_claim_event gs tx_id e) tx_id events

module _ (claim_graph_events : TxRawResult → List ClaimEvent) where
  unfoldable pub add_claim_loop : Graph × ClaimState → List Text → Option Graph
  add_claim_loop gs [] = some gs.0
  add_claim_loop gs (tx_id ∷ ids) = elim (gs.0.tx_by_id tx_id) [
    | none ↦ none
    | some tx ↦ add_claim_loop (add_claim_events gs tx_id (claim_graph_events tx)) ids
  ]

  unfoldable pub add_claim_dependencies : Graph → Option Graph
  add_claim_dependencies g =
      add_claim_loop (g, record { latest_writer = λ _. []; waiting_readers = λ _. [] }) g.order

-- `orderIndex`: the last position of an id, and 0 for one that is not in the order.
unfoldable pub order_index : Text → ℕ → ℕ → List Text → ℕ
order_index id found i [] = found
order_index id found i (x ∷ xs) = order_index id (ite (text_discrete x id) i found) (i + 1) xs

abbrev reason_lt : Reason → Reason → Bool
reason_lt claim utxo = true
reason_lt _ _ = false

unfoldable pub edge_lt : (Text → ℕ) → Edge → Edge → Bool
edge_lt index left right =
    if index left.child == index right.child
    then reason_lt left.reason right.reason
    else ltb (index left.child) (index right.child)

-- `sort.SliceStable`, as an insertion from the right that keeps equal edges in their order.
unfoldable pub insert_edge : (Text → ℕ) → Edge → List Edge → List Edge
unfolding edge_lt
insert_edge index e [] = e ∷ []
insert_edge index e (d ∷ ds) = if edge_lt index d e then d ∷ insert_edge index e ds else e ∷ d ∷ ds

unfoldable pub sort_edges : (Text → ℕ) → List Edge → List Edge
sort_edges index [] = []
sort_edges index (e ∷ es) = insert_edge index e (sort_edges index es)

-- Each list of children is sorted by itself, so the order of Go's map iteration does not matter.
unfoldable pub sort_children : Graph → Graph
sort_children g = record g {
  children = λ p. sort_edges (λ id. order_index id 0 0 g.order) (g.children p);
}

unfoldable pub ready_of : (Text → ℤ) → List Text → List Text
ready_of unresolved [] = []
ready_of unresolved (id ∷ ids) =
    let rest = ready_of unresolved ids in if is_zero (unresolved id) then id ∷ rest else rest

abbrev pub is_empty {ℓ} : {A : Type ℓ} → List A → Bool
is_empty [] = true
is_empty (x ∷ xs) = false

-- The outcomes of buildDependencies: a graph, ErrDependencyGraphStalled, or a nil pointer.
pub data Built : Type 0 where
  graph : Graph → Built
  stalled nil_pointer : Built

unfoldable pub finish_build : Graph → Built
finish_build g =
    let g' = record g { ready = g.ready ++ ready_of g.unresolved g.order } in
    if is_empty g'.ready && not (is_empty g'.order) then stalled else graph g'

unfoldable pub build_dependencies : (TxRawResult → List ClaimEvent) → Graph → Built
build_dependencies claim_graph_events g = elim (add_utxo_dependencies g) [
  | none ↦ nil_pointer
  | some g1 ↦ elim (add_claim_dependencies claim_graph_events g1) [
    | none ↦ nil_pointer
    | some g2 ↦ finish_build (sort_children g2)
  ]
]

-- The open dependencies of a child on a completed transaction are closed one by one.
unfoldable pub release_edges : Graph → List Edge → Graph
release_edges g [] = g
release_edges g (e ∷ es) =
    let left = decrement (g.unresolved e.child) in
    release_edges
      (record g {
        unresolved = update g.unresolved e.child left;
        ready = if is_zero left then g.ready ++ e.child ∷ [] else g.ready;
      })
      es

unfoldable pub release_children : Graph → Text → Graph
release_children g tx_id = release_edges g (g.children tx_id)
