-- ===== src/Processing/Graph/Build.antt =====
-- The graph of a block is well formed: its counters count its edges.
use chainquery.Processing.Graph.{
  order_of, graph, new_block_tx_graph, finish_build, add_claim_dependencies, order_index,
  add_utxo_dependencies, ℤ, build_dependencies, is_zero, ready_of, sort_children, add_claim_events,
  add_claim_loop, ClaimEvent, ClaimState, utxo, add_writer_edge, claim, Edge, add_claim_event,
  add_edge, add_reader_edges, add_utxo_edges, add_utxo_loop, has_edge, Reason, Graph,
  add_dependency, pos,
}
use chainquery.Processing.Graph.Counts.{
  count_if-sort, same, count_if-append, occ, is_child, joins, is_open,
}
use chainquery.Processing.Tx.{TxRawResult, Vin}
use chainquery.Prelude.Text.{text_discrete, Text}
use mathlib.Core.Option.{some-injective}
use chainquery.Prelude.{
  ◌<◌, ◌≡◌, refl, sym, subst, ◌∙◌, ◌≢◌, ◌⊎◌, inl, inr, if_pos, if_neg, Bool, true, false, Option,
  some, List, [], ◌∷◌, ◌++◌, append_assoc, arith, if◌then◌else◌, Bool-cases, Option-cases, All,
  count_if,
}

-- The counter of an id is the number of edges that lead to it from a transaction that is not
-- completed, and the children of an id are its edges.
pub record IsCounted (g : Graph) : Type 0 where
  pub counters : (c : Text) → g.unresolved c ≡ pos (count_if (is_open g.completed c) g.edge_set)
  pub lists : (p c : Text) → count_if (is_child c) (g.children p) ≡ count_if (joins p c) g.edge_set

-- The state in which edges are added: nothing is completed, and every edge leads to an id of the
-- order.
pub record IsOpen (o : List Text) (g : Graph) : Type 0 where
  pub counted : IsCounted g
  pub none_completed : (c : Text) → g.completed c ≡ false
  pub targets : (c : Text) → 0 < count_if (is_child c) g.edge_set → 0 < occ c o
  pub same_order : g.order ≡ o
  pub none_ready : g.ready ≡ []

abbrev edge : Text → Text → Reason → Edge
edge p c r = record { parent = p; child = c; reason = r }

-- A dependency is either not added, or a new edge between two different ids.
pub add_dependency-cases :
    (g : Graph) (p c : Text) (r : Reason)
    → (add_dependency g p c r ≡ g)
      ⊎ ((p ≢ c)
          × (p ≢ [])
          × (has_edge (edge p c r) g.edge_set ≡ false)
          × (add_dependency g p c r ≡ add_edge g (edge p c r)))
unfolding add_dependency
add_dependency-cases g p c r = elim (text_discrete p []) [
  | yes hp ↦ inl (ground arith)
  | no hp ↦ elim (text_discrete c []) [
    | yes hc ↦ inl (ground arith)
    | no hc ↦ elim (text_discrete p c) [
      | yes hpc ↦ inl (ground arith)
      | no hpc ↦ elim (Bool-cases (has_edge (edge p c r) g.edge_set)) [
        | inl old ↦ inl (ground arith)
        | inr new ↦ inr (hpc, hp, new, ground arith)
      ]
    ]
  ]
]

add_edge-IsOpen :
    (o : List Text) (g : Graph) (e : Edge)
    → 0 < occ e.child o
    → IsOpen o g
    → IsOpen o (add_edge g e)
unfolding add_edge
add_edge-IsOpen o g e h v = record {
  counted = record {
    counters = λ d. ground (
      arith,
      v.counted.counters d,
      v.none_completed e.parent,
      count_if-append (is_open g.completed d) g.edge_set (e ∷ []),
    );
    lists = λ q d. ground (
      arith,
      v.counted.lists q d,
      count_if-append (joins q d) g.edge_set (e ∷ []),
      count_if-append (is_child d) (g.children q) (e ∷ []),
    );
  };
  none_completed = v.none_completed;
  targets = λ d. ground (arith, v.targets d, count_if-append (is_child d) g.edge_set (e ∷ []));
  same_order = v.same_order;
  none_ready = v.none_ready;
}

add_dependency-IsOpen :
    (o : List Text) (g : Graph) (p c : Text) (r : Reason)
    → 0 < occ c o
    → IsOpen o g
    → IsOpen o (add_dependency g p c r)
add_dependency-IsOpen o g p c r h v = elim (add_dependency-cases g p c r) [
  | inl e ↦ rw e v
  | inr (_, _, _, e) ↦ rw e (add_edge-IsOpen o g (edge p c r) h v)
]

-- What adding an edge keeps, the two loops keep: every edge leads to the transaction at hand.
module _ (P : Graph → Type 0) (o : List Text)
    (keep : (g : Graph) (p c : Text) (r : Reason)
      → 0 < occ c o
      → P g
      → P (add_dependency g p c r)) where
  pub add_utxo_edges-keep :
      (vins : List Vin) (g : Graph) (c : Text) → 0 < occ c o → P g → P (add_utxo_edges g c vins)
  unfolding add_utxo_edges
  add_utxo_edges-keep [] g c h v = v
  add_utxo_edges-keep (x ∷ vins) g c h v = elim (Option-cases (g.tx_by_id x.tx_id)) [
    | inl e ↦ rw (e, add_utxo_edges) (add_utxo_edges-keep vins g c h v)
    | inr (_, e) ↦
        rw (e, add_utxo_edges)
          (add_utxo_edges-keep vins (add_dependency g x.tx_id c utxo) c h
            (keep g x.tx_id c utxo h v))
  ]

  pub add_utxo_loop-keep :
      (ids : List Text) (g : Graph)
      → All (λ id. 0 < occ id o) ids
      → P g
      → (g' : Graph) → add_utxo_loop g ids ≡ some g'
      → P g'
  unfolding add_utxo_loop
  add_utxo_loop-keep [] g a v g' e = subst P (some-injective _ _ e) v
  add_utxo_loop-keep (id ∷ ids) g a v g' e = elim (Option-cases (g.tx_by_id id)) [
    | inl n ↦ absurd (ground arith)
    | inr (tx, t) ↦
        add_utxo_loop-keep ids (add_utxo_edges g id tx.vin) a.1
          (add_utxo_edges-keep tx.vin g id a.0 v) g' (rw (t, add_utxo_loop) at e)
  ]

  add_reader_edges-keep :
      (readers : List Text) (g : Graph) (c : Text)
      → 0 < occ c o
      → P g
      → P (add_reader_edges g readers c)
  unfolding add_reader_edges
  add_reader_edges-keep [] g c h v = v
  add_reader_edges-keep (r ∷ readers) g c h v =
      add_reader_edges-keep readers (add_dependency g r c claim) c h (keep g r c claim h v)

  add_writer_edge-keep : (g : Graph) (p c : Text) → 0 < occ c o → P g → P (add_writer_edge g p c)
  unfolding add_writer_edge
  add_writer_edge-keep g p c h v = elim (text_discrete p []) [
    | yes e ↦ rw (if_pos _ e) v
    | no e ↦ rw (if_neg _ e) (keep g p c claim h v)
  ]

  choose : (b : Bool) (x y : Graph × ClaimState) → P x.0 → P y.0 → P (if b then x else y).0
  choose true x y p q = p
  choose false x y p q = q

  add_claim_event-keep :
      (g : Graph) (s : ClaimState) (c : Text) (e : ClaimEvent)
      → 0 < occ c o
      → P g
      → P (add_claim_event (g, s) c e).0
  unfolding add_claim_event
  add_claim_event-keep g s c e h v =
      let previous = s.latest_writer e.claim_id in
      let g' = add_writer_edge g previous c in
      let v' : P g' = add_writer_edge-keep g previous c h v in
      let all = add_reader_edges-keep (s.waiting_readers e.claim_id) g' c h v' in
      choose e.writer _ _ all (choose e.reader _ _ v' v)

  add_claim_events-keep :
      (events : List ClaimEvent) (gs : Graph × ClaimState) (c : Text)
      → 0 < occ c o
      → P gs.0
      → P (add_claim_events gs c events).0
  unfolding add_claim_events
  add_claim_events-keep [] gs c h v = v
  add_claim_events-keep (e ∷ events) gs c h v =
      add_claim_events-keep events (add_claim_event gs c e) c h
        (add_claim_event-keep gs.0 gs.1 c e h v)

  pub add_claim_loop-keep :
      (events : TxRawResult → List ClaimEvent) (ids : List Text) (gs : Graph × ClaimState)
      → All (λ id. 0 < occ id o) ids
      → P gs.0
      → (g' : Graph) → add_claim_loop events gs ids ≡ some g'
      → P g'
  unfolding add_claim_loop
  add_claim_loop-keep events [] gs a v g' e = subst P (some-injective _ _ e) v
  add_claim_loop-keep events (id ∷ ids) gs a v g' e = elim (Option-cases (gs.0.tx_by_id id)) [
    | inl n ↦ absurd (ground arith)
    | inr (tx, t) ↦
        add_claim_loop-keep events ids (add_claim_events gs id (events tx)) a.1
          (add_claim_events-keep (events tx) gs id a.0 v) g' (rw (t, add_claim_loop) at e)
  ]

sort_children-IsOpen : (o : List Text) (g : Graph) → IsOpen o g → IsOpen o (sort_children g)
unfolding sort_children
sort_children-IsOpen o g v = record {
  counted = record {
    counters = v.counted.counters;
    lists = λ p c.
        count_if-sort (is_child c) (λ id. order_index id 0 0 g.order) (g.children p)
        ∙ v.counted.lists p c;
  };
  none_completed = v.none_completed;
  targets = v.targets;
  same_order = v.same_order;
  none_ready = v.none_ready;
}

occ-ready_of :
    (c : Text) (u : Text → ℤ) (ids : List Text)
    → occ c (ready_of u ids) ≡ (if is_zero (u c) then occ c ids else 0)
unfolding ready_of
occ-ready_of c u [] = ground arith
occ-ready_of c u (id ∷ ids) = ground (arith, occ-ready_of c u ids)

pub All-occ : (o pre ids : List Text) → o ≡ pre ++ ids → All (λ id. 0 < occ id o) ids
All-occ o pre [] e = tt
All-occ o pre (id ∷ ids) e = (
  rw e (ground (arith, count_if-append (λ x. same x id) pre (id ∷ ids))),
  All-occ o (pre ++ id ∷ []) ids (e ∙ sym (append_assoc pre (id ∷ []) ids)),
)

-- What holds of a graph that is ready to run: the counters count the edges, an edge leads to an
-- id of the order, nothing is completed, and the ready ids are those of the order with no open
-- dependency, each as often as in the order.
pub record IsBuilt (o : List Text) (g : Graph) : Type 0 where
  pub counted : IsCounted g
  pub none_completed : (c : Text) → g.completed c ≡ false
  pub targets : (c : Text) → 0 < count_if (is_child c) g.edge_set → 0 < occ c o
  pub same_order : g.order ≡ o
  pub ready_ids : (c : Text) → occ c g.ready ≡ (if is_zero (g.unresolved c) then occ c o else 0)

pub new_block_tx_graph-IsOpen :
    (txs : List (Option TxRawResult)) (by_id : Text → Option TxRawResult)
    → IsOpen (order_of txs) (new_block_tx_graph txs by_id)
unfolding new_block_tx_graph
new_block_tx_graph-IsOpen txs by_id = record {
  counted = record { counters = λ c. refl; lists = λ p c. refl };
  none_completed = λ c. refl;
  targets = λ c h. absurd (omega arith);
  same_order = refl;
  none_ready = refl;
}

module _ (o : List Text) (g : Graph) (v : IsOpen o g) where
  All-in_order : All (λ id. 0 < occ id o) g.order
  All-in_order = rw v.same_order (All-occ o [] o refl)

  pub add_utxo_dependencies-IsOpen : (g' : Graph) → add_utxo_dependencies g ≡ some g' → IsOpen o g'
  unfolding add_utxo_dependencies
  add_utxo_dependencies-IsOpen g' e =
      add_utxo_loop-keep (IsOpen o) o (add_dependency-IsOpen o) g.order g All-in_order v g' e

  add_claim_dependencies-IsOpen :
      (events : TxRawResult → List ClaimEvent) (g' : Graph)
      → add_claim_dependencies events g ≡ some g'
      → IsOpen o g'
  unfolding add_claim_dependencies
  add_claim_dependencies-IsOpen events g' e =
      add_claim_loop-keep (IsOpen o) o (add_dependency-IsOpen o) events g.order _ All-in_order v g'
        e

  finish_build-IsBuilt : (g' : Graph) → finish_build g ≡ graph g' → IsBuilt o g'
  unfolding finish_build
  finish_build-IsBuilt g' e =
      let made : g' ≡ record g { ready = g.ready ++ ready_of g.unresolved g.order } =
        ground arith in
      rw made (record {
        counted = record { counters = v.counted.counters; lists = v.counted.lists };
        none_completed = v.none_completed;
        targets = v.targets;
        same_order = v.same_order;
        ready_ids = λ c. rw (v.none_ready, v.same_order) (occ-ready_of c g.unresolved o);
      })

-- Whatever the transactions and their claim events are, a graph of a block that is built without
-- failing is ready to run: the counter of an id is the number of edges to it, the children of an id
-- are its edges, every edge leads to an id of the block, nothing is completed, the order is the
-- block's, and an id is ready as often as it stands in the block if its counter is 0, and not at
-- all otherwise.
pub build_dependencies-IsBuilt :
    (events : TxRawResult → List ClaimEvent) (txs : List (Option TxRawResult))
    (by_id : Text → Option TxRawResult) (g : Graph)
    → build_dependencies events (new_block_tx_graph txs by_id) ≡ graph g
    → IsBuilt (order_of txs) g
unfolding build_dependencies
build_dependencies-IsBuilt events txs by_id g e =
    let o = order_of txs in
    let g0 = new_block_tx_graph txs by_id in
    let v0 = new_block_tx_graph-IsOpen txs by_id in
    elim (Option-cases (add_utxo_dependencies g0)) [
      | inl n ↦ absurd (ground arith)
      | inr (g1, e1) ↦ elim (Option-cases (add_claim_dependencies events g1)) [
        | inl n ↦ absurd (ground arith)
        | inr (g2, e2) ↦
            let v1 = add_utxo_dependencies-IsOpen o g0 v0 g1 e1 in
            let v2 =
              sort_children-IsOpen o g2 (add_claim_dependencies-IsOpen o g1 v1 events g2 e2) in
            finish_build-IsBuilt o (sort_children g2) v2 g (ground arith)
      ]
    ]
