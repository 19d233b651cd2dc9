-- ===== src/Processing/Graph/Spending.antt =====
-- addUTXODependencies of daemon/processing/block_scheduler.go, told by the transactions alone: the graph that
-- is built has an edge for every output of the block that a transaction of the block spends.
use chainquery.Processing.Graph.Build.{
  add_claim_loop-keep, new_block_tx_graph-IsOpen, add_utxo_dependencies-IsOpen, All-occ,
  add_utxo_loop-keep, add_dependency-cases, add_utxo_edges-keep,
}
use chainquery.Processing.Graph.{
  order_of, graph, ClaimEvent, finish_build, sort_children, add_claim_dependencies, Reason,
  add_utxo_dependencies, Graph, add_dependency, add_edge, add_utxo_edges, add_utxo_loop,
  edge_discrete, new_block_tx_graph, utxo, Edge, build_dependencies, has_edge,
}
use chainquery.Processing.Graph.Counts.{occ}
use chainquery.Prelude.Text.{text_discrete, Text}
use chainquery.Processing.Tx.{Vin, TxRawResult}
use chainquery.Prelude.{
  ◌<◌, ◌≡◌, refl, sym, ap, subst, ◌∙◌, ◌≢◌, inl, inr, if_pos, if_neg, true, Option, some, List, [],
  ◌∷◌, ◌++◌, arith, if◌then◌else◌, Bool-cases, Option-cases, All,
}

some-injective : {A : Type 0} (a b : A) → some a ≡ some b → a ≡ b
some-injective a b e = cc

-- `c` is a transaction of the block with an input that spends an output of `p`, another one of the block.
abbrev pub SpendsOutputOf : List Text → (Text → Option TxRawResult) → (p c : Text) → Type 0
SpendsOutputOf order by_id p c =
    (tx parent : TxRawResult) × (v : Vin) × (front back : List Vin) × (0 < occ c order)
    × (by_id c ≡ some tx)
    × (tx.vin ≡ front ++ v ∷ back)
    × (v.tx_id ≡ p)
    × (by_id p ≡ some parent)
    × (p ≢ [])
    × (c ≢ [])
    × (p ≢ c)

abbrev pub spent_edge : (p c : Text) → Edge
spent_edge p c = record { parent = p; child = c; reason = utxo }

has_edge-snoc :
    (e d : Edge) (es : List Edge) → has_edge e es ≡ true → has_edge e (es ++ d ∷ []) ≡ true
unfolding has_edge
has_edge-snoc e d [] h = absurd (ground arith)
has_edge-snoc e d (x ∷ es) h = elim (edge_discrete x e) [
  | yes p ↦ if_pos (edge_discrete x e) p true _
  | no p ↦
      if_neg (edge_discrete x e) p true _
      ∙ has_edge-snoc e d es (sym (if_neg (edge_discrete x e) p true _) ∙ h)
]

has_edge_last : (e : Edge) (es : List Edge) → has_edge e (es ++ e ∷ []) ≡ true
unfolding has_edge
has_edge_last e [] = if_pos (edge_discrete e e) refl true _
has_edge_last e (x ∷ es) = elim (edge_discrete x e) [
  | yes p ↦ if_pos (edge_discrete x e) p true _
  | no p ↦ if_neg (edge_discrete x e) p true _ ∙ has_edge_last e es
]

-- The edge stands in the graph, whose map of transactions is `by_id`.
abbrev Has : (Text → Option TxRawResult) → Edge → Graph → Type 0
Has by_id e g = (g.tx_by_id ≡ by_id) × (has_edge e g.edge_set ≡ true)

module _ (by_id : Text → Option TxRawResult) where
  add_dependency-map :
      (g : Graph) (p c : Text) (r : Reason)
      → g.tx_by_id ≡ by_id
      → (add_dependency g p c r).tx_by_id ≡ by_id
  unfolding add_edge
  add_dependency-map g p c r h = elim (add_dependency-cases g p c r) [
    | inl e ↦ rw e h
    | inr (_, _, _, e) ↦ rw e h
  ]

  add_dependency-Has :
      (e : Edge) (g : Graph) (p c : Text) (r : Reason)
      → Has by_id e g
      → Has by_id e (add_dependency g p c r)
  unfolding add_edge
  add_dependency-Has e g p c r (m, h) = elim (add_dependency-cases g p c r) [
    | inl same ↦ rw same (m, h)
    | inr (_, _, _, same) ↦
        rw same (m, has_edge-snoc e (record { parent = p; child = c; reason = r }) g.edge_set h)
  ]

  added :
      (g : Graph) (p c : Text)
      → p ≢ []
      → c ≢ []
      → p ≢ c
      → has_edge (spent_edge p c) (add_dependency g p c utxo).edge_set ≡ true
  unfolding add_dependency add_edge
  added g p c hp hc hpc =
      let e = spent_edge p c in
      let at : add_dependency g p c utxo ≡ (if has_edge e g.edge_set then g else add_edge g e) =
        if_neg (text_discrete p []) hp _ _
        ∙ if_neg (text_discrete c []) hc _ _
        ∙ if_neg (text_discrete p c) hpc _ _ in
      elim (Bool-cases (has_edge e g.edge_set)) [
        | inl old ↦ rw (at, old) old
        | inr new ↦ rw (at, new) (has_edge_last e g.edge_set)
      ]

  module _ (o : List Text) (p c : Text) (parent : TxRawResult) (known : by_id p ≡ some parent)
      (hp : p ≢ []) (hc : c ≢ []) (hpc : p ≢ c) where
    keep :
        (g : Graph) (q d : Text) (r : Reason)
        → 0 < occ d o
        → Has by_id (spent_edge p c) g
        → Has by_id (spent_edge p c) (add_dependency g q d r)
    keep g q d r _ h = add_dependency-Has (spent_edge p c) g q d r h

    edges-Has :
        (front : List Vin) (v : Vin) (back : List Vin) (g : Graph)
        → 0 < occ c o
        → v.tx_id ≡ p
        → g.tx_by_id ≡ by_id
        → Has by_id (spent_edge p c) (add_utxo_edges g c (front ++ v ∷ back))
    unfolding add_utxo_edges
    edges-Has [] v back g h e m =
        let there : g.tx_by_id v.tx_id ≡ some parent = ap (λ f. f v.tx_id) m ∙ ap by_id e ∙ known in
        rw (there, add_utxo_edges)
          (add_utxo_edges-keep (Has by_id (spent_edge p c)) o keep back
            (add_dependency g v.tx_id c utxo) c h
            (
              add_dependency-map g v.tx_id c utxo m,
              subst (λ q. has_edge (spent_edge p c) (add_dependency g q c utxo).edge_set ≡ true)
                  (sym e) (added g p c hp hc hpc),
            ))
    edges-Has (x ∷ front) v back g h e m = elim (Option-cases (g.tx_by_id x.tx_id)) [
      | inl n ↦ rw (n, add_utxo_edges) (edges-Has front v back g h e m)
      | inr (t, n) ↦
          rw (n, add_utxo_edges)
            (edges-Has front v back (add_dependency g x.tx_id c utxo) h e
              (add_dependency-map g x.tx_id c utxo m))
    ]

    loop-Has :
        (tx : TxRawResult) (front : List Vin) (v : Vin) (back : List Vin) (ids : List Text)
        (g g' : Graph)
        → by_id c ≡ some tx
        → tx.vin ≡ front ++ v ∷ back
        → v.tx_id ≡ p
        → All (λ id. 0 < occ id o) ids
        → 0 < occ c ids
        → g.tx_by_id ≡ by_id
        → add_utxo_loop g ids ≡ some g'
        → Has by_id (spent_edge p c) g'
    unfolding add_utxo_loop
    loop-Has tx front v back [] g g' b s e a h m done = absurd (omega arith)
    loop-Has tx front v back (id ∷ ids) g g' b s e (a, as_) h m done =
        elim (Option-cases (g.tx_by_id id)) [
          | inl n ↦ absurd (ground (arith, rw (n, add_utxo_loop) at done))
          | inr (t, n) ↦
              let rest = rw (n, add_utxo_loop) at done in
              let map_kept =
                add_utxo_edges-keep (λ x. x.tx_by_id ≡ by_id) o
                  (λ x q d r _ k. add_dependency-map x q d r k) t.vin g id a m in
              elim (text_discrete id c) [
                | yes same ↦
                    let read : some t ≡ some tx = sym n ∙ ap (λ f. f id) m ∙ ap by_id same ∙ b in
                    let vins : t.vin ≡ front ++ v ∷ back =
                      ap (λ x. x.vin) (some-injective t tx read) ∙ s in
                    add_utxo_loop-keep (Has by_id (spent_edge p c)) o keep ids
                      (add_utxo_edges g id t.vin) as_
                      (subst (λ l. Has by_id (spent_edge p c) (add_utxo_edges g id l)) (sym vins)
                        (subst
                          (λ i. Has by_id (spent_edge p c) (add_utxo_edges g i (front ++ v ∷ back)))
                          (sym same)
                          (edges-Has front v back g (subst (λ i. 0 < occ i o) same a) e m)))
                      g' rest
                | no other ↦
                    loop-Has tx front v back ids (add_utxo_edges g id t.vin) g' b s e as_
                      (ground arith) map_kept rest
              ]
        ]

-- The edge is still there when the graph is built.
pub build_dependencies-spends :
    (events : TxRawResult → List ClaimEvent) (txs : List (Option TxRawResult))
    (by_id : Text → Option TxRawResult) (g : Graph) (p c : Text)
    → build_dependencies events (new_block_tx_graph txs by_id) ≡ graph g
    → SpendsOutputOf (order_of txs) by_id p c
    → has_edge (spent_edge p c) g.edge_set ≡ true
unfolding build_dependencies new_block_tx_graph add_utxo_dependencies add_claim_dependencies
    sort_children finish_build
build_dependencies-spends events txs by_id g p c e
      (tx, parent, v, front, back, inside, b, s, same, known, hp, hc, hpc) =
    let o = order_of txs in
    let g0 = new_block_tx_graph txs by_id in
    elim (Option-cases (add_utxo_dependencies g0)) [
      | inl n ↦ absurd (ground arith)
      | inr (g1, e1) ↦ elim (Option-cases (add_claim_dependencies events g1)) [
        | inl n ↦ absurd (ground arith)
        | inr (g2, e2) ↦
            let h1 =
              loop-Has by_id o p c parent known hp hc hpc tx front v back o g0 g1 b s same
                (All-occ o [] o refl) inside refl e1 in
            let same_order =
              (add_utxo_dependencies-IsOpen o g0 (new_block_tx_graph-IsOpen txs by_id) g1
                e1).same_order in
            let h2 =
              add_claim_loop-keep (Has by_id (spent_edge p c)) o
                (keep by_id o p c parent known hp hc hpc) events g1.order _
                (rw same_order (All-occ o [] o refl)) h1 g2 e2 in
            let made : g.edge_set ≡ g2.edge_set = ground arith in rw made h2.1
      ]
    ]
