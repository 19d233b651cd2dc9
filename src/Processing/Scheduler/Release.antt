-- ===== src/Processing/Scheduler/Release.antt =====
-- What completing a transaction does to the graph of a block.
use chainquery.Prelude.{
  suc, ◌+◌, ◌≤◌, ◌<◌, ◌≡◌, refl, Bool, true, false, not, ◌&&◌, List, [], ◌∷◌, arith, if◌then◌else◌,
  count_if,
}
use chainquery.Prelude.Text.{Text}
use chainquery.Processing.Graph.{is_zero, Edge, update, Graph, release_children, pos}
use chainquery.Processing.Graph.Counts.{
  occ, is_child, joins, is_open, count_if_complete, release_edges_at, release_edges_frame,
}
use chainquery.Processing.Graph.Build.{IsCounted}

joins-le-child : (p c : Text) (es : List Edge) → count_if (joins p c) es ≤ count_if (is_child c) es
joins-le-child p c [] = omega arith
joins-le-child p c (e ∷ es) = ground (arith, joins-le-child p c es)

abbrev completing : Graph → Text → Graph
completing g id = release_children (record g { completed = update g.completed id true }) id

module _ (g : Graph) (id : Text) where
  pub completing_frame :
      ((completing g id).completed ≡ update g.completed id true)
      × ((completing g id).edge_set ≡ g.edge_set)
      × ((completing g id).children ≡ g.children)
      × ((completing g id).order ≡ g.order)
      × ((completing g id).tx_by_id ≡ g.tx_by_id)
      × ((completing g id).attempts ≡ g.attempts)
  unfolding release_children
  completing_frame =
      release_edges_frame (g.children id) (record g { completed = update g.completed id true })

  module _ (v : IsCounted g) (fresh : g.completed id ≡ false) (c : Text) where
    -- The open dependencies of `c` fall by its edges from `id`, and it becomes ready with the last.
    completing_at :
        ((completing g id).unresolved c
          ≡ pos (count_if (is_open (update g.completed id true) c) g.edge_set))
        × (occ c (completing g id).ready ≡ (
            if not (is_zero (g.unresolved c)) && is_zero ((completing g id).unresolved c)
            then suc (occ c g.ready)
            else occ c g.ready))
    unfolding release_children
    completing_at =
        let n = count_if (is_open g.completed c) g.edge_set in
        ground (
          arith,
          v.counters c,
          v.lists id c,
          count_if_complete g.completed id c g.edge_set fresh,
          release_edges_at c (g.children id) (record g { completed = update g.completed id true })
              n,
        )

  pub completing-IsCounted : IsCounted g → g.completed id ≡ false → IsCounted (completing g id)
  completing-IsCounted v fresh =
      let (done, edges, lists, _, _, _) = completing_frame in
      record {
        counters = λ c. rw (done, edges) (completing_at v fresh c).0;
        lists = λ p c. rw (lists, edges) (v.lists p c);
      }

  pub ready-completing :
      IsCounted g
      → g.completed id ≡ false
      → (c : Text)
      → occ c (completing g id).ready ≡ (
          if not (is_zero (g.unresolved c)) && is_zero ((completing g id).unresolved c)
          then suc (occ c g.ready)
          else occ c g.ready)
  ready-completing v fresh c = (completing_at v fresh c).1

  -- A counter that stands at zero stays there.
  pub completing_zero :
      IsCounted g
      → g.completed id ≡ false
      → (c : Text) → is_zero (g.unresolved c) ≡ true
      → is_zero ((completing g id).unresolved c) ≡ true
  completing_zero v fresh c z = ground (
    arith,
    v.counters c,
    (completing_at v fresh c).0,
    count_if_complete g.completed id c g.edge_set fresh,
  )

  -- Only an id to which an edge leads becomes ready.
  pub completing_target :
      IsCounted g
      → g.completed id ≡ false
      → (c : Text) → is_zero (g.unresolved c) ≡ false
      → is_zero ((completing g id).unresolved c) ≡ true
      → 0 < count_if (is_child c) g.edge_set
  completing_target v fresh c z z' = ground (
    arith,
    v.counters c,
    (completing_at v fresh c).0,
    count_if_complete g.completed id c g.edge_set fresh,
    joins-le-child id c g.edge_set,
  )

-- Completing one more id of a list without repetitions.
pub count_if-completed :
    (done : Text → Bool) (id : Text) (o : List Text)
    → done id ≡ false
    → count_if (update done id true) o ≡ count_if done o + occ id o
count_if-completed done id [] h = refl
count_if-completed done id (x ∷ o) h = ground (arith, count_if-completed done id o h)
