-- ===== src/Processing/Graph/Counts.antt =====
-- Counting the edges of a block's dependency graph and the ids in a list.
use chainquery.Processing.Graph.{
  is_zero, decrement, Edge, update, Graph, insert_edge, sort_edges, release_edges, pos,
}
use chainquery.Prelude.{
  ℕ, zero, suc, ◌+◌, ◌-◌, ◌≤◌, ◌≡◌, refl, inl, inr, ite, Bool, true, false, not, ◌&&◌, List, [],
  ◌∷◌, ◌++◌, arith, ltb, ◌==◌, if◌then◌else◌, Bool-cases, length, count_if,
}
use chainquery.Prelude.Text.{Text, text_discrete}

module _ {ℓ} {A : Type ℓ} where
  pub count_if-append :
      (p : A → Bool) (xs ys : List A) → count_if p (xs ++ ys) ≡ count_if p xs + count_if p ys
  count_if-append p [] ys = omega arith
  count_if-append p (x ∷ xs) ys = ground (arith, count_if-append p xs ys)

  pub count_if-le : (p : A → Bool) (xs : List A) → count_if p xs ≤ length xs
  count_if-le p [] = omega arith
  count_if-le p (x ∷ xs) = ground (arith, count_if-le p xs)

abbrev pub same : Text → Text → Bool
same a b = ite (text_discrete a b) true false

-- How often an id occurs.
abbrev pub occ : Text → List Text → ℕ
occ c = count_if (λ x. same x c)

abbrev pub is_child : Text → Edge → Bool
is_child c e = same e.child c

abbrev pub joins : Text → Text → Edge → Bool
joins p c e = same e.parent p && same e.child c

-- An edge to `c` whose parent has not been completed.
abbrev pub is_open : (Text → Bool) → Text → Edge → Bool
is_open completed c e = not (completed e.parent) && same e.child c

count_if-insert :
    (p : Edge → Bool) (index : Text → ℕ) (e : Edge) (es : List Edge)
    → count_if p (insert_edge index e es) ≡ count_if p (e ∷ es)
unfolding insert_edge
count_if-insert p index e [] = refl
count_if-insert p index e (d ∷ ds) = ground (arith, count_if-insert p index e ds)

-- Sorting neither loses nor repeats an edge.
pub count_if-sort :
    (p : Edge → Bool) (index : Text → ℕ) (es : List Edge)
    → count_if p (sort_edges index es) ≡ count_if p es
unfolding sort_edges
count_if-sort p index [] = refl
count_if-sort p index (e ∷ es) =
    ground (arith, count_if-insert p index e (sort_edges index es), count_if-sort p index es)

-- Completing `p` closes the edges from `p`.
pub count_if_complete :
    (completed : Text → Bool) (p c : Text) (es : List Edge)
    → completed p ≡ false
    → count_if (is_open (update completed p true) c) es + count_if (joins p c) es
      ≡ count_if (is_open completed c) es
count_if_complete completed p c [] h = refl
count_if_complete completed p c (e ∷ es) h = ground (arith, count_if_complete completed p c es h)

abbrev released : Graph → Edge → Graph
released g e = record g {
  unresolved = update g.unresolved e.child (decrement (g.unresolved e.child));
  ready = if is_zero (decrement (g.unresolved e.child)) then g.ready ++ e.child ∷ [] else g.ready;
}

occ-snoc :
    (c x : Text) (xs : List Text)
    → occ c (xs ++ x ∷ []) ≡ (if same x c then suc (occ c xs) else occ c xs)
occ-snoc c x xs = ground (arith, count_if-append (λ y. same y c) xs (x ∷ []))

-- Let the counter of an id be `n`, and let at most `n` of some edges lead to it. Releasing these
-- edges lowers the counter by the edges that lead to the id, and makes the id ready once more
-- exactly when `n` is positive and all `n` are released.
pub release_edges_at :
    (c : Text) (es : List Edge) (g : Graph) (n : ℕ)
    → g.unresolved c ≡ pos n
    → count_if (is_child c) es ≤ n
    → ((release_edges g es).unresolved c ≡ pos (n - count_if (is_child c) es))
      × (occ c (release_edges g es).ready ≡ (
          if ltb 0 n && n == count_if (is_child c) es then suc (occ c g.ready) else occ c g.ready))
unfolding release_edges
release_edges_at c [] g n u h = ground arith
release_edges_at c (e ∷ es) g zero u h =
    ground (arith, release_edges_at c es (released g e) 0, occ-snoc c e.child g.ready)
release_edges_at c (e ∷ es) g (suc n) u h = elim (Bool-cases (same e.child c)) [
  | inl hit ↦ ground (arith, release_edges_at c es (released g e) n, occ-snoc c e.child g.ready)
  | inr miss ↦
      ground (arith, release_edges_at c es (released g e) (suc n), occ-snoc c e.child g.ready)
]

-- The rest of the graph is left alone.
pub release_edges_frame :
    (es : List Edge) (g : Graph)
    → ((release_edges g es).completed ≡ g.completed)
      × ((release_edges g es).edge_set ≡ g.edge_set)
      × ((release_edges g es).children ≡ g.children)
      × ((release_edges g es).order ≡ g.order)
      × ((release_edges g es).tx_by_id ≡ g.tx_by_id)
      × ((release_edges g es).attempts ≡ g.attempts)
unfolding release_edges
release_edges_frame [] g = (refl, refl, refl, refl, refl, refl)
release_edges_frame (e ∷ es) g = release_edges_frame es (released g e)
