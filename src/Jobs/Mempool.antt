-- ===== src/Jobs/Mempool.antt =====
-- processTxSet and processMempoolTx of daemon/jobs/mempoolsync.go: the transactions of the memory
-- pool are processed, and those that were stored for it long ago and are in it no more are
-- deleted. The pool, a Go map, is the list of its transactions in the order in which it is met.
use chainquery.Processing.Graph.Counts.{occ}
use chainquery.Processing.Blocks.Store.{Row, found, no_rows, failed}
use chainquery.Prelude.{
  ℕ, ◌+◌, ◌<◌, ◌≡◌, refl, ap, ◌≢◌, ◌⊎◌, inl, inr, ite, Bool, true, false, Option, none, some, List,
  [], ◌∷◌, arith, leb, if◌then◌else◌, Bool-cases, Option-cases, All,
}
use chainquery.Prelude.Text.{Text, text_discrete}

pub record PoolTx : Type 0 where
  pub tx_id : Text
  pub height : ℕ
  pub depends : List Text

-- The database: whether a transaction is stored, processing and deleting one. A raw transaction
-- that was not fetched is a nil pointer.
pub record Pool (R S : Type 0) : Type 0 where
  pub raw : Text → Option R
  pub stored : S → Text → Row (Unit {0})
  pub process_tx : S → R → Bool × S
  pub stored_in_pool : S → Text → Row (Unit {0})
  pub delete_tx : S → Text → Option S

-- `delete` on the map of the stale transactions.
unfoldable pub drop_id : Text → List Text → List Text
drop_id id [] = []
drop_id id (x ∷ xs) = ite (text_discrete x id) (drop_id id xs) (x ∷ drop_id id xs)

pub data PoolResult (S : Type 0) : Type 0 where
  -- The daemon is not at the top of the chain.
  not_caught_up pool_failed : S → PoolResult S
  pool_done : (stale : List Text) → S → PoolResult S

Row_cases : (r : Row (Unit {0})) → (r ≡ found tt) ⊎ (r ≡ no_rows) ⊎ (r ≡ failed)
Row_cases (found tt) = inl refl
Row_cases no_rows = inr (inl refl)
Row_cases failed = inr (inr refl)

PoolResult-cases :
    {S : Type 0} (r : PoolResult S)
    → ((s : S) × (r ≡ not_caught_up s))
      ⊎ ((s : S) × (r ≡ pool_failed s))
      ⊎ ((left : List Text) × (s : S) × (r ≡ pool_done left s))
PoolResult-cases (not_caught_up s) = inl (s, refl)
PoolResult-cases (pool_failed s) = inr (inl (s, refl))
PoolResult-cases (pool_done left s) = inr (inr (left, s, refl))

module _ {R S : Type 0} (pool : Pool R S) where
  -- The database, and whether there was no error.
  unfoldable pub process_mempool_tx : Text → S → Bool × S
  process_mempool_tx id s = elim (pool.stored s id) [
    | found _ ↦ (true, s)
    | failed ↦ (false, s)
    | no_rows ↦ elim (pool.raw id) [ none ↦ (false, s) | some raw ↦ pool.process_tx s raw ]
  ]

  unfoldable pub process_depends : List Text → List Text → S → Bool × List Text × S
  process_depends [] stale s = (true, stale, s)
  process_depends (id ∷ ids) stale s =
      let (done, s') = process_mempool_tx id s in
      let rest = process_depends ids (drop_id id stale) s' in
      if done then rest else (false, stale, s')

  unfoldable pub process_pool : (last_height : ℕ) → List PoolTx → List Text → S → PoolResult S
  process_pool last_height [] stale s = pool_done stale s
  process_pool last_height (tx ∷ txs) stale s =
      let (depends_done, stale1, s1) = process_depends tx.depends (drop_id tx.tx_id stale) s in
      let (done, s2) = process_mempool_tx tx.tx_id s1 in
      let rest = process_pool last_height txs stale1 s2 in
      if leb tx.height (last_height + 1)
      then (if depends_done then (if done then rest else pool_failed s2) else pool_failed s1)
      else not_caught_up s

  unfoldable pub delete_stale : List Text → S → Bool × S
  delete_stale [] s = (true, s)
  delete_stale (id ∷ ids) s = elim (pool.stored_in_pool s id) [
    | no_rows ↦ delete_stale ids s
    | failed ↦ (false, s)
    | found _ ↦ elim (pool.delete_tx s id) [ none ↦ (false, s) | some s' ↦ delete_stale ids s' ]
  ]

  -- The answers are whether to wait, whether there was no error, and the database.
  unfoldable pub process_tx_set :
      (last_height : Option ℕ) → List PoolTx → List Text → S → Bool × Bool × S
  unfolding process_pool
  process_tx_set none txs stale s = (false, false, s)
  process_tx_set (some last_height) txs stale s = elim (process_pool last_height txs stale s) [
    | not_caught_up s' ↦ (true, true, s')
    | pool_failed s' ↦ (false, false, s')
    | pool_done stale' s' ↦ let (done, s2) = delete_stale stale' s' in (false, done, s2)
  ]

  -- A stale id is not one of the pool, nor one that a transaction of the pool depends on.
  abbrev pub IsOutside : Text → List PoolTx → Type 0
  IsOutside c = All (λ tx. (tx.tx_id ≢ c) × (occ c tx.depends ≡ 0))

  occ-drop_id :
      (c id : Text) (xs : List Text) → 0 < occ c (drop_id id xs) → (id ≢ c) × (0 < occ c xs)
  unfolding drop_id
  occ-drop_id c id [] h = absurd (omega arith)
  occ-drop_id c id (x ∷ xs) h = let rest = occ-drop_id c id xs in ground arith

  depends_stale :
      (c : Text) (ids stale stale' : List Text) (s s' : S)
      → process_depends ids stale s ≡ (true, stale', s')
      → 0 < occ c stale'
      → (occ c ids ≡ 0) × (0 < occ c stale)
  unfolding process_depends
  depends_stale c [] stale stale' s s' e h = ground arith
  depends_stale c (id ∷ ids) stale stale' s s' e h =
      let (done, s1) = process_mempool_tx id s in
      elim (Bool-cases done) [
        | inl t ↦
            let (none_later, before) =
              depends_stale c ids (drop_id id stale) stale' s1 s' (ground arith) h in
            let (other, b) = occ-drop_id c id stale before in ground arith
        | inr f ↦ absurd (ground arith)
      ]

  -- When the transactions of the memory pool have all been processed, a transaction that is still
  -- taken for stale was so before, and is neither one of the pool nor one that a transaction of the
  -- pool depends on.
  process_pool-IsOutside :
      (last_height : ℕ) (txs : List PoolTx) (stale stale' : List Text) (s s' : S)
      → process_pool last_height txs stale s ≡ pool_done stale' s'
      → (c : Text) → 0 < occ c stale'
      → IsOutside c txs × (0 < occ c stale)
  unfolding process_pool
  process_pool-IsOutside last_height [] stale stale' s s' e c h = (tt, ground arith)
  process_pool-IsOutside last_height (tx ∷ txs) stale stale' s s' e c h =
      let (depends_done, stale1, s1) = process_depends tx.depends (drop_id tx.tx_id stale) s in
      let (done, s2) = process_mempool_tx tx.tx_id s1 in
      elim (Bool-cases depends_done) [
        | inr f ↦ absurd (ground arith)
        | inl t ↦
            let (later, before) =
              process_pool-IsOutside last_height txs stale1 stale' s2 s' (ground arith) c h in
            let (no_depend, b) =
              depends_stale c tx.depends (drop_id tx.tx_id stale) stale1 s s1 (ground arith)
                before in
            let (other, inside) = occ-drop_id c tx.tx_id stale b in
            (((other, no_depend), later), inside)
      ]

  -- Some transactions are deleted one after the other, each where it stands in the pool's storage.
  abbrev pub Deletes : List Text → S → S → Type 0
  Deletes [] s s' = s ≡ s'
  Deletes (id ∷ ids) s s' =
      (t : S) × (pool.stored_in_pool s id ≡ found tt)
      × (pool.delete_tx s id ≡ some t)
      × Deletes ids t s'

  delete_stale-Deletes :
      (P : Text → Type 0) (ids : List Text) (s s' : S)
      → ((c : Text) → 0 < occ c ids → P c)
      → delete_stale ids s ≡ (true, s')
      → (deleted : List Text) × All P deleted × Deletes deleted s s'
  unfolding delete_stale
  delete_stale-Deletes P [] s s' h e = ([], tt, ap (λ x. x.1) e)
  delete_stale-Deletes P (id ∷ ids) s s' h e =
      let later : (c : Text) → 0 < occ c ids → P c = λ c k. h c (ground arith) in
      elim (Row_cases (pool.stored_in_pool s id)) [
        | inr (inl n) ↦ delete_stale-Deletes P ids s s' later (rw (n, delete_stale) at e)
        | inr (inr n) ↦ absurd (ground (arith, rw (n, delete_stale) at e))
        | inl n ↦ elim (Option-cases (pool.delete_tx s id)) [
          | inl d ↦ absurd (ground (arith, rw (n, d, delete_stale) at e))
          | inr (t, d) ↦
              let (deleted, all, rest) =
                delete_stale-Deletes P ids t s' later (rw (n, d, delete_stale) at e) in
              (id ∷ deleted, (h id (ground arith), all), (t, n, d, rest))
        ]
      ]

  -- When the memory pool was processed without an error or a wait, its transactions were all
  -- processed first; then some transactions were deleted one after the other, each where the
  -- storage of the pool had it, and each of them was taken for stale before and is neither one of
  -- the pool nor one that a transaction of the pool depends on.
  pub process_tx_set-Deletes :
      (last_height : ℕ) (txs : List PoolTx) (stale : List Text) (s s' : S)
      → process_tx_set (some last_height) txs stale s ≡ (false, true, s')
      → (s1 : S) × (left deleted : List Text) × (process_pool last_height txs stale s
          ≡ pool_done left s1)
        × All (λ c. IsOutside c txs × (0 < occ c stale)) deleted
        × Deletes deleted s1 s'
  unfolding process_tx_set
  process_tx_set-Deletes last_height txs stale s s' e =
      elim (PoolResult-cases (process_pool last_height txs stale s)) [
        | inl (t, r) ↦ absurd (ground (arith, rw (r, process_tx_set) at e))
        | inr (inl (t, r)) ↦ absurd (ground (arith, rw (r, process_tx_set) at e))
        | inr (inr (left, s1, r)) ↦
            let e1 = rw (r, process_tx_set) at e in
            let ran : delete_stale left s1 ≡ (true, s') = ap (λ x. (x.1, x.2)) e1 in
            let (deleted, all, deletes) =
              delete_stale-Deletes (λ c. IsOutside c txs × (0 < occ c stale)) left s1 s'
                (process_pool-IsOutside last_height txs stale left s s1 r) ran in
            (s1, left, deleted, r, all, deletes)
      ]
