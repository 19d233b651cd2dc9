-- ===== src/Processing/Blocks/Head.antt =====
-- The consistency checks of stored blocks in daemon/processing/block.go: whether a block has all its
-- transactions, with all their inputs and outputs, and what is done at start with a head block
-- that has not.
use chainquery.Processing.Blocks.Store.{Row-cases, Block, Row, BlockStore, found, no_rows, failed}
use chainquery.Prelude.{
  ℕ, ◌≡◌, ◌⊎◌, inl, inr, ite, Bool, true, false, ◌&&◌, Option, none, some, List, [], ◌∷◌, arith,
  ◌==◌, if◌then◌else◌, Bool-cases, Option-cases, length, All,
}
use chainquery.Prelude.Text.{Text, text_discrete}
use chainquery.Processing.Blocks.Rows.{
  state_complete, state_processing, state_incomplete, mark_block_processing_state,
  delete_block_with_retry,
}

-- The columns of the transaction table that are read here.
pub record Transaction : Type 0 where
  pub hash : Text
  pub input_count : ℕ
  pub output_count : ℕ

-- The queries; `none` is an error.
pub record Queries (F S : Type 0) : Type 0 where
  pub head : S → Row (Block F)
  pub transactions : S → Text → Option (List Transaction)
  pub input_count : S → Text → Option ℕ
  pub output_count : S → Text → Option ℕ
  -- At most the given number of blocks without a state, other than the head with the given key.
  pub legacy_blocks : S → ℕ → ℕ → Option (List (Block F))
  -- The last block of a height that is not the mempool's.
  pub last_at_height : S → ℕ → Row (Block F)

abbrev legacy_block_backfill_batch_size : ℕ
legacy_block_backfill_batch_size = 100

-- Whether the state of a block says that its processing did not end.
abbrev pub says_unfinished : Option Text → Bool
says_unfinished none = false
says_unfinished (some state) =
    ite (text_discrete state state_processing) true
      (ite (text_discrete state state_incomplete) true false)

module _ {F : Type 0} (db : BlockStore F) (queries : Queries F db.State) where
  open db use {State, update_state}

  unfoldable pub transaction_has_expected_children : State → Transaction → Option Bool
  transaction_has_expected_children s t = elim (queries.input_count s t.hash) [
    | none ↦ none
    | some inputs ↦ elim (queries.output_count s t.hash) [
      | none ↦ none
      | some outputs ↦ some ((inputs == t.input_count) && (outputs == t.output_count))
    ]
  ]

  unfoldable pub all_have_children : State → List Transaction → Option Bool
  all_have_children s [] = some true
  all_have_children s (t ∷ ts) =
      let rest = all_have_children s ts in
      elim (transaction_has_expected_children s t) [
        | none ↦ none
        | some false ↦ some false
        | some true ↦ rest
      ]

  unfoldable pub block_has_expected_transactions : State → Block F → Option Bool
  block_has_expected_transactions s block = elim (queries.transactions s block.hash) [
    | none ↦ none
    | some ts ↦ if length ts == block.tx_count then all_have_children s ts else some false
  ]

  -- The database, and whether there was no error.
  abbrev pub Outcome : Type 0
  Outcome = Bool × State

  abbrev outcome_of : State → Option State → Outcome
  outcome_of s none = (false, s)
  outcome_of s (some s') = (true, s')

  -- The head is marked incomplete and then deleted.
  abbrev drop_head : Block F → State → Outcome
  drop_head head s =
      let marked = record head { processing_state = some state_incomplete } in
      elim (mark_block_processing_state db head state_incomplete s) [
        | none ↦ (false, s)
        | some s' ↦ outcome_of s' (delete_block_with_retry db marked s')
      ]

  abbrev cleanup_head : Block F → Bool → State → Outcome
  cleanup_head head false s = drop_head head s
  cleanup_head head true s =
      if says_unfinished head.processing_state
      then drop_head head s
      else elim head.processing_state [
        | none ↦ outcome_of s (mark_block_processing_state db head state_complete s)
        | some _ ↦ (true, s)
      ]

  unfoldable pub cleanup_incomplete_head : State → Outcome
  cleanup_incomplete_head s = elim (queries.head s) [
    | no_rows ↦ (true, s)
    | failed ↦ (false, s)
    | found head ↦ elim (block_has_expected_transactions s head) [
      | none ↦ (false, s)
      | some complete ↦ cleanup_head head complete s
    ]
  ]

  unfoldable mark_incomplete_block_height : ℕ → State → Outcome
  mark_incomplete_block_height height s = elim (queries.last_at_height s height) [
    | no_rows ↦ (true, s)
    | failed ↦ (false, s)
    | found block ↦ outcome_of s (mark_block_processing_state db block state_incomplete s)
  ]

  -- The loop over the legacy blocks; the answer is `none` after an error.
  unfoldable backfill : List (Block F) → State → Bool × State
  backfill [] s = (true, s)
  backfill (b ∷ bs) s = elim (block_has_expected_transactions s b) [
    | none ↦ (false, s)
    | some false ↦ (false, s)
    | some true ↦ elim (mark_block_processing_state db b state_complete s) [
      | none ↦ (false, s)
      | some s' ↦ backfill bs s'
    ]
  ]

  unfoldable backfill_legacy_block_states : ℕ → State → Option ℕ × State
  backfill_legacy_block_states limit s =
      let limit' = if limit == 0 then legacy_block_backfill_batch_size else limit in
      elim (queries.head s) [
        | no_rows ↦ (some 0, s)
        | failed ↦ (none, s)
        | found head ↦ elim (queries.legacy_blocks s limit' head.id) [
          | none ↦ (none, s)
          | some blocks ↦
              let filled = backfill blocks s in
              ((if filled.0 then some (length blocks) else none), filled.1)
        ]
      ]

  -- The block's transactions are as many as the block says, and each has as many inputs and outputs
  -- as it says.
  abbrev pub IsWhole : State → Block F → Type 0
  IsWhole s block =
      (ts : List Transaction) × (queries.transactions s block.hash ≡ some ts)
      × (length ts ≡ block.tx_count)
      × All
          (λ t.
            (queries.input_count s t.hash ≡ some t.input_count)
            × (queries.output_count s t.hash ≡ some t.output_count))
          ts

  children_iff :
      (s : State) (t : Transaction)
      → transaction_has_expected_children s t ≡ some true
      → (queries.input_count s t.hash ≡ some t.input_count)
        × (queries.output_count s t.hash ≡ some t.output_count)
  unfolding transaction_has_expected_children
  children_iff s t e = ground arith

  all_have_children-All :
      (s : State) (ts : List Transaction)
      → all_have_children s ts ≡ some true
      → All
          (λ t.
            (queries.input_count s t.hash ≡ some t.input_count)
            × (queries.output_count s t.hash ≡ some t.output_count))
          ts
  unfolding all_have_children
  all_have_children-All s [] e = tt
  all_have_children-All s (t ∷ ts) e =
      (children_iff s t (ground arith), all_have_children-All s ts (ground arith))

  -- A block passes the check only when the stored transactions with its hash are as many as it
  -- says, and each has as many stored inputs and outputs as it says.
  block_has_expected_transactions-IsWhole :
      (s : State) (b : Block F) → block_has_expected_transactions s b ≡ some true → IsWhole s b
  unfolding block_has_expected_transactions
  block_has_expected_transactions-IsWhole s b e =
      elim (Option-cases (queries.transactions s b.hash)) [
        | inl q ↦ absurd (ground arith)
        | inr (ts, q) ↦ (ts, q, ground arith, all_have_children-All s ts (ground arith))
      ]

  drop_head-steps :
      (head : Block F) (s s' : State)
      → drop_head head s ≡ (true, s')
      → (s1 : State) × (update_state s (record head { processing_state = some state_incomplete })
          ≡ some s1)
        × (delete_block_with_retry db (record head { processing_state = some state_incomplete }) s1
            ≡ some s')
  unfolding mark_block_processing_state
  drop_head-steps head s s' e =
      let marked = record head { processing_state = some state_incomplete } in
      elim (Option-cases (update_state s marked)) [
        | inl u ↦ absurd (ground arith)
        | inr (s1, u) ↦ elim (Option-cases (delete_block_with_retry db marked s1)) [
          | inl d ↦ absurd (ground arith)
          | inr (s2, d) ↦ (s1, u, ground arith)
        ]
      ]

  -- After a clean-up of the head without error, there was no head and the database is unchanged; or
  -- the head is whole and not marked as unfinished, and the database is unchanged; or the head is
  -- whole, had no state, and was marked complete; or it failed the check or was marked as
  -- unfinished, and was first marked incomplete and then deleted.
  pub cleanup_incomplete_head-cases :
      (s s' : State)
      → cleanup_incomplete_head s ≡ (true, s')
      → ((s' ≡ s) × (queries.head s ≡ no_rows))
        ⊎ ((head : Block F) × (queries.head s ≡ found head)
            × (((s' ≡ s) × IsWhole s head × (says_unfinished head.processing_state ≡ false))
                ⊎ (IsWhole s head
                    × (head.processing_state ≡ none)
                    × (update_state s (record head { processing_state = some state_complete })
                        ≡ some s'))
                ⊎ ((block_has_expected_transactions s head ≡ some false)
                    ⊎ (says_unfinished head.processing_state ≡ true))
                  × ((s1 : State) × (update_state s
                          (record head { processing_state = some state_incomplete })
                        ≡ some s1)
                      × (delete_block_with_retry db
                            (record head { processing_state = some state_incomplete })
                            s1
                          ≡ some s'))))
  unfolding cleanup_incomplete_head mark_block_processing_state
  cleanup_incomplete_head-cases s s' e = elim (Row-cases (queries.head s)) [
    | inl (head, h) ↦ elim (Option-cases (block_has_expected_transactions s head)) [
      | inl c ↦ absurd (ground arith)
      | inr (true, c) ↦
          let whole = block_has_expected_transactions-IsWhole s head c in
          elim (Bool-cases (says_unfinished head.processing_state)) [
            | inl u ↦
                let dropped = drop_head-steps head s s' (ground arith) in
                inr (head, h, inr (inr (inr u, dropped)))
            | inr u ↦ elim (Option-cases head.processing_state) [
              | inl p ↦ inr (head, h, inr (inl (whole, p, ground arith)))
              | inr (x, p) ↦ inr (head, h, inl (ground arith, whole, u))
            ]
          ]
      | inr (false, c) ↦
          let dropped = drop_head-steps head s s' (ground arith) in
          inr (head, h, inr (inr (inl c, dropped)))
    ]
    | inr (inl gone) ↦ inl (ground arith)
    | inr (inr broken) ↦ absurd (ground arith)
  ]
