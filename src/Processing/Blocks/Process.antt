-- ===== src/Processing/Blocks/Process.antt =====
-- ProcessBlock and RunBlockProcessing of daemon/processing/block.go, with the functions they call
-- on the block table. The synchronisation of a block's transactions is an argument: it says whether
-- it succeeded, and gives the database that it leaves.
use chainquery.Processing.Blocks.Store.{
  Row, Block, GetBlockResponse, BlockStore, found, no_rows, failed,
}
use chainquery.Processing.Blocks.Rows.{
  block_of_json, state_complete, parse_block_info, set_previous_block_info,
  mark_block_processing_state, delete_block_with_retry,
}
use chainquery.Processing.Blocks.Reorg.{check_handle_reorg-Agrees, ReorgError, check_handle_reorg}
use chainquery.Prelude.{
  ℕ, suc, ◌+◌, ◌≤◌, ◌≡◌, refl, sym, ap, subst, ◌≢◌, ◌⊎◌, inl, inr, Bool, true, false, Option, none,
  some, List, arith, ◌==◌, if◌then◌else◌, Bool-cases, Option-cases,
}
use chainquery.Prelude.Text.{Text}

-- The calls of lbrycrd.
pub record Lbrycrd (F : Type 0) : Type 0 where
  pub get_block_hash : ℕ → Option Text
  pub get_block : Text → Option (GetBlockResponse F)

unfoldable pub get_block_to_process : {F : Type 0} → Lbrycrd F → ℕ → Option (GetBlockResponse F)
get_block_to_process lbrycrd height = elim (lbrycrd.get_block_hash height) [
  | none ↦ none
  | some hash ↦ lbrycrd.get_block hash
]

-- What ProcessBlock returns: a block, or an error with the block or without one.
pub data Processed (F S : Type 0) : Type 0 where
  done : Block F → S → Processed F S
  failed_at : Option (Block F) → S → Processed F S

Processed-cases :
    {F S : Type 0} (p : Processed F S)
    → ((b : Block F) × (s : S) × (p ≡ done b s))
      ⊎ ((o : Option (Block F)) × (s : S) × (p ≡ failed_at o s))
Processed-cases (done b s) = inl (b, s, refl)
Processed-cases (failed_at o s) = inr (o, s, refl)

some_injective : {A : Type 0} (a b : A) → some a ≡ some b → a ≡ b
some_injective a b e = cc

Row-cases : {A : Type 0} (r : Row A) → ((a : A) × (r ≡ found a)) ⊎ (r ≡ no_rows) ⊎ (r ≡ failed)
Row-cases (found a) = inl (a, refl)
Row-cases no_rows = inr (inl refl)
Row-cases failed = inr (inr refl)

module _ {F : Type 0} (db : BlockStore F) (lbrycrd : Lbrycrd F)
    (sync_transactions_of_block : db.State → List Text → ℕ → ℕ → Bool × db.State) where
  open db use {State, at_height, at_hash, insert, update, update_state, delete}

  -- The end of ProcessBlock, once the transactions are synchronised.
  abbrev finish_block : Block F → Bool × State → Processed F State
  finish_block block (false, s) = failed_at (some block) s
  finish_block block (true, s) =
      let marked = record block { processing_state = some state_complete } in
      elim (mark_block_processing_state db block state_complete s) [
        | none ↦ failed_at (some marked) s
        | some s' ↦ done marked s'
      ]

  unfoldable pub process_block : ℕ → GetBlockResponse F → State → Processed F State
  process_block height json s = elim (parse_block_info db height json s) [
    | none ↦ failed_at none s
    | some (block, s1) ↦ elim (set_previous_block_info db height json.hash s1) [
      | none ↦ failed_at (some block) s1
      | some s2 ↦
          finish_block block (sync_transactions_of_block s2 json.tx block.block_time block.height)
    ]
  ]

  -- The database after a failed block: the block is deleted where one of the attempts succeeds.
  abbrev remove_failed : Option (Block F) → State → State
  remove_failed none s = s
  remove_failed (some block) s = elim (delete_block_with_retry db block s) [
    | none ↦ s
    | some s' ↦ s'
  ]

  -- The end of RunBlockProcessing, once the reorganisation is handled.
  abbrev after_reorg : (below : ℕ) → GetBlockResponse F → (ℕ ⊎ ReorgError) × State → ℕ × State
  after_reorg below json (inr _, s) = (below, s)
  after_reorg below json (inl reorg_height, s) =
      let processed : ℕ × State = elim (process_block (suc below) json s) [
        | done _ s' ↦ (suc below, s')
        | failed_at block s' ↦ (below, remove_failed block s')
      ] in
      if reorg_height == suc below then processed else (reorg_height, s)

  -- The height above genesis; the answer is the height that counts as processed.
  unfoldable pub run_block_processing : (below : ℕ) → State → ℕ × State
  run_block_processing below s = elim (get_block_to_process lbrycrd (suc below)) [
    | none ↦ (below, s)
    | some json ↦ after_reorg below json (
        check_handle_reorg db (get_block_to_process lbrycrd) (suc below) json.previous_block_hash s)
  ]

  finish_block-marks :
      (block b : Block F) (synced : Bool × State) (s' : State)
      → finish_block block synced ≡ done b s'
      → (s : State) × (synced ≡ (true, s))
        × (mark_block_processing_state db block state_complete s ≡ some s')
  finish_block-marks block b (false, s) s' e = absurd (ground arith)
  finish_block-marks block b (true, s) s' e = (s, refl, ground arith)

  process_block-marks :
      (height : ℕ) (json : GetBlockResponse F) (s s' : State) (b : Block F)
      → process_block height json s ≡ done b s'
      → (s1 s2 s3 : State) × (block : Block F) × (parse_block_info db height json s
          ≡ some (block, s1))
        × (set_previous_block_info db height json.hash s1 ≡ some s2)
        × (sync_transactions_of_block s2 json.tx block.block_time block.height ≡ (true, s3))
        × (mark_block_processing_state db block state_complete s3 ≡ some s')
  unfolding process_block
  process_block-marks height json s s' b e =
      elim (Option-cases (parse_block_info db height json s)) [
        | inl p ↦ absurd (ground arith)
        | inr ((block, s1), p) ↦
            elim (Option-cases (set_previous_block_info db height json.hash s1)) [
              | inl q ↦ absurd (ground arith)
              | inr (s2, q) ↦
                  let end =
                    finish_block-marks block b
                      (sync_transactions_of_block s2 json.tx block.block_time block.height) s'
                      (ground arith) in
                  (s1, s2, end.0, block, p, q, end.1, end.2)
            ]
      ]

  -- The row of a block at a height, with what lbrycrd says of it, is written over the one that is stored
  -- or inserted.
  abbrev pub StoresRow : ℕ → GetBlockResponse F → State → Block F → State → Type 0
  StoresRow height json s block s' =
      ((id : ℕ) × (block ≡ block_of_json id height json) × (update s block ≡ some s'))
      ⊎ (insert s (block_of_json 0 height json) ≡ some (block, s'))

  parse_block_info-StoresRow :
      (height : ℕ) (json : GetBlockResponse F) (s s' : State) (block : Block F)
      → parse_block_info db height json s ≡ some (block, s')
      → StoresRow height json s block s'
  unfolding parse_block_info
  parse_block_info-StoresRow height json s s' block e = elim (Row-cases (at_hash s json.hash)) [
    | inl (b, h) ↦
        let row = block_of_json b.id height json in
        elim (Option-cases (update s row)) [
          | inl n ↦ absurd (ground (arith, rw (h, n, parse_block_info) at e))
          | inr (s2, n) ↦
              let same = some_injective (row, s2) (block, s') (rw (h, n, parse_block_info) at e) in
              inl (
                b.id,
                sym (ap (λ x. x.0) same),
                subst (λ (x : Block F × State). update s x.0 ≡ some x.1) same n,
              )
        ]
    | inr (inl h) ↦ inr (rw (h, parse_block_info) at e)
    | inr (inr h) ↦ inr (rw (h, parse_block_info) at e)
  ]

  -- What is known when the processing of the block above `below` answers with its height.
  abbrev pub Advanced : (below : ℕ) → State → State → Type 0
  Advanced below s s' =
      (json : GetBlockResponse F) × (s0 s1 s2 : State) × (block : Block F) × (get_block_to_process
          lbrycrd (suc below)
        ≡ some json)
      × ((prev : Block F) × (at_height s below ≡ found prev)
          × (prev.hash ≡ json.previous_block_hash))
      × StoresRow (suc below) json s block s0
      × (set_previous_block_info db (suc below) json.hash s0 ≡ some s1)
      × (sync_transactions_of_block s1 json.tx block.block_time block.height ≡ (true, s2))
      × (mark_block_processing_state db block state_complete s2 ≡ some s')

  after_reorg-cases :
      (below : ℕ) (json : GetBlockResponse F) (a : ℕ ⊎ ReorgError) (s s' : State) (r : ℕ)
      → after_reorg below json (a, s) ≡ (r, s')
      → (r ≡ below)
        ⊎ ((a ≡ inl r) × (r ≢ suc below))
        ⊎ ((a ≡ inl (suc below))
            × (r ≡ suc below)
            × ((b : Block F) × (process_block (suc below) json s ≡ done b s')))
  after_reorg-cases below json (inr x) s s' r e = inl (ground arith)
  after_reorg-cases below json (inl h) s s' r e =
      elim (Processed-cases (process_block (suc below) json s)) [
        | inl (b, s2, d) ↦ elim (Bool-cases (h == suc below)) [
          | inl y ↦
              let same : h ≡ suc below = ground arith in
              inr (inr (ap inl same, ground arith, (b, ground arith)))
          | inr n ↦ inr (inl (ground arith))
        ]
        | inr (o, s2, d) ↦ ground arith
      ]

  -- The processing of the block above `below` answers either with the height of that block: then
  -- lbrycrd gave a block whose previous hash is that of the block stored below, the row of that
  -- height was stored with the data that lbrycrd gave, a synchronisation of its transactions
  -- succeeded, and that row was then marked complete; or with `below` or a height at most 100 under
  -- it.
  pub run_block_processing-Advanced :
      (below : ℕ) (s s' : State) (r : ℕ)
      → run_block_processing below s ≡ (r, s')
      → ((r ≡ suc below) × Advanced below s s') ⊎ ((r ≤ below) × (below ≤ r + 100))
  unfolding run_block_processing
  run_block_processing-Advanced below s s' r e =
      elim (Option-cases (get_block_to_process lbrycrd (suc below))) [
        | inl g ↦ inr (ground arith)
        | inr (json, g) ↦
            let checked =
              check_handle_reorg db (get_block_to_process lbrycrd) (suc below)
                json.previous_block_hash s in
            let agrees =
              check_handle_reorg-Agrees db (get_block_to_process lbrycrd) (suc below)
                json.previous_block_hash s checked.1 in
            elim (after_reorg-cases below json checked.0 checked.1 s' r (ground arith)) [
              | inl back ↦ inr (omega arith, omega arith)
              | inr (inl (found_at, lower)) ↦
                  let range = agrees r (ground arith) in inr (omega arith, omega arith)
              | inr (inr (stayed, rs, (b, ran))) ↦
                  let (s1, s2, s3, block, p, q, z, m) =
                    process_block-marks (suc below) json checked.1 s' b ran in
                  elim ((agrees (suc below) (ground arith)).2) [
                    | inl (_, _, inl bottom) ↦ absurd (omega arith)
                    | inl (_, unchanged, inr (under, prev, u, a, h)) ↦
                        let same : under ≡ below = omega arith in
                        let at_below : at_height s below ≡ found prev = cc in
                        let row =
                          subst (λ x. StoresRow (suc below) json x block s1) unchanged
                            (parse_block_info-StoresRow (suc below) json checked.1 s1 block p) in
                        inl (rs, (json, s1, s2, s3, block, g, (prev, at_below, h), row, q, z, m))
                    | inr (low, _) ↦ absurd (omega arith)
                  ]
            ]
      ]
