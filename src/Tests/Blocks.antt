-- ===== src/Tests/Blocks.antt =====
-- A chain of two blocks, of which the database holds the first.
use chainquery.Prelude.{
  ℕ, suc, ◌+◌, ◌≤◌, ◌<◌, ◌≡◌, refl, ◌⊎◌, ite, Bool, true, false, Option, none, some, List, [], ◌∷◌,
  ◌==◌, if◌then◌else◌, length,
}
use chainquery.Prelude.Text.{Text, text, text_discrete}
use chainquery.Processing.Blocks.Store.{Block, GetBlockResponse, Row, BlockStore, found, no_rows}
use chainquery.Processing.Blocks.Rows.{
  state_complete, state_incomplete, block_of_json, delete_block_with_retry,
}
use chainquery.Processing.Blocks.Reorg.{
  reorg_loop, check_handle_reorg, Agrees, check_handle_reorg-Agrees,
}
use chainquery.Processing.Blocks.Process.{
  Lbrycrd, run_block_processing, Advanced, run_block_processing-Advanced,
}
use chainquery.Processing.Blocks.Head.{
  Queries, says_unfinished, all_have_children, block_has_expected_transactions,
  cleanup_incomplete_head, IsWhole, cleanup_incomplete_head-cases,
}

-- The rows of the table, the last inserted first; a difficulty is a number.
abbrev Rows : Type 0
Rows = List (Block ℕ)

abbrev row_at : Rows → ℕ → Row (Block ℕ)
row_at [] height = no_rows
row_at (b ∷ rows) height = if b.height == height then found b else row_at rows height

abbrev row_of_hash : Rows → Text → Row (Block ℕ)
row_of_hash [] hash = no_rows
row_of_hash (b ∷ rows) hash = ite (text_discrete b.hash hash) (found b) (row_of_hash rows hash)

abbrev put_row : Rows → Block ℕ → Rows
put_row [] b = []
put_row (r ∷ rows) b = let rest = put_row rows b in if r.id == b.id then b ∷ rows else r ∷ rest

abbrev delete_row : Rows → Block ℕ → Rows
delete_row [] b = []
delete_row (r ∷ rows) b = let rest = delete_row rows b in if r.id == b.id then rows else r ∷ rest

abbrev db : BlockStore ℕ
db = record {
  State = Rows;
  at_height = row_at;
  at_hash = row_of_hash;
  insert = λ rows b.
      some (record b { id = suc (length rows) }, record b { id = suc (length rows) } ∷ rows);
  update = λ rows b. some (put_row rows b);
  update_state = λ rows b. some (put_row rows b);
  delete = λ rows attempt b. some (delete_row rows b);
}

abbrev json_of : Text → Text → List Text → GetBlockResponse ℕ
json_of hash previous txs = record {
  hash = hash;
  confirmations = 1;
  size = 100;
  version = 1;
  version_hex = [];
  merkle_root = [];
  name_claim_root = [];
  tx = txs;
  n_tx = length txs;
  time = 5;
  nonce = 0;
  bits = [];
  difficulty = 1;
  chain_work = [];
  previous_block_hash = previous;
  next_block_hash = [];
}

abbrev genesis : Block ℕ
genesis = record (block_of_json 1 0 (json_of (text "g") [] [])) {
  processing_state = some state_complete;
}

abbrev json : GetBlockResponse ℕ
json = json_of (text "h") (text "g") (text "t" ∷ [])

abbrev lbrycrd : Lbrycrd ℕ
lbrycrd = record { get_block_hash = λ height. some (text "h"); get_block = λ hash. some json }

abbrev sync : Rows → List Text → ℕ → ℕ → Bool × Rows
sync rows txs time height = (true, rows)

abbrev rows : Rows
rows = genesis ∷ []

abbrev ran : ℕ × Rows
ran = run_block_processing db lbrycrd sync 0 rows

run_block_processing-Advanced_example :
    ((ran.0 ≡ 1) × Advanced db lbrycrd sync 0 rows ran.1) ⊎ ((ran.0 ≤ 0) × (0 ≤ ran.0 + 100))
run_block_processing-Advanced_example =
    run_block_processing-Advanced db lbrycrd sync 0 rows ran.1 ran.0 refl

-- The stored block at height 1 is of another branch.
abbrev stale : Rows
stale = record (block_of_json 2 1 (json_of (text "x") (text "g") [])) { id = 2 } ∷ genesis ∷ []

abbrev fetch : ℕ → Option (GetBlockResponse ℕ)
fetch height = some json

abbrev height : ℕ
height = 2

abbrev back : ℕ
back = 0

check_handle_reorg-Agrees_example :
    (back ≤ height)
    × (height ≤ back + 101)
    × ((back ≡ height)
          × (rows ≡ stale)
          × ((height ≡ 0)
              ⊎ ((below : ℕ) × (b : Block ℕ) × (height ≡ suc below)
                  × (row_at stale below ≡ found b)
                  × (b.hash ≡ text "h")))
        ⊎ (back < height) × Agrees db fetch back rows)
unfolding check_handle_reorg reorg_loop text_discrete block_of_json
check_handle_reorg-Agrees_example =
    check_handle_reorg-Agrees db fetch height (text "h") stale rows back refl

abbrev queries : Queries ℕ Rows
queries = record {
  head = λ s. found genesis;
  transactions = λ s hash. some [];
  input_count = λ s hash. some 0;
  output_count = λ s hash. some 0;
  legacy_blocks = λ s limit id. some [];
  last_at_height = λ s height. row_at s height;
}

cleanup_incomplete_head-cases_example :
    ((rows ≡ rows) × (queries.head rows ≡ no_rows))
    ⊎ ((head : Block ℕ) × (queries.head rows ≡ found head)
        × (((rows ≡ rows)
              × IsWhole db queries rows head
              × (says_unfinished head.processing_state ≡ false))
            ⊎ (IsWhole db queries rows head
                × (head.processing_state ≡ none)
                × (some (put_row rows (record head { processing_state = some state_complete }))
                    ≡ some rows))
            ⊎ ((block_has_expected_transactions db queries rows head ≡ some false)
                ⊎ (says_unfinished head.processing_state ≡ true))
              × ((s1 : Rows) × (some
                      (put_row rows (record head { processing_state = some state_incomplete }))
                    ≡ some s1)
                  × (delete_block_with_retry db
                        (record head { processing_state = some state_incomplete })
                        s1
                      ≡ some rows))))
unfolding cleanup_incomplete_head block_has_expected_transactions all_have_children block_of_json
    text_discrete
cleanup_incomplete_head-cases_example = cleanup_incomplete_head-cases db queries rows rows refl
