-- ===== src/Tests/Jobs.antt =====
-- Jobs on small tables.
use chainquery.Jobs.ChainSync.Vouts.Lost.{align_vouts-Grown, Grown}
use chainquery.Jobs.ChainSync.Vouts.{Vouts, align_vouts}
use chainquery.Jobs.Values.{InWindow, transaction_value_windows, transaction_value_windows_cover}
use chainquery.Prelude.{
  ℕ, suc, ◌+◌, ◌*◌, ◌/◌, ◌≤◌, ◌<◌, min, ◌≡◌, refl, ◌↔◌, true, Option, none, some, List, [], ◌∷◌,
  arith, ltb, leb, ◌==◌, if◌then◌else◌, length, All,
}
use chainquery.Prelude.Text.{Text, text, text_discrete}
use chainquery.Processing.Graph.Counts.{occ}
use chainquery.Processing.Blocks.Store.{Block, GetBlockResponse, found, no_rows}
use chainquery.Jobs.ChainSync.ErrorLog.{
  SyncError, record_error, IsLog, Records, record_error-Records,
}
use chainquery.Jobs.ChainSync.Align.Columns.{write_columns, Written, chosen}
use chainquery.Jobs.ChainSync.Align.Blocks.{
  aligned_block, block_columns, IsAligned, align_block, align_block_once, differs, block_time,
  block_size, block_previous_hash, block_nonce,
}
use chainquery.Jobs.Validation.{StoredTx, Sources, check_txs, TxIsWhole, check_txs_iff}
use chainquery.Jobs.Mempool.{
  PoolTx, Pool, drop_id, process_mempool_tx, process_depends, process_pool, IsOutside, pool_done,
  Deletes, delete_stale, process_tx_set, process_tx_set-Deletes,
}
use chainquery.Jobs.Reprocess.{
  reprocess_batch_size, reprocess, process_all, concat, reprocess_in_batches,
}

abbrev log : List SyncError
log = record { height_found = 4 ∷ []; error = text "gone"; area = text "tx" } ∷ []

log-IsLog : IsLog log
log-IsLog = record { bounded = omega arith; distinct = λ area error. ground arith }

record_error-Records_example :
    Records 7 (text "tx") (text "gone") log (record_error 7 (text "tx") (text "gone") log)
record_error-Records_example = record_error-Records 7 (text "tx") (text "gone") log log-IsLog

-- Every alignment of an output fails with the same error.
abbrev vouts : Vouts ℕ ℕ
vouts = record {
  is_stored = λ _ _ _. true;
  align_vout = λ v s. (some (text "failed"), suc s);
  decimal = λ _. [];
  spare = λ _. 3;
}

abbrev stored : Block ℕ
stored = record {
  id = 1;
  bits = text "1f";
  chainwork = [];
  confirmations = 1;
  difficulty = 3;
  hash = text "aa";
  height = 1;
  merkle_root = [];
  name_claim_root = [];
  next_block_hash = none;
  previous_block_hash = none;
  nonce = 8;
  block_size = 100;
  block_time = 50;
  version = 1;
  version_hex = [];
  tx_count = 0;
  processing_state = none;
}

abbrev json : GetBlockResponse ℕ
json = record {
  hash = text "aa";
  confirmations = 1;
  size = 120;
  version = 1;
  version_hex = [];
  merkle_root = [];
  name_claim_root = [];
  tx = [];
  n_tx = 0;
  time = 50;
  nonce = 9;
  bits = text "1f";
  difficulty = 3;
  chain_work = [];
  previous_block_hash = text "zz";
  next_block_hash = [];
}

-- The state counts the writes.
abbrev count_write : {R C : Type 0} → ℕ → R → List C → Option ℕ
count_write s row cols = some (suc s)

abbrev aligned : Block ℕ
aligned = aligned_block (λ x. x) ◌==◌ stored json

align_block_once_example :
    IsAligned (λ x. x) ◌==◌ aligned json
    × (align_block (λ x. x) ◌==◌ count_write aligned json 1
        ≡ some (aligned_block (λ x. x) ◌==◌ aligned json, 1))
    × Written count_write
        (block_time ∷ block_size ∷ block_previous_hash ∷ block_nonce ∷ [])
        aligned
        0
        1
unfolding align_block write_columns block_columns text_discrete chosen differs Written
align_block_once_example =
    align_block_once (λ x. x) ◌==◌ count_write (λ x. ground arith) stored aligned json 0 1 refl

transaction_value_windows_cover_example :
    (ws : List (ℕ × ℕ)) × (transaction_value_windows (suc 11999) ≡ some ws)
    × (InWindow 11000 ws
        ↔ (11000 ≤ (if leb (suc 11999) 5000 then suc 11999 else suc 11999 / 5000 * 5000)))
transaction_value_windows_cover_example = transaction_value_windows_cover 11999 11000

abbrev whole_tx : StoredTx
whole_tx = record { hash = text "t"; outputs = some 2; inputs = some 1 }

abbrev sources : Sources
sources = record {
  block_count = some 3;
  block_hash = λ _. some (text "aa");
  block = λ _. some (record { height = 1; tx = text "t" ∷ [] });
  raw_transaction = λ _. some (2, 1);
  have_block = λ height. some (ltb height 2);
  stored_block = λ height. if ltb height 2 then found (text "aa") else no_rows;
  stored_txs = λ _. some (whole_tx ∷ []);
}

check_txs_iff_example :
    (check_txs sources [] 1 (text "t" ∷ []) (whole_tx ∷ []) ≡ some [])
    ↔ All (TxIsWhole sources (whole_tx ∷ [])) (text "t" ∷ [])
check_txs_iff_example = check_txs_iff sources 1 (text "t" ∷ []) (whole_tx ∷ [])

-- The state is the list of the transactions that were processed.
abbrev pool : Pool Text (List Text)
pool = record {
  raw = λ id. some id;
  stored = λ s id. no_rows;
  process_tx = λ s id. (true, id ∷ s);
  stored_in_pool = λ s id. found tt;
  delete_tx = λ s id. some s;
}

abbrev pooled : List PoolTx
pooled = record { tx_id = text "b"; height = 4; depends = text "a" ∷ [] } ∷ []

process_tx_set-Deletes_example :
    (s1 : List Text) × (left deleted : List Text) × (process_pool pool 9 pooled
        (text "a" ∷ text "c" ∷ [])
        []
      ≡ pool_done left s1)
    × All (λ c. IsOutside pool c pooled × (0 < occ c (text "a" ∷ text "c" ∷ []))) deleted
    × Deletes pool deleted s1 (text "b" ∷ text "a" ∷ [])
unfolding process_tx_set process_pool process_depends process_mempool_tx drop_id delete_stale
    text_discrete
process_tx_set-Deletes_example =
    process_tx_set-Deletes pool 9 pooled (text "a" ∷ text "c" ∷ []) [] (text "b" ∷ text "a" ∷ [])
      refl

abbrev names : List Text
names = text "x" ∷ text "y" ∷ text "x" ∷ []

abbrev collect : List (List Text) → List Text → Option (List (List Text))
collect s b = some (b ∷ s)

reprocess_in_batches_example :
    (s' : List (List Text)) × (n : ℕ) × (batches : List (List Text)) × (reprocess collect [] [] 0
        names []
      ≡ some (n, s'))
    × (process_all collect batches [] ≡ some s')
    × (n ≡ length (concat batches))
    × All (λ b. length b ≤ reprocess_batch_size + 1) batches
    × ((c : Text) → occ c (concat batches) ≡ min 1 (occ c names))
reprocess_in_batches_example = reprocess_in_batches collect names [] (λ t b e. cc)

align_vouts-Grown_example : Grown log (align_vouts vouts 4 (text "tx") (7 ∷ 8 ∷ []) log 0).1
align_vouts-Grown_example = align_vouts-Grown vouts 4 (text "tx") (7 ∷ 8 ∷ []) log 0
