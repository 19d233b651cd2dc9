-- ===== src/Jobs/ChainSync/Txs/Log.antt =====
-- The log of errors in alignTxs of daemon/jobs/chainsync.go: every step keeps it one.
use chainquery.Jobs.ChainSync.Txs.{
  stored_input, ChainVin, align_parts, tx_parts_missing, ChainTx, after, after_process, align_txs,
  align_vins, complete_parts, read_again, recorded, sync_tx, SyncOutcome, Tables,
}
use chainquery.Prelude.{ℕ, suc, Bool, true, false, Option, none, some, List, [], ◌∷◌, if◌then◌else◌}
use chainquery.Prelude.Text.{Text, text}
use chainquery.Processing.Blocks.Store.{Row, found, no_rows, failed}
use chainquery.Jobs.ChainSync.ErrorLog.{SyncError, record_error, IsLog, record_error-Records}
use chainquery.Jobs.ChainSync.Align.Txs.{TxRow, align_tx}
use chainquery.Jobs.ChainSync.Align.Vins.{align_vin}

-- The log stays one.
abbrev pub Keeps : {S : Type 0} → SyncOutcome S → Type 0
Keeps (e, log, s) = IsLog log

pub keeps_record :
    (height : ℕ) (area e : Text) (log : List SyncError)
    → IsLog log
    → IsLog (record_error height area e log)
keeps_record height area e log v = (record_error-Records height area e log v).0

pub option-Keeps :
    {A S : Type 0} (o : Option A) (failure : SyncOutcome S) (next : A → SyncOutcome S)
    → Keeps failure
    → ((a : A) → Keeps (next a))
    → Keeps (elim o [ none ↦ failure | some a ↦ next a ])
option-Keeps none failure next p q = p
option-Keeps (some a) failure next p q = q a

pub after-Keeps :
    {S : Type 0} (o : SyncOutcome S) (failure : Text → List SyncError → S → SyncOutcome S)
    (next : List SyncError → S → SyncOutcome S)
    → Keeps o
    → ((e : Text) (log : List SyncError) (s : S) → IsLog log → Keeps (failure e log s))
    → ((log : List SyncError) (s : S) → IsLog log → Keeps (next log s))
    → Keeps (after o failure next)
after-Keeps (some e, log, s) failure next v p q = p e log s v
after-Keeps (none, log, s) failure next v p q = q log s v

process-Keeps :
    {S : Type 0} (o : Option Text × S) (failure : Text → S → SyncOutcome S)
    (next : S → SyncOutcome S)
    → ((e : Text) (s : S) → Keeps (failure e s))
    → ((s : S) → Keeps (next s))
    → Keeps (after_process o failure next)
process-Keeps (some e, s) failure next p q = p e s
process-Keeps (none, s) failure next p q = q s

pub if-Keeps :
    {S : Type 0} (b : Bool) (o o' : SyncOutcome S)
    → Keeps o
    → Keeps o'
    → Keeps (if b then o else o')
if-Keeps true o o' p q = p
if-Keeps false o o' p q = q

pub row-Keeps :
    {A S : Type 0} (r : Row A) (on_found : A → SyncOutcome S) (on_no_rows on_failed : SyncOutcome S)
    → ((a : A) → Keeps (on_found a))
    → Keeps on_no_rows
    → Keeps on_failed
    → Keeps (elim r [ found a ↦ on_found a | no_rows ↦ on_no_rows | failed ↦ on_failed ])
row-Keeps (found a) on_found on_no_rows on_failed p q r = p a
row-Keeps no_rows on_found on_no_rows on_failed p q r = q
row-Keeps failed on_found on_no_rows on_failed p q r = r

module _ {F O S : Type 0} (equal : F → F → Bool) (db : Tables F O S) (height : ℕ)
    (outs_keep : (hash : Text) (outs : List O) (log : List SyncError) (s : S)
      → IsLog log
      → Keeps (db.align_vouts height hash outs log s)) where
  align_vins-Keeps :
      (hash : Text) (i : ℕ) (vs : List ChainVin) (log : List SyncError) (s : S)
      → IsLog log
      → Keeps (align_vins equal db height hash i vs log s)
  unfolding align_vins
  align_vins-Keeps hash i [] log s v = v
  align_vins-Keeps hash i (w ∷ vs) log s v =
      option-Keeps (stored_input equal db height hash w s) _ _ v (λ row.
        option-Keeps
          (align_vin equal db.update_vin row w.vin
            (db.source s row.prevout_hash.value row.prevout_n.value) s)
          _ _
          (align_vins-Keeps hash (suc i) vs
            (record_error height (text "vin-alignment") db.query_error log) s
            (keeps_record height (text "vin-alignment") db.query_error log v))
          (λ out. align_vins-Keeps hash (suc i) vs log out.1 v))

  recorded-Keeps :
      (area e : Text) (log : List SyncError) (s : S)
      → IsLog log
      → Keeps (recorded height area e log s)
  recorded-Keeps area e log s v = keeps_record height area e log v

  align_parts-Keeps :
      (hash : Text) (tx : ChainTx O) (row : TxRow) (log : List SyncError) (s : S)
      → IsLog log
      → Keeps (align_parts equal db height hash tx row log s)
  align_parts-Keeps hash tx row log s v =
      option-Keeps (align_tx db.update_tx row tx.raw s) _ _
        (keeps_record height (text "tx-alignment") db.query_error log v)
        (λ out.
          after-Keeps (db.align_vouts height hash tx.outs log out.1) _ _
            (outs_keep hash tx.outs log out.1 v) (recorded-Keeps (text "vout-alignment"))
            (λ log2 s2 v2.
              after-Keeps (align_vins equal db height hash 0 tx.vin log2 s2) _ _
                (align_vins-Keeps hash 0 tx.vin log2 s2 v2) (recorded-Keeps (text "vin-alignment"))
                (λ log3 s3 v3. v3)))

  module _ (block_hash : Text) (block_time : ℕ) where
    read_again-Keeps :
        (hash : Text) (next : TxRow → List SyncError → S → SyncOutcome S) (log : List SyncError)
        (s : S)
        → IsLog log
        → ((row : TxRow) (s : S) → Keeps (next row log s))
        → Keeps (read_again equal db height block_hash block_time hash next log s)
    read_again-Keeps hash next log s v p =
        row-Keeps (db.transaction s block_hash hash) _ _ _ (λ row. p row s)
          (keeps_record height (text "mysql-tx") db.no_rows_error log v)
          (keeps_record height (text "mysql-tx") db.query_error log v)

    complete_parts-Keeps :
        (hash : Text) (tx : ChainTx O) (row : TxRow) (log : List SyncError) (s : S)
        → IsLog log
        → Keeps (complete_parts equal db height block_hash block_time hash tx row log s)
    unfolding complete_parts
    complete_parts-Keeps hash tx row log s v =
        option-Keeps (tx_parts_missing equal db height hash tx s) _ _
          (keeps_record height (text "tx-part-count") db.query_error log v)
          (λ missing.
            if-Keeps missing _ _
              (process-Keeps (db.process_tx s tx block_time height)
                (λ e s1. recorded height (text "tx-reprocessing") e log s1)
                (λ s1.
                  read_again equal db height block_hash block_time hash
                    (align_parts equal db height hash tx) log s1)
                (λ e s1. keeps_record height (text "tx-reprocessing") e log v)
                (λ s1.
                  read_again-Keeps hash (align_parts equal db height hash tx) log s1 v
                    (λ row2 s2. align_parts-Keeps hash tx row2 log s2 v)))
              (align_parts-Keeps hash tx row log s v))

    sync_tx-Keeps :
        (hash : Text) (tx : ChainTx O) (log : List SyncError) (s : S)
        → IsLog log
        → Keeps (sync_tx equal db height block_hash block_time hash tx log s)
    unfolding sync_tx
    sync_tx-Keeps hash tx log s v =
        row-Keeps (db.transaction s block_hash hash) _ _ _
          (λ row. complete_parts-Keeps hash tx row log s v)
          (process-Keeps (db.process_tx s tx block_time height) _ _
            (λ e s1. keeps_record height (text "tx-processing") e log v)
            (λ s1.
              read_again-Keeps hash (complete_parts equal db height block_hash block_time hash tx)
                log s1 v (λ row s2. complete_parts-Keeps hash tx row log s2 v)))
          (keeps_record height (text "mysql-tx") db.query_error log v)

    -- The log of errors stays one while the transactions of a block are aligned.
    pub align_txs-Keeps :
        (txs : List (Text × ChainTx O)) (log : List SyncError) (s : S)
        → IsLog log
        → Keeps (align_txs equal db height block_hash block_time txs log s)
    unfolding align_txs
    align_txs-Keeps [] log s v = v
    align_txs-Keeps (tx ∷ txs) log s v =
        after-Keeps (sync_tx equal db height block_hash block_time tx.0 tx.1 log s) _ _
          (sync_tx-Keeps tx.0 tx.1 log s v) (λ e log1 s1 v1. v1) (align_txs-Keeps txs)
