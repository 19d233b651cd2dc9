-- ===== src/Jobs/ChainSync/Txs.antt =====
-- alignTxs, txPartsMissing and alignVins of daemon/jobs/chainsync.go: the transactions of a block are
-- processed again where they or their parts are missing, and then aligned one by one. Each step
-- gives the error it returns, the log of errors and the database.
pub mod Log
use chainquery.Prelude.{
  ℕ, suc, Bool, true, false, ◌||◌, Option, none, some, List, [], ◌∷◌, ◌++◌, ltb, if◌then◌else◌,
  length,
}
use chainquery.Prelude.Text.{Text, text}
use chainquery.Processing.Blocks.Store.{Row, found, no_rows, failed}
use chainquery.Jobs.ChainSync.ErrorLog.{SyncError, record_error, IsLog, record_error-Records}
use chainquery.Jobs.ChainSync.Align.Columns.{Null}
use chainquery.Jobs.ChainSync.Align.Txs.{TxRow, RawTx, TxColumn, align_tx}
use chainquery.Processing.Inputs.{is_nonempty}
use chainquery.Jobs.ChainSync.Align.Vins.{VinRow, RawVin, VinColumn, align_vin}

-- An input of a transaction that lbrycrd gives, with the outpoint it spends.
pub record ChainVin : Type 0 where
  pub tx_id : Text
  pub vout : ℕ
  pub vin : RawVin

-- A transaction that lbrycrd gives; `outs` are its outputs.
pub record ChainTx (O : Type 0) : Type 0 where
  pub raw : RawTx
  pub vin : List ChainVin
  pub outs : List O

-- The error that is returned, the log, and the database.
abbrev pub SyncOutcome : Type 0 → Type 0
SyncOutcome S = Option Text × List SyncError × S

-- recordAndReturnError, as the last act of a function.
abbrev pub recorded : {S : Type 0} → ℕ → Text → Text → List SyncError → S → SyncOutcome S
recorded height area error log s = (some error, record_error height area error log, s)

-- What follows a step, as its error says.
abbrev pub after :
    {S : Type 0}
    → SyncOutcome S
    → (Text → List SyncError → S → SyncOutcome S)
    → (List SyncError → S → SyncOutcome S)
    → SyncOutcome S
after (some e, log, s) failure next = failure e log s
after (none, log, s) failure next = next log s

abbrev after_process :
    {S : Type 0}
    → Option Text × S
    → (Text → S → SyncOutcome S)
    → (S → SyncOutcome S)
    → SyncOutcome S
after_process (some e, s) failure next = failure e s
after_process (none, s) failure next = next s

-- What the job asks of the database, and how it changes it. `no_rows_error` and `query_error` are
-- the texts of the errors of a query or an update. The row of an output has its value alone.
pub record Tables (F O S : Type 0) : Type 0 where
  pub no_rows_error : Text
  pub query_error : Text
  -- A number in decimal.
  pub decimal : ℕ → Text
  pub transaction : S → (block hash : Text) → Row TxRow
  pub input_count : S → Text → Option ℕ
  pub output_count : S → Text → Option ℕ
  pub input : S → Text → (is_coinbase : Bool) → (prevout : Text) → ℕ → Option (VinRow F)
  -- The output that an input with this row spends.
  pub source : S → Text → ℕ → Option (Null F)
  pub update_tx : S → TxRow → List TxColumn → Option S
  pub update_vin : S → VinRow F → List VinColumn → Option S
  -- ProcessTx, with its error.
  pub process_tx : S → ChainTx O → (time height : ℕ) → Option Text × S
  -- alignVouts.
  pub align_vouts : (height : ℕ) → Text → List O → List SyncError → S → SyncOutcome S

module _ {F O S : Type 0} (equal : F → F → Bool) (db : Tables F O S) (height : ℕ) where
  abbrev query_fault : {A : Type 0} → Row A → Text
  query_fault failed = db.query_error
  query_fault _ = db.no_rows_error

  -- GetInput, asked a second time for a coinbase.
  abbrev stored_input : Text → ChainVin → S → Option (VinRow F)
  stored_input hash v s = elim (db.input s hash false v.tx_id v.vout) [
    | some row ↦ some row
    | none ↦ if is_nonempty v.vin.coinbase then db.input s hash true v.tx_id v.vout else none
  ]

  abbrev missing_vin : Text → ℕ → Text
  missing_vin hash i =
      text "missing vin "
      ++ hash
      ++ text ":"
      ++ db.decimal i
      ++ text " after transaction reprocessing"

  -- An alignment of an input that fails is recorded, and the next one follows.
  unfoldable pub align_vins : Text → ℕ → List ChainVin → List SyncError → S → SyncOutcome S
  align_vins hash i [] log s = (none, log, s)
  align_vins hash i (v ∷ vs) log s = elim (stored_input hash v s) [
    | none ↦ (some (missing_vin hash i), log, s)
    | some row ↦
        elim (align_vin equal db.update_vin row v.vin
          (db.source s row.prevout_hash.value row.prevout_n.value) s) [
            | none ↦
                align_vins hash (suc i) vs
                  (record_error height (text "vin-alignment") db.query_error log) s
            | some (row', s') ↦ align_vins hash (suc i) vs log s'
          ]
  ]

  unfoldable pub tx_parts_missing : Text → ChainTx O → S → Option Bool
  tx_parts_missing hash tx s = elim (db.input_count s hash) [
    | none ↦ none
    | some inputs ↦ elim (db.output_count s hash) [
      | none ↦ none
      | some outputs ↦ some (ltb inputs (length tx.vin) || ltb outputs (length tx.outs))
    ]
  ]

  -- The three alignments of a transaction with its row.
  abbrev align_parts : Text → ChainTx O → TxRow → List SyncError → S → SyncOutcome S
  align_parts hash tx row log s = elim (align_tx db.update_tx row tx.raw s) [
    | none ↦ recorded height (text "tx-alignment") db.query_error log s
    | some out ↦
        after (db.align_vouts height hash tx.outs log out.1)
          (recorded height (text "vout-alignment"))
          (λ log2 s2.
            after (align_vins hash 0 tx.vin log2 s2) (recorded height (text "vin-alignment"))
              (λ log3 s3. (none, log3, s3)))
  ]

  module _ (block_hash : Text) (block_time : ℕ) where
    -- The row is read again after the transaction was processed.
    abbrev read_again :
        Text → (TxRow → List SyncError → S → SyncOutcome S) → List SyncError → S → SyncOutcome S
    read_again hash next log s = elim (db.transaction s block_hash hash) [
      | found row ↦ next row log s
      | no_rows ↦ recorded height (text "mysql-tx") db.no_rows_error log s
      | failed ↦ recorded height (text "mysql-tx") db.query_error log s
    ]

    -- With a row: the parts are completed where some are missing.
    unfoldable pub complete_parts : Text → ChainTx O → TxRow → List SyncError → S → SyncOutcome S
    complete_parts hash tx row log s = elim (tx_parts_missing hash tx s) [
      | none ↦ recorded height (text "tx-part-count") db.query_error log s
      | some missing ↦
          if missing
          then after_process (db.process_tx s tx block_time height)
              (λ e s1. recorded height (text "tx-reprocessing") e log s1)
              (λ s1. read_again hash (align_parts hash tx) log s1)
          else align_parts hash tx row log s
    ]

    -- The body of the loop of alignTxs. A transaction that cannot be processed is passed over.
    unfoldable pub sync_tx : Text → ChainTx O → List SyncError → S → SyncOutcome S
    sync_tx hash tx log s = elim (db.transaction s block_hash hash) [
      | found row ↦ complete_parts hash tx row log s
      | no_rows ↦
          after_process (db.process_tx s tx block_time height)
            (λ e s1. (none, record_error height (text "tx-processing") e log, s1))
            (λ s1. read_again hash (complete_parts hash tx) log s1)
      | failed ↦ recorded height (text "mysql-tx") db.query_error log s
    ]

    unfoldable pub align_txs : List (Text × ChainTx O) → List SyncError → S → SyncOutcome S
    align_txs [] log s = (none, log, s)
    align_txs (tx ∷ txs) log s =
        after (sync_tx tx.0 tx.1 log s) (λ e log1 s1. (some e, log1, s1)) (align_txs txs)
