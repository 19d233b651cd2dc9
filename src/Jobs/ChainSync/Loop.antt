-- ===== src/Jobs/ChainSync/Loop.antt =====
-- ChainSync of daemon/jobs/chainsync.go: processNextBlock, the loop over the heights, and where it
-- starts. The clock is the number of rounds for which it leaves time.
use chainquery.Prelude.{
  ℕ, zero, suc, Bool, Option, none, some, List, [], ◌∷◌, ◌++◌, ltb, leb, ◌==◌, if◌then◌else◌,
}
use chainquery.Prelude.Text.{Text, text}
use chainquery.Processing.Blocks.Store.{
  Block, GetBlockResponse, Row, BlockStore, found, no_rows, failed,
}
use chainquery.Processing.Blocks.Process.{Lbrycrd, run_block_processing}
use chainquery.Jobs.ChainSync.ErrorLog.{SyncError, IsLog}
use chainquery.Jobs.ChainSync.Txs.{ChainTx, SyncOutcome, recorded, after, Tables, align_txs}
use chainquery.Jobs.ChainSync.Txs.Log.{
  align_txs-Keeps, Keeps, option-Keeps, after-Keeps, if-Keeps, row-Keeps, keeps_record,
}
use chainquery.Jobs.ChainSync.Align.Blocks.{BlockColumn, align_block}

-- chainSyncStatus, without the rows that a round works on.
pub record ChainSyncStatus : Type 0 where
  pub last_height : ℕ
  pub max_height_stored : ℕ
  pub errors : List SyncError

-- The calls of lbrycrd that fail do so with one text, and the rounding and comparison of floats.
pub record Chain (F O : Type 0) : Type 0 where
  pub lbrycrd : Lbrycrd F
  pub rpc_error : Text
  pub raw_transaction : Text → Option (ChainTx O)
  pub rounded : F → F
  pub equal : F → F → Bool

module _ {F O : Type 0} (db : BlockStore F) (tables : Tables F O db.State)
    (update_block : db.State → Block F → List BlockColumn → Option db.State)
    (last_block : db.State → Row (Block F)) (chain : Chain F O)
    (sync_transactions_of_block : db.State → List Text → ℕ → ℕ → Bool × db.State) where
  open db use {State, at_hash}

  unfoldable pub fetch_block_transactions : List Text → Option (List (Text × ChainTx O))
  fetch_block_transactions [] = some []
  fetch_block_transactions (hash ∷ hashes) =
      let rest = fetch_block_transactions hashes in
      elim (chain.raw_transaction hash) [
        | none ↦ none
        | some tx ↦ elim rest [ none ↦ none | some txs ↦ some ((hash, tx) ∷ txs) ]
      ]

  abbrev wrong_height : ℕ → ℕ → Text
  wrong_height processed height =
      text "processed height "
      ++ tables.decimal processed
      ++ text " while filling missing height "
      ++ tables.decimal height

  -- The block is there, or there is an error.
  abbrev read_block :
      ℕ → Text → (Block F → SyncOutcome State) → List SyncError → State → SyncOutcome State
  read_block height hash next log s = elim (at_hash s hash) [
    | found block ↦ next block
    | no_rows ↦ recorded height (text "mysql-getblock") tables.no_rows_error log s
    | failed ↦ recorded height (text "mysql-getblock") tables.query_error log s
  ]

  -- The block is processed where it is not stored.
  unfoldable pub ensure_block : (below : ℕ) → Text → List SyncError → State → SyncOutcome State
  ensure_block below hash log s = elim (at_hash s hash) [
    | found block ↦ (none, log, s)
    | no_rows ↦
        let (processed, s1) =
          run_block_processing db chain.lbrycrd sync_transactions_of_block below s in
        if processed == suc below
        then read_block (suc below) hash (λ block. (none, log, s1)) log s1
        else recorded (suc below) (text "daemon-process-block") (wrong_height processed (suc below))
            log s1
    | failed ↦ recorded (suc below) (text "mysql-getblock") tables.query_error log s
  ]

  -- The block's row and its transactions are aligned, in this order.
  unfoldable pub align_chain :
      ℕ
      → GetBlockResponse F
      → List (Text × ChainTx O)
      → List SyncError
      → State
      → Block F
      → SyncOutcome State
  align_chain height json txs log s block =
      elim (align_block chain.rounded chain.equal update_block block json s) [
        | none ↦ recorded height (text "block-alignment") tables.query_error log s
        | some out ↦
            after (align_txs chain.equal tables height out.0.hash out.0.block_time txs log out.1)
              (recorded height (text "tx-alignment")) (λ log2 s2. (none, log2, s2))
      ]

  abbrev after_block : ℕ → Text → GetBlockResponse F → List SyncError → State → SyncOutcome State
  after_block height hash json log s = elim (fetch_block_transactions json.tx) [
    | none ↦ recorded height (text "tx-hash-creation") chain.rpc_error log s
    | some txs ↦ read_block height hash (align_chain height json txs log s) log s
  ]

  -- processNextBlock at the height above the last.
  unfoldable pub process_next_block : (below : ℕ) → List SyncError → State → SyncOutcome State
  process_next_block below log s = elim (chain.lbrycrd.get_block_hash (suc below)) [
    | none ↦ recorded (suc below) (text "lbrycrd-getblockhash") chain.rpc_error log s
    | some hash ↦ elim (chain.lbrycrd.get_block hash) [
      | none ↦ recorded (suc below) (text "mysql-getblock") chain.rpc_error log s
      | some json ↦
          after (ensure_block below hash log s) (λ e log1 s1. (some e, log1, s1))
            (after_block (suc below) hash json)
    ]
  ]

  -- The loop of ChainSync, while there is time. An error of a round is only logged. processNextBlock
  -- counts the last height up at its start, which is written here. A panic, after which the job ends
  -- without storing its status, is no outcome of a round.
  unfoldable pub sync_rounds : (time : ℕ) → ChainSyncStatus → State → ChainSyncStatus × State
  sync_rounds zero c s = (c, s)
  sync_rounds (suc time) c s =
      let (e, log, s1) = process_next_block c.last_height c.errors s in
      let rest = sync_rounds time (record c { last_height = suc c.last_height; errors = log }) s1 in
      if ltb c.last_height c.max_height_stored then rest else (c, s)

  -- At the head the job starts again from below, with an empty log; `none` is an error.
  unfoldable update_max_height_stored : ChainSyncStatus → State → Option ChainSyncStatus
  update_max_height_stored c s = elim (last_block s) [
    | found block ↦ some (
        if leb block.height c.last_height
        then record c { last_height = 0; errors = [] }
        else record c { max_height_stored = block.height })
    | no_rows ↦ none
    | failed ↦ none
  ]

  -- ChainSync from the status that was stored.
  unfoldable chain_sync : (time : ℕ) → ChainSyncStatus → State → ChainSyncStatus × State
  unfolding sync_rounds update_max_height_stored
  chain_sync time stored s =
      let loaded : Option ChainSyncStatus =
        if stored.max_height_stored == 0 then update_max_height_stored stored s else some stored in
      elim loaded [
        | none ↦ (stored, s)
        | some c ↦
            let started : Option ChainSyncStatus =
              if leb c.max_height_stored c.last_height
              then update_max_height_stored c s
              else some c in
            elim started [ none ↦ (c, s) | some c' ↦ sync_rounds time c' s ]
      ]

  module _
      (outs_keep : (height : ℕ) (hash : Text) (outs : List O) (log : List SyncError) (s : State)
        → IsLog log
        → Keeps (tables.align_vouts height hash outs log s)) where
    read_block-Keeps :
        (height : ℕ) (hash : Text) (next : Block F → SyncOutcome State) (log : List SyncError)
        (s : State)
        → IsLog log
        → ((block : Block F) → Keeps (next block))
        → Keeps (read_block height hash next log s)
    read_block-Keeps height hash next log s v p =
        row-Keeps (at_hash s hash) _ _ _ p
          (keeps_record height (text "mysql-getblock") tables.no_rows_error log v)
          (keeps_record height (text "mysql-getblock") tables.query_error log v)

    ensure_block-Keeps :
        (below : ℕ) (hash : Text) (log : List SyncError) (s : State)
        → IsLog log
        → Keeps (ensure_block below hash log s)
    unfolding ensure_block
    ensure_block-Keeps below hash log s v =
        let (processed, s1) =
          run_block_processing db chain.lbrycrd sync_transactions_of_block below s in
        row-Keeps (at_hash s hash) _ _ _ (λ block. v)
          (if-Keeps (processed == suc below) _ _
            (read_block-Keeps (suc below) hash (λ block. (none, log, s1)) log s1 v (λ block. v))
            (keeps_record (suc below) (text "daemon-process-block")
              (wrong_height processed (suc below)) log v))
          (keeps_record (suc below) (text "mysql-getblock") tables.query_error log v)

    align_chain-Keeps :
        (height : ℕ) (json : GetBlockResponse F) (txs : List (Text × ChainTx O))
        (log : List SyncError) (s : State) (block : Block F)
        → IsLog log
        → Keeps (align_chain height json txs log s block)
    unfolding align_chain
    align_chain-Keeps height json txs log s block v =
        option-Keeps (align_block chain.rounded chain.equal update_block block json s) _ _
          (keeps_record height (text "block-alignment") tables.query_error log v)
          (λ out.
            after-Keeps
              (align_txs chain.equal tables height out.0.hash out.0.block_time txs log out.1) _ _
              (align_txs-Keeps chain.equal tables height (outs_keep height) out.0.hash
                out.0.block_time txs log out.1 v)
              (λ e log1 s1 v1. keeps_record height (text "tx-alignment") e log1 v1)
              (λ log1 s1 v1. v1))

    after_block-Keeps :
        (height : ℕ) (hash : Text) (json : GetBlockResponse F) (log : List SyncError) (s : State)
        → IsLog log
        → Keeps (after_block height hash json log s)
    after_block-Keeps height hash json log s v =
        option-Keeps (fetch_block_transactions json.tx) _ _
          (keeps_record height (text "tx-hash-creation") chain.rpc_error log v)
          (λ txs.
            read_block-Keeps height hash (align_chain height json txs log s) log s v
              (λ block. align_chain-Keeps height json txs log s block v))

    process_next_block-Keeps :
        (below : ℕ) (log : List SyncError) (s : State)
        → IsLog log
        → Keeps (process_next_block below log s)
    unfolding process_next_block
    process_next_block-Keeps below log s v =
        option-Keeps (chain.lbrycrd.get_block_hash (suc below)) _ _
          (keeps_record (suc below) (text "lbrycrd-getblockhash") chain.rpc_error log v)
          (λ hash.
            option-Keeps (chain.lbrycrd.get_block hash) _ _
              (keeps_record (suc below) (text "mysql-getblock") chain.rpc_error log v)
              (λ json.
                after-Keeps (ensure_block below hash log s) _ _
                  (ensure_block-Keeps below hash log s v) (λ e log1 s1 v1. v1)
                  (after_block-Keeps (suc below) hash json)))
