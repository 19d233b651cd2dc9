-- ===== src/Processing/Blocks/Rows.antt =====
-- The functions of daemon/processing/block.go on single rows of the block table: parseBlockInfo,
-- setPreviousBlockInfo, markBlockProcessingState and deleteBlockWithRetry.
use chainquery.Prelude.{ℕ, zero, suc, Option, none, some, [], ◌∷◌}
use chainquery.Prelude.Text.{Text, text}
use chainquery.Processing.Blocks.Store.{Block, GetBlockResponse, BlockStore, found, no_rows, failed}

abbrev pub state_complete : Text
state_complete = text "complete"

abbrev pub state_processing : Text
state_processing = text "processing"

abbrev pub state_incomplete : Text
state_incomplete = text "incomplete"

-- null.NewString(hash, hash != "")
abbrev next_hash : Text → Option Text
next_hash [] = none
next_hash (c ∷ cs) = some (c ∷ cs)

-- The fields that parseBlockInfo sets; the key is that of the row found, and 0 of a new one.
unfoldable pub block_of_json : {F : Type 0} → ℕ → ℕ → GetBlockResponse F → Block F
block_of_json id height json = record {
  id = id;
  bits = json.bits;
  chainwork = json.chain_work;
  confirmations = json.confirmations;
  difficulty = json.difficulty;
  hash = json.hash;
  height = height;
  merkle_root = json.merkle_root;
  name_claim_root = json.name_claim_root;
  next_block_hash = next_hash json.next_block_hash;
  previous_block_hash = some json.previous_block_hash;
  nonce = json.nonce;
  block_size = json.size;
  block_time = json.time;
  version = json.version;
  version_hex = json.version_hex;
  tx_count = json.n_tx;
  processing_state = some state_processing;
}

module _ {F : Type 0} (db : BlockStore F) where
  open db use {State, at_height, at_hash, insert, update, update_state, delete}

  unfoldable pub parse_block_info : ℕ → GetBlockResponse F → State → Option (Block F × State)
  parse_block_info height json s = elim (at_hash s json.hash) [
    | found b ↦
        let block = block_of_json b.id height json in
        elim (update s block) [ none ↦ none | some s' ↦ some (block, s') ]
    | no_rows ↦ insert s (block_of_json 0 height json)
    | failed ↦ insert s (block_of_json 0 height json)
  ]

  unfoldable pub set_previous_block_info : ℕ → Text → State → Option State
  set_previous_block_info zero hash s = some s
  set_previous_block_info (suc below) hash s = elim (at_height s below) [
    | found prev ↦ update s (record prev { next_block_hash = some hash })
    | no_rows ↦ none
    | failed ↦ none
  ]

  -- The block with the state set, which is also what the pointer now shows, and the database.
  unfoldable pub mark_block_processing_state : Block F → Text → State → Option State
  mark_block_processing_state block state s =
      update_state s (record block { processing_state = some state })

  abbrev delete_attempts : (attempt left : ℕ) → Block F → State → Option State
  delete_attempts attempt zero block s = none
  delete_attempts attempt (suc left) block s =
      let rest = delete_attempts (suc attempt) left block s in
      elim (delete s attempt block) [ none ↦ rest | some s' ↦ some s' ]

  unfoldable pub delete_block_with_retry : Block F → State → Option State
  delete_block_with_retry block s = delete_attempts 0 3 block s
