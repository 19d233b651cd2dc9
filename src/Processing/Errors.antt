-- ===== src/Processing/Errors.antt =====
-- daemon/processing/errors.go and the classification of errors in block_scheduler.go. An error is
-- given by what `errors.As` finds in its chain.
use chainquery.Prelude.{ℕ, Bool, false, ◌||◌, Option, none, some, ◌==◌}
use chainquery.Prelude.Text.{Text}

pub record MissingSourceOutput : Type 0 where
  pub prevout_tx_id : Text
  pub tx_id : Text
  pub prevout_n : ℕ
  pub block_height : ℕ

pub record TxError : Type 0 where
  pub missing : Option MissingSourceOutput
  pub mysql_number : Option ℕ

unfoldable pub missing_source_output_from_error : TxError → Option MissingSourceOutput
missing_source_output_from_error e = e.missing

unfoldable enrich_missing_source_output : TxError → Text → ℕ → TxError
enrich_missing_source_output e tx_id block_height = elim e.missing [
  | none ↦ e
  | some m ↦ record {
    missing = some (record m { tx_id = tx_id; block_height = block_height });
    mysql_number = none;
  }
]

abbrev mysql_error_lock_wait_timeout : ℕ
mysql_error_lock_wait_timeout = 1205

abbrev mysql_error_deadlock : ℕ
mysql_error_deadlock = 1213

unfoldable pub is_retryable_storage_error : TxError → Bool
is_retryable_storage_error e = elim e.mysql_number [
  | none ↦ false
  | some number ↦ number == mysql_error_lock_wait_timeout || number == mysql_error_deadlock
]

unfoldable pub is_retryable_scheduled_tx_error : TxError → Bool
unfolding is_retryable_storage_error
is_retryable_scheduled_tx_error e = is_retryable_storage_error e
