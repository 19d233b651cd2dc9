-- ===== src/Processing/Tx.antt =====
-- The parts of lbrycrd's raw transactions (lbrycrd/reponse.go) that the scheduler reads.
use chainquery.Prelude.{ℕ, List}
use chainquery.Prelude.Text.{Text}

pub record Vin : Type 0 where
  pub tx_id : Text
  pub vout : ℕ

pub record Vout : Type 0 where
  pub n : ℕ
  pub hex : Text

pub record TxRawResult : Type 0 where
  pub tx_id : Text
  pub vin : List Vin
  pub vout : List Vout
