-- ===== src/Jobs/ChainSync/Align/Txs.antt =====
-- alignTx of daemon/jobs/chainsync.go: the same for a stored transaction.
use chainquery.Prelude.{ℕ, ◌≡◌, refl, sym, subst, Option, some, List, [], ◌++◌}
use chainquery.Jobs.ChainSync.Align.Columns.{
  Null, number_column, number_column-eq, number_column-none, ◌and_nil◌, write_columns,
  write_columns-cases, write_columns-nil,
}

-- The columns of a transaction that are aligned.
pub record TxRow : Type 0 where
  pub version : ℕ
  pub transaction_time : Null ℕ
  pub transaction_size : ℕ
  pub lock_time : ℕ
  pub input_count : ℕ
  pub output_count : ℕ

-- The numbers that lbrycrd gives for it, with the lengths of its two lists.
pub record RawTx : Type 0 where
  pub version : ℕ
  pub time : ℕ
  pub size : ℕ
  pub lock_time : ℕ
  pub vins : ℕ
  pub vouts : ℕ

pub data TxColumn : Type 0 where
  tx_version tx_time tx_size tx_lock_time tx_input_count tx_output_count : TxColumn

-- Only the value of the time is set, not that it is valid.
unfoldable pub aligned_tx : TxRow → RawTx → TxRow
aligned_tx t l = record {
  version = (number_column tx_version t.version l.version).0;
  transaction_time = record (t.transaction_time) {
    value = (number_column tx_time t.transaction_time.value l.time).0;
  };
  transaction_size = (number_column tx_size t.transaction_size l.size).0;
  lock_time = (number_column tx_lock_time t.lock_time l.lock_time).0;
  input_count = (number_column tx_input_count t.input_count l.vins).0;
  output_count = (number_column tx_output_count t.output_count l.vouts).0;
}

unfoldable pub tx_columns : TxRow → RawTx → List TxColumn
tx_columns t l =
    (number_column tx_version t.version l.version).1
    ++ ((number_column tx_time t.transaction_time.value l.time).1
        ++ ((number_column tx_size t.transaction_size l.size).1
            ++ ((number_column tx_lock_time t.lock_time l.lock_time).1
                ++ ((number_column tx_input_count t.input_count l.vins).1
                    ++ (number_column tx_output_count t.output_count l.vouts).1))))

module _ {S : Type 0} (update_columns : S → TxRow → List TxColumn → Option S) where
  unfoldable pub align_tx : TxRow → RawTx → S → Option (TxRow × S)
  align_tx t l s = write_columns update_columns (tx_columns t l) (aligned_tx t l) s

-- The row has lbrycrd's numbers, whether or not its time is valid.
pub record IsAlignedTx (t : TxRow) (l : RawTx) : Type 0 where
  pub version : t.version ≡ l.version
  pub time : t.transaction_time.value ≡ l.time
  pub size : t.transaction_size ≡ l.size
  pub lock_time : t.lock_time ≡ l.lock_time
  pub inputs : t.input_count ≡ l.vins
  pub outputs : t.output_count ≡ l.vouts

aligned_tx-IsAlignedTx : (t : TxRow) (l : RawTx) → IsAlignedTx (aligned_tx t l) l
unfolding aligned_tx
aligned_tx-IsAlignedTx t l = record {
  version = number_column-eq tx_version t.version l.version;
  time = number_column-eq tx_time t.transaction_time.value l.time;
  size = number_column-eq tx_size t.transaction_size l.size;
  lock_time = number_column-eq tx_lock_time t.lock_time l.lock_time;
  inputs = number_column-eq tx_input_count t.input_count l.vins;
  outputs = number_column-eq tx_output_count t.output_count l.vouts;
}

tx_columns-IsAlignedTx : (t : TxRow) (l : RawTx) → IsAlignedTx t l → tx_columns t l ≡ []
unfolding tx_columns
tx_columns-IsAlignedTx t l v =
    number_column-none tx_version t.version l.version v.version
    and_nil number_column-none tx_time t.transaction_time.value l.time v.time
    and_nil number_column-none tx_size t.transaction_size l.size v.size
    and_nil number_column-none tx_lock_time t.lock_time l.lock_time v.lock_time
    and_nil number_column-none tx_input_count t.input_count l.vins v.inputs
    and_nil number_column-none tx_output_count t.output_count l.vouts v.outputs

module _ {S : Type 0} (update_columns : S → TxRow → List TxColumn → Option S) where
  -- When the alignment of a stored transaction succeeds, the row has lbrycrd's numbers, and
  -- aligning it again writes nothing; but its time is valid only if it was valid before.
  align_tx_time :
      (t t' : TxRow) (l : RawTx) (s s' : S)
      → align_tx update_columns t l s ≡ some (t', s')
      → IsAlignedTx t' l
        × (t'.transaction_time.valid ≡ t.transaction_time.valid)
        × (align_tx update_columns t' l s' ≡ some (aligned_tx t' l, s'))
  unfolding align_tx aligned_tx
  align_tx_time t t' l s s' e =
      let (out, kept) =
        write_columns-cases update_columns (tx_columns t l) (aligned_tx t l) t' s s' e in
      let v : IsAlignedTx t' l =
        subst (λ c. IsAlignedTx c l) (sym out) (aligned_tx-IsAlignedTx t l) in
      (
        v,
        rw (out, aligned_tx) refl,
        write_columns-nil update_columns (tx_columns t' l) (aligned_tx t' l) s'
            (tx_columns-IsAlignedTx t' l v),
      )
