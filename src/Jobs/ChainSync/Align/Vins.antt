-- ===== src/Jobs/ChainSync/Align/Vins.antt =====
-- alignVin of daemon/jobs/chainsync.go: the same for a stored input, whose value is that of the output
-- it spends. Amounts are values of an abstract type.
use chainquery.Processing.Inputs.{ScriptSig, join, is_nonempty}
use chainquery.Prelude.{
  ℕ, ◌≡◌, refl, sym, subst, ite, Bool, true, false, Option, none, some, List, [], ◌∷◌, ◌++◌, arith,
  if◌then◌else◌,
}
use chainquery.Prelude.Text.{Text, text_discrete}
use chainquery.Jobs.ChainSync.Align.Columns.{
  Null, set_valid, ◌and_nil◌, write_columns, write_columns-cases, write_columns-nil,
}

-- The columns of an input that are aligned, and those that name the output it spends.
pub record VinRow (F : Type 0) : Type 0 where
  pub prevout_hash : Null Text
  pub prevout_n : Null ℕ
  pub coinbase : Null Text
  pub witness : Null Text
  pub script_sig_hex : Null Text
  pub script_sig_asm : Null Text
  pub value : Null F

-- lbrycrd's input.
pub record RawVin : Type 0 where
  pub coinbase : Text
  pub witness : List Text
  pub script_sig : Option ScriptSig

pub data VinColumn : Type 0 where
  vin_coinbase vin_witness vin_script_sig_hex vin_script_sig_asm vin_value : VinColumn

-- A column of text is null where lbrycrd gives no text.
abbrev null_column : VinColumn → Null Text → Text → Null Text × List VinColumn
null_column col own theirs =
    ite (text_discrete own.value theirs) (own, [])
      (record { valid = is_nonempty theirs; value = theirs }, col ∷ [])

-- Without a script the columns become null, and keep their text.
abbrev no_script_column : VinColumn → Null Text → Null Text × List VinColumn
no_script_column col own = if own.valid then (record own { valid = false }, col ∷ []) else (own, [])

abbrev script_hex_column : Null Text → Option ScriptSig → Null Text × List VinColumn
script_hex_column own none = no_script_column vin_script_sig_hex own
script_hex_column own (some sig) = null_column vin_script_sig_hex own sig.hex

abbrev script_asm_column : Null Text → Option ScriptSig → Null Text × List VinColumn
script_asm_column own none = no_script_column vin_script_sig_asm own
script_asm_column own (some sig) = null_column vin_script_sig_asm own sig.asm

-- The row says of a script what lbrycrd says.
abbrev HasScript : Null Text → Null Text → Option ScriptSig → Type 0
HasScript hex asm none = (hex.valid ≡ false) × (asm.valid ≡ false)
HasScript hex asm (some sig) = (hex.value ≡ sig.hex) × (asm.value ≡ sig.asm)

null_column-eq :
    (col : VinColumn) (own : Null Text) (theirs : Text)
    → (null_column col own theirs).0.value ≡ theirs
null_column-eq col own theirs = ground arith

null_column-none :
    (col : VinColumn) (own : Null Text) (theirs : Text)
    → own.value ≡ theirs
    → (null_column col own theirs).1 ≡ []
null_column-none col own theirs e = ground arith

no_script-null : (col : VinColumn) (own : Null Text) → (no_script_column col own).0.valid ≡ false
no_script-null col own = ground arith

no_script-none :
    (col : VinColumn) (own : Null Text) → own.valid ≡ false → (no_script_column col own).1 ≡ []
no_script-none col own e = rw e refl

aligned-HasScript :
    (hex asm : Null Text) (sig : Option ScriptSig)
    → HasScript (script_hex_column hex sig).0 (script_asm_column asm sig).0 sig
aligned-HasScript hex asm none =
    (no_script-null vin_script_sig_hex hex, no_script-null vin_script_sig_asm asm)
aligned-HasScript hex asm (some sig) =
    (null_column-eq vin_script_sig_hex hex sig.hex, null_column-eq vin_script_sig_asm asm sig.asm)

script-none :
    (hex asm : Null Text) (sig : Option ScriptSig)
    → HasScript hex asm sig
    → ((script_hex_column hex sig).1 ≡ []) × ((script_asm_column asm sig).1 ≡ [])
script-none hex asm none (h, a) =
    (no_script-none vin_script_sig_hex hex h, no_script-none vin_script_sig_asm asm a)
script-none hex asm (some sig) (h, a) = (
  null_column-none vin_script_sig_hex hex sig.hex h,
  null_column-none vin_script_sig_asm asm sig.asm a,
)

module _ {F : Type 0} (equal : F → F → Bool) where
  -- The value is left alone where the spent output is not stored.
  abbrev value_column : Null F → Option (Null F) → Null F × List VinColumn
  value_column own none = (own, [])
  value_column own (some source) =
      if equal own.value source.value then (own, []) else (set_valid source.value, vin_value ∷ [])

  unfoldable pub aligned_vin : VinRow F → RawVin → Option (Null F) → VinRow F
  aligned_vin r v source = record r {
    coinbase = (null_column vin_coinbase r.coinbase v.coinbase).0;
    witness = (null_column vin_witness r.witness (join v.witness)).0;
    script_sig_hex = (script_hex_column r.script_sig_hex v.script_sig).0;
    script_sig_asm = (script_asm_column r.script_sig_asm v.script_sig).0;
    value = (value_column r.value source).0;
  }

  unfoldable pub vin_columns : VinRow F → RawVin → Option (Null F) → List VinColumn
  vin_columns r v source =
      (null_column vin_coinbase r.coinbase v.coinbase).1
      ++ ((null_column vin_witness r.witness (join v.witness)).1
          ++ ((script_hex_column r.script_sig_hex v.script_sig).1
              ++ ((script_asm_column r.script_sig_asm v.script_sig).1
                  ++ (value_column r.value source).1)))

  -- The value of the row is that of the spent output, if this is stored.
  abbrev HasSourceValue : Null F → Option (Null F) → Type 0
  HasSourceValue own none = Unit
  HasSourceValue own (some source) = equal own.value source.value ≡ true

  pub record IsAlignedVin (r : VinRow F) (v : RawVin) (source : Option (Null F)) : Type 0 where
    pub coinbase : r.coinbase.value ≡ v.coinbase
    pub witness : r.witness.value ≡ join v.witness
    pub script : HasScript r.script_sig_hex r.script_sig_asm v.script_sig
    pub value : HasSourceValue r.value source

  aligned-HasSourceValue :
      ((x : F) → equal x x ≡ true)
      → (own : Null F) (source : Option (Null F))
      → HasSourceValue (value_column own source).0 source
  aligned-HasSourceValue eq_refl own none = tt
  aligned-HasSourceValue eq_refl own (some source) = let r = eq_refl source.value in ground arith

  source-none :
      (own : Null F) (source : Option (Null F))
      → HasSourceValue own source
      → (value_column own source).1 ≡ []
  source-none own none e = refl
  source-none own (some source) e = rw e refl

  aligned_vin-IsAlignedVin :
      ((x : F) → equal x x ≡ true)
      → (r : VinRow F) (v : RawVin) (source : Option (Null F))
      → IsAlignedVin (aligned_vin r v source) v source
  unfolding aligned_vin
  aligned_vin-IsAlignedVin eq_refl r v source = record {
    coinbase = null_column-eq vin_coinbase r.coinbase v.coinbase;
    witness = null_column-eq vin_witness r.witness (join v.witness);
    script = aligned-HasScript r.script_sig_hex r.script_sig_asm v.script_sig;
    value = aligned-HasSourceValue eq_refl r.value source;
  }

  vin_columns-IsAlignedVin :
      (r : VinRow F) (v : RawVin) (source : Option (Null F))
      → IsAlignedVin r v source
      → vin_columns r v source ≡ []
  unfolding vin_columns
  vin_columns-IsAlignedVin r v source a =
      let (hex, asm) = script-none r.script_sig_hex r.script_sig_asm v.script_sig a.script in
      null_column-none vin_coinbase r.coinbase v.coinbase a.coinbase
      and_nil null_column-none vin_witness r.witness (join v.witness) a.witness
      and_nil hex
      and_nil asm
      and_nil source-none r.value source a.value

  module _ {S : Type 0} (update_columns : S → VinRow F → List VinColumn → Option S) where
    -- `source` is the stored output that the input spends, if there is one.
    unfoldable pub align_vin : VinRow F → RawVin → Option (Null F) → S → Option (VinRow F × S)
    align_vin r v source s =
        write_columns update_columns (vin_columns r v source) (aligned_vin r v source) s

    -- Where a value equals itself, an aligned input has lbrycrd's texts and the value of the output
    -- it spends, a second alignment writes nothing, and the first wrote nothing if the input was
    -- aligned.
    pub align_vin_once :
        ((x : F) → equal x x ≡ true)
        → (r r' : VinRow F) (v : RawVin) (source : Option (Null F)) (s s' : S)
        → align_vin r v source s ≡ some (r', s')
        → IsAlignedVin r' v source
          × (align_vin r' v source s' ≡ some (aligned_vin r' v source, s'))
          × (IsAlignedVin r v source → s' ≡ s)
    unfolding align_vin
    align_vin_once eq_refl r r' v source s s' e =
        let (out, kept) =
          write_columns-cases update_columns (vin_columns r v source) (aligned_vin r v source) r' s
            s' e in
        let a : IsAlignedVin r' v source =
          subst (λ c. IsAlignedVin c v source) (sym out)
            (aligned_vin-IsAlignedVin eq_refl r v source) in
        (
          a,
          write_columns-nil update_columns (vin_columns r' v source) (aligned_vin r' v source) s'
              (vin_columns-IsAlignedVin r' v source a),
          λ w. kept (vin_columns-IsAlignedVin r v source w),
        )
