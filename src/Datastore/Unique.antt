-- ===== src/Datastore/Unique.antt =====
-- What PutOutput and PutInput of datastore/datastore.go do to the rows of their tables.
use chainquery.Datastore.{
  get_one, put_by_test, put_input_test, get_input_test, put_input, InputRecord, Answer, found,
  no_rows, failed, Table, OutputRecord, get_input, text_is, output_is, written, put_output,
}
use chainquery.Prelude.{
  ℕ, ◌+◌, ◌≤◌, ◌≡◌, refl, sym, ap, subst, ◌∙◌, ◌≢◌, ◌⊎◌, inl, inr, if_pos, Bool, true, false,
  Option, none, some, List, [], ◌∷◌, ◌++◌, arith, if◌then◌else◌, Option-cases, All,
}
use chainquery.Prelude.Text.{Text, text_discrete}

some-injective : {A : Type 0} (a b : A) → some a ≡ some b → a ≡ b
some-injective a b e = cc

false-ne-true : false ≢ true
false-ne-true e = cc

Answer-cases :
    {R : Type 0} (a : Answer R) → (a ≡ failed) ⊎ (a ≡ no_rows) ⊎ ((r : R) × (a ≡ found r))
Answer-cases failed = inl refl
Answer-cases no_rows = inr (inl refl)
Answer-cases (found r) = inr (inr (r, refl))

abbrev pub count : {R : Type 0} → (R → Bool) → List R → ℕ
count test [] = 0
count test (r ∷ rs) = (if test r then 1 else 0) + count test rs

abbrev pub StandsIn : {R : Type 0} → R → List R → Type 0
StandsIn {R} r rows = (front : List R) × (back : List R) × (rows ≡ front ++ r ∷ back)

count-append :
    {R : Type 0} (test : R → Bool) (xs ys : List R)
    → count test (xs ++ ys) ≡ count test xs + count test ys
count-append test [] ys = omega arith
count-append test (x ∷ xs) ys = omega (arith, count-append test xs ys)

count-none :
    {R : Type 0} (test : R → Bool) (rows : List R)
    → All (λ r. test r ≡ false) rows
    → count test rows ≡ 0
count-none test [] h = refl
count-none test (r ∷ rows) (h, hs) = rw (h) (omega (arith, count-none test rows hs))

-- The rows of a table, and what a query, an insertion and an update of a row do to them. The key
-- of a row is its primary key: an update writes the one row that has it, or none.
pub record TableLaws {R : Type 0} (table : Table R) (id_of : R → ℕ) (with_id : ℕ → R → R)
    : Type 0 where
  pub rows : table.State → List R
  pub finds :
      (s : table.State) (test : R → Bool) (r : R)
      → table.one s test ≡ found r
      → (test r ≡ true) × StandsIn r (rows s)
  pub finds_none :
      (s : table.State) (test : R → Bool)
      → table.one s test ≡ no_rows
      → All (λ r. test r ≡ false) (rows s)
  pub inserts :
      (s s' : table.State) (r r' : R)
      → table.insert s r ≡ some (r', s')
      → (k : ℕ) × (r' ≡ with_id k r) × (rows s' ≡ rows s ++ r' ∷ [])
  pub updates :
      (s s' : table.State) (r old : R) (front back : List R)
      → table.update s r ≡ some s'
      → rows s ≡ front ++ old ∷ back
      → id_of old ≡ id_of r
      → rows s' ≡ front ++ r ∷ back
  pub updates_none :
      (s s' : table.State) (r : R)
      → table.update s r ≡ some s'
      → All (λ x. id_of x ≢ id_of r) (rows s)
      → rows s' ≡ rows s

written-some :
    {R : Type 0} (t : Table R) (o : R) (w : Option t.State) (r : R × t.State)
    → written t o w ≡ some r
    → (w ≡ some r.1) × (o ≡ r.0)
written-some t o none r e = absurd (ground arith)
written-some t o (some s) r e =
    let same = some-injective (o, s) r e in (ap (λ x. some x.1) same, ap (λ x. x.0) same)

module _ {C Columns : Type 0} (t : Table (OutputRecord C))
    (laws : TableLaws t (λ o. o.id) (λ k o. record o { id = k }))
    (update_columns : t.State → Columns → OutputRecord C → Option t.State)
    (pick : Columns → (old new : C) → C) where
  open laws use {rows}

  text_is_self : (a : Text) → text_is a a ≡ true
  text_is_self a = if_pos (text_discrete a a) refl true false

  output_is_self : (o : OutputRecord C) → output_is o.transaction_hash o.vout o ≡ true
  output_is_self o = rw (text_is_self o.transaction_hash) (ground arith)

  -- What an update of some columns does to the rows: the row of the key keeps its hash and index,
  -- and has of its other columns those picked.
  abbrev pub UpdatesColumns : Type 0
  UpdatesColumns =
      (s s' : t.State) (columns : Columns) (r old : OutputRecord C)
      (front back : List (OutputRecord C))
      → update_columns s columns r ≡ some s'
      → rows s ≡ front ++ old ∷ back
      → old.id ≡ r.id
      → rows s' ≡ front ++ (record old { columns = pick columns old.columns r.columns }) ∷ back

  abbrev Once : t.State → t.State → OutputRecord C → Columns → OutputRecord C → Type 0
  Once s s' o columns o' =
      (count (output_is o.transaction_hash o.vout) (rows s') ≡ 1)
      × (stored : OutputRecord C) × StandsIn stored (rows s')
      × (stored.id ≡ o'.id)
      × (output_is o.transaction_hash o.vout stored ≡ true)
      × ((All (λ r. output_is o.transaction_hash o.vout r ≡ false) (rows s)
            × (stored.columns ≡ o.columns))
          ⊎ ((old : OutputRecord C) × StandsIn old (rows s)
              × (old.id ≡ stored.id)
              × (stored.columns ≡ pick columns old.columns o.columns)))

  inserted :
      (s s' : t.State) (o : OutputRecord C) (columns : Columns) (k : ℕ) (o' : OutputRecord C)
      → o' ≡ record o { id = k }
      → rows s' ≡ rows s ++ o' ∷ []
      → All (λ r. output_is o.transaction_hash o.vout r ≡ false) (rows s)
      → Once s s' o columns o'
  inserted s s' o columns k o' same grown none_there =
      let test = output_is o.transaction_hash o.vout in
      let matches : test o' ≡ true = ap test same ∙ output_is_self o in
      let size = ap (count test) grown ∙ count-append test (rows s) (o' ∷ []) in
      (
        size ∙ rw (count-none test (rows s) none_there, matches) (omega arith),
        o',
        (rows s, [], grown),
        refl,
        matches,
        inl (none_there, ap (λ r. r.columns) same),
      )

  replaced :
      (s s' : t.State) (o : OutputRecord C) (columns : Columns) (old : OutputRecord C)
      (front back : List (OutputRecord C))
      → output_is o.transaction_hash o.vout old ≡ true
      → rows s ≡ front ++ old ∷ back
      → count (output_is o.transaction_hash o.vout) (rows s) ≤ 1
      → rows s' ≡ front ++ (record old { columns = pick columns old.columns o.columns }) ∷ back
      → Once s s' o columns (record o { id = old.id })
  replaced s s' o columns old front back match split few after =
      let test = output_is o.transaction_hash o.vout in
      let kept : OutputRecord C = record old { columns = pick columns old.columns o.columns } in
      let before = ap (count test) split ∙ count-append test front (old ∷ back) in
      let then_ = ap (count test) after ∙ count-append test front (kept ∷ back) in
      let one : count test (old ∷ back) ≡ 1 + count test back = rw (match) refl in
      let still : count test (kept ∷ back) ≡ 1 + count test back = rw (match) refl in
      (
        omega arith,
        kept,
        (front, back, after),
        refl,
        match,
        inr (old, (front, back, split), refl, refl),
      )

  -- Let the rows of the output table change as the statements say. If at most one row has the
  -- transaction hash and the index of an output, and the output is put without error, then exactly
  -- one has, and it has the key of the output that is returned; either no row had them before, and
  -- the new row has all the columns that were put, or it was there already, and keeps its key, and
  -- has those of the columns to update that were put and its own in the others.
  pub put_output_once :
      UpdatesColumns
      → (s s' : t.State) (o : OutputRecord C) (columns : Columns) (o' : OutputRecord C)
      → count (output_is o.transaction_hash o.vout) (rows s) ≤ 1
      → put_output t update_columns s o columns ≡ some (o', s')
      → (count (output_is o.transaction_hash o.vout) (rows s') ≡ 1)
        × (stored : OutputRecord C) × StandsIn stored (rows s')
        × (stored.id ≡ o'.id)
        × (output_is o.transaction_hash o.vout stored ≡ true)
        × ((All (λ r. output_is o.transaction_hash o.vout r ≡ false) (rows s)
              × (stored.columns ≡ o.columns))
            ⊎ ((old : OutputRecord C) × StandsIn old (rows s)
                × (old.id ≡ stored.id)
                × (stored.columns ≡ pick columns old.columns o.columns)))
  unfolding put_output
  put_output_once updates_columns s s' o columns o' few e =
      let test = output_is o.transaction_hash o.vout in
      elim (Answer-cases (t.one s test)) [
        | inl f ↦ absurd (ground (arith, rw (put_output, f) at e))
        | inr (inl n) ↦
            let (k, same, grown) = laws.inserts s s' o o' (rw (put_output, n) at e) in
            inserted s s' o columns k o' same grown (laws.finds_none s test n)
        | inr (inr (old, h)) ↦
            let kept : OutputRecord C = record o { id = old.id } in
            let (stored, same) =
              written-some t kept (update_columns s columns kept) (o', s')
                (rw (put_output, h) at e) in
            let (match, (front, back, split)) = laws.finds s test old h in
            subst (Once s s' o columns) same (
              replaced s s' o columns old front back match split few
                (updates_columns s s' columns kept old front back stored split refl))
      ]

module _ {C : Type 0} (t : Table (InputRecord C))
    (laws : TableLaws t (λ i. i.id) (λ k i. record i { id = k })) where
  open laws use {rows}

  finds_no_null :
      (tx_hash prev : Text) (is_coinbase : Bool) (n : ℕ) (r : InputRecord C)
      → r.prevout_hash ≡ none
      → get_input_test tx_hash is_coinbase prev n r ≡ false
  finds_no_null tx_hash prev is_coinbase n r h = rw (h) (ground arith)

  get_input-found :
      (s : t.State) (tx_hash prev : Text) (is_coinbase : Bool) (n : ℕ) (r : InputRecord C)
      → get_input t s tx_hash is_coinbase prev n ≡ some r
      → get_input_test tx_hash is_coinbase prev n r ≡ true
  unfolding get_input
  get_input-found s tx_hash prev is_coinbase n r e =
      let test = get_input_test tx_hash is_coinbase prev n in
      elim (Answer-cases (t.one s test)) [
        | inl f ↦ absurd (ground (arith, rw (get_input, get_one, f) at e))
        | inr (inl f) ↦ absurd (ground (arith, rw (get_input, get_one, f) at e))
        | inr (inr (x, h)) ↦
            let same : x ≡ r = some-injective x r (rw (get_input, get_one, h) at e) in
            ap test (sym same) ∙ (laws.finds s test x h).0
      ]

  -- Let the rows of the input table change as the statements say, and let no row have key 0. When
  -- an input without a previous hash, that has no key yet, is put although such an input is stored,
  -- then no row is changed; and whatever GetInput finds has a previous hash.
  pub coinbase_not_updated :
      (s s' : t.State) (i i' : InputRecord C) (tx_hash prev : Text) (n : ℕ)
      → i.prevout_hash ≡ none
      → i.id ≡ 0
      → t.exists s (put_input_test i) ≡ some true
      → All (λ x. x.id ≢ 0) (rows s)
      → put_input t s i ≡ some (i', s')
      → (rows s' ≡ rows s)
        × ((get_input t s tx_hash true prev n ≡ none)
            ⊎ ((r : InputRecord C) × (get_input t s tx_hash true prev n ≡ some r)
                × (r.prevout_hash ≢ none)))
  unfolding put_input
  coinbase_not_updated s s' i i' tx_hash prev n null new there keyed e =
      let (stored, same) =
        written-some t i (t.update s i) (i', s') (rw (put_input, put_by_test, there) at e) in
      (
        laws.updates_none s s' i stored (subst (λ k. All (λ x. x.id ≢ k) (rows s)) (sym new) keyed),
        elim (Option-cases (get_input t s tx_hash true prev n)) [
          | inl missing ↦ inl missing
          | inr (r, found_row) ↦ inr (
            r,
            found_row,
            λ null_row. false-ne-true (
                sym (finds_no_null tx_hash prev true n r null_row)
                ∙ get_input-found s tx_hash prev true n r found_row),
          )
        ],
      )
