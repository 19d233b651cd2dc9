-- ===== src/Tests/Datastore.antt =====
-- Puts to tables of at most one row.
use chainquery.Datastore.{
  Answer, found, no_rows, Table, OutputRecord, InputRecord, output_is, put_output, get_input,
  put_input,
}
use chainquery.Datastore.Unique.{
  count, StandsIn, TableLaws, put_output_once, UpdatesColumns, coinbase_not_updated,
}
use chainquery.Prelude.{
  ℕ, ◌≡◌, refl, sym, ap, ◌∙◌, ◌≢◌, ◌⊎◌, inl, inr, Bool, true, false, Option, none, some, List, [],
  ◌∷◌, ◌++◌, arith, ◌==◌, if◌then◌else◌, Bool-cases, All,
}
use chainquery.Prelude.Text.{text, text_discrete}

some-injective : {A : Type 0} (a b : A) → some a ≡ some b → a ≡ b
some-injective a b e = cc

module _ {R : Type 0} (id_of : R → ℕ) where
  abbrev one_of : Option R → (R → Bool) → Answer R
  one_of none test = no_rows
  one_of (some r) test = if test r then found r else no_rows

  abbrev exists_in : Option R → (R → Bool) → Option Bool
  exists_in none test = some false
  exists_in (some r) test = some (test r)

  abbrev insert_in : Option R → R → Option (R × Option R)
  insert_in none r = some (r, some r)
  insert_in (some x) r = none

  abbrev update_in : Option R → R → Option (Option R)
  update_in none r = some none
  update_in (some x) r = some (some (if id_of x == id_of r then r else x))

  abbrev single : Table R
  single = record {
    State = Option R;
    one = one_of;
    exists = exists_in;
    insert = insert_in;
    update = update_in;
    upsert = insert_in;
  }

  abbrev rows_of : Option R → List R
  rows_of none = []
  rows_of (some r) = r ∷ []

  finds_lem :
      (s : Option R) (test : R → Bool) (r : R)
      → one_of s test ≡ found r
      → (test r ≡ true) × StandsIn r (rows_of s)
  finds_lem none test r e = cc
  finds_lem (some x) test r e = elim (Bool-cases (test x)) [
    | inl t ↦
        let same : x ≡ r = ground arith in (ap test (sym same) ∙ t, ([], [], ap (λ y. y ∷ []) same))
    | inr f ↦ absurd (ground arith)
  ]

  finds_none_lem :
      (s : Option R) (test : R → Bool)
      → one_of s test ≡ no_rows
      → All (λ r. test r ≡ false) (rows_of s)
  finds_none_lem none test e = tt
  finds_none_lem (some x) test e = elim (Bool-cases (test x)) [
    | inl t ↦ absurd (ground arith)
    | inr f ↦ (f, tt)
  ]

  inserts_lem :
      (with_id : ℕ → R → R)
      → ((r : R) → r ≡ with_id (id_of r) r)
      → (s s' : Option R) (r r' : R) → insert_in s r ≡ some (r', s')
      → (k : ℕ) × (r' ≡ with_id k r) × (rows_of s' ≡ rows_of s ++ r' ∷ [])
  inserts_lem with_id own (some x) s' r r' e = absurd (cc)
  inserts_lem with_id own none s' r r' e =
      let same = some-injective (r, some r) (r', s') e in
      (
        id_of r,
        sym (ap (λ p. p.0) same) ∙ own r,
        ap (λ p. rows_of p.1) (sym same) ∙ ap (λ p. p.0 ∷ []) same,
      )

  updates_lem :
      (s s' : Option R) (r old : R) (front back : List R)
      → update_in s r ≡ some s'
      → rows_of s ≡ front ++ old ∷ back
      → id_of old ≡ id_of r
      → rows_of s' ≡ front ++ r ∷ back
  updates_lem none s' r old [] back e split same = absurd (cc)
  updates_lem none s' r old (f ∷ front) back e split same = absurd (cc)
  updates_lem (some x) s' r old [] back e split same =
      let here : x ≡ old = cc in
      let at : (id_of x == id_of r) ≡ true = ground (arith, ap id_of here) in
      let new : some r ≡ s' = ground arith in
      let end : [] ≡ back = cc in ap rows_of (sym new) ∙ ap (◌∷◌ r) end
  updates_lem (some x) s' r old (f ∷ []) back e split same = absurd (cc)
  updates_lem (some x) s' r old (f ∷ g ∷ front) back e split same = absurd (cc)

  updates_none_lem :
      (s s' : Option R) (r : R)
      → update_in s r ≡ some s'
      → All (λ x. id_of x ≢ id_of r) (rows_of s)
      → rows_of s' ≡ rows_of s
  updates_none_lem none s' r e h = ap rows_of (sym (some-injective none s' e))
  updates_none_lem (some x) s' r e (h, _) =
      let other : (id_of x == id_of r) ≡ false = ground arith in
      let same : some x ≡ s' = ground arith in ap rows_of (sym same)

  laws_of :
      (with_id : ℕ → R → R) → ((r : R) → r ≡ with_id (id_of r) r) → TableLaws single id_of with_id
  laws_of with_id own = record {
    rows = rows_of;
    finds = finds_lem;
    finds_none = finds_none_lem;
    inserts = inserts_lem with_id own;
    updates = updates_lem;
    updates_none = updates_none_lem;
  }

abbrev an_output : OutputRecord ℕ
an_output = record { id = 0; transaction_hash = text "t"; vout = 1; columns = 7 }

abbrev an_older : OutputRecord ℕ
an_older = record { id = 3; transaction_hash = text "t"; vout = 1; columns = 6 }

abbrev a_newer : OutputRecord ℕ
a_newer = record an_output { id = 3 }

-- The columns to update are all or none.
abbrev pick : Bool → ℕ → ℕ → ℕ
pick all old new = if all then new else old

abbrev update_output :
    Option (OutputRecord ℕ) → Bool → OutputRecord ℕ → Option (Option (OutputRecord ℕ))
update_output none all r = some none
update_output (some x) all r =
    some (some (if x.id == r.id then record x { columns = pick all x.columns r.columns } else x))

abbrev output_laws :
    TableLaws {R = OutputRecord ℕ} (single (λ o. o.id)) (λ o. o.id) (λ k o. record o { id = k })
output_laws = laws_of (λ o. o.id) (λ k o. record o { id = k }) (λ r. refl)

update_output-UpdatesColumns : UpdatesColumns (single (λ o. o.id)) output_laws update_output pick
unfolding laws_of
update_output-UpdatesColumns none s' all r old [] back e split same = absurd (cc)
update_output-UpdatesColumns none s' all r old (f ∷ front) back e split same = absurd (cc)
update_output-UpdatesColumns (some x) s' all r old [] back e split same =
    let here : x ≡ old = cc in
    let at : (x.id == r.id) ≡ true = ground (arith, ap (λ o. o.id) here) in
    let put : OutputRecord ℕ = record x { columns = pick all x.columns r.columns } in
    let new : some put ≡ s' = ground arith in
    let end : [] ≡ back = cc in
    ap (rows_of (λ o. o.id)) (sym new)
    ∙ ap (◌∷◌ put) end
    ∙ ap {A = OutputRecord ℕ} (λ o. record o { columns = pick all o.columns r.columns } ∷ back) here
update_output-UpdatesColumns (some x) s' all r old (f ∷ []) back e split same = absurd (cc)
update_output-UpdatesColumns (some x) s' all r old (f ∷ g ∷ front) back e split same = absurd (cc)

put_output_once_example :
    (count (output_is (text "t") 1) (an_older ∷ []) ≡ 1)
    × (stored : OutputRecord ℕ) × StandsIn stored (an_older ∷ [])
    × (stored.id ≡ 3)
    × (output_is (text "t") 1 stored ≡ true)
    × ((All (λ r. output_is (text "t") 1 r ≡ false) (an_older ∷ []) × (stored.columns ≡ 7))
        ⊎ ((old : OutputRecord ℕ) × StandsIn old (an_older ∷ [])
            × (old.id ≡ stored.id)
            × (stored.columns ≡ old.columns)))
unfolding put_output text_discrete laws_of
put_output_once_example =
    put_output_once (single (λ o. o.id)) output_laws update_output pick update_output-UpdatesColumns
      (some an_older) (some an_older) an_output false a_newer (omega arith) refl

abbrev stored_coinbase : InputRecord ℕ
stored_coinbase = record {
  id = 5;
  transaction_hash = text "t";
  is_coinbase = true;
  prevout_hash = none;
  prevout_n = none;
  columns = 1;
}

abbrev new_coinbase : InputRecord ℕ
new_coinbase = record stored_coinbase { id = 0; columns = 2 }

coinbase_not_updated_example :
    ((stored_coinbase ∷ []) ≡ stored_coinbase ∷ [])
    × ((get_input (single (λ i. i.id)) (some stored_coinbase) (text "t") true [] 0 ≡ none)
        ⊎ ((r : InputRecord ℕ) × (get_input
                (single (λ i. i.id))
                (some stored_coinbase)
                (text "t")
                true
                []
                0
              ≡ some r)
            × (r.prevout_hash ≢ none)))
unfolding put_input text_discrete laws_of
coinbase_not_updated_example =
    coinbase_not_updated (single (λ i. i.id))
      (laws_of (λ i. i.id) (λ k i. record i { id = k }) (λ r. refl)) (some stored_coinbase)
      (some stored_coinbase) new_coinbase new_coinbase (text "t") [] 0 refl refl refl
      ((λ e. absurd (omega arith)), tt) refl
