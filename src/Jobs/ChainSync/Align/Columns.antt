-- ===== src/Jobs/ChainSync/Align/Columns.antt =====
-- One column of an alignment of daemon/jobs/chainsync.go: the value that the row takes, and the column
-- among those to update where it differed.
use chainquery.Prelude.{
  ℕ, ◌≡◌, refl, inl, inr, ite, Bool, true, false, not, Option, none, some, List, [], ◌∷◌, ◌++◌,
  arith, ◌==◌, if◌then◌else◌, Option-cases,
}
use chainquery.Prelude.Text.{Text, text_discrete}

-- A value that may be null, as Go's null types have it: the value stands also where it is not valid.
pub record Null (A : Type 0) : Type 0 where
  pub valid : Bool
  pub value : A

-- `SetValid`
abbrev pub set_valid : {A : Type 0} → A → Null A
set_valid a = record { valid = true; value = a }

module _ {C : Type 0} where
  -- A column and its value, with the columns to update.
  abbrev pub text_column : C → (own theirs : Text) → Text × List C
  text_column col own theirs = ite (text_discrete own theirs) (own, []) (theirs, col ∷ [])

  abbrev pub number_column : C → (own theirs : ℕ) → ℕ × List C
  number_column col own theirs = if own == theirs then (own, []) else (theirs, col ∷ [])

  pub text_column-eq : (col : C) (own theirs : Text) → (text_column col own theirs).0 ≡ theirs
  text_column-eq col own theirs = ground arith

  pub text_column-none :
      (col : C) (own theirs : Text) → own ≡ theirs → (text_column col own theirs).1 ≡ []
  text_column-none col own theirs e = ground arith

  pub number_column-eq : (col : C) (own theirs : ℕ) → (number_column col own theirs).0 ≡ theirs
  number_column-eq col own theirs = ground arith

  pub number_column-none :
      (col : C) (own theirs : ℕ) → own ≡ theirs → (number_column col own theirs).1 ≡ []
  number_column-none col own theirs e = ground arith

  -- The column alone where it differs.
  abbrev pub only : C → Bool → List C
  only c differs = if differs then c ∷ [] else []

  -- The columns for which a test holds, in their order.
  unfoldable pub chosen : (C → Bool) → List C → List C
  chosen p [] = []
  chosen p (c ∷ []) = only c (p c)
  chosen p (c ∷ d ∷ cs) = only c (p c) ++ chosen p (d ∷ cs)

  pub text_column-only :
      (col : C) (own theirs : Text)
      → (text_column col own theirs).1 ≡ only col (ite (text_discrete own theirs) false true)
  text_column-only col own theirs = ground arith

  pub number_column-only :
      (col : C) (own theirs : ℕ) → (number_column col own theirs).1 ≡ only col (not (own == theirs))
  number_column-only col own theirs = ground arith

  infixr 5 ◌and_append◌
  pub ◌and_append◌ : {xs xs' ys ys' : List C} → xs ≡ xs' → ys ≡ ys' → xs ++ ys ≡ xs' ++ ys'
  p and_append q = rw (p, q) refl

  -- Of two lists that are empty, so is the concatenation.
  infixr 5 ◌and_nil◌
  pub ◌and_nil◌ : {xs ys : List C} → xs ≡ [] → ys ≡ [] → xs ++ ys ≡ []
  p and_nil q = rw (p, q) refl

-- The row and the database after an alignment: the database is written only where a column differs.
module _ {C R S : Type 0} (update_columns : S → R → List C → Option S) where
  unfoldable pub write_columns : List C → R → S → Option (R × S)
  write_columns [] row s = some (row, s)
  write_columns (c ∷ cs) row s = elim (update_columns s row (c ∷ cs)) [
    | none ↦ none
    | some s' ↦ some (row, s')
  ]

  -- What is written is the row, and nothing is written where no column differs.
  pub write_columns-cases :
      (cols : List C) (row row' : R) (s s' : S)
      → write_columns cols row s ≡ some (row', s')
      → (row' ≡ row) × (cols ≡ [] → s' ≡ s)
  unfolding write_columns
  write_columns-cases [] row row' s s' e = ground arith
  write_columns-cases (c ∷ cs) row row' s s' e =
      elim (Option-cases (update_columns s row (c ∷ cs))) [
        | inl u ↦ absurd (ground arith)
        | inr (s2, u) ↦ ground arith
      ]

  pub write_columns-nil :
      (cols : List C) (row : R) (s : S) → cols ≡ [] → write_columns cols row s ≡ some (row, s)
  unfolding write_columns
  write_columns-nil cols row s e = rw e refl

  -- Nothing is written where there is no column; else the row is, in these columns.
  unfoldable pub Written : List C → R → S → S → Type 0
  Written [] row s s' = s' ≡ s
  Written (c ∷ cs) row s s' = update_columns s row (c ∷ cs) ≡ some s'

  pub write_columns-Written :
      (cols : List C) (row row' : R) (s s' : S)
      → write_columns cols row s ≡ some (row', s')
      → (row' ≡ row) × Written cols row s s'
  unfolding write_columns Written
  write_columns-Written [] row row' s s' e = ground arith
  write_columns-Written (c ∷ cs) row row' s s' e =
      elim (Option-cases (update_columns s row (c ∷ cs))) [
        | inl u ↦ absurd (ground arith)
        | inr (s2, u) ↦ ground arith
      ]
