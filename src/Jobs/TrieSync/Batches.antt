-- ===== src/Jobs/TrieSync/Batches.antt =====
-- The loops of getSupportedClaims and updateSpentClaims in daemon/jobs/claimtriesync.go that take a list
-- of ids in batches: `ids[i:j]`, where `j` is `i + batch` or the end.
use chainquery.Prelude.{
  ℕ, zero, suc, ◌+◌, ◌-◌, ◌≤◌, ◌<◌, ◌≡◌, refl, sym, ap, ◌∙◌, inl, inr, Option, none, some, List, [],
  ◌∷◌, ◌++◌, arith, ltb, if◌then◌else◌, ltb→lt, Bool-cases, length, take, drop, take-drop, All,
}
use native.Mathlib.Nat.{zero-add, suc-add}

abbrev pub batch_size : ℕ
batch_size = 15000

-- `ids[lo:hi]`, where `lo ≤ hi`.
abbrev part : {A : Type 0} → List A → ℕ → ℕ → List A
part ids lo hi = take (hi - lo) (drop lo ids)

abbrev end_of : (batch i n : ℕ) → ℕ
end_of batch i n = if ltb n (i + batch) then n else i + batch

-- The batches from `i` on; `none` is fuel that does not suffice.
unfoldable pub batches_from : {A : Type 0} → (fuel batch i : ℕ) → List A → Option (List (List A))
batches_from zero batch i ids = none
batches_from (suc fuel) batch i ids =
    let rest = batches_from fuel batch (i + batch) ids in
    if ltb i (length ids)
    then elim rest [ none ↦ none | some bs ↦ some (part ids i (end_of batch i (length ids)) ∷ bs) ]
    else some []

abbrev pub concat : {A : Type 0} → List (List A) → List A
concat [] = []
concat (b ∷ bs) = b ++ concat bs

module _ {A : Type 0} where
  take-all : (n : ℕ) (xs : List A) → length xs ≤ n → take n xs ≡ xs
  take-all zero [] h = refl
  take-all zero (x ∷ xs) h = absurd (omega arith)
  take-all (suc n) [] h = refl
  take-all (suc n) (x ∷ xs) h = ap (◌∷◌ x) (take-all n xs (omega arith))

  drop-drop : (i b : ℕ) (xs : List A) → drop b (drop i xs) ≡ drop (i + b) xs
  drop-drop zero b xs = rw (zero-add b) refl
  drop-drop (suc i) zero [] = rw (suc-add i 0) refl
  drop-drop (suc i) (suc b) [] = rw (suc-add i (suc b)) refl
  drop-drop (suc i) b (x ∷ xs) = rw (suc-add i b) (drop-drop i b xs)

  length-drop : (n : ℕ) (xs : List A) → length (drop n xs) ≡ length xs - n
  length-drop zero xs = omega arith
  length-drop (suc n) [] = omega arith
  length-drop (suc n) (x ∷ xs) = omega (arith, length-drop n xs)

  length-take : (n : ℕ) (xs : List A) → length (take n xs) ≤ n
  length-take zero xs = omega arith
  length-take (suc n) [] = omega arith
  length-take (suc n) (x ∷ xs) = omega (arith, length-take n xs)

  drop-all : (n : ℕ) (xs : List A) → length xs ≤ n → drop n xs ≡ []
  drop-all zero [] h = refl
  drop-all zero (x ∷ xs) h = absurd (omega arith)
  drop-all (suc n) [] h = refl
  drop-all (suc n) (x ∷ xs) h = drop-all n xs (omega arith)

  -- The end of the list cuts nothing off that the batch would hold.
  part-take :
      (batch i : ℕ) (ids : List A)
      → i ≤ length ids
      → part ids i (end_of batch i (length ids)) ≡ take batch (drop i ids)
  part-take batch i ids h = elim (Bool-cases (ltb (length ids) (i + batch))) [
    | inl t ↦
        let size = length-drop i ids in
        rw t (
          take-all (length ids - i) (drop i ids) (omega arith)
          ∙ sym (take-all batch (drop i ids) (ground arith)))
    | inr f ↦ let width : i + batch - i ≡ batch = omega arith in rw (f, width) refl
  ]

  abbrev Covers : (batch : ℕ) → List A → List (List A) → Type 0
  Covers batch ids bs = (concat bs ≡ ids) × All (λ b. length b ≤ batch) bs

  batches_from-Covers :
      (fuel batch i : ℕ) (ids : List A)
      → length ids - i < fuel
      → 0 < batch
      → (bs : List (List A)) × (batches_from fuel batch i ids ≡ some bs)
        × Covers batch (drop i ids) bs
  unfolding batches_from
  batches_from-Covers zero batch i ids h p = absurd (omega arith)
  batches_from-Covers (suc fuel) batch i ids h p = elim (Bool-cases (ltb i (length ids))) [
    | inl t ↦
        let low = ltb→lt i (length ids) t in
        let (bs, e, (whole, small)) =
          batches_from-Covers fuel batch (i + batch) ids (omega arith) p in
        let first = part-take batch i ids (omega arith) in
        (
          part ids i (end_of batch i (length ids)) ∷ bs,
          rw (t, e) refl,
          (
            rw (first, whole, sym (drop-drop i batch ids)) (take-drop batch (drop i ids)),
            (rw first (length-take batch (drop i ids)), small),
          ),
        )
    | inr f ↦ ([], rw f refl, (sym (drop-all i ids (ground arith)), tt))
  ]

  -- With fuel for one turn more than there are ids, and a positive size of a batch, the loop ends;
  -- its batches, one after the other, are the list of ids, and none has more than that size.
  pub batches_cover :
      (batch : ℕ) (ids : List A)
      → 0 < batch
      → (bs : List (List A)) × (batches_from (suc (length ids)) batch 0 ids ≡ some bs)
        × Covers batch ids bs
  batches_cover batch ids p = batches_from-Covers (suc (length ids)) batch 0 ids (omega arith) p
