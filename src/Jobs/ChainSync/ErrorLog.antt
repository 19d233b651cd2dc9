-- ===== src/Jobs/ChainSync/ErrorLog.antt =====
-- recordAndReturnError of daemon/jobs/chainsync.go: the log of the errors that the job met. An error
-- is given by its text, and a height is not negative.
use chainquery.Processing.Graph.Counts.{count_if-append}
use chainquery.Prelude.{
  ℕ, suc, ◌-◌, ◌≤◌, ◌<◌, ◌≡◌, refl, sym, subst, ◌⊎◌, inl, inr, ite, Bool, true, false, ◌&&◌, Option,
  none, some, List, [], ◌∷◌, ◌++◌, append-nil, append_assoc, arith, dec_lt, if◌then◌else◌,
  Bool-cases, Option-cases, length, drop, length-append, count_if,
}
use chainquery.Prelude.Text.{Text, text_discrete}

pub record SyncError : Type 0 where
  pub height_found : List ℕ
  pub error : Text
  pub area : Text

abbrev pub max_chain_sync_errors : ℕ
max_chain_sync_errors = 1000

abbrev pub same_text : Text → Text → Bool
same_text a b = ite (text_discrete a b) true false

abbrev pub is_about : (area error : Text) → SyncError → Bool
is_about area error e = same_text area e.area && same_text e.error error

-- The height is added to the first entry of that area and error, if there is one.
unfoldable pub add_height :
    (height : ℕ) (area error : Text) → List SyncError → Option (List SyncError)
add_height height area error [] = none
add_height height area error (e ∷ es) =
    let rest : Option (List SyncError) = elim (add_height height area error es) [
      | none ↦ none
      | some es' ↦ some (e ∷ es')
    ] in
    if is_about area error e
    then some (record e { height_found = e.height_found ++ height ∷ [] } ∷ es)
    else rest

-- The last entries, as many as the log may hold.
abbrev pub trim : List SyncError → List SyncError
trim es = drop (length es - max_chain_sync_errors) es

unfoldable pub record_error : (height : ℕ) (area error : Text) → List SyncError → List SyncError
record_error height area error es = elim (add_height height area error es) [
  | some es' ↦ es'
  | none ↦
      let entry : SyncError = record { height_found = height ∷ []; error = error; area = area } in
      trim (es ++ entry ∷ [])
]

-- The log is not too long, and no two entries have the same area and error.
pub record IsLog (es : List SyncError) : Type 0 where
  pub bounded : length es ≤ max_chain_sync_errors
  pub distinct : (area error : Text) → count_if (is_about area error) es ≤ 1

-- The heights of the entries of an area and an error.
abbrev heights_of : (area error : Text) → List SyncError → List ℕ
heights_of area error [] = []
heights_of area error (e ∷ es) =
    if is_about area error e
    then e.height_found ++ heights_of area error es
    else heights_of area error es

length-add_height :
    (h : ℕ) (area error : Text) (es es' : List SyncError)
    → add_height h area error es ≡ some es'
    → length es' ≡ length es
unfolding add_height
length-add_height h area error [] es' e = absurd (ground arith)
length-add_height h area error (x ∷ xs) es' e = elim (Option-cases (add_height h area error xs)) [
  | inl q ↦ ground arith
  | inr (ys, q) ↦ let rest = length-add_height h area error xs ys q in ground arith
]

count-add_height :
    (h : ℕ) (area error a b : Text) (es es' : List SyncError)
    → add_height h area error es ≡ some es'
    → count_if (is_about a b) es' ≡ count_if (is_about a b) es
unfolding add_height
count-add_height h area error a b [] es' e = absurd (ground arith)
count-add_height h area error a b (x ∷ xs) es' e =
    elim (Option-cases (add_height h area error xs)) [
      | inl q ↦ ground arith
      | inr (ys, q) ↦ let rest = count-add_height h area error a b xs ys q in ground arith
    ]

add_height-none :
    (h : ℕ) (area error : Text) (es : List SyncError)
    → add_height h area error es ≡ none
    → (count_if (is_about area error) es ≡ 0) × (heights_of area error es ≡ [])
unfolding add_height
add_height-none h area error [] e = (refl, refl)
add_height-none h area error (x ∷ xs) e = elim (Option-cases (add_height h area error xs)) [
  | inl q ↦ let rest = add_height-none h area error xs q in ground arith
  | inr (ys, q) ↦ absurd (ground arith)
]

heights-none :
    (a b : Text) (es : List SyncError) → count_if (is_about a b) es ≡ 0 → heights_of a b es ≡ []
heights-none a b [] c = refl
heights-none a b (x ∷ xs) c = let rest = heights-none a b xs in ground arith

heights-append :
    (a b : Text) (xs ys : List SyncError)
    → heights_of a b (xs ++ ys) ≡ heights_of a b xs ++ heights_of a b ys
heights-append a b [] ys = refl
heights-append a b (x ∷ xs) ys =
    let rest = heights-append a b xs ys in
    let assoc = append_assoc x.height_found (heights_of a b xs) (heights_of a b ys) in
    elim (Bool-cases (is_about a b x)) [
      | inl t ↦ rw (t, rest) (sym assoc)
      | inr f ↦ rw (f, rest) refl
    ]

heights-add_height :
    (h : ℕ) (area error : Text) (es es' : List SyncError)
    → count_if (is_about area error) es ≤ 1
    → add_height h area error es ≡ some es'
    → heights_of area error es' ≡ heights_of area error es ++ h ∷ []
unfolding add_height
heights-add_height h area error [] es' c e = absurd (ground arith)
heights-add_height h area error (x ∷ xs) es' c e = elim (Bool-cases (is_about area error x)) [
  | inl t ↦
      let none_more = heights-none area error xs (ground arith) in
      let out : (record x { height_found = x.height_found ++ h ∷ [] }) ∷ xs ≡ es' = ground arith in
      subst (λ l. heights_of area error l ≡ heights_of area error (x ∷ xs) ++ h ∷ []) out
        (rw (t, none_more, append-nil x.height_found) (append-nil (x.height_found ++ h ∷ [])))
  | inr f ↦ elim (Option-cases (add_height h area error xs)) [
    | inl q ↦ absurd (ground arith)
    | inr (ys, q) ↦
        let rest = heights-add_height h area error xs ys (ground arith) q in
        let out : x ∷ ys ≡ es' = ground arith in
        subst (λ l. heights_of area error l ≡ heights_of area error (x ∷ xs) ++ h ∷ []) out
          (rw (f, rest) refl)
  ]
]

heights-add_height_other :
    (h : ℕ) (area error a b : Text) (es es' : List SyncError)
    → same_text a area && same_text error b ≡ false
    → add_height h area error es ≡ some es'
    → heights_of a b es' ≡ heights_of a b es
unfolding add_height
heights-add_height_other h area error a b [] es' o e = absurd (ground arith)
heights-add_height_other h area error a b (x ∷ xs) es' o e =
    elim (Bool-cases (is_about area error x)) [
      | inl t ↦
          let other : is_about a b x ≡ false = ground arith in
          let out : (record x { height_found = x.height_found ++ h ∷ [] }) ∷ xs ≡ es' =
            ground arith in
          subst (λ l. heights_of a b l ≡ heights_of a b (x ∷ xs)) out (rw other refl)
      | inr f ↦ elim (Option-cases (add_height h area error xs)) [
        | inl q ↦ absurd (ground arith)
        | inr (ys, q) ↦
            let rest = heights-add_height_other h area error a b xs ys o q in
            let out : x ∷ ys ≡ es' = ground arith in
            subst (λ l. heights_of a b l ≡ heights_of a b (x ∷ xs)) out (rw rest refl)
      ]
    ]

trim-cases :
    (es : List SyncError) (x : SyncError)
    → length es ≤ max_chain_sync_errors
    → ((length es < max_chain_sync_errors) × (trim (es ++ x ∷ []) ≡ es ++ x ∷ []))
      ⊎ ((y : SyncError) × (ys : List SyncError) × (es ≡ y ∷ ys)
          × (max_chain_sync_errors ≤ length es)
          × (trim (es ++ x ∷ []) ≡ ys ++ x ∷ []))
trim-cases [] x l = inl (ground arith)
trim-cases (y ∷ ys) x l =
    let size = length-append (y ∷ ys) (x ∷ []) in
    elim (dec_lt (suc (length ys)) max_chain_sync_errors) [
      | yes p ↦
          let none_over : length (y ∷ (ys ++ x ∷ [])) - max_chain_sync_errors ≡ 0 = omega arith in
          inl (p, rw none_over refl)
      | no p ↦
          let one_over : length (y ∷ (ys ++ x ∷ [])) - max_chain_sync_errors ≡ 1 = omega arith in
          inr (y, ys, refl, omega arith, rw one_over refl)
    ]

-- What becomes of the log: it is one again, the height is the last of those of the pair, and the
-- heights of the other pairs are kept while the log is not full.
abbrev pub Records : (h : ℕ) (area error : Text) (es es' : List SyncError) → Type 0
Records h area error es es' =
    IsLog es'
    × (heights_of area error es' ≡ heights_of area error es ++ h ∷ [])
    × ((a b : Text)
        → same_text a area && same_text error b ≡ false
        → length es < max_chain_sync_errors
        → heights_of a b es' ≡ heights_of a b es)

module _ (h : ℕ) (area error : Text) (es : List SyncError) (v : IsLog es) where
  added-Records :
      (es' : List SyncError) → add_height h area error es ≡ some es' → Records h area error es es'
  added-Records es' q = (
    record {
      bounded =
          let size = length-add_height h area error es es' q in let b = v.bounded in omega arith;
      distinct = λ a b.
          let c = count-add_height h area error a b es es' q in
          let d = v.distinct a b in omega arith;
    },
    heights-add_height h area error es es' (v.distinct area error) q,
    λ a b o l. heights-add_height_other h area error a b es es' o q,
  )

  abbrev entry : SyncError
  entry = record { height_found = h ∷ []; error = error; area = area }

  appended-distinct :
      (ys : List SyncError)
      → ((a b : Text) → count_if (is_about a b) ys ≤ count_if (is_about a b) es)
      → count_if (is_about area error) es ≡ 0
      → (a b : Text) → count_if (is_about a b) (ys ++ entry ∷ []) ≤ 1
  appended-distinct ys fewer zero_times a b =
      let d = v.distinct a b in
      let sum = count_if-append (is_about a b) ys (entry ∷ []) in
      let c = fewer a b in
      elim (text_discrete a area) [
        | yes p ↦ elim (text_discrete error b) [
          | yes q ↦
              let z : count_if (is_about a b) es ≡ 0 = rw (p, sym q) zero_times in ground arith
          | no q ↦ ground arith
        ]
        | no p ↦ ground arith
      ]

  appended-heights :
      (ys : List SyncError)
      → heights_of area error ys ≡ []
      → heights_of area error (ys ++ entry ∷ []) ≡ h ∷ []
  appended-heights ys e =
      let about : is_about area error entry ≡ true = ground arith in
      rw (heights-append area error ys (entry ∷ []), e) (rw about refl)

  new-Records :
      add_height h area error es ≡ none → Records h area error es (trim (es ++ entry ∷ []))
  new-Records q =
      let (count, empty) = add_height-none h area error es q in
      elim (trim-cases es entry v.bounded) [
        | inl (l, t) ↦ subst (Records h area error es) (sym t) (
          record {
            bounded = let size = length-append es (entry ∷ []) in omega arith;
            distinct = appended-distinct es (λ a b. omega arith) count;
          },
          rw empty (appended-heights es empty),
          λ a b o l.
              let about : is_about a b entry ≡ false = o in
              rw (heights-append a b es (entry ∷ []), about) (append-nil (heights_of a b es)),
        )
        | inr (y, ys, p, full, t) ↦
            let fewer : (a b : Text) → count_if (is_about a b) ys ≤ count_if (is_about a b) es =
              λ a b. rw p (ground arith) in
            let none_of_ys = fewer area error in
            let empty_ys = heights-none area error ys (omega arith) in
            subst (Records h area error es) (sym t) (
              record {
                bounded =
                    let size = length-append ys (entry ∷ []) in
                    let size' : length es ≡ suc (length ys) = rw p refl in
                    let b = v.bounded in omega arith;
                distinct = appended-distinct ys fewer count;
              },
              rw empty (appended-heights ys empty_ys),
              λ a b o l. absurd (omega arith),
            )
      ]

-- Recording an error in a log of at most 1000 entries, of which no two have the same area and text,
-- gives such a log again; the height becomes the last of those of that area and text, and the
-- heights of every other area and text are kept while the log is not full.
pub record_error-Records :
    (h : ℕ) (area error : Text) (es : List SyncError)
    → IsLog es
    → Records h area error es (record_error h area error es)
unfolding record_error
record_error-Records h area error es v = elim (Option-cases (add_height h area error es)) [
  | inr (es', q) ↦
      subst (Records h area error es) (ground arith) (added-Records h area error es v es' q)
  | inl q ↦ subst (Records h area error es) (ground arith) (new-Records h area error es v q)
]
