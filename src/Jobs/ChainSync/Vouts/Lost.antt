-- ===== src/Jobs/ChainSync/Vouts/Lost.antt =====
-- What becomes of the log of errors in alignVouts of daemon/jobs/chainsync.go.
use chainquery.Jobs.ChainSync.Vouts.{
  align_vouts, apart, sharing, align_stored_vouts, append_to_copy, log_of, noted, LogCopy, Vouts,
  record_in_copy,
}
use chainquery.Jobs.ChainSync.Txs.Log.{Keeps}
use chainquery.Jobs.ChainSync.ErrorLog.{same_text, IsLog, is_about, SyncError, add_height}
use chainquery.Prelude.{
  ℕ, zero, suc, ◌≤◌, ◌≡◌, refl, sym, ap, subst, ◌∙◌, inl, inr, ◌&&◌, Option, none, some, List, [],
  ◌∷◌, ◌++◌, append-nil, append_assoc, arith, Bool-cases, Option-cases, length, take, drop,
  length-append, take-drop, count_if,
}
use chainquery.Prelude.Text.{Text, text}

-- The same entries in the same order, each with its heights and some more.
abbrev pub Grown : List SyncError → List SyncError → Type 0
Grown [] [] = Unit
Grown [] (f ∷ fs) = ⊥
Grown (e ∷ es) [] = ⊥
Grown (e ∷ es) (f ∷ fs) =
    (f.area ≡ e.area)
    × (f.error ≡ e.error)
    × ((hs : List ℕ) × (f.height_found ≡ e.height_found ++ hs))
    × Grown es fs

Grown-refl : (es : List SyncError) → Grown es es
Grown-refl [] = tt
Grown-refl (e ∷ es) = (refl, refl, ([], sym (append-nil e.height_found)), Grown-refl es)

Grown-trans : (es fs gs : List SyncError) → Grown es fs → Grown fs gs → Grown es gs
Grown-trans [] [] [] p q = tt
Grown-trans [] [] (g ∷ gs) p q = absurd q
Grown-trans [] (f ∷ fs) gs p q = absurd p
Grown-trans (e ∷ es) [] gs p q = absurd p
Grown-trans (e ∷ es) (f ∷ fs) [] p q = absurd q
Grown-trans (e ∷ es) (f ∷ fs) (g ∷ gs) (a, b, (hs, h), r) (a', b', (ks, k), r') = (
  a' ∙ a,
  b' ∙ b,
  (hs ++ ks, k ∙ ap (λ l. l ++ ks) h ∙ append_assoc e.height_found hs ks),
  Grown-trans es fs gs r r',
)

Grown-append : (xs es fs : List SyncError) → Grown es fs → Grown (xs ++ es) (xs ++ fs)
Grown-append [] es fs p = p
Grown-append (x ∷ xs) es fs p =
    (refl, refl, ([], sym (append-nil x.height_found)), Grown-append xs es fs p)

Grown-take : (n : ℕ) (es fs : List SyncError) → Grown es fs → Grown (take n es) (take n fs)
Grown-take zero es fs p = tt
Grown-take (suc n) [] [] p = tt
Grown-take (suc n) [] (f ∷ fs) p = absurd p
Grown-take (suc n) (e ∷ es) [] p = absurd p
Grown-take (suc n) (e ∷ es) (f ∷ fs) (a, b, h, r) = (a, b, h, Grown-take n es fs r)

Grown-length : (es fs : List SyncError) → Grown es fs → length fs ≡ length es
Grown-length [] [] p = refl
Grown-length [] (f ∷ fs) p = absurd p
Grown-length (e ∷ es) [] p = absurd p
Grown-length (e ∷ es) (f ∷ fs) (a, b, h, r) = ap suc (Grown-length es fs r)

Grown-count :
    (a b : Text) (es fs : List SyncError)
    → Grown es fs
    → count_if (is_about a b) fs ≡ count_if (is_about a b) es
Grown-count a b [] [] p = refl
Grown-count a b [] (f ∷ fs) p = absurd p
Grown-count a b (e ∷ es) [] p = absurd p
Grown-count a b (e ∷ es) (f ∷ fs) (same, same', h, r) =
    let about : is_about a b f ≡ is_about a b e =
      ap (λ x. same_text a x && same_text f.error b) same
      ∙ ap (λ x. same_text a e.area && same_text x b) same' in
    rw (about, Grown-count a b es fs r) refl

Grown-IsLog : (es fs : List SyncError) → Grown es fs → IsLog es → IsLog fs
Grown-IsLog es fs p v = record {
  bounded = let size = Grown-length es fs p in let b = v.bounded in omega arith;
  distinct = λ a b. let c = Grown-count a b es fs p in let d = v.distinct a b in omega arith;
}

add_height-Grown :
    (h : ℕ) (area error : Text) (es fs : List SyncError)
    → add_height h area error es ≡ some fs
    → Grown es fs
unfolding add_height
add_height-Grown h area error [] fs e = absurd (ground arith)
add_height-Grown h area error (x ∷ xs) fs e = elim (Bool-cases (is_about area error x)) [
  | inl t ↦
      let out : (record x { height_found = x.height_found ++ h ∷ [] }) ∷ xs ≡ fs = ground arith in
      subst (Grown (x ∷ xs)) out (refl, refl, (h ∷ [], refl), Grown-refl xs)
  | inr f ↦ elim (Option-cases (add_height h area error xs)) [
    | inl q ↦ absurd (ground arith)
    | inr (ys, q) ↦
        let out : x ∷ ys ≡ fs = ground arith in
        let rest = add_height-Grown h area error xs ys q in
        subst (Grown (x ∷ xs)) out (refl, refl, ([], sym (append-nil x.height_found)), rest)
  ]
]

take-append : (n : ℕ) (es xs : List SyncError) → n ≤ length es → take n (es ++ xs) ≡ take n es
take-append zero es xs h = refl
take-append (suc n) [] xs h = absurd (omega arith)
take-append (suc n) (e ∷ es) xs h = ap (◌∷◌ e) (take-append n es xs (omega arith))

take-length : (es : List SyncError) → take (length es) es ≡ es
take-length [] = refl
take-length (e ∷ es) = ap (◌∷◌ e) (take-length es)

-- The log of the caller stands in the array.
abbrev Holds : ℕ → LogCopy → Type 0
Holds n (sharing array cut spare) = n ≤ length array
Holds n (apart log own) = Unit

append_to_copy-log :
    (n cut spare : ℕ) (array : List SyncError) (entry : SyncError)
    → n ≤ length array
    → Holds n (append_to_copy n array cut spare entry)
      × (log_of n (append_to_copy n array cut spare entry) ≡ take n array)
append_to_copy-log n cut zero array entry h = (tt, refl)
append_to_copy-log n cut (suc spare) array entry h =
    let size = length-append array (entry ∷ []) in (omega arith, take-append n array (entry ∷ []) h)

record_in_copy-Grown :
    (h : ℕ) (area error : Text) (n : ℕ) (copy : LogCopy)
    → Holds n copy
    → Holds n (record_in_copy h area error n copy)
      × Grown (log_of n copy) (log_of n (record_in_copy h area error n copy))
unfolding record_in_copy
record_in_copy-Grown h area error n (apart log own) p = (tt, Grown-refl log)
record_in_copy-Grown h area error n (sharing array cut spare) p =
    elim (Option-cases (add_height h area error (drop cut array))) [
      | inl q ↦
          let entry : SyncError = record { height_found = h ∷ []; error = error; area = area } in
          let (holds, same) = append_to_copy-log n cut spare array entry p in
          rw (record_in_copy, q)
            (holds, subst (Grown (take n array)) (sym same) (Grown-refl (take n array)))
      | inr (es, q) ↦
          let grown =
            subst (λ l. Grown l (take cut array ++ es)) (take-drop cut array)
              (Grown-append (take cut array) (drop cut array) es
                (add_height-Grown h area error (drop cut array) es q)) in
          let size = Grown-length array (take cut array ++ es) grown in
          rw (record_in_copy, q) (omega arith, Grown-take n array (take cut array ++ es) grown)
    ]

module _ {O S : Type 0} (db : Vouts O S) (height : ℕ) (hash : Text) where
  noted-Grown :
      (n : ℕ) (copy : LogCopy) (e : Option Text)
      → Holds n copy
      → Holds n (noted db height hash n copy e)
        × Grown (log_of n copy) (log_of n (noted db height hash n copy e))
  noted-Grown n copy none p = (p, Grown-refl (log_of n copy))
  noted-Grown n copy (some e) p = record_in_copy-Grown height (text "vout-alignment") e n copy p

  align_stored_vouts-Grown :
      (n i : ℕ) (outs : List O) (copy : LogCopy) (s : S)
      → Holds n copy
      → Grown (log_of n copy) (log_of n (align_stored_vouts db height hash n i outs copy s).1)
  unfolding align_stored_vouts
  align_stored_vouts-Grown n i [] copy s p = Grown-refl (log_of n copy)
  align_stored_vouts-Grown n i (v ∷ vs) copy s p = elim (Bool-cases (db.is_stored s hash v)) [
    | inr f ↦ rw (align_stored_vouts, f) (Grown-refl (log_of n copy))
    | inl t ↦
        let out = db.align_vout v s in
        let next = noted db height hash n copy out.0 in
        let (holds, grown) = noted-Grown n copy out.0 p in
        rw (align_stored_vouts, t)
          (Grown-trans (log_of n copy) (log_of n next) _ grown
            (align_stored_vouts-Grown n (suc i) vs next out.1 holds))
  ]

  -- Whatever the alignment of single outputs reports, and however much spare capacity the log has:
  -- when the outputs of a transaction were aligned, the log of errors has the same entries in the
  -- same order as before, with the same areas and texts, and each has its heights and possibly some
  -- more.
  pub align_vouts-Grown :
      (outs : List O) (log : List SyncError) (s : S)
      → Grown log (align_vouts db height hash outs log s).1
  unfolding align_vouts
  align_vouts-Grown outs log s =
      let start = sharing log 0 (db.spare log) in
      let out = align_stored_vouts db height hash (length log) 0 outs start s in
      subst (λ l. Grown l (log_of (length log) out.1)) (take-length log)
        (align_stored_vouts-Grown (length log) 0 outs start s (omega arith))

  -- What the alignment of a transaction asks of that of its outputs.
  pub align_vouts-Keeps :
      (outs : List O) (log : List SyncError) (s : S)
      → IsLog log
      → Keeps (align_vouts db height hash outs log s)
  unfolding align_vouts
  align_vouts-Keeps outs log s v =
      Grown-IsLog log (align_vouts db height hash outs log s).1 (align_vouts-Grown outs log s) v
