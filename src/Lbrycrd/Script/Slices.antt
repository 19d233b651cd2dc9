-- ===== src/Lbrycrd/Script/Slices.antt =====
-- How the readers of lbrycrd/script.go act on a script that is given as a concatenation.
use chainquery.Prelude.{
  ℕ, ◌+◌, ◌/◌, ◌%◌, ◌^◌, ◌<◌, ◌≡◌, sym, ◌∙◌, ◌≢◌, inl, inr, [], ◌∷◌, ◌++◌, append_assoc, arith, ltb,
  Bool-cases, length, length-append,
}
use chainquery.Prelude.Go.{
  ok, index, slice, slice_from, index-append, slice-append, slice_from-append,
}
use chainquery.Lbrycrd.Hex.{Bytes}
use chainquery.Lbrycrd.Script.Build.{push_header}
use chainquery.Lbrycrd.Script.{Parse, ScriptError, read_value_size, read_name_size}

module _ (script pre : Bytes) where
  pub index_at :
      (b : ℕ) (tail : Bytes) (i : ℕ)
      → script ≡ pre ++ b ∷ tail
      → i ≡ length pre
      → index {E = ScriptError} script i ≡ ok b
  index_at b tail i e h = rw e (index-append pre b tail i h)

  pub slice_at :
      (b tail : Bytes) (lo hi : ℕ)
      → script ≡ pre ++ (b ++ tail)
      → lo ≡ length pre
      → hi ≡ length pre + length b
      → slice {E = ScriptError} script lo hi ≡ ok b
  slice_at b tail lo hi e h k = rw e (slice-append pre b tail lo hi h k)

  pub slice_from_at :
      (tail : Bytes) (lo : ℕ)
      → script ≡ pre ++ tail
      → lo ≡ length pre
      → slice_from {E = ScriptError} script lo ≡ ok tail
  slice_from_at tail lo e h = rw e (slice_from-append pre tail lo h)

module _ (script pre : Bytes) (x : ℕ) (tail : Bytes) (at : ℕ) (k : at ≡ length pre) where
  step_over : script ≡ pre ++ x ∷ tail → script ≡ (pre ++ x ∷ []) ++ tail
  step_over e = e ∙ sym (append_assoc pre (x ∷ []) tail)

  step_size : at + 1 ≡ length (pre ++ x ∷ [])
  step_size = omega (arith, k, length-append pre (x ∷ []))

pub read_value_size_at :
    (script pre tail : Bytes) (n at : ℕ)
    → n < 2 ^ 32
    → script ≡ pre ++ (push_header n ++ tail)
    → at ≡ length pre
    → read_value_size script at ≡ ok (n, at + length (push_header n))
unfolding read_value_size index
read_value_size_at script pre tail n at h e k = elim (Bool-cases (ltb n 76)) [
  | inl p ↦
      let e0 : script ≡ pre ++ n ∷ tail = ground arith in
      ground (arith, index_at script pre n tail at e0 k)
  | inr p ↦ elim (Bool-cases (ltb n 256)) [
    | inl q ↦
        let e0 : script ≡ pre ++ 0x4c ∷ n ∷ tail = ground arith in
        let size = step_size script pre 0x4c (n ∷ tail) at k in
        let e1 = step_over script pre 0x4c (n ∷ tail) at k e0 in
        ground (
          arith,
          index_at script pre 0x4c (n ∷ tail) at e0 k,
          index_at script (pre ++ 0x4c ∷ []) n tail (at + 1) e1 size,
        )
    | inr q ↦ elim (Bool-cases (ltb n 65536)) [
      | inl r ↦
          let b = n % 256 ∷ n / 256 ∷ [] in
          let e0 : script ≡ pre ++ 0x4d ∷ (b ++ tail) = ground arith in
          let size = step_size script pre 0x4d (b ++ tail) at k in
          let e1 = step_over script pre 0x4d (b ++ tail) at k e0 in
          ground (
            arith,
            index_at script pre 0x4d (b ++ tail) at e0 k,
            slice_at script (pre ++ 0x4d ∷ []) b tail (at + 1) (at + 3) e1 size
                (omega (arith, size)),
          )
      | inr r ↦
          let b = n % 256 ∷ n / 256 % 256 ∷ n / 65536 % 256 ∷ n / 16777216 ∷ [] in
          let e0 : script ≡ pre ++ 0x4e ∷ (b ++ tail) = ground arith in
          let size = step_size script pre 0x4e (b ++ tail) at k in
          let e1 = step_over script pre 0x4e (b ++ tail) at k e0 in
          ground (
            arith,
            index_at script pre 0x4e (b ++ tail) at e0 k,
            slice_at script (pre ++ 0x4e ∷ []) b tail (at + 1) (at + 5) e1 size
                (omega (arith, size)),
          )
    ]
  ]
]

pub read_name_size_at :
    (refuse : Parse (ℕ × ℕ)) (script tail : Bytes) (op n : ℕ)
    → n < 256
    → script ≡ op ∷ (push_header n ++ tail)
    → read_name_size refuse script ≡ ok (n, 1 + length (push_header n))
unfolding read_name_size index
read_name_size_at refuse script tail op n h e = rw e (ground arith)

-- The first byte of a push is found, and it is not OP_2DROP.
pub push_start :
    (script pre : Bytes) (n : ℕ) (tail : Bytes) (at : ℕ)
    → script ≡ pre ++ (push_header n ++ tail)
    → at ≡ length pre
    → (b : ℕ) × (index {E = ScriptError} script at ≡ ok b) × (b ≢ 0x6d)
push_start script pre n tail at e k = elim (Bool-cases (ltb n 76)) [
  | inl p ↦ (n, index_at script pre n tail at (ground arith) k, ground arith)
  | inr p ↦ elim (Bool-cases (ltb n 256)) [
    | inl q ↦ (0x4c, index_at script pre 0x4c (n ∷ tail) at (ground arith) k, omega arith)
    | inr q ↦ elim (Bool-cases (ltb n 65536)) [
      | inl r ↦ (
        0x4d,
        index_at script pre 0x4d (n % 256 ∷ n / 256 ∷ tail) at (ground arith) k,
        omega arith,
      )
      | inr r ↦ (
        0x4e,
        index_at script pre 0x4e (n % 256 ∷ n / 256 % 256 ∷ n / 65536 % 256 ∷ n / 16777216 ∷ tail)
            at (ground arith) k,
        omega arith,
      )
    ]
  ]
]
