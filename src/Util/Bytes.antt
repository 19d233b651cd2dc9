-- ===== src/Util/Bytes.antt =====
-- Min and ReverseBytes of util/utility.go.
use mathlib.Core.List.{reverse-reverse}
use chainquery.Prelude.{
  ℕ, zero, suc, ◌+◌, ◌-◌, ◌≤◌, ◌<◌, ◌≡◌, refl, sym, ap, ◌∙◌, not, ◌&&◌, List, reverse, arith, ltb,
  leb, ◌==◌, if◌then◌else◌, length, get_or, set, replicate, length-set, length-replicate,
  length-reverse, get_or-set, list_ext, get_or-replicate, get_or-reverse,
}

-- The result slice starts as `n` zero bytes.
-- One round of the loop writes both ends; `fuel` bounds the rounds.
swap_loop : ℕ → List ℕ → List ℕ → ℕ → ℕ → List ℕ
swap_loop zero b r left right = r
swap_loop (suc fuel) b r left right =
    let rest =
      swap_loop fuel b (set (set r left (get_or b right 0)) right (get_or b left 0)) (left + 1)
        (right - 1) in
    if ltb left right then rest else r

unfoldable pub go_min : ℕ → ℕ → ℕ
go_min x y = if ltb x y then x else y

unfoldable pub reverse_bytes : List ℕ → List ℕ
unfolding swap_loop
reverse_bytes b = swap_loop (length b) b (replicate (length b) 0) 0 (length b - 1)

abbrev zero_byte : ℕ
zero_byte = 0

swap_loop_entries :
    (fuel : ℕ) (b r : List ℕ) (left right j : ℕ)
    → right ≤ left + fuel
    → left + right + 1 ≡ length b
    → length r ≡ length b
    → get_or (swap_loop fuel b r left right) j 0 ≡ (
        if leb left j && leb j right && not (j + j + 1 == length b)
        then get_or b (length b - 1 - j) 0
        else get_or r j 0)
unfolding swap_loop
swap_loop_entries zero b r left right j h k l = ground arith
swap_loop_entries (suc fuel) b r left right j h k l =
    let once = set r left (get_or b right 0) in
    ground (
      arith,
      swap_loop_entries fuel b (set once right (get_or b left 0)) (left + 1) (right - 1) j,
      length-set r left (get_or b right 0),
      length-set once right (get_or b left 0),
      get_or-set once right j (get_or b left 0) 0,
      get_or-set r left j (get_or b right 0) 0,
    )

length-swap_loop :
    (fuel : ℕ) (b r : List ℕ) (left right : ℕ) → length (swap_loop fuel b r left right) ≡ length r
unfolding swap_loop
length-swap_loop zero b r left right = refl
length-swap_loop (suc fuel) b r left right =
    let once = set r left (get_or b right 0) in
    ground (
      arith,
      length-swap_loop fuel b (set once right (get_or b left 0)) (left + 1) (right - 1),
      length-set r left (get_or b right 0),
      length-set once right (get_or b left 0),
    )

length-reverse_bytes : (b : List ℕ) → length (reverse_bytes b) ≡ length b
unfolding reverse_bytes
length-reverse_bytes b =
    length-swap_loop (length b) b (replicate (length b) 0) 0 (length b - 1)
    ∙ length-replicate (length b) 0

-- Entry `j` of the result, for `j` below the length, is the mirrored entry of the argument, but the
-- middle entry of a slice of odd length is 0.
reverse_bytes_entries :
    (b : List ℕ) (j : ℕ)
    → j < length b
    → get_or (reverse_bytes b) j 0
      ≡ (if j + j + 1 == length b then 0 else get_or b (length b - 1 - j) 0)
unfolding reverse_bytes
reverse_bytes_entries b j h = ground (
  arith,
  swap_loop_entries (length b) b (replicate (length b) 0) 0 (length b - 1) j,
  length-replicate (length b) zero_byte,
  get_or-replicate (length b) j zero_byte,
)

-- On a slice of even length the loop gives the reversed slice.
pub reverse_bytes-reverse : (b : List ℕ) (k : ℕ) → length b ≡ k + k → reverse_bytes b ≡ reverse b
reverse_bytes-reverse b k even =
    list_ext (reverse_bytes b) (reverse b) 0 (length-reverse_bytes b ∙ sym (length-reverse b))
      (λ j h.
        ground (arith, length-reverse_bytes b, reverse_bytes_entries b j, get_or-reverse b j 0))

-- On a slice of even length, reversing twice gives the slice back.
reverse_bytes_involutive :
    (b : List ℕ) (k : ℕ) → length b ≡ k + k → reverse_bytes (reverse_bytes b) ≡ b
reverse_bytes_involutive b k even =
    reverse_bytes-reverse (reverse_bytes b) k (length-reverse_bytes b ∙ even)
    ∙ ap reverse (reverse_bytes-reverse b k even)
    ∙ reverse-reverse b
