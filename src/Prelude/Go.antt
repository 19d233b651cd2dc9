-- ===== src/Prelude/Go.antt =====
-- The outcome of a Go function that returns an error or panics, and the slice operations that
-- panic out of range. A slice has no capacity beyond its length.
use mathlib.Core.List.{List, ◌∷◌, ◌++◌}
use mathlib.Core.Path.{◌≡◌, refl}
use mathlib.Core.Bool.{Bool, true, false, ◌&&◌}
use mathlib.Core.Option.{Option, none, some}
use Prim.Native.Nat.{ℕ, ◌+◌, ◌-◌}
use native.Mathlib.Omega.{arith}
use chainquery.Prelude.Tests.{leb, le→leb, if◌then◌else◌}
use chainquery.Prelude.Lists.{
  length, length-append, get_elem?, get_elem?-length-append, take, drop, drop-length-append,
  take-length-append,
}

pub data Go {ℓ κ} (E : Type κ) (A : Type ℓ) : Type (ℓ ⊔ κ) where
  ok : A → Go E A
  err : E → Go E A
  panic : Go E A

infixl 5 ◌>>=◌ ◌>>◌
abbrev pub ◌>>=◌ {ℓ κ μ} : {E : Type κ} {B : Type μ} {A : Type ℓ} → Go E A → (A → Go E B) → Go E B
panic >>= next = panic
err fault >>= next = err fault
ok x >>= next = next x

abbrev ◌>>◌ {ℓ μ} : {E : Type μ} {B : Type ℓ} → Go E (Unit {0}) → Go E B → Go E B
m >> k = m >>= λ _. k

abbrev of_option {ℓ κ} : {E : Type κ} {A : Type ℓ} → Option A → Go E A
of_option none = panic
of_option (some a) = ok a

-- A missing value as an error.
abbrev pub or_err {ℓ κ} : {E : Type κ} {A : Type ℓ} → E → Option A → Go E A
or_err e none = err e
or_err e (some a) = ok a

-- An error of one kind as one of another.
abbrev pub map_err {ℓ κ μ} : {D : Type κ} {E : Type μ} {A : Type ℓ} → (D → E) → Go D A → Go E A
map_err f (ok a) = ok a
map_err f (err e) = err (f e)
map_err f panic = panic

-- What succeeds has succeeded in both its parts.
pub bind-ok {ℓ κ μ} :
    {E : Type κ} {A : Type ℓ} {B : Type μ} (x : Go E A) (next : A → Go E B) (b : B)
    → x >>= next ≡ ok b
    → (a : A) × (x ≡ ok a) × (next a ≡ ok b)
bind-ok (ok a) next b e = (a, refl, e)
bind-ok (err x) next b e = absurd (ground arith)
bind-ok panic next b e = absurd (ground arith)

pub map_err-ok {ℓ κ μ} :
    {D : Type κ} {E : Type μ} {A : Type ℓ} (f : D → E) (x : Go D A) (a : A)
    → map_err f x ≡ ok a
    → x ≡ ok a
map_err-ok f (ok b) a e = ground arith
map_err-ok f (err d) a e = absurd (ground arith)
map_err-ok f panic a e = absurd (ground arith)

-- What succeeds behind a test has passed it.
pub if-ok {ℓ κ} :
    {E : Type κ} {A : Type ℓ} (b : Bool) (x : Go E A) (fault : E) (a : A)
    → (if b then x else err fault) ≡ ok a
    → (b ≡ true) × (x ≡ ok a)
if-ok true x fault a e = (refl, e)
if-ok false x fault a e = absurd (ground arith)

pub ok-injective {ℓ κ} :
    {E : Type κ} {A : Type ℓ} (a b : A) → ◌≡◌ {A = Go E A} (ok a) (ok b) → a ≡ b
ok-injective a b e = cc

pub or_err-ok {ℓ κ} :
    {E : Type κ} {A : Type ℓ} (x : E) (o : Option A) (a : A) → or_err x o ≡ ok a → o ≡ some a
or_err-ok x none a e = absurd (ground arith)
or_err-ok x (some b) a e = ground arith

module _ {ℓ κ} {E : Type κ} {A : Type ℓ} where
  -- `s[i]`
  unfoldable pub index : List A → ℕ → Go E A
  index s i = of_option (get_elem? s i)

  -- `s[lo:hi]`
  unfoldable pub slice : List A → ℕ → ℕ → Go E (List A)
  slice s lo hi = if leb lo hi && leb hi (length s) then ok (take (hi - lo) (drop lo s)) else panic

  -- `s[lo:]`
  unfoldable pub slice_from : List A → ℕ → Go E (List A)
  slice_from s lo = if leb lo (length s) then ok (drop lo s) else panic

  pub index-append :
      (xs : List A) (y : A) (ys : List A) (i : ℕ) → i ≡ length xs → index (xs ++ y ∷ ys) i ≡ ok y
  unfolding index
  index-append xs y ys i h = rw (h, get_elem?-length-append xs y ys)

  pub slice-append :
      (xs ys zs : List A) (lo hi : ℕ)
      → lo ≡ length xs
      → hi ≡ length xs + length ys
      → slice (xs ++ (ys ++ zs)) lo hi ≡ ok ys
  unfolding slice
  slice-append xs ys zs lo hi h k =
      let size = length-append xs (ys ++ zs) in
      let size' = length-append ys zs in
      let width : hi - lo ≡ length ys = omega arith in
      rw (le→leb lo hi (omega arith), le→leb hi (length (xs ++ (ys ++ zs))) (omega arith), width, h)
        (rw (drop-length-append xs (ys ++ zs), take-length-append ys zs))

  pub slice_from-append :
      (xs ys : List A) (lo : ℕ) → lo ≡ length xs → slice_from (xs ++ ys) lo ≡ ok ys
  unfolding slice_from
  slice_from-append xs ys lo h =
      let size = length-append xs ys in
      rw (le→leb lo (length (xs ++ ys)) (omega arith), h) (rw (drop-length-append xs ys))
