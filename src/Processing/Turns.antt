-- ===== src/Processing/Turns.antt =====
-- The order in which the workers of saveUpdateInputs and saveUpdateOutputs of
-- daemon/processing/transaction.go finish their jobs: each turn says how many of the open jobs stand
-- before the one that is finished next, and without turns the jobs are finished as they were queued.
use mathlib.Core.List.{Perm}
use mathlib.Core.List.Perm
use chainquery.Prelude.{ℕ, zero, suc, List, [], ◌∷◌}

module _ {A : Type 0} where
  -- The job that is finished, and the others.
  unfoldable next_job : ℕ → A → List A → A × List A
  next_job zero x xs = (x, xs)
  next_job (suc i) x [] = (x, [])
  next_job (suc i) x (y ∷ ys) = let (z, others) = next_job i y ys in (z, x ∷ others)

  unfoldable pub in_turn : List ℕ → List A → List A
  unfolding next_job
  in_turn [] jobs = jobs
  in_turn (i ∷ turns) [] = []
  in_turn (i ∷ turns) (x ∷ xs) = let (z, others) = next_job i x xs in z ∷ in_turn turns others

  next_job-Perm :
      (i : ℕ) (x : A) (xs : List A) → Perm ((next_job i x xs).0 ∷ (next_job i x xs).1) (x ∷ xs)
  unfolding next_job
  next_job-Perm zero x xs = Perm.rfl
  next_job-Perm (suc i) x [] = Perm.rfl
  next_job-Perm (suc i) x (y ∷ ys) =
      let (z, others) = next_job i y ys in
      Perm.trans (Perm.swap x z others) (Perm.cons x (next_job-Perm i y ys))

  -- Whatever the turns are, each job is finished once.
  pub in_turn-Perm : (turns : List ℕ) (jobs : List A) → Perm (in_turn turns jobs) jobs
  unfolding in_turn
  in_turn-Perm [] jobs = Perm.rfl
  in_turn-Perm (i ∷ turns) [] = Perm.rfl
  in_turn-Perm (i ∷ turns) (x ∷ xs) =
      let (z, others) = next_job i x xs in
      Perm.trans (Perm.cons z (in_turn-Perm turns others)) (next_job-Perm i x xs)
