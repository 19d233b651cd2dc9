-- ===== src/Daemon/Iteration.antt =====
-- daemonIteration of daemon/daemon.go with rollbackBlockHeight. A turn of its loop is either a
-- closed stopper or the answer of processBlockHeight, which is used where a block is left: the
-- height that counts as processed, or `none` where the stopper closed while it waited.
use chainquery.Prelude.{
  ℕ, zero, suc, ◌+◌, ◌≤◌, ◌≡◌, subst, ◌⊎◌, Bool, not, ◌&&◌, Option, none, some, List, [], ◌∷◌,
  arith, ltb, leb, ◌==◌, if◌then◌else◌,
}

pub data Turn : Type 0 where
  stop : Turn
  go : Option ℕ → Turn

-- How an iteration ends, with the last height processed. Only an iteration that is `idle` lets
-- another one begin; a stopped one leaves the flag `running` set.
pub data Ended : Type 0 where
  idle stopped unfinished : ℕ → Ended

unfoldable rollback_block_height : ℕ → ℕ
rollback_block_height zero = 0
rollback_block_height (suc height) = height

-- Whether there is work left at a height.
abbrev work_to_do : (target last : ℕ) → Bool
work_to_do target last = ltb last target && not (last == 0)

-- The loop; `unfinished` where the turns given do not reach its end.
unfoldable daemon_loop : (target last : ℕ) → List Turn → Ended
daemon_loop target last [] = unfinished last
daemon_loop target last (stop ∷ turns) = stopped last
daemon_loop target last (go answer ∷ turns) =
    let on : ℕ → Ended = λ reached.
      let rest = daemon_loop target reached turns in
      if work_to_do target reached then rest else idle reached in
    let same = on last in
    let processed : Ended = elim answer [ none ↦ stopped last | some reached ↦ on reached ] in
    if leb (suc last) target then processed else same

-- The iteration; `count` is the height that lbrycrd gives, `genesis` the answer for height 0.
unfoldable daemon_iteration : (count : Option ℕ) (last : ℕ) (genesis : Option ℕ) → List Turn → Ended
daemon_iteration none last genesis turns = idle last
daemon_iteration (some target) zero none turns = stopped 0
daemon_iteration (some target) zero (some reached) turns = daemon_loop target reached turns
daemon_iteration (some target) (suc last) genesis turns = daemon_loop target (suc last) turns

-- The turns in which every block above `last` is processed.
abbrev successes : (last n : ℕ) → List Turn
successes last zero = []
successes last (suc n) = go (some (suc last)) ∷ successes (suc last) n

-- When lbrycrd is ahead of the last height processed, and every block is processed at once, the
-- loop ends at lbrycrd's height after as many turns as there are blocks between the two.
daemon_loop_catches_up :
    (last n : ℕ) → daemon_loop (last + suc n) last (successes last (suc n)) ≡ idle (last + suc n)
unfolding daemon_loop
daemon_loop_catches_up last zero = ground arith
daemon_loop_catches_up last (suc n) =
    let rest = daemon_loop_catches_up (suc last) n in
    let same : suc last + suc n ≡ last + suc (suc n) = omega arith in
    let later : daemon_loop (last + suc (suc n)) (suc last) (successes (suc last) (suc n))
        ≡ idle (last + suc (suc n)) =
      subst (λ t. daemon_loop t (suc last) (successes (suc last) (suc n)) ≡ idle t) same rest in
    ground arith

-- A loop of an iteration that ends so that another iteration may begin has reached lbrycrd's
-- height, or is at height 0.
daemon_loop_idle :
    (target last : ℕ) (turns : List Turn) (r : ℕ)
    → daemon_loop target last turns ≡ idle r
    → (target ≤ r) ⊎ (r ≡ 0)
unfolding daemon_loop
daemon_loop_idle target last [] r e = absurd (ground arith)
daemon_loop_idle target last (stop ∷ turns) r e = absurd (ground arith)
daemon_loop_idle target last (go none ∷ turns) r e =
    let same = daemon_loop_idle target last turns r in ground arith
daemon_loop_idle target last (go (some reached) ∷ turns) r e =
    let same = daemon_loop_idle target last turns r in
    let on = daemon_loop_idle target reached turns r in ground arith
