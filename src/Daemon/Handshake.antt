-- ===== src/Daemon/Handshake.antt =====
-- processBlockHeight of daemon/daemon.go, with sendBlockHeight, waitForBlockProcessed and
-- handleBlockProcessingTimeout: a height is handed to a block worker, and its answer awaited. What the
-- channels, the timer and the stopper do is an argument, as are the times.
use chainquery.Prelude.{
  ℕ, ◌≡◌, refl, inl, inr, Bool, true, false, ◌&&◌, Option, none, some, List, [], ◌∷◌, arith, ◌==◌,
  if◌then◌else◌, Option-cases,
}
use chainquery.Daemon.Watchdog.{
  WatchdogState, Snapshot, record_block_start, clear_in_flight_block, record_block_finished,
  block_timeout_snapshot,
}

-- The worker takes the height, the stopper closes, or the timer fires.
pub data Sending : Type 0 where
  taken closed : Sending
  send_timeout : (now : ℕ) → Sending

pub data Waiting : Type 0 where
  processed : (now reached : ℕ) → Waiting
  stopping : Waiting
  wait_timeout : (now : ℕ) → Waiting

-- The process exits, the function returns, or the events given do not let it return.
pub data Handshake : Type 0 where
  exited : Handshake
  returned : Option ℕ → WatchdogState → Handshake
  pending : WatchdogState → Handshake

abbrev is_some : Option Snapshot → Bool
is_some none = false
is_some (some _) = true

-- No block is in flight, and a height that was reached is recorded.
abbrev pub IsOver : Option ℕ → WatchdogState → Type 0
IsOver r w =
    (w.inflight_started_at ≡ none)
    × (w.inflight_height ≡ 0)
    × ((reached : ℕ) → r ≡ some reached → w.last_success_height ≡ reached)

module _ (timeout dump_delay : ℕ) (exit_on_timeout : Bool) where
  -- `none` is the exit of the process.
  unfoldable pub handle_block_processing_timeout : (now : ℕ) → WatchdogState → Option WatchdogState
  handle_block_processing_timeout now w =
      let dump = block_timeout_snapshot timeout dump_delay now true w in
      if is_some dump.0 && exit_on_timeout then none else some dump.1

  unfoldable pub wait_for_block_processed : (height : ℕ) → List Waiting → WatchdogState → Handshake
  wait_for_block_processed height [] w = pending w
  wait_for_block_processed height (processed now reached ∷ events) w =
      returned (some reached) (record_block_finished now height reached w)
  wait_for_block_processed height (stopping ∷ events) w =
      returned none (clear_in_flight_block height w)
  wait_for_block_processed height (wait_timeout now ∷ events) w =
      let fired : Handshake = elim (handle_block_processing_timeout now w) [
        | none ↦ exited
        | some w' ↦ wait_for_block_processed height events w'
      ] in
      if timeout == 0 then pending w else fired

  unfoldable pub send_block_height :
      (height : ℕ) → Sending → List Waiting → WatchdogState → Handshake
  send_block_height height taken events w = wait_for_block_processed height events w
  send_block_height height closed events w = returned none (clear_in_flight_block height w)
  send_block_height height (send_timeout now) events w =
      let fired : Handshake = elim (handle_block_processing_timeout now w) [
        | none ↦ exited
        | some w' ↦ returned none (clear_in_flight_block height w')
      ] in
      if timeout == 0 then pending w else fired

  unfoldable pub process_block_height :
      (start height : ℕ) → Sending → List Waiting → WatchdogState → Handshake
  process_block_height start height sending events w =
      send_block_height height sending events (record_block_start start height w)

  handle-inflight :
      (now : ℕ) (w w' : WatchdogState)
      → handle_block_processing_timeout now w ≡ some w'
      → w'.inflight_height ≡ w.inflight_height
  unfolding handle_block_processing_timeout block_timeout_snapshot
  handle-inflight now w w' e = ground arith

  wait-IsOver :
      (height : ℕ) (events : List Waiting) (w w' : WatchdogState) (r : Option ℕ)
      → w.inflight_height ≡ height
      → wait_for_block_processed height events w ≡ returned r w'
      → IsOver r w'
  unfolding wait_for_block_processed record_block_finished clear_in_flight_block
  wait-IsOver height [] w w' r i e = absurd (ground arith)
  wait-IsOver height (processed now reached ∷ events) w w' r i e =
      (ground arith, ground arith, λ x p. ground arith)
  wait-IsOver height (stopping ∷ events) w w' r i e =
      (ground arith, ground arith, λ x p. ground arith)
  wait-IsOver height (wait_timeout now ∷ events) w w' r i e =
      elim (Option-cases (handle_block_processing_timeout now w)) [
        | inl h ↦ absurd (ground arith)
        | inr (v, h) ↦
            let kept = handle-inflight now w v h in
            wait-IsOver height events v w' r (omega arith) (ground arith)
      ]

  -- When the handshake for a height returns, be it by an answer, by the stopper or by a timeout of
  -- the sending, no block is in flight any more, and an answer is recorded as the last height of
  -- success.
  pub process_block_height-IsOver :
      (start height : ℕ) (sending : Sending) (events : List Waiting) (w w' : WatchdogState)
      (r : Option ℕ)
      → process_block_height start height sending events w ≡ returned r w'
      → IsOver r w'
  unfolding process_block_height send_block_height record_block_start clear_in_flight_block
  process_block_height-IsOver start height taken events w w' r e =
      wait-IsOver height events (record_block_start start height w) w' r refl e
  process_block_height-IsOver start height closed events w w' r e =
      (ground arith, ground arith, λ x p. ground arith)
  process_block_height-IsOver start height (send_timeout now) events w w' r e =
      elim (Option-cases
        (handle_block_processing_timeout now (record_block_start start height w))) [
          | inl h ↦ absurd (ground arith)
          | inr (v, h) ↦
              let kept : v.inflight_height ≡ height =
                handle-inflight now (record_block_start start height w) v h in
              (ground arith, ground arith, λ x p. ground arith)
        ]
