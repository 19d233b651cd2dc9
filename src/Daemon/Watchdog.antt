-- ===== src/Daemon/Watchdog.antt =====
-- The watchdog of daemon/daemon.go and the settings it reads. A time is a number of nanoseconds;
-- the zero time of Go is `none`. A duration that is not positive is 0, which is all that the code
-- asks of it; the clock is an argument.
use chainquery.Prelude.{
  ℕ, ◌-◌, ◌*◌, ◌≤◌, ◌<◌, ◌≡◌, ◌≢◌, ◌↔◌, Bool, false, not, ◌&&◌, ◌||◌, Option, none, some, arith,
  ltb, ◌==◌, if◌then◌else◌,
}

pub record WatchdogState : Type 0 where
  pub last_success_at : Option ℕ
  pub inflight_started_at : Option ℕ
  pub last_dump_at : Option ℕ
  pub last_success_height : ℕ
  pub target_height : ℕ
  pub inflight_height : ℕ

pub record Snapshot : Type 0 where
  pub last_success_at : Option ℕ
  pub inflight_started_at : ℕ
  pub last_success_height : ℕ
  pub target_height : ℕ
  pub inflight_height : ℕ
  pub elapsed : ℕ

abbrev time_minute : ℕ
time_minute = 60000000000

abbrev time_second : ℕ
time_second = 1000000000

abbrev time_millisecond : ℕ
time_millisecond = 1000000

-- global.DaemonSettings, as far as the daemon reads it.
pub record DaemonSettings : Type 0 where
  pub daemon_mode : ℕ
  pub daemon_delay : ℕ
  pub processing_delay : ℕ
  pub block_processing_timeout : ℕ
  pub block_processing_dump_interval : ℕ
  pub exit_on_block_processing_timeout : Bool

abbrev beastmode : ℕ
beastmode = 0

abbrev slowsteadymode : ℕ
slowsteadymode = 1

abbrev daemonmode : ℕ
daemonmode = 3

unfoldable apply_settings : DaemonSettings → DaemonSettings
apply_settings settings =
    let delay = if settings.daemon_delay == 0 then time_second else settings.daemon_delay in
    let dump =
      if settings.block_processing_dump_interval == 0
      then settings.block_processing_timeout
      else settings.block_processing_dump_interval in
    let processing =
      if settings.daemon_mode == beastmode
      then 0
      else if settings.daemon_mode == slowsteadymode
      then 100 * time_millisecond
      else if settings.daemon_mode == daemonmode
      then delay
      else settings.processing_delay in
    record settings {
      daemon_delay = delay;
      block_processing_dump_interval = dump;
      processing_delay = processing;
    }

unfoldable block_watchdog_interval : (timeout : ℕ) → ℕ
block_watchdog_interval timeout =
    if ltb 0 timeout && ltb timeout time_minute then timeout else time_minute

unfoldable pub next_block_processing_dump_delay : (timeout dump_delay : ℕ) → ℕ
next_block_processing_dump_delay timeout dump_delay =
    if ltb 0 dump_delay then dump_delay else timeout

unfoldable record_daemon_target : (now last_height height : ℕ) → WatchdogState → WatchdogState
record_daemon_target now last_height height w = elim w.last_success_at [
  | none ↦ record w {
    target_height = height;
    last_success_at = some now;
    last_success_height = last_height;
  }
  | some _ ↦ record w { target_height = height }
]

unfoldable pub record_block_start : (now height : ℕ) → WatchdogState → WatchdogState
record_block_start now height w = record w {
  inflight_height = height;
  inflight_started_at = some now;
}

unfoldable record_block_success : (now height : ℕ) → WatchdogState → WatchdogState
record_block_success now height w = record w {
  last_success_height = height;
  last_success_at = some now;
}

unfoldable pub clear_in_flight_block : ℕ → WatchdogState → WatchdogState
clear_in_flight_block height w =
    if w.inflight_height == height
    then record w { inflight_height = 0; inflight_started_at = none }
    else w

unfoldable pub record_block_finished :
    (now height processed_height : ℕ) → WatchdogState → WatchdogState
record_block_finished now height processed_height w = record (clear_in_flight_block height w) {
  last_success_height = processed_height;
  last_success_at = some now;
}

-- Whether the last dump is too recent for another.
abbrev dumped_recently : (now delay : ℕ) → Option ℕ → Bool
dumped_recently now delay none = false
dumped_recently now delay (some last) = ltb (now - last) delay

-- blockTimeoutSnapshot: the snapshot, if there is one, and the new state.
unfoldable pub block_timeout_snapshot :
    (timeout dump_delay now : ℕ) (force : Bool) → WatchdogState → Option Snapshot × WatchdogState
block_timeout_snapshot timeout dump_delay now force w = elim w.inflight_started_at [
  | none ↦ (none, w)
  | some started ↦
      let elapsed = now - started in
      let recent =
        dumped_recently now (next_block_processing_dump_delay timeout dump_delay) w.last_dump_at in
      if (timeout == 0) || ltb elapsed timeout
      then (none, w)
      else if not force && recent
      then (none, w)
      else (
        some (record {
          last_success_at = w.last_success_at;
          inflight_started_at = started;
          last_success_height = w.last_success_height;
          target_height = w.target_height;
          inflight_height = w.inflight_height;
          elapsed = elapsed;
        }),
        record w { last_dump_at = some now },
      )
]

-- When a snapshot is taken, and later an unforced one of a state with the same time of the last
-- dump, the two are at least the dump delay apart.
snapshots_are_spaced :
    (timeout dump_delay now later : ℕ) (force : Bool) (w v w' : WatchdogState) (a b : Snapshot)
    → block_timeout_snapshot timeout dump_delay now force w ≡ (some a, v)
    → w'.last_dump_at ≡ v.last_dump_at
    → (block_timeout_snapshot timeout dump_delay later false w').0 ≡ some b
    → next_block_processing_dump_delay timeout dump_delay ≤ later - now
unfolding block_timeout_snapshot
snapshots_are_spaced timeout dump_delay now later force w v w' a b p q r = ground arith

-- While no dump was made, a block that was started is reported exactly if the timeout is positive
-- and has passed since the start; once the block is recorded as finished, with whatever height,
-- nothing is reported.
started_is_reported :
    (timeout dump_delay start now height reached later : ℕ) (force : Bool) (w : WatchdogState)
    → w.last_dump_at ≡ none
    → (((block_timeout_snapshot timeout dump_delay now force (record_block_start start height w)).0
          ≢ none)
        ↔ (0 < timeout) × (timeout ≤ now - start))
      × ((block_timeout_snapshot timeout dump_delay later force
            (record_block_finished now height reached (record_block_start start height w))).0
          ≡ none)
unfolding block_timeout_snapshot record_block_start record_block_finished clear_in_flight_block
started_is_reported timeout dump_delay start now height reached later force w none_dumped =
    ground arith
