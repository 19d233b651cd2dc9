-- ===== src/Tests/Misc.antt =====
-- The daemon, the claims of a name, and the amounts of a transaction.
use chainquery.Daemon.Handshake.{
  IsOver, handle_block_processing_timeout, wait_for_block_processed, send_block_height,
  process_block_height, process_block_height-IsOver, taken, processed, wait_timeout,
}
use chainquery.Prelude.{
  ℕ, suc, ◌+◌, ◌<◌, ◌≡◌, refl, ◌↔◌, Bool, true, false, Option, none, some, List, [], ◌∷◌, arith,
  if◌then◌else◌, count_if,
}
use chainquery.Daemon.Watchdog.{
  WatchdogState, Snapshot, record_block_start, record_block_finished, block_timeout_snapshot,
}
use chainquery.Jobs.ClaimTrie.{
  get_is_expired_at_height, get_claim_status, life_of, is_expired_iff, accepted, active,
  controlling, spent, output,
}
use chainquery.Jobs.Bids.{
  Claim, bid_state_discrete, set_bid_states, any_active, is_controlling, set_bid_states_controlling,
}

abbrev fresh : WatchdogState
fresh = record {
  last_success_at = none;
  inflight_started_at = none;
  last_dump_at = none;
  last_success_height = 0;
  target_height = 9;
  inflight_height = 0;
}

abbrev busy : WatchdogState
busy = record_block_start 100 7 fresh

abbrev dump : Option Snapshot × WatchdogState
dump = block_timeout_snapshot 10 20 115 false busy

process_block_height-IsOver_example : IsOver (some 7) (record_block_finished 140 7 7 dump.1)
unfolding process_block_height send_block_height wait_for_block_processed
    handle_block_processing_timeout block_timeout_snapshot record_block_start
process_block_height-IsOver_example =
    process_block_height-IsOver 10 20 false 100 7 taken (wait_timeout 115 ∷ processed 140 7 ∷ [])
      fresh (record_block_finished 140 7 7 dump.1) (some 7) refl

is_expired_iff_example :
    (get_is_expired_at_height 1000 263975 ≡ true) ↔ (1000 + life_of 1000 < 263975)
is_expired_iff_example = is_expired_iff 1000 263975 (omega arith) (omega arith)

abbrev claim_of : ℕ → Bool → Claim
claim_of id is_spent = record {
  id = id;
  height = 500000;
  outputs = output is_spent;
  bid_state = accepted;
}

abbrev claims : List Claim
claims = claim_of 1 true ∷ claim_of 2 false ∷ claim_of 3 false ∷ []

abbrev states : List Claim
states =
    record (claim_of 1 true) { bid_state = spent }
    ∷ record (claim_of 2 false) { bid_state = controlling }
    ∷ record (claim_of 3 false) { bid_state = active }
    ∷ []

abbrev put : ℕ → Claim → Option ℕ
put writes claim = some (suc writes)

set_bid_states_controlling_example :
    count_if is_controlling states ≡ (if any_active 600000 claims then 1 else 0)
unfolding set_bid_states bid_state_discrete get_claim_status get_is_expired_at_height
set_bid_states_controlling_example = set_bid_states_controlling put 600000 claims states 0 3 refl
