-- ===== src/Upgrades.antt =====
-- daemon/upgrademanager: upgrade.go, which runs the upgrades of the data that a stored version needs, and
-- the scripts of script.go that they call. A failure that only is logged leaves the database as it was.
pub mod Scripts
pub mod Once
use chainquery.Upgrades.Scripts.{
  UpgradeStore, re_process_all_claims, re_process_all_claims_from_height, set_claim_addresses,
  set_block_height_on_all_claims, or_same,
}
use chainquery.Jobs.ClaimTrie.{get_is_expired_at_height}
use chainquery.Prelude.Go.{Go, ◌>>=◌, ok, err, panic}
use chainquery.Prelude.{
  ℕ, ◌+◌, ◌-◌, ◌%◌, ◌^◌, Bool, Option, none, some, List, [], ◌∷◌, ltb, if◌then◌else◌,
}
use chainquery.Lbrycrd.Address.{Btcutil}
use chainquery.Prelude.Text.{Text}

pub record AppStatus : Type 0 where
  pub app_version : ℕ
  pub api_version : ℕ
  pub data_version : ℕ

abbrev app_version_now : ℕ
app_version_now = 13

abbrev api_version_now : ℕ
api_version_now = 13

abbrev data_version_now : ℕ
data_version_now = 13

-- The one row of the status; `status_exists` panics where the query fails.
pub record StatusStore (State : Type 0) : Type 0 where
  pub status_exists : State → Option Bool
  pub find_status : State → Option AppStatus
  pub insert_status : State → AppStatus → Option State
  pub update_status : State → AppStatus → Option State

-- The height of the fork that changed when claims expire.
abbrev pub fork_height : ℕ
fork_height = 400155

module _ {Tx : Type 0} (btcutil : Btcutil) (chain : Text) (db : UpgradeStore Tx) where
  open db use {
    State, highest_block, blocks_from, delete_blocks, block_count, expired_claims, put_active,
    restart_claim_trie,
  }

  abbrev Upgrade : Type 0
  Upgrade = State → Go (Unit {0}) State

  abbrev when_below : ℕ → ℕ → Upgrade → Upgrade
  when_below bound version upgrade s = if ltb version bound then upgrade s else ok s

  -- `highestBlock.Height-50` is unsigned.
  unfoldable delete_top_blocks : Upgrade
  delete_top_blocks s = elim (highest_block s) [
    | none ↦ ok s
    | some h ↦ elim (blocks_from s ((h + 2 ^ 64 - 50) % 2 ^ 64)) [
      | none ↦ ok s
      | some blocks ↦ ok (or_same s (delete_blocks s blocks))
    ]
  ]

  unfoldable pub reprocess_after_fork : Upgrade
  unfolding re_process_all_claims_from_height
  reprocess_after_fork s = elim (highest_block s) [
    | none ↦ ok s
    | some h ↦
        if ltb h fork_height then re_process_all_claims_from_height db fork_height s else ok s
  ]

  -- The claims that were expired, each with its height.
  abbrev revive_all : ℕ → List (ℕ × ℕ) → State → State
  revive_all count [] s = s
  revive_all count ((id, height) ∷ claims) s =
      revive_all count claims
        (if get_is_expired_at_height height count then s else or_same s (put_active s id))

  abbrev pub claims_or_none : Option (List (ℕ × ℕ)) → List (ℕ × ℕ)
  claims_or_none none = []
  claims_or_none (some claims) = claims

  unfoldable revive_expired : Upgrade
  revive_expired s = elim (block_count s) [
    | none ↦ ok s
    | some count ↦ ok (revive_all count (claims_or_none (expired_claims s)) s)
  ]

  -- A goroutine of its own: what goes wrong there does not stop the caller, who goes on with the
  -- state at hand.
  abbrev in_goroutine : Upgrade → Upgrade
  in_goroutine upgrade s = elim (upgrade s) [ ok t ↦ ok t | err _ ↦ ok s | panic ↦ ok s ]

  -- The eleventh upgrade runs in a goroutine; it is given the state at hand, and is done before the
  -- next one begins.
  unfoldable pub run_upgrades : ℕ → Upgrade
  unfolding re_process_all_claims set_claim_addresses set_block_height_on_all_claims
      delete_top_blocks reprocess_after_fork revive_expired
  run_upgrades version s =
      when_below 2 version (re_process_all_claims db) s
      >>= when_below 3 version (re_process_all_claims db)
      >>= when_below 4 version (re_process_all_claims db)
      >>= when_below 5 version (set_claim_addresses btcutil chain db)
      >>= when_below 6 version delete_top_blocks
      >>= when_below 7 version (set_block_height_on_all_claims db)
      >>= when_below 8 version reprocess_after_fork
      >>= when_below 9 version (re_process_all_claims db)
      >>= when_below 10 version revive_expired
      >>= when_below 10 version (re_process_all_claims db)
      >>= when_below 12 version (in_goroutine (re_process_all_claims db))
      >>= when_below 13 version (λ t. ok (or_same t (restart_claim_trie t)))

  module _ (status : StatusStore State) where
    open status use {status_exists, find_status, insert_status, update_status}

    abbrev pub current : AppStatus
    current = record {
      app_version = app_version_now;
      api_version = api_version_now;
      data_version = data_version_now;
    }

    abbrev pub or_panic : Option State → Go (Unit {0}) State
    or_panic none = panic
    or_panic (some s) = ok s

    -- A new status is inserted and then updated as well.
    unfoldable pub run_upgrades_for_version : Upgrade
    unfolding run_upgrades
    run_upgrades_for_version s = elim (status_exists s) [
      | none ↦ panic
      | some found ↦
          if found
          then elim (find_status s) [
            | none ↦ ok s
            | some st ↦ run_upgrades st.app_version s >>= λ s'. or_panic (update_status s' current)
          ]
          else (or_panic (insert_status s current) >>= λ s'. or_panic (update_status s' current))
    ]
