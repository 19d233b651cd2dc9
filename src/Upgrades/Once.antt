-- ===== src/Upgrades/Once.antt =====
-- How often upgrades run: RunUpgradesForVersion called again, and the upgrade for the expiration fork.
use chainquery.Upgrades.{AppStatus, StatusStore, fork_height, reprocess_after_fork}
use chainquery.Upgrades.Scripts.{
  UpgradeStore, process_claim_outs, re_process_all_claims_from_height,
}
use chainquery.Prelude.Go.{ok}
use chainquery.Prelude.{
  ℕ, ◌<◌, ◌≡◌, refl, inl, inr, true, some, [], ltb, ltb→lt, Bool-cases, Option-cases,
}
use chainquery.Prelude.Text.{Text}
use chainquery.Lbrycrd.Address.{Btcutil}

-- The row of the status is found where it exists, and an update writes it.
pub record StatusLaws {State : Type 0} (status : StatusStore State) : Type 0 where
  pub finds :
      (s : State)
      → status.status_exists s ≡ some true
      → (st : AppStatus) × (status.find_status s ≡ some st)
  pub exists_after :
      (s s' : State) (st : AppStatus)
      → status.update_status s st ≡ some s'
      → status.status_exists s' ≡ some true
  pub finds_after :
      (s s' : State) (st : AppStatus)
      → status.update_status s st ≡ some s'
      → status.find_status s' ≡ some st

module _ {Tx : Type 0} (btcutil : Btcutil) (chain : Text) (db : UpgradeStore Tx) where
  open db use {State, highest_block, claim_outputs_from}

  -- Let there be no claim output at the height of the fork or above as long as the highest block is
  -- below it. Then the upgrade that processes these outputs again changes nothing.
  fork_upgrade_idle :
      ((t : State) (h : ℕ)
        → highest_block t ≡ some h
        → h < fork_height
        → claim_outputs_from t fork_height ≡ some [])
      → (s : State) → reprocess_after_fork btcutil chain db s ≡ ok s
  unfolding reprocess_after_fork process_claim_outs
  fork_upgrade_idle none_above s = elim (Option-cases (highest_block s)) [
    | inl n ↦ rw (n, reprocess_after_fork) refl
    | inr (h, at) ↦ elim (Bool-cases (ltb h fork_height)) [
      | inl low ↦
          rw
            (
              at,
              low,
              none_above s h at (ltb→lt h fork_height low),
              reprocess_after_fork,
              re_process_all_claims_from_height,
            )
            refl
      | inr high ↦ rw (at, high, reprocess_after_fork) refl
    ]
  ]
