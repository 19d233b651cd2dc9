-- ===== src/Tests/Upgrades.antt =====
-- Upgrades on a database that only counts.
use chainquery.Upgrades.{AppStatus, StatusStore}
use chainquery.Upgrades.Scripts.{UpgradeStore}
use chainquery.Prelude.{ℕ, true, some, [], ◌∷◌}
use chainquery.Prelude.Text.{Text, text}

-- The state is the three versions that are stored; one claim output is processed by each upgrade for claims.
abbrev store : UpgradeStore ℕ
store = record {
  State = ℕ × ℕ × ℕ;
  claim_outputs = λ s. some (text "t" ∷ []);
  claim_outputs_from = λ s h. some [];
  get_transaction = λ s t. some t;
  get_raw_transaction = λ t. some (1, text "b");
  get_block = λ s b. some (9, 9);
  process_tx = λ tx t h s. s;
  claims_without_address = λ s. some [];
  put_claim_address = λ s id a. some s;
  claims_without_height = λ s. some [];
  put_claim_height = λ s id h. some s;
  highest_block = λ s. some 9;
  blocks_from = λ s h. some [];
  delete_blocks = λ s bs. some s;
  block_count = λ s. some 9;
  expired_claims = λ s. some [];
  put_active = λ s id. some s;
  restart_claim_trie = λ s. some s;
}

abbrev version_of : ℕ → AppStatus
version_of n = record { app_version = n; api_version = n; data_version = n }

abbrev statuses : StatusStore (ℕ × ℕ × ℕ)
statuses = record {
  status_exists = λ s. some true;
  find_status = λ s. some (record { app_version = s.0; api_version = s.1; data_version = s.2 });
  insert_status = λ s st. some (st.app_version, st.api_version, st.data_version);
  update_status = λ s st. some (st.app_version, st.api_version, st.data_version);
}

abbrev main : Text
main = text "lbrycrd_main"
