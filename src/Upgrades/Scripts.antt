-- ===== src/Upgrades/Scripts.antt =====
-- The scripts of daemon/upgrademanager/script.go. A log that panics is the outcome `panic`.
use chainquery.Prelude.Go.{Go, ◌>>=◌, ok, err, panic}
use chainquery.Prelude.{ℕ, Bool, Option, none, some, List, [], ◌∷◌, if◌then◌else◌}
use chainquery.Prelude.Text.{Text}
use chainquery.Lbrycrd.Hex.{Bytes, hex_decode}
use chainquery.Lbrycrd.Address.{Btcutil, get_address_from_public_key_script}
use chainquery.Lbrycrd.Script.{
  ScriptError, is_claim_script, is_claim_name_script, is_claim_update_script,
  parse_claim_name_script, parse_claim_support_script, parse_claim_update_script,
}

-- The queries of the scripts, the calls of lbrycrd, and the processing of a transaction, whose error
-- is only logged. An output is given by the hash of its transaction.
pub record UpgradeStore (Tx : Type 0) : Type 1 where
  pub State : Type 0
  pub claim_outputs : State → Option (List Text)
  pub claim_outputs_from : State → ℕ → Option (List Text)
  pub get_transaction : State → Text → Option Text
  pub get_raw_transaction : Text → Option (Tx × Text)
  pub get_block : State → Text → Option (ℕ × ℕ)
  pub process_tx : Tx → (block_time height : ℕ) → State → State
  pub claims_without_address : State → Option (List (ℕ × Text))
  pub put_claim_address : State → ℕ → Text → Option State
  pub claims_without_height : State → Option (List (ℕ × ℕ))
  pub put_claim_height : State → ℕ → ℕ → Option State
  pub highest_block : State → Option ℕ
  pub blocks_from : State → ℕ → Option (List ℕ)
  pub delete_blocks : State → List ℕ → Option State
  pub block_count : State → Option ℕ
  pub expired_claims : State → Option (List (ℕ × ℕ))
  pub put_active : State → ℕ → Option State
  pub restart_claim_trie : State → Option State

abbrev pub or_same : {S : Type 0} → S → Option S → S
or_same s none = s
or_same s (some s') = s'

module _ {Tx : Type 0} (db : UpgradeStore Tx) where
  open db use {
    State, claim_outputs, claim_outputs_from, get_transaction, get_raw_transaction, get_block,
    process_tx, claims_without_height, put_claim_height,
  }

  abbrev pub or_panic {ℓ} : {A : Type ℓ} → Option A → Go (Unit {0}) A
  or_panic none = panic
  or_panic (some a) = ok a

  unfoldable process_claim_out : Text → State → Go (Unit {0}) State
  process_claim_out tx_hash s = or_panic (get_transaction s tx_hash) >>= λ hash.
      or_panic (get_raw_transaction hash) >>= λ raw.
      or_panic (get_block s raw.1) >>= λ block. ok (process_tx raw.0 block.0 block.1 s)

  unfoldable pub process_claim_outs : List Text → State → Go (Unit {0}) State
  unfolding process_claim_out
  process_claim_outs [] s = ok s
  process_claim_outs (tx_hash ∷ hashes) s =
      process_claim_out tx_hash s >>= λ s'. process_claim_outs hashes s'

  unfoldable pub re_process_all_claims : State → Go (Unit {0}) State
  unfolding process_claim_outs
  re_process_all_claims s = or_panic (claim_outputs s) >>= λ hashes. process_claim_outs hashes s

  unfoldable pub re_process_all_claims_from_height : ℕ → State → Go (Unit {0}) State
  unfolding process_claim_outs
  re_process_all_claims_from_height height s =
      or_panic (claim_outputs_from s height) >>= λ hashes. process_claim_outs hashes s

  abbrev set_heights : List (ℕ × ℕ) → State → State
  set_heights [] s = s
  set_heights ((id, height) ∷ claims) s =
      set_heights claims (or_same s (put_claim_height s id height))

  unfoldable pub set_block_height_on_all_claims : State → Go (Unit {0}) State
  set_block_height_on_all_claims s =
      or_panic (claims_without_height s) >>= λ claims. ok (set_heights claims s)

-- The public key script of a script that is one of the three kinds.
abbrev claim_pks : Bytes → Go ScriptError Bytes
claim_pks script =
    if is_claim_name_script script
    then (parse_claim_name_script script >>= λ c. ok c.pubkeyscript)
    else if is_claim_update_script script
    then (parse_claim_update_script script >>= λ c. ok c.pubkeyscript)
    else (parse_claim_support_script script >>= λ c. ok c.pubkeyscript)

module _ {Tx : Type 0} (btcutil : Btcutil) (chain : Text) (db : UpgradeStore Tx) where
  open db use {State, claims_without_address, put_claim_address}

  abbrev put_address_of : ℕ → Go ScriptError Bytes → State → Go (Unit {0}) State
  put_address_of id panic s = panic
  put_address_of id (err e) s = ok s
  put_address_of id (ok pks) s =
      ok (or_same s (put_claim_address s id (get_address_from_public_key_script btcutil chain pks)))

  abbrev put_if_claim : ℕ → Bytes → Go ScriptError Bool → State → Go (Unit {0}) State
  put_if_claim id script panic s = panic
  put_if_claim id script (err e) s = ok s
  put_if_claim id script (ok claim) s =
      if claim then put_address_of id (claim_pks script) s else ok s

  -- A script that cannot be read from its hexadecimal text panics.
  unfoldable set_claim_address : ℕ → Text → State → Go (Unit {0}) State
  set_claim_address id hex s = elim (hex_decode hex) [
    | none ↦ panic
    | some script ↦ put_if_claim id script (is_claim_script script) s
  ]

  unfoldable set_addresses : List (ℕ × Text) → State → Go (Unit {0}) State
  unfolding set_claim_address
  set_addresses [] s = ok s
  set_addresses ((id, hex) ∷ claims) s =
      set_claim_address id hex s >>= λ s'. set_addresses claims s'

  unfoldable pub set_claim_addresses : State → Go (Unit {0}) State
  unfolding set_addresses
  set_claim_addresses s =
      or_panic db (claims_without_address s) >>= λ claims. set_addresses claims s
