-- ===== src/Processing/Blocks/Store.antt =====
-- The rows of the block table (model/block.go), lbrycrd's block (lbrycrd/reponse.go), and the
-- queries that daemon/processing/block.go makes. Difficulties are values of an abstract type.
use chainquery.Prelude.{ℕ, ◌≡◌, refl, ◌⊎◌, inl, inr, Option, List}
use chainquery.Prelude.Text.{Text}

-- A column that may be null is an option. The columns created_at and modified_at, which the
-- database fills, are left out.
pub record Block (F : Type 0) : Type 0 where
  pub id : ℕ
  pub bits : Text
  pub chainwork : Text
  pub confirmations : ℕ
  pub difficulty : F
  pub hash : Text
  pub height : ℕ
  pub merkle_root : Text
  pub name_claim_root : Text
  pub next_block_hash : Option Text
  pub previous_block_hash : Option Text
  pub nonce : ℕ
  pub block_size : ℕ
  pub block_time : ℕ
  pub version : ℕ
  pub version_hex : Text
  pub tx_count : ℕ
  pub processing_state : Option Text

-- The numbers of a block are not negative.
pub record GetBlockResponse (F : Type 0) : Type 0 where
  pub hash : Text
  pub confirmations : ℕ
  pub size : ℕ
  pub version : ℕ
  pub version_hex : Text
  pub merkle_root : Text
  pub name_claim_root : Text
  pub tx : List Text
  pub n_tx : ℕ
  pub time : ℕ
  pub nonce : ℕ
  pub bits : Text
  pub difficulty : F
  pub chain_work : Text
  pub previous_block_hash : Text
  pub next_block_hash : Text

-- A query for one row: the row, sql.ErrNoRows, or another error.
pub data Row (A : Type 0) : Type 0 where
  found : A → Row A
  no_rows failed : Row A

pub Row-cases : {A : Type 0} (x : Row A) → ((a : A) × (x ≡ found a)) ⊎ (x ≡ no_rows) ⊎ (x ≡ failed)
Row-cases (found a) = inl (a, refl)
Row-cases no_rows = inr (inl refl)
Row-cases failed = inr (inr refl)

-- A statement that changes the database gives the new one, or `none` where it fails. An insertion
-- also gives the block with its new key.
pub record BlockStore (F : Type 0) : Type 1 where
  pub State : Type 0
  pub at_height : State → ℕ → Row (Block F)
  pub at_hash : State → Text → Row (Block F)
  pub insert : State → Block F → Option (Block F × State)
  pub update : State → Block F → Option State
  pub update_state : State → Block F → Option State
  -- The attempt is told apart, since a later one may succeed.
  pub delete : State → ℕ → Block F → Option State
