-- ===== src/Jobs/ChainSync/Align/Blocks.antt =====
-- alignBlock of daemon/jobs/chainsync.go: a stored block takes the values of lbrycrd in the columns in
-- which it differs, and these columns alone are written.
use chainquery.Jobs.ChainSync.Align.Columns.{
  number_column-only, text_column-only, write_columns-Written, Written, only, text_column,
  number_column, ◌and_append◌, chosen, text_column-eq, text_column-none, number_column-eq,
  number_column-none, ◌and_nil◌, write_columns, write_columns-nil,
}
use chainquery.Prelude.{
  ◌≡◌, sym, subst, ite, Bool, true, false, not, Option, none, some, List, [], ◌∷◌, ◌++◌, arith,
  ◌==◌, if◌then◌else◌,
}
use chainquery.Prelude.Text.{Text, text_discrete}
use chainquery.Processing.Blocks.Store.{Block, GetBlockResponse}

pub data BlockColumn : Type 0 where
  block_hash block_time block_version block_bits block_size block_chainwork block_difficulty
        block_merkle_root block_name_claim_root block_previous_hash block_nonce block_version_hex :
      BlockColumn

abbrev all_columns : List BlockColumn
all_columns =
    block_hash ∷ block_time ∷ block_version ∷ block_bits ∷ block_size ∷ block_chainwork
    ∷ block_difficulty ∷ block_merkle_root ∷ block_name_claim_root ∷ block_previous_hash
    ∷ block_nonce ∷ block_version_hex ∷ []

-- `String` of a null string.
abbrev string_of : Option Text → Text
string_of none = []
string_of (some t) = t

module _ {F : Type 0} (round : F → F) (same : F → F → Bool) where
  -- Difficulties are compared and stored as they are printed with six digits.
  abbrev difficulty_column : (own theirs : F) → F × List BlockColumn
  difficulty_column own theirs =
      if same (round own) (round theirs) then (own, []) else (round theirs, block_difficulty ∷ [])

  abbrev previous_column : Option Text → Text → Option Text × List BlockColumn
  previous_column own theirs =
      ite (text_discrete (string_of own) theirs) (own, []) (some theirs, block_previous_hash ∷ [])

  unfoldable pub aligned_block : Block F → GetBlockResponse F → Block F
  aligned_block b l = record b {
    hash = (text_column block_hash b.hash l.hash).0;
    block_time = (number_column block_time b.block_time l.time).0;
    version = (number_column block_version b.version l.version).0;
    bits = (text_column block_bits b.bits l.bits).0;
    block_size = (number_column block_size b.block_size l.size).0;
    chainwork = (text_column block_chainwork b.chainwork l.chain_work).0;
    difficulty = (difficulty_column b.difficulty l.difficulty).0;
    merkle_root = (text_column block_merkle_root b.merkle_root l.merkle_root).0;
    name_claim_root = (text_column block_name_claim_root b.name_claim_root l.name_claim_root).0;
    previous_block_hash = (previous_column b.previous_block_hash l.previous_block_hash).0;
    nonce = (number_column block_nonce b.nonce l.nonce).0;
    version_hex = (text_column block_version_hex b.version_hex l.version_hex).0;
  }

  unfoldable pub block_columns : Block F → GetBlockResponse F → List BlockColumn
  block_columns b l =
      (text_column block_hash b.hash l.hash).1
      ++ ((number_column block_time b.block_time l.time).1
          ++ ((number_column block_version b.version l.version).1
              ++ ((text_column block_bits b.bits l.bits).1
                  ++ ((number_column block_size b.block_size l.size).1
                      ++ ((text_column block_chainwork b.chainwork l.chain_work).1
                          ++ ((difficulty_column b.difficulty l.difficulty).1
                              ++ ((text_column block_merkle_root b.merkle_root l.merkle_root).1
                                  ++ ((text_column block_name_claim_root b.name_claim_root
                                        l.name_claim_root).1
                                      ++ ((previous_column b.previous_block_hash
                                            l.previous_block_hash).1
                                          ++ ((number_column block_nonce b.nonce l.nonce).1
                                              ++ (text_column block_version_hex b.version_hex
                                                  l.version_hex).1))))))))))

  previous-aligned :
      (own : Option Text) (theirs : Text) → string_of (previous_column own theirs).0 ≡ theirs
  previous-aligned own theirs = ground arith

  -- The row has lbrycrd's values.
  pub record IsAligned (b : Block F) (l : GetBlockResponse F) : Type 0 where
    pub hash : b.hash ≡ l.hash
    pub time : b.block_time ≡ l.time
    pub version : b.version ≡ l.version
    pub bits : b.bits ≡ l.bits
    pub size : b.block_size ≡ l.size
    pub chainwork : b.chainwork ≡ l.chain_work
    pub difficulty : same (round b.difficulty) (round l.difficulty) ≡ true
    pub merkle_root : b.merkle_root ≡ l.merkle_root
    pub name_claim_root : b.name_claim_root ≡ l.name_claim_root
    pub previous : string_of b.previous_block_hash ≡ l.previous_block_hash
    pub nonce : b.nonce ≡ l.nonce
    pub version_hex : b.version_hex ≡ l.version_hex

  aligned_block-IsAligned :
      ((x : F) → same (round (round x)) (round x) ≡ true)
      → (b : Block F) (l : GetBlockResponse F) → IsAligned (aligned_block b l) l
  unfolding aligned_block
  aligned_block-IsAligned rounded b l = record {
    hash = text_column-eq block_hash b.hash l.hash;
    time = number_column-eq block_time b.block_time l.time;
    version = number_column-eq block_version b.version l.version;
    bits = text_column-eq block_bits b.bits l.bits;
    size = number_column-eq block_size b.block_size l.size;
    chainwork = text_column-eq block_chainwork b.chainwork l.chain_work;
    difficulty = let r = rounded l.difficulty in ground arith;
    merkle_root = text_column-eq block_merkle_root b.merkle_root l.merkle_root;
    name_claim_root = text_column-eq block_name_claim_root b.name_claim_root l.name_claim_root;
    previous = previous-aligned b.previous_block_hash l.previous_block_hash;
    nonce = number_column-eq block_nonce b.nonce l.nonce;
    version_hex = text_column-eq block_version_hex b.version_hex l.version_hex;
  }

  previous-none :
      (own : Option Text) (theirs : Text)
      → string_of own ≡ theirs
      → (previous_column own theirs).1 ≡ []
  previous-none own theirs e = ground arith

  difficulty-none :
      (own theirs : F)
      → same (round own) (round theirs) ≡ true
      → (difficulty_column own theirs).1 ≡ []
  difficulty-none own theirs e = ground arith

  block_columns-IsAligned :
      (b : Block F) (l : GetBlockResponse F) → IsAligned b l → block_columns b l ≡ []
  unfolding block_columns
  block_columns-IsAligned b l v =
      text_column-none block_hash b.hash l.hash v.hash
      and_nil number_column-none block_time b.block_time l.time v.time
      and_nil number_column-none block_version b.version l.version v.version
      and_nil text_column-none block_bits b.bits l.bits v.bits
      and_nil number_column-none block_size b.block_size l.size v.size
      and_nil text_column-none block_chainwork b.chainwork l.chain_work v.chainwork
      and_nil difficulty-none b.difficulty l.difficulty v.difficulty
      and_nil text_column-none block_merkle_root b.merkle_root l.merkle_root v.merkle_root
      and_nil text_column-none block_name_claim_root b.name_claim_root l.name_claim_root
          v.name_claim_root
      and_nil previous-none b.previous_block_hash l.previous_block_hash v.previous
      and_nil number_column-none block_nonce b.nonce l.nonce v.nonce
      and_nil text_column-none block_version_hex b.version_hex l.version_hex v.version_hex

  -- Whether a column of the row differs from lbrycrd's value.
  unfoldable pub differs : Block F → GetBlockResponse F → BlockColumn → Bool
  differs b l block_hash = ite (text_discrete b.hash l.hash) false true
  differs b l block_time = not (b.block_time == l.time)
  differs b l block_version = not (b.version == l.version)
  differs b l block_bits = ite (text_discrete b.bits l.bits) false true
  differs b l block_size = not (b.block_size == l.size)
  differs b l block_chainwork = ite (text_discrete b.chainwork l.chain_work) false true
  differs b l block_difficulty = not (same (round b.difficulty) (round l.difficulty))
  differs b l block_merkle_root = ite (text_discrete b.merkle_root l.merkle_root) false true
  differs b l block_name_claim_root =
      ite (text_discrete b.name_claim_root l.name_claim_root) false true
  differs b l block_previous_hash =
      ite (text_discrete (string_of b.previous_block_hash) l.previous_block_hash) false true
  differs b l block_nonce = not (b.nonce == l.nonce)
  differs b l block_version_hex = ite (text_discrete b.version_hex l.version_hex) false true

  previous-only :
      (own : Option Text) (theirs : Text)
      → (previous_column own theirs).1
        ≡ only block_previous_hash (ite (text_discrete (string_of own) theirs) false true)
  previous-only own theirs = ground arith

  difficulty-only :
      (own theirs : F)
      → (difficulty_column own theirs).1
        ≡ only block_difficulty (not (same (round own) (round theirs)))
  difficulty-only own theirs = ground arith

  block_columns-differs :
      (b : Block F) (l : GetBlockResponse F) → block_columns b l ≡ chosen (differs b l) all_columns
  unfolding block_columns chosen differs
  block_columns-differs b l =
      text_column-only block_hash b.hash l.hash
      and_append number_column-only block_time b.block_time l.time
      and_append number_column-only block_version b.version l.version
      and_append text_column-only block_bits b.bits l.bits
      and_append number_column-only block_size b.block_size l.size
      and_append text_column-only block_chainwork b.chainwork l.chain_work
      and_append difficulty-only b.difficulty l.difficulty
      and_append text_column-only block_merkle_root b.merkle_root l.merkle_root
      and_append text_column-only block_name_claim_root b.name_claim_root l.name_claim_root
      and_append previous-only b.previous_block_hash l.previous_block_hash
      and_append number_column-only block_nonce b.nonce l.nonce
      and_append text_column-only block_version_hex b.version_hex l.version_hex

  module _ {S : Type 0} (update_columns : S → Block F → List BlockColumn → Option S) where
    -- alignBlock
    unfoldable pub align_block : Block F → GetBlockResponse F → S → Option (Block F × S)
    align_block b l s = write_columns update_columns (block_columns b l) (aligned_block b l) s

    -- Let a rounded difficulty equal what rounding it again gives. When the alignment of a stored
    -- block with lbrycrd's succeeds, the row has lbrycrd's values; aligning it again writes
    -- nothing; and the first alignment wrote exactly the columns in which the row differed, and
    -- nothing where it differed in none.
    pub align_block_once :
        ((x : F) → same (round (round x)) (round x) ≡ true)
        → (b b' : Block F) (l : GetBlockResponse F) (s s' : S) → align_block b l s ≡ some (b', s')
        → IsAligned b' l
          × (align_block b' l s' ≡ some (aligned_block b' l, s'))
          × Written update_columns (chosen (differs b l) all_columns) b' s s'
    unfolding align_block
    align_block_once rounded b b' l s s' e =
        let (out, kept) =
          write_columns-Written update_columns (block_columns b l) (aligned_block b l) b' s s' e in
        let v : IsAligned b' l =
          subst (λ c. IsAligned c l) (sym out) (aligned_block-IsAligned rounded b l) in
        (
          v,
          write_columns-nil update_columns (block_columns b' l) (aligned_block b' l) s'
              (block_columns-IsAligned b' l v),
          subst (λ r. Written update_columns (chosen (differs b l) all_columns) r s s') (sym out)
              (subst (λ cols. Written update_columns cols (aligned_block b l) s s')
                (block_columns-differs b l) kept),
        )
