-- ===== src/Jobs/Validation.antt =====
-- daemon/jobs/chainvalidation.go: the stored blocks of a range are compared with lbrycrd's, and what
-- is missing is reported. Heights stay below the largest uint64.
use chainquery.Prelude.{
  ℕ, zero, suc, ◌+◌, ◌-◌, ◌≤◌, ◌<◌, ◌≡◌, refl, sym, ap, ◌∙◌, ◌≢◌, ◌↔◌, inl, inr, ite, if_pos,
  if_neg, Bool, ◌&&◌, Option, none, some, List, [], ◌∷◌, ◌++◌, append-nil, arith, ℕ_discrete, leb,
  ◌==◌, if◌then◌else◌, Option-cases, length, length-append, All,
}
use chainquery.Prelude.Text.{Text, text_discrete}
use chainquery.Processing.Blocks.Store.{Row, found, no_rows, failed}
use chainquery.Processing.Graph.{ℤ, pos, negsuc}

pub record BlockData : Type 0 where
  pub block : ℕ
  pub tx_hash : Text
  pub missing_outputs : ℤ
  pub missing_inputs : ℤ

-- A stored transaction: its hash, and the numbers of outputs and inputs stored for it, where `none`
-- is an error of the query.
pub record StoredTx : Type 0 where
  pub hash : Text
  pub outputs : Option ℕ
  pub inputs : Option ℕ

-- A block of lbrycrd, with the ids of its transactions.
pub record ChainBlock : Type 0 where
  pub height : ℕ
  pub tx : List Text

-- The queries of the database and the calls of lbrycrd; a raw transaction is given by the numbers of
-- its outputs and inputs.
pub record Sources : Type 0 where
  pub block_count : Option ℕ
  pub block_hash : ℕ → Option Text
  pub block : Text → Option ChainBlock
  pub raw_transaction : Text → Option (ℕ × ℕ)
  pub have_block : ℕ → Option Bool
  pub stored_block : ℕ → Row Text
  pub stored_txs : Text → Option (List StoredTx)

-- The difference of two ints.
abbrev minus : ℕ → ℕ → ℤ
minus a b = if leb b a then pos (a - b) else negsuc (b - a - 1)

-- The last stored transaction with a hash.
unfoldable pub find_tx : Text → List StoredTx → Option StoredTx
find_tx hash [] = none
find_tx hash (t ∷ ts) =
    let rest = find_tx hash ts in
    elim rest [ some t' ↦ some t' | none ↦ ite (text_discrete t.hash hash) (some t) none ]

some-injective : {A : Type 0} (a b : A) → some a ≡ some b → a ≡ b
some-injective a b e = cc

none-ne-some : {A : Type 0} {a : A} → none ≢ some a
none-ne-some e = cc

module _ (sources : Sources) where
  abbrev compare_parts :
      (height : ℕ) (hash : Text) (raw : ℕ × ℕ) (outputs inputs : ℕ) → List BlockData
  compare_parts height hash (vouts, vins) outputs inputs =
      if (outputs == vouts) && (inputs == vins)
      then []
      else record {
        block = height;
        tx_hash = hash;
        missing_outputs = minus vouts outputs;
        missing_inputs = minus vins inputs;
      }
        ∷ []

  -- What is reported of one transaction; `none` is an error.
  unfoldable pub check_tx : (height : ℕ) → Text → List StoredTx → Option (List BlockData)
  check_tx height hash stored = elim (find_tx hash stored) [
    | none ↦ some (
        record { block = height; tx_hash = hash; missing_outputs = pos 0; missing_inputs = pos 0 }
        ∷ [])
    | some tx ↦ elim (sources.raw_transaction hash) [
      | none ↦ none
      | some raw ↦ elim tx.outputs [
        | none ↦ none
        | some outputs ↦ elim tx.inputs [
          | none ↦ none
          | some inputs ↦ some (compare_parts height hash raw outputs inputs)
        ]
      ]
    ]
  ]

  unfoldable pub check_txs :
      List BlockData → (height : ℕ) → List Text → List StoredTx → Option (List BlockData)
  check_txs missing height [] stored = some missing
  check_txs missing height (hash ∷ hashes) stored = elim (check_tx height hash stored) [
    | none ↦ none
    | some reports ↦ check_txs (missing ++ reports) height hashes stored
  ]

  -- The body of the loop once both queries for the block have been answered.
  abbrev check_block : ℕ → Text → Bool → List BlockData → Option (List BlockData)
  check_block height stored_hash have missing =
      let compared : Option (List BlockData) = elim (sources.block_hash height) [
        | none ↦ none
        | some hash ↦ elim (sources.block hash) [
          | none ↦ none
          | some block ↦ elim (sources.stored_txs stored_hash) [
            | none ↦ none
            | some stored ↦ check_txs missing block.height block.tx stored
          ]
        ]
      ] in
      if have
      then compared
      else some (
          missing
          ++ record {
            block = height;
            tx_hash = [];
            missing_outputs = pos 0;
            missing_inputs = pos 0;
          }
            ∷ [])

  unfoldable validate_block : ℕ → List BlockData → Option (List BlockData)
  validate_block height missing = elim (sources.have_block height) [
    | none ↦ none
    | some have ↦ elim (sources.stored_block height) [
      | found hash ↦ check_block height hash have missing
      | no_rows ↦ none
      | failed ↦ none
    ]
  ]

  -- The loop, by the number of blocks that are left.
  unfoldable validate_blocks : (left from : ℕ) → List BlockData → Option (List BlockData)
  validate_blocks zero from missing = some missing
  validate_blocks (suc left) from missing = elim (validate_block from missing) [
    | none ↦ none
    | some missing' ↦ validate_blocks left (suc from) missing'
  ]

  unfoldable validate_chain_range : (from to : Option ℕ) → Option (List BlockData)
  validate_chain_range from to =
      let first : ℕ = elim from [ none ↦ 0 | some n ↦ n ] in
      let last : Option ℕ = elim to [ none ↦ sources.block_count | some n ↦ some n ] in
      elim last [ none ↦ none | some n ↦ validate_blocks (n + 1 - first) first [] ]

  -- The row stands among the stored ones with the hash, and none behind it has that hash.
  abbrev pub StandsLast : Text → List StoredTx → StoredTx → Type 0
  StandsLast hash stored tx =
      (front back : List StoredTx) × (stored ≡ front ++ tx ∷ back)
      × (tx.hash ≡ hash)
      × All (λ t. t.hash ≢ hash) back

  find_tx-none :
      (hash : Text) (stored : List StoredTx)
      → All (λ t. t.hash ≢ hash) stored
      → find_tx hash stored ≡ none
  unfolding find_tx
  find_tx-none hash [] h = refl
  find_tx-none hash (t ∷ ts) (h, hs) =
      rw (find_tx-none hash ts hs) (if_neg (text_discrete t.hash hash) h (some t) none)

  find_tx-at :
      (hash : Text) (front back : List StoredTx) (tx : StoredTx)
      → tx.hash ≡ hash
      → All (λ t. t.hash ≢ hash) back
      → find_tx hash (front ++ tx ∷ back) ≡ some tx
  unfolding find_tx
  find_tx-at hash [] back tx same h =
      rw (find_tx-none hash back h) (if_pos (text_discrete tx.hash hash) same (some tx) none)
  find_tx-at hash (t ∷ front) back tx same h = rw (find_tx-at hash front back tx same h) refl

  none-find_tx :
      (hash : Text) (stored : List StoredTx)
      → find_tx hash stored ≡ none
      → All (λ t. t.hash ≢ hash) stored
  unfolding find_tx
  none-find_tx hash [] e = tt
  none-find_tx hash (t ∷ ts) e = elim (Option-cases (find_tx hash ts)) [
    | inr (t', f) ↦ absurd (ground (arith, rw (f, find_tx) at e))
    | inl n ↦ elim (text_discrete t.hash hash) [
      | yes p ↦ absurd (
          none-ne-some
            (sym (rw (n, find_tx) at e) ∙ if_pos (text_discrete t.hash hash) p (some t) none))
      | no p ↦ (p, none-find_tx hash ts n)
    ]
  ]

  find_tx-StandsLast :
      (hash : Text) (stored : List StoredTx) (tx : StoredTx)
      → find_tx hash stored ≡ some tx
      → StandsLast hash stored tx
  unfolding find_tx
  find_tx-StandsLast hash [] tx e = absurd (ground arith)
  find_tx-StandsLast hash (t ∷ ts) tx e = elim (Option-cases (find_tx hash ts)) [
    | inr (t', f) ↦
        let (front, back, split, same, later) =
          find_tx-StandsLast hash ts tx (f ∙ (rw (f, find_tx) at e)) in
        (t ∷ front, back, ap (◌∷◌ t) split, same, later)
    | inl n ↦ elim (text_discrete t.hash hash) [
      | yes p ↦
          let here : t ≡ tx =
            some-injective t tx
              (sym (if_pos (text_discrete t.hash hash) p (some t) none) ∙ (rw (n, find_tx) at e)) in
          ([], ts, ap (λ x. x ∷ ts) here, sym (ap (λ x. x.hash) here) ∙ p, none-find_tx hash ts n)
      | no p ↦ absurd (
          none-ne-some
            (sym (if_neg (text_discrete t.hash hash) p (some t) none) ∙ (rw (n, find_tx) at e)))
    ]
  ]

  -- A transaction is stored with as many inputs and outputs as lbrycrd gives it.
  abbrev pub TxIsWhole : List StoredTx → Text → Type 0
  TxIsWhole stored hash =
      (tx : StoredTx) × (vouts vins : ℕ) × StandsLast hash stored tx
      × (sources.raw_transaction hash ≡ some (vouts, vins))
      × (tx.outputs ≡ some vouts)
      × (tx.inputs ≡ some vins)

  check_tx-whole :
      (height : ℕ) (hash : Text) (stored : List StoredTx)
      → TxIsWhole stored hash
      → check_tx height hash stored ≡ some []
  unfolding check_tx
  check_tx-whole height hash stored (tx, vouts, vins, (front, back, split, same, later), r, o, i) =
      let f : find_tx hash stored ≡ some tx =
        ap (find_tx hash) split ∙ find_tx-at hash front back tx same later in
      ground arith

  whole-check_tx :
      (height : ℕ) (hash : Text) (stored : List StoredTx)
      → check_tx height hash stored ≡ some []
      → TxIsWhole stored hash
  unfolding check_tx
  whole-check_tx height hash stored e = elim (Option-cases (find_tx hash stored)) [
    | inl n ↦ absurd (ground arith)
    | inr (tx, f) ↦ elim (Option-cases (sources.raw_transaction hash)) [
      | inl n ↦ absurd (ground arith)
      | inr ((vouts, vins), r) ↦ elim (Option-cases tx.outputs) [
        | inl n ↦ absurd (ground arith)
        | inr (outputs, o) ↦ elim (Option-cases tx.inputs) [
          | inl n ↦ absurd (ground arith)
          | inr (inputs, i) ↦
              let same_outputs : outputs ≡ vouts = ground arith in
              let same_inputs : inputs ≡ vins = ground arith in
              (
                tx,
                vouts,
                vins,
                find_tx-StandsLast hash stored tx f,
                r,
                rw o (ap some same_outputs),
                rw i (ap some same_inputs),
              )
        ]
      ]
    ]
  ]

  check_txs-whole :
      (missing : List BlockData) (height : ℕ) (hashes : List Text) (stored : List StoredTx)
      → All (TxIsWhole stored) hashes
      → check_txs missing height hashes stored ≡ some missing
  unfolding check_txs
  check_txs-whole missing height [] stored w = refl
  check_txs-whole missing height (hash ∷ hashes) stored (w, ws) =
      rw (check_tx-whole height hash stored w, check_txs, append-nil missing)
        (check_txs-whole missing height hashes stored ws)

  check_txs-grows :
      (missing out : List BlockData) (height : ℕ) (hashes : List Text) (stored : List StoredTx)
      → check_txs missing height hashes stored ≡ some out
      → length missing ≤ length out
  unfolding check_txs
  check_txs-grows missing out height [] stored e = ground arith
  check_txs-grows missing out height (hash ∷ hashes) stored e =
      elim (Option-cases (check_tx height hash stored)) [
        | inl n ↦ absurd (ground arith)
        | inr (reports, r) ↦
            let rest =
              check_txs-grows (missing ++ reports) out height hashes stored
                (rw (r, check_txs) at e) in
            let size = length-append missing reports in omega arith
      ]

  whole-check_txs :
      (missing out : List BlockData) (height : ℕ) (hashes : List Text) (stored : List StoredTx)
      → check_txs missing height hashes stored ≡ some out
      → length out ≤ length missing
      → All (TxIsWhole stored) hashes
  unfolding check_txs
  whole-check_txs missing out height [] stored e l = tt
  whole-check_txs missing out height (hash ∷ hashes) stored e l =
      elim (Option-cases (check_tx height hash stored)) [
        | inl n ↦ absurd (ground arith)
        | inr ([], r) ↦
            let e' : check_txs missing height hashes stored ≡ some out =
              rw (r, check_txs, append-nil missing) at e in
            (
              whole-check_tx height hash stored r,
              whole-check_txs missing out height hashes stored e' l,
            )
        | inr (d ∷ ds, r) ↦
            let rest =
              check_txs-grows (missing ++ d ∷ ds) out height hashes stored
                (rw (r, check_txs) at e) in
            let size = length-append missing (d ∷ ds) in absurd (omega arith)
      ]

  -- The check of a block's transactions reports nothing, and meets no error, exactly when each of
  -- them is stored with as many outputs and inputs as lbrycrd gives it.
  pub check_txs_iff :
      (height : ℕ) (hashes : List Text) (stored : List StoredTx)
      → (check_txs [] height hashes stored ≡ some []) ↔ All (TxIsWhole stored) hashes
  check_txs_iff height hashes stored = (
    λ e. whole-check_txs [] [] height hashes stored e (omega arith),
    check_txs-whole [] height hashes stored,
  )

  no_block :
      (height : ℕ) (missing : List BlockData)
      → sources.stored_block height ≡ no_rows
      → validate_block height missing ≡ none
  unfolding validate_block
  no_block height missing e = elim (Option-cases (sources.have_block height)) [
    | inl n ↦ ground arith
    | inr (have, n) ↦ ground arith
  ]

  missing_block :
      (left from height : ℕ) (missing : List BlockData)
      → from ≤ height
      → height < from + left
      → sources.stored_block height ≡ no_rows
      → validate_blocks left from missing ≡ none
  unfolding validate_blocks validate_block
  missing_block zero from height missing l u e = absurd (omega arith)
  missing_block (suc left) from height missing l u e =
      elim (Option-cases (validate_block from missing)) [
        | inl n ↦ rw (n, validate_blocks) refl
        | inr (missing', n) ↦ elim (ℕ_discrete from height) [
          | yes p ↦ absurd (let fails = no_block from missing (rw p e) in cc)
          | no p ↦
              rw (n, validate_blocks)
                (missing_block left (suc from) height missing' (ground arith) (omega arith) e)
        ]
      ]

  -- If the block of some height in a range is not stored, the validation of the range ends with an
  -- error and reports nothing.
  missing_block_is_error :
      (from to height : ℕ)
      → from ≤ height
      → height ≤ to
      → sources.stored_block height ≡ no_rows
      → validate_chain_range (some from) (some to) ≡ none
  unfolding validate_chain_range
  missing_block_is_error from to height l u e =
      missing_block (to + 1 - from) from height [] l (omega arith) e
