-- ===== src/Processing/Blocks/Reorg.antt =====
-- checkHandleReorg of daemon/processing/block.go: blocks that the chain has left are deleted, from
-- the one before the block at hand downwards, until a stored hash is the chain's.
use chainquery.Processing.Blocks.Store.{
  Row-cases, Block, GetBlockResponse, BlockStore, found, no_rows, failed,
}
use chainquery.Prelude.{
  ℕ, zero, suc, ◌+◌, ◌≤◌, ◌<◌, ◌≡◌, refl, ◌⊎◌, inl, inr, ite, Option, none, some, arith, ltb,
  if◌then◌else◌, Option-cases,
}
use chainquery.Prelude.Text.{Text, text_discrete}

pub data ReorgError : Type 0 where
  get_previous delete_block fetch_block limit_exceeded : ReorgError

abbrev max_depth : ℕ
max_depth = 100

module _ {F : Type 0} (db : BlockStore F) (fetch : ℕ → Option (GetBlockResponse F)) where
  open db use {State, at_height, delete}

  -- The height that is left to go on from, or an error, and the database.
  abbrev pub Answer : Type 0
  Answer = (ℕ ⊎ ReorgError) × State

  -- The end of the function, once the loop has stopped.
  abbrev settle : (height left prev_height : ℕ) → Block F → Text → State → Answer
  settle height left prev_height prev chain_prev_hash s =
      ite (text_discrete prev.hash chain_prev_hash)
        (if ltb left max_depth then (inl prev_height, s) else (inl height, s))
        (inr limit_exceeded, s)

  -- `left` is 100 less the depth.
  unfoldable pub reorg_loop : (height left prev_height : ℕ) → Block F → Text → State → Answer
  reorg_loop height zero prev_height prev chain_prev_hash s =
      settle height zero prev_height prev chain_prev_hash s
  reorg_loop height (suc left) zero prev chain_prev_hash s =
      settle height (suc left) zero prev chain_prev_hash s
  reorg_loop height (suc left) (suc below) prev chain_prev_hash s =
      let step : State → Text → Answer = λ s' next_hash. elim (at_height s' below) [
        | found b ↦ reorg_loop height left below b next_hash s'
        | no_rows ↦ (inl below, s')
        | failed ↦ (inr get_previous, s')
      ] in
      let remove : Answer = elim (delete s 0 prev) [
        | none ↦ (inr delete_block, s)
        | some s' ↦ elim (fetch (suc below)) [
          | none ↦ (inr fetch_block, s')
          | some json ↦ step s' json.previous_block_hash
        ]
      ] in
      ite (text_discrete prev.hash chain_prev_hash)
        (settle height (suc left) (suc below) prev chain_prev_hash s) remove

  unfoldable pub check_handle_reorg : ℕ → Text → State → Answer
  check_handle_reorg zero chain_prev_hash s = (inl 0, s)
  check_handle_reorg (suc below) chain_prev_hash s = elim (at_height s below) [
    | no_rows ↦ (inl below, s)
    | failed ↦ (inr get_previous, s)
    | found prev ↦ reorg_loop (suc below) max_depth below prev chain_prev_hash s
  ]

  -- What is known of the stored block below the height that is gone on from: there is none, or its
  -- hash is the one that the chain gives as the previous hash of the block above it.
  abbrev pub Agrees : ℕ → State → Type 0
  Agrees r s =
      (at_height s r ≡ no_rows)
      ⊎ ((b : Block F) × (json : GetBlockResponse F) × (at_height s r ≡ found b)
          × (fetch (suc r) ≡ some json)
          × (b.hash ≡ json.previous_block_hash))

  -- The loop stops at once, or goes below `p`.
  abbrev Stays : (height left p : ℕ) (prev : Block F) (h : Text) (s s' : State) (r : ℕ) → Type 0
  Stays height left p prev h s s' r =
      (prev.hash ≡ h) × (s' ≡ s) × ((left < 100) × (r ≡ p) ⊎ (left ≡ 100) × (r ≡ height))

  settle-Stays :
      (height left p : ℕ) (prev : Block F) (h : Text) (s s' : State) (r : ℕ)
      → left ≤ max_depth
      → settle height left p prev h s ≡ (inl r, s')
      → Stays height left p prev h s s' r
  settle-Stays height left p prev h s s' r l e = ground arith

  below-Agrees :
      (height left p : ℕ) (b : Block F) (json : GetBlockResponse F) (s s' : State) (r : ℕ)
      → left < max_depth
      → at_height s p ≡ found b
      → fetch (suc p) ≡ some json
      → Stays height left p b json.previous_block_hash s s' r
      → Agrees r s' × (r ≡ p)
  below-Agrees height left p b json s s' r l a f (q, st, inl (_, rp)) =
      (inr (b, json, cc, cc, q), rp)
  below-Agrees height left p b json s s' r l a f (q, st, inr (full, _)) = absurd (omega arith)

  reorg_loop-Agrees :
      (height left p : ℕ) (prev : Block F) (h : Text) (s s' : State) (r : ℕ)
      → left ≤ max_depth
      → reorg_loop height left p prev h s ≡ (inl r, s')
      → Stays height left p prev h s s' r ⊎ Agrees r s' × (r < p) × (p ≤ r + left)
  unfolding reorg_loop
  reorg_loop-Agrees height zero p prev h s s' r l e =
      inl (settle-Stays height 0 p prev h s s' r l e)
  reorg_loop-Agrees height (suc left) zero prev h s s' r l e =
      inl (settle-Stays height (suc left) zero prev h s s' r l e)
  reorg_loop-Agrees height (suc left) (suc below) prev h s s' r l e =
      elim (text_discrete prev.hash h) [
        | yes q ↦ inl (settle-Stays height (suc left) (suc below) prev h s s' r l (ground arith))
        | no n ↦ elim (Option-cases (delete s 0 prev)) [
          | inl d ↦ absurd (ground arith)
          | inr (s1, d) ↦ elim (Option-cases (fetch (suc below))) [
            | inl k ↦ absurd (ground arith)
            | inr (k, fk) ↦ elim (Row-cases (at_height s1 below)) [
              | inl (b, ab) ↦
                  elim (reorg_loop-Agrees height left below b k.previous_block_hash s1 s' r
                    (omega arith) (ground arith)) [
                      | inl here ↦
                          let now = below-Agrees height left below b k s1 s' r l ab fk here in
                          inr (now.0, omega arith, omega arith)
                      | inr (later, lo, hi) ↦ inr (later, omega arith, omega arith)
                    ]
              | inr (inl none_there) ↦
                  let out : (r ≡ below) × (s' ≡ s1) = ground arith in
                  inr (inl (cc), omega arith, omega arith)
              | inr (inr broken) ↦ absurd (ground arith)
            ]
          ]
        ]
      ]

  -- When the check for a reorganisation gives a height to go on from, that is the height of the
  -- block at hand or a lower one, at most 101 below. If it is the height of the block itself, the
  -- database is unchanged, and the height is 0 or the stored block below has the hash that the
  -- chain gives as previous. If it is lower, no block is stored at that height, or the one stored
  -- there has the hash that the chain gives as the previous hash of the block above it.
  pub check_handle_reorg-Agrees :
      (height : ℕ) (h : Text) (s s' : State) (r : ℕ)
      → check_handle_reorg height h s ≡ (inl r, s')
      → (r ≤ height)
        × (height ≤ r + 101)
        × ((r ≡ height)
              × (s' ≡ s)
              × ((height ≡ 0)
                  ⊎ ((below : ℕ) × (b : Block F) × (height ≡ suc below)
                      × (at_height s below ≡ found b)
                      × (b.hash ≡ h)))
            ⊎ (r < height) × Agrees r s')
  unfolding check_handle_reorg
  check_handle_reorg-Agrees zero h s s' r e =
      let out : (r ≡ 0) × (s' ≡ s) = ground arith in
      (omega arith, omega arith, inl (out.0, out.1, inl refl))
  check_handle_reorg-Agrees (suc below) h s s' r e = elim (Row-cases (at_height s below)) [
    | inl (b, ab) ↦
        elim (reorg_loop-Agrees (suc below) max_depth below b h s s' r (omega arith)
          (ground arith)) [
            | inl (q, st, inl (full, _)) ↦ absurd (omega arith)
            | inl (q, st, inr (_, rh)) ↦
                (omega arith, omega arith, inl (rh, st, inr (below, b, refl, ab, q)))
            | inr (later, lo, hi) ↦ (omega arith, omega arith, inr (omega arith, later))
          ]
    | inr (inl none_there) ↦
        let out : (r ≡ below) × (s' ≡ s) = ground arith in
        (omega arith, omega arith, inr (omega arith, inl (cc)))
    | inr (inr broken) ↦ absurd (ground arith)
  ]
