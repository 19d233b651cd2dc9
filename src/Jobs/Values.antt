-- ===== src/Jobs/Values.antt =====
-- daemon/jobs/valuesync.go: the ranges of heights and of keys that its three jobs pass to their
-- statements. The statements themselves are arguments.
use native.Mathlib.Nat.{div_self}
use chainquery.Prelude.Text.{Text}
use chainquery.Prelude.{
  ℕ, zero, suc, ◌+◌, ◌*◌, ◌/◌, ◌≤◌, ◌<◌, ◌≡◌, refl, ◌↔◌, ◌⊎◌, Option, none, some, List, [], ◌∷◌,
  arith, dec_lt, dec_le, ltb, leb, ◌==◌, if◌then◌else◌,
}

-- A height lies in one of the ranges, whose ends both count (`BETWEEN`, `>=` and `<=`).
abbrev pub InWindow : ℕ → List (ℕ × ℕ) → Type 0
InWindow h [] = ⊥
InWindow h ((from, to) ∷ ws) = ((from ≤ h) × (h ≤ to)) ⊎ InWindow h ws

abbrev update_increment : ℕ
update_increment = 5000

-- SyncTransactionValue: the increment, which is not above the latest height.
abbrev increment_of : (latest : ℕ) → ℕ
increment_of latest = if leb latest update_increment then latest else update_increment

-- The loop, from `i` with `left` rounds to go.
unfoldable pub value_loop : (latest increment i left : ℕ) → List (ℕ × ℕ)
value_loop latest increment i zero = []
value_loop latest increment i (suc left) =
    let from = i * increment in
    let to = (i + 1) * increment in
    (from, (if ltb latest to then latest else to)) ∷ value_loop latest increment (i + 1) left

-- The ranges of heights of SyncTransactionValue; `none` is the error at height 0.
unfoldable pub transaction_value_windows : (latest : ℕ) → Option (List (ℕ × ℕ))
transaction_value_windows zero = none
transaction_value_windows (suc n) =
    let latest = suc n in
    some (value_loop latest (increment_of latest) 0 (latest / increment_of latest))

-- SyncClaimCntInChannel: the loop, with fuel.
unfoldable channel_loop : (fuel latest i : ℕ) → List (ℕ × ℕ)
channel_loop zero latest i = []
channel_loop (suc fuel) latest i =
    let to = i + update_increment in
    let rest = channel_loop fuel latest (i + update_increment) in
    if ltb i latest then (i, (if ltb latest to then latest else to)) ∷ rest else []

unfoldable channel_windows : (latest : ℕ) → Option (List (ℕ × ℕ))
channel_windows zero = none
channel_windows (suc n) = some (channel_loop (suc n) (suc n) 0)

value_loop-cover :
    (latest i left h : ℕ)
    → (i + left) * 5000 ≤ latest
    → InWindow h (value_loop latest 5000 i left)
      ↔ (0 < left) × (i * 5000 ≤ h) × (h ≤ (i + left) * 5000)
unfolding value_loop
value_loop-cover latest i zero h l = ground arith
value_loop-cover latest i (suc left) h l =
    let rest = value_loop-cover latest (i + 1) left h (omega arith) in ground arith

channel_loop-cover :
    (fuel latest i h : ℕ)
    → latest ≤ i + fuel
    → i < latest
    → i ≤ h
    → h ≤ latest
    → InWindow h (channel_loop fuel latest i)
unfolding channel_loop
channel_loop-cover zero latest i h f l a b = absurd (omega arith)
channel_loop-cover (suc fuel) latest i h f l a b = elim (dec_lt h (i + 5000)) [
  | yes q ↦ ground arith
  | no q ↦ elim (dec_lt (i + 5000) latest) [
    | yes n ↦
        let rest = channel_loop-cover fuel latest (i + 5000) h (omega arith) n (omega arith) b in
        ground arith
    | no n ↦ ground arith
  ]
]

windows_small :
    (latest h : ℕ)
    → 0 < latest
    → InWindow h (value_loop latest latest 0 (latest / latest)) ↔ (h ≤ latest)
unfolding value_loop
windows_small latest h pos = rw (div_self pos) (ground arith)

-- For a latest height above 0, the windows of the job cover exactly the heights up to the latest
-- one if that is at most 5000, and else exactly those up to the last multiple of 5000 not above it.
pub transaction_value_windows_cover :
    (n h : ℕ)
    → (ws : List (ℕ × ℕ)) × (transaction_value_windows (suc n) ≡ some ws)
      × (InWindow h ws ↔ (h ≤ (if leb (suc n) 5000 then suc n else suc n / 5000 * 5000)))
unfolding transaction_value_windows
transaction_value_windows_cover n h = elim (dec_le (suc n) 5000) [
  | yes small ↦
      let inc : increment_of (suc n) ≡ suc n = ground arith in
      let cover = windows_small (suc n) h (omega arith) in
      (
        value_loop (suc n) (increment_of (suc n)) 0 (suc n / increment_of (suc n)),
        refl,
        rw inc (ground arith),
      )
  | no large ↦
      let cover = value_loop-cover (suc n) 0 (suc n / 5000) h (omega arith) in
      let inc : increment_of (suc n) ≡ 5000 = ground arith in
      (
        value_loop (suc n) (increment_of (suc n)) 0 (suc n / increment_of (suc n)),
        refl,
        rw inc (ground arith),
      )
]

-- Every height up to that of the latest block, which is positive, lies in a window.
channel_windows_cover :
    (latest h : ℕ)
    → 0 < latest
    → h ≤ latest
    → (ws : List (ℕ × ℕ)) × (channel_windows latest ≡ some ws) × InWindow h ws
unfolding channel_windows
channel_windows_cover zero h p l = absurd (omega arith)
channel_windows_cover (suc n) h p l = (
  channel_loop (suc n) (suc n) 0,
  refl,
  channel_loop-cover (suc n) (suc n) 0 h (omega arith) (omega arith) (omega arith) l,
)

module _ {S : Type 0} where
  -- The statement for one range gives the number of rows it changes.
  unfoldable run_windows : (S → ℕ → ℕ → Option (ℕ × S)) → List (ℕ × ℕ) → ℕ → S → Option (ℕ × S)
  run_windows exec [] affected s = some (affected, s)
  run_windows exec ((from, to) ∷ ws) affected s = elim (exec s from to) [
    | none ↦ none
    | some (n, s') ↦ run_windows exec ws (affected + n) s'
  ]

  -- SyncTransactionValue, given the height of the latest block.
  unfoldable sync_transaction_value : (S → ℕ → ℕ → Option (ℕ × S)) → Option ℕ → S → Option (ℕ × S)
  sync_transaction_value exec none s = none
  sync_transaction_value exec (some latest) s = elim (transaction_value_windows latest) [
    | none ↦ none
    | some ws ↦ run_windows exec ws 0 s
  ]

  -- SyncAddressBalances: the loop, with fuel, and the job, given the key of the latest address.
  -- `sync_set` is the statement for a batch of keys.
  unfoldable address_loop :
      (S → ℕ → ℕ → Option (ℕ × S)) → (fuel last_address_id adjusted : ℕ) → S → Option (ℕ × S)
  address_loop sync_set zero last_address_id adjusted s = none
  address_loop sync_set (suc fuel) last_address_id adjusted s =
      let next : Option (ℕ × S) = elim (sync_set s last_address_id 10000) [
        | none ↦ none
        | some (n, s') ↦ address_loop sync_set fuel (last_address_id + 10000) (adjusted + n) s'
      ] in
      if ltb last_address_id adjusted then next else some (adjusted, s)

  unfoldable sync_address_balances :
      (S → ℕ → ℕ → Option (ℕ × S)) → (fuel : ℕ) → Option ℕ → S → Option (ℕ × S)
  sync_address_balances sync_set fuel none s = none
  sync_address_balances sync_set fuel (some latest) s = address_loop sync_set fuel latest 0 s

  -- Whatever the key of the latest address is, and whatever a batch would do, the job changes
  -- nothing and reports that no address was adjusted.
  sync_address_balances_idle :
      (sync_set : S → ℕ → ℕ → Option (ℕ × S)) (fuel latest : ℕ) (s : S)
      → sync_address_balances sync_set (suc fuel) (some latest) s ≡ some (0, s)
  unfolding sync_address_balances address_loop
  sync_address_balances_idle sync_set fuel latest s = ground arith

-- A channel and its stored number of claims.
pub record ChannelRow : Type 0 where
  pub claim_id : Text
  pub claim_count : ℕ

pub record ChannelStore : Type 1 where
  pub State : Type 0
  -- The channels with a height in a range, the number of claims of a channel, and the update.
  pub channels : State → ℕ → ℕ → Option (List ChannelRow)
  pub count : State → Text → Option ℕ
  pub update : State → ChannelRow → Option State

module _ (store : ChannelStore) where
  open store use {State, channels, count, update}

  unfoldable sync_channels : List ChannelRow → State → Option State
  sync_channels [] s = some s
  sync_channels (c ∷ cs) s = elim (count s c.claim_id) [
    | none ↦ none
    | some n ↦
        let changed : Option State = elim (update s (record c { claim_count = n })) [
          | none ↦ none
          | some s' ↦ sync_channels cs s'
        ] in
        let same = sync_channels cs s in if c.claim_count == n then same else changed
  ]

  unfoldable sync_channel_windows : List (ℕ × ℕ) → State → Option State
  sync_channel_windows [] s = some s
  sync_channel_windows ((from, to) ∷ ws) s = elim (channels s from to) [
    | none ↦ none
    | some cs ↦ elim (sync_channels cs s) [ none ↦ none | some s' ↦ sync_channel_windows ws s' ]
  ]

  -- SyncClaimCntInChannel, given the height of the latest block.
  unfoldable sync_claim_cnt_in_channel : Option ℕ → State → Option State
  sync_claim_cnt_in_channel none s = none
  sync_claim_cnt_in_channel (some latest) s = elim (channel_windows latest) [
    | none ↦ none
    | some ws ↦ sync_channel_windows ws s
  ]
