-- ===== src/Jobs/ClaimTrie.antt =====
-- daemon/jobs/claimtriesync.go: when a claim is expired, the state of its bid, and what is taken over
-- from lbrycrd's claim. A uint has 64 bits.
use chainquery.Prelude.{
  ℕ, ◌+◌, ◌%◌, ◌≤◌, ◌<◌, ◌≡◌, ◌↔◌, Bool, true, false, arith, ltb, leb, ◌==◌, if◌then◌else◌,
}

abbrev expiration_hard_fork_height : ℕ
expiration_hard_fork_height = 400155

abbrev hard_fork_blocks_to_expiration : ℕ
hard_fork_blocks_to_expiration = 2102400

abbrev blocks_to_expiration : ℕ
blocks_to_expiration = 262974

abbrev uint_add : ℕ → ℕ → ℕ
uint_add a b = (a + b) % 18446744073709551616

unfoldable pub get_is_expired_at_height : (height block_height : ℕ) → Bool
get_is_expired_at_height height block_height =
    if height == 0
    then false
    else if leb expiration_hard_fork_height height
    then ltb (uint_add height hard_fork_blocks_to_expiration) block_height
    else if leb expiration_hard_fork_height (uint_add height blocks_to_expiration)
    then ltb (uint_add height hard_fork_blocks_to_expiration) block_height
    else ltb (uint_add height blocks_to_expiration) block_height

pub data BidState : Type 0 where
  accepted active controlling spent expired erroneous : BidState

-- What the queries of getClaimStatus find: the transaction of the claim's last update, or of the claim
-- where it was not updated, and the output's is_spent.
pub data Found : Type 0 where
  no_transaction no_output : Found
  output : (is_spent : Bool) → Found

unfoldable pub get_claim_status : (height at_height : ℕ) → Found → BidState
get_claim_status height at_height no_transaction = accepted
get_claim_status height at_height no_output = erroneous
get_claim_status height at_height (output is_spent) =
    if get_is_expired_at_height height at_height
    then expired
    else if is_spent
    then spent
    else active

-- The blocks that a claim lives: those before the hard fork are extended when they would still be
-- alive at the fork.
abbrev pub life_of : ℕ → ℕ
life_of height =
    if leb expiration_hard_fork_height (height + blocks_to_expiration)
    then hard_fork_blocks_to_expiration
    else blocks_to_expiration

-- A claim at a positive height, so low that the life of a claim added to it does not pass the end
-- of a uint, is expired exactly at the heights above the end of its life, which is 2102400 blocks
-- for a claim that would reach height 400155 under the old rule of 262974 blocks, and 262974 blocks
-- for another.
pub is_expired_iff :
    (height at : ℕ)
    → 0 < height
    → height < 18446744073707449216
    → (get_is_expired_at_height height at ≡ true) ↔ (height + life_of height < at)
unfolding get_is_expired_at_height
is_expired_iff height at pos low = ground arith

-- A claim with an output that is found to be expired at a height is found to be expired at every
-- height above, whether the output is spent or not.
expired_stays :
    (height at later : ℕ) (is_spent : Bool)
    → at ≤ later
    → get_claim_status height at (output is_spent) ≡ expired
    → (other : Bool) → get_claim_status height later (output other) ≡ expired
unfolding get_claim_status get_is_expired_at_height
expired_stays height at later is_spent le e other = ground arith
