-- ===== src/Jobs/Bids.antt =====
-- setBidStateOfClaimsForName of daemon/jobs/claimtriesync.go: of the claims to a name, in the order of
-- their effective amounts, the first that is active controls the name. Writing a claim to the
-- database is an argument; a write that fails ends the loop, and the answer is then `none`.
use chainquery.Prelude.{
  ℕ, ◌≡◌, refl, sym, subst, inl, inr, Bool, true, false, not, ◌&&◌, ◌||◌, Option, none, some, List,
  [], ◌∷◌, arith, if◌then◌else◌, Bool-cases, Option-cases, count_if,
}
use chainquery.Jobs.ClaimTrie.{
  BidState, Found, get_claim_status, accepted, active, controlling, spent, expired, erroneous,
}

-- The fields of a claim that are used, and what the queries of getClaimStatus find for it.
pub record Claim : Type 0 where
  pub id : ℕ
  pub height : ℕ
  pub outputs : Found
  pub bid_state : BidState

unfoldable pub bid_state_discrete : (a b : BidState) → Bool
bid_state_discrete accepted accepted = true
bid_state_discrete active active = true
bid_state_discrete controlling controlling = true
bid_state_discrete spent spent = true
bid_state_discrete expired expired = true
bid_state_discrete erroneous erroneous = true
bid_state_discrete a b = false

-- The state that the loop gives a claim, and whether a controlling claim is then found.
abbrev next_state : Bool → (at_height : ℕ) → Claim → BidState × Bool
next_state found at_height claim =
    let status = get_claim_status claim.height at_height claim.outputs in
    if not found && bid_state_discrete status active then (controlling, true) else (status, found)

module _ {S : Type 0} (put_claim : S → Claim → Option S) where
  -- The claim with a bid state, and the database, which is written where the state is another one.
  abbrev put_bid_state : Claim → BidState → S → Option (Claim × S)
  put_bid_state claim state s =
      let claim' = record claim { bid_state = state } in
      let put : Option (Claim × S) = elim (put_claim s claim') [
        | none ↦ none
        | some s' ↦ some (claim', s')
      ] in
      if bid_state_discrete claim.bid_state state then some (claim, s) else put

  unfoldable pub set_bid_states : Bool → (at_height : ℕ) → List Claim → S → Option (List Claim × S)
  set_bid_states found at_height [] s = some ([], s)
  set_bid_states found at_height (claim ∷ claims) s =
      let next = next_state found at_height claim in
      elim (put_bid_state claim next.0 s) [
        | none ↦ none
        | some (claim', s') ↦ elim (set_bid_states next.1 at_height claims s') [
          | none ↦ none
          | some (claims', s'') ↦ some (claim' ∷ claims', s'')
        ]
      ]

abbrev is_active : (at_height : ℕ) → Claim → Bool
is_active at_height claim =
    bid_state_discrete (get_claim_status claim.height at_height claim.outputs) active

abbrev pub any_active : (at_height : ℕ) → List Claim → Bool
any_active at_height [] = false
any_active at_height (c ∷ cs) = is_active at_height c || any_active at_height cs

abbrev pub is_controlling : Claim → Bool
is_controlling claim = bid_state_discrete claim.bid_state controlling

same-controlling :
    (a b : BidState)
    → bid_state_discrete a b ≡ true
    → bid_state_discrete a controlling ≡ bid_state_discrete b controlling
unfolding bid_state_discrete
same-controlling a b e = ground arith

status-controlling :
    (height at_height : ℕ) (outputs : Found)
    → bid_state_discrete (get_claim_status height at_height outputs) controlling ≡ false
unfolding get_claim_status bid_state_discrete
status-controlling height at_height outputs = ground arith

module _ {S : Type 0} (put_claim : S → Claim → Option S) where
  put_bid_state-controlling :
      (claim claim' : Claim) (state : BidState) (s s' : S)
      → put_bid_state put_claim claim state s ≡ some (claim', s')
      → is_controlling claim' ≡ bid_state_discrete state controlling
  put_bid_state-controlling claim claim' state s s' e =
      elim (Bool-cases (bid_state_discrete claim.bid_state state)) [
        | inl b ↦
            let same = same-controlling claim.bid_state state b in
            let out : claim ≡ claim' = ground arith in
            subst (λ c. is_controlling c ≡ bid_state_discrete state controlling) out same
        | inr b ↦ elim (Option-cases (put_claim s (record claim { bid_state = state }))) [
          | inl p ↦ absurd (ground arith)
          | inr (s2, p) ↦
              let out : record claim { bid_state = state } ≡ claim' = ground arith in
              subst (λ c. is_controlling c ≡ bid_state_discrete state controlling) out refl
        ]
      ]

  set_bid_states-count :
      (found : Bool) (at_height : ℕ) (claims claims' : List Claim) (s s' : S)
      → set_bid_states put_claim found at_height claims s ≡ some (claims', s')
      → count_if is_controlling claims'
        ≡ (if not found && any_active at_height claims then 1 else 0)
  unfolding set_bid_states bid_state_discrete
  set_bid_states-count found at_height [] claims' s s' e = ground arith
  set_bid_states-count found at_height (c ∷ cs) claims' s s' e =
      let next = next_state found at_height c in
      elim (Option-cases (put_bid_state put_claim c next.0 s)) [
        | inl p ↦ absurd (ground arith)
        | inr ((c', s1), p) ↦
            elim (Option-cases (set_bid_states put_claim next.1 at_height cs s1)) [
              | inl q ↦ absurd (ground arith)
              | inr ((cs', s2), q) ↦
                  let head = put_bid_state-controlling c c' next.0 s s1 p in
                  let tail = set_bid_states-count next.1 at_height cs cs' s1 s2 q in
                  let out : claims' ≡ c' ∷ cs' = ground arith in
                  let never = status-controlling c.height at_height c.outputs in
                  let count : count_if is_controlling (c' ∷ cs')
                      ≡ (if not found && any_active at_height (c ∷ cs) then 1 else 0) =
                    elim (Bool-cases found) [
                      | inl f ↦ ground arith
                      | inr f ↦ elim (Bool-cases (is_active at_height c)) [
                        | inl a ↦ ground arith
                        | inr a ↦ ground arith
                      ]
                    ] in
                  subst
                    (λ l.
                      count_if is_controlling l
                      ≡ (if not found && any_active at_height (c ∷ cs) then 1 else 0))
                    (sym out) count
            ]
      ]

  -- When the bid states of the claims to a name are all written without error, exactly one of the
  -- claims is controlling if one of them was active at the height, and none is otherwise.
  pub set_bid_states_controlling :
      (at_height : ℕ) (claims claims' : List Claim) (s s' : S)
      → set_bid_states put_claim false at_height claims s ≡ some (claims', s')
      → count_if is_controlling claims' ≡ (if any_active at_height claims then 1 else 0)
  set_bid_states_controlling at_height claims claims' s s' e =
      set_bid_states-count false at_height claims claims' s s' e
