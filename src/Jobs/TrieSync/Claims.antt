-- ===== src/Jobs/TrieSync/Claims.antt =====
-- SyncClaims and syncClaim of daemon/jobs/claimtriesync.go: the height from which a claim is valid and
-- its effective amount are taken from lbrycrd. The distinct names of the claims are given
-- in the order of the code's map, and the workers by the order in which they take the claims.
use chainquery.Prelude.{
  ℕ, ◌≡◌, ◌≢◌, ◌⊎◌, Bool, false, not, ◌&&◌, ◌||◌, Option, none, some, List, [], ◌∷◌, arith, ◌==◌,
  if◌then◌else◌,
}
use chainquery.Prelude.Text.{Text}

pub record JsonClaim : Type 0 where
  pub claim_id : Text
  pub valid_at_height : ℕ
  pub effective_amount : ℕ
  pub pending_amount : ℕ

-- The columns of the claim that are read.
pub record ClaimAmounts : Type 0 where
  pub id : ℕ
  pub valid_at_height : ℕ
  pub effective_amount : ℕ

-- A pending amount is taken first, unless it is there already.
unfoldable next_amount : JsonClaim → ClaimAmounts → ℕ
next_amount json c =
    if c.effective_amount == json.effective_amount
    then c.effective_amount
    else if not (json.pending_amount == 0) && not (c.effective_amount == json.pending_amount)
    then json.pending_amount
    else json.effective_amount

unfoldable pub synced : JsonClaim → ClaimAmounts → ClaimAmounts
unfolding next_amount
synced json c = record c {
  valid_at_height = json.valid_at_height;
  effective_amount = next_amount json c;
}

unfoldable has_changes : JsonClaim → ClaimAmounts → Bool
has_changes json c =
    not (c.valid_at_height == json.valid_at_height)
    || not (c.effective_amount == json.effective_amount)

module _ {S : Type 0} (find_claim : S → Text → Option ClaimAmounts)
    (update_amounts : S → ClaimAmounts → Option S)
    (claims_for_name : Text → Option (List JsonClaim)) where
  abbrev update_logged : S → ClaimAmounts → S
  update_logged s c = elim (update_amounts s c) [ none ↦ s | some s' ↦ s' ]

  -- A claim that is not found, and an error, are only logged.
  unfoldable sync_claim : JsonClaim → S → S
  unfolding synced has_changes
  sync_claim json s = elim (find_claim s json.claim_id) [
    | none ↦ s
    | some c ↦ if has_changes json c then update_logged s (synced json c) else s
  ]

  unfoldable sync_all : List JsonClaim → S → S
  unfolding sync_claim
  sync_all [] s = s
  sync_all (json ∷ claims) s = sync_all claims (sync_claim json s)

  abbrev pub claims_or_none : Option (List JsonClaim) → List JsonClaim
  claims_or_none none = []
  claims_or_none (some claims) = claims

  unfoldable sync_claims : List Text → S → S
  unfolding sync_all
  sync_claims [] s = s
  sync_claims (name ∷ names) s =
      sync_claims names (sync_all (claims_or_none (claims_for_name name)) s)

-- Whatever a claim holds, after two syncs with the same answer of lbrycrd it has lbrycrd's height and
-- effective amount, and a third one finds no change; after one sync it has these or, where the amount
-- was another one, the pending amount.
sync_settles :
    (json : JsonClaim) (c : ClaimAmounts)
    → ((synced json (synced json c)).valid_at_height ≡ json.valid_at_height)
      × ((synced json (synced json c)).effective_amount ≡ json.effective_amount)
      × (has_changes json (synced json (synced json c)) ≡ false)
      × (((synced json c).effective_amount ≡ json.effective_amount)
          ⊎ (((synced json c).effective_amount ≡ json.pending_amount)
              × (c.effective_amount ≢ json.effective_amount)))
unfolding synced next_amount has_changes
sync_settles json c = ground arith
