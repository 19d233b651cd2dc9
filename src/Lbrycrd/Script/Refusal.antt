-- ===== src/Lbrycrd/Script/Refusal.antt =====
-- What the parsers of lbrycrd/script.go refuse, and where they panic.
use chainquery.Lbrycrd.Script.RoundTrip.{
  parse-support_with_value, parse-claim_support_script, parse-claim_update_script,
  parse-claim_name_script,
}
use chainquery.Lbrycrd.Script.Build.{
  claim_support_value_script, claim_support_script, claim_update_script, claim_name_script,
}
use chainquery.Lbrycrd.Script.{
  too_many_bytes, parse_claim_update_script, parse_claim_support_script, parse_claim_name_script,
  is_claim_script, is_claim_name_script, is_claim_support_script, is_claim_update_script,
  not_claim_script, get_pub_key_script_from_claim_pks,
}
use chainquery.Prelude.Go.{ok, panic, err, index}
use chainquery.Prelude.{
  ℕ, ◌^◌, ◌<◌, ◌≡◌, refl, ◌≢◌, ◌⊎◌, inl, inr, true, ◌||◌, [], ◌∷◌, arith, length,
}
use chainquery.Lbrycrd.Hex.{Bytes}

-- On a length byte of the name above OP_PUSHDATA1 the parser of a claim of a name panics, and the
-- parsers of supports and updates return an error.
parse_long_name :
    (op n : ℕ) (script : Bytes)
    → 0x4c < n
    → (parse_claim_name_script (op ∷ n ∷ script) ≡ panic)
      × (parse_claim_support_script (op ∷ n ∷ script) ≡ err too_many_bytes)
      × (parse_claim_update_script (op ∷ n ∷ script) ≡ err too_many_bytes)
unfolding parse_claim_name_script parse_claim_support_script parse_claim_update_script index
parse_long_name op n script h = ground arith

-- On the empty script, and only there, the test for a claim script panics; on any other script it
-- holds exactly when one of the three tests for a kind of claim script holds, and no two of these
-- hold at once.
is_claim_script-cases :
    (script : Bytes)
    → ((script ≡ []) × (is_claim_script script ≡ panic))
      ⊎ ((is_claim_script script
            ≡ ok (
                is_claim_name_script script
                || is_claim_support_script script
                || is_claim_update_script script))
          × ¬ ((is_claim_name_script script ≡ true) × (is_claim_support_script script ≡ true))
          × ¬ ((is_claim_name_script script ≡ true) × (is_claim_update_script script ≡ true))
          × ¬ ((is_claim_support_script script ≡ true) × (is_claim_update_script script ≡ true)))
unfolding is_claim_script is_claim_name_script is_claim_support_script is_claim_update_script index
is_claim_script-cases [] = inl (refl, refl)
is_claim_script-cases (b ∷ script) = inr (ground arith, ground arith, ground arith, ground arith)

-- For a name of less than 256 bytes, a claim id of less than 76 bytes and a value of less than 2 ^
-- 32 bytes, the public key script behind each of the four forms of claim script is found.
get_pub_key_script_of_build :
    (name id value rest : Bytes)
    → length name < 256
    → length id < 76
    → length value < 2 ^ 32
    → (get_pub_key_script_from_claim_pks (claim_name_script name value rest) ≡ ok rest)
      × (get_pub_key_script_from_claim_pks (claim_update_script name id value rest) ≡ ok rest)
      × (get_pub_key_script_from_claim_pks (claim_support_script name id rest) ≡ ok rest)
      × (get_pub_key_script_from_claim_pks (claim_support_value_script name id value rest)
          ≡ ok rest)
unfolding get_pub_key_script_from_claim_pks index is_claim_script is_claim_name_script
    is_claim_update_script is_claim_support_script
get_pub_key_script_of_build name id value rest h k l = (
  rw (parse-claim_name_script name value rest h l),
  rw (parse-claim_update_script name id rest h k value l),
  rw (parse-claim_support_script name id rest h k),
  rw (parse-support_with_value name id rest h k value l),
)

-- A script whose first byte is none of the three claim operations is reported as no claim script.
get_pub_key_script_of_other :
    (b : ℕ) (script : Bytes)
    → b ≢ 0xb5
    → b ≢ 0xb6
    → b ≢ 0xb7
    → get_pub_key_script_from_claim_pks (b ∷ script) ≡ err not_claim_script
unfolding get_pub_key_script_from_claim_pks is_claim_script index
get_pub_key_script_of_other b script h k l = ground arith
