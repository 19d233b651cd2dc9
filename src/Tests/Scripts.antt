-- ===== src/Tests/Scripts.antt =====
-- Scripts of a claim named "ab" with the value "xyz".
use chainquery.Prelude.{◌≡◌, refl, [], ◌∷◌, arith}
use chainquery.Prelude.Go.{ok}
use chainquery.Prelude.Text.{text}
use chainquery.Lbrycrd.Hex.{Bytes, hex_encode}
use chainquery.Lbrycrd.Script.{ClaimRef, parse_claim_name_script, parse_claim_support_script}
use chainquery.Lbrycrd.Script.Build.{claim_name_script, claim_support_value_script}
use chainquery.Lbrycrd.Script.RoundTrip.{parse-claim_name_script, parse-claim_support_value_script}

abbrev name : Bytes
name = text "ab"

abbrev id : Bytes
id = 1 ∷ 2 ∷ 3 ∷ 4 ∷ []

abbrev value : Bytes
value = text "xyz"

abbrev rest : Bytes
rest = 0x76 ∷ 0xa9 ∷ []

parse-claim_name_script_example :
    parse_claim_name_script (claim_name_script name value rest)
    ≡ ok (record { name = name; value = value; pubkeyscript = rest })
parse-claim_name_script_example =
    parse-claim_name_script name value rest (omega arith) (omega arith)

abbrev read_back : Bytes → ClaimRef
read_back v = record {
  name = name;
  claim_id = hex_encode (4 ∷ 3 ∷ 2 ∷ 1 ∷ []);
  value = v;
  pubkeyscript = rest;
}

parse-claim_support_value_script_example :
    parse_claim_support_script (claim_support_value_script name id value rest)
    ≡ ok (read_back value)
parse-claim_support_value_script_example =
    parse-claim_support_value_script name id rest (omega arith) (omega arith) value 2 (omega arith)
      refl
