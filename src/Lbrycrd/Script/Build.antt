-- ===== src/Lbrycrd/Script/Build.antt =====
-- What a script is made of: the pushes that lbrycrd writes, each with the shortest header for its
-- length. This is the specification that the parsers are held against.
use chainquery.Prelude.{ℕ, ◌/◌, ◌%◌, [], ◌∷◌, ◌++◌, ltb, if◌then◌else◌, length}
use chainquery.Lbrycrd.Hex.{Bytes}

abbrev pub push_header : ℕ → Bytes
push_header n =
    if ltb n 76
    then n ∷ []
    else if ltb n 256
    then 0x4c ∷ n ∷ []
    else if ltb n 65536
    then 0x4d ∷ (n % 256) ∷ (n / 256) ∷ []
    else 0x4e ∷ (n % 256) ∷ (n / 256 % 256) ∷ (n / 65536 % 256) ∷ (n / 16777216) ∷ []

-- The push of some bytes, with what follows it.
abbrev pub push : Bytes → Bytes → Bytes
push b tail = push_header (length b) ++ (b ++ tail)

-- OP_CLAIM_NAME name value OP_2DROP OP_DROP pubkeyscript
abbrev pub claim_name_script : Bytes → Bytes → Bytes → Bytes
claim_name_script name value rest = 0xb5 ∷ push name (push value (0x6d ∷ 0x75 ∷ rest))

-- OP_UPDATE_CLAIM name claimid value OP_2DROP OP_2DROP pubkeyscript
abbrev pub claim_update_script : Bytes → Bytes → Bytes → Bytes → Bytes
claim_update_script name id value rest =
    0xb7 ∷ push name (push id (push value (0x6d ∷ 0x6d ∷ rest)))

-- OP_SUPPORT_CLAIM name claimid OP_2DROP OP_DROP pubkeyscript
abbrev pub claim_support_script : Bytes → Bytes → Bytes → Bytes
claim_support_script name id rest = 0xb6 ∷ push name (push id (0x6d ∷ 0x75 ∷ rest))

-- OP_SUPPORT_CLAIM name claimid value OP_2DROP OP_2DROP pubkeyscript
abbrev pub claim_support_value_script : Bytes → Bytes → Bytes → Bytes → Bytes
claim_support_value_script name id value rest =
    0xb6 ∷ push name (push id (push value (0x6d ∷ 0x6d ∷ rest)))
