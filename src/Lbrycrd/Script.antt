-- ===== src/Lbrycrd/Script.antt =====
-- The claim scripts of lbrycrd/script.go: the tests on the operation code, the three parsers and
-- the dispatch on them. An index out of range is the outcome `panic`.
pub mod Build
pub mod Slices
pub mod RoundTrip
pub mod Refusal
pub mod Purchase
use chainquery.Prelude.{ℕ, ◌+◌, ◌*◌, Bool, false, ◌||◌, [], ◌∷◌, ltb, ◌==◌, if◌then◌else◌}
use chainquery.Prelude.Go.{Go, ok, err, panic, ◌>>=◌, index, slice, slice_from}
use chainquery.Prelude.Text.{Text}
use chainquery.Util.Bytes.{reverse_bytes}
use chainquery.Lbrycrd.Hex.{Bytes, hex_encode}

abbrev op_claim_name : ℕ
op_claim_name = 0xb5

abbrev op_support_claim : ℕ
op_support_claim = 0xb6

abbrev pub op_update_claim : ℕ
op_update_claim = 0xb7

abbrev op_2drop : ℕ
op_2drop = 0x6d

abbrev op_pushdata1 : ℕ
op_pushdata1 = 0x4c

abbrev op_pushdata2 : ℕ
op_pushdata2 = 0x4d

abbrev op_pushdata4 : ℕ
op_pushdata4 = 0x4e

pub data ScriptError : Type 0 where
  too_many_bytes not_claim_script : ScriptError

abbrev pub Parse : Type 0 → Type 0
Parse A = Go ScriptError A

-- `script[0] == code`, where the length was tested.
abbrev starts_with : ℕ → Bytes → Bool
starts_with code [] = false
starts_with code (b ∷ script) = b == code

-- No test of the length: an empty script panics.
unfoldable pub is_claim_script : Bytes → Parse Bool
is_claim_script script = do
  b ← index script 0
  ok (b == op_support_claim || b == op_claim_name || b == op_update_claim)

unfoldable pub is_claim_name_script : Bytes → Bool
is_claim_name_script script = starts_with op_claim_name script

unfoldable pub is_claim_support_script : Bytes → Bool
is_claim_support_script script = starts_with op_support_claim script

unfoldable pub is_claim_update_script : Bytes → Bool
is_claim_update_script script = starts_with op_update_claim script

-- The number of bytes of the name and where they start. A claim of a name panics on a length byte
-- above OP_PUSHDATA1, the other two parsers return an error.
unfoldable pub read_name_size : Parse (ℕ × ℕ) → Bytes → Parse (ℕ × ℕ)
read_name_size refuse script = do
  n ← index script 1
  (if n == op_pushdata1
      then (index script 2 >>= λ m. ok (m, 3))
      else if ltb op_pushdata1 n
      then refuse
      else ok (n, 2))

abbrev uint16_le : Bytes → Parse ℕ
uint16_le b = do b0 ← index b 0; b1 ← index b 1; ok (b0 + 256 * b1)

abbrev uint32_le : Bytes → Parse ℕ
uint32_le b = do
  b0 ← index b 0
  b1 ← index b 1
  b2 ← index b 2
  b3 ← index b 3
  ok (b0 + 256 * b1 + 65536 * b2 + 16777216 * b3)

-- The number of bytes of the value whose push starts at `at`, and where they start.
unfoldable pub read_value_size : Bytes → ℕ → Parse (ℕ × ℕ)
read_value_size script at = do
  push ← index script at
  (if push == op_pushdata1
      then (index script (at + 1) >>= λ n. ok (n, at + 2))
      else if push == op_pushdata2
      then (slice script (at + 1) (at + 3) >>= λ b. uint16_le b >>= λ n. ok (n, at + 3))
      else if push == op_pushdata4
      then (slice script (at + 1) (at + 5) >>= λ b. uint32_le b >>= λ n. ok (n, at + 5))
      else ok (push, at + 1))

pub record ClaimName : Type 0 where
  pub name : Bytes
  pub value : Bytes
  pub pubkeyscript : Bytes

pub record ClaimRef : Type 0 where
  pub name : Bytes
  pub claim_id : Text
  pub value : Bytes
  pub pubkeyscript : Bytes

-- The value whose push starts at `at`, and the rest behind the two drops.
unfoldable pub read_value_and_rest : Bytes → ℕ → Parse (Bytes × Bytes)
unfolding read_value_size
read_value_and_rest script at = do
  (value_size, value_start) ← read_value_size script at
  let value_end = value_start + value_size
  value ← slice script value_start value_end
  rest ← slice_from script (value_end + 2)
  ok (value, rest)

unfoldable pub parse_claim_name_script : Bytes → Parse ClaimName
unfolding read_name_size read_value_and_rest
parse_claim_name_script script = do
  (name_size, name_start) ← read_name_size panic script
  let name_end = name_start + name_size
  name ← slice script name_start name_end
  (value, rest) ← read_value_and_rest script name_end
  ok (record { name = name; value = value; pubkeyscript = rest })

-- The name and the claim id of a support or an update, and where the claim id ends.
unfoldable pub read_claim_ref : Bytes → Parse (Bytes × Text × ℕ)
unfolding read_name_size
read_claim_ref script = do
  (name_size, name_start) ← read_name_size (err too_many_bytes) script
  let name_end = name_start + name_size
  name ← slice script name_start name_end
  id_size ← index script name_end
  let id_start = name_end + 1
  let id_end = id_start + id_size
  id ← slice script id_start id_end
  ok (name, hex_encode (reverse_bytes id), id_end)

-- A support carries a value only if the claim id is not followed by OP_2DROP.
unfoldable pub parse_claim_support_script : Bytes → Parse ClaimRef
unfolding read_claim_ref read_value_and_rest
parse_claim_support_script script = do
  (name, claim_id, id_end) ← read_claim_ref script
  b ← index script id_end
  (value, rest) ←
      (if b == op_2drop
        then (slice_from script (id_end + 2) >>= λ rest. ok ([], rest))
        else read_value_and_rest script id_end)
  ok (record { name = name; claim_id = claim_id; value = value; pubkeyscript = rest })

unfoldable pub parse_claim_update_script : Bytes → Parse ClaimRef
unfolding read_claim_ref read_value_and_rest
parse_claim_update_script script = do
  (name, claim_id, id_end) ← read_claim_ref script
  (value, rest) ← read_value_and_rest script id_end
  ok (record { name = name; claim_id = claim_id; value = value; pubkeyscript = rest })

unfoldable pub get_pub_key_script_from_claim_pks : Bytes → Parse Bytes
unfolding is_claim_script is_claim_name_script is_claim_update_script is_claim_support_script
get_pub_key_script_from_claim_pks script = do
  claim ← is_claim_script script
  (if claim
      then (if is_claim_name_script script
          then (parse_claim_name_script script >>= λ c. ok c.pubkeyscript)
          else if is_claim_update_script script
          then (parse_claim_update_script script >>= λ c. ok c.pubkeyscript)
          else if is_claim_support_script script
          then (parse_claim_support_script script >>= λ c. ok c.pubkeyscript)
          else ok [])
      else err not_claim_script)
