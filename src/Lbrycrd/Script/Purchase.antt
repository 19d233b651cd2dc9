-- ===== src/Lbrycrd/Script/Purchase.antt =====
-- Purchases and data scripts of lbrycrd/script.go. The protobuf decoder is a parameter.
use chainquery.Prelude.Go.{Go, ◌>>=◌, index, slice_from, ok, err, panic}
use chainquery.Prelude.{
  ℕ, suc, ◌≡◌, refl, ◌↔◌, inl, inr, Bool, true, false, ◌&&◌, Option, none, some, [], ◌∷◌, arith,
  ◌==◌, if◌then◌else◌, Bool-cases, Option-cases, length,
}
use chainquery.Lbrycrd.Hex.{Bytes}

abbrev op_return : ℕ
op_return = 0x6a

abbrev purchase_byte : ℕ
purchase_byte = 0x50

pub data PurchaseError : Type 0 where
  no_script no_op_return wrong_size no_purchase bad_message : PurchaseError

-- OP_RETURN, the number of bytes, the bytes.
unfoldable parse_data_script : Bytes → Go PurchaseError Bytes
parse_data_script [] = err no_script
parse_data_script (op ∷ []) = err no_script
parse_data_script (op ∷ n ∷ bytes) =
    if op == op_return
    then (if length bytes == n then ok bytes else err wrong_size)
    else err no_op_return

-- The message that `proto.Unmarshal` fills in, and its claim hash.
pub record Protobuf : Type 1 where
  pub Purchase : Type 0
  pub unmarshal : Bytes → Option Purchase
  pub get_claim_hash : Purchase → Bytes

module _ (p : Protobuf) where
  open p use {Purchase, unmarshal}

  abbrev decode_message : Bytes → Go PurchaseError Purchase
  decode_message bytes = elim (unmarshal bytes) [ none ↦ err bad_message | some m ↦ ok m ]

  unfoldable pub parse_purchase_script : Bytes → Go PurchaseError Purchase
  unfolding parse_data_script
  parse_purchase_script script = do
    bytes ← parse_data_script script
    b ← index bytes 0
    (if b == purchase_byte then (slice_from bytes 1 >>= decode_message) else err no_purchase)

  abbrev is_ok : Go PurchaseError Purchase → Go PurchaseError Bool
  is_ok (ok m) = ok true
  is_ok (err e) = ok false
  is_ok panic = panic

  -- The tests of the length and of the two bytes come before the parse.
  unfoldable pub is_purchase_script : Bytes → Go PurchaseError Bool
  unfolding parse_purchase_script
  is_purchase_script [] = ok false
  is_purchase_script (a ∷ []) = ok false
  is_purchase_script (a ∷ n ∷ []) = ok false
  is_purchase_script (a ∷ n ∷ b ∷ script) =
      if a == op_return && b == purchase_byte
      then is_ok (parse_purchase_script (a ∷ n ∷ b ∷ script))
      else ok false

  -- The test for a purchase script answers true or false on every script: it does not panic and
  -- returns no error.
  pub is_purchase_script_total : (script : Bytes) → (b : Bool) × (is_purchase_script script ≡ ok b)
  unfolding is_purchase_script index slice_from
  is_purchase_script_total [] = (false, refl)
  is_purchase_script_total (a ∷ []) = (false, refl)
  is_purchase_script_total (a ∷ n ∷ []) = (false, refl)
  is_purchase_script_total (a ∷ n ∷ b ∷ script) =
      elim (Bool-cases (a == op_return && b == purchase_byte)) [
        | inl e ↦ elim (Bool-cases (length (b ∷ script) == n)) [
          | inl e' ↦ elim (Option-cases (unmarshal script)) [
            | inl o ↦ (false, ground arith)
            | inr o ↦ (true, ground arith)
          ]
          | inr e' ↦ (false, ground arith)
        ]
        | inr e ↦ (false, ground arith)
      ]

  abbrev IsPurchase : Bytes → Type 0
  IsPurchase script =
      (message : Bytes) × (m : Purchase) × (script
        ≡ op_return ∷ suc (length message) ∷ purchase_byte ∷ message)
      × (unmarshal message ≡ some m)

  accepted : (script : Bytes) → is_purchase_script script ≡ ok true → IsPurchase script
  unfolding is_purchase_script index slice_from
  accepted [] h = cc
  accepted (a ∷ []) h = cc
  accepted (a ∷ n ∷ []) h = cc
  accepted (a ∷ n ∷ b ∷ message) h = elim (Option-cases (unmarshal message)) [
    | inl o ↦ absurd (ground arith)
    | inr (m, o) ↦ (message, m, ground arith, o)
  ]

  built : (script : Bytes) → IsPurchase script → is_purchase_script script ≡ ok true
  unfolding is_purchase_script index slice_from
  built script (message, m, e, o) = rw e (ground arith)

  -- A script is taken for a purchase exactly when it consists of OP_RETURN, the length of what
  -- follows, the byte `P`, and a message that decodes.
  is_purchase_script_iff :
      (script : Bytes)
      → (is_purchase_script script ≡ ok true) ↔ (
          (message : Bytes) × (m : Purchase) × (script
            ≡ op_return ∷ suc (length message) ∷ purchase_byte ∷ message)
          × (unmarshal message ≡ some m))
  unfolding is_purchase_script index slice_from
  is_purchase_script_iff script = (accepted script, built script)
