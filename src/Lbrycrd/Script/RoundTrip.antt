-- ===== src/Lbrycrd/Script/RoundTrip.antt =====
-- Each parser reads back what the scripts of `Build` are made of.
use chainquery.Util.Bytes.{reverse_bytes-reverse}
use chainquery.Lbrycrd.Script.{
  too_many_bytes, reverse_bytes, parse_claim_support_script, read_claim_ref,
  parse_claim_update_script, read_name_size, ScriptError, parse_claim_name_script, Parse,
  read_value_and_rest,
}
use chainquery.Lbrycrd.Script.Slices.{
  push_start, index_at, read_name_size_at, slice_at, slice_from_at, read_value_size_at,
}
use chainquery.Prelude.Go.{err, panic, slice, ok}
use chainquery.Lbrycrd.Script.Build.{
  claim_support_value_script, claim_support_script, claim_update_script, claim_name_script,
  push_header, push,
}
use chainquery.Lbrycrd.Hex.{hex_encode, Bytes}
use chainquery.Prelude.{
  ℕ, ◌+◌, ◌^◌, ◌<◌, ◌≡◌, refl, sym, ap, ◌∙◌, [], ◌∷◌, ◌++◌, reverse, append_assoc, arith, length,
  length-append,
}

-- What a value push, two drops and the rest are read as, behind any prefix.
module _ (script pre value rest : Bytes) (x y at : ℕ) where
  pub read_value_and_rest_at :
      length value < 2 ^ 32
      → script ≡ pre ++ push value (x ∷ y ∷ rest)
      → at ≡ length pre
      → read_value_and_rest script at ≡ ok (value, rest)
  unfolding read_value_and_rest
  read_value_and_rest_at h e k =
      let header = push_header (length value) in
      let e1 : script ≡ (pre ++ header) ++ (value ++ (x ∷ y ∷ rest)) =
        e ∙ sym (append_assoc pre header (value ++ (x ∷ y ∷ rest))) in
      let e2 : script ≡ ((pre ++ header) ++ value) ++ (x ∷ y ∷ rest) =
        e1 ∙ sym (append_assoc (pre ++ header) value (x ∷ y ∷ rest)) in
      let e3 : script ≡ (((pre ++ header) ++ value) ++ (x ∷ y ∷ [])) ++ rest =
        e2 ∙ sym (append_assoc ((pre ++ header) ++ value) (x ∷ y ∷ []) rest) in
      let l1 = length-append pre header in
      let l2 = length-append (pre ++ header) value in
      let l3 = length-append ((pre ++ header) ++ value) (x ∷ y ∷ []) in
      rw (read_value_size_at script pre (value ++ (x ∷ y ∷ rest)) (length value) at h e k) (
        rw
          (slice_at script (pre ++ header) value (x ∷ y ∷ rest) (at + length header)
            (at + length header + length value) e1 (omega (arith, l1)) (omega (arith, l1)))
          (rw (
            slice_from_at script (((pre ++ header) ++ value) ++ (x ∷ y ∷ [])) rest
              (at + length header + length value + 2) e3 (omega (arith, l1, l2, l3)))))

-- The name push behind the operation code: what is read, and the script split behind the name.
module _ (op : ℕ) (name tail : Bytes) (small : length name < 256) where
  abbrev script : Bytes
  script = op ∷ push name tail

  abbrev pre : Bytes
  pre = op ∷ (push_header (length name) ++ name)

  abbrev name_start : ℕ
  name_start = 1 + length (push_header (length name))

  split_name : script ≡ pre ++ tail
  split_name = ap (◌∷◌ op) (sym (append_assoc (push_header (length name)) name tail))

  size_pre : name_start + length name ≡ length pre
  size_pre = omega (arith, length-append (push_header (length name)) name)

  read_name : (refuse : Parse (ℕ × ℕ)) → read_name_size refuse script ≡ ok (length name, name_start)
  read_name refuse = read_name_size_at refuse script (name ++ tail) op (length name) small refl

  slice_name : slice {E = ScriptError} script name_start (name_start + length name) ≡ ok name
  slice_name =
      slice_at script (op ∷ push_header (length name)) name tail name_start
        (name_start + length name) refl (omega arith) (omega arith)

-- A script that claims a name of less than 256 bytes, with a value of less than 2 ^ 32 bytes, is
-- read back: name, value and public key script.
pub parse-claim_name_script :
    (name value rest : Bytes)
    → length name < 256
    → length value < 2 ^ 32
    → parse_claim_name_script (claim_name_script name value rest)
      ≡ ok (record { name = name; value = value; pubkeyscript = rest })
unfolding parse_claim_name_script
parse-claim_name_script name value rest h k =
    let tail = push value (0x6d ∷ 0x75 ∷ rest) in
    let at = name_start 0xb5 name tail h + length name in
    let split = split_name 0xb5 name tail h in
    let size = size_pre 0xb5 name tail h in
    rw (read_name 0xb5 name tail h panic) (
      rw (slice_name 0xb5 name tail h)
        (rw (read_value_and_rest_at _ (pre 0xb5 name tail h) value rest 0x6d 0x75 at k split size)))

-- The name and the claim id of a support or an update. A claim id is pushed with one length byte.
module _ (op : ℕ) (name id tail : Bytes) (small : length name < 256) (short : length id < 76) where
  abbrev id_end : ℕ
  id_end = name_start op name (push id tail) small + length name + 1 + length id

  abbrev behind_id : Bytes
  behind_id = (pre op name (push id tail) small ++ length id ∷ []) ++ id

  header_id : push_header (length id) ≡ length id ∷ []
  header_id = ground arith

  split_header :
      script op name (push id tail) small
      ≡ (pre op name (push id tail) small ++ length id ∷ []) ++ (id ++ tail)
  split_header =
      split_name op name (push id tail) small
      ∙ (rw header_id
          (sym (append_assoc (pre op name (push id tail) small) (length id ∷ []) (id ++ tail))))

  split_id : script op name (push id tail) small ≡ behind_id ++ tail
  split_id =
      split_header ∙ sym (append_assoc (pre op name (push id tail) small ++ length id ∷ []) id tail)

  size_header :
      name_start op name (push id tail) small + length name + 1
      ≡ length (pre op name (push id tail) small ++ length id ∷ [])
  size_header = omega (
    arith,
    size_pre op name (push id tail) small,
    length-append (pre op name (push id tail) small) (length id ∷ []),
  )

  size_id : id_end ≡ length behind_id
  size_id =
      omega
        (arith, size_header, length-append (pre op name (push id tail) small ++ length id ∷ []) id)

  read_claim_ref_at :
      read_claim_ref (script op name (push id tail) small)
      ≡ ok (name, hex_encode (reverse_bytes id), id_end)
  unfolding read_claim_ref
  read_claim_ref_at =
      let rest = push id tail in
      let s = script op name rest small in
      let at = name_start op name rest small + length name in
      let e0 : s ≡ pre op name rest small ++ length id ∷ (id ++ tail) =
        split_name op name rest small ∙ rw header_id in
      rw (read_name op name rest small (err too_many_bytes)) (
        rw (slice_name op name rest small) (
          rw
            (index_at s (pre op name rest small) (length id) (id ++ tail) at e0
              (size_pre op name rest small))
            (rw (
              slice_at s (pre op name rest small ++ length id ∷ []) id tail (at + 1)
                (at + 1 + length id) split_header size_header (omega (arith, size_header))))))

module _ (name id rest : Bytes) (small : length name < 256) (short : length id < 76) where
  -- A script that updates a claim, with a name of less than 256 bytes, a claim id of less than 76
  -- bytes and a value of less than 2 ^ 32 bytes, is read back; the claim id is the hexadecimal text
  -- of the bytes that ReverseBytes gives.
  pub parse-claim_update_script :
      (value : Bytes)
      → length value < 2 ^ 32
      → parse_claim_update_script (claim_update_script name id value rest)
        ≡ ok (record {
          name = name;
          claim_id = hex_encode (reverse_bytes id);
          value = value;
          pubkeyscript = rest;
        })
  unfolding parse_claim_update_script
  parse-claim_update_script value h =
      let tail = push value (0x6d ∷ 0x6d ∷ rest) in
      let at = id_end 0xb7 name id tail small short in
      let split = split_id 0xb7 name id tail small short in
      let size = size_id 0xb7 name id tail small short in
      rw (read_claim_ref_at 0xb7 name id tail small short) (
        rw (
          read_value_and_rest_at _ (behind_id 0xb7 name id tail small short) value rest 0x6d 0x6d at
            h split size))

  -- A script that supports a claim without a value, with a name of less than 256 bytes and a claim
  -- id of less than 76 bytes, is read back, with an empty value.
  pub parse-claim_support_script :
      parse_claim_support_script (claim_support_script name id rest)
      ≡ ok (record {
        name = name;
        claim_id = hex_encode (reverse_bytes id);
        value = [];
        pubkeyscript = rest;
      })
  unfolding parse_claim_support_script
  parse-claim_support_script =
      let tail = 0x6d ∷ 0x75 ∷ rest in
      let before = behind_id 0xb6 name id tail small short in
      let at = id_end 0xb6 name id tail small short in
      let split = split_id 0xb6 name id tail small short in
      let size = size_id 0xb6 name id tail small short in
      rw (read_claim_ref_at 0xb6 name id tail small short) (
        rw (index_at _ before 0x6d (0x75 ∷ rest) at split size) (
          rw (
            slice_from_at _ (before ++ 0x6d ∷ 0x75 ∷ []) rest (at + 2)
              (split ∙ sym (append_assoc before (0x6d ∷ 0x75 ∷ []) rest))
              (omega (arith, size, length-append before (0x6d ∷ 0x75 ∷ []))))))

  -- A script that supports a claim and carries a value, with a name of less than 256 bytes, a claim
  -- id of less than 76 bytes and a value of less than 2 ^ 32 bytes, is told apart from one without
  -- a value, and is read back.
  pub parse-support_with_value :
      (value : Bytes)
      → length value < 2 ^ 32
      → parse_claim_support_script (claim_support_value_script name id value rest)
        ≡ ok (record {
          name = name;
          claim_id = hex_encode (reverse_bytes id);
          value = value;
          pubkeyscript = rest;
        })
  unfolding parse_claim_support_script
  parse-support_with_value value h =
      let tail = push value (0x6d ∷ 0x6d ∷ rest) in
      let before = behind_id 0xb6 name id tail small short in
      let at = id_end 0xb6 name id tail small short in
      let split = split_id 0xb6 name id tail small short in
      let size = size_id 0xb6 name id tail small short in
      rw (read_claim_ref_at 0xb6 name id tail small short) (
        ground (
          arith,
          push_start (script 0xb6 name (push id tail) small) before (length value)
              (value ++ (0x6d ∷ 0x6d ∷ rest)) at split size,
          read_value_and_rest_at (script 0xb6 name (push id tail) small) before value rest 0x6d 0x6d
              at h split size,
        ))

  -- A script that supports a claim and carries a value, with a name of less than 256 bytes, a claim
  -- id of an even number of bytes, less than 76, and a value of less than 2 ^ 32 bytes, is told
  -- apart from one without a value, and is read back; the claim id is the hexadecimal text of its
  -- bytes from the last to the first.
  pub parse-claim_support_value_script :
      (value : Bytes) (k : ℕ)
      → length value < 2 ^ 32
      → length id ≡ k + k
      → parse_claim_support_script (claim_support_value_script name id value rest)
        ≡ ok (record {
          name = name;
          claim_id = hex_encode (reverse id);
          value = value;
          pubkeyscript = rest;
        })
  parse-claim_support_value_script value k h even =
      parse-support_with_value value h
      ∙ ap
          (λ i.
            ok
              (record { name = name; claim_id = hex_encode i; value = value; pubkeyscript = rest }))
          (reverse_bytes-reverse id k even)
