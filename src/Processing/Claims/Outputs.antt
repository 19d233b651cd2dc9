-- ===== src/Processing/Claims/Outputs.antt =====
-- The rest of processAsClaim of daemon/processing/claim.go: supports, and which of the three functions an
-- output goes to; and what a new claim's row holds.
use chainquery.Processing.Claims.Scripts.{
  json_or, claim_type_of, at_output, created, stored_or, ClaimRow, SupportRow, Output, Decoded,
  Decoders, ClaimStore, source_of, set_source_info, update_claim_data, process_claim,
  save_new_claim, Handled, process_claim_name_script, process_claim_update_script,
}
use chainquery.Processing.Claims.Metadata.{
  database_error, set_metadata_info, Encoding, ClaimError, not_a_claim, bad_support, bad_script,
}
use chainquery.Prelude.Go.{or_err-ok, bind-ok, ok-injective, Go, ◌>>=◌, map_err, ok, err}
use chainquery.Prelude.{
  ℕ, ◌^◌, ◌<◌, ◌≡◌, refl, sym, ap, subst, ◌∙◌, inl, inr, Option, none, some, [], ◌∷◌, ltb,
  if◌then◌else◌, lt→ltb, Option-cases, length,
}
use chainquery.Prelude.Text.{Text}
use chainquery.Util.Bytes.{reverse_bytes}
use chainquery.Lbrycrd.Hex.{Bytes, hex_encode}
use chainquery.Lbrycrd.Outpoint.{Hashes, claim_id_from_outpoint}
use chainquery.Lbrycrd.Script.{
  parse_claim_support_script, is_claim_name_script, is_claim_support_script, is_claim_update_script,
}
use chainquery.Lbrycrd.Script.Build.{claim_name_script}
use chainquery.Lbrycrd.Script.RoundTrip.{parse-claim_name_script}
use chainquery.Lbrycrd.Address.{Btcutil, get_address_from_public_key_script}
use chainquery.Processing.Claims.Message.{Message}

-- Two rows with the same key columns.
abbrev SameKeys : {F : Type 0} → ClaimRow F → ClaimRow F → Type 0
SameKeys a b =
    (a.claim_id ≡ b.claim_id)
    × (a.name ≡ b.name)
    × (a.transaction_hash_update ≡ b.transaction_hash_update)
    × (a.vout_update ≡ b.vout_update)
    × (a.height ≡ b.height)
    × (a.value_as_hex ≡ b.value_as_hex)
    × (a.claim_address ≡ b.claim_address)

set_source_info-SameKeys :
    {F : Type 0} (c : ClaimRow F) (h : Message) → SameKeys (set_source_info c h) c
unfolding set_source_info
set_source_info-SameKeys c h = elim (Option-cases (source_of h)) [
  | inl n ↦ rw (n, set_source_info) (refl, refl, refl, refl, refl, refl, refl)
  | inr (s, n) ↦ rw (n, set_source_info) (refl, refl, refl, refl, refl, refl, refl)
]

at_height :
    (block_height own : ℕ)
    → 0 < block_height
    → (if ltb 0 block_height then block_height else own) ≡ block_height
at_height block_height own pos = rw (lt→ltb 0 block_height pos) refl

module _ {F : Type 0} (hash : Hashes) (btcutil : Btcutil) (chain : Text) (enc : Encoding F)
    (dec : Decoders) (db : ClaimStore F) (no_amount : F) where
  open db use {State, tags, new_row, get_claim, put_claim, put_abnormal, get_support, put_support}

  abbrev support_or_new : Option (SupportRow F) → SupportRow F
  support_or_new (some r) = r
  support_or_new none = record {
    transaction_hash_id = none;
    vout = 0;
    support_amount = no_amount;
    supported_by_claim_id = none;
    supported_claim_id = [];
  }

  -- The channel that supports, where the support carries a value.
  abbrev supporter : Bytes → Option Text → Go ClaimError (Option Text)
  supporter [] own = ok own
  supporter (b ∷ value) own = elim (dec.decode_support (b ∷ value)) [
    | none ↦ err bad_support
    | some id ↦ ok (some (hex_encode (reverse_bytes id)))
  ]

  unfoldable process_support :
      Text → Bytes → Option (SupportRow F) → Output F → State → Go ClaimError (SupportRow F)
  process_support id value stored o s =
      let row = support_or_new stored in
      supporter value row.supported_by_claim_id >>= λ by. ok (record row {
        transaction_hash_id = some o.tx_hash;
        vout = o.vout;
        support_amount = o.value;
        supported_by_claim_id = by;
        supported_claim_id = elim (get_claim s id) [ none ↦ row.supported_claim_id | some c ↦ id ];
      })

  -- That a support cannot be saved is only logged.
  unfoldable process_claim_support_script :
      Bytes → Output F → State → Go ClaimError (Handled hash btcutil chain enc dec db)
  unfolding process_support
  process_claim_support_script script o s =
      map_err bad_script (parse_claim_support_script script) >>= λ c.
      process_support c.claim_id c.value (get_support s o.tx_hash o.vout) o s >>= λ row.
      ok (c.claim_id, c.pubkeyscript, elim (put_support s row) [ none ↦ s | some s' ↦ s' ])

  -- The address that the output pays to, the claim and the database.
  unfoldable pub process_as_claim :
      Bytes → Output F → ℕ → State → Go ClaimError (Text × Text × State)
  unfolding process_claim_support_script
  process_as_claim script o block_height s =
      (if is_claim_name_script script
        then process_claim_name_script hash btcutil chain enc dec db script o block_height s
        else if is_claim_support_script script
        then process_claim_support_script script o s
        else if is_claim_update_script script
        then process_claim_update_script hash btcutil chain enc dec db script o block_height s
        else err not_a_claim)
      >>= λ r. ok (get_address_from_public_key_script btcutil chain r.1, r.0, r.2)

  -- What the row of a new claim holds when it is saved.
  abbrev pub Saves : Text → Bytes → Bytes → Bytes → Output F → ℕ → State → Type 0
  Saves id name value rest o block_height s' =
      (row : ClaimRow F) × (s1 : State) × (put_claim s1 row ≡ some s')
      × (row.claim_id ≡ id)
      × (row.name ≡ name)
      × (row.value_as_hex ≡ hex_encode value)
      × (row.transaction_hash_update ≡ some o.tx_hash)
      × (row.vout_update ≡ some o.vout)
      × (row.claim_address ≡ get_address_from_public_key_script btcutil chain rest)
      × (0 < block_height → row.height ≡ block_height)

  process_claim-SameKeys :
      (c c' : ClaimRow F) (d : Decoded) (value : Bytes) (s s' : State)
      → process_claim hash btcutil chain enc dec db c d value s ≡ ok (c', s')
      → SameKeys c' (record c { value_as_hex = hex_encode value })
  unfolding process_claim update_claim_data
  process_claim-SameKeys c c' d value s s' e =
      let json : ClaimRow F = record c {
        value_as_hex = hex_encode value;
        claim_type = claim_type_of c d.message;
        value_as_json = json_or (dec.claim_json (hex_encode value)) c.value_as_json;
      } in
      let (r, e1, e2) =
        bind-ok (set_metadata_info enc tags c.claim_id d.message c.metadata s) _ (c', s') e in
      subst (λ p. SameKeys p.0 (record c { value_as_hex = hex_encode value }))
        (ok-injective _ (c', s') e2) (set_source_info-SameKeys json d.message)

  save_new_claim-Saves :
      (id name : Text) (value rest : Bytes) (d : Decoded) (o : Output F) (block_height : ℕ)
      (s s' : State)
      → save_new_claim hash btcutil chain enc dec db name id value rest d o block_height s ≡ ok s'
      → Saves id name value rest o block_height s'
  unfolding save_new_claim
  save_new_claim-Saves id name value rest d o block_height s s' e =
      let ((c, s1), e1, e2) =
        bind-ok
          (stored_or hash btcutil chain enc dec db (get_claim s id)
            (created hash btcutil chain enc dec db id o) s)
          _ s' e in
      let start = record (at_output hash btcutil chain enc dec db c o rest block_height) {
        claim_id = id;
        name = name;
      } in
      let ((row, s2), e3, e4) =
        bind-ok (process_claim hash btcutil chain enc dec db start d value s1) _ s' e2 in
      let (a, b, t, v, h, x, addr) = process_claim-SameKeys start row d value s1 s2 e3 in
      (
        row,
        s2,
        or_err-ok database_error (put_claim s2 row) s' e4,
        a,
        b,
        x,
        t,
        v,
        addr,
        λ pos. h ∙ at_height block_height c.height pos,
      )

  name_script-Saves :
      (name value rest : Bytes) (d : Decoded) (id : Text) (o : Output F) (block_height : ℕ)
      (s s' : State) (claim_id : Text) (pks : Bytes)
      → length name < 256
      → length value < 2 ^ 32
      → claim_id_from_outpoint hash o.transaction_hash o.vout ≡ some id
      → dec.decode_claim value ≡ some (some d)
      → process_claim_name_script hash btcutil chain enc dec db
          (claim_name_script name value rest)
          o
          block_height
          s
        ≡ ok (claim_id, pks, s')
      → (claim_id ≡ id) × (pks ≡ rest) × Saves id name value rest o block_height s'
  unfolding process_claim_name_script
  name_script-Saves name value rest d id o block_height s s' claim_id pks h k outpoint decoded e =
      let e1 =
        rw
          (
            outpoint,
            parse-claim_name_script name value rest h k,
            decoded,
            process_claim_name_script,
          )
          at e in
      let (s2, f1, f2) =
        bind-ok (save_new_claim hash btcutil chain enc dec db name id value rest d o block_height s)
          (λ t. ok (id, rest, t)) (claim_id, pks, s') e1 in
      let same = ok-injective (id, rest, s2) (claim_id, pks, s') f2 in
      (
        sym (ap (λ x. x.0) same),
        sym (ap (λ x. x.1) same),
        subst (Saves id name value rest o block_height) (ap (λ x. x.2) same)
            (save_new_claim-Saves id name value rest d o block_height s s2 f1),
      )

  -- When an output is processed without error whose script claims a name of less than 256 bytes
  -- with a value of less than 2 ^ 32 bytes, and its outpoint gives an id and the value decodes to a
  -- claim, then that id is returned with the address of the public key script, and the last write
  -- stored a row of the claim table with that id, name and address, the value in hexadecimal, the
  -- output as that of the last update, and, at a positive height, that height.
  pub claim_output_saved :
      (name value rest : Bytes) (d : Decoded) (id : Text) (o : Output F) (block_height : ℕ)
      (s s' : State) (address claim_id : Text)
      → length name < 256
      → length value < 2 ^ 32
      → claim_id_from_outpoint hash o.transaction_hash o.vout ≡ some id
      → dec.decode_claim value ≡ some (some d)
      → process_as_claim (claim_name_script name value rest) o block_height s
        ≡ ok (address, claim_id, s')
      → (claim_id ≡ id)
        × (address ≡ get_address_from_public_key_script btcutil chain rest)
        × Saves id name value rest o block_height s'
  unfolding process_as_claim is_claim_name_script
  claim_output_saved name value rest d id o block_height s s' address claim_id h k outpoint decoded
        e =
      let ((i, pks, s1), e1, e2) =
        bind-ok
          (process_claim_name_script hash btcutil chain enc dec db
            (claim_name_script name value rest) o block_height s)
          _ (address, claim_id, s') e in
      let (a, b, saved) =
        name_script-Saves name value rest d id o block_height s s1 i pks h k outpoint decoded e1 in
      let same =
        ok-injective (get_address_from_public_key_script btcutil chain pks, i, s1)
          (address, claim_id, s') e2 in
      (
        sym (ap (λ x. x.1) same) ∙ a,
        sym (ap (λ x. x.0) same) ∙ ap (get_address_from_public_key_script btcutil chain) b,
        subst (Saves id name value rest o block_height) (ap (λ x. x.2) same) saved,
      )
