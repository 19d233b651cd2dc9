-- ===== src/Processing/Claims/Scripts.antt =====
-- processClaimNameScript and processClaimUpdateScript of daemon/processing/claim.go, with processClaim,
-- UpdateClaimData, setSourceInfo and saveUnknownClaim: what an output with such a script does to the
-- table of claims. Notifications and the locks of single claims are left out.
use chainquery.Processing.Claims.Metadata.{
  no_claim, bad_outpoint, bad_script, Metadata, Encoding, TagStore, ClaimError, set_metadata_info,
  database_error,
}
use chainquery.Prelude.Go.{map_err, or_err, Go, ◌>>=◌, ok, err}
use chainquery.Prelude.{
  ℕ, ite, Bool, true, false, Option, none, some, ◌++◌, ltb, if◌then◌else◌, length, take,
}
use chainquery.Prelude.Text.{Text, text, text_discrete}
use chainquery.Lbrycrd.Hex.{Bytes, hex_encode}
use chainquery.Lbrycrd.Outpoint.{Hashes, claim_id_from_outpoint}
use chainquery.Lbrycrd.Script.{ClaimRef, parse_claim_name_script, parse_claim_update_script}
use chainquery.Lbrycrd.Address.{Btcutil, get_address_from_public_key_script}
use chainquery.Processing.Claims.Message.{Source, Message}
use chainquery.Processing.Claims.Publisher.{
  Publisher, Signed, set_publisher_info, set_certificate_info,
}

pub record ClaimRow (F : Type 0) : Type 0 where
  pub claim_id : Text
  pub name : Text
  pub transaction_hash_id : Option Text
  pub vout : ℕ
  pub transaction_time : Option ℕ
  pub claim_address : Text
  pub transaction_hash_update : Option Text
  pub vout_update : Option ℕ
  pub height : ℕ
  pub bid_state : Text
  pub value_as_hex : Text
  pub value_as_json : Option Text
  pub claim_type : ℕ
  pub version : Option Text
  pub content_type : Option Text
  pub sd_hash : Option Text
  pub metadata : Metadata F
  pub publisher : Publisher

pub record SupportRow (F : Type 0) : Type 0 where
  pub transaction_hash_id : Option Text
  pub vout : ℕ
  pub support_amount : F
  pub supported_by_claim_id : Option Text
  pub supported_claim_id : Text

-- What is read of the output and of its transaction.
pub record Output (F : Type 0) : Type 0 where
  pub id : ℕ
  pub transaction_hash : Text
  pub vout : ℕ
  pub value : F
  pub tx_hash : Text
  pub block_hash_id : Option Text
  pub transaction_time : Option ℕ

-- A decoded claim; the version is that of a legacy claim, if it has one.
pub record Decoded : Type 0 where
  pub message : Message
  pub signed : Signed
  pub legacy_version : Option Text

-- The decoders of lbry.go: `none` is an error, and a claim may decode to nothing. The JSON is that of
-- the value in hexadecimal. `decode_support` gives the id of the channel that supports, and
-- `is_json` tells whether bytes are a JSON object.
pub record Decoders : Type 0 where
  pub decode_claim : Bytes → Option (Option Decoded)
  pub claim_json : Text → Option Text
  pub decode_support : Bytes → Option Bytes
  pub key_certificate : Text → Text
  pub is_json : Bytes → Bool

pub record Abnormal : Type 0 where
  pub name : Text
  pub claim_id : Text
  pub is_update : Bool
  pub value_as_hex : Text
  pub value_as_json : Option Bytes
  pub transaction_hash : Text
  pub vout : ℕ
  pub block_hash : Option Text
  pub output_id : ℕ

pub record ClaimStore (F : Type 0) : Type 1 where
  pub State : Type 0
  pub tags : TagStore State
  pub new_row : ClaimRow F
  pub get_claim : State → Text → Option (ClaimRow F)
  pub put_claim : State → ClaimRow F → Option State
  pub put_abnormal : State → Abnormal → State
  pub get_support : State → Text → ℕ → Option (SupportRow F)
  pub put_support : State → SupportRow F → Option State

-- A text of more than `limit` bytes is cut, and dots are added.
unfoldable cut_to : (limit kept : ℕ) → Text → Text
cut_to limit kept t = if ltb limit (length t) then take kept t ++ text "..." else t

abbrev pub source_of : Message → Option Source
source_of h = elim h.stream [ none ↦ none | some s ↦ s.source ]

abbrev pub json_or : Option Text → Option Text → Option Text
json_or none own = own
json_or (some t) own = some t

module _ {F : Type 0} where
  unfoldable pub set_source_info : ClaimRow F → Message → ClaimRow F
  unfolding cut_to
  set_source_info c h = elim (source_of h) [
    | none ↦ record c { content_type = none; sd_hash = none }
    | some s ↦ record c {
      content_type = some (cut_to 162 158 s.media_type);
      sd_hash = some (cut_to 120 116 (hex_encode s.sd_hash));
    }
  ]

  abbrev pub claim_type_of : ClaimRow F → Message → ℕ
  claim_type_of c h = elim h.stream [
    | some s ↦ 1
    | none ↦ elim h.channel [ some x ↦ 2 | none ↦ c.claim_type ]
  ]

module _ {F : Type 0} (hash : Hashes) (btcutil : Btcutil) (chain : Text) (enc : Encoding F)
    (dec : Decoders) (db : ClaimStore F) where
  open db use {State, tags, new_row, get_claim, put_claim, put_abnormal, get_support, put_support}

  -- UpdateClaimData.
  unfoldable pub update_claim_data :
      ClaimRow F → Decoded → State → Go ClaimError (ClaimRow F × State)
  unfolding set_source_info set_metadata_info set_publisher_info set_certificate_info
  update_claim_data c d s =
      let json = record c {
        value_as_json = json_or (dec.claim_json c.value_as_hex) c.value_as_json;
      } in
      let sourced = set_source_info json d.message in
      set_metadata_info enc tags c.claim_id d.message c.metadata s >>= λ r. ok (
        record sourced {
          metadata = r.0;
          publisher =
              set_certificate_info dec.key_certificate (set_publisher_info c.publisher d.signed)
                d.signed;
          version = json_or d.legacy_version c.version;
        },
        r.1,
      )

  -- processClaim does the same, after the value and the type of the claim.
  unfoldable pub process_claim :
      ClaimRow F → Decoded → Bytes → State → Go ClaimError (ClaimRow F × State)
  unfolding update_claim_data
  process_claim c d value s =
      update_claim_data
        (record c { value_as_hex = hex_encode value; claim_type = claim_type_of c d.message }) d s

  abbrev height_or : ℕ → ℕ → ℕ
  height_or block_height own = if ltb 0 block_height then block_height else own

  -- The columns that an output sets, for a new claim and for an update.
  abbrev pub at_output : ClaimRow F → Output F → Bytes → ℕ → ClaimRow F
  at_output c o pubkeyscript block_height = record c {
    transaction_time = o.transaction_time;
    claim_address = get_address_from_public_key_script btcutil chain pubkeyscript;
    transaction_hash_update = some o.tx_hash;
    vout_update = some o.vout;
    height = height_or block_height c.height;
  }

  abbrev pub created : Text → Output F → ClaimRow F
  created id o = record new_row {
    claim_id = id;
    transaction_hash_id = some o.tx_hash;
    vout = o.vout;
  }

  -- A stored row, or a new one that is stored first.
  abbrev pub stored_or :
      Option (ClaimRow F) → ClaimRow F → State → Go ClaimError (ClaimRow F × State)
  stored_or none c s = or_err database_error (put_claim s c) >>= λ s'. ok (c, s')
  stored_or (some c') c s = ok (c', s)

  abbrev pub unknown : Text → Text → Bool → Bytes → Output F → Abnormal
  unknown name id is_update value o = record {
    name = name;
    claim_id = id;
    is_update = is_update;
    value_as_hex = hex_encode value;
    value_as_json = if dec.is_json value then some value else none;
    transaction_hash = o.transaction_hash;
    vout = o.vout;
    block_hash = o.block_hash_id;
    output_id = o.id;
  }

  -- The end of processClaimNameScript, once the claim is decoded.
  unfoldable pub save_new_claim :
      (name id : Text)
      → (value pubkeyscript : Bytes) → Decoded
      → Output F
      → ℕ
      → State
      → Go ClaimError State
  unfolding process_claim
  save_new_claim name id value pubkeyscript d o block_height s =
      stored_or (get_claim s id) (created id o) s >>= λ c.
      process_claim
        (record (at_output c.0 o pubkeyscript block_height) { claim_id = id; name = name }) d value
        c.1
      >>= λ r. or_err database_error (put_claim r.1 r.0)

  abbrev pub Handled : Type 0
  Handled = Text × Bytes × State

  unfoldable pub process_claim_name_script : Bytes → Output F → ℕ → State → Go ClaimError Handled
  unfolding save_new_claim
  process_claim_name_script script o block_height s =
      or_err bad_outpoint (claim_id_from_outpoint hash o.transaction_hash o.vout) >>= λ id.
      map_err bad_script (parse_claim_name_script script) >>= λ c. elim (dec.decode_claim c.value) [
        | none ↦ ok (id, c.pubkeyscript, put_abnormal s (unknown c.name id false c.value o))
        | some none ↦ err no_claim
        | some (some d) ↦
            save_new_claim c.name id c.value c.pubkeyscript d o block_height s >>= λ s'.
            ok (id, c.pubkeyscript, s')
      ]

  -- processUpdateClaim, on a row that is stored.
  abbrev pub updated :
      Option (ClaimRow F)
      → ClaimRow F
      → Decoded
      → Bytes
      → State
      → Go ClaimError (ClaimRow F × State)
  updated none c d value s = stored_or none c s
  updated (some c') c d value s =
      update_claim_data (record c' { value_as_hex = hex_encode value }) d s

  abbrev revived : Text → Text
  revived state = ite (text_discrete state (text "Spent")) (text "Accepted") state

  -- The row of an update is new where the claim is not stored; that it cannot be saved is only logged.
  unfoldable save_update : ClaimRef → Decoded → Output F → ℕ → State → Go ClaimError State
  unfolding update_claim_data
  save_update c d o block_height s =
      updated (get_claim s c.claim_id) (record (created c.claim_id o) { name = c.name }) d c.value s
      >>= λ r.
          let row = at_output r.0 o c.pubkeyscript block_height in
          ok (elim (put_claim r.1 (record row { bid_state = revived r.0.bid_state })) [
            | none ↦ r.1
            | some s' ↦ s'
          ])

  unfoldable pub process_claim_update_script : Bytes → Output F → ℕ → State → Go ClaimError Handled
  unfolding save_update
  process_claim_update_script script o block_height s =
      map_err bad_script (parse_claim_update_script script) >>= λ c.
      elim (dec.decode_claim c.value) [
        | none ↦
            ok (
              c.claim_id,
              c.pubkeyscript,
              put_abnormal s (unknown c.name c.claim_id true c.value o),
            )
        | some none ↦ ok (c.claim_id, c.pubkeyscript, s)
        | some (some d) ↦
            save_update c d o block_height s >>= λ s'. ok (c.claim_id, c.pubkeyscript, s')
      ]
