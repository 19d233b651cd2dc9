-- ===== src/Processing/Claims/Metadata.antt =====
-- setMetaDataInfo of daemon/processing/claim.go, with the functions it calls. The columns of a claim's
-- row that they write are a record of their own.
use chainquery.Prelude.{
  ℕ, ite, Bool, true, false, Option, none, some, List, [], ◌∷◌, ◌++◌, map, ltb, ◌==◌, if◌then◌else◌,
  length, take,
}
use chainquery.Prelude.Text.{Text, text, text_discrete}
use chainquery.Prelude.Go.{Go, ◌>>=◌, ok, err, panic}
use chainquery.Lbrycrd.Script.{ScriptError}
use chainquery.Lbrycrd.Hex.{hex_encode}
use chainquery.Util.Bytes.{reverse_bytes}
use chainquery.Processing.Claims.Message.{
  Source, Fee, Frame, Video, ClaimList, Stream, Channel, Message,
}

pub record Metadata (F : Type 0) : Type 0 where
  pub title : Option Text
  pub description : Option Text
  pub language : Option Text
  pub author : Option Text
  pub thumbnail_url : Option Text
  pub is_nsfw : Bool
  pub fee_currency : Option Text
  pub fee : F
  pub fee_address : Option Text
  pub license : Option Text
  pub claim_type : Option Text
  pub release_time : Option ℕ
  pub source_hash : Option Text
  pub source_name : Option Text
  pub source_size : Option ℕ
  pub source_media_type : Option Text
  pub source_url : Option Text
  pub frame_width : Option ℕ
  pub frame_height : Option ℕ
  pub duration : Option ℕ
  pub audio_duration : Option ℕ
  pub email : Option Text
  pub has_claim_list : Option Bool
  pub claim_reference : Option Text
  pub list_type : Option ℕ
  pub claim_id_list : Option (List Text)

-- Go's conversions between a string and its runes, and what utf8 says of a string; the encoding of an
-- address; an amount as a float.
pub record Encoding (F : Type 0) : Type 0 where
  pub runes : Text → List ℕ
  pub of_runes : List ℕ → Text
  pub is_valid : Text → Bool
  pub to_valid : Text → Text
  pub base58 : Text → Text
  pub float_of : ℕ → F
  pub zero_amount : F

-- The tables that are written: the claims in a claim's lists, its tags, and the tags themselves. A
-- tag's id is 0 where it was not found.
pub record TagStore (S : Type 0) : Type 0 where
  pub delete_lists : S → Text → Option S
  pub delete_tags : S → Text → Option S
  pub put_tag : S → Text → Option (ℕ × S)
  pub get_tag : S → Text → Option ℕ
  pub put_claim_tag : S → Text → ℕ → Option S

-- The errors of the whole processing of a claim.
pub data ClaimError : Type 0 where
  database_error bad_outpoint no_claim not_a_claim bad_support : ClaimError
  bad_script : ScriptError → ClaimError

-- A column of text, of a number, that is set where the value is not the zero value.
abbrev text_or : Text → Option Text → Option Text
text_or [] own = own
text_or (c ∷ t) own = some (c ∷ t)

-- The same, with a value computed from it.
abbrev pub text_if : Text → Text → Option Text → Option Text
text_if [] value own = own
text_if (c ∷ t) value own = some value

abbrev number_or : ℕ → Option ℕ → Option ℕ
number_or n own = if ltb 0 n then some n else own

abbrev max_source_url_length : ℕ
max_source_url_length = 255

-- A text of more than 255 bytes is cut to 252, and dots are added.
unfoldable pub shorten : Text → Text
shorten t = if ltb max_source_url_length (length t) then take 252 t ++ text "..." else t

module _ {F : Type 0} (enc : Encoding F) where
  unfoldable pub cut_runes : ℕ → Text → Text
  cut_runes n t = if ltb n (length (enc.runes t)) then enc.of_runes (take n (enc.runes t)) else t

  unfoldable pub reset_metadata : Metadata F → Metadata F
  reset_metadata m = record m {
    title = none;
    description = none;
    language = none;
    author = none;
    thumbnail_url = none;
    is_nsfw = false;
    fee_currency = none;
    fee = enc.zero_amount;
    fee_address = none;
    license = none;
    claim_type = none;
    release_time = none;
    source_hash = none;
    source_name = none;
    source_size = none;
    source_media_type = none;
    source_url = none;
    frame_width = none;
    frame_height = none;
    duration = none;
    audio_duration = none;
    email = none;
    has_claim_list = none;
    claim_reference = none;
    list_type = none;
    claim_id_list = none;
  }

  unfoldable pub set_source_metadata : Metadata F → Source → Metadata F
  unfolding shorten cut_runes
  set_source_metadata m s = record m {
    source_url = text_if s.url (shorten s.url) m.source_url;
    source_hash = text_if s.hash (hex_encode s.hash) m.source_hash;
    source_size = number_or s.size m.source_size;
    source_name = text_or s.name m.source_name;
    source_media_type = text_if s.media_type (cut_runes 254 s.media_type) m.source_media_type;
  }

  -- What is in Go a license of invalid UTF-8 is not set. The URL of the license is not kept.
  unfoldable pub set_license : Metadata F → Text → Metadata F
  unfolding cut_runes
  set_license m license =
      let short = cut_runes 500 license in
      if enc.is_valid short then record m { license = some (enc.to_valid short) } else m

  abbrev pub set_fee : Metadata F → Option Fee → Metadata F
  set_fee m none = m
  set_fee m (some f) = record m {
    fee_currency = some f.currency;
    fee = enc.float_of f.amount;
    fee_address = some (enc.base58 f.address);
  }

  abbrev set_frame : Metadata F → Frame → Metadata F
  set_frame m f = record m {
    frame_height = number_or f.height m.frame_height;
    frame_width = number_or f.width m.frame_width;
  }

  abbrev pub set_audio : Metadata F → Option ℕ → Metadata F
  set_audio m none = m
  set_audio m (some d) = record m { audio_duration = number_or d m.audio_duration }

  abbrev pub set_source : Metadata F → Option Source → Metadata F
  set_source m none = m
  set_source m (some s) = set_source_metadata m s

  abbrev pub set_image : Metadata F → Option Frame → Metadata F
  set_image m none = m
  set_image m (some f) = set_frame m f

  abbrev pub set_video : Metadata F → Option Video → Metadata F
  set_video m none = m
  set_video m (some v) =
      let framed = set_frame m v.frame in
      set_audio (record framed { duration = number_or v.duration m.duration }) v.audio_duration

  abbrev pub set_author : Metadata F → Text → Metadata F
  set_author m author = record m { author = text_or author m.author }

  abbrev pub typed : Metadata F → Text → Metadata F
  typed m t = record m { claim_type = some t }

  abbrev set_release : Metadata F → ℕ → Metadata F
  set_release m t = record m { release_time = number_or t m.release_time }

  unfoldable pub set_stream_metadata : Metadata F → Stream → Metadata F
  unfolding set_license set_source_metadata
  set_stream_metadata m s =
      let authored = set_author (typed m (text "stream")) s.author in
      let licensed = set_license authored s.license in
      let sourced = set_source (set_fee licensed s.fee) s.source in
      set_audio (set_video (set_image (set_release sourced s.release_time) s.image) s.video)
        s.audio_duration

  abbrev set_list : Metadata F → ClaimList → Metadata F
  set_list m l = record m {
    has_claim_list = some true;
    list_type = some l.list_type;
    claim_id_list = some (map hex_encode l.claim_hashes);
  }

  abbrev pub set_featured : Metadata F → Option ClaimList → Metadata F
  set_featured m none = m
  set_featured m (some l) = set_list m l

  abbrev pub set_email : Metadata F → Text → Metadata F
  set_email m e = record m { email = text_if e (shorten e) m.email }

  -- The cover of a channel is treated as the source of a stream is.
  unfoldable pub set_channel_metadata : Metadata F → Channel → Metadata F
  unfolding shorten set_source_metadata
  set_channel_metadata m c =
      set_featured (set_email (set_source (typed m (text "channel")) c.cover) c.email) c.featured

  unfoldable pub set_collection_metadata : Metadata F → ClaimList → Metadata F
  set_collection_metadata m l = set_list (typed m (text "claimlist")) l

  abbrev pub set_repost : Metadata F → Option Text → Metadata F
  set_repost m none = m
  set_repost m (some hash) = record (typed m (text "claimreference")) {
    claim_reference = text_if hash (hex_encode (reverse_bytes hash)) m.claim_reference;
  }

  abbrev max_tag_length : ℕ
  max_tag_length = 255

  unfoldable pub cut_tag : Text → Text
  cut_tag tag = if ltb max_tag_length (length tag) then take max_tag_length tag else tag

  abbrev pub mature : Metadata F → Text → Metadata F
  mature m tag = ite (text_discrete tag (text "mature")) (record m { is_nsfw = true }) m

  abbrev pub first_language : Option Text → List Text → Option Text
  first_language own [] = own
  first_language own (l ∷ ls) = some l

  abbrev pub set_described : Metadata F → Message → Metadata F
  set_described m h = record m {
    title = some h.title;
    description = text_or h.description m.description;
    thumbnail_url = text_or h.thumbnail_url m.thumbnail_url;
  }

  abbrev pub set_stream : Metadata F → Option Stream → Metadata F
  set_stream m none = m
  set_stream m (some s) = set_stream_metadata m s

  abbrev pub set_channel : Metadata F → Option Channel → Metadata F
  set_channel m none = m
  set_channel m (some c) = set_channel_metadata m c

  abbrev pub set_collection : Metadata F → Option ClaimList → Metadata F
  set_collection m none = m
  set_collection m (some l) = set_collection_metadata m l

  -- The columns that are set once the tags are.
  abbrev pub set_kinds : Metadata F → Message → Metadata F
  set_kinds m h =
      let spoken = record m { language = first_language m.language h.languages } in
      set_repost (set_collection (set_channel (set_stream spoken h.stream) h.channel) h.collection)
        h.repost

  module _ {S : Type 0} (db : TagStore S) where
    -- A tag that cannot be saved or found ends the loop without an error; to find none at all is a
    -- nil pointer.
    unfoldable pub set_tags :
        (claim_id : Text) → Metadata F → List Text → S → Go ClaimError (Metadata F × S)
    unfolding cut_tag
    set_tags claim_id m [] s = ok (m, s)
    set_tags claim_id m (long ∷ tags) s =
        let tag = cut_tag long in
        let m' = mature m tag in
        elim (db.put_tag s tag) [
          | none ↦ ok (m', s)
          | some (put_id, s1) ↦
              let known : Option ℕ = if put_id == 0 then db.get_tag s1 tag else some put_id in
              elim known [
                | none ↦ panic
                | some id ↦
                    if id == 0 then ok (m', s1) else elim (db.put_claim_tag s1 claim_id id) [
                      | none ↦ err database_error
                      | some s2 ↦ set_tags claim_id m' tags s2
                    ]
              ]
        ]

    -- The deletions of resetMetadata, after its columns.
    abbrev pub delete_all : Text → S → Go ClaimError S
    delete_all claim_id s = elim (db.delete_lists s claim_id) [
      | none ↦ err database_error
      | some s1 ↦ elim (db.delete_tags s1 claim_id) [ none ↦ err database_error | some s2 ↦ ok s2 ]
    ]

    unfoldable pub set_metadata_info :
        (claim_id : Text) → Message → Metadata F → S → Go ClaimError (Metadata F × S)
    unfolding set_tags
    set_metadata_info claim_id h m s = delete_all claim_id s >>= λ s1.
        set_tags claim_id (set_described (reset_metadata m) h) h.tags s1 >>= λ r.
        ok (set_kinds r.0 h, r.1)
