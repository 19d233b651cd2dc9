-- ===== src/Processing/Claims/Bounds.antt =====
-- The lengths of the texts that a claim's row takes from its message.
use chainquery.Processing.Claims.Metadata.{
  delete_all, set_described, reset_metadata, ClaimError, set_collection, cut_tag, first_language,
  mature, set_channel, set_collection_metadata, set_repost, set_stream, Metadata, Encoding,
  TagStore, text_if, shorten, cut_runes, set_source_metadata, set_license, set_fee, set_audio,
  set_source, set_image, set_video, set_author, typed, set_stream_metadata, set_featured, set_email,
  set_channel_metadata, set_tags, set_kinds, set_metadata_info,
}
use chainquery.Prelude.Text.{text_discrete, Text, text}
use chainquery.Prelude.Go.{err, panic, ◌>>=◌, Go, ok}
use chainquery.Prelude.{
  ℕ, zero, suc, ◌≤◌, ◌≡◌, subst, inl, inr, ite, Bool, true, false, Option, none, some, List, [],
  ◌∷◌, arith, ltb, ◌==◌, if◌then◌else◌, Bool-cases, length, take, length-append,
}
use chainquery.Processing.Claims.Message.{
  Source, Fee, Frame, Video, ClaimList, Stream, Channel, Message,
}

-- A text that is set has at most `n` bytes, or runes, by the measure.
abbrev AtMost : (Text → ℕ) → ℕ → Option Text → Type 0
AtMost size n none = Unit
AtMost size n (some t) = size t ≤ n

length-take-le : (n : ℕ) {A : Type 0} (xs : List A) → length (take n xs) ≤ n
length-take-le zero xs = omega arith
length-take-le (suc n) [] = omega arith
length-take-le (suc n) (x ∷ xs) = let rest = length-take-le n xs in omega arith

le-ltb : (a b : ℕ) → ltb a b ≡ false → b ≤ a
le-ltb a b e = ground arith

length-shorten : (t : Text) → length (shorten t) ≤ 255
unfolding shorten
length-shorten t =
    let cut = length-take-le 252 t in
    let size = length-append (take 252 t) (text "...") in
    elim (Bool-cases (ltb 255 (length t))) [
      | inl b ↦ rw b (omega arith)
      | inr b ↦ rw b (le-ltb 255 (length t) b)
    ]

text_if-AtMost :
    (size : Text → ℕ) (n : ℕ) (t value : Text) (own : Option Text)
    → size value ≤ n
    → AtMost size n own
    → AtMost size n (text_if t value own)
text_if-AtMost size n [] value own l v = v
text_if-AtMost size n (c ∷ t) value own l v = l

module _ {F : Type 0} (enc : Encoding F)
    (runes_kept : (rs : List ℕ) → length (enc.runes (enc.of_runes rs)) ≡ length rs)
    (valid_kept : (t : Text) → enc.is_valid t ≡ true → enc.to_valid t ≡ t) where
  abbrev rune_count : Text → ℕ
  rune_count t = length (enc.runes t)

  -- The bounds of the columns.
  abbrev pub IsWithin : Metadata F → Type 0
  IsWithin m =
      AtMost length 255 m.source_url
      × AtMost length 255 m.email
      × AtMost rune_count 254 m.source_media_type
      × AtMost rune_count 500 m.license

  cut-rune_count : (n : ℕ) (t : Text) → rune_count (cut_runes enc n t) ≤ n
  unfolding cut_runes
  cut-rune_count n t =
      let kept = runes_kept (take n (enc.runes t)) in
      let cut = length-take-le n (enc.runes t) in
      elim (Bool-cases (ltb n (length (enc.runes t)))) [
        | inl b ↦ rw b (omega arith)
        | inr b ↦ rw b (le-ltb n (length (enc.runes t)) b)
      ]

  source-IsWithin :
      (m : Metadata F) (s : Option Source) → IsWithin m → IsWithin (set_source enc m s)
  unfolding set_source_metadata
  source-IsWithin m none v = v
  source-IsWithin m (some s) (u, e, t, l) = (
    text_if-AtMost length 255 s.url (shorten s.url) m.source_url (length-shorten s.url) u,
    e,
    text_if-AtMost rune_count 254 s.media_type (cut_runes enc 254 s.media_type) m.source_media_type
        (cut-rune_count 254 s.media_type) t,
    l,
  )

  license-IsWithin :
      (m : Metadata F) (license : Text) → IsWithin m → IsWithin (set_license enc m license)
  unfolding set_license
  license-IsWithin m license (u, e, t, l) =
      let short = cut_runes enc 500 license in
      let cut = cut-rune_count 500 license in
      elim (Bool-cases (enc.is_valid short)) [
        | inl b ↦ rw b (u, e, t, rw (valid_kept short b) cut)
        | inr b ↦ rw b (u, e, t, l)
      ]

  fee-IsWithin : (m : Metadata F) (f : Option Fee) → IsWithin m → IsWithin (set_fee enc m f)
  fee-IsWithin m none v = v
  fee-IsWithin m (some f) v = v

  audio-IsWithin : (m : Metadata F) (d : Option ℕ) → IsWithin m → IsWithin (set_audio enc m d)
  audio-IsWithin m none v = v
  audio-IsWithin m (some d) v = v

  image-IsWithin : (m : Metadata F) (f : Option Frame) → IsWithin m → IsWithin (set_image enc m f)
  image-IsWithin m none v = v
  image-IsWithin m (some f) v = v

  video-IsWithin : (m : Metadata F) (d : Option Video) → IsWithin m → IsWithin (set_video enc m d)
  video-IsWithin m none v = v
  video-IsWithin m (some d) v = audio-IsWithin _ d.audio_duration v

  featured-IsWithin :
      (m : Metadata F) (l : Option ClaimList) → IsWithin m → IsWithin (set_featured enc m l)
  featured-IsWithin m none v = v
  featured-IsWithin m (some l) v = v

  stream-IsWithin :
      (m : Metadata F) (s : Stream) → IsWithin m → IsWithin (set_stream_metadata enc m s)
  unfolding set_stream_metadata
  stream-IsWithin m s v =
      let licensed =
        license-IsWithin (set_author enc (typed enc m (text "stream")) s.author) s.license v in
      let sourced = source-IsWithin _ s.source (fee-IsWithin _ s.fee licensed) in
      audio-IsWithin _ s.audio_duration
        (video-IsWithin _ s.video (image-IsWithin _ s.image sourced))

  email-IsWithin : (m : Metadata F) (e : Text) → IsWithin m → IsWithin (set_email enc m e)
  email-IsWithin m e (u, f, t, l) =
      (u, text_if-AtMost length 255 e (shorten e) m.email (length-shorten e) f, t, l)

  channel-IsWithin :
      (m : Metadata F) (c : Channel) → IsWithin m → IsWithin (set_channel_metadata enc m c)
  unfolding set_channel_metadata
  channel-IsWithin m c v = featured-IsWithin _ c.featured (
      email-IsWithin (set_source enc (typed enc m (text "channel")) c.cover) c.email
        (source-IsWithin (typed enc m (text "channel")) c.cover v))

  stream_option-IsWithin :
      (m : Metadata F) (o : Option Stream) → IsWithin m → IsWithin (set_stream enc m o)
  stream_option-IsWithin m none v = v
  stream_option-IsWithin m (some x) v = stream-IsWithin m x v

  channel_option-IsWithin :
      (m : Metadata F) (o : Option Channel) → IsWithin m → IsWithin (set_channel enc m o)
  channel_option-IsWithin m none v = v
  channel_option-IsWithin m (some x) v = channel-IsWithin m x v

  collection_option-IsWithin :
      (m : Metadata F) (o : Option ClaimList) → IsWithin m → IsWithin (set_collection enc m o)
  unfolding set_collection_metadata
  collection_option-IsWithin m none v = v
  collection_option-IsWithin m (some x) v = v

  repost-IsWithin : (m : Metadata F) (o : Option Text) → IsWithin m → IsWithin (set_repost enc m o)
  repost-IsWithin m none v = v
  repost-IsWithin m (some x) v = v

  kinds-IsWithin : (m : Metadata F) (h : Message) → IsWithin m → IsWithin (set_kinds enc m h)
  kinds-IsWithin m h v =
      let spoken = record m { language = first_language enc m.language h.languages } in
      let streamed = set_stream enc spoken h.stream in
      let channelled = set_channel enc streamed h.channel in
      repost-IsWithin (set_collection enc channelled h.collection) h.repost (
        collection_option-IsWithin channelled h.collection
          (channel_option-IsWithin streamed h.channel (stream_option-IsWithin spoken h.stream v)))

  mature-IsWithin : (m : Metadata F) (tag : Text) → IsWithin m → IsWithin (mature enc m tag)
  mature-IsWithin m tag v =
      elim (text_discrete tag (text "mature"))
        as (λ d. IsWithin (ite d (record m { is_nsfw = true }) m)) [ yes p ↦ v | no p ↦ v ]

  module _ {S : Type 0} (db : TagStore S) where
    -- What holds of the columns where there is no error.
    abbrev OnOk : Go ClaimError (Metadata F × S) → Type 0
    OnOk (ok r) = IsWithin r.0
    OnOk (err e) = Unit
    OnOk panic = Unit

    on_option :
        {A : Type 0} (o : Option A) (failure : Go ClaimError (Metadata F × S))
        (next : A → Go ClaimError (Metadata F × S))
        → OnOk failure
        → ((a : A) → OnOk (next a))
        → OnOk (elim o [ none ↦ failure | some a ↦ next a ])
    on_option none failure next p q = p
    on_option (some a) failure next p q = q a

    on_if :
        (b : Bool) (x y : Go ClaimError (Metadata F × S))
        → OnOk x
        → OnOk y
        → OnOk (if b then x else y)
    on_if true x y p q = p
    on_if false x y p q = q

    on_bind :
        {A : Type 0} (x : Go ClaimError A) (next : A → Go ClaimError (Metadata F × S))
        → ((a : A) → OnOk (next a))
        → OnOk (x >>= next)
    on_bind (ok a) next q = q a
    on_bind (err e) next q = tt
    on_bind panic next q = tt

    tags-OnOk :
        (claim_id : Text) (m : Metadata F) (tags : List Text) (s : S)
        → IsWithin m
        → OnOk (set_tags enc db claim_id m tags s)
    unfolding set_tags
    tags-OnOk claim_id m [] s v = v
    tags-OnOk claim_id m (long ∷ tags) s v =
        let tag = cut_tag enc long in
        let m' = mature enc m tag in
        let v' = mature-IsWithin m tag v in
        on_option (db.put_tag s tag) _ _ v' (λ put.
          on_option (if put.0 == 0 then db.get_tag put.1 tag else some put.0) _ _ tt (λ id.
            on_if (id == 0) (ok (m', put.1)) _ v' (
              on_option (db.put_claim_tag put.1 claim_id id) _ _ tt
                (λ s2. tags-OnOk claim_id m' tags s2 v'))))

    on_kinds :
        (h : Message) (x : Go ClaimError (Metadata F × S))
        → OnOk x
        → OnOk (x >>= λ r. ok (set_kinds enc r.0 h, r.1))
    on_kinds h (ok r) v = kinds-IsWithin r.0 h v
    on_kinds h (err e) v = tt
    on_kinds h panic v = tt

    -- Let making a string of runes keep their number, and let a valid string be unchanged by making
    -- it valid. When the metadata of a claim is set without error, the URL of the source and the
    -- email have at most 255 bytes, the media type at most 254 runes, and the license at most 500
    -- runes.
    pub metadata-IsWithin :
        (claim_id : Text) (h : Message) (m m' : Metadata F) (s s' : S)
        → set_metadata_info enc db claim_id h m s ≡ ok (m', s')
        → IsWithin m'
    unfolding set_metadata_info reset_metadata
    metadata-IsWithin claim_id h m m' s s' e =
        let described = set_described enc (reset_metadata enc m) h in
        subst OnOk e (
          on_bind (delete_all enc db claim_id s) _ (λ s1.
            on_kinds h (set_tags enc db claim_id described h.tags s1)
              (tags-OnOk claim_id described h.tags s1 (tt, tt, tt, tt))))
