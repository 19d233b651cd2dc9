-- ===== src/Processing/Claims/Publisher.antt =====
-- setPublisherInfo and setCertificateInfo of daemon/processing/claim.go, and certifyClaim of
-- daemon/jobs/certificatesync.go: who signed a claim, and whether the signature is still to be checked.
use chainquery.Prelude.{
  ℕ, ◌≡◌, refl, ◌⊎◌, inl, inr, Bool, true, false, not, ◌||◌, Option, none, some, [], ◌∷◌, arith,
  if◌then◌else◌, Bool-cases, Option-cases, List-cases,
}
use chainquery.Prelude.Text.{Text}
use chainquery.Lbrycrd.Hex.{hex_encode}
use chainquery.Util.Bytes.{reverse_bytes}

-- The columns of a claim's row.
pub record Publisher : Type 0 where
  pub is_cert_processed : Bool
  pub is_cert_valid : Bool
  pub publisher_id : Option Text
  pub publisher_sig : Option Text
  pub certificate : Option Text

-- What is read of the decoded claim: the id of the signing channel, the signature, whether it is a
-- legacy claim, with its certificate as JSON, and the public key of a channel. The JSON is empty
-- where it cannot be formed.
pub record Signed : Type 0 where
  pub claim_id : Text
  pub signature : Option Text
  pub legacy_certificate : Option Text
  pub channel_key : Option Text

abbrev pub is_some : {A : Type 0} → Option A → Bool
is_some none = false
is_some (some a) = true

abbrev channel_id : Signed → Text
channel_id h = elim h.legacy_certificate [
  | none ↦ hex_encode (reverse_bytes h.claim_id)
  | some legacy ↦ hex_encode h.claim_id
]

unfoldable pub set_publisher_info : Publisher → Signed → Publisher
set_publisher_info p h = elim h.signature [
  | none ↦ record p {
    is_cert_processed = true;
    is_cert_valid = false;
    publisher_id = none;
    publisher_sig = none;
  }
  | some signature ↦ record p {
    is_cert_processed = false;
    is_cert_valid = false;
    publisher_id = some (channel_id h);
    publisher_sig = some (hex_encode signature);
  }
]

-- `key_certificate` is the JSON of the certificate with a public key.
unfoldable pub set_certificate_info :
    (key_certificate : Text → Text) → Publisher → Signed → Publisher
set_certificate_info key_certificate p h = elim h.channel_key [
  | none ↦ record p { certificate = none }
  | some key ↦
      let json : Text = elim h.legacy_certificate [
        | none ↦ key_certificate key
        | some legacy ↦ legacy
      ] in
      record p { is_cert_processed = true; certificate = some json }
]

-- A claim's certificate is to be checked exactly if the claim is signed and no channel; it is not
-- valid yet; the channel's id and the signature are set if the claim is signed, and a certificate
-- if it is a channel.
publisher_columns :
    (key_certificate : Text → Text) (p : Publisher) (h : Signed)
    → let q = set_certificate_info key_certificate (set_publisher_info p h) h in
      (q.is_cert_processed ≡ (not (is_some h.signature) || is_some h.channel_key))
      × (q.is_cert_valid ≡ false)
      × (is_some q.publisher_id ≡ is_some h.signature)
      × (is_some q.publisher_sig ≡ is_some h.signature)
      × (is_some q.certificate ≡ is_some h.channel_key)
unfolding set_publisher_info set_certificate_info
publisher_columns key_certificate p h = ground arith

-- A claim whose certificate is to be checked, with the first input of its transaction.
pub record ToBeSynced : Type 0 where
  pub signed_claim_hex : Text
  pub signed_claim_address : Text
  pub channel_hex : Text
  pub channel_claim_id : Text
  pub first_input_tx_hash : Text
  pub first_input_position : ℕ

-- The calls of lbry.go: `none` is an error. The check of a signature gives its answer and whether
-- there was an error beside it.
pub record Stake (H : Type 0) : Type 0 where
  pub decode_claim_hex : Text → Option H
  pub outpoint_hash : Text → ℕ → Option Text
  pub validate : (signed channel : H) (address : Text) (channel_id : Text) → Bool × Bool

-- The answer and whether there is an error.
abbrev Certified : Type 0
Certified = Bool × Bool

unfoldable pub certify_claim : {H : Type 0} → Stake H → ToBeSynced → Certified
certify_claim stake c = elim (stake.decode_claim_hex c.signed_claim_hex) [
  | none ↦ (false, true)
  | some signed ↦ elim (stake.decode_claim_hex c.channel_hex) [
    | none ↦ (false, true)
    | some channel ↦
        let by_address = stake.validate signed channel c.signed_claim_address c.channel_claim_id in
        elim c.first_input_tx_hash [
          | [] ↦ by_address
          | x ∷ xs ↦ elim (stake.outpoint_hash (x ∷ xs) c.first_input_position) [
            | none ↦ (false, true)
            | some hash ↦
                let by_input = stake.validate signed channel hash c.channel_claim_id in
                if by_input.0 then by_input else by_address
          ]
        ]
  ]
]

-- An input's previous hash and index; the query gives `none` for an error.
abbrev pub FirstInput : Type 0
FirstInput = Option (Option (Option Text × Option ℕ))

abbrev text_value : Option Text → Text
text_value none = []
text_value (some t) = t

abbrev number_value : Option ℕ → ℕ
number_value none = 0
number_value (some n) = n

unfoldable pub populate_first_input_info : FirstInput → ToBeSynced → Option ToBeSynced
populate_first_input_info none c = none
populate_first_input_info (some none) c = some c
populate_first_input_info (some (some (prev_hash, prev_n))) c = some (record c {
  first_input_tx_hash = text_value prev_hash;
  first_input_position = number_value prev_n;
})

abbrev certified_columns : {H : Type 0} → Stake H → ToBeSynced → Publisher → Publisher
certified_columns stake c p =
    if (certify_claim stake c).0
    then record p { is_cert_processed = true; is_cert_valid = true }
    else record p { is_cert_processed = true }

-- What CertificateSync writes to a claim: nothing if its first input cannot be read. A write that
-- fails is only logged, and is not modelled.
unfoldable pub sync_certificate :
    {H : Type 0} → Stake H → FirstInput → ToBeSynced → Publisher → Publisher
sync_certificate stake input c p = elim (populate_first_input_info input c) [
  | none ↦ p
  | some c' ↦ certified_columns stake c' p
]

-- Some signature of the claim was verified with the channel's certificate: one over the address of
-- the claim, or over the first input of its transaction.
abbrev pub Verified : {H : Type 0} → Stake H → ToBeSynced → Type 0
Verified {H} stake c =
    (signed channel : H) × (address : Text) × (stake.decode_claim_hex c.signed_claim_hex
      ≡ some signed)
    × (stake.decode_claim_hex c.channel_hex ≡ some channel)
    × ((address ≡ c.signed_claim_address)
        ⊎ (stake.outpoint_hash c.first_input_tx_hash c.first_input_position ≡ some address))
    × ((stake.validate signed channel address c.channel_claim_id).0 ≡ true)

certify_claim-Verified :
    {H : Type 0} (stake : Stake H) (c : ToBeSynced)
    → (certify_claim stake c).0 ≡ true
    → Verified stake c
unfolding certify_claim
certify_claim-Verified stake c e = elim (Option-cases (stake.decode_claim_hex c.signed_claim_hex)) [
  | inl n ↦ absurd (ground arith)
  | inr (signed, d) ↦ elim (Option-cases (stake.decode_claim_hex c.channel_hex)) [
    | inl n ↦ absurd (ground arith)
    | inr (channel, d2) ↦ elim (List-cases c.first_input_tx_hash) [
      | inl n ↦ (signed, channel, c.signed_claim_address, d, d2, inl refl, ground arith)
      | inr (x, xs, n) ↦ elim (Option-cases (stake.outpoint_hash (x ∷ xs) c.first_input_position)) [
        | inl m ↦ absurd (ground arith)
        | inr (hash, m) ↦
            elim (Bool-cases (stake.validate signed channel hash c.channel_claim_id).0) [
              | inl t ↦ (signed, channel, hash, d, d2, inr (rw n m), t)
              | inr f ↦ (signed, channel, c.signed_claim_address, d, d2, inl refl, ground arith)
            ]
      ]
    ]
  ]
]

certified_columns-Verified :
    {H : Type 0} (stake : Stake H) (c : ToBeSynced) (p : Publisher)
    → p.is_cert_valid ≡ false
    → ((certified_columns stake c p).is_cert_processed ≡ true)
      × (((certified_columns stake c p).is_cert_valid ≡ false)
          ⊎ (((certified_columns stake c p).is_cert_valid ≡ true) × Verified stake c))
certified_columns-Verified stake c p e = elim (Bool-cases (certify_claim stake c).0) [
  | inl t ↦ rw t (refl, inr (refl, certify_claim-Verified stake c t))
  | inr f ↦ rw f (refl, inl e)
]

-- A claim that was not found valid before is left as it is if its first input cannot be read; else
-- it is marked as processed, and it is not valid, or a signature of the claim was verified with the
-- channel, both decoded, over the claim's address or over the outpoint of its first input.
pub sync_certificate-Verified :
    {H : Type 0} (stake : Stake H) (input : FirstInput) (c : ToBeSynced) (p : Publisher)
    → p.is_cert_valid ≡ false
    → ((input ≡ none) × (sync_certificate stake input c p ≡ p))
      ⊎ ((c' : ToBeSynced) × (populate_first_input_info input c ≡ some c')
          × ((sync_certificate stake input c p).is_cert_processed ≡ true)
          × (((sync_certificate stake input c p).is_cert_valid ≡ false)
              ⊎ (((sync_certificate stake input c p).is_cert_valid ≡ true) × Verified stake c')))
unfolding populate_first_input_info sync_certificate
sync_certificate-Verified stake none c p e = inl (refl, refl)
sync_certificate-Verified stake (some none) c p e =
    let (processed, valid) = certified_columns-Verified stake c p e in
    inr (c, refl, processed, valid)
sync_certificate-Verified stake (some (some (prev_hash, prev_n))) c p e =
    let c' : ToBeSynced = record c {
      first_input_tx_hash = text_value prev_hash;
      first_input_position = number_value prev_n;
    } in
    let (processed, valid) = certified_columns-Verified stake c' p e in
    inr (c', refl, processed, valid)
