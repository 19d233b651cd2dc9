-- ===== src/Tests/Claims.antt =====
-- A claim's row, an output with a claim and an input, on small tables.
use chainquery.Processing.Claims.Publisher.{
  set_certificate_info, set_publisher_info, Publisher, ToBeSynced, Stake, sync_certificate,
  FirstInput, populate_first_input_info, Verified, sync_certificate-Verified,
}
use chainquery.Prelude.Go.{slice_from, slice, index}
use chainquery.Lbrycrd.Script.{
  read_value_size, read_value_and_rest, read_name_size, parse_claim_name_script,
  is_claim_name_script,
}
use chainquery.Lbrycrd.Hex.{hex_encode, hex_decode}
use chainquery.Lbrycrd.Outpoint.{put_uint32, claim_id_from_outpoint, Hashes}
use chainquery.Processing.Claims.Scripts.{
  set_source_info, update_claim_data, process_claim, save_new_claim, process_claim_name_script,
  ClaimRow, ClaimStore, Decoded, Decoders, Output,
}
use chainquery.Processing.Claims.Outputs.{process_as_claim, Saves, claim_output_saved}
use chainquery.Prelude.{ℕ, suc, ◌+◌, ◌≡◌, refl, ◌⊎◌, ite, true, false, none, some, [], ◌∷◌, arith}
use chainquery.Prelude.Text.{Text, text, text_discrete}
use chainquery.Util.Bytes.{reverse_bytes}
use chainquery.Lbrycrd.Address.{Btcutil, get_address_from_public_key_script}
use chainquery.Processing.Amounts.{subtract}
use chainquery.Processing.Inputs.{
  JsonVin, OutputRow, VinStore, source_address, write_input, spend_output, process_vin, Spends,
  process_vin-Spends,
}
use chainquery.Processing.Claims.Message.{Message}
use chainquery.Processing.Claims.Metadata.{
  Metadata, Encoding, TagStore, shorten, reset_metadata, set_channel_metadata, cut_tag, set_tags,
  set_metadata_info,
}
use chainquery.Processing.Claims.Bounds.{IsWithin, metadata-IsWithin}

-- Every byte is a rune, and every text is valid.
abbrev pub bytewise : Encoding ℕ
bytewise = record {
  runes = λ t. t;
  of_runes = λ rs. rs;
  is_valid = λ t. true;
  to_valid = λ t. t;
  base58 = λ t. t;
  float_of = λ n. n;
  zero_amount = 0;
}

abbrev tag_store : TagStore ℕ
tag_store = record {
  delete_lists = λ s id. some s;
  delete_tags = λ s id. some s;
  put_tag = λ s tag. some (suc s, suc s);
  get_tag = λ s tag. none;
  put_claim_tag = λ s id tag. some s;
}

abbrev a_channel : Message
a_channel = record {
  title = text "t";
  description = [];
  thumbnail_url = [];
  tags = text "mature" ∷ [];
  languages = text "en" ∷ [];
  stream = none;
  channel = some (record { cover = none; email = text "me"; featured = none; public_key = [] });
  collection = none;
  repost = none;
}

abbrev empty : Metadata ℕ
empty = record {
  title = none;
  description = none;
  language = none;
  author = none;
  thumbnail_url = none;
  is_nsfw = false;
  fee_currency = none;
  fee = 0;
  fee_address = none;
  license = none;
  claim_type = none;
  release_time = none;
  source_hash = none;
  source_name = none;
  source_size = none;
  source_media_type = none;
  source_url = none;
  frame_width = none;
  frame_height = none;
  duration = none;
  audio_duration = none;
  email = none;
  has_claim_list = none;
  claim_reference = none;
  list_type = none;
  claim_id_list = none;
}

abbrev older : Metadata ℕ
older = record empty { author = some (text "old"); duration = some 3; is_nsfw = true }

abbrev filled : Metadata ℕ
filled = record empty {
  title = some (text "t");
  is_nsfw = true;
  language = some (text "en");
  claim_type = some (text "channel");
  email = some (text "me");
}

metadata-IsWithin_example : IsWithin bytewise (λ rs. refl) (λ t e. refl) filled
unfolding set_metadata_info set_tags cut_tag reset_metadata set_channel_metadata shorten
    text_discrete
metadata-IsWithin_example =
    metadata-IsWithin bytewise (λ rs. refl) (λ t e. refl) tag_store (text "id") a_channel older
      filled 0 1 refl

abbrev stake : Stake Text
stake = record {
  decode_claim_hex = λ t. some t;
  outpoint_hash = λ t n. some t;
  validate =
      λ signed channel address id. (ite (text_discrete address (text "addr")) true false, false);
}

abbrev to_sync : ToBeSynced
to_sync = record {
  signed_claim_hex = text "00";
  signed_claim_address = text "addr";
  channel_hex = text "01";
  channel_claim_id = text "ch";
  first_input_tx_hash = [];
  first_input_position = 0;
}

abbrev unchecked : Publisher
unchecked = record {
  is_cert_processed = false;
  is_cert_valid = false;
  publisher_id = some (text "ch");
  publisher_sig = some (text "ff");
  certificate = none;
}

abbrev first_input : FirstInput
first_input = some (some (some (text "tx"), some 0))

sync_certificate-Verified_example :
    ((first_input ≡ none) × (sync_certificate stake first_input to_sync unchecked ≡ unchecked))
    ⊎ ((c' : ToBeSynced) × (populate_first_input_info first_input to_sync ≡ some c')
        × ((sync_certificate stake first_input to_sync unchecked).is_cert_processed ≡ true)
        × (((sync_certificate stake first_input to_sync unchecked).is_cert_valid ≡ false)
            ⊎ (((sync_certificate stake first_input to_sync unchecked).is_cert_valid ≡ true)
                × Verified stake c')))
sync_certificate-Verified_example =
    sync_certificate-Verified stake first_input to_sync unchecked refl

abbrev pub btcutil : Btcutil
btcutil = record {
  new_address_pub_key = λ _ _. none;
  new_address_pub_key_hash = λ _ _. none;
  new_address_script_hash_from_hash = λ _ _. none;
  new_address_witness_pub_key_hash = λ _ _. none;
  new_address_witness_script_hash = λ _ _. none;
  extract_pk_script_addrs = λ _ _. [];
  is_pay_to_witness_pub_key_hash = λ _. false;
  is_pay_to_witness_script_hash = λ _. false;
}

abbrev pub source_row : OutputRow ℕ
source_row = record {
  id = 1;
  value = 25;
  address_list = some (text "l");
  output_type = text "pubkeyhash";
  script_pub_key_hex = [];
  is_spent = false;
  spent_by_input_id = none;
}

-- The state is the row of the one output.
abbrev vin_store : VinStore ℕ
vin_store = record {
  State = OutputRow ℕ;
  decode_addresses = λ t. some (text "addr" ∷ []);
  get_input = λ _ _ _ _ _. none;
  get_output = λ s _ _. some s;
  get_address = λ s a. some (record { id = 6; address = a });
  put_input = λ s row. some (8, s);
  put_output = λ s o. some o;
  has_tx_address = λ _ _ _. true;
}

abbrev pub an_input : JsonVin
an_input = record {
  coinbase = [];
  tx_id = text "t";
  vout = 0;
  script_sig = some (record { asm = []; hex = [] });
  sequence = 1;
  witness = [];
}

process_vin-Spends_example :
    Spends btcutil
      (text "lbrycrd_main")
      0
      ◌+◌
      vin_store
      3
      (text "h")
      an_input
      0
      (λ _. none)
      source_row
      (subtract 0 ◌+◌ (λ _. none) (text "addr") 25)
      (record source_row { is_spent = true; spent_by_input_id = some 8 })
unfolding process_vin spend_output source_address write_input
process_vin-Spends_example =
    process_vin-Spends btcutil (text "lbrycrd_main") 0 ◌+◌ vin_store 3 (text "h") an_input 0
      (λ _. none) (subtract 0 ◌+◌ (λ _. none) (text "addr") 25) source_row
      (record source_row { is_spent = true; spent_by_input_id = some 8 }) refl refl

abbrev pub hash : Hashes
hash = record { sha256 = λ b. b; ripemd160 = λ b. b }

abbrev new_claim : ClaimRow ℕ
new_claim = record {
  claim_id = [];
  name = [];
  transaction_hash_id = none;
  vout = 0;
  transaction_time = none;
  claim_address = [];
  transaction_hash_update = none;
  vout_update = none;
  height = 0;
  bid_state = text "Accepted";
  value_as_hex = [];
  value_as_json = none;
  claim_type = 0;
  version = none;
  content_type = none;
  sd_hash = none;
  metadata = empty;
  publisher = unchecked;
}

abbrev pub a_decoded : Decoded
a_decoded = record {
  message = a_channel;
  signed = record {
    claim_id = [];
    signature = none;
    legacy_certificate = none;
    channel_key = some [];
  };
  legacy_version = none;
}

abbrev pub decoders : Decoders
decoders = record {
  decode_claim = λ b. some (some a_decoded);
  claim_json = λ t. some t;
  decode_support = λ b. some b;
  key_certificate = λ t. t;
  is_json = λ b. false;
}

-- The state counts the writes; no claim is stored.
abbrev pub claim_store : ClaimStore ℕ
claim_store = record {
  State = ℕ;
  tags = tag_store;
  new_row = new_claim;
  get_claim = λ s id. none;
  put_claim = λ s row. some (suc s);
  put_abnormal = λ s row. s;
  get_support = λ s tx n. none;
  put_support = λ s row. some s;
}

abbrev an_output : Output ℕ
an_output = record {
  id = 2;
  transaction_hash = text "00";
  vout = 1;
  value = 5;
  tx_hash = text "00";
  block_hash_id = none;
  transaction_time = none;
}

-- The row is stored, its tag is saved, and it is stored again.
claim_output_saved_example :
    (text "0100000000" ≡ text "0100000000")
    × (get_address_from_public_key_script btcutil (text "lbrycrd_main") (0x51 ∷ [])
        ≡ get_address_from_public_key_script btcutil (text "lbrycrd_main") (0x51 ∷ []))
    × Saves hash btcutil
        (text "lbrycrd_main")
        bytewise
        decoders
        claim_store
        0
        (text "0100000000")
        (text "name")
        (1 ∷ [])
        (0x51 ∷ [])
        an_output
        9
        3
unfolding process_as_claim process_claim_name_script save_new_claim process_claim update_claim_data
    set_source_info set_metadata_info set_tags cut_tag reset_metadata set_channel_metadata shorten
    text_discrete claim_id_from_outpoint put_uint32 hex_decode hex_encode reverse_bytes
    is_claim_name_script parse_claim_name_script read_name_size read_value_and_rest read_value_size
    index slice slice_from set_publisher_info set_certificate_info
claim_output_saved_example =
    claim_output_saved hash btcutil (text "lbrycrd_main") bytewise decoders claim_store 0
      (text "name") (1 ∷ []) (0x51 ∷ []) a_decoded (text "0100000000") an_output 9 0 3
      (get_address_from_public_key_script btcutil (text "lbrycrd_main") (0x51 ∷ []))
      (text "0100000000") (omega arith) (omega arith) refl refl refl
