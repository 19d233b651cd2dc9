-- ===== src/Tests/Addresses.antt =====
-- The addresses of a transaction on a small database.
use chainquery.Processing.Addresses.{
  AddressIds, AddressStore, vin_address, note_addresses, note_all, addresses_of_vin,
  create_tx_address_if_not_exist, create_update_vin_addresses,
}
use chainquery.Processing.Addresses.Links.{KeepsLinks, Recorded, vin_addresses-Recorded}
use chainquery.Processing.Inputs.{JsonVin, OutputRow}
use chainquery.Processing.Graph.{update}
use chainquery.Prelude.{ℕ, ◌≡◌, refl, sym, ap, Bool, true, false, none, some, [], ◌∷◌}
use chainquery.Prelude.Text.{Text, text}
use chainquery.Lbrycrd.Address.{Btcutil}

abbrev no_btcutil : Btcutil
no_btcutil = record {
  new_address_pub_key = λ _ _. none;
  new_address_pub_key_hash = λ _ _. none;
  new_address_script_hash_from_hash = λ _ _. none;
  new_address_witness_pub_key_hash = λ _ _. none;
  new_address_witness_script_hash = λ _ _. none;
  extract_pk_script_addrs = λ _ _. [];
  is_pay_to_witness_pub_key_hash = λ _. false;
  is_pay_to_witness_script_hash = λ _. false;
}

abbrev source_row : OutputRow ℕ
source_row = record {
  id = 1;
  value = 25;
  address_list = some (text "l");
  output_type = text "pubkeyhash";
  script_pub_key_hex = [];
  is_spent = false;
  spent_by_input_id = none;
}

-- The addresses are stored with the key 4, and none can be added. The state tells whether the link is
-- there.
abbrev address_store : AddressStore ℕ
address_store = record {
  State = Bool;
  decode_addresses = λ l. some (text "addr" ∷ []);
  get_output = λ s h n. some source_row;
  get_address = λ s a. some (record { id = 4; address = a; first_seen = none });
  put_address = λ s row. none;
  get_tx_address = λ s tx id. s;
  put_tx_address = λ s tx id. some true;
}

some-injective : {A : Type 0} (a b : A) → some a ≡ some b → a ≡ b
some-injective a b e = cc

address_store-KeepsLinks : KeepsLinks address_store
address_store-KeepsLinks = record {
  stores_link = λ s s' tx id e. sym (some-injective true s' e);
  keeps_link = λ s s' tx id tx' id' e h. sym (some-injective true s' e);
  keeps_by_address = λ s row r tx id e h. absurd (cc);
  finds_address = λ s a row e.
      ap (λ x. x.address)
        (sym (some-injective (record { id = 4; address = a; first_seen = none }) row e));
  stores_address = λ s row r own e. absurd (cc);
  keeps_key = λ s row r a id own e h. absurd (cc);
  keeps_key_by_link = λ s s' tx link a id e h. h;
}

abbrev keys : Text → AddressIds
keys a = update (λ b. none) a (some 4)

abbrev a_vin : JsonVin
a_vin = record {
  coinbase = [];
  tx_id = text "t";
  vout = 0;
  script_sig = none;
  sequence = 1;
  witness = [];
}

vin_addresses-Recorded_example :
    Recorded no_btcutil
      (text "lbrycrd_main")
      address_store
      address_store-KeepsLinks
      3
      (keys (text "addr"), true)
      (text "addr")
unfolding create_update_vin_addresses note_all note_addresses addresses_of_vin vin_address
    create_tx_address_if_not_exist
vin_addresses-Recorded_example =
    vin_addresses-Recorded no_btcutil (text "lbrycrd_main") address_store address_store-KeepsLinks 3
      [] a_vin [] source_row (text "l") [] (text "addr") [] false (keys (text "addr"), true)
      (λ s. refl) refl refl refl
