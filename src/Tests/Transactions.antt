-- ===== src/Tests/Transactions.antt =====
-- A transaction with one input and one output, and an output with a claim, on small tables.
use chainquery.Processing.Inputs.{AddressRow}
use chainquery.Processing.Transactions.Done.{Saved}
use chainquery.Tests.Claims.{
  a_decoded, bytewise, hash, claim_store, decoders, btcutil, source_row, an_input,
}
use chainquery.Processing.Outputs.Linked.{claim_output_linked}
use chainquery.Processing.Amounts.{add, new_tx_debit_credits, TxDebitCredits}
use chainquery.Prelude.Go.{index, slice, slice_from, ok}
use chainquery.Processing.Claims.Scripts.{ClaimRow, process_claim_name_script}
use chainquery.Lbrycrd.Script.{get_pub_key_script_from_claim_pks, parse_claim_name_script}
use chainquery.Lbrycrd.Hex.{hex_decode, Bytes, hex_encode}
use chainquery.Lbrycrd.Address.{Btcutil, get_address_from_public_key_script, get_chain_params}
use chainquery.Processing.Outputs.{output_of, VoutRow, TxInfo, process_vout, JsonVout, VoutStore}
use chainquery.Processing.Claims.Outputs.{Saves, process_as_claim}
use chainquery.Util.Bytes.{reverse_bytes}
use chainquery.Lbrycrd.Outpoint.{claim_id_from_outpoint}
use chainquery.Processing.Addresses.{get_first_address_from_vout}
use chainquery.Prelude.Text.{text_discrete, Text, text}
use chainquery.Lbrycrd.Script.Build.{claim_name_script}
use chainquery.Processing.Transactions.{info_of, TransactionRow, JsonTx, TxStore, process_tx}
use chainquery.Processing.Transactions.Missing.{missing_source_never_ok}
use chainquery.Prelude.{
  ℕ, suc, ◌+◌, ◌≡◌, refl, ◌≢◌, ◌⊎◌, true, Option, none, some, List, [], ◌∷◌, arith,
}
use chainquery.Lbrycrd.Script.Purchase.{Protobuf}

abbrev pb : Protobuf
pb = record { Purchase = Text; unmarshal = λ b. some b; get_claim_hash = λ b. b }

abbrev vout_store : VoutStore claim_store
vout_store = record {
  marshal = λ l. text "list";
  get_output = λ s h n. none;
  put_output = λ s row. some (5, suc s);
  get_address = λ s a. some (record { id = 6; address = a });
  has_tx_address = λ s tx a. true;
  get_purchase = λ s h n c. none;
  put_purchase = λ s row. some s;
}

abbrev tx_store : TxStore ℕ
tx_store = record {
  claims = claim_store;
  outputs = vout_store;
  decode_addresses = λ l. some (text "addr" ∷ []);
  get_source = λ s t n. some source_row;
  put_source = λ s row. some (suc s);
  get_input = λ s h c t n. none;
  put_input = λ s row. some (8, suc s);
  get_address = λ s a. some (record { id = 6; address = a; first_seen = none });
  put_address = λ s row. some (6, s);
  get_tx_address = λ s tx a. true;
  put_tx_address = λ s tx a. some s;
  find_transaction = λ s h. none;
  update_transaction = λ s row. some s;
  insert_transaction = λ s row. some (3, s);
  set_amounts = λ s tx a dc. some (suc s);
}

abbrev paid : JsonVout ℕ
paid = record {
  n = 0;
  value = 20;
  req_sigs = 1;
  asm = [];
  script = record {
    output_type = text "pubkeyhash";
    hex = text "51";
    addresses = text "addr" ∷ [];
  };
}

abbrev spender : JsonTx ℕ
spender = record {
  tx_id = text "tx";
  version = 1;
  size = 200;
  lock_time = 0;
  vin = an_input ∷ [];
  vout = paid ∷ [];
  block_hash = text "block";
  time = 100;
  block_time = 100;
}

abbrev main : Text
main = text "lbrycrd_main"

abbrev amount : Option ℕ → ℕ
amount none = 0
amount (some n) = n

abbrev final : ℕ
final = 4

abbrev SpenderSaved : TransactionRow ℕ → Type 0
SpenderSaved row = Saved 0 ◌+◌ amount hash btcutil main pb bytewise decoders tx_store spender row

abbrev info : TransactionRow ℕ → TxInfo
info row = info_of 0 ◌+◌ amount hash btcutil main pb bytewise decoders tx_store row

abbrev without_sources : TxStore ℕ
without_sources = record tx_store { get_source = λ s t n. none }

missing_source_never_ok_example :
    process_tx 0 ◌+◌ amount hash btcutil main pb bytewise decoders without_sources spender 100 7 []
      [] [] 0
    ≢ ok 0
missing_source_never_ok_example =
    missing_source_never_ok 0 ◌+◌ amount hash btcutil main pb bytewise decoders without_sources
      spender 100 7 [] [] [] 0 0 [] an_input [] refl refl (λ t. refl)

abbrev rest : Bytes
rest = 0x51 ∷ []

abbrev known : Btcutil
known = record btcutil { extract_pk_script_addrs = λ b p. text "bAddr" ∷ [] }

abbrev claimed : JsonVout ℕ
claimed = record {
  n = 1;
  value = 20;
  req_sigs = 0;
  asm = [];
  script = record {
    output_type = text "nonstandard";
    hex = hex_encode (claim_name_script (text "name") (1 ∷ []) rest);
    addresses = [];
  };
}

abbrev tx_info : TxInfo
tx_info = record { id = 3; hash = text "00"; block_hash_id = none; transaction_time = none }

abbrev no_amounts : TxDebitCredits ℕ
no_amounts = new_tx_debit_credits

claim_output_linked_example :
    (row : VoutRow ℕ) × (address : AddressRow) × (s2 : ℕ) × (row.transaction_hash ≡ text "00")
    × (row.vout ≡ 1)
    × Saves hash known main bytewise decoders claim_store 0
        (text "0100000000")
        (text "name")
        (1 ∷ [])
        rest
        (output_of 0 ◌+◌ amount hash known main pb bytewise decoders claim_store vout_store row
          tx_info)
        9
        s2
    × ((claim_store.get_claim s2 (text "0100000000") ≡ none)
        ⊎ ((k : ClaimRow ℕ) × (key : ℕ) × (claim_store.get_claim s2 (text "0100000000") ≡ some k)
            × (vout_store.put_output s2 (record row { claim_id = some k.claim_id })
                ≡ some (key, 5))))
    × (vout_store.get_address 0 (text "bAddr") ≡ some address)
    × (add 0 ◌+◌ no_amounts (text "bAddr") 20 ≡ add 0 ◌+◌ no_amounts address.address 20)
unfolding process_vout get_first_address_from_vout text_discrete hex_decode hex_encode
    get_pub_key_script_from_claim_pks index parse_claim_name_script slice slice_from
    get_address_from_public_key_script get_chain_params claim_id_from_outpoint reverse_bytes
    process_as_claim process_claim_name_script
claim_output_linked_example =
    claim_output_linked 0 ◌+◌ amount hash known main pb bytewise decoders claim_store vout_store
      tx_info claimed 9 no_amounts (add 0 ◌+◌ no_amounts (text "bAddr") 20) 0 5 (text "name")
      (1 ∷ []) rest a_decoded (text "0100000000") b'b' (text "Addr") refl refl refl refl
      (omega arith) (omega arith) refl refl refl
