-- ===== src/Processing/Transactions.antt =====
-- ProcessTx of daemon/processing/transaction.go: the row of a transaction, its addresses, its inputs and
-- outputs, and the amounts of its addresses. The workers for inputs and outputs are given by the order
-- in which they finish their jobs, one at a time; the keys of the map of amounts by the order in which
-- `range` takes them.
pub mod Done
pub mod Missing
use chainquery.Processing.Amounts.{TxDebitCredits, AddrDebitCredits, new_tx_debit_credits}
use chainquery.Processing.Errors.{MissingSourceOutput}
use chainquery.Processing.Turns.{in_turn}
use chainquery.Processing.Inputs.{
  JsonVin, InputRow, OutputRow, AddressRow, VinStore, VinError, missing_source_output, process_vin,
}
use chainquery.Processing.Addresses.{
  AddressColumns, AddressStore, create_update_vout_addresses, create_update_vin_addresses,
}
use chainquery.Processing.Outputs.{JsonVout, TxInfo, VoutStore, VoutError, process_vout}
use chainquery.Processing.Claims.Metadata.{Encoding}
use chainquery.Processing.Claims.Scripts.{ClaimStore, Decoders}
use chainquery.Prelude.Go.{or_err, map_err, Go, ◌>>=◌, ok, err, panic}
use chainquery.Prelude.{ℕ, suc, Bool, Option, none, some, List, [], ◌∷◌, map, if◌then◌else◌, length}
use chainquery.Prelude.Text.{Text}
use chainquery.Lbrycrd.Outpoint.{Hashes}
use chainquery.Lbrycrd.Address.{Btcutil}
use chainquery.Lbrycrd.Script.Purchase.{Protobuf}

pub record JsonTx (F : Type 0) : Type 0 where
  pub tx_id : Text
  pub version : ℕ
  pub size : ℕ
  pub lock_time : ℕ
  pub vin : List JsonVin
  pub vout : List (JsonVout F)
  pub block_hash : Text
  pub time : ℕ
  pub block_time : ℕ

pub record TransactionRow (F : Type 0) : Type 0 where
  pub id : ℕ
  pub block_hash_id : Option Text
  pub input_count : ℕ
  pub output_count : ℕ
  pub value : F
  pub transaction_time : Option ℕ
  pub transaction_size : ℕ
  pub hash : Text
  pub version : ℕ
  pub lock_time : ℕ
  pub created_time : ℕ

-- The tables; `set_amounts` stores the amounts of an address in a transaction.
pub record TxStore (F : Type 0) : Type 1 where
  pub claims : ClaimStore F
  pub outputs : VoutStore claims
  pub decode_addresses : Text → Option (List Text)
  pub get_source : claims.State → Text → ℕ → Option (OutputRow F)
  pub put_source : claims.State → OutputRow F → Option claims.State
  pub get_input : claims.State → Text → Bool → Text → ℕ → Option ℕ
  pub put_input : claims.State → InputRow F → Option (ℕ × claims.State)
  pub get_address : claims.State → Text → Option AddressColumns
  pub put_address : claims.State → AddressColumns → Option (ℕ × claims.State)
  pub get_tx_address : claims.State → ℕ → ℕ → Bool
  pub put_tx_address : claims.State → ℕ → ℕ → Option claims.State
  pub find_transaction : claims.State → Text → Option (TransactionRow F)
  pub update_transaction : claims.State → TransactionRow F → Option claims.State
  pub insert_transaction : claims.State → TransactionRow F → Option (ℕ × claims.State)
  pub set_amounts : claims.State → ℕ → ℕ → AddrDebitCredits F → Option claims.State

pub data TxFault : Type 0 where
  save_failed no_address amounts_failed : TxFault
  missing_output : MissingSourceOutput → TxFault
  vout_address_error vin_address_error vin_error : VinError → TxFault
  vout_error : VoutError → TxFault

-- enrichMissingSourceOutput of the error of the inputs' addresses.
abbrev pub enriched : Text → ℕ → VinError → TxFault
enriched tx_id block_height (missing_source_output prevout n) =
    missing_output (record {
      prevout_tx_id = prevout;
      tx_id = tx_id;
      prevout_n = n;
      block_height = block_height;
    })
enriched tx_id block_height other = vin_address_error other

-- The jobs of queueVinJobs, with their indices.
abbrev pub queue_vin_jobs : ℕ → List JsonVin → List (ℕ × JsonVin)
queue_vin_jobs n [] = []
queue_vin_jobs n (v ∷ vs) = (n, v) ∷ queue_vin_jobs (suc n) vs

module _ {F : Type 0} (zero_amount : F) (plus : F → F → F) (amount_of : Option F → F)
    (hash : Hashes) (btcutil : Btcutil) (chain : Text) (pb : Protobuf) (enc : Encoding F)
    (dec : Decoders) (db : TxStore F) where
  abbrev pub State : Type 0
  State = db.claims.State

  abbrev address_row : Option AddressColumns → Option AddressRow
  address_row none = none
  address_row (some a) = some (record { id = a.id; address = a.address })

  abbrev pub vins : VinStore F
  vins = record {
    State = State;
    decode_addresses = db.decode_addresses;
    get_input = db.get_input;
    get_output = db.get_source;
    get_address = λ s a. address_row (db.get_address s a);
    put_input = db.put_input;
    put_output = db.put_source;
    has_tx_address = db.get_tx_address;
  }

  abbrev pub addresses : AddressStore F
  addresses = record {
    State = State;
    decode_addresses = db.decode_addresses;
    get_output = db.get_source;
    get_address = db.get_address;
    put_address = db.put_address;
    get_tx_address = db.get_tx_address;
    put_tx_address = db.put_tx_address;
  }

  abbrev pub sum_of : F → List (JsonVout F) → F
  sum_of sum [] = sum
  sum_of sum (v ∷ vs) = sum_of (plus sum v.value) vs

  abbrev pub row_or_new : Option (TransactionRow F) → TransactionRow F
  row_or_new (some r) = r
  row_or_new none = record {
    id = 0;
    block_hash_id = none;
    input_count = 0;
    output_count = 0;
    value = zero_amount;
    transaction_time = none;
    transaction_size = 0;
    hash = [];
    version = 0;
    lock_time = 0;
    created_time = 0;
  }

  abbrev pub transaction_row : JsonTx F → Option (TransactionRow F) → TransactionRow F
  transaction_row tx found = record (row_or_new found) {
    block_hash_id = some tx.block_hash;
    input_count = length tx.vin;
    output_count = length tx.vout;
    value = sum_of zero_amount tx.vout;
    transaction_time = some tx.time;
    transaction_size = tx.size;
    hash = tx.tx_id;
    version = tx.version;
    lock_time = tx.lock_time;
    created_time = tx.block_time;
  }

  -- The stored row is updated, or a new one is inserted, which gets its key.
  unfoldable pub save_update_transaction : JsonTx F → State → Go TxFault (TransactionRow F × State)
  save_update_transaction tx s =
      let row = transaction_row tx (db.find_transaction s tx.tx_id) in
      elim (db.find_transaction s tx.tx_id) [
        | none ↦ or_err save_failed (db.insert_transaction s row) >>= λ r.
            ok (record row { id = r.0 }, r.1)
        | some stored ↦ or_err save_failed (db.update_transaction s row) >>= λ s'. ok (row, s')
      ]

  abbrev pub info_of : TransactionRow F → TxInfo
  info_of row = record {
    id = row.id;
    hash = row.hash;
    block_hash_id = row.block_hash_id;
    transaction_time = row.transaction_time;
  }

  -- The jobs in the order in which they are finished; the first error is returned once all are.
  unfoldable pub save_update_inputs :
      TxInfo → List (ℕ × JsonVin) → TxDebitCredits F → State → Go TxFault (TxDebitCredits F × State)
  save_update_inputs tx [] dcs s = ok (dcs, s)
  save_update_inputs tx ((n, v) ∷ jobs) dcs s =
      map_err vin_error (process_vin btcutil chain zero_amount plus vins tx.id tx.hash v n dcs s)
      >>= λ r. save_update_inputs tx jobs r.0 r.1

  unfoldable pub save_update_outputs :
      TxInfo
      → ℕ
      → List (JsonVout F)
      → TxDebitCredits F
      → State
      → Go TxFault (TxDebitCredits F × State)
  save_update_outputs tx block_height [] dcs s = ok (dcs, s)
  save_update_outputs tx block_height (v ∷ jobs) dcs s =
      map_err vout_error (
        process_vout zero_amount plus amount_of hash btcutil chain pb enc dec db.claims db.outputs
          tx v block_height dcs s)
      >>= λ r. save_update_outputs tx block_height jobs r.0 r.1

  -- An address that is not linked with the transaction is a nil dereference.
  abbrev pub set_amounts_of :
      ℕ → AddrDebitCredits F → Option AddressColumns → State → Go TxFault State
  set_amounts_of tx_id dc none s = err no_address
  set_amounts_of tx_id dc (some a) s =
      if db.get_tx_address s tx_id a.id
      then or_err amounts_failed (db.set_amounts s tx_id a.id dc)
      else panic

  abbrev pub set_entry : ℕ → Text → Option (AddrDebitCredits F) → State → Go TxFault State
  set_entry tx_id a none s = ok s
  set_entry tx_id a (some dc) s = set_amounts_of tx_id dc (db.get_address s a) s

  unfoldable pub set_send_receive : ℕ → TxDebitCredits F → List Text → State → Go TxFault State
  set_send_receive tx_id dcs [] s = ok s
  set_send_receive tx_id dcs (a ∷ keys) s =
      set_entry tx_id a (dcs a) s >>= λ s'. set_send_receive tx_id dcs keys s'

  unfoldable pub process_tx :
      JsonTx F
      → (block_time block_height : ℕ) (vin_turns vout_turns : List ℕ) → (keys : List Text) → State
      → Go TxFault State
  unfolding save_update_transaction save_update_inputs save_update_outputs set_send_receive
  process_tx tx block_time block_height vin_turns vout_turns keys s =
      let done_vins = in_turn vin_turns (queue_vin_jobs 0 tx.vin) in
      let done_vouts = in_turn vout_turns tx.vout in
      save_update_transaction tx s >>= λ saved.
      map_err vout_address_error (
        create_update_vout_addresses btcutil chain addresses saved.0.id
          (map (λ v. v.script) tx.vout) block_time saved.1)
      >>= λ out.
          map_err (enriched tx.tx_id block_height)
            (create_update_vin_addresses btcutil chain addresses saved.0.id tx.vin out.1)
          >>= λ in_.
              save_update_inputs (info_of saved.0) done_vins new_tx_debit_credits in_.1
              >>= λ debited.
                  save_update_outputs (info_of saved.0) block_height done_vouts debited.0 debited.1
                  >>= λ credited. set_send_receive saved.0.id credited.0 keys credited.1
