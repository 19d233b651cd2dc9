-- ===== src/Processing/Addresses.antt =====
-- daemon/processing/address.go: the addresses of a transaction's inputs and outputs get rows, the rows
-- are linked with the transaction, and their keys are collected in a map. That an address is looked up
-- with an error counts as not found.
pub mod Links
use chainquery.Processing.Inputs.{
  JsonVin, OutputRow, VinError, is_nonempty, get_address_from_non_standard_vout, script_error,
  no_source_output, missing_source_output, bad_address_list, bad_hex, no_address, put_failed,
  no_tx_address,
}
use chainquery.Processing.Graph.{update}
use chainquery.Prelude.Go.{or_err, Go, ◌>>=◌, ok, err, panic}
use chainquery.Prelude.{ℕ, ite, Bool, Option, none, some, List, [], ◌∷◌, ◌++◌, ◌==◌, if◌then◌else◌}
use chainquery.Prelude.Text.{Text, text, text_discrete}
use chainquery.Lbrycrd.Hex.{hex_decode}
use chainquery.Lbrycrd.Script.{too_many_bytes, not_claim_script}
use chainquery.Lbrycrd.Address.{Btcutil, get_address_from_public_key_script}

pub record JsonOutput : Type 0 where
  pub output_type : Text
  pub hex : Text
  pub addresses : List Text

pub record AddressColumns : Type 0 where
  pub id : ℕ
  pub address : Text
  pub first_seen : Option ℕ

-- The tables of addresses, of outputs and of the links of transactions with addresses.
pub record AddressStore (F : Type 0) : Type 1 where
  pub State : Type 0
  pub decode_addresses : Text → Option (List Text)
  pub get_output : State → Text → ℕ → Option (OutputRow F)
  pub get_address : State → Text → Option AddressColumns
  pub put_address : State → AddressColumns → Option (ℕ × State)
  pub get_tx_address : State → ℕ → ℕ → Bool
  pub put_tx_address : State → ℕ → ℕ → Option State

abbrev pub AddressIds : Type 0
AddressIds = Text → Option ℕ

-- A script that is no claim is only logged.
abbrev no_address_if_no_claim : Go VinError Text → Go VinError Text
no_address_if_no_claim (err (script_error not_claim_script)) = ok []
no_address_if_no_claim (err (script_error too_many_bytes)) = err (script_error too_many_bytes)
no_address_if_no_claim (err no_source_output) = err no_source_output
no_address_if_no_claim (err bad_address_list) = err bad_address_list
no_address_if_no_claim (err (missing_source_output t n)) = err (missing_source_output t n)
no_address_if_no_claim (err bad_hex) = err bad_hex
no_address_if_no_claim (err no_address) = err no_address
no_address_if_no_claim (err put_failed) = err put_failed
no_address_if_no_claim (err no_tx_address) = err no_tx_address
no_address_if_no_claim (ok a) = ok a
no_address_if_no_claim panic = panic

module _ (btcutil : Btcutil) (chain : Text) where
  unfoldable pub get_first_address_from_vout : JsonOutput → Go VinError Text
  unfolding get_address_from_non_standard_vout
  get_first_address_from_vout o =
      let script_address : Go VinError Text = or_err bad_hex (hex_decode o.hex) >>= λ script.
      ok (get_address_from_public_key_script btcutil chain script) in
      ite (text_discrete o.output_type (text "nonstandard"))
        (no_address_if_no_claim (get_address_from_non_standard_vout btcutil chain o.hex))
        (ite (text_discrete o.output_type (text "nulldata")) (ok []) script_address)

  module _ {F : Type 0} (db : AddressStore F) where
    open db use {
      State, decode_addresses, get_output, get_address, put_address, get_tx_address, put_tx_address,
    }

    unfoldable pub create_tx_address_if_not_exist : ℕ → ℕ → State → Go VinError State
    create_tx_address_if_not_exist tx_id address_id s =
        if get_tx_address s tx_id address_id
        then ok s
        else or_err put_failed (put_tx_address s tx_id address_id)

    -- An address whose first time is the epoch gets the block's.
    abbrev pub seen_first : ℕ → AddressColumns → State → Go VinError State
    seen_first seconds a s = elim a.first_seen [
      | none ↦ ok s
      | some t ↦
          if t == 0
          then (or_err put_failed (put_address s (record a { first_seen = some seconds }))
              >>= λ put. ok put.1)
          else ok s
    ]

    abbrev pub stored_address :
        (unknown : AddressColumns)
        → (AddressColumns → State → Go VinError State)
        → State
        → Go VinError (ℕ × State)
    stored_address unknown found s = elim (get_address s unknown.address) [
      | none ↦ or_err put_failed (put_address s unknown)
      | some a ↦ found a s >>= λ s'. ok (a.id, s')
    ]

    abbrev pub linked : ℕ → Go VinError (ℕ × State) → Go VinError (ℕ × State)
    linked tx_id stored =
        stored >>= λ r. create_tx_address_if_not_exist tx_id r.0 r.1 >>= λ s'. ok (r.0, s')

    unfoldable pub vout_address : ℕ → ℕ → Text → State → Go VinError (ℕ × State)
    unfolding create_tx_address_if_not_exist
    vout_address tx_id seconds a s = linked tx_id (
        stored_address (record { id = 0; address = a; first_seen = some seconds })
          (seen_first seconds) s)

    unfoldable pub vin_address : ℕ → Text → State → Go VinError (ℕ × State)
    unfolding create_tx_address_if_not_exist
    vin_address tx_id a s =
        linked tx_id
          (stored_address (record { id = 0; address = a; first_seen = none }) (λ found s'. ok s') s)

    -- The loop over the addresses of one output.
    unfoldable pub note_addresses :
        (Text → State → Go VinError (ℕ × State))
        → List Text
        → AddressIds × State
        → Go VinError (AddressIds × State)
    note_addresses store [] r = ok r
    note_addresses store (a ∷ rest) r =
        store a r.1 >>= λ put. note_addresses store rest (update r.0 a (some put.0), put.1)

    -- The loop over the outputs, or over the inputs.
    unfoldable pub note_all :
        {A : Type 0}
        → (A → State → Go VinError (List Text))
        → (Text → State → Go VinError (ℕ × State))
        → List A
        → AddressIds × State
        → Go VinError (AddressIds × State)
    unfolding note_addresses
    note_all addresses store [] r = ok r
    note_all addresses store (x ∷ xs) r = addresses x r.1 >>= λ found.
        note_addresses store found r >>= λ r'. note_all addresses store xs r'

    unfoldable pub addresses_of_vout : JsonOutput → State → Go VinError (List Text)
    unfolding get_first_address_from_vout
    addresses_of_vout o s = get_first_address_from_vout o >>= λ a. ok (o.addresses ++ a ∷ [])

    abbrev pub listed : List Text → Go VinError (List Text)
    listed [] = err no_address
    listed (a ∷ rest) = ok (a ∷ rest)

    -- The addresses of the output that an input spends.
    unfoldable pub addresses_of_vin : JsonVin → State → Go VinError (List Text)
    unfolding get_address_from_non_standard_vout
    addresses_of_vin v s = elim (get_output s v.tx_id v.vout) [
      | none ↦ if is_nonempty v.coinbase then ok [] else err (missing_source_output v.tx_id v.vout)
      | some o ↦ elim o.address_list [
        | none ↦ get_address_from_non_standard_vout btcutil chain o.script_pub_key_hex >>= λ a.
            ok (a ∷ [])
        | some l ↦ or_err bad_address_list (decode_addresses l) >>= λ found. listed found
      ]
    ]

    unfoldable pub create_update_vout_addresses :
        ℕ → List JsonOutput → ℕ → State → Go VinError (AddressIds × State)
    unfolding note_all addresses_of_vout vout_address
    create_update_vout_addresses tx_id outputs seconds s =
        note_all addresses_of_vout (vout_address tx_id seconds) outputs (λ a. none, s)

    unfoldable pub create_update_vin_addresses :
        ℕ → List JsonVin → State → Go VinError (AddressIds × State)
    unfolding note_all addresses_of_vin vin_address
    create_update_vin_addresses tx_id inputs s =
        note_all addresses_of_vin (vin_address tx_id) inputs (λ a. none, s)
