-- ===== src/Processing/Outputs.antt =====
-- ProcessVout of daemon/processing/outpoint.go, with processScriptForClaim, processNullDataVout and
-- processPurchaseVout: an output of a transaction is stored, its amount is credited to its address,
-- and a claim or a purchase in its script is processed. Notifications are left out.
pub mod Linked
use chainquery.Processing.Amounts.{TxDebitCredits, add}
use chainquery.Processing.Addresses.{JsonOutput, get_first_address_from_vout}
use chainquery.Processing.Inputs.{AddressRow, VinError}
use chainquery.Processing.Claims.Metadata.{ClaimError, Encoding}
use chainquery.Processing.Claims.Scripts.{ClaimRow, ClaimStore, Decoders, Output}
use chainquery.Processing.Claims.Outputs.{process_as_claim}
use chainquery.Prelude.Go.{or_err, map_err, Go, ◌>>=◌, ok, err, panic}
use chainquery.Prelude.{ℕ, ite, Bool, false, Option, none, some, List, [], ◌∷◌, ◌++◌, if◌then◌else◌}
use chainquery.Prelude.Text.{Text, text, text_discrete}
use chainquery.Util.Bytes.{reverse_bytes}
use chainquery.Lbrycrd.Hex.{Bytes, hex_encode, hex_decode}
use chainquery.Lbrycrd.Outpoint.{Hashes}
use chainquery.Lbrycrd.Address.{Btcutil}
use chainquery.Lbrycrd.Script.{ScriptError, is_claim_script}
use chainquery.Lbrycrd.Script.Purchase.{
  Protobuf, PurchaseError, is_purchase_script, parse_purchase_script,
}

pub record JsonVout (F : Type 0) : Type 0 where
  pub n : ℕ
  pub value : F
  pub req_sigs : ℕ
  pub asm : Text
  pub script : JsonOutput

pub record VoutRow (F : Type 0) : Type 0 where
  pub id : ℕ
  pub transaction_id : ℕ
  pub transaction_hash : Text
  pub vout : ℕ
  pub value : Option F
  pub required_signatures : Option ℕ
  pub script_pub_key_asm : Option Text
  pub script_pub_key_hex : Option Text
  pub output_type : Option Text
  pub address_list : Option Text
  pub is_spent : Bool
  pub spent_by_input_id : Option ℕ
  pub claim_id : Option Text

-- What is read of the row of the transaction.
pub record TxInfo : Type 0 where
  pub id : ℕ
  pub hash : Text
  pub block_hash_id : Option Text
  pub transaction_time : Option ℕ

pub record PurchaseRow : Type 0 where
  pub id : ℕ
  pub claim_id : Text
  pub publisher_id : Option Text
  pub transaction_hash : Text
  pub vout : ℕ
  pub height : ℕ

-- The tables beside those of claims. Storing an output gives its key, and `marshal` is the JSON of a
-- list of texts, which cannot fail.
pub record VoutStore {F : Type 0} (db : ClaimStore F) : Type 0 where
  pub marshal : List Text → Text
  pub get_output : db.State → Text → ℕ → Option (VoutRow F)
  pub put_output : db.State → VoutRow F → Option (ℕ × db.State)
  pub get_address : db.State → Text → Option AddressRow
  pub has_tx_address : db.State → ℕ → ℕ → Bool
  pub get_purchase : db.State → (tx_hash : Text) (vout : ℕ) (claim_id : Text) → Option PurchaseRow
  pub put_purchase : db.State → PurchaseRow → Option db.State

pub data VoutError : Type 0 where
  put_failed bad_script_hex no_address_row missing_tx_address : VoutError
  script_error : ScriptError → VoutError
  address_error : VinError → VoutError
  claim_error : ClaimError → VoutError
  purchase_error : PurchaseError → VoutError

abbrev pub text_of : Option Text → Text
text_of none = []
text_of (some t) = t

-- `["` and `"]` about the one address.
abbrev pub one_address : Text → Text
one_address a = text "[" ++ 0x22 ∷ (a ++ 0x22 ∷ text "]")

module _ {F : Type 0} (zero_amount : F) (plus : F → F → F) (amount_of : Option F → F)
    (hash : Hashes) (btcutil : Btcutil) (chain : Text) (pb : Protobuf) (enc : Encoding F)
    (dec : Decoders) (db : ClaimStore F) (outs : VoutStore db) where
  open db use {State, get_claim}
  open outs use {
    marshal, get_output, put_output, get_address, has_tx_address, get_purchase, put_purchase,
  }

  abbrev pub row_or_new : Option (VoutRow F) → VoutRow F
  row_or_new (some r) = r
  row_or_new none = record {
    id = 0;
    transaction_id = 0;
    transaction_hash = [];
    vout = 0;
    value = none;
    required_signatures = none;
    script_pub_key_asm = none;
    script_pub_key_hex = none;
    output_type = none;
    address_list = none;
    is_spent = false;
    spent_by_input_id = none;
    claim_id = none;
  }

  -- The row that is stored for the output, with what lbrycrd says of it.
  abbrev pub vout_row : TxInfo → JsonVout F → State → VoutRow F
  vout_row tx v s = record (row_or_new (get_output s tx.hash v.n)) {
    transaction_id = tx.id;
    transaction_hash = tx.hash;
    vout = v.n;
    value = some v.value;
    required_signatures = some v.req_sigs;
    script_pub_key_asm = some v.asm;
    script_pub_key_hex = some v.script.hex;
    output_type = some v.script.output_type;
  }

  -- A purchase that is stored keeps its key.
  abbrev key_of : Option PurchaseRow → ℕ
  key_of none = 0
  key_of (some stored) = stored.id

  abbrev purchase_of : Option PurchaseRow → ClaimRow F → TxInfo → JsonVout F → ℕ → PurchaseRow
  purchase_of stored c tx v block_height = record {
    id = key_of stored;
    claim_id = c.claim_id;
    publisher_id = c.publisher.publisher_id;
    transaction_hash = tx.hash;
    vout = v.n;
    height = block_height;
  }

  -- A purchase of a claim that is not stored is passed over.
  unfoldable process_purchase_vout : Bytes → TxInfo → JsonVout F → ℕ → State → Go VoutError State
  process_purchase_vout script tx v block_height s =
      map_err purchase_error (parse_purchase_script pb script) >>= λ m.
      let claim_id = hex_encode (reverse_bytes (pb.get_claim_hash m)) in
      elim (get_claim s claim_id) [
        | none ↦ ok s
        | some c ↦
            let stored = get_purchase s tx.hash v.n c.claim_id in
            or_err put_failed (put_purchase s (purchase_of stored c tx v block_height))
      ]

  unfoldable process_null_data_vout : TxInfo → JsonVout F → ℕ → State → Go VoutError State
  unfolding process_purchase_vout
  process_null_data_vout tx v block_height s =
      or_err bad_script_hex (hex_decode v.script.hex) >>= λ script.
      map_err purchase_error (is_purchase_script pb script) >>= λ purchase.
      if purchase then process_purchase_vout script tx v block_height s else ok s

  abbrev pub output_of : VoutRow F → TxInfo → Output F
  output_of row tx = record {
    id = row.id;
    transaction_hash = row.transaction_hash;
    vout = row.vout;
    value = amount_of row.value;
    tx_hash = tx.hash;
    block_hash_id = tx.block_hash_id;
    transaction_time = tx.transaction_time;
  }

  -- The claim of the script, if it has one. The test for a claim script is made of every script.
  unfoldable pub process_script_for_claim :
      VoutRow F → TxInfo → ℕ → State → Go VoutError (Option Text × State)
  process_script_for_claim row tx block_height s =
      or_err bad_script_hex (hex_decode (text_of row.script_pub_key_hex)) >>= λ script.
      map_err script_error (is_claim_script script) >>= λ claim.
      let processed : Go VoutError (Option Text × State) =
        map_err claim_error (
          process_as_claim hash btcutil chain enc dec db zero_amount script (output_of row tx)
            block_height s)
        >>= λ r. ok (some r.1, r.2) in
      let claimed : Go VoutError (Option Text × State) =
        if claim then processed else ok (none, s) in
      ite (text_discrete (text_of row.output_type) (text "nonstandard")) claimed (ok (none, s))

  abbrev pub stored : VoutRow F → State → Go VoutError State
  stored row s = or_err put_failed (put_output s row) >>= λ put. ok put.1

  -- The output is stored again with the id of its claim, if that claim is stored.
  abbrev pub link_claim : VoutRow F → Option Text × State → Go VoutError State
  link_claim row (none, s) = ok s
  link_claim row (some id, s) = elim (get_claim s id) [
    | none ↦ stored row s
    | some c ↦ stored (record row { claim_id = some c.claim_id }) s
  ]

  abbrev pub claim_linked : TxInfo → ℕ → VoutRow F → State → Go VoutError State
  claim_linked tx block_height row s =
      process_script_for_claim row tx block_height s >>= link_claim row

  -- What follows once the address is looked up.
  unfoldable pub store_vout :
      TxInfo
      → JsonVout F
      → ℕ
      → VoutRow F
      → Option AddressRow
      → TxDebitCredits F
      → State
      → Go VoutError (TxDebitCredits F × State)
  unfolding process_script_for_claim
  store_vout tx v block_height row none dcs s = err no_address_row
  store_vout tx v block_height row (some a) dcs s = or_err put_failed (put_output s row) >>= λ put.
      (if has_tx_address put.1 tx.id a.id
        then claim_linked tx block_height (record row { id = put.0 }) put.1
        else err missing_tx_address)
      >>= λ s'. ok (add zero_amount plus dcs a.address v.value, s')

  -- An output without a list of addresses: the address is read from the script.
  abbrev pub script_vout :
      TxInfo
      → JsonVout F
      → ℕ
      → VoutRow F
      → TxDebitCredits F
      → Text
      → State
      → Go VoutError (TxDebitCredits F × State)
  script_vout tx v block_height row dcs [] s = stored row s >>= λ s'. ok (dcs, s')
  script_vout tx v block_height row dcs (c ∷ a) s =
      store_vout tx v block_height (record row { address_list = some (one_address (c ∷ a)) })
        (get_address s (c ∷ a)) dcs s

  abbrev pub addressed_vout :
      TxInfo
      → JsonVout F
      → ℕ
      → VoutRow F
      → TxDebitCredits F
      → List Text
      → State
      → Go VoutError (TxDebitCredits F × State)
  addressed_vout tx v block_height row dcs [] s =
      map_err address_error (get_first_address_from_vout btcutil chain v.script) >>= λ a.
      script_vout tx v block_height row dcs a s
  addressed_vout tx v block_height row dcs (a ∷ rest) s =
      store_vout tx v block_height (record row { address_list = some (marshal (a ∷ rest)) })
        (get_address s a) dcs s

  unfoldable pub process_vout :
      TxInfo → JsonVout F → ℕ → TxDebitCredits F → State → Go VoutError (TxDebitCredits F × State)
  unfolding store_vout process_null_data_vout
  process_vout tx v block_height dcs s =
      let row = vout_row tx v s in
      let null_data : Go VoutError (TxDebitCredits F × State) =
        process_null_data_vout tx v block_height s >>= λ s1. stored row s1 >>= λ s2. ok (dcs, s2) in
      ite (text_discrete v.script.output_type (text "nulldata")) null_data
        (addressed_vout tx v block_height row dcs v.script.addresses s)
