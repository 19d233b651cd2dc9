-- ===== src/Processing/Transactions/Missing.antt =====
-- ProcessTx on an input whose source output is not stored.
use chainquery.Processing.Transactions.{
  JsonTx, TxStore, vout_address_error, enriched, addresses, save_update_transaction, process_tx,
}
use chainquery.Processing.Inputs.{JsonVin, VinError, missing_source_output}
use chainquery.Processing.Addresses.{
  AddressStore, AddressIds, note_addresses, note_all, vin_address, addresses_of_vin,
  create_update_vout_addresses, create_update_vin_addresses,
}
use chainquery.Processing.Claims.Metadata.{Encoding}
use chainquery.Processing.Claims.Scripts.{Decoders}
use chainquery.Prelude.Go.{bind-ok, map_err, map_err-ok, Go, ok, err}
use chainquery.Prelude.{ℕ, ◌≡◌, refl, sym, ap, ◌∙◌, ◌≢◌, Option, none, List, [], ◌∷◌, ◌++◌, map}
use chainquery.Prelude.Text.{Text}
use chainquery.Lbrycrd.Outpoint.{Hashes}
use chainquery.Lbrycrd.Address.{Btcutil}
use chainquery.Lbrycrd.Script.Purchase.{Protobuf}

err-ne-ok : {E A : Type 0} (e : E) (a : A) → ◌≡◌ {A = Go E A} (err e) (ok a) → ⊥
err-ne-ok e a h = cc

module _ (btcutil : Btcutil) (chain : Text) {F : Type 0} (db : AddressStore F) where
  open db use {State, get_output}

  note_all-fails :
      {A : Type 0} (of : A → State → Go VinError (List Text))
      (store : Text → State → Go VinError (ℕ × State)) (before : List A) (x : A) (after : List A)
      (fault : VinError) (r r' : AddressIds × State)
      → ((s : State) → of x s ≡ err fault)
      → note_all btcutil chain db of store (before ++ x ∷ after) r ≢ ok r'
  unfolding note_all
  note_all-fails of store [] x after fault r r' fails e =
      let (found, e1, e2) = bind-ok (of x r.1) _ r' e in
      err-ne-ok fault found (sym (fails r.1) ∙ e1)
  note_all-fails of store (c ∷ before) x after fault r r' fails e =
      let (found, e1, e2) = bind-ok (of c r.1) _ r' e in
      let (r1, e3, e4) = bind-ok (note_addresses btcutil chain db store found r) _ r' e2 in
      note_all-fails of store before x after fault r1 r' fails e4

  vin_without_source :
      (v : JsonVin) (s : State)
      → v.coinbase ≡ []
      → get_output s v.tx_id v.vout ≡ none
      → addresses_of_vin btcutil chain db v s ≡ err (missing_source_output v.tx_id v.vout)
  unfolding addresses_of_vin
  vin_without_source v s c h = rw (h, c, addresses_of_vin) refl

module _ {F : Type 0} (zero_amount : F) (plus : F → F → F) (amount_of : Option F → F)
    (hash : Hashes) (btcutil : Btcutil) (chain : Text) (pb : Protobuf) (enc : Encoding F)
    (dec : Decoders) (db : TxStore F) where
  -- If an input of a transaction is no coinbase and the output it spends is never found, whatever
  -- is written, the processing of the transaction does not succeed.
  pub missing_source_never_ok :
      (tx : JsonTx F) (block_time block_height : ℕ) (vin_turns vout_turns : List ℕ)
      (keys : List Text) (s s' : db.claims.State) (before : List JsonVin) (v : JsonVin)
      (after : List JsonVin)
      → tx.vin ≡ before ++ v ∷ after
      → v.coinbase ≡ []
      → ((t : db.claims.State) → db.get_source t v.tx_id v.vout ≡ none)
      → process_tx zero_amount plus amount_of hash btcutil chain pb enc dec db tx block_time
          block_height vin_turns vout_turns keys s
        ≢ ok s'
  unfolding process_tx create_update_vin_addresses
  missing_source_never_ok tx block_time block_height vin_turns vout_turns keys s s' before v after
        has c missing e =
      let tables = addresses zero_amount plus amount_of hash btcutil chain pb enc dec db in
      let ((row, s0), e1, f1) =
        bind-ok
          (save_update_transaction zero_amount plus amount_of hash btcutil chain pb enc dec db tx s)
          _ s' e in
      let (out, e2, f2) =
        bind-ok
          (map_err vout_address_error (
            create_update_vout_addresses btcutil chain tables row.id (map (λ v. v.script) tx.vout)
              block_time s0))
          _ s' f1 in
      let created = create_update_vin_addresses btcutil chain tables row.id tx.vin out.1 in
      let (source, e3, f3) = bind-ok (map_err (enriched tx.tx_id block_height) created) _ s' f2 in
      note_all-fails btcutil chain tables (addresses_of_vin btcutil chain tables)
        (vin_address btcutil chain tables row.id) before v after
        (missing_source_output v.tx_id v.vout) (λ a. none, out.1) source
        (λ t. vin_without_source btcutil chain tables v t c (missing t))
        (ap
            (λ l.
              note_all btcutil chain tables (addresses_of_vin btcutil chain tables)
                (vin_address btcutil chain tables row.id) l (λ a. none, out.1))
            (sym has)
          ∙ map_err-ok (enriched tx.tx_id block_height) created source e3)
