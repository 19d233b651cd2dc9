-- ===== src/Processing/Transactions/Done.antt =====
-- What ProcessTx has done when it succeeds.
use chainquery.Processing.Transactions.{addresses, sum_of, TransactionRow, JsonTx, TxStore, vins}
use chainquery.Prelude.Text.{Text, text}
use chainquery.Processing.Addresses.{AddressColumns}
use chainquery.Processing.Amounts.{TxDebitCredits, AddrDebitCredits}
use chainquery.Processing.Outputs.{VoutRow, JsonVout, TxInfo}
use chainquery.Processing.Inputs.{AddressRow, JsonVin, Spends}
use chainquery.Processing.Claims.Metadata.{Encoding}
use chainquery.Processing.Claims.Scripts.{Decoders}
use chainquery.Prelude.{ℕ, ◌≡◌, ◌≢◌, ◌⊎◌, true, Option, none, some, List, [], ◌∷◌, length}
use chainquery.Processing.Outputs.Linked.{Stored}
use chainquery.Lbrycrd.Outpoint.{Hashes}
use chainquery.Lbrycrd.Address.{Btcutil}
use chainquery.Lbrycrd.Script.Purchase.{Protobuf}

module _ {F : Type 0} (zero_amount : F) (plus : F → F → F) (amount_of : Option F → F)
    (hash : Hashes) (btcutil : Btcutil) (chain : Text) (pb : Protobuf) (enc : Encoding F)
    (dec : Decoders) (db : TxStore F) where
  abbrev S : Type 0
  S = db.claims.State

  -- One input after the other, each linked with the output it spends unless it is a coinbase.
  abbrev pub InputsDone :
      TxInfo → List (ℕ × JsonVin) → TxDebitCredits F → S → TxDebitCredits F → S → Type 0
  InputsDone tx [] dcs s dcs' s' = (dcs ≡ dcs') × (s ≡ s')
  InputsDone tx ((n, v) ∷ jobs) dcs s dcs' s' =
      (dcs1 : TxDebitCredits F) × (s1 : S) × ((v.coinbase ≢ [])
        ⊎ Spends btcutil chain zero_amount plus
            (vins zero_amount plus amount_of hash btcutil chain pb enc dec db) tx.id tx.hash v n dcs
            s dcs1 s1)
      × InputsDone tx jobs dcs1 s1 dcs' s'

  -- One output after the other. One that is no null data and lists addresses credits its amount to the
  -- first of them, which is linked with the transaction.
  abbrev pub OutputsDone :
      TxInfo → ℕ → List (JsonVout F) → TxDebitCredits F → S → TxDebitCredits F → S → Type 0
  OutputsDone tx block_height [] dcs s dcs' s' = (dcs ≡ dcs') × (s ≡ s')
  OutputsDone tx block_height (v ∷ jobs) dcs s dcs' s' =
      (dcs1 : TxDebitCredits F) × (s1 : S) × ((v.script.output_type ≡ text "nulldata")
        ⊎ (v.script.addresses ≡ [])
        ⊎ ((a : Text) × (more : List Text) × (row : VoutRow F) × (address : AddressRow)
            × (v.script.addresses ≡ a ∷ more)
            × (row.transaction_hash ≡ tx.hash)
            × (row.vout ≡ v.n)
            × (db.outputs.get_address s a ≡ some address)
            × Stored zero_amount plus amount_of hash btcutil chain pb enc dec db.claims db.outputs
                tx v block_height row address dcs s (dcs1, s1)))
      × OutputsDone tx block_height jobs dcs1 s1 dcs' s'

  -- The addresses that have amounts, one after the other: each is linked, and has its amounts stored.
  abbrev pub AmountsSet : ℕ → TxDebitCredits F → List Text → S → S → Type 0
  AmountsSet tx_id dcs [] s s' = s ≡ s'
  AmountsSet tx_id dcs (a ∷ keys) s s' =
      (s1 : S) × (((dcs a ≡ none) × (s ≡ s1))
        ⊎ ((dc : AddrDebitCredits F) × (row : AddressColumns) × (dcs a ≡ some dc)
            × (db.get_address s a ≡ some row)
            × (db.get_tx_address s tx_id row.id ≡ true)
            × (db.set_amounts s tx_id row.id dc ≡ some s1)))
      × AmountsSet tx_id dcs keys s1 s'

  -- The row that is stored: the transaction as lbrycrd has it, with the key of the stored row.
  abbrev pub Saved : JsonTx F → TransactionRow F → Type 0
  Saved tx row =
      (row.hash ≡ tx.tx_id)
      × (row.block_hash_id ≡ some tx.block_hash)
      × (row.input_count ≡ length tx.vin)
      × (row.output_count ≡ length tx.vout)
      × (row.value
          ≡ sum_of zero_amount plus amount_of hash btcutil chain pb enc dec db zero_amount tx.vout)
