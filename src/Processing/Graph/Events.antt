-- ===== src/Processing/Graph/Events.antt =====
-- claimGraphEvents of daemon/processing/block_scheduler.go: which claims a transaction writes or
-- reads. A panic of a parser is recovered, and the output then has no event.
use chainquery.Lbrycrd.Script.Purchase.{
  PurchaseError, Protobuf, parse_purchase_script, is_purchase_script,
}
use chainquery.Prelude.{
  ℕ, ◌^◌, ◌<◌, ◌≡◌, Bool, true, false, none, some, List, [], ◌∷◌, ◌++◌, if◌then◌else◌, length,
}
use chainquery.Prelude.Go.{Go, ◌>>=◌, ok, err, panic}
use chainquery.Prelude.Text.{Text}
use chainquery.Util.Bytes.{reverse_bytes}
use chainquery.Lbrycrd.Hex.{Bytes, hex_encode, hex_decode}
use chainquery.Lbrycrd.Outpoint.{Hashes, claim_id_from_outpoint}
use chainquery.Lbrycrd.Script.{
  is_claim_name_script, is_claim_support_script, is_claim_update_script, parse_claim_name_script,
  parse_claim_support_script, parse_claim_update_script,
}
use chainquery.Lbrycrd.Script.Build.{claim_name_script, claim_update_script, claim_support_script}
use chainquery.Lbrycrd.Script.RoundTrip.{
  parse-claim_name_script, parse-claim_update_script, parse-claim_support_script,
}
use chainquery.Processing.Tx.{Vout, TxRawResult}
use chainquery.Processing.Graph.{ClaimEvent}

abbrev pub writes : Text → List ClaimEvent
writes id = record { claim_id = id; writer = true; reader = false } ∷ []

abbrev pub reads : Text → List ClaimEvent
reads id = record { claim_id = id; writer = false; reader = true } ∷ []

-- An error is logged and gives no event; a panic is recovered and gives none either.
abbrev recovered {κ} : {E : Type κ} → Go E (List ClaimEvent) → List ClaimEvent
recovered (ok events) = events
recovered (err e) = []
recovered panic = []

module _ (hash : Hashes) (pb : Protobuf) where
  abbrev name_event : Text → ℕ → List ClaimEvent
  name_event tx_id n = elim (claim_id_from_outpoint hash tx_id n) [
    | none ↦ []
    | some id ↦ writes id
  ]

  abbrev purchase_event : Bytes → Bool → Go PurchaseError (List ClaimEvent)
  purchase_event script false = ok []
  purchase_event script true = parse_purchase_script pb script >>= λ m.
      ok (reads (hex_encode (reverse_bytes (pb.get_claim_hash m))))

  unfoldable events_of_script : Text → ℕ → Bytes → List ClaimEvent
  events_of_script tx_id n script =
      if is_claim_name_script script
      then recovered (parse_claim_name_script script >>= λ _. ok (name_event tx_id n))
      else if is_claim_update_script script
      then recovered (parse_claim_update_script script >>= λ c. ok (writes c.claim_id))
      else if is_claim_support_script script
      then recovered (parse_claim_support_script script >>= λ c. ok (reads c.claim_id))
      else recovered (is_purchase_script pb script >>= purchase_event script)

  unfoldable pub claim_graph_events_for_vout : Text → Vout → List ClaimEvent
  unfolding events_of_script
  claim_graph_events_for_vout tx_id v = elim (hex_decode v.hex) [
    | none ↦ []
    | some [] ↦ []
    | some (b ∷ script) ↦ events_of_script tx_id v.n (b ∷ script)
  ]

  unfoldable events_of_vouts : Text → List Vout → List ClaimEvent
  unfolding claim_graph_events_for_vout
  events_of_vouts tx_id [] = []
  events_of_vouts tx_id (v ∷ vs) = claim_graph_events_for_vout tx_id v ++ events_of_vouts tx_id vs

  unfoldable pub claim_graph_events : TxRawResult → List ClaimEvent
  unfolding events_of_vouts
  claim_graph_events tx = events_of_vouts tx.tx_id tx.vout

  module _ (tx_id : Text) (v : Vout) (name id value rest : Bytes) where
    -- An output whose hexadecimal text decodes to a script that updates a claim, with a name of
    -- less than 256 bytes, a claim id of less than 76 bytes and a value of less than 2 ^ 32 bytes,
    -- writes the claim with that id.
    update_event :
        length name < 256
        → length id < 76
        → length value < 2 ^ 32
        → hex_decode v.hex ≡ some (claim_update_script name id value rest)
        → claim_graph_events_for_vout tx_id v ≡ writes (hex_encode (reverse_bytes id))
    unfolding claim_graph_events_for_vout is_claim_name_script is_claim_update_script
    update_event h k l e =
        rw (e, claim_graph_events_for_vout)
          (rw (parse-claim_update_script name id rest h k value l))

    -- An output whose hexadecimal text decodes to a script that supports a claim without a value,
    -- with a name of less than 256 bytes and a claim id of less than 76 bytes, reads the claim with
    -- that id.
    pub support_event :
        length name < 256
        → length id < 76
        → hex_decode v.hex ≡ some (claim_support_script name id rest)
        → claim_graph_events_for_vout tx_id v ≡ reads (hex_encode (reverse_bytes id))
    unfolding claim_graph_events_for_vout is_claim_name_script is_claim_update_script
        is_claim_support_script
    support_event h k e =
        rw (e, claim_graph_events_for_vout) (rw (parse-claim_support_script name id rest h k))

    -- An output whose hexadecimal text decodes to a script that claims a name of less than 256
    -- bytes, with a value of less than 2 ^ 32 bytes, writes the claim whose id is computed from the
    -- outpoint, where that computation succeeds.
    pub name_script_event :
        {claim_id : Text}
        → length name < 256
        → length value < 2 ^ 32
        → hex_decode v.hex ≡ some (claim_name_script name value rest)
        → claim_id_from_outpoint hash tx_id v.n ≡ some claim_id
        → claim_graph_events_for_vout tx_id v ≡ writes claim_id
    unfolding claim_graph_events_for_vout is_claim_name_script
    name_script_event h l e o =
        rw (e, claim_graph_events_for_vout)
          (rw (parse-claim_name_script name value rest h l) (rw (o, name_event)))
