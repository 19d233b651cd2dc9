-- ===== src/Processing/Outputs/Linked.antt =====
-- What ProcessVout leaves behind: the credit of the amount, and the link from an output to its claim.
use chainquery.Processing.Outputs.{
  address_error, addressed_vout, one_address, vout_row, process_vout, script_vout, text_of,
  claim_error, VoutError, output_of, VoutRow, JsonVout, TxInfo, VoutStore, put_failed,
  process_script_for_claim, link_claim, store_vout, claim_linked, missing_tx_address,
}
use chainquery.Processing.Claims.Scripts.{ClaimRow, Decoded, ClaimStore, Decoders}
use chainquery.Processing.Addresses.{get_first_address_from_vout}
use chainquery.Prelude.Go.{
  map_err-ok, map_err, index, or_err, or_err-ok, bind-ok, if-ok, ok-injective, Go, ◌>>=◌, ok, err,
}
use chainquery.Processing.Claims.Outputs.{claim_output_saved, process_as_claim, Saves}
use chainquery.Prelude.Text.{text_discrete, text, Text}
use chainquery.Lbrycrd.Outpoint.{claim_id_from_outpoint, Hashes}
use chainquery.Lbrycrd.Script.Build.{claim_name_script}
use chainquery.Lbrycrd.Hex.{hex_decode, Bytes}
use chainquery.Lbrycrd.Script.{is_claim_script}
use chainquery.Processing.Amounts.{TxDebitCredits, add}
use chainquery.Processing.Inputs.{AddressRow}
use chainquery.Processing.Claims.Metadata.{Encoding}
use chainquery.Prelude.{
  ℕ, ◌^◌, ◌<◌, ◌≡◌, refl, sym, ap, subst, ◌∙◌, ◌≢◌, ◌⊎◌, inl, inr, if_pos, if_neg, true, Option,
  none, some, List, [], ◌∷◌, arith, if◌then◌else◌, Option-cases, length,
}
use chainquery.Lbrycrd.Address.{Btcutil}
use chainquery.Lbrycrd.Script.Purchase.{Protobuf}

not_null : text "nonstandard" ≢ text "nulldata"
not_null e = cc

module _ {F : Type 0} (zero_amount : F) (plus : F → F → F) (amount_of : Option F → F)
    (hash : Hashes) (btcutil : Btcutil) (chain : Text) (pb : Protobuf) (enc : Encoding F)
    (dec : Decoders) (db : ClaimStore F) (outs : VoutStore db) where
  open db use {State, get_claim}
  open outs use {put_output, get_address, has_tx_address}

  -- What holds once an output with an address is stored.
  abbrev pub Stored :
      TxInfo
      → JsonVout F
      → ℕ
      → VoutRow F
      → AddressRow
      → TxDebitCredits F
      → State
      → TxDebitCredits F × State
      → Type 0
  Stored tx v block_height row a dcs s r =
      (key : ℕ) × (s1 : State) × (claim : Option Text × State) × (put_output s row ≡ some (key, s1))
      × (has_tx_address s1 tx.id a.id ≡ true)
      × (process_script_for_claim zero_amount plus amount_of hash btcutil chain pb enc dec db outs
            (record row { id = key }) tx block_height s1
          ≡ ok claim)
      × (link_claim zero_amount plus amount_of hash btcutil chain pb enc dec db outs
            (record row { id = key }) claim
          ≡ ok r.1)
      × (r.0 ≡ add zero_amount plus dcs a.address v.value)

  store_vout-Stored :
      (tx : TxInfo) (v : JsonVout F) (block_height : ℕ) (row : VoutRow F) (a : AddressRow)
      (dcs : TxDebitCredits F) (s : State) (r : TxDebitCredits F × State)
      → store_vout zero_amount plus amount_of hash btcutil chain pb enc dec db outs tx v
          block_height row
          (some a)
          dcs
          s
        ≡ ok r
      → Stored tx v block_height row a dcs s r
  unfolding store_vout
  store_vout-Stored tx v block_height row a dcs s r e =
      let ((key, s1), e1, f1) = bind-ok (or_err put_failed (put_output s row)) _ r e in
      let kept : VoutRow F = record row { id = key } in
      let script =
        process_script_for_claim zero_amount plus amount_of hash btcutil chain pb enc dec db outs
          kept tx block_height s1 in
      let linked =
        claim_linked zero_amount plus amount_of hash btcutil chain pb enc dec db outs tx
          block_height kept s1 in
      let (s2, e2, f2) =
        bind-ok (if has_tx_address s1 tx.id a.id then linked else err missing_tx_address)
          (λ s'. ok (add zero_amount plus dcs a.address v.value, s')) r f1 in
      let (there, e3) = if-ok (has_tx_address s1 tx.id a.id) linked missing_tx_address s2 e2 in
      let (claim, e4, f4) =
        bind-ok script
          (link_claim zero_amount plus amount_of hash btcutil chain pb enc dec db outs kept) s2
          e3 in
      let same = ok-injective (add zero_amount plus dcs a.address v.value, s2) r f2 in
      (
        key,
        s1,
        claim,
        or_err-ok put_failed (put_output s row) (key, s1) e1,
        there,
        e4,
        f4 ∙ ap (λ (x : TxDebitCredits F × State). ok x.1) same,
        sym (ap (λ (x : TxDebitCredits F × State). x.0) same),
      )

  script_claim-Saves :
      (row : VoutRow F) (tx : TxInfo) (block_height : ℕ) (s : State) (r : Option Text × State)
      (hex : Text) (name value rest : Bytes) (d : Decoded) (id : Text)
      → row.output_type ≡ some (text "nonstandard")
      → row.script_pub_key_hex ≡ some hex
      → hex_decode hex ≡ some (claim_name_script name value rest)
      → length name < 256
      → length value < 2 ^ 32
      → claim_id_from_outpoint hash row.transaction_hash row.vout ≡ some id
      → dec.decode_claim value ≡ some (some d)
      → process_script_for_claim zero_amount plus amount_of hash btcutil chain pb enc dec db outs
          row tx block_height s
        ≡ ok r
      → (s2 : State) × (r ≡ (some id, s2))
        × Saves hash btcutil chain enc dec db zero_amount id name value rest
            (output_of zero_amount plus amount_of hash btcutil chain pb enc dec db outs row tx)
            block_height
            s2
  unfolding process_script_for_claim is_claim_script index
  script_claim-Saves row tx block_height s r hex name value rest d id kind coded decoded h k
        outpoint known e =
      let e1 = rw (coded, decoded, process_script_for_claim) at e in
      let claimed : Go VoutError (Option Text × State) =
        map_err claim_error (
          process_as_claim hash btcutil chain enc dec db zero_amount
            (claim_name_script name value rest)
            (output_of zero_amount plus amount_of hash btcutil chain pb enc dec db outs row tx)
            block_height s)
        >>= λ x. ok (some x.1, x.2) in
      let typed : text_of row.output_type ≡ text "nonstandard" = rw kind refl in
      let e2 =
        sym (
          if_pos (text_discrete (text_of row.output_type) (text "nonstandard")) typed claimed
            (ok (none, s)))
        ∙ e1 in
      let e3 : claimed ≡ ok r = e2 in
      let ((address, claim_id, s2), f1, f2) =
        bind-ok
          (map_err claim_error (
            process_as_claim hash btcutil chain enc dec db zero_amount
              (claim_name_script name value rest)
              (output_of zero_amount plus amount_of hash btcutil chain pb enc dec db outs row tx)
              block_height s))
          (λ x. ok (some x.1, x.2)) r e3 in
      let (same_id, paid, saved) =
        claim_output_saved hash btcutil chain enc dec db zero_amount name value rest d id
          (output_of zero_amount plus amount_of hash btcutil chain pb enc dec db outs row tx)
          block_height s s2 address claim_id h k outpoint known
          (map_err-ok claim_error _ (address, claim_id, s2) f1) in
      (s2, sym (ok-injective (some claim_id, s2) r f2) ∙ ap (λ i. (some i, s2)) same_id, saved)

  link_claim-found :
      (row : VoutRow F) (id : Text) (s s' : State) (c : ClaimRow F)
      → get_claim s id ≡ some c
      → link_claim zero_amount plus amount_of hash btcutil chain pb enc dec db outs row (some id, s)
        ≡ ok s'
      → (key : ℕ) × (put_output s (record row { claim_id = some c.claim_id }) ≡ some (key, s'))
  link_claim-found row id s s' c found e =
      let linked : VoutRow F = record row { claim_id = some c.claim_id } in
      let ((key, s1), e1, e2) =
        bind-ok (or_err put_failed (put_output s linked)) (λ put. ok put.1) s'
          (rw (link_claim, found) at e) in
      (
        key,
        or_err-ok put_failed (put_output s linked) (key, s1) e1
            ∙ ap (λ x. some (key, x)) (ok-injective s1 s' e2),
      )

  script_vout-Stored :
      (tx : TxInfo) (v : JsonVout F) (block_height : ℕ) (row : VoutRow F) (dcs : TxDebitCredits F)
      (c : ℕ) (a : Text) (s : State) (r : TxDebitCredits F × State)
      → script_vout zero_amount plus amount_of hash btcutil chain pb enc dec db outs tx v
          block_height row dcs
          (c ∷ a)
          s
        ≡ ok r
      → (address : AddressRow) × (get_address s (c ∷ a) ≡ some address)
        × Stored tx v block_height
            (record row { address_list = some (one_address (c ∷ a)) })
            address
            dcs
            s
            r
  unfolding store_vout
  script_vout-Stored tx v block_height row dcs c a s r e =
      let listed : VoutRow F = record row { address_list = some (one_address (c ∷ a)) } in
      elim (Option-cases (get_address s (c ∷ a))) [
        | inl n ↦ absurd (ground (arith, rw (n, store_vout) at e))
        | inr (address, h) ↦
            (address, h, store_vout-Stored tx v block_height listed address dcs s r (rw (h) at e))
      ]

  process_vout-addressed :
      (tx : TxInfo) (v : JsonVout F) (block_height : ℕ) (dcs : TxDebitCredits F) (s : State)
      → v.script.output_type ≢ text "nulldata"
      → process_vout zero_amount plus amount_of hash btcutil chain pb enc dec db outs tx v
          block_height dcs s
        ≡ addressed_vout zero_amount plus amount_of hash btcutil chain pb enc dec db outs tx v
            block_height
            (vout_row zero_amount plus amount_of hash btcutil chain pb enc dec db outs tx v s)
            dcs
            v.script.addresses
            s
  unfolding process_vout
  process_vout-addressed tx v block_height dcs s h =
      if_neg (text_discrete v.script.output_type (text "nulldata")) h _ _

  -- An output that lists addresses.
  pub listed_output-Stored :
      (tx : TxInfo) (v : JsonVout F) (block_height : ℕ) (dcs : TxDebitCredits F) (s : State)
      (r : TxDebitCredits F × State) (a : Text) (more : List Text)
      → v.script.output_type ≢ text "nulldata"
      → v.script.addresses ≡ a ∷ more
      → process_vout zero_amount plus amount_of hash btcutil chain pb enc dec db outs tx v
          block_height dcs s
        ≡ ok r
      → (row : VoutRow F) × (address : AddressRow) × (row.transaction_hash ≡ tx.hash)
        × (row.vout ≡ v.n)
        × (get_address s a ≡ some address)
        × Stored tx v block_height row address dcs s r
  unfolding store_vout
  listed_output-Stored tx v block_height dcs s r a more kind listed e =
      let row = vout_row zero_amount plus amount_of hash btcutil chain pb enc dec db outs tx v s in
      let with_list : VoutRow F = record row { address_list = some (outs.marshal (a ∷ more)) } in
      let e1 =
        subst
          (λ l.
            addressed_vout zero_amount plus amount_of hash btcutil chain pb enc dec db outs tx v
              block_height row dcs l s
            ≡ ok r)
          listed (sym (process_vout-addressed tx v block_height dcs s kind) ∙ e) in
      elim (Option-cases (get_address s a)) [
        | inl n ↦ absurd (ground (arith, rw (n, store_vout) at e1))
        | inr (address, h) ↦ (
          with_list,
          address,
          refl,
          refl,
          h,
          store_vout-Stored tx v block_height with_list address dcs s r (rw (h) at e1),
        )
      ]

  -- When a nonstandard output without a list of addresses is processed without error, its script
  -- claims a name of less than 256 bytes with a value of less than 2 ^ 32 bytes, the outpoint gives
  -- an id, the value decodes to a claim, and the address of its script is not empty, then the claim
  -- was saved with that id, name, value and output; the output was then, if the claim is found,
  -- stored with the claim's id; and the value of the output was credited to the address, which is a
  -- stored one.
  pub claim_output_linked :
      (tx : TxInfo) (v : JsonVout F) (block_height : ℕ) (dcs dcs' : TxDebitCredits F) (s s' : State)
      (name value rest : Bytes) (d : Decoded) (id : Text) (c : ℕ) (a : Text)
      → v.script.output_type ≡ text "nonstandard"
      → v.script.addresses ≡ []
      → get_first_address_from_vout btcutil chain v.script ≡ ok (c ∷ a)
      → hex_decode v.script.hex ≡ some (claim_name_script name value rest)
      → length name < 256
      → length value < 2 ^ 32
      → claim_id_from_outpoint hash tx.hash v.n ≡ some id
      → dec.decode_claim value ≡ some (some d)
      → process_vout zero_amount plus amount_of hash btcutil chain pb enc dec db outs tx v
          block_height dcs s
        ≡ ok (dcs', s')
      → (row : VoutRow F) × (address : AddressRow) × (s2 : State) × (row.transaction_hash ≡ tx.hash)
        × (row.vout ≡ v.n)
        × Saves hash btcutil chain enc dec db zero_amount id name value rest
            (output_of zero_amount plus amount_of hash btcutil chain pb enc dec db outs row tx)
            block_height
            s2
        × ((get_claim s2 id ≡ none)
            ⊎ ((k : ClaimRow F) × (key : ℕ) × (get_claim s2 id ≡ some k)
                × (put_output s2 (record row { claim_id = some k.claim_id }) ≡ some (key, s'))))
        × (get_address s (c ∷ a) ≡ some address)
        × (dcs' ≡ add zero_amount plus dcs address.address v.value)
  claim_output_linked tx v block_height dcs dcs' s s' name value rest d id c a kind no_list first
        decoded h k outpoint known e =
      let other : v.script.output_type ≢ text "nulldata" = λ x. not_null (sym kind ∙ x) in
      let row = vout_row zero_amount plus amount_of hash btcutil chain pb enc dec db outs tx v s in
      let e1 = sym (process_vout-addressed tx v block_height dcs s other) ∙ e in
      let e2 =
        subst
          (λ l.
            addressed_vout zero_amount plus amount_of hash btcutil chain pb enc dec db outs tx v
              block_height row dcs l s
            ≡ ok (dcs', s'))
          no_list e1 in
      let (t, e3, e4) =
        bind-ok (map_err address_error (get_first_address_from_vout btcutil chain v.script)) _
          (dcs', s') e2 in
      let same_text = ok-injective t (c ∷ a) (
        sym (map_err-ok address_error (get_first_address_from_vout btcutil chain v.script) t e3)
        ∙ first) in
      let (address, there, (key, s1, claim, put, linked_address, script, link, posted)) =
        script_vout-Stored tx v block_height row dcs c a s (dcs', s')
          (subst
            (λ x.
              script_vout zero_amount plus amount_of hash btcutil chain pb enc dec db outs tx v
                block_height row dcs x s
              ≡ ok (dcs', s'))
            same_text e4) in
      let kept : VoutRow F = record row { id = key; address_list = some (one_address (c ∷ a)) } in
      let (s2, same, saved) =
        script_claim-Saves kept tx block_height s1 claim v.script.hex name value rest d id
          (ap some kind) refl decoded h k outpoint known script in
      (
        kept,
        address,
        s2,
        refl,
        refl,
        saved,
        elim (Option-cases (get_claim s2 id)) [
          | inl missing ↦ inl missing
          | inr (claim_row, found) ↦
              let (key2, stored_row) = link_claim-found kept id s2 s' claim_row found (
                subst
                  (λ x.
                    link_claim zero_amount plus amount_of hash btcutil chain pb enc dec db outs kept
                      x
                    ≡ ok s')
                  same link) in
              inr (claim_row, key2, found, stored_row)
        ],
        there,
        posted,
      )
