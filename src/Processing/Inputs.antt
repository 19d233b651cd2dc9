-- ===== src/Processing/Inputs.antt =====
-- ProcessVin of daemon/processing/outpoint.go: an input of a transaction is stored with the address and
-- the value of the output it spends, and that output is marked as spent. The database that an error
-- leaves behind is not kept.
use chainquery.Prelude.Go.{map_err, or_err-ok, bind-ok, or_err, Go, ◌>>=◌, ok, err, panic}
use chainquery.Prelude.{
  ℕ, ◌≡◌, refl, sym, ap, subst, ◌∙◌, ◌≢◌, ◌⊎◌, inl, inr, ite, Bool, true, false, not, Option, none,
  some, List, [], ◌∷◌, ◌++◌, arith, if◌then◌else◌, Bool-cases, Option-cases,
}
use chainquery.Prelude.Text.{Text, text, text_discrete}
use chainquery.Lbrycrd.Hex.{hex_decode}
use chainquery.Lbrycrd.Script.{ScriptError, get_pub_key_script_from_claim_pks}
use chainquery.Lbrycrd.Address.{Btcutil, get_address_from_public_key_script}
use chainquery.Processing.Amounts.{TxDebitCredits, subtract}

pub record ScriptSig : Type 0 where
  pub asm : Text
  pub hex : Text

pub record JsonVin : Type 0 where
  pub coinbase : Text
  pub tx_id : Text
  pub vout : ℕ
  pub script_sig : Option ScriptSig
  pub sequence : ℕ
  pub witness : List Text

-- `strings.Join` with a comma.
unfoldable pub join : List Text → Text
join [] = []
join (x ∷ []) = x
join (x ∷ y ∷ ys) = x ++ text "," ++ join (y ∷ ys)

abbrev pub is_nonempty : {A : Type 0} → List A → Bool
is_nonempty [] = false
is_nonempty (c ∷ t) = true

-- `null.NewString` and the like: a value with whether it is valid.
abbrev new_null : {A : Type 0} → A → Bool → Option A
new_null a b = if b then some a else none

pub record InputRow (F : Type 0) : Type 0 where
  pub id : ℕ
  pub transaction_id : ℕ
  pub transaction_hash : Text
  pub input_address_id : Option ℕ
  pub is_coinbase : Bool
  pub coinbase : Option Text
  pub prevout_hash : Option Text
  pub prevout_n : Option ℕ
  pub sequence : ℕ
  pub vin : ℕ
  pub witness : Option Text
  pub script_sig_hex : Option Text
  pub script_sig_asm : Option Text
  pub value : F

pub record OutputRow (F : Type 0) : Type 0 where
  pub id : ℕ
  pub value : F
  pub address_list : Option Text
  pub output_type : Text
  pub script_pub_key_hex : Text
  pub is_spent : Bool
  pub spent_by_input_id : Option ℕ

pub record AddressRow : Type 0 where
  pub id : ℕ
  pub address : Text

-- The database, and the decoding of a stored list of addresses. Storing an input gives its key.
pub record VinStore (F : Type 0) : Type 1 where
  pub State : Type 0
  pub decode_addresses : Text → Option (List Text)
  pub get_input : State → Text → Bool → Text → ℕ → Option ℕ
  pub get_output : State → Text → ℕ → Option (OutputRow F)
  pub get_address : State → Text → Option AddressRow
  pub put_input : State → InputRow F → Option (ℕ × State)
  pub put_output : State → OutputRow F → Option State
  pub has_tx_address : State → ℕ → ℕ → Bool

pub data VinError : Type 0 where
  no_source_output bad_address_list bad_hex no_address put_failed no_tx_address : VinError
  script_error : ScriptError → VinError
  missing_source_output : (prevout_tx_id : Text) → (prevout_n : ℕ) → VinError

module _ (btcutil : Btcutil) (chain : Text) where
  unfoldable pub get_address_from_non_standard_vout : Text → Go VinError Text
  get_address_from_non_standard_vout hex = or_err bad_hex (hex_decode hex) >>= λ script.
      map_err script_error (get_pub_key_script_from_claim_pks script) >>= λ pks.
      ok (get_address_from_public_key_script btcutil chain pks)

  module _ {F : Type 0} (zero_amount : F) (plus : F → F → F) (db : VinStore F) where
    open db use {
      State, decode_addresses, get_input, get_output, get_address, put_input, put_output,
      has_tx_address,
    }

    -- The addresses that are stored with the output; none if there is no list.
    abbrev stored_addresses : OutputRow F → Go VinError (List Text)
    stored_addresses o = elim o.address_list [
      | none ↦ ok []
      | some l ↦ or_err bad_address_list (decode_addresses l)
    ]

    -- The row of the address: of the first one of the list, or else of a nonstandard script. To report
    -- that there is no address reads the first one of the list again.
    unfoldable pub source_address : State → OutputRow F → List Text → Go VinError AddressRow
    source_address s o (a ∷ rest) = or_err no_address (get_address s a)
    source_address s o [] =
        let scripted : Go VinError AddressRow =
          get_address_from_non_standard_vout o.script_pub_key_hex >>= λ a.
          or_err no_address (get_address s a) in
        ite (text_discrete o.output_type (text "nonstandard")) scripted panic

    abbrev new_input :
        (tx_id : ℕ) (tx_hash : Text) → JsonVin → ℕ → (zero_value : F) → State → InputRow F
    new_input tx_id tx_hash v n zero_value s =
        let from_coinbase = is_nonempty v.coinbase in
        let known : ℕ = elim (get_input s tx_hash from_coinbase v.tx_id v.vout) [
          | none ↦ 0
          | some id ↦ id
        ] in
        record {
          id = known;
          transaction_id = tx_id;
          transaction_hash = tx_hash;
          input_address_id = none;
          is_coinbase = from_coinbase;
          coinbase = new_null v.coinbase from_coinbase;
          prevout_hash = new_null v.tx_id (not from_coinbase);
          prevout_n = new_null v.vout (not from_coinbase);
          sequence = v.sequence;
          vin = n;
          witness = new_null (join v.witness) (is_nonempty v.witness);
          script_sig_hex = none;
          script_sig_asm = none;
          value = zero_value;
        }

    abbrev spending : InputRow F → ScriptSig → OutputRow F → AddressRow → InputRow F
    spending row sig o a = record row {
      script_sig_hex = some sig.hex;
      script_sig_asm = some sig.asm;
      value = o.value;
      input_address_id = some a.id;
    }

    abbrev pub spent : OutputRow F → ℕ → OutputRow F
    spent o id = record o { is_spent = true; spent_by_input_id = some id }

    -- The two rows are written, and the address must be one of the transaction's.
    unfoldable pub write_input :
        ℕ → InputRow F → ScriptSig → OutputRow F → AddressRow → State → Go VinError State
    write_input tx_id row sig o a s =
        or_err put_failed (put_input s (spending row sig o a)) >>= λ put.
        or_err put_failed (put_output put.1 (spent o put.0)) >>= λ s2.
        if has_tx_address s2 tx_id a.id then ok s2 else err no_tx_address

    abbrev or_panic : {A : Type 0} → Option A → Go VinError A
    or_panic none = panic
    or_panic (some a) = ok a

    -- An input that spends an output.
    unfoldable pub spend_output :
        ℕ → InputRow F → JsonVin → TxDebitCredits F → State → Go VinError (TxDebitCredits F × State)
    unfolding source_address write_input
    spend_output tx_id row v dcs s = or_panic v.script_sig >>= λ sig.
        or_err no_source_output (get_output s v.tx_id v.vout) >>= λ o.
        stored_addresses o >>= λ addresses. source_address s o addresses >>= λ a.
        write_input tx_id row sig o a s >>= λ s'.
        ok (subtract zero_amount plus dcs a.address o.value, s')

    unfoldable pub process_vin :
        (tx_id : ℕ) (tx_hash : Text)
        → JsonVin
        → ℕ
        → TxDebitCredits F
        → State
        → Go VinError (TxDebitCredits F × State)
    unfolding spend_output
    process_vin tx_id tx_hash v n dcs s =
        let row = new_input tx_id tx_hash v n zero_amount s in
        let stored : Go VinError (TxDebitCredits F × State) =
          or_err put_failed (put_input s row) >>= λ put. ok (dcs, put.1) in
        if is_nonempty v.coinbase then stored else spend_output tx_id row v dcs s

    -- The row says which input of which transaction it is, and which output that input spends.
    abbrev PointsAt : (tx_id : ℕ) (tx_hash : Text) → JsonVin → ℕ → InputRow F → Type 0
    PointsAt tx_id tx_hash v n row =
        (row.transaction_id ≡ tx_id)
        × (row.transaction_hash ≡ tx_hash)
        × (row.vin ≡ n)
        × (row.prevout_hash ≡ some v.tx_id)
        × (row.prevout_n ≡ some v.vout)
        × (row.is_coinbase ≡ false)

    -- The stored address is the first one of the output's list, or else, for a nonstandard output,
    -- the one that its script pays.
    abbrev IsSource : State → OutputRow F → AddressRow → Type 0
    IsSource s o a =
        ((l first : Text) × (more : List Text) × (o.address_list ≡ some l)
          × (decode_addresses l ≡ some (first ∷ more))
          × (get_address s first ≡ some a))
        ⊎ ((paid : Text) × (o.output_type ≡ text "nonstandard")
            × (get_address_from_non_standard_vout o.script_pub_key_hex ≡ ok paid)
            × (get_address s paid ≡ some a))

    stored_addresses-IsSource :
        (o : OutputRow F) (a : AddressRow) (s : State) (first : Text) (more : List Text)
        → stored_addresses o ≡ ok (first ∷ more)
        → get_address s first ≡ some a
        → IsSource s o a
    stored_addresses-IsSource o a s first more e g = elim (Option-cases o.address_list) [
      | inl n ↦ absurd (ground (arith, rw n at e))
      | inr (l, n) ↦ inl (
        l,
        first,
        more,
        n,
        or_err-ok bad_address_list (decode_addresses l) (first ∷ more) (rw n at e),
        g,
      )
    ]

    source_address-IsSource :
        (s : State) (o : OutputRow F) (addresses : List Text) (a : AddressRow)
        → stored_addresses o ≡ ok addresses
        → source_address s o addresses ≡ ok a
        → IsSource s o a
    unfolding source_address
    source_address-IsSource s o (first ∷ more) a l e =
        stored_addresses-IsSource o a s first more l
          (or_err-ok no_address (get_address s first) a e)
    source_address-IsSource s o [] a l e = elim (text_discrete o.output_type (text "nonstandard")) [
      | yes t ↦
          let scripted : (get_address_from_non_standard_vout o.script_pub_key_hex >>= λ paid.
          or_err no_address (get_address s paid))
              ≡ ok a =
            ground arith in
          let (paid, p, g) =
            bind-ok (get_address_from_non_standard_vout o.script_pub_key_hex) _ a scripted in
          inr (paid, t, p, or_err-ok no_address (get_address s paid) a g)
      | no t ↦ absurd (ground arith)
    ]

    -- What a successful call for an input that is no coinbase has done.
    abbrev pub Spends :
        (tx_id : ℕ) (tx_hash : Text)
        → JsonVin
        → ℕ
        → TxDebitCredits F
        → State
        → TxDebitCredits F
        → State
        → Type 0
    Spends tx_id tx_hash v n dcs s dcs' s' =
        (o : OutputRow F) × (a : AddressRow) × (row : InputRow F) × (id : ℕ) × (s1 : State)
        × (get_output s v.tx_id v.vout ≡ some o)
        × IsSource s o a
        × PointsAt tx_id tx_hash v n row
        × (put_input s row ≡ some (id, s1))
        × (row.value ≡ o.value)
        × (row.input_address_id ≡ some a.id)
        × (put_output s1 (spent o id) ≡ some s')
        × (has_tx_address s' tx_id a.id ≡ true)
        × (dcs' ≡ subtract zero_amount plus dcs a.address o.value)

    write_input-ok :
        (tx_id : ℕ) (row : InputRow F) (sig : ScriptSig) (o : OutputRow F) (a : AddressRow)
        (s s' : State)
        → write_input tx_id row sig o a s ≡ ok s'
        → (id : ℕ) × (s1 : State) × (put_input s (spending row sig o a) ≡ some (id, s1))
          × (put_output s1 (spent o id) ≡ some s')
          × (has_tx_address s' tx_id a.id ≡ true)
    unfolding write_input
    write_input-ok tx_id row sig o a s s' e =
        let ((id, s1), p, q) =
          bind-ok (or_err put_failed (put_input s (spending row sig o a))) _ s' e in
        let (s2, p2, q2) = bind-ok (or_err put_failed (put_output s1 (spent o id))) _ s' q in
        elim (Bool-cases (has_tx_address s2 tx_id a.id)) [
          | inl t ↦
              let same_state : s2 ≡ s' = ground arith in
              let put_at : put_output s1 (spent o id) ≡ some s' =
                or_err-ok put_failed (put_output s1 (spent o id)) s2 p2 ∙ ap some same_state in
              (
                id,
                s1,
                or_err-ok put_failed (put_input s (spending row sig o a)) (id, s1) p,
                put_at,
                subst (λ t. has_tx_address t tx_id a.id ≡ true) same_state t,
              )
          | inr f ↦ absurd (ground arith)
        ]

    spend_output-Spends :
        (tx_id : ℕ) (tx_hash : Text) (row : InputRow F) (v : JsonVin) (n : ℕ)
        (dcs dcs' : TxDebitCredits F) (s s' : State)
        → PointsAt tx_id tx_hash v n row
        → spend_output tx_id row v dcs s ≡ ok (dcs', s')
        → Spends tx_id tx_hash v n dcs s dcs' s'
    unfolding spend_output
    spend_output-Spends tx_id tx_hash row v n dcs dcs' s s' points e =
        let (sig, e1, f1) = bind-ok (or_panic v.script_sig) _ (dcs', s') e in
        let (o, e2, f2) =
          bind-ok (or_err no_source_output (get_output s v.tx_id v.vout)) _ (dcs', s') f1 in
        let (addresses, e3, f3) = bind-ok (stored_addresses o) _ (dcs', s') f2 in
        let (a, e4, f4) = bind-ok (source_address s o addresses) _ (dcs', s') f3 in
        let (s2, e5, f5) = bind-ok (write_input tx_id row sig o a s) _ (dcs', s') f4 in
        let (id, s1, p, q, r) = write_input-ok tx_id row sig o a s s2 e5 in
        let same_state : s2 ≡ s' = ground arith in
        let same_amounts : dcs' ≡ subtract zero_amount plus dcs a.address o.value = ground arith in
        (
          o,
          a,
          spending row sig o a,
          id,
          s1,
          or_err-ok no_source_output (get_output s v.tx_id v.vout) o e2,
          source_address-IsSource s o addresses a e3 e4,
          points,
          p,
          refl,
          refl,
          q ∙ ap some same_state,
          subst (λ t. has_tx_address t tx_id a.id ≡ true) same_state r,
          same_amounts,
        )

    if-false : {A : Type 0} (b : Bool) (x y : A) → b ≡ false → (if b then x else y) ≡ y
    if-false b x y e = rw e refl

    process_vin-spend :
        (tx_id : ℕ) (tx_hash : Text) (v : JsonVin) (n : ℕ) (dcs : TxDebitCredits F) (s : State)
        → v.coinbase ≡ []
        → process_vin tx_id tx_hash v n dcs s
          ≡ spend_output tx_id (new_input tx_id tx_hash v n zero_amount s) v dcs s
    unfolding process_vin
    process_vin-spend tx_id tx_hash v n dcs s c =
        if-false (is_nonempty v.coinbase) _ _ (ap is_nonempty c)

    -- When an input that is no coinbase is processed without error, the output it spends is stored;
    -- the input was stored as the one of its index in its transaction, with the hash and the index
    -- of the output it spends, that output's value, and the key of the address that is stored for
    -- the first of the output's addresses, or, if it has none and is nonstandard, for the one that
    -- its script pays; the output was then written as spent by the input, the address is one of the
    -- transaction's, and the amount was debited from it.
    pub process_vin-Spends :
        (tx_id : ℕ) (tx_hash : Text) (v : JsonVin) (n : ℕ) (dcs dcs' : TxDebitCredits F)
        (s s' : State)
        → v.coinbase ≡ []
        → process_vin tx_id tx_hash v n dcs s ≡ ok (dcs', s')
        → Spends tx_id tx_hash v n dcs s dcs' s'
    process_vin-Spends tx_id tx_hash v n dcs dcs' s s' c e =
        let row = new_input tx_id tx_hash v n zero_amount s in
        let none_of_coinbase : is_nonempty v.coinbase ≡ false = ap is_nonempty c in
        let points : PointsAt tx_id tx_hash v n row = (
          refl,
          refl,
          refl,
          ap (λ b. new_null v.tx_id (not b)) none_of_coinbase,
          ap (λ b. new_null v.vout (not b)) none_of_coinbase,
          none_of_coinbase,
        ) in
        spend_output-Spends tx_id tx_hash row v n dcs dcs' s s' points
          (sym (process_vin-spend tx_id tx_hash v n dcs s c) ∙ e)

    -- An input that spends an output without a list of addresses and of another type than
    -- nonstandard panics.
    pub process_vin_without_address :
        (tx_id : ℕ) (tx_hash : Text) (v : JsonVin) (sig : ScriptSig) (n : ℕ)
        (dcs : TxDebitCredits F) (s : State) (o : OutputRow F)
        → v.coinbase ≡ []
        → v.script_sig ≡ some sig
        → get_output s v.tx_id v.vout ≡ some o
        → o.address_list ≡ none
        → o.output_type ≢ text "nonstandard"
        → process_vin tx_id tx_hash v n dcs s ≡ panic
    unfolding spend_output source_address
    process_vin_without_address tx_id tx_hash v sig n dcs s o c g h l t =
        let row = new_input tx_id tx_hash v n zero_amount s in
        let listed : stored_addresses o ≡ ok [] = ground arith in
        let found_no : source_address s o [] ≡ panic = ground arith in
        process_vin-spend tx_id tx_hash v n dcs s c
        ∙ rw (g, h, spend_output) (rw (listed, spend_output) (rw (found_no, spend_output) refl))
