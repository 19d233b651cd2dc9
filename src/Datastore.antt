-- ===== src/Datastore.antt =====
-- datastore/datastore.go: the functions that get and put single rows. A table is given by the calls of
-- the generated models that they make; a query is a test on rows, which a column that is null fails.
-- A row has its key columns, and the others as one value. A failed query is logged as no row.
pub mod Unique
use chainquery.Prelude.{
  ℕ, ite, Bool, true, false, not, ◌&&◌, Option, none, some, [], ltb, ◌==◌, if◌then◌else◌,
}
use chainquery.Prelude.Text.{Text, text_discrete}

pub data Answer (R : Type 0) : Type 0 where
  found : R → Answer R
  no_rows failed : Answer R

-- `insert` gives the row the key that the database makes; `update` writes the row of the same key, if
-- there is one. `upsert` inserts a row, or does nothing where its unique columns are there already,
-- and gives the row its key.
pub record Table (R : Type 0) : Type 1 where
  pub State : Type 0
  pub one : State → (R → Bool) → Answer R
  pub exists : State → (R → Bool) → Option Bool
  pub insert : State → R → Option (R × State)
  pub update : State → R → Option State
  pub upsert : State → R → Option (R × State)

pub record OutputRecord (C : Type 0) : Type 0 where
  pub id : ℕ
  pub transaction_hash : Text
  pub vout : ℕ
  pub columns : C

pub record InputRecord (C : Type 0) : Type 0 where
  pub id : ℕ
  pub transaction_hash : Text
  pub is_coinbase : Bool
  pub prevout_hash : Option Text
  pub prevout_n : Option ℕ
  pub columns : C

pub record AddressRecord (C : Type 0) : Type 0 where
  pub id : ℕ
  pub address : Text
  pub columns : C

pub record TxAddressRecord (C : Type 0) : Type 0 where
  pub transaction_id : ℕ
  pub address_id : ℕ
  pub columns : C

pub record ClaimRecord (C : Type 0) : Type 0 where
  pub id : ℕ
  pub claim_id : Text
  pub columns : C

pub record SupportRecord (C : Type 0) : Type 0 where
  pub id : ℕ
  pub transaction_hash_id : Option Text
  pub vout : ℕ
  pub columns : C

pub record TagRecord : Type 0 where
  pub id : ℕ
  pub tag : Text

pub record ClaimTagRecord : Type 0 where
  pub id : ℕ
  pub tag_id : Option ℕ
  pub claim_id : Text

pub record PurchaseRecord (C : Type 0) : Type 0 where
  pub id : ℕ
  pub claim_id : Option Text
  pub transaction_by_hash_id : Option Text
  pub vout : ℕ
  pub columns : C

abbrev pub text_is : Text → Text → Bool
text_is a b = ite (text_discrete a b) true false

abbrev bool_is : Bool → Bool → Bool
bool_is true b = b
bool_is false true = false
bool_is false false = true

-- `column = ?` on a column that can be null.
abbrev some_text_is : Option Text → Text → Bool
some_text_is none t = false
some_text_is (some a) t = text_is a t

abbrev some_is : Option ℕ → ℕ → Bool
some_is none n = false
some_is (some a) n = a == n

-- The same, where the value itself can be null, and `IS NULL` is asked then.
abbrev pub same_text : Option Text → Option Text → Bool
same_text none none = true
same_text (some a) none = false
same_text a (some t) = some_text_is a t

abbrev same_number : Option ℕ → Option ℕ → Bool
same_number none none = true
same_number (some a) none = false
same_number a (some n) = some_is a n

abbrev pub is_empty : Text → Bool
is_empty t = text_is t []

abbrev pub text_of : Option Text → Text
text_of none = []
text_of (some t) = t

module _ {R : Type 0} (table : Table R) where
  open table use {State, one, exists, insert, update, upsert}

  abbrev pub get_one : State → (R → Bool) → Option R
  get_one s test = elim (one s test) [ found r ↦ some r | no_rows ↦ none | failed ↦ none ]

  -- The row is read once it is known to be there.
  abbrev get_existing : State → (R → Bool) → Option R
  get_existing s test = elim (exists s test) [
    | none ↦ none
    | some there ↦ if there then get_one s test else none
  ]

  abbrev pub written : R → Option State → Option (R × State)
  written r none = none
  written r (some s) = some (r, s)

  abbrev update_or_insert : State → R → Bool → Option (R × State)
  update_or_insert s r there = if there then written r (update s r) else insert s r

  abbrev pub put_by_test : State → (R → Bool) → R → Option (R × State)
  put_by_test s test r = elim (exists s test) [
    | none ↦ none
    | some there ↦ update_or_insert s r there
  ]

module _ {C : Type 0} where
  abbrev pub output_is : Text → ℕ → OutputRecord C → Bool
  output_is hash vout o = text_is o.transaction_hash hash && o.vout == vout

  unfoldable pub get_output :
      (t : Table (OutputRecord C)) → t.State → Text → ℕ → Option (OutputRecord C)
  get_output t s hash vout = get_one t s (output_is hash vout)

  -- The output is given the key of the row that has its hash and index, and `update_columns` writes
  -- to that row the columns that are asked for.
  unfoldable pub put_output :
      {Columns : Type 0} (t : Table (OutputRecord C))
      → (update_columns : t.State → Columns → OutputRecord C → Option t.State) → t.State
      → OutputRecord C
      → Columns
      → Option (OutputRecord C × t.State)
  put_output t update_columns s o columns = elim (t.one s (output_is o.transaction_hash o.vout)) [
    | failed ↦ none
    | no_rows ↦ t.insert s o
    | found old ↦
        let kept : OutputRecord C = record o { id = old.id } in
        written t kept (update_columns s columns kept)
  ]

  abbrev pub get_input_test : Text → Bool → Text → ℕ → InputRecord C → Bool
  get_input_test tx_hash is_coinbase prev n i =
      text_is i.transaction_hash tx_hash
      && bool_is i.is_coinbase is_coinbase
      && some_text_is i.prevout_hash prev
      && some_is i.prevout_n n

  abbrev pub put_input_test : InputRecord C → InputRecord C → Bool
  put_input_test new i =
      text_is i.transaction_hash new.transaction_hash
      && bool_is i.is_coinbase new.is_coinbase
      && same_text i.prevout_hash new.prevout_hash
      && same_number i.prevout_n new.prevout_n

  unfoldable pub get_input :
      (t : Table (InputRecord C)) → t.State → Text → Bool → Text → ℕ → Option (InputRecord C)
  get_input t s tx_hash is_coinbase prev n = get_one t s (get_input_test tx_hash is_coinbase prev n)

  -- The row that is updated is that of the input's own key.
  unfoldable pub put_input :
      (t : Table (InputRecord C)) → t.State → InputRecord C → Option (InputRecord C × t.State)
  put_input t s i = put_by_test t s (put_input_test i) i

  unfoldable pub get_address :
      (t : Table (AddressRecord C)) → t.State → Text → Option (AddressRecord C)
  get_address t s address = get_one t s (λ a. text_is a.address address)

  unfoldable pub put_address :
      (t : Table (AddressRecord C)) → t.State → AddressRecord C → Option (AddressRecord C × t.State)
  put_address t s a =
      if a.id == 0 && not (is_empty a.address)
      then t.upsert s a
      else put_by_test t s (λ b. b.id == a.id) a

  abbrev tx_address_is : ℕ → ℕ → TxAddressRecord C → Bool
  tx_address_is tx_id address_id r = r.transaction_id == tx_id && r.address_id == address_id

  unfoldable pub get_tx_address :
      (t : Table (TxAddressRecord C)) → t.State → ℕ → ℕ → Option (TxAddressRecord C)
  get_tx_address t s tx_id address_id = get_existing t s (tx_address_is tx_id address_id)

  unfoldable update_tx_address_amounts :
      (t : Table (TxAddressRecord C)) → t.State → TxAddressRecord C → Option t.State
  update_tx_address_amounts t s r = t.update s r

  unfoldable pub put_tx_address :
      (t : Table (TxAddressRecord C))
      → t.State
      → TxAddressRecord C
      → Option (TxAddressRecord C × t.State)
  put_tx_address t s r = put_by_test t s (tx_address_is r.transaction_id r.address_id) r

  unfoldable pub get_claim : (t : Table (ClaimRecord C)) → t.State → Text → Option (ClaimRecord C)
  get_claim t s claim_id = get_existing t s (λ c. text_is c.claim_id claim_id)

  -- The row of the claim's key, or else that of its claim id; `none` is an error.
  abbrev claim_by_id :
      (t : Table (ClaimRecord C)) → t.State → ClaimRecord C → Answer (ClaimRecord C)
  claim_by_id t s c =
      if is_empty c.claim_id then no_rows else t.one s (λ r. text_is r.claim_id c.claim_id)

  abbrev claim_by_key :
      (t : Table (ClaimRecord C)) → t.State → ClaimRecord C → Answer (ClaimRecord C)
  claim_by_key t s c = if ltb 0 c.id then t.one s (λ r. r.id == c.id) else no_rows

  abbrev existing_claim :
      (t : Table (ClaimRecord C)) → t.State → ClaimRecord C → Answer (ClaimRecord C)
  existing_claim t s c = elim (claim_by_key t s c) [
    | failed ↦ failed
    | found old ↦ found old
    | no_rows ↦ claim_by_id t s c
  ]

  unfoldable pub put_claim :
      (t : Table (ClaimRecord C)) → t.State → ClaimRecord C → Option (ClaimRecord C × t.State)
  put_claim t s c = elim (existing_claim t s c) [
    | failed ↦ none
    | no_rows ↦ t.insert s c
    | found old ↦
        let kept : ClaimRecord C = record c { id = old.id } in written t kept (t.update s kept)
  ]

  unfoldable pub get_support :
      (t : Table (SupportRecord C)) → t.State → Text → ℕ → Option (SupportRecord C)
  get_support t s tx_hash vout =
      get_one t s (λ r. some_text_is r.transaction_hash_id tx_hash && r.vout == vout)

  -- `ON DUPLICATE KEY UPDATE id=id`, which does not give the support its key.
  unfoldable pub put_support :
      (t : Table (SupportRecord C)) → t.State → SupportRecord C → Option t.State
  put_support t s r = elim (t.upsert s r) [ none ↦ none | some put ↦ some put.1 ]

  abbrev purchase_is : Text → ℕ → Text → PurchaseRecord C → Bool
  purchase_is tx_hash vout claim_id p =
      some_text_is p.claim_id claim_id
      && some_text_is p.transaction_by_hash_id tx_hash
      && p.vout == vout

  unfoldable get_purchase :
      (t : Table (PurchaseRecord C)) → t.State → Text → ℕ → Text → Option (PurchaseRecord C)
  get_purchase t s tx_hash vout claim_id = get_existing t s (purchase_is tx_hash vout claim_id)

  unfoldable pub put_purchase :
      (t : Table (PurchaseRecord C))
      → t.State
      → PurchaseRecord C
      → Option (PurchaseRecord C × t.State)
  put_purchase t s p =
      put_by_test t s (purchase_is (text_of p.transaction_by_hash_id) p.vout (text_of p.claim_id)) p

unfoldable pub get_tag : (t : Table TagRecord) → t.State → Text → Option TagRecord
get_tag t s name = get_one t s (λ r. text_is r.tag name)

unfoldable pub put_tag : (t : Table TagRecord) → t.State → TagRecord → Option (TagRecord × t.State)
put_tag t s r = t.upsert s r

unfoldable get_claim_tag : (t : Table ClaimTagRecord) → t.State → ℕ → Text → Option ClaimTagRecord
get_claim_tag t s tag_id claim_id =
    get_one t s (λ r. some_is r.tag_id tag_id && text_is r.claim_id claim_id)

unfoldable pub put_claim_tag :
    (t : Table ClaimTagRecord) → t.State → ClaimTagRecord → Option t.State
put_claim_tag t s r = elim (t.upsert s r) [ none ↦ none | some put ↦ some put.1 ]
