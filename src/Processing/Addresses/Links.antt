-- ===== src/Processing/Addresses/Links.antt =====
-- What daemon/processing/address.go has done when it returns its map of addresses: ProcessVin and
-- ProcessVout rely on it.
use chainquery.Processing.Addresses.{
  addresses_of_vin, create_update_vin_addresses, listed, get_first_address_from_vout, JsonOutput,
  addresses_of_vout, create_update_vout_addresses, note_addresses, note_all, AddressStore,
  AddressIds, create_tx_address_if_not_exist, seen_first, stored_address, linked, vout_address,
  AddressColumns, vin_address,
}
use chainquery.Prelude.Text.{text_discrete, Text}
use chainquery.Processing.Graph.{update}
use chainquery.Processing.Inputs.{JsonVin, OutputRow, VinError, put_failed}
use chainquery.Prelude.Go.{or_err, or_err-ok, bind-ok, ok-injective, Go, ok}
use chainquery.Prelude.{
  ℕ, ◌≡◌, refl, sym, ap, subst, ◌∙◌, ◌⊎◌, inl, inr, ite, true, none, some, List, [], ◌∷◌, ◌++◌,
  append_assoc, arith, ◌==◌, Bool-cases, Option-cases,
}
use chainquery.Lbrycrd.Address.{Btcutil}

-- The address is stored in the row with this key.
abbrev HasKey : {F : Type 0} (db : AddressStore F) → db.State → Text → ℕ → Type 0
HasKey db s a id = (row : AddressColumns) × (db.get_address s a ≡ some row) × (row.id ≡ id)

-- The row is a new one, or has the key under which its address is stored.
abbrev Owns : {F : Type 0} (db : AddressStore F) → db.State → AddressColumns → Type 0
Owns db s row = (db.get_address s row.address ≡ none) ⊎ HasKey db s row.address row.id

-- The tables keep what is linked and what key an address has; a link that is stored is found, and so
-- is an address, under the key that is given when it is stored.
pub record KeepsLinks {F : Type 0} (db : AddressStore F) : Type 0 where
  pub stores_link :
      (s s' : db.State) (tx id : ℕ)
      → db.put_tx_address s tx id ≡ some s'
      → db.get_tx_address s' tx id ≡ true
  pub keeps_link :
      (s s' : db.State) (tx id tx' id' : ℕ)
      → db.put_tx_address s tx id ≡ some s'
      → db.get_tx_address s tx' id' ≡ true
      → db.get_tx_address s' tx' id' ≡ true
  pub keeps_by_address :
      (s : db.State) (row : AddressColumns) (r : ℕ × db.State) (tx id : ℕ)
      → db.put_address s row ≡ some r
      → db.get_tx_address s tx id ≡ true
      → db.get_tx_address r.1 tx id ≡ true
  pub finds_address :
      (s : db.State) (a : Text) (row : AddressColumns)
      → db.get_address s a ≡ some row
      → row.address ≡ a
  pub stores_address :
      (s : db.State) (row : AddressColumns) (r : ℕ × db.State)
      → Owns db s row
      → db.put_address s row ≡ some r
      → HasKey db r.1 row.address r.0
  pub keeps_key :
      (s : db.State) (row : AddressColumns) (r : ℕ × db.State) (a : Text) (id : ℕ)
      → Owns db s row
      → db.put_address s row ≡ some r
      → HasKey db s a id
      → HasKey db r.1 a id
  pub keeps_key_by_link :
      (s s' : db.State) (tx link : ℕ) (a : Text) (id : ℕ)
      → db.put_tx_address s tx link ≡ some s'
      → HasKey db s a id
      → HasKey db s' a id

module _ (btcutil : Btcutil) (chain : Text) {F : Type 0} (db : AddressStore F)
    (laws : KeepsLinks db) (tx_id : ℕ) where
  open db use {
    State, decode_addresses, get_output, get_address, put_address, get_tx_address, put_tx_address,
  }

  abbrev Kept : State → State → Type 0
  Kept s s' =
      ((id : ℕ) → get_tx_address s tx_id id ≡ true → get_tx_address s' tx_id id ≡ true)
      × ((a : Text) (id : ℕ) → HasKey db s a id → HasKey db s' a id)

  unchanged : (s : State) → Kept s s
  unchanged s = (λ i h. h, λ a i h. h)

  -- The address has a key in the map, which is the key of its row and is linked with the transaction.
  abbrev pub Recorded : AddressIds × State → Text → Type 0
  Recorded r a =
      (id : ℕ) × (r.0 a ≡ some id) × (get_tx_address r.1 tx_id id ≡ true) × HasKey db r.1 a id

  abbrev Links : (Text → State → Go VinError (ℕ × State)) → Type 0
  Links store =
      (a : Text) (s : State) (r : ℕ × State)
      → store a s ≡ ok r
      → (get_tx_address r.1 tx_id r.0 ≡ true) × HasKey db r.1 a r.0 × Kept s r.1

  create_tx_address-links :
      (id : ℕ) (s s' : State)
      → create_tx_address_if_not_exist btcutil chain db tx_id id s ≡ ok s'
      → (get_tx_address s' tx_id id ≡ true) × Kept s s'
  unfolding create_tx_address_if_not_exist
  create_tx_address-links id s s' e = elim (Bool-cases (get_tx_address s tx_id id)) [
    | inl t ↦
        let same = ok-injective s s' (rw (t) at e) in
        (subst (λ x. get_tx_address x tx_id id ≡ true) same t, subst (Kept s) same (unchanged s))
    | inr f ↦
        let stored = or_err-ok put_failed (put_tx_address s tx_id id) s' (rw (f) at e) in
        (
          laws.stores_link s s' tx_id id stored,
          (
            λ i h. laws.keeps_link s s' tx_id id tx_id i stored h,
            λ a i h. laws.keeps_key_by_link s s' tx_id id a i stored h,
          ),
        )
  ]

  put_address-Kept :
      (row : AddressColumns) (s : State) (r : ℕ × State)
      → Owns db s row
      → or_err put_failed (put_address s row) ≡ ok r
      → HasKey db r.1 row.address r.0 × Kept s r.1
  put_address-Kept row s r own e =
      let stored = or_err-ok put_failed (put_address s row) r e in
      (
        laws.stores_address s row r own stored,
        (
          λ id h. laws.keeps_by_address s row r tx_id id stored h,
          λ a id h. laws.keeps_key s row r a id own stored h,
        ),
      )

  linked-links :
      (a : Text) (s : State) (stored : Go VinError (ℕ × State)) (r : ℕ × State)
      → ((r' : ℕ × State) → stored ≡ ok r' → HasKey db r'.1 a r'.0 × Kept s r'.1)
      → linked btcutil chain db tx_id stored ≡ ok r
      → (get_tx_address r.1 tx_id r.0 ≡ true) × HasKey db r.1 a r.0 × Kept s r.1
  linked-links a s stored r keep e =
      let (r', e1, e2) = bind-ok stored _ r e in
      let (s2, f1, f2) =
        bind-ok (create_tx_address_if_not_exist btcutil chain db tx_id r'.0 r'.1)
          (λ x. ok (r'.0, x)) r e2 in
      let (there, kept) = create_tx_address-links r'.0 r'.1 s2 f1 in
      let (key, before) = keep r' e1 in
      let all_kept : Kept s s2 =
        (λ i h. kept.0 i (before.0 i h), λ b i h. kept.1 b i (before.1 b i h)) in
      subst (λ x. (get_tx_address x.1 tx_id x.0 ≡ true) × HasKey db x.1 a x.0 × Kept s x.1)
        (ok-injective (r'.0, s2) r f2) (there, kept.1 a r'.0 key, all_kept)

  stored_address-Kept :
      (unknown : AddressColumns) (found : AddressColumns → State → Go VinError State) (s : State)
      (r : ℕ × State)
      → ((a : AddressColumns) (s' : State)
          → get_address s unknown.address ≡ some a
          → found a s ≡ ok s'
          → Kept s s')
      → stored_address btcutil chain db unknown found s ≡ ok r
      → HasKey db r.1 unknown.address r.0 × Kept s r.1
  stored_address-Kept unknown found s r keep e =
      elim (Option-cases (get_address s unknown.address)) [
        | inl n ↦ put_address-Kept unknown s r (inl n) (rw (stored_address, n) at e)
        | inr (a, h) ↦
            let (s', e1, e2) =
              bind-ok (found a s) (λ x. ok (a.id, x)) r (rw (stored_address, h) at e) in
            let kept = keep a s' h e1 in
            subst (λ x. HasKey db x.1 unknown.address x.0 × Kept s x.1)
              (ok-injective (a.id, s') r e2) (kept.1 unknown.address a.id (a, h, refl), kept)
      ]

  seen_first-Kept :
      (seconds : ℕ) (x : Text) (a : AddressColumns) (s s' : State)
      → get_address s x ≡ some a
      → seen_first btcutil chain db seconds a s ≡ ok s'
      → Kept s s'
  seen_first-Kept seconds x a s s' there e = elim (Option-cases a.first_seen) [
    | inl n ↦ subst (Kept s) (ok-injective s s' (rw (n) at e)) (unchanged s)
    | inr (t, h) ↦ elim (Bool-cases (t == 0)) [
      | inl z ↦
          let newer : AddressColumns = record a { first_seen = some seconds } in
          let (r, e1, e2) =
            bind-ok (or_err put_failed (put_address s newer)) (λ p. ok p.1) s' (rw (h, z) at e) in
          let at_own : HasKey db s a.address a.id =
            subst (λ y. HasKey db s y a.id) (sym (laws.finds_address s x a there))
              (a, there, refl) in
          subst (Kept s) (ok-injective r.1 s' e2) (put_address-Kept newer s r (inr at_own) e1).1
      | inr z ↦ subst (Kept s) (ok-injective s s' (rw (h, z) at e)) (unchanged s)
    ]
  ]

  vout_address-Links : (seconds : ℕ) → Links (vout_address btcutil chain db tx_id seconds)
  unfolding vout_address
  vout_address-Links seconds a s r e =
      let unknown : AddressColumns = record { id = 0; address = a; first_seen = some seconds } in
      linked-links a s
        (stored_address btcutil chain db unknown (seen_first btcutil chain db seconds) s) r
        (λ r'.
          stored_address-Kept unknown (seen_first btcutil chain db seconds) s r'
            (λ b s'. seen_first-Kept seconds a b s s'))
        e

  vin_address-Links : Links (vin_address btcutil chain db tx_id)
  unfolding vin_address
  vin_address-Links a s r e =
      let unknown : AddressColumns = record { id = 0; address = a; first_seen = none } in
      linked-links a s (stored_address btcutil chain db unknown (λ found s'. ok s') s) r
        (λ r'.
          stored_address-Kept unknown (λ found s'. ok s') s r'
            (λ b s' there same. subst (Kept s) (ok-injective s s' same) (unchanged s)))
        e

  update_same : (m : AddressIds) (a : Text) (id : ℕ) → update m a (some id) a ≡ some id
  update_same m a id = elim (text_discrete a a) as (λ d. ite d (some id) (m a) ≡ some id) [
    | yes p ↦ refl
    | no n ↦ absurd (n refl)
  ]

  -- Another address keeps its key, and the same one has the new key, which is linked as well.
  update-Recorded :
      (m : AddressIds) (a b : Text) (s : State) (put : ℕ × State)
      → (get_tx_address put.1 tx_id put.0 ≡ true) × HasKey db put.1 a put.0 × Kept s put.1
      → Recorded (m, s) b
      → Recorded (update m a (some put.0), put.1) b
  update-Recorded m a b s put (there, key, kept) (id, known, link, own) =
      elim (text_discrete a b)
        as (λ d.
          (i : ℕ) × (ite d (some put.0) (m b) ≡ some i)
          × (get_tx_address put.1 tx_id i ≡ true)
          × HasKey db put.1 b i) [
            | yes p ↦ (put.0, refl, there, subst (λ y. HasKey db put.1 y put.0) p key)
            | no n ↦ (id, known, kept.0 id link, kept.1 b id own)
          ]

  note_addresses-keeps :
      (store : Text → State → Go VinError (ℕ × State)) (found : List Text)
      (r r' : AddressIds × State) (b : Text)
      → Links store
      → note_addresses btcutil chain db store found r ≡ ok r'
      → Recorded r b
      → Recorded r' b
  unfolding note_addresses
  note_addresses-keeps store [] r r' b links e h = subst (λ x. Recorded x b) (ok-injective r r' e) h
  note_addresses-keeps store (a ∷ rest) r r' b links e h =
      let (put, e1, e2) = bind-ok (store a r.1) _ r' e in
      note_addresses-keeps store rest (update r.0 a (some put.0), put.1) r' b links e2
        (update-Recorded r.0 a b r.1 put (links a r.1 put e1) h)

  note_addresses-Recorded :
      (store : Text → State → Go VinError (ℕ × State)) (front : List Text) (a : Text)
      (back : List Text) (r r' : AddressIds × State)
      → Links store
      → note_addresses btcutil chain db store (front ++ a ∷ back) r ≡ ok r'
      → Recorded r' a
  unfolding note_addresses
  note_addresses-Recorded store [] a back r r' links e =
      let (put, e1, e2) = bind-ok (store a r.1) _ r' e in
      note_addresses-keeps store back (update r.0 a (some put.0), put.1) r' a links e2
        (let (there, key, kept) = links a r.1 put e1 in
          (put.0, update_same r.0 a put.0, there, key))
  note_addresses-Recorded store (c ∷ front) a back r r' links e =
      let (put, e1, e2) = bind-ok (store c r.1) _ r' e in
      note_addresses-Recorded store front a back (update r.0 c (some put.0), put.1) r' links e2

  module _ {A : Type 0} (addresses : A → State → Go VinError (List Text))
      (store : Text → State → Go VinError (ℕ × State)) (links : Links store) where
    note_all-keeps :
        (xs : List A) (r r' : AddressIds × State) (b : Text)
        → note_all btcutil chain db addresses store xs r ≡ ok r'
        → Recorded r b
        → Recorded r' b
    unfolding note_all
    note_all-keeps [] r r' b e h = subst (λ x. Recorded x b) (ok-injective r r' e) h
    note_all-keeps (x ∷ xs) r r' b e h =
        let (found, e1, e2) = bind-ok (addresses x r.1) _ r' e in
        let (r1, e3, e4) = bind-ok (note_addresses btcutil chain db store found r) _ r' e2 in
        note_all-keeps xs r1 r' b e4 (note_addresses-keeps store found r r1 b links e3 h)

    -- An address that one of the elements has, whatever the state, is recorded in the end.
    note_all-Recorded :
        (before : List A) (x : A) (after : List A) (front : List Text) (a : Text)
        (r r' : AddressIds × State)
        → ((s : State) (found : List Text)
            → addresses x s ≡ ok found
            → (back : List Text) × (found ≡ front ++ a ∷ back))
        → note_all btcutil chain db addresses store (before ++ x ∷ after) r ≡ ok r'
        → Recorded r' a
    unfolding note_all
    note_all-Recorded [] x after front a r r' has e =
        let (found, e1, e2) = bind-ok (addresses x r.1) _ r' e in
        let (r1, e3, e4) = bind-ok (note_addresses btcutil chain db store found r) _ r' e2 in
        let (back, same) = has r.1 found e1 in
        note_all-keeps after r1 r' a e4 (
          note_addresses-Recorded store front a back r r1 links
            (subst (λ l. note_addresses btcutil chain db store l r ≡ ok r1) same e3))
    note_all-Recorded (c ∷ before) x after front a r r' has e =
        let (found, e1, e2) = bind-ok (addresses c r.1) _ r' e in
        let (r1, e3, e4) = bind-ok (note_addresses btcutil chain db store found r) _ r' e2 in
        note_all-Recorded before x after front a r1 r' has e4

  listed_first :
      (o : JsonOutput) (front : List Text) (a : Text) (back : List Text) (s : State)
      (found : List Text)
      → o.addresses ≡ front ++ a ∷ back
      → addresses_of_vout btcutil chain db o s ≡ ok found
      → (rest : List Text) × (found ≡ front ++ a ∷ rest)
  unfolding addresses_of_vout
  listed_first o front a back s found h e =
      let (first, e1, e2) = bind-ok (get_first_address_from_vout btcutil chain o) _ found e in
      let same = ok-injective (o.addresses ++ first ∷ []) found e2 in
      (
        back ++ first ∷ [],
        sym same ∙ ap (λ l. l ++ first ∷ []) h ∙ append_assoc front (a ∷ back) (first ∷ []),
      )

  -- Let the database find a link of a transaction with an address once it is stored, and keep the
  -- links when it stores another link or an address. When the addresses of the outputs of a
  -- transaction are created without error, every address that one of the outputs lists has a key in
  -- the map that is returned, and that key is linked with the transaction in the database.
  vout_addresses-Recorded :
      (before : List JsonOutput) (o : JsonOutput) (after : List JsonOutput) (front : List Text)
      (a : Text) (back : List Text) (seconds : ℕ) (s : State) (r : AddressIds × State)
      → o.addresses ≡ front ++ a ∷ back
      → create_update_vout_addresses btcutil chain db tx_id (before ++ o ∷ after) seconds s ≡ ok r
      → Recorded r a
  unfolding create_update_vout_addresses
  vout_addresses-Recorded before o after front a back seconds s r h e =
      note_all-Recorded (addresses_of_vout btcutil chain db)
        (vout_address btcutil chain db tx_id seconds) (vout_address-Links seconds) before o after
        front a (λ x. none, s) r (λ s' found. listed_first o front a back s' found h) e

  listed_ok : (found given : List Text) → listed btcutil chain db given ≡ ok found → found ≡ given
  listed_ok found [] e = absurd (ground arith)
  listed_ok found (a ∷ rest) e = sym (ok-injective (a ∷ rest) found e)

  spent_first :
      (v : JsonVin) (o : OutputRow F) (l : Text) (front : List Text) (a : Text) (back : List Text)
      (s : State) (found : List Text)
      → get_output s v.tx_id v.vout ≡ some o
      → o.address_list ≡ some l
      → decode_addresses l ≡ some (front ++ a ∷ back)
      → addresses_of_vin btcutil chain db v s ≡ ok found
      → (rest : List Text) × (found ≡ front ++ a ∷ rest)
  unfolding addresses_of_vin
  spent_first v o l front a back s found stored h k e =
      (back, listed_ok found (front ++ a ∷ back) (rw (addresses_of_vin, stored, h, k) at e))

  -- Let the database find a link of a transaction with an address once it is stored, find an
  -- address under the key that storing it gives, and keep links and keys when it stores another
  -- link or an address; let the output that an input spends be stored, whatever is written, with a
  -- list of addresses that decodes. When the addresses of the inputs are created without error,
  -- every address of that list has a key in the map that is returned, and that is the key of its
  -- row and is linked with the transaction in the database.
  pub vin_addresses-Recorded :
      (before : List JsonVin) (v : JsonVin) (after : List JsonVin) (o : OutputRow F) (l : Text)
      (front : List Text) (a : Text) (back : List Text) (s : State) (r : AddressIds × State)
      → ((s' : State) → get_output s' v.tx_id v.vout ≡ some o)
      → o.address_list ≡ some l
      → decode_addresses l ≡ some (front ++ a ∷ back)
      → create_update_vin_addresses btcutil chain db tx_id (before ++ v ∷ after) s ≡ ok r
      → Recorded r a
  unfolding create_update_vin_addresses
  vin_addresses-Recorded before v after o l front a back s r stored h k e =
      note_all-Recorded (addresses_of_vin btcutil chain db) (vin_address btcutil chain db tx_id)
        vin_address-Links before v after front a (λ x. none, s) r
        (λ s' found. spent_first v o l front a back s' found (stored s') h k) e
