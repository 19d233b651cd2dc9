-- ===== src/Lbrycrd/Address.antt =====
-- lbrycrd/script.go: the parameters of the chains, the type of a public key script and the addresses.
-- btcutil and txscript are parameters, as is the configured name of the chain.
use chainquery.Lbrycrd.Script.{ScriptError, op_update_claim, Parse}
use chainquery.Lbrycrd.Hex.{hex_decode-hex_encode, Bytes, hex_encode, hex_decode, IsByte}
use chainquery.Prelude.Go.{index-append, ◌>>=◌, index, ok, panic}
use chainquery.Prelude.{
  ℕ, ◌-◌, ◌≡◌, ap, subst, ite, Bool, true, false, not, Option, none, some, List, [], ◌∷◌, ◌++◌,
  append_assoc, arith, ltb, ◌==◌, if◌then◌else◌, length, length-append, All,
}
use chainquery.Prelude.Text.{Text, text, text_discrete}

-- The fields of btcd's chaincfg.Params that are set.
pub record ChainParams : Type 0 where
  pub pub_key_hash_addr_id : ℕ
  pub script_hash_addr_id : ℕ
  pub private_key_id : ℕ
  pub bech32_hrp_segwit : Text

abbrev main_net_params : ChainParams
main_net_params = record {
  pub_key_hash_addr_id = 85;
  script_hash_addr_id = 122;
  private_key_id = 0x1c;
  bech32_hrp_segwit = text "lbc";
}

abbrev test_net_params : ChainParams
test_net_params = record {
  pub_key_hash_addr_id = 111;
  script_hash_addr_id = 196;
  private_key_id = 0x1c;
  bech32_hrp_segwit = text "tlbc";
}

abbrev reg_test_net_params : ChainParams
reg_test_net_params = record {
  pub_key_hash_addr_id = 111;
  script_hash_addr_id = 196;
  private_key_id = 0x1c;
  bech32_hrp_segwit = text "rlbc";
}

unfoldable pub get_chain_params : Text → Option ChainParams
get_chain_params name = ite (text_discrete name (text "lbrycrd_main")) (some main_net_params) (
    ite (text_discrete name (text "lbrycrd_testnet")) (some test_net_params)
      (ite (text_discrete name (text "lbrycrd_regtest")) (some reg_test_net_params) none))

-- The encoded addresses of btcutil, and what txscript says of a script.
pub record Btcutil : Type 0 where
  pub new_address_pub_key : Bytes → ChainParams → Option Text
  pub new_address_pub_key_hash : Bytes → ChainParams → Option Text
  pub new_address_script_hash_from_hash : Bytes → ChainParams → Option Text
  pub new_address_witness_pub_key_hash : Bytes → ChainParams → Option Text
  pub new_address_witness_script_hash : Bytes → ChainParams → Option Text
  pub extract_pk_script_addrs : Bytes → ChainParams → List Text
  pub is_pay_to_witness_pub_key_hash : Bytes → Bool
  pub is_pay_to_witness_script_hash : Bytes → Bool

abbrev op_dup : ℕ
op_dup = 0x76

abbrev op_checksig : ℕ
op_checksig = 0xac

abbrev op_equalverify : ℕ
op_equalverify = 0x88

abbrev op_hash160 : ℕ
op_hash160 = 0xa9

pub data ScriptType : Type 0 where
  p2_pk p2_pkh p2_sh p2_wpkh p2_wsh non_standard : ScriptType

-- Go's `&&`: the second test is made only where the first holds.
infixr 6 ◌and_then◌
abbrev ◌and_then◌ : Parse Bool → Parse Bool → Parse Bool
p and_then q = p >>= λ b. (if b then q else ok false)

-- `script[len(script)-k] == code`
abbrev from_end : ℕ → Bytes → ℕ → Parse Bool
from_end k script code =
    if ltb (length script) k
    then panic
    else (index script (length script - k) >>= λ b. ok (b == code))

abbrev at_is : Bytes → ℕ → ℕ → Parse Bool
at_is script i code = index script i >>= λ b. ok (b == code)

unfoldable is_pay_to_public_key : Bytes → Parse Bool
is_pay_to_public_key script =
    from_end 1 script op_checksig
    and_then from_end 2 script op_equalverify
    and_then (index script 0 >>= λ b. ok (not (b == op_dup)))

unfoldable is_pay_to_public_key_hash_script : Bytes → Parse Bool
is_pay_to_public_key_hash_script script =
    ok (ltb 0 (length script)) and_then at_is script 0 op_dup and_then at_is script 1 op_hash160

unfoldable is_pay_to_script_hash_script : Bytes → Bool
is_pay_to_script_hash_script [] = false
is_pay_to_script_hash_script (b ∷ script) = b == op_update_claim

from_end-last : (xs : Bytes) (y code : ℕ) → from_end 1 (xs ++ y ∷ []) code ≡ ok (y == code)
from_end-last xs y code =
    let size = length-append xs (y ∷ []) in
    let at : index {E = ScriptError} (xs ++ y ∷ []) (length (xs ++ y ∷ []) - 1) ≡ ok y =
      index-append xs y [] (length (xs ++ y ∷ []) - 1) (omega arith) in
    ground arith

from_end-before : (xs : Bytes) (y z code : ℕ) → from_end 2 (xs ++ y ∷ z ∷ []) code ≡ ok (y == code)
from_end-before xs y z code =
    let size = length-append xs (y ∷ z ∷ []) in
    let at : index {E = ScriptError} (xs ++ y ∷ z ∷ []) (length (xs ++ y ∷ z ∷ []) - 2) ≡ ok y =
      index-append xs y (z ∷ []) (length (xs ++ y ∷ z ∷ []) - 2) (omega arith) in
    ground arith

module _ (btc : Btcutil) where
  unfoldable get_public_key_script_type : Bytes → Parse ScriptType
  get_public_key_script_type script = is_pay_to_public_key script >>= λ pk.
      if pk
      then ok p2_pk
      else (is_pay_to_public_key_hash_script script >>= λ pkh. ok (
          if pkh
          then p2_pkh
          else if is_pay_to_script_hash_script script
          then p2_sh
          else if btc.is_pay_to_witness_pub_key_hash script
          then p2_wpkh
          else if btc.is_pay_to_witness_script_hash script
          then p2_wsh
          else non_standard))

  -- "" stands for no address.
  unfoldable pub get_address_from_public_key_script : (chain : Text) → Bytes → Text
  get_address_from_public_key_script chain script = elim (get_chain_params chain) [
    | none ↦ []
    | some params ↦ elim (btc.extract_pk_script_addrs script params) [ [] ↦ [] | a ∷ rest ↦ a ]
  ]

  -- The shape of the five functions that follow; `none` is an error.
  abbrev address_from : (Bytes → ChainParams → Option Text) → (chain : Text) → Text → Option Text
  address_from make chain hexstring = elim (hex_decode hexstring) [
    | none ↦ none
    | some b ↦ elim (get_chain_params chain) [ none ↦ none | some params ↦ make b params ]
  ]

  unfoldable pub get_address_from_p2_pk : (chain : Text) → Text → Option Text
  get_address_from_p2_pk chain hexstring = address_from btc.new_address_pub_key chain hexstring

  unfoldable pub get_address_from_p2_pkh : (chain : Text) → Text → Option Text
  get_address_from_p2_pkh chain hexstring =
      address_from btc.new_address_pub_key_hash chain hexstring

  unfoldable pub get_address_from_p2_sh : (chain : Text) → Text → Option Text
  get_address_from_p2_sh chain hexstring =
      address_from btc.new_address_script_hash_from_hash chain hexstring

  unfoldable pub get_address_from_p2_wpkh : (chain : Text) → Text → Option Text
  get_address_from_p2_wpkh chain hexstring =
      address_from btc.new_address_witness_pub_key_hash chain hexstring

  unfoldable pub get_address_from_p2_wsh : (chain : Text) → Text → Option Text
  get_address_from_p2_wsh chain hexstring =
      address_from btc.new_address_witness_script_hash chain hexstring

  -- A script that pays to the hash of a public key is classified as such, whatever the bytes of the
  -- hash are; a script that pays to the hash of a script is classified as nonstandard, where
  -- txscript says that it is no witness program.
  script_types :
      (hash : Bytes)
      → btc.is_pay_to_witness_pub_key_hash (op_hash160 ∷ 20 ∷ hash ++ 0x87 ∷ []) ≡ false
      → btc.is_pay_to_witness_script_hash (op_hash160 ∷ 20 ∷ hash ++ 0x87 ∷ []) ≡ false
      → (get_public_key_script_type
            (op_dup ∷ op_hash160 ∷ 20 ∷ hash ++ op_equalverify ∷ op_checksig ∷ [])
          ≡ ok p2_pkh)
        × (get_public_key_script_type (op_hash160 ∷ 20 ∷ hash ++ 0x87 ∷ []) ≡ ok non_standard)
  unfolding get_public_key_script_type is_pay_to_public_key is_pay_to_public_key_hash_script
      is_pay_to_script_hash_script index
  script_types hash w v =
      let front = op_dup ∷ op_hash160 ∷ 20 ∷ hash in
      let last = from_end-last (front ++ op_equalverify ∷ []) op_checksig op_checksig in
      let fst = from_end-before front op_equalverify op_checksig op_equalverify in
      let split = append_assoc front (op_equalverify ∷ []) (op_checksig ∷ []) in
      let other = from_end-last (op_hash160 ∷ 20 ∷ hash) 0x87 op_checksig in
      let last' : from_end 1 (front ++ op_equalverify ∷ op_checksig ∷ []) op_checksig ≡ ok true =
        subst (λ l. from_end 1 l op_checksig ≡ ok true) split last in
      (rw (last', fst) (ground arith), rw (other, w, v) (ground arith))

  -- An address of bytes on a chain.
  abbrev of_bytes : (Bytes → ChainParams → Option Text) → (chain : Text) → Bytes → Option Text
  of_bytes make chain b = elim (get_chain_params chain) [ none ↦ none | some p ↦ make b p ]

  address_from-hex_encode :
      (make : Bytes → ChainParams → Option Text) (chain : Text) (b : Bytes)
      → All IsByte b
      → address_from make chain (hex_encode b) ≡ of_bytes make chain b
  address_from-hex_encode make chain b bytes =
      ap (λ (o : Option Bytes). (elim o [ none ↦ none | some x ↦ of_bytes make chain x ]))
        (hex_decode-hex_encode b bytes)

  -- On the hexadecimal text of a list of bytes, each of the five address functions gives what
  -- btcutil gives for the bytes with the parameters of the chain, and an error if the chain is
  -- unknown.
  pub addresses_of_bytes :
      (chain : Text) (b : Bytes)
      → All IsByte b
      → (get_address_from_p2_pk chain (hex_encode b) ≡ of_bytes btc.new_address_pub_key chain b)
        × (get_address_from_p2_pkh chain (hex_encode b)
            ≡ of_bytes btc.new_address_pub_key_hash chain b)
        × (get_address_from_p2_sh chain (hex_encode b)
            ≡ of_bytes btc.new_address_script_hash_from_hash chain b)
        × (get_address_from_p2_wpkh chain (hex_encode b)
            ≡ of_bytes btc.new_address_witness_pub_key_hash chain b)
        × (get_address_from_p2_wsh chain (hex_encode b)
            ≡ of_bytes btc.new_address_witness_script_hash chain b)
  unfolding get_address_from_p2_pk get_address_from_p2_pkh get_address_from_p2_sh
      get_address_from_p2_wpkh get_address_from_p2_wsh
  addresses_of_bytes chain b bytes = (
    address_from-hex_encode btc.new_address_pub_key chain b bytes,
    address_from-hex_encode btc.new_address_pub_key_hash chain b bytes,
    address_from-hex_encode btc.new_address_script_hash_from_hash chain b bytes,
    address_from-hex_encode btc.new_address_witness_pub_key_hash chain b bytes,
    address_from-hex_encode btc.new_address_witness_script_hash chain b bytes,
  )
