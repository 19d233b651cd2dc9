-- ===== src/Lbrycrd/Outpoint.antt =====
-- ClaimIDFromOutpoint of lbrycrd/blockchain.go. The two hash functions are parameters.
use chainquery.Prelude.{ℕ, ◌/◌, ◌%◌, ◌^◌, Option, none, some, [], ◌∷◌, ◌++◌}
use chainquery.Prelude.Text.{Text}
use chainquery.Util.Bytes.{reverse_bytes}
use chainquery.Lbrycrd.Hex.{Bytes, hex_decode, hex_encode}

pub record Hashes : Type 0 where
  pub sha256 : Bytes → Bytes
  pub ripemd160 : Bytes → Bytes

-- `binary.BigEndian.PutUint32` of `uint32(nout)`.
unfoldable pub put_uint32 : ℕ → Bytes
put_uint32 nout =
    let n = nout % 2 ^ 32 in (n / 2 ^ 24) ∷ (n / 2 ^ 16 % 256) ∷ (n / 2 ^ 8 % 256) ∷ (n % 256) ∷ []

-- `none` is the error of the hex decoder.
unfoldable pub claim_id_from_outpoint : Hashes → Text → ℕ → Option Text
unfolding put_uint32
claim_id_from_outpoint hash txid nout = elim (hex_decode txid) [
  | none ↦ none
  | some txid_bytes ↦ some (
      hex_encode (
        reverse_bytes (hash.ripemd160 (hash.sha256 (reverse_bytes txid_bytes ++ put_uint32 nout)))))
]
