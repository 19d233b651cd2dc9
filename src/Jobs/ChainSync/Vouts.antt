-- ===== src/Jobs/ChainSync/Vouts.antt =====
-- alignVouts of daemon/jobs/chainsync.go. Its receiver is a copy of the status, whose log of errors is a
-- slice of the same array as that of the caller: an entry that is changed there is changed for the caller
-- as well, until an append to the copy has to take a larger array; an entry that is appended there is never
-- seen by the caller. The alignment of a single output is an argument.
pub mod Lost
use chainquery.Jobs.ChainSync.ErrorLog.{
  max_chain_sync_errors, add_height, trim, SyncError, record_error,
}
use chainquery.Jobs.ChainSync.Txs.{SyncOutcome}
use chainquery.Prelude.{
  ℕ, zero, suc, ◌+◌, ◌-◌, Bool, Option, none, some, List, [], ◌∷◌, ◌++◌, if◌then◌else◌, length,
  take, drop,
}
use chainquery.Prelude.Text.{Text, text}

-- The log of the copy: the entries of the shared array from `cut` on, which may grow by `spare` before it is
-- moved; or, when it was moved, one that is apart from the log of the caller.
pub data LogCopy : Type 0 where
  sharing : (array : List SyncError) (cut spare : ℕ) → LogCopy
  apart : (log own : List SyncError) → LogCopy

-- The first `n` entries of the array are the log of the caller.
abbrev pub log_of : (n : ℕ) → LogCopy → List SyncError
log_of n (sharing array cut spare) = take n array
log_of n (apart log own) = log

abbrev pub append_to_copy : (n : ℕ) → List SyncError → (cut spare : ℕ) → SyncError → LogCopy
append_to_copy n array cut zero entry = apart (take n array) (trim (drop cut array ++ entry ∷ []))
append_to_copy n array cut (suc spare) entry =
    sharing (array ++ entry ∷ []) (cut + (suc (length (drop cut array)) - max_chain_sync_errors))
      spare

-- recordAndReturnError on the copy.
unfoldable pub record_in_copy : (height : ℕ) (area error : Text) → (n : ℕ) → LogCopy → LogCopy
unfolding record_error add_height
record_in_copy height area error n (apart log own) = apart log (record_error height area error own)
record_in_copy height area error n (sharing array cut spare) =
    elim (add_height height area error (drop cut array)) [
      | some es ↦ sharing (take cut array ++ es) cut spare
      | none ↦
          append_to_copy n array cut spare
            (record { height_found = height ∷ []; error = error; area = area })
    ]

-- Whether an output is stored, and the alignment of one that is, with its error; and the spare
-- capacity of the log when the function is called.
pub record Vouts (O S : Type 0) : Type 0 where
  pub is_stored : S → Text → O → Bool
  pub align_vout : O → S → Option Text × S
  pub decimal : ℕ → Text
  pub spare : List SyncError → ℕ

module _ {O S : Type 0} (db : Vouts O S) (height : ℕ) (hash : Text) where
  open db use {is_stored, align_vout, decimal, spare}

  abbrev missing_vout : ℕ → Text
  missing_vout i =
      text "missing vout "
      ++ hash
      ++ text ":"
      ++ decimal i
      ++ text " after transaction reprocessing"

  abbrev pub noted : (n : ℕ) → LogCopy → Option Text → LogCopy
  noted n copy none = copy
  noted n copy (some e) = record_in_copy height (text "vout-alignment") e n copy

  unfoldable pub align_stored_vouts : (n i : ℕ) → List O → LogCopy → S → Option Text × LogCopy × S
  unfolding record_in_copy
  align_stored_vouts n i [] copy s = (none, copy, s)
  align_stored_vouts n i (v ∷ vs) copy s =
      let out = align_vout v s in
      let rest = align_stored_vouts n (suc i) vs (noted n copy out.0) out.1 in
      if is_stored s hash v then rest else (some (missing_vout i), copy, s)

  unfoldable pub align_vouts : List O → List SyncError → S → SyncOutcome S
  unfolding align_stored_vouts
  align_vouts outs log s =
      let out = align_stored_vouts (length log) 0 outs (sharing log 0 (spare log)) s in
      (out.0, log_of (length log) out.1, out.2)
