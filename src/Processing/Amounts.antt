-- ===== src/Processing/Amounts.antt =====
-- The debits and credits of the addresses of one transaction, in daemon/processing/transaction.go. The
-- amounts are values of a type with an addition and a zero; the lock makes a call atomic, so calls
-- from several goroutines are a list of postings in some order.
use chainquery.Prelude.{◌≡◌, refl, ite, Option, none, some, List, [], ◌∷◌, arith}
use chainquery.Prelude.Text.{Text, text_discrete}
use chainquery.Processing.Graph.{update}

pub record AddrDebitCredits (F : Type 0) : Type 0 where
  pub debits : F
  pub credits : F

-- A missing address is a nil pointer.
abbrev pub TxDebitCredits : Type 0 → Type 0
TxDebitCredits F = Text → Option (AddrDebitCredits F)

unfoldable pub new_tx_debit_credits : {F : Type 0} → TxDebitCredits F
new_tx_debit_credits address = none

-- A call of `subtract` or of `add`.
pub data Posting (F : Type 0) : Type 0 where
  debit credit : Text → F → Posting F

module _ {F : Type 0} (zero_amount : F) (plus : F → F → F) where
  -- The entry, or a new one.
  abbrev entry_or_new : Option (AddrDebitCredits F) → AddrDebitCredits F
  entry_or_new none = record { debits = zero_amount; credits = zero_amount }
  entry_or_new (some dc) = dc

  unfoldable pub subtract : TxDebitCredits F → Text → F → TxDebitCredits F
  subtract dcs address value =
      let dc = entry_or_new (dcs address) in
      update dcs address (some (record dc { debits = plus dc.debits value }))

  unfoldable pub add : TxDebitCredits F → Text → F → TxDebitCredits F
  add dcs address value =
      let dc = entry_or_new (dcs address) in
      update dcs address (some (record dc { credits = plus dc.credits value }))

  unfoldable pub post_all : TxDebitCredits F → List (Posting F) → TxDebitCredits F
  post_all dcs [] = dcs
  post_all dcs (debit address value ∷ ps) = post_all (subtract dcs address value) ps
  post_all dcs (credit address value ∷ ps) = post_all (add dcs address value) ps

  -- The amounts debited to and credited to an address, in order.
  abbrev debits_to : Text → List (Posting F) → List F
  debits_to a [] = []
  debits_to a (debit address value ∷ ps) =
      ite (text_discrete address a) (value ∷ debits_to a ps) (debits_to a ps)
  debits_to a (credit address value ∷ ps) = debits_to a ps

  abbrev credits_to : Text → List (Posting F) → List F
  credits_to a [] = []
  credits_to a (credit address value ∷ ps) =
      ite (text_discrete address a) (value ∷ credits_to a ps) (credits_to a ps)
  credits_to a (debit address value ∷ ps) = credits_to a ps

  abbrev pub total : F → List F → F
  total sum [] = sum
  total sum (v ∷ vs) = total (plus sum v) vs

  post_all-total :
      (ps : List (Posting F)) (dcs : TxDebitCredits F) (a : Text)
      → ((entry_or_new (post_all dcs ps a)).debits
          ≡ total (entry_or_new (dcs a)).debits (debits_to a ps))
        × ((entry_or_new (post_all dcs ps a)).credits
            ≡ total (entry_or_new (dcs a)).credits (credits_to a ps))
  unfolding post_all subtract add
  post_all-total [] dcs a = (refl, refl)
  post_all-total (debit address value ∷ ps) dcs a =
      let rest = post_all-total ps (subtract dcs address value) a in ground arith
  post_all-total (credit address value ∷ ps) dcs a =
      let rest = post_all-total ps (add dcs address value) a in ground arith

  -- After any calls of subtract and add on a new map, the debits of an address are the total of the
  -- amounts subtracted for it, and its credits the total of those added, in the order of the calls;
  -- an address without an entry counts as zero.
  pub amounts_of_postings :
      (ps : List (Posting F)) (a : Text)
      → ((entry_or_new (post_all new_tx_debit_credits ps a)).debits
          ≡ total zero_amount (debits_to a ps))
        × ((entry_or_new (post_all new_tx_debit_credits ps a)).credits
            ≡ total zero_amount (credits_to a ps))
  unfolding new_tx_debit_credits
  amounts_of_postings ps a = post_all-total ps new_tx_debit_credits a
