-- ===== src/Tests/Sync.antt =====
-- The synchronisation of claims and the repair of outputs on small tables.
use chainquery.Jobs.OutputFix.{
  SpentClaimRow, Fixing, send, query, write_failed, Reach, here, next, fixing_start, IsStuck,
  fix_outputs_hangs, channel_size,
}
use chainquery.Jobs.TrieSync.Ends.{update_spent_claims_ends, PagesWithin}
use chainquery.Jobs.TrieSync.Spent.{
  out_of_fuel, SpentOutput, update_spent_claims, SpentClaim, SpentStore, selected,
  mark_without_update, mark_each, first_query_marks_updated,
}
use chainquery.Prelude.Go.{err}
use chainquery.Jobs.TrieSync.Run.{JobStatus, Sent, Queries, TrieTables}
use chainquery.Prelude.{
  ℕ, ◌+◌, ◌≤◌, ◌<◌, ◌≡◌, refl, subst, ◌≢◌, inl, inr, Bool, true, false, Option, none, some, List,
  [], ◌∷◌, ◌++◌, map, arith, ltb, if◌then◌else◌, ltb→lt, Bool-cases, length, replicate,
  length-replicate, All,
}
use chainquery.Prelude.Text.{text}

-- The state is the ids that were marked.
abbrev spent_store : SpentStore
spent_store = record {
  State = List ℕ;
  spent_outputs = λ s after. some [];
  claims_of = λ s u hashes. some [];
  mark_spent = λ s id. some (id ∷ s);
  mark_all_spent = λ s ids. some (ids ++ s);
}

abbrev updated_claim : SpentClaim
updated_claim = record {
  id = 4;
  claim_id = text "c";
  transaction_hash_id = some (text "t");
  transaction_hash_update = some (text "u");
}

first_query_marks_updated_example :
    mark_without_update spent_store (map (selected false) (updated_claim ∷ [])) []
    ≡ mark_each spent_store (4 ∷ []) []
first_query_marks_updated_example = first_query_marks_updated spent_store (updated_claim ∷ []) []

abbrev an_output : SpentOutput
an_output = record { id = 3; transaction_hash = text "t" }

-- One output is spent, and its claim is found.
abbrev one_output_store : SpentStore
one_output_store = record spent_store {
  spent_outputs = λ s after. some (if ltb after 3 then an_output ∷ [] else []);
  claims_of = λ s u hashes. some (updated_claim ∷ []);
}

one_output-PagesWithin : PagesWithin one_output_store 3
one_output-PagesWithin s after outputs e =
    let same : (if ltb after 3 then an_output ∷ [] else []) ≡ outputs = cc in
    subst (All (λ (o : SpentOutput). (after < o.id) × (o.id ≤ 3))) same
      (elim (Bool-cases (ltb after 3)) [
        | inl t ↦ rw (t) ((ltb→lt after 3 t, omega arith), tt)
        | inr f ↦ rw (f) tt
      ])

update_spent_claims_ends_example : update_spent_claims one_output_store 4 [] ≢ err out_of_fuel
update_spent_claims_ends_example =
    update_spent_claims_ends one_output_store 3 [] one_output-PagesWithin

-- The state is the row of the status.
abbrev tables : TrieTables
tables = record {
  State = JobStatus;
  load_status = λ s. some s;
  update_spent = λ s. some s;
  block_count = λ s. some 70;
  process_batch = λ height s names. some s;
  update_status = λ s st. some st;
  upsert_status = λ s st. some st;
}

some-injective : {A : Type 0} (a b : A) → some a ≡ some b → a ≡ b
some-injective a b e = cc

abbrev before : JobStatus
before = record {
  last_sync = some 10;
  is_success = true;
  error_message = none;
  previous_sync = none;
  last_height = 60;
}

abbrev all_sent : Sent
all_sent = record { names = text "n" ∷ []; complete = true }

abbrev queries : Queries
queries = record { modified = all_sent; supported = all_sent; new_valid = all_sent }

abbrev after : JobStatus
after = record before { last_sync = some 20; previous_sync = some 10; last_height = 70 }

abbrev a_claim : SpentClaimRow
a_claim = record {
  id = 1;
  claim_id = text "c";
  transaction_hash_update = text "t";
  vout_update = 0;
}

abbrev not_spent : ℕ → SpentClaimRow → Option Bool
not_spent s c = some false

abbrev no_write : ℕ → SpentClaimRow → Option ℕ
no_write s c = none

-- One of 102 claims was sent and taken by the only worker, which could not write it.
abbrev after_failure : Fixing not_spent no_write
after_failure = record {
  pending = replicate 101 a_claim;
  queue = [];
  busy = [];
  workers = 0;
  db = 0;
}

failed_run :
    Reach not_spent no_write
      (fixing_start not_spent no_write 1 (replicate 102 a_claim) 0)
      after_failure
failed_run =
    next
      (next (next here (send a_claim (replicate 101 a_claim) refl (omega arith) refl))
        (query a_claim [] false refl (omega arith) refl refl))
      (write_failed a_claim [] ([], [], refl, refl) refl refl)

fix_outputs_hangs_example :
    (after_failure.pending ≢ [])
    × (t : Fixing not_spent no_write) × Reach not_spent no_write after_failure t
    × IsStuck not_spent no_write t
    × (t.workers ≡ 0)
    × (length t.queue ≡ channel_size)
    × (length (replicate 102 a_claim) ≡ length t.pending + channel_size + 1)
fix_outputs_hangs_example =
    fix_outputs_hangs not_spent no_write 1 (replicate 102 a_claim) 0 (λ s c e. cc) (λ s c. refl)
      (omega (arith, length-replicate 102 a_claim)) failed_run
