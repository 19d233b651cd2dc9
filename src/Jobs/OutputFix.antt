-- ===== src/Jobs/OutputFix.antt =====
-- fixOutputs of daemon/jobs/outputfixsync.go: claims that are marked as spent go through a channel to
-- workers, which mark those as active whose output is not spent. The claims that the queries give are
-- an argument; a step is a send to the channel, the query of a worker on a claim, or its write after it.
use chainquery.Prelude.{
  ℕ, zero, suc, ◌+◌, ◌-◌, ◌*◌, ◌≤◌, ◌<◌, ◌≡◌, refl, sym, ap, subst, ◌∙◌, ◌≢◌, ◌⊎◌, inl, inr, Bool,
  true, false, Option, none, some, List, [], ◌∷◌, ◌++◌, arith, dec_lt, if◌then◌else◌, Option-cases,
  List-cases, length, length-append,
}
use chainquery.Prelude.Text.{Text}

pub record SpentClaimRow : Type 0 where
  pub id : ℕ
  pub claim_id : Text
  pub transaction_hash_update : Text
  pub vout_update : ℕ

-- The buffer of the channel.
abbrev pub channel_size : ℕ
channel_size = 100

some-ne-none : {A : Type 0} (a : A) → some a ≢ none
some-ne-none a e = cc

nil-ne-cons : {A : Type 0} {a : A} {rest : List A} → [] ≢ a ∷ rest
nil-ne-cons e = cc

-- A claim that a worker writes stands somewhere among those that the workers hold.
abbrev Holds : List SpentClaimRow → SpentClaimRow → List SpentClaimRow → Type 0
Holds busy c others =
    (front : List SpentClaimRow) × (back : List SpentClaimRow) × (busy ≡ front ++ c ∷ back)
    × (others ≡ front ++ back)

length-Holds :
    (busy : List SpentClaimRow) (c : SpentClaimRow) (others : List SpentClaimRow)
    → Holds busy c others
    → length busy ≡ suc (length others)
length-Holds busy c others (front, back, b, o) =
    let x = length-append front (c ∷ back) in
    let y = length-append front back in omega (arith, ap length b, ap length o)

module _ {S : Type 0} (is_spent : S → SpentClaimRow → Option Bool)
    (put_active : S → SpentClaimRow → Option S) where
  -- The claims that are not sent yet, those in the channel, those whose output a worker found not to be
  -- spent and is to write, the workers that have not returned, and the database.
  pub record Fixing : Type 0 where
    pub pending : List SpentClaimRow
    pub queue : List SpentClaimRow
    pub busy : List SpentClaimRow
    pub workers : ℕ
    pub db : S

  -- The workers' queries and writes come in any order; a worker returns after an error.
  pub data Step (s t : Fixing) : Type 0 where
    send :
        (c : SpentClaimRow) (rest : List SpentClaimRow)
        → s.pending ≡ c ∷ rest
        → length s.queue < channel_size
        → t ≡ record s { pending = rest; queue = s.queue ++ c ∷ [] }
        → Step s t
    query :
        (c : SpentClaimRow) (rest : List SpentClaimRow) (spent : Bool)
        → s.queue ≡ c ∷ rest
        → length s.busy < s.workers
        → is_spent s.db c ≡ some spent
        → t ≡ record s { queue = rest; busy = if spent then s.busy else c ∷ s.busy }
        → Step s t
    query_failed :
        (c : SpentClaimRow) (rest : List SpentClaimRow) (left : ℕ)
        → s.queue ≡ c ∷ rest
        → s.workers ≡ suc left
        → length s.busy ≤ left
        → is_spent s.db c ≡ none
        → t ≡ record s { queue = rest; workers = left }
        → Step s t
    write :
        (c : SpentClaimRow) (others : List SpentClaimRow) (db : S)
        → Holds s.busy c others
        → put_active s.db c ≡ some db
        → t ≡ record s { busy = others; db = db }
        → Step s t
    write_failed :
        (c : SpentClaimRow) (others : List SpentClaimRow)
        → Holds s.busy c others
        → put_active s.db c ≡ none
        → t ≡ record s { busy = others; workers = s.workers - 1 }
        → Step s t

  pub data Reach (s : Fixing) : Fixing → Type 0 where
    here : Reach s s
    next : {t u : Fixing} → Reach s t → Step t u → Reach s u

  abbrev pub fixing_start : (workers : ℕ) → List SpentClaimRow → S → Fixing
  fixing_start workers claims s = record {
    pending = claims;
    queue = [];
    busy = [];
    workers = workers;
    db = s;
  }

  -- No step is left.
  abbrev pub IsStuck : Fixing → Type 0
  IsStuck s = (t : Fixing) → ¬ Step s t

  -- The work that is left: each claim is sent once, taken once and written at most once.
  abbrev work_left : Fixing → ℕ
  work_left s = 3 * length s.pending + 2 * length s.queue + length s.busy

  -- Every step leaves less to do, so no run goes on for ever.
  Step-work_left : (s t : Fixing) → Step s t → work_left t < work_left s
  Step-work_left s t (send c rest p room e) =
      let size = length-append s.queue (c ∷ []) in rw (e) (omega (arith, ap length p))
  Step-work_left s t (query c rest true q w f e) = rw (e) (omega (arith, ap length q))
  Step-work_left s t (query c rest false q w f e) = rw (e) (omega (arith, ap length q))
  Step-work_left s t (query_failed c rest left q w b f e) = rw (e) (omega (arith, ap length q))
  Step-work_left s t (write c others db h f e) =
      let size = length-Holds s.busy c others h in rw (e) (omega arith)
  Step-work_left s t (write_failed c others h f e) =
      let size = length-Holds s.busy c others h in rw (e) (omega arith)

  Reach-trans : {s t u : Fixing} → Reach s t → Reach t u → Reach s u
  Reach-trans r here = r
  Reach-trans r (next q step) = next (Reach-trans r q) step

  -- No worker can go on, and nothing can be sent.
  abbrev IsBlocked : Fixing → Type 0
  IsBlocked s =
      (s.busy ≡ [])
      × ((s.queue ≡ []) ⊎ (s.workers ≡ 0))
      × ((s.pending ≡ []) ⊎ (channel_size ≤ length s.queue))

  blocked-IsStuck : (s : Fixing) → IsBlocked s → IsStuck s
  blocked-IsStuck s (b, q, inl p) t (send c rest p' room e) = nil-ne-cons (sym p ∙ p')
  blocked-IsStuck s (b, q, inr full) t (send c rest p' room e) = absurd (omega arith)
  blocked-IsStuck s (b, inl q, p) t (query c rest spent q' w f e) = nil-ne-cons (sym q ∙ q')
  blocked-IsStuck s (b, inr z, p) t (query c rest spent q' w f e) = absurd (omega arith)
  blocked-IsStuck s (b, inl q, p) t (query_failed c rest left q' w l f e) = nil-ne-cons (sym q ∙ q')
  blocked-IsStuck s (b, inr z, p) t (query_failed c rest left q' w l f e) = absurd (omega arith)
  blocked-IsStuck s (b, q, p) t (write c others db h f e) =
      absurd (omega (arith, length-Holds s.busy c others h, ap length b))
  blocked-IsStuck s (b, q, p) t (write_failed c others h f e) =
      absurd (omega (arith, length-Holds s.busy c others h, ap length b))

  abbrev CanStep : Fixing → Type 0
  CanStep s = (t : Fixing) × Step s t

  can_write :
      (s : Fixing) (c : SpentClaimRow) (rest : List SpentClaimRow) → s.busy ≡ c ∷ rest → CanStep s
  can_write s c rest b = elim (Option-cases (put_active s.db c)) [
    | inl n ↦ (_, write_failed c rest ([], rest, b, refl) n refl)
    | inr (db, f) ↦ (_, write c rest db ([], rest, b, refl) f refl)
  ]

  can_query :
      (s : Fixing) (c : SpentClaimRow) (rest : List SpentClaimRow)
      → s.queue ≡ c ∷ rest
      → s.busy ≡ []
      → 0 < s.workers
      → CanStep s
  can_query s c rest q b w = elim (Option-cases (is_spent s.db c)) [
    | inl n ↦
        (_, query_failed c rest (s.workers - 1) q (omega arith) (omega (arith, ap length b)) n refl)
    | inr (spent, f) ↦ (_, query c rest spent q (omega (arith, ap length b)) f refl)
  ]

  can_send : (s : Fixing) → CanStep s ⊎ (s.pending ≡ []) ⊎ (channel_size ≤ length s.queue)
  can_send s = elim (List-cases s.pending) [
    | inl p ↦ inr (inl p)
    | inr (c, rest, p) ↦ elim (dec_lt (length s.queue) channel_size) [
      | yes room ↦ inl (_, send c rest p room refl)
      | no full ↦ inr (inr (omega arith))
    ]
  ]

  -- A step that can be taken, or the end.
  step_or_IsBlocked : (s : Fixing) → CanStep s ⊎ IsBlocked s
  step_or_IsBlocked s = elim (List-cases s.busy) [
    | inr (c, rest, b) ↦ inl (can_write s c rest b)
    | inl b ↦ elim (can_send s) [
      | inl step ↦ inl step
      | inr sent ↦ elim (List-cases s.queue) [
        | inl q ↦ inr (b, inl q, sent)
        | inr (c, rest, q) ↦ elim (dec_lt 0 s.workers) [
          | yes w ↦ inl (can_query s c rest q b w)
          | no n ↦ inr (b, inr (omega arith), sent)
        ]
      ]
    ]
  ]

  -- From every state some run comes to an end.
  runs_to_end : (n : ℕ) (s : Fixing) → work_left s < n → (t : Fixing) × Reach s t × IsBlocked t
  runs_to_end zero s h = absurd (omega arith)
  runs_to_end (suc n) s h = elim (step_or_IsBlocked s) [
    | inr blocked ↦ (s, here, blocked)
    | inl (t, step) ↦
        let less = Step-work_left s t step in
        let (u, r, blocked) = runs_to_end n t (omega arith) in
        (u, Reach-trans (next here step) r, blocked)
  ]

  module _ (workers : ℕ) (claims : List SpentClaimRow) (db : S) where
    -- While every claim fails, each one that is done with has cost a worker.
    abbrev Counted : Fixing → Type 0
    Counted s =
        (length s.pending + length s.queue + length s.busy + workers ≡ length claims + s.workers)
        × (length s.queue ≤ channel_size)
        × (length s.busy ≤ s.workers)

    module _ (unspent : (s : S) (c : SpentClaimRow) → is_spent s c ≢ some true)
        (fails : (s : S) (c : SpentClaimRow) → put_active s c ≡ none) where
      Step-Counted : (s t : Fixing) → Step s t → Counted s → Counted t
      Step-Counted s t (send c rest p room e) (sum, small, held) =
          let size = length-append s.queue (c ∷ []) in
          subst Counted (sym e) (omega (arith, ap length p), omega arith, held)
      Step-Counted s t (query c rest true q w f e) (sum, small, held) = absurd (unspent s.db c f)
      Step-Counted s t (query c rest false q w f e) (sum, small, held) =
          subst Counted (sym e)
            (omega (arith, ap length q), omega (arith, ap length q), omega arith)
      Step-Counted s t (query_failed c rest left q w b f e) (sum, small, held) =
          subst Counted (sym e) (omega (arith, ap length q), omega (arith, ap length q), b)
      Step-Counted s t (write c others db' h f e) inv =
          absurd (some-ne-none db' (sym f ∙ fails s.db c))
      Step-Counted s t (write_failed c others h f e) (sum, small, held) =
          let size = length-Holds s.busy c others h in
          subst Counted (sym e) (omega arith, small, omega arith)

      Reach-Counted : {s : Fixing} → Reach (fixing_start workers claims db) s → Counted s
      Reach-Counted here = (omega arith, omega arith, omega arith)
      Reach-Counted (next {t} {u} r st) = Step-Counted t u st (Reach-Counted r)

      -- Let no claim be found spent and let every write of a claim fail, whether or not its query
      -- does, and let there be more claims than workers and places in the channel together. Then no
      -- run ever sends all the claims; and from wherever a run stands, some run comes to a point
      -- from where no step is left: all workers have returned, the channel is full, and as many
      -- claims as there were workers are done with.
      pub fix_outputs_hangs :
          {s : Fixing}
          → workers + channel_size < length claims
          → Reach (fixing_start workers claims db) s
          → (s.pending ≢ [])
            × (t : Fixing) × Reach s t
            × IsStuck t
            × (t.workers ≡ 0)
            × (length t.queue ≡ channel_size)
            × (length claims ≡ length t.pending + channel_size + workers)
      fix_outputs_hangs {s} many r =
          let (sum, small, held) = Reach-Counted r in
          let (t, go, (b, q, p)) = runs_to_end (suc (work_left s)) s (omega arith) in
          let (sum', small', held') = Reach-Counted (Reach-trans r go) in
          let full : channel_size ≤ length t.queue = elim p [
            | inl e ↦ absurd (omega (arith, ap length e))
            | inr h ↦ h
          ] in
          let gone : t.workers ≡ 0 = elim q [
            | inl e ↦ absurd (omega (arith, ap length e))
            | inr z ↦ z
          ] in
          (
            λ e. absurd (omega (arith, ap length e)),
            t,
            go,
            blocked-IsStuck t (b, q, p),
            gone,
            omega arith,
            omega (arith, ap length b),
          )
