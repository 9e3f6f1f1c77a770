-- ===== src/Crawl/Workers/Leases/Work.antt =====
-- src/crawl/mod.rs: a worker leases no row, and settles its batch when it succeeds.
use wotcrawler.Prelude.{
  append_assoc, ℕ, ◌≡◌, ◌∙◌, ◌⊎◌, inl, inr, refl, sym, ap, subst, Bool, true, false, List, [], ◌∷◌,
  ◌++◌, Option, some, Member, Member-append, Member-append_left, Member-append_right, Member-map,
  Member-map_of, All, All-member, All-of_Member, contains, contains→member, not-Member_of_contains,
  Bool-cases,
}
use wotcrawler.Prelude.Results.{Result, ok, err, Result-cases}
use wotcrawler.Store.{Db, World}
use wotcrawler.Store.WellFormed.{WellFormed}
use wotcrawler.Crawl.Frontier.{ClaimedAuthor}
use wotcrawler.Crawl.Apply.Rows.{IsSettled, IsKnown, IsKnown-IsStable, IsSettled-IsStable}
use wotcrawler.Crawl.Apply.Settled.{IsKept}
use wotcrawler.Crawl.Apply.Settled.Writers.{IsStable-IsKept}
use wotcrawler.Crawl.Apply.Kept.Batch.{process_batch-Keeps}
use wotcrawler.Crawl.Apply.Batches.{process_batch_settles}
use wotcrawler.Crawl.Workers.{Conditions, settings, run_worker}
use wotcrawler.External.{External, BindsId}
use wotcrawler.Errors.{StoreError}
use wotcrawler.Relay.Health.{Float}
use wotcrawler.Crawl.Workers.Leases.{author_ids, IsHeld, WellFormed-IsKept}
use wotcrawler.Crawl.Workers.{
  Handle, running, finished, Ending, returned, panicked, Site, Work, work, panic, join_worker,
  join_in_order, found_finished, still_running, applied,
}

module _ (ext : External) (bound : BindsId ext)
    (round_trip : (b : List ℕ) (k : ℕ) → ext.from_slice b ≡ some k → ext.to_bytes k ≡ b)
    (float : Float) (want_kind future_clamp_secs follow_cap max_attempts : ℕ)
    (fallback_enabled : Bool) (nip65_max_write_relays : ℕ) where
  open ext use {Event}

  module _
      (c : Conditions ext float want_kind future_clamp_secs follow_cap max_attempts fallback_enabled
        nip65_max_write_relays)
      (batch : List ClaimedAuthor) (db : Db) where
    abbrev ran : Result StoreError ℕ × World
    ran =
        run_worker ext float want_kind future_clamp_secs follow_cap max_attempts fallback_enabled
          nip65_max_write_relays c batch db

    worker_keeps : (R : Db → Type 0) → IsKept R → R db → R ran.1.db
    unfolding run_worker
    worker_keeps R kept p =
        process_batch-Keeps ext R kept float c.health
          (settings ext float want_kind future_clamp_secs follow_cap max_attempts fallback_enabled
            nip65_max_write_relays c)
          c.fallback_fetch c.relay_list_fetch batch c.union_fetch
          (record { db = db; left = c.left; acts = c.acts }) p

    worker_settles :
        (n : ℕ)
        → All (λ a. IsKnown a.pubkey a.id db.pubkeys) batch
        → ran.0 ≡ ok n
        → All (λ a. IsSettled a.id ran.1.db.pubkeys) batch
    unfolding run_worker
    worker_settles n known e =
        process_batch_settles ext bound float c.health
          (settings ext float want_kind future_clamp_secs follow_cap max_attempts fallback_enabled
            nip65_max_write_relays c)
          c.fallback_fetch c.relay_list_fetch round_trip batch c.union_fetch
          (record { db = db; left = c.left; acts = c.acts }) ran.1 n known (ap (λ r. (r, ran.1)) e)

    -- Whatever becomes of a worker, it leases no row.
    pub run_worker-IsHeld : (held : List ClaimedAuthor) → IsHeld held db → IsHeld held ran.1.db
    run_worker-IsHeld held h = record {
      formed = worker_keeps WellFormed WellFormed-IsKept h.formed;
      known = λ a m.
          worker_keeps (λ d. IsKnown a.pubkey a.id d.pubkeys)
            (IsStable-IsKept (IsKnown a.pubkey a.id) (IsKnown-IsStable a.pubkey a.id))
            (h.known a m);
      free = λ i n.
          worker_keeps (λ d. IsSettled i d.pubkeys)
            (IsStable-IsKept (IsSettled i) (IsSettled-IsStable i)) (h.free i n);
    }

    -- A worker that succeeds settles its batch, so that it is held no more.
    pub run_worker-settles :
        (held rest : List ClaimedAuthor) (n : ℕ)
        → ran.0 ≡ ok n
        → ((a : ClaimedAuthor) → Member a batch → Member a held)
        → ((a : ClaimedAuthor) → Member a rest → Member a held)
        → ((a : ClaimedAuthor) → Member a held → Member a batch ⊎ Member a rest)
        → IsHeld held db
        → IsHeld rest ran.1.db
    run_worker-settles held rest n e ours theirs split h =
        let after = run_worker-IsHeld held h in
        record {
          formed = after.formed;
          known = λ a m. after.known a (theirs a m);
          free = λ i absent. elim (Bool-cases (contains (author_ids batch) i)) [
            | inl in_batch ↦
                let (a, at, is) =
                  Member-map (λ a. a.id) i batch (contains→member (author_ids batch) i in_batch) in
                subst (λ j. IsSettled j ran.1.db.pubkeys) (sym is)
                  (All-member (λ a. IsSettled a.id ran.1.db.pubkeys) a batch
                    (worker_settles n
                      (All-of_Member (λ a. IsKnown a.pubkey a.id db.pubkeys) batch
                        (λ a k. h.known a (ours a k)))
                      e)
                    at)
            | inr out ↦ after.free i (λ m.
                let (a, at, is) = Member-map (λ a. a.id) i held m in
                elim (split a at) [
                  | inl k ↦ not-Member_of_contains (author_ids batch) i out (
                      subst (λ j. Member j (author_ids batch)) (sym is)
                        (Member-map_of (λ a. a.id) a batch k))
                  | inr k ↦ absent (
                      subst (λ j. Member j (author_ids rest)) (sym is)
                        (Member-map_of (λ a. a.id) a rest k))
                ])
          ];
        }

-- The authors that a handle is answerable for: those of a batch that has not succeeded.
unfoldable pub owes : Handle → List ClaimedAuthor
unfolding join_worker
owes (running batch) = batch
owes (finished batch ending) = elim (join_worker ending) [ ok _ ↦ [] | err _ ↦ batch ]

unfoldable pub owed : List Handle → List ClaimedAuthor
unfolding owes
owed [] = []
owed (h ∷ hs) = owes h ++ owed hs

pub owed-append : (xs ys : List Handle) → owed (xs ++ ys) ≡ owed xs ++ owed ys
unfolding owed
owed-append [] ys = refl
owed-append (h ∷ hs) ys = rw (owed-append hs ys) (sym (append_assoc (owes h) (owed hs) (owed ys)))

module _ {A : Type 0} (a : A) (p x b y : List A) where
  -- Membership of a list, with one part of it apart.
  Member-take_out : Member a (p ++ (x ++ (b ++ y))) → Member a b ⊎ Member a (p ++ (x ++ y))
  Member-take_out m = elim (Member-append a p (x ++ (b ++ y)) m) [
    | inl k ↦ inr (Member-append_left a p (x ++ y) k)
    | inr k ↦ elim (Member-append a x (b ++ y) k) [
      | inl l ↦ inr (Member-append_right a p (x ++ y) (Member-append_left a x y l))
      | inr l ↦ elim (Member-append a b y l) [
        | inl n ↦ inl n
        | inr n ↦ inr (Member-append_right a p (x ++ y) (Member-append_right a x y n))
      ]
    ]
  ]

  Member-part : Member a b → Member a (p ++ (x ++ (b ++ y)))
  Member-part m =
      Member-append_right a p (x ++ (b ++ y))
        (Member-append_right a x (b ++ y) (Member-append_left a b y m))

  Member-others : Member a (p ++ (x ++ y)) → Member a (p ++ (x ++ (b ++ y)))
  Member-others m = elim (Member-append a p (x ++ y) m) [
    | inl k ↦ Member-append_left a p (x ++ (b ++ y)) k
    | inr k ↦ elim (Member-append a x y k) [
      | inl l ↦ Member-append_right a p (x ++ (b ++ y)) (Member-append_left a x (b ++ y) l)
      | inr l ↦
          Member-append_right a p (x ++ (b ++ y))
            (Member-append_right a x (b ++ y) (Member-append_right a b y l))
    ]
  ]

-- What is owed with one handle among others.
owed_among :
    (before after : List Handle) (h : Handle)
    → owed (before ++ h ∷ after) ≡ owed before ++ (owes h ++ owed after)
unfolding owed
owed_among before after h = owed-append before (h ∷ after)

module _ (ext : External) (bound : BindsId ext)
    (round_trip : (b : List ℕ) (k : ℕ) → ext.from_slice b ≡ some k → ext.to_bytes k ≡ b)
    (float : Float) (want_kind future_clamp_secs follow_cap max_attempts : ℕ)
    (fallback_enabled : Bool) (nip65_max_write_relays : ℕ) where
  -- A step of the workers keeps track of the leases.
  pub Work-IsHeld :
      (pending : List ClaimedAuthor) {s t : Site}
      → Work ext float want_kind future_clamp_secs follow_cap max_attempts fallback_enabled
          nip65_max_write_relays s t
      → IsHeld (pending ++ owed s.workers) s.db
      → IsHeld (pending ++ owed t.workers) t.db
  unfolding owes join_worker
  Work-IsHeld pending {s} (panic before after batch c at) h =
      let run =
        run_worker ext float want_kind future_clamp_secs follow_cap max_attempts fallback_enabled
          nip65_max_write_relays c batch s.db in
      let same : owed s.workers ≡ owed (before ++ finished batch panicked ∷ after) =
        ap owed at
        ∙ owed_among before after (running batch)
        ∙ sym (owed_among before after (finished batch panicked)) in
      run_worker-IsHeld ext bound round_trip float want_kind future_clamp_secs follow_cap
        max_attempts fallback_enabled nip65_max_write_relays c batch s.db
        (pending ++ owed (before ++ finished batch panicked ∷ after))
        (subst (λ o. IsHeld (pending ++ o) s.db) same h)
  Work-IsHeld pending {s} (work before after batch c at) h =
      let run =
        run_worker ext float want_kind future_clamp_secs follow_cap max_attempts fallback_enabled
          nip65_max_write_relays c batch s.db in
      let held : IsHeld (pending ++ (owed before ++ (batch ++ owed after))) s.db =
        subst (λ o. IsHeld (pending ++ o) s.db)
          (ap owed at ∙ owed_among before after (running batch)) h in
      elim (Result-cases run.0) [
        | inr (e, failed) ↦
            let now : owed (before ++ finished batch (returned (applied run.0)) ∷ after)
                ≡ owed before ++ (batch ++ owed after) =
              owed_among before after (finished batch (returned (applied run.0)))
              ∙ rw failed refl in
            subst (λ o. IsHeld (pending ++ o) run.1.db) (sym now)
              (run_worker-IsHeld ext bound round_trip float want_kind future_clamp_secs follow_cap
                max_attempts fallback_enabled nip65_max_write_relays c batch s.db
                (pending ++ (owed before ++ (batch ++ owed after))) held)
        | inl (n, worked) ↦
            let now : owed (before ++ finished batch (returned (applied run.0)) ∷ after)
                ≡ owed before ++ owed after =
              owed_among before after (finished batch (returned (applied run.0)))
              ∙ rw worked refl in
            subst (λ o. IsHeld (pending ++ o) run.1.db) (sym now)
              (run_worker-settles ext bound round_trip float want_kind future_clamp_secs follow_cap
                max_attempts fallback_enabled nip65_max_write_relays c batch s.db
                (pending ++ (owed before ++ (batch ++ owed after)))
                (pending ++ (owed before ++ owed after)) n worked
                (λ a m. Member-part a pending (owed before) batch (owed after) m)
                (λ a m. Member-others a pending (owed before) batch (owed after) m)
                (λ a m. Member-take_out a pending (owed before) batch (owed after) m) held)
      ]

-- The first of handles that join without an error owes nothing, and the others join so too.
join_first :
    (batch : List ClaimedAuthor) (ending : Ending) (hs : List Handle)
    → join_in_order (finished batch ending ∷ hs) ≡ some (ok tt)
    → (owes (finished batch ending) ≡ []) × (join_in_order hs ≡ some (ok tt))
unfolding join_in_order owes
join_first batch ending hs h = elim (Result-cases (join_worker ending)) [
  | inl (u, e) ↦ (rw (owes, e) refl, rw (join_in_order, e) at h)
  | inr (x, e) ↦ absurd (stopped x (rw (join_in_order, e) at h))
]
  where
    stopped :
        (x : StoreError) → Path (Option (Result StoreError Unit)) (some (err x)) (some (ok tt)) → ⊥
    stopped x q = cc

waits :
    (batch : List ClaimedAuthor) (hs : List Handle)
    → join_in_order (running batch ∷ hs) ≡ some (ok tt)
    → ⊥
unfolding join_in_order
waits batch hs h = cc

-- Handles that join without an error owe nothing.
pub join_in_order-owed : (hs : List Handle) → join_in_order hs ≡ some (ok tt) → owed hs ≡ []
unfolding owed
join_in_order-owed [] h = refl
join_in_order-owed (running batch ∷ hs) h = absurd (waits batch hs h)
join_in_order-owed (finished batch ending ∷ hs) h =
    let (free, rest) = join_first batch ending hs h in
    ap (λ o. o ++ owed hs) free ∙ join_in_order-owed hs rest

-- A reaping that joins without an error leaves all that is owed.
pub reap-owed :
    (seen : List Bool) (hs : List Handle)
    → join_in_order (found_finished seen hs) ≡ some (ok tt)
    → owed hs ≡ owed (still_running seen hs)
unfolding found_finished still_running owed
reap-owed seen [] h = refl
reap-owed seen (running batch ∷ hs) h = ap (λ o. batch ++ o) (reap-owed seen hs h)
reap-owed [] (finished batch ending ∷ hs) h =
    ap (λ o. owes (finished batch ending) ++ o) (reap-owed [] hs h)
reap-owed (false ∷ seen) (finished batch ending ∷ hs) h =
    ap (λ o. owes (finished batch ending) ++ o) (reap-owed seen hs h)
reap-owed (true ∷ seen) (finished batch ending ∷ hs) h =
    let (free, rest) = join_first batch ending (found_finished seen hs) h in
    ap (λ o. o ++ owed hs) free ∙ reap-owed seen hs rest

not_empty : (before after : List Handle) (h : Handle) → before ++ h ∷ after ≡ [] → ⊥
not_empty [] after h q = cc
not_empty (x ∷ before) after h q = cc

module _ (ext : External) (float : Float) (want_kind future_clamp_secs follow_cap max_attempts : ℕ)
    (fallback_enabled : Bool) (nip65_max_write_relays : ℕ) where
  abbrev Works : Site → Site → Type 0
  Works =
      Work ext float want_kind future_clamp_secs follow_cap max_attempts fallback_enabled
        nip65_max_write_relays

  -- A worker at work stands among the handles, before its step and after it.
  pub was_busy : {s t : Site} → Works s t → s.workers ≡ [] → ⊥
  was_busy (work before after batch c at) q = not_empty before after (running batch) (sym at ∙ q)
  was_busy (panic before after batch c at) q = not_empty before after (running batch) (sym at ∙ q)

  pub is_busy : {s t : Site} → Works s t → t.workers ≡ [] → ⊥
  is_busy (work before after batch c at) q = not_empty before after _ q
  is_busy (panic before after batch c at) q = not_empty before after _ q
