-- ===== src/Relay/Fetch/Complete.antt =====
-- src/relay/fetch.rs: against a relay that answers newest first, a chunk that is reported as done
-- is complete.
use wotcrawler.Prelude.{
  ℕ, zero, suc, ◌+◌, ◌≤◌, ◌<◌, ◌≡◌, ◌⊎◌, inl, inr, refl, subst, List, [], none, some, Option-cases,
  Bool-cases, ◌==◌, Member, length, arith, List-cases, le→leb, ==_iff, ==_refl, or-true,
}
use native.Mathlib.Decide.{dec_lt}
use wotcrawler.Prelude.Results.{Result, ok, err, Result-cases}
use wotcrawler.External.{External}
use wotcrawler.Errors.{RelayError, fetch_timeout, boundary_stall}
use wotcrawler.Relay.Fetch.{
  Pages, Verdict, page, finish, stall, oldest_of, absorb, after_window, paginate_from,
  paginate_chunk, max_pages_per_chunk,
}
use wotcrawler.Relay.Fetch.Window.{IsOldest, oldest_of-IsOldest, Absorbs, absorb-Absorbs}

module _ (ext : External) where
  open ext use {Event, id, created_at}

  -- A window that the relay answers from `store` for `until`: of the stored events not after
  -- `until` it holds all, or at least `cap` of the newest.
  pub record IsNewest (store : List Event) (cap until : ℕ) (window : List Event) : Type 0 where
    pub stored : (x : Event) → Member x window → Member x store
    pub within : (x : Event) → Member x window → created_at x ≤ until
    pub short :
        length window < cap → (x : Event) → Member x store → created_at x ≤ until → Member x window
    pub newest_first :
        (x : Event)
        → Member x store
        → created_at x ≤ until
        → Member x window ⊎ ((y : Event) → Member y window → created_at x ≤ created_at y)

  -- Each answer of the relay is such a window or an error.
  abbrev pub IsHonest : List Event → ℕ → (ℕ → ℕ → Result RelayError (List Event)) → Type 0
  IsHonest store cap fetch =
      (index until : ℕ) (window : List Event)
      → fetch index until ≡ ok window
      → IsNewest store cap until window

  module _ (store : List Event) (cap now : ℕ) (positive : 0 < cap)
      (binds : (a b : Event)
        → Member a store
        → Member b store
        → id a ≡ id b
        → created_at a ≡ created_at b) where
    -- All stored events after `until` have been seen, and what is kept is of `until` or after it.
    pub record IsComplete (st : Pages ext) : Type 0 where
      pub after :
          (x : Event)
          → Member x store
          → created_at x ≤ now
          → st.until < created_at x
          → Member (id x) st.seen
      pub backed : (i : ℕ) → Member i st.seen → (x : Event) × Member x st.out × (id x ≡ i)
      pub stored : (x : Event) → Member x st.out → Member x store × (st.until ≤ created_at x)

    abbrev Covers : List Event → Type 0
    Covers out =
        (x : Event)
        → Member x store
        → created_at x ≤ now
        → (y : Event) × Member y out × Member y store × (id y ≡ id x)

    -- What a verdict has to satisfy.
    abbrev Good : Verdict ext → Type 0
    Good (page st) = IsComplete st
    Good (finish out) = Covers out
    Good stall = Unit

    module _ (st : Pages ext) (window : List Event) (inv : IsComplete st)
        (newest : IsNewest store cap st.until window) where
      abbrev absorbed : List ℕ × List Event × ℕ
      absorbed = absorb ext st.seen st.out 0 window

      absorbs : Absorbs ext st.seen st.out 0 window absorbed
      absorbs = absorb-Absorbs ext st.seen st.out 0 window

      from_store : (y : Event) → Member y absorbed.1 → Member y store
      from_store y m = elim (absorbs.new_out y m) [
        | inl h ↦ (inv.stored y h).0
        | inr h ↦ newest.stored y h
      ]

      -- A short window is the end of the data.
      short-Covers : length window < cap → Covers absorbed.1
      short-Covers few x m early =
          let (y, kept, same) =
            absorbs.backed inv.backed (id x) (elim (dec_lt st.until (created_at x)) [
              | yes p ↦ absorbs.keeps_seen (id x) (inv.after x m early p)
              | no p ↦ absorbs.sees x (newest.short few x m (omega arith))
            ]) in
          (y, kept, from_store y kept, same)

      -- A full window with nothing new cannot reach below `until`.
      no_progress : absorbed.2 ≡ 0 → (o : ℕ) → IsOldest ext window (some o) → o ≡ st.until
      no_progress idle o ((y, my, ey), _) =
          let seen_y = subst (Member (id y)) (absorbs.idle idle) (absorbs.sees y my) in
          let (d, md, ed) = inv.backed (id y) seen_y in
          let (sd, late) = inv.stored d md in
          let same = binds d y sd (newest.stored y my) ed in
          let early = newest.within y my in omega arith

      next-IsComplete :
          (o : ℕ)
          → IsOldest ext window (some o)
          → IsComplete (record {
            out = absorbed.1;
            seen = absorbed.0;
            until = o;
            prev_until = some st.until;
          })
      next-IsComplete o ((y, my, ey), below) = record {
        after = λ x m early late. elim (dec_lt st.until (created_at x)) [
          | yes p ↦ absorbs.keeps_seen (id x) (inv.after x m early p)
          | no p ↦ elim (newest.newest_first x m (omega arith)) [
            | inl h ↦ absorbs.sees x h
            | inr h ↦ let b = h y my in absurd (omega arith)
          ]
        ];
        backed = absorbs.backed inv.backed;
        stored = λ x m. elim (absorbs.new_out x m) [
          | inl h ↦
              let (s, l) = inv.stored x h in let early = newest.within y my in (s, omega arith)
          | inr h ↦ (newest.stored x h, below x h)
        ];
      }

      empty-short : IsOldest ext window none → length window < cap
      empty-short none_there = elim (List-cases window) [
        | inl e ↦ rw (e, length) positive
        | inr (x, xs, e) ↦ absurd (none_there x (rw e (inl refl)))
      ]

      after_window-short : length window < cap → after_window ext cap st window ≡ finish absorbed.1
      unfolding after_window
      after_window-short few = elim (Option-cases (oldest_of ext window)) [
        | inl e ↦ rw e (ground arith)
        | inr (o, e) ↦ rw e (ground arith)
      ]

      after_window-full :
          (o : ℕ)
          → cap ≤ length window
          → oldest_of ext window ≡ some o
          → Good (after_window ext cap st window)
      unfolding after_window
      after_window-full o full e = elim (Bool-cases (absorbed.2 == 0)) [
        | inr new ↦
            rw (e, le→leb cap (length window) full, new, after_window)
              (next-IsComplete o (subst (IsOldest ext window) e (oldest_of-IsOldest ext window)))
        | inl idle ↦
            let reached : o ≡ st.until =
              no_progress ((==_iff absorbed.2 0).0 idle) o
                (subst (IsOldest ext window) e (oldest_of-IsOldest ext window)) in
            rw (e, le→leb cap (length window) full, idle, reached, ==_refl, or-true, after_window)
              tt
      ]

      after_window-Good : Good (after_window ext cap st window)
      after_window-Good = elim (dec_lt (length window) cap) [
        | yes few ↦ rw (after_window-short few) (short-Covers few)
        | no full ↦ elim (Option-cases (oldest_of ext window)) [
          | inl e ↦
              let none_there : IsOldest ext window none =
                subst (IsOldest ext window) e (oldest_of-IsOldest ext window) in
              absurd (full (empty-short none_there))
          | inr (o, e) ↦ after_window-full o (omega arith) e
        ]
      ]

    module _ (fetch : ℕ → ℕ → Result RelayError (List Event))
        (honest : IsHonest store cap fetch) where
      paginate_from-Covers :
          (left index : ℕ) (st : Pages ext) (out : List Event)
          → IsComplete st
          → paginate_from ext cap fetch left index st ≡ ok out
          → Covers out
      unfolding paginate_from
      paginate_from-Covers zero index st out inv h = cc
      paginate_from-Covers (suc left) index st out inv h =
          elim (Result-cases (fetch index st.until)) [
            | inr (e, f) ↦ absurd (failed e (rw (f, paginate_from) at h))
            | inl (window, f) ↦
                let newest = honest index st.until window f in
                judge (after_window ext cap st window) (after_window-Good st window inv newest)
                  (λ next good. paginate_from-Covers left (index + 1) next out good)
                  (rw (f, paginate_from) at h)
          ]
        where
          failed : (e : RelayError) → Path (Result RelayError (List Event)) (err e) (ok out) → ⊥
          failed e q = cc

          judge :
              (v : Verdict ext)
              → Good v
              → ((next : Pages ext)
                  → IsComplete next
                  → paginate_from ext cap fetch left (index + 1) next ≡ ok out
                  → Covers out)
              → elim v [
                | page next ↦ paginate_from ext cap fetch left (index + 1) next
                | finish found ↦ ok found
                | stall ↦ err (fetch_timeout (boundary_stall st.until))
              ]
                ≡ ok out
              → Covers out
          judge (page next) good loop q = loop next good q
          judge (finish found) good loop q = subst Covers (cc) good
          judge stall good loop q = cc

      -- If the relay answers newest first, and ids tell stored events of different times apart, then
      -- a chunk that is reported as done holds, for every stored event up to the time of the call, a
      -- stored event of its id. (The cap is not zero, as the callers see to.)
      pub paginate_chunk-Covers :
          (out : List Event) → paginate_chunk ext cap fetch now ≡ ok out → Covers out
      unfolding paginate_chunk
      paginate_chunk-Covers out h =
          paginate_from-Covers max_pages_per_chunk 0
            (record { out = []; seen = []; until = now; prev_until = none }) out
            (record {
              after = λ x m early late. absurd (omega arith);
              backed = λ i m. absurd m;
              stored = λ x m. absurd m;
            })
            h
