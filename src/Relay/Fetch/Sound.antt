-- ===== src/Relay/Fetch/Sound.antt =====
-- src/relay/fetch.rs: what a chunk holds, whatever the relay answers.
use wotcrawler.Prelude.{
  ℕ, zero, suc, ◌+◌, ◌≡◌, ◌≢◌, ◌∙◌, inl, inr, refl, sym, ap, subst, List, [], ◌∷◌, ◌++◌, none,
  Bool-cases, Member, map, IsDistinct, contains, not-Member_of_contains, Member-append, Member-map,
  Member-map_of,
}
use wotcrawler.Prelude.Results.{Result, ok, err, Result-cases}
use wotcrawler.External.{External}
use wotcrawler.Errors.{RelayError, fetch_timeout, boundary_stall}
use wotcrawler.Relay.Fetch.{
  Pages, Verdict, page, finish, stall, absorb, after_window, paginate_from, paginate_chunk,
  max_pages_per_chunk,
}
use wotcrawler.Relay.Fetch.Window.{absorb-Absorbs, after_window_cases}

module _ (ext : External) where
  open ext use {Event, id}

  -- Every id kept has been seen, and no id is kept twice.
  pub record IsClean (seen : List ℕ) (out : List Event) : Type 0 where
    pub distinct : IsDistinct (map id out)
    pub marked : (x : Event) → Member x out → Member (id x) seen

  ids-snoc :
      (out : List Event) (e : Event)
      → IsDistinct (map id out)
      → ((x : Event) → Member x out → id x ≢ id e)
      → IsDistinct (map id (out ++ e ∷ []))
  ids-snoc [] e d n = ((λ m. m), tt)
  ids-snoc (x ∷ xs) e d n = (
    (λ m.
        let (y, my, ey) = Member-map id (id x) (xs ++ e ∷ []) m in
        elim (Member-append y xs (e ∷ []) my) [
          | inl h ↦ d.0 (subst (λ i. Member i (map id xs)) (sym ey) (Member-map_of id y xs h))
          | inr h ↦ elim h [ inl s ↦ n x (inl refl) (ey ∙ ap id s) | inr f ↦ elim f [ ] ]
        ]),
    ids-snoc xs e d.1 (λ y m. n y (inr m)),
  )

  absorb-IsClean :
      (seen : List ℕ) (out : List Event) (n : ℕ) (events : List Event)
      → IsClean seen out
      → IsClean (absorb ext seen out n events).0 (absorb ext seen out n events).1
  unfolding absorb
  absorb-IsClean seen out n [] c = c
  absorb-IsClean seen out n (e ∷ es) c = elim (Bool-cases (contains seen (id e))) [
    | inl old ↦ rw (old, absorb) (absorb-IsClean seen out n es c)
    | inr new ↦
        let fresh = not-Member_of_contains seen (id e) new in
        rw (new, absorb)
          (absorb-IsClean (id e ∷ seen) (out ++ e ∷ []) (n + 1) es (record {
            distinct =
                ids-snoc out e c.distinct
                  (λ x m s. fresh (subst (λ i. Member i seen) s (c.marked x m)));
            marked = λ x m. elim (Member-append x out (e ∷ []) m) [
              | inl h ↦ inr (c.marked x h)
              | inr h ↦ elim h [ inl s ↦ inl (ap id s) | inr f ↦ elim f [ ] ]
            ];
          }))
  ]

  module _ (cap : ℕ) (fetch : ℕ → ℕ → Result RelayError (List Event)) where
    -- The relay sent `x` in the window of some request.
    abbrev pub WasSent : Event → Type 0
    WasSent x =
        (index : ℕ) × (until : ℕ) × (window : List Event) × (fetch index until ≡ ok window)
        × Member x window

    pub record IsSound (out : List Event) : Type 0 where
      pub once : IsDistinct (map id out)
      pub sent : (x : Event) → Member x out → WasSent x

    abbrev Good : Verdict ext → Type 0
    Good (page st) = IsClean st.seen st.out × IsSound st.out
    Good (finish out) = IsSound out
    Good stall = Unit

    after_window-Good :
        (st : Pages ext) (index : ℕ) (window : List Event)
        → fetch index st.until ≡ ok window
        → IsClean st.seen st.out
        → IsSound st.out
        → Good (after_window ext cap st window)
    after_window-Good st index window f clean sound = elim (after_window_cases ext cap st window) [
      | inl e ↦ rw e sound'
      | inr (inl e) ↦ rw e tt
      | inr (inr (o, e)) ↦ rw e (clean', sound')
    ]
      where
        absorbed : List ℕ × List Event × ℕ
        absorbed = absorb ext st.seen st.out 0 window

        clean' : IsClean absorbed.0 absorbed.1
        clean' = absorb-IsClean st.seen st.out 0 window clean

        sound' : IsSound absorbed.1
        sound' = record {
          once = clean'.distinct;
          sent = λ x m. elim ((absorb-Absorbs ext st.seen st.out 0 window).new_out x m) [
            | inl h ↦ sound.sent x h
            | inr h ↦ (index, st.until, window, f, h)
          ];
        }

    paginate_from-IsSound :
        (left index : ℕ) (st : Pages ext) (out : List Event)
        → IsClean st.seen st.out
        → IsSound st.out
        → paginate_from ext cap fetch left index st ≡ ok out
        → IsSound out
    unfolding paginate_from
    paginate_from-IsSound zero index st out clean sound h = cc
    paginate_from-IsSound (suc left) index st out clean sound h =
        elim (Result-cases (fetch index st.until)) [
          | inr (e, f) ↦ absurd (failed e (rw (f, paginate_from) at h))
          | inl (window, f) ↦
              judge (after_window ext cap st window)
                (after_window-Good st index window f clean sound)
                (λ next c s. paginate_from-IsSound left (index + 1) next out c s)
                (rw (f, paginate_from) at h)
        ]
      where
        failed : (e : RelayError) → Path (Result RelayError (List Event)) (err e) (ok out) → ⊥
        failed e q = cc

        judge :
            (v : Verdict ext)
            → Good v
            → ((next : Pages ext)
                → IsClean next.seen next.out
                → IsSound next.out
                → paginate_from ext cap fetch left (index + 1) next ≡ ok out
                → IsSound out)
            → elim v [
              | page next ↦ paginate_from ext cap fetch left (index + 1) next
              | finish found ↦ ok found
              | stall ↦ err (fetch_timeout (boundary_stall st.until))
            ]
              ≡ ok out
            → IsSound out
        judge (page next) good loop q = loop next good.0 good.1 q
        judge (finish found) good loop q = subst IsSound (cc) good
        judge stall good loop q = cc

    -- Whatever the relay answers: a chunk that is reported as done holds no id twice, and only
    -- events that the relay sent for one of the requests.
    pub paginate_chunk-IsSound :
        (now : ℕ) (out : List Event) → paginate_chunk ext cap fetch now ≡ ok out → IsSound out
    unfolding paginate_chunk
    paginate_chunk-IsSound now out h =
        paginate_from-IsSound max_pages_per_chunk 0
          (record { out = []; seen = []; until = now; prev_until = none }) out
          (record { distinct = tt; marked = λ x m. absurd m })
          (record { once = tt; sent = λ x m. absurd m }) h
