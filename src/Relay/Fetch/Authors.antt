-- ===== src/Relay/Fetch/Authors.antt =====
-- src/relay/fetch.rs: a fetch over all chunks of authors that is reported as done is complete.
use Prim.Native.String.{String}
use wotcrawler.Prelude.{
  ℕ, zero, suc, ◌+◌, ◌≤◌, ◌<◌, ◌≡◌, ◌⊎◌, inl, inr, refl, List, [], ◌∷◌, ◌++◌, Bool-cases, take,
  drop, length, Member, Member-append_left, Member-append_right, Member-filter, Member-filter_of,
  member→contains, filter, subst, sym, ◌∙◌, contains, arith, max, leb,
}
use wotcrawler.Prelude.Results.{Result, ok, err, Result-cases}
use wotcrawler.External.{External}
use wotcrawler.Errors.{RelayError}
use wotcrawler.Relay.Fetch.{paginate_chunk}
use wotcrawler.Relay.Fetch.Complete.{IsNewest, IsHonest, paginate_chunk-Covers}
use wotcrawler.Relay.Fetch.Chunks.{
  Pool, fetch_window_with_deadline, chunks_within, chunks, window_of, fetch_chunks,
  fetch_complete_with_timeout,
}

module _ {A : Type 0} where
  ok_injective : {a b : A} → Path (Result RelayError A) (ok a) (ok b) → a ≡ b
  ok_injective q = cc

  err_not_ok : {e : RelayError} {a : A} → Path (Result RelayError A) (err e) (ok a) → ⊥
  err_not_ok q = cc

  Member-take_drop :
      (n : ℕ) (a : A) (xs : List A) → Member a xs → Member a (take n xs) ⊎ Member a (drop n xs)
  Member-take_drop zero a xs m = inr m
  Member-take_drop (suc n) a [] m = absurd m
  Member-take_drop (suc n) a (x ∷ xs) (inl e) = inl (inl e)
  Member-take_drop (suc n) a (x ∷ xs) (inr m) = elim (Member-take_drop n a xs m) [
    | inl k ↦ inl (inr k)
    | inr k ↦ inr k
  ]

  length-drop : (n : ℕ) (xs : List A) → length (drop n xs) ≤ length xs
  length-drop zero xs = omega arith
  length-drop (suc n) [] = omega arith
  length-drop (suc n) (x ∷ xs) = let ih = length-drop n xs in omega arith

  chunks_within-Member :
      (n size : ℕ) (a : A) (xs : List A)
      → length xs ≤ n
      → Member a xs
      → (c : List A) × Member c (chunks_within n (suc size) xs) × Member a c
  unfolding chunks_within
  chunks_within-Member zero size a [] few m = absurd m
  chunks_within-Member zero size a (x ∷ xs) few m = absurd (omega arith)
  chunks_within-Member (suc n) size a [] few m = absurd m
  chunks_within-Member (suc n) size a (x ∷ xs) few m =
      let shorter = length-drop size xs in
      elim (Member-take_drop (suc size) a (x ∷ xs) m) [
        | inl k ↦ (take (suc size) (x ∷ xs), inl refl, k)
        | inr k ↦
            let (c, at, within) = chunks_within-Member n size a (drop size xs) (omega arith) k in
            (c, inr at, within)
      ]

  chunks-Member :
      (size : ℕ) (a : A) (xs : List A)
      → 0 < size
      → Member a xs
      → (c : List A) × Member c (chunks size xs) × Member a c
  unfolding chunks
  chunks-Member zero a xs positive m = absurd (omega arith)
  chunks-Member (suc size) a xs positive m =
      chunks_within-Member (length xs) size a xs (omega arith) m

module _ (ext : External) (store : List ext.Event) (cap timeout start : ℕ)
    (positive : 0 < cap) where
  open ext use {Event, id, pubkey, created_at}

  abbrev pub of_authors : List ℕ → List Event
  of_authors chunk = filter (λ x. contains chunk (pubkey x)) store

  -- What the pool gives before the deadline, it has from the relay, which answers newest first.
  abbrev pub IsFaithful : Pool ext → Type 0
  IsFaithful pool =
      (chunk : List ℕ) (index until : ℕ) (window : List Event)
      → (pool chunk index until).1 ≡ ok window
      → (pool chunk index until).0 < timeout
      → IsNewest ext (of_authors chunk) cap until window

  module _
      (binds : (a b : Event)
        → Member a store
        → Member b store
        → id a ≡ id b
        → created_at a ≡ created_at b)
      (pool : Pool ext) (faithful : IsFaithful pool) (label : String) where
    window_of-IsHonest :
        (chunk : List ℕ)
        → IsHonest ext (of_authors chunk) cap (window_of ext pool timeout label chunk)
    unfolding window_of fetch_window_with_deadline
    window_of-IsHonest chunk index until window h = elim (Result-cases (pool chunk index until).1) [
      | inl (events, e) ↦ elim (Bool-cases (leb timeout (pool chunk index until).0)) [
        | inl late ↦ absurd (err_not_ok (rw (e, late) at h))
        | inr soon ↦
            let all : Path (Result RelayError (List Event)) (ok events) (ok window) =
              rw (e, soon) at h in
            faithful chunk index until window (e ∙ all) (ground arith)
      ]
      | inr (r, e) ↦ absurd (err_not_ok (rw e at h))
    ]

    abbrev Held : List Event → List ℕ → Type 0
    Held out chunk =
        (x : Event)
        → Member x (of_authors chunk)
        → created_at x ≤ start
        → (y : Event) × Member y out × Member y store × (id y ≡ id x)

    part_binds :
        (part : List ℕ) (a b : Event)
        → Member a (of_authors part)
        → Member b (of_authors part)
        → id a ≡ id b
        → created_at a ≡ created_at b
    part_binds part a b p q e =
        binds a b (Member-filter (λ x. contains part (pubkey x)) a store p).0
          (Member-filter (λ x. contains part (pubkey x)) b store q).0 e

    fetch_chunks-Covers :
        (clock : ℕ → ℕ)
        → ((i : ℕ) → start ≤ clock i)
        → (index : ℕ) (parts : List (List ℕ)) (all out : List Event)
        → fetch_chunks ext pool cap timeout label clock index parts all ≡ ok out
        → ((y : Event) → Member y all → Member y out)
          × ((chunk : List ℕ) → Member chunk parts → Held out chunk)
    unfolding fetch_chunks
    fetch_chunks-Covers clock later index [] all out h =
        (λ y m. subst (Member y) (ok_injective h) m, λ chunk m. absurd m)
    fetch_chunks-Covers clock later index (part ∷ rest) all out h =
        elim (Result-cases
          (paginate_chunk ext cap (window_of ext pool timeout label part) (clock index))) [
            | inl (events, e) ↦
                let (kept, held) =
                  fetch_chunks-Covers clock later (index + 1) rest (all ++ events) out
                    (rw e at h) in
                (
                  λ y m. kept y (Member-append_left y all events m),
                  λ chunk m. elim m [
                    | inl q ↦ subst (Held out) (sym q) (λ x at early.
                        let (y, found, own, same) =
                          paginate_chunk-Covers ext (of_authors part) cap (clock index) positive
                            (part_binds part) (window_of ext pool timeout label part)
                            (window_of-IsHonest part) events e x at
                            (let l = later index in omega arith) in
                        (
                          y,
                          kept y (Member-append_right y all events found),
                          (Member-filter (λ e. contains part (pubkey e)) y store own).0,
                          same,
                        ))
                    | inr k ↦ held chunk k
                  ],
                )
            | inr (r, e) ↦ absurd (err_not_ok (rw e at h))
          ]

    -- If ids tell stored events of different times apart, the pool gives before the deadline what a
    -- relay has for a chunk that answers newest first, and no chunk starts before `start`, then a
    -- fetch that is reported as done holds, for every stored event of an author asked for up to the
    -- time `start`, a stored event of its id. (The cap is the limit of the relay, or one if that is zero.)
    pub fetch_complete_with_timeout-Covers :
        (authors : List ℕ) (max_limit max_authors : ℕ) (clock : ℕ → ℕ)
        → max max_limit 1 ≡ cap
        → ((i : ℕ) → start ≤ clock i)
        → (out : List Event)
        → fetch_complete_with_timeout ext pool label authors max_limit max_authors timeout clock
          ≡ ok out
        → (x : Event) → Member x store
        → Member (pubkey x) authors
        → created_at x ≤ start
        → (y : Event) × Member y out × Member y store × (id y ≡ id x)
    unfolding fetch_complete_with_timeout
    fetch_complete_with_timeout-Covers authors max_limit max_authors clock same later out h x at
          asked early =
        let (part, of, within) =
          chunks-Member (max max_authors 1) (pubkey x) authors (omega arith) asked in
        (fetch_chunks-Covers clock later 0 (chunks (max max_authors 1) authors) [] out
            (rw same at h)).1
          part of x
          (Member-filter_of (λ x. contains part (pubkey x)) x store at
            (member→contains part (pubkey x) within))
          early
