-- ===== src/Relay/Fetch/Labels.antt =====
-- src/relay/fetch.rs: the text that names a relay only stands in errors.
use Prim.Native.String.{String}
use wotcrawler.Prelude.{
  ℕ, zero, suc, ◌+◌, ◌≡◌, List, [], ◌∷◌, ◌++◌, none, inl, inr, leb, Bool-cases, max,
}
use wotcrawler.Prelude.Results.{Result, ok, err, Result-cases}
use wotcrawler.External.{External}
use wotcrawler.Errors.{RelayError, fetch_timeout, boundary_stall}
use wotcrawler.Relay.Fetch.{
  Pages, Verdict, page, finish, stall, after_window, paginate_from, paginate_chunk,
  max_pages_per_chunk,
}
use wotcrawler.Relay.Fetch.Chunks.{
  Pool, window_of, fetch_window_with_deadline, fetch_chunks, fetch_complete_with_timeout, chunks,
}

module _ (ext : External) where
  open ext use {Event}

  -- The second fetch succeeds wherever the first does, with the same window.
  abbrev Follows :
      (ℕ → ℕ → Result RelayError (List Event)) → (ℕ → ℕ → Result RelayError (List Event)) → Type 0
  Follows f g =
      (index until : ℕ) (window : List Event)
      → f index until ≡ ok window
      → g index until ≡ ok window

  err_not_ok :
      {e : RelayError} {a : List Event} → Path (Result RelayError (List Event)) (err e) (ok a) → ⊥
  err_not_ok q = cc

  paginate_from-Follows :
      (size : ℕ) (f g : ℕ → ℕ → Result RelayError (List Event))
      → Follows f g
      → (left index : ℕ) (st : Pages ext) (out : List Event)
      → paginate_from ext size f left index st ≡ ok out
      → paginate_from ext size g left index st ≡ ok out
  unfolding paginate_from
  paginate_from-Follows size f g follows zero index st out h = h
  paginate_from-Follows size f g follows (suc left) index st out h =
      elim (Result-cases (f index st.until)) [
        | inr (e, q) ↦ absurd (err_not_ok (rw (q, paginate_from) at h))
        | inl (window, q) ↦
            rw (follows index st.until window q, paginate_from)
              (judge (after_window ext size st window)
                (λ next good. paginate_from-Follows size f g follows left (index + 1) next out good)
                (rw (q, paginate_from) at h))
      ]
    where
      judge :
          (v : Verdict ext)
          → ((next : Pages ext)
              → paginate_from ext size f left (index + 1) next ≡ ok out
              → paginate_from ext size g left (index + 1) next ≡ ok out)
          → elim v [
            | page next ↦ paginate_from ext size f left (index + 1) next
            | finish found ↦ ok found
            | stall ↦ err (fetch_timeout (boundary_stall st.until))
          ]
            ≡ ok out
          → elim v [
            | page next ↦ paginate_from ext size g left (index + 1) next
            | finish found ↦ ok found
            | stall ↦ err (fetch_timeout (boundary_stall st.until))
          ]
            ≡ ok out
      judge (page next) loop q = loop next q
      judge (finish found) loop q = q
      judge stall loop q = q

  window_of-Follows :
      (pool : Pool ext) (timeout : ℕ) (l m : String) (chunk : List ℕ)
      → Follows (window_of ext pool timeout l chunk) (window_of ext pool timeout m chunk)
  unfolding window_of fetch_window_with_deadline
  window_of-Follows pool timeout l m chunk index until window h =
      elim (Result-cases (pool chunk index until).1) [
        | inr (e, q) ↦ absurd (err_not_ok (rw q at h))
        | inl (events, q) ↦ elim (Bool-cases (leb timeout (pool chunk index until).0)) [
          | inl late ↦ absurd (err_not_ok (rw (q, late) at h))
          | inr soon ↦ rw (q, soon) (rw (q, soon) at h)
        ]
      ]

  fetch_chunks-label :
      (pool : Pool ext) (size timeout : ℕ) (l m : String) (clock : ℕ → ℕ) (index : ℕ)
      (parts : List (List ℕ)) (all out : List Event)
      → fetch_chunks ext pool size timeout l clock index parts all ≡ ok out
      → fetch_chunks ext pool size timeout m clock index parts all ≡ ok out
  unfolding fetch_chunks paginate_chunk
  fetch_chunks-label pool size timeout l m clock index [] all out h = h
  fetch_chunks-label pool size timeout l m clock index (part ∷ rest) all out h =
      let f = window_of ext pool timeout l part in
      let g = window_of ext pool timeout m part in
      let first : Pages ext = record {
        out = [];
        seen = [];
        until = clock index;
        prev_until = none;
      } in
      elim (Result-cases (paginate_chunk ext size f (clock index))) [
        | inr (e, q) ↦ absurd (err_not_ok (rw q at h))
        | inl (events, q) ↦
            let same : paginate_chunk ext size g (clock index) ≡ ok events =
              paginate_from-Follows size f g (window_of-Follows pool timeout l m part)
                max_pages_per_chunk 0 first events q in
            rw same (
              fetch_chunks-label pool size timeout l m clock (index + 1) rest (all ++ events) out
                (rw q at h))
      ]

  -- What a fetch returns when it succeeds does not depend on the text that names its relay.
  pub fetch_complete_with_timeout-label :
      (pool : Pool ext) (l m : String) (authors : List ℕ) (max_limit max_authors timeout : ℕ)
      (clock : ℕ → ℕ) (out : List Event)
      → fetch_complete_with_timeout ext pool l authors max_limit max_authors timeout clock ≡ ok out
      → fetch_complete_with_timeout ext pool m authors max_limit max_authors timeout clock ≡ ok out
  unfolding fetch_complete_with_timeout
  fetch_complete_with_timeout-label pool l m authors max_limit max_authors timeout clock out h =
      fetch_chunks-label pool (max max_limit 1) timeout l m clock 0
        (chunks (max max_authors 1) authors) [] out h
