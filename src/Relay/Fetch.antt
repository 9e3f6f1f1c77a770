-- ===== src/Relay/Fetch.antt =====
-- src/relay/fetch.rs: pages backwards through the stored events of a relay. The relay is a function
-- from the number of the request and its `until` to a window of events, so it may answer the same
-- request differently each time; the authors, the kind and the limit of the request stay the same.
use wotcrawler.Prelude.{
  ℕ, zero, suc, ◌+◌, ◌-◌, min, Bool, true, false, ◌&&◌, ◌||◌, List, [], ◌∷◌, ◌++◌, Option, none,
  some, leb, ◌==◌, if◌then◌else◌, contains, length,
}
use wotcrawler.Prelude.Results.{Result, ok, err}
use wotcrawler.External.{External}
use wotcrawler.Errors.{RelayError, client, fetch_timeout, page_budget, boundary_stall}
pub mod Window
pub mod Complete
pub mod Labels
pub mod Sound
pub mod Chunks
pub mod Authors
pub mod Tests

abbrev pub max_pages_per_chunk : ℕ
max_pages_per_chunk = 10000

-- The next `until`, or nothing if the chunk is done.
unfoldable pub page_back : ℕ → ℕ → Option ℕ → Option ℕ
page_back returned cap none = none
page_back returned cap (some ts) = if leb cap returned then some ts else none

-- `prev_until == Some(current_until)`.
abbrev pub is_some_of : Option ℕ → ℕ → Bool
is_some_of none n = false
is_some_of (some m) n = m == n

module _ (ext : External) where
  open ext use {Event, id, created_at}

  -- `events.iter().map(|e| e.created_at).min()`.
  unfoldable pub oldest_of : List Event → Option ℕ
  oldest_of [] = none
  oldest_of (e ∷ es) = elim (oldest_of es) [
    | none ↦ some (created_at e)
    | some t ↦ some (min (created_at e) t)
  ]

  -- The variables of the loop.
  pub record Pages : Type 0 where
    pub out : List Event
    pub seen : List ℕ
    pub until : ℕ
    pub prev_until : Option ℕ

  -- The inner loop: the ids seen, the events kept and the count of new ids.
  unfoldable pub absorb : List ℕ → List Event → ℕ → List Event → List ℕ × List Event × ℕ
  absorb seen out new_ids [] = (seen, out, new_ids)
  absorb seen out new_ids (e ∷ es) =
      let old = contains seen (id e) in
      absorb (if old then seen else id e ∷ seen) (if old then out else out ++ e ∷ [])
        (if old then new_ids else new_ids + 1) es

  -- What the loop does after a window.
  pub data Verdict : Type 0 where
    page : Pages → Verdict
    finish : List Event → Verdict
    stall : Verdict

  unfoldable pub after_window : ℕ → Pages → List Event → Verdict
  unfolding page_back oldest_of absorb
  after_window cap st events =
      let returned = length events in
      let back = page_back returned cap (oldest_of events) in
      let (seen, out, new_ids) = absorb st.seen st.out 0 events in
      if new_ids == 0
      then (if leb cap returned && (is_some_of st.prev_until st.until || is_some_of back st.until)
          then stall
          else finish out)
      else elim back [
        | some next ↦
            page (record { out = out; seen = seen; until = next; prev_until = some st.until })
        | none ↦ finish out
      ]

  module _ (cap : ℕ) (fetch : ℕ → ℕ → Result RelayError (List Event)) where
    -- The loop, by recursion on the windows that the budget leaves; `index` counts those used.
    unfoldable pub paginate_from : ℕ → ℕ → Pages → Result RelayError (List Event)
    unfolding after_window
    paginate_from zero index st = err (fetch_timeout page_budget)
    paginate_from (suc left) index st = elim (fetch index st.until) [
      | err e ↦ err e
      | ok events ↦ elim (after_window cap st events) [
        | page next ↦ paginate_from left (index + 1) next
        | finish out ↦ ok out
        | stall ↦ err (fetch_timeout (boundary_stall st.until))
      ]
    ]

    unfoldable pub paginate_chunk : ℕ → Result RelayError (List Event)
    unfolding paginate_from
    paginate_chunk now =
        paginate_from max_pages_per_chunk 0
          (record { out = []; seen = []; until = now; prev_until = none })
