-- ===== src/Ingest/Replaceable.antt =====
-- src/ingest/replaceable.rs: the future clamp, and the newest event with the lowest id.
use Prim.Native.Nat.{Ordering}
use wotcrawler.Prelude.{
  ℕ, ◌+◌, ◌-◌, ◌^◌, min, compare, Bool, true, false, List, [], ◌∷◌, Option, none, some, ltb,
  if◌then◌else◌, filter,
}
use wotcrawler.External.{External}

-- `u64::saturating_add`.
unfoldable pub saturating_add : ℕ → ℕ → ℕ
saturating_add a b = min (a + b) (2 ^ 64 - 1)

-- `Ordering::then_with`.
abbrev pub then_with : Ordering → Ordering → Ordering
then_with Ordering.eq o = o
then_with Ordering.lt o = Ordering.lt
then_with Ordering.gt o = Ordering.gt

-- `Iterator::max_by`: of two equal elements it keeps the later one.
module _ {ℓ} {A : Type ℓ} (cmp : A → A → Ordering) where
  abbrev pub later_of : A → A → A
  later_of x y = elim (cmp x y) [ Ordering.gt ↦ x | _ ↦ y ]

  unfoldable pub max_from : A → List A → A
  max_from x [] = x
  max_from x (y ∷ ys) = max_from (later_of x y) ys

  unfoldable pub max_by : List A → Option A
  unfolding max_from
  max_by [] = none
  max_by (x ∷ xs) = some (max_from x xs)

unfoldable pub cutoff : ℕ → ℕ → ℕ
unfolding saturating_add
cutoff now future_clamp_secs = saturating_add now future_clamp_secs

module _ (ext : External) where
  open ext use {Event, id, created_at}

  abbrev pub by_newest : Event → Event → Ordering
  by_newest a b = then_with (compare (created_at a) (created_at b)) (compare (id b) (id a))

  -- The test of the `filter`, with the bound as computed before it.
  abbrev pub is_current : ℕ → Event → Bool
  is_current bound event = if ltb bound (created_at event) then false else true

  unfoldable pub pick_winner : List Event → ℕ → ℕ → Option Event
  unfolding cutoff max_by
  pick_winner events now future_clamp_secs =
      max_by by_newest (filter (is_current (cutoff now future_clamp_secs)) events)
