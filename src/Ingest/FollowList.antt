-- ===== src/Ingest/FollowList.antt =====
-- src/ingest/follow_list.rs: the bounded set of followed keys of an event.
use wotcrawler.Prelude.{
  ℕ, List, [], ◌∷◌, ◌++◌, Option, none, some, ltb, ◌==◌, if◌then◌else◌, contains, length,
}
use wotcrawler.External.{External}

-- The body of the loop. The `HashSet` and the vector hold the same keys, so one list is both.
abbrev pub push_followee : ℕ → List ℕ → ℕ → List ℕ
push_followee author followees pk =
    if pk == author
    then followees
    else if contains followees pk
    then followees
    else followees ++ pk ∷ []

unfoldable pub collect_followees : ℕ → List ℕ → List ℕ → List ℕ
collect_followees author followees [] = followees
collect_followees author followees (pk ∷ pks) =
    collect_followees author (push_followee author followees pk) pks

module _ (ext : External) where
  open ext use {Event, pubkey, public_keys}

  unfoldable pub followee_pubkeys : Event → ℕ → Option (List ℕ)
  unfolding collect_followees
  followee_pubkeys event follow_cap =
      let followees = collect_followees (pubkey event) [] (public_keys event) in
      if ltb follow_cap (length followees) then none else some followees
