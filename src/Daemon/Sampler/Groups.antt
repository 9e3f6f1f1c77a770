-- ===== src/Daemon/Sampler/Groups.antt =====
-- src/daemon/sampler.rs: the rows of each status, as the query groups them.
use wotcrawler.Prelude.{
  ℕ, ◌+◌, ◌≡◌, ◌⊎◌, refl, ◌∙◌, sym, ap, arith, Bool, true, false, Bool-cases, List, [], ◌∷◌, none,
  if◌then◌else◌, map, filter, length, Member, IsDistinct, inl, inr,
}
use mathlib.Core.Option.{get_or}
use wotcrawler.Prelude.Maps.{lookup, insert, lookup-insert}
use wotcrawler.Store.{Status, discovered, in_progress, fetched, not_found, failed, Row}
use wotcrawler.Daemon.Sampler.{status_eq, FrontierCounts, set_count, group_by_status}

-- The field of a status.
abbrev pub of_status : Status → FrontierCounts → ℕ
of_status discovered c = c.discovered
of_status in_progress c = c.in_progress
of_status fetched c = c.fetched
of_status not_found c = c.not_found
of_status failed c = c.failed

-- How many rows have a status.
abbrev pub number : Status → List Row → ℕ
number status rows = length (filter (λ r. status_eq.beq r.status status) rows)

pub of_status-set :
    (status other : Status) (c : FrontierCounts) (n t : ℕ)
    → of_status status (record (set_count c other n) { total = t })
      ≡ (if status_eq.beq other status then n else of_status status c)
of_status-set status other c n t = ground arith

abbrev pub keys : List (Status × ℕ) → List Status
keys groups = map (λ g. g.0) groups

abbrev pub sum : List (Status × ℕ) → ℕ
sum [] = 0
sum ((status, n) ∷ groups) = n + sum groups

Member-keys-insert :
    (j k : Status) (n : ℕ) (groups : List (Status × ℕ))
    → Member j (keys (insert k n groups))
    → (j ≡ k) ⊎ Member j (keys groups)
unfolding insert
Member-keys-insert j k n [] m = m
Member-keys-insert j k n ((i, v) ∷ groups) m = elim (Bool-cases (status_eq.beq i k)) [
  | inl e ↦ inr (rw e at m)
  | inr e ↦ there (Member-keys-insert j k n groups) (rw e at m)
]
  where
    there :
        (Member j (keys (insert k n groups)) → (j ≡ k) ⊎ Member j (keys groups))
        → Member j (i ∷ keys (insert k n groups))
        → (j ≡ k) ⊎ Member j (i ∷ keys groups)
    there ih (inl q) = inr (inl q)
    there ih (inr q) = elim (ih q) [ inl h ↦ inl h | inr h ↦ inr (inr h) ]

insert-IsDistinct :
    (k : Status) (n : ℕ) (groups : List (Status × ℕ))
    → IsDistinct (keys groups)
    → IsDistinct (keys (insert k n groups))
unfolding insert
insert-IsDistinct k n [] d = (λ m. m, tt)
insert-IsDistinct k n ((i, v) ∷ groups) d = elim (Bool-cases (status_eq.beq i k)) [
  | inl e ↦ rw e d
  | inr e ↦ rw e (
    λ m. elim (Member-keys-insert i k n groups m) [
      | inl q ↦ absurd (clash (sym e ∙ (status_eq.beq_iff i k).1 q))
      | inr q ↦ d.0 q
    ],
    insert-IsDistinct k n groups d.1,
  )
]
  where
    clash : Path Bool false true → ⊥
    clash q = cc

pub group_by_status-IsDistinct : (rows : List Row) → IsDistinct (keys (group_by_status rows))
unfolding group_by_status
group_by_status-IsDistinct [] = tt
group_by_status-IsDistinct (r ∷ rows) =
    insert-IsDistinct r.status _ (group_by_status rows) (group_by_status-IsDistinct rows)

sum-insert :
    (k : Status) (groups : List (Status × ℕ))
    → sum (insert k (get_or (lookup k groups) 0 + 1) groups) ≡ sum groups + 1
unfolding insert lookup
sum-insert k [] = refl
sum-insert k ((i, v) ∷ groups) = let ih = sum-insert k groups in ground arith

pub group_by_status-sum : (rows : List Row) → sum (group_by_status rows) ≡ length rows
unfolding group_by_status
group_by_status-sum [] = refl
group_by_status-sum (r ∷ rows) =
    let ih = group_by_status-sum rows in
    let grown = sum-insert r.status (group_by_status rows) in omega arith

pub group_by_status-lookup :
    (rows : List Row) (status : Status)
    → get_or (lookup status (group_by_status rows)) 0 ≡ number status rows
unfolding group_by_status lookup
group_by_status-lookup [] status = refl
group_by_status-lookup (r ∷ rows) status =
    let groups = group_by_status rows in
    let ih = group_by_status-lookup rows in
    ap (λ o. get_or o 0)
      (lookup-insert r.status status (get_or (lookup r.status groups) 0 + 1) groups)
    ∙ elim (Bool-cases (status_eq.beq r.status status)) [
      | inl e ↦
          let here = ih r.status in
          let same : number r.status rows ≡ number status rows =
            ap (λ k. number k rows) ((status_eq.beq_iff r.status status).0 e) in
          rw e (omega arith)
      | inr e ↦ rw e (ih status)
    ]

pub lookup-none :
    (k : Status) (groups : List (Status × ℕ))
    → ((Member k (keys groups)) → ⊥)
    → lookup k groups ≡ none
unfolding lookup
lookup-none k [] absent = refl
lookup-none k ((i, v) ∷ groups) absent = elim (Bool-cases (status_eq.beq i k)) [
  | inl e ↦ absurd (absent (inl (sym ((status_eq.beq_iff i k).0 e))))
  | inr e ↦ rw e (lookup-none k groups (λ m. absent (inr m)))
]
