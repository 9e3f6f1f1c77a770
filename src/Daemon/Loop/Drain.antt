-- ===== src/Daemon/Loop/Drain.antt =====
-- src/daemon/loop_.rs: what the join of all workers waits for and answers.
use wotcrawler.Prelude.{
  ◌≡◌, ◌∙◌, ◌↔◌, inl, inr, refl, sym, List, [], ◌∷◌, Option, none, some, arith,
}
use wotcrawler.Prelude.Results.{Result, err, Result-cases}
use wotcrawler.Errors.{StoreError}
use wotcrawler.Crawl.Workers.{join_worker, Handle, running, finished, permits_taken, join_in_order}
use wotcrawler.Daemon.Loop.{first_error, drained, drain_from, drain_all}

-- After a first error no other counts.
drain_from-some :
    (e : StoreError) (hs : List Handle)
    → permits_taken hs ≡ 0
    → drain_from (some e) hs ≡ some (err e)
unfolding drain_from
drain_from-some e [] q = refl
drain_from-some e (running batch ∷ hs) q = absurd (omega arith)
drain_from-some e (finished batch ending ∷ hs) q = drain_from-some e hs q

drain_from-none : (hs : List Handle) → permits_taken hs ≡ 0 → drain_from none hs ≡ join_in_order hs
unfolding drain_from join_in_order
drain_from-none [] q = refl
drain_from-none (running batch ∷ hs) q = absurd (omega arith)
drain_from-none (finished batch ending ∷ hs) q = elim (Result-cases (join_worker ending)) [
  | inl (u, e) ↦ rw (join_in_order, e) (drain_from-none hs q)
  | inr (x, e) ↦ rw (join_in_order, e) (drain_from-some x hs q)
]

drain_from-waits :
    (first_err : Option StoreError) (hs : List Handle) (r : Result StoreError Unit)
    → drain_from first_err hs ≡ some r
    → permits_taken hs ≡ 0
unfolding drain_from
drain_from-waits first_err [] r h = refl
drain_from-waits first_err (running batch ∷ hs) r h = cc
drain_from-waits first_err (finished batch ending ∷ hs) r h =
    drain_from-waits (first_error first_err (join_worker ending)) hs r h

drain_from-ends :
    (first_err : Option StoreError) (hs : List Handle)
    → permits_taken hs ≡ 0
    → (r : Result StoreError Unit) × (drain_from first_err hs ≡ some r)
unfolding drain_from
drain_from-ends first_err [] q = (drained first_err, refl)
drain_from-ends first_err (running batch ∷ hs) q = absurd (omega arith)
drain_from-ends first_err (finished batch ending ∷ hs) q =
    drain_from-ends (first_error first_err (join_worker ending)) hs q

-- The join of all workers answers exactly when none runs any more, errors or not, and its answer is
-- then that of a join in order: the error of the first worker that failed, or success if none did.
pub drain_all-eq :
    (hs : List Handle)
    → (((r : Result StoreError Unit) × (drain_all hs ≡ some r)) ↔ (permits_taken hs ≡ 0))
      × ((r : Result StoreError Unit) → drain_all hs ≡ some r → join_in_order hs ≡ some r)
unfolding drain_all
drain_all-eq hs = (
  ((λ (r, h). drain_from-waits none hs r h), (λ q. drain_from-ends none hs q)),
  λ r h. sym (drain_from-none hs (drain_from-waits none hs r h)) ∙ h,
)
