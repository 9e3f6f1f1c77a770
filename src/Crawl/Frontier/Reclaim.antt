-- ===== src/Crawl/Frontier/Reclaim.antt =====
-- src/crawl/frontier.rs: what the sweeps return to the frontier, and how often a row is retried.
use wotcrawler.Prelude.{
  ℕ, zero, suc, ◌+◌, ◌*◌, ◌≤◌, ◌≡◌, ◌∙◌, ◌⊎◌, inl, inr, refl, sym, subst, Bool, true, false, ◌&&◌,
  List, Option, none, some, Member, All-member, Bool-cases, arith,
}
use wotcrawler.Prelude.Results.{ok}
use wotcrawler.Store.{
  Status, discovered, in_progress, fetched, not_found, failed, Row, World, statement,
  update_pubkeys, update_rows,
}
use wotcrawler.Store.Rules.{statement-ok}
use wotcrawler.Store.WellFormed.{WellFormed, IsSound, HasTimes, IsSome}
use wotcrawler.Crawl.Frontier.{
  is_in_progress, is_terminal, is_older, lease, release, requeue, reclaim_stale_on_startup,
  reclaim_stale_by_ttl, reclaim_in_progress_older_than,
}
use wotcrawler.Crawl.Frontier.Claims.{Member-update}

-- A row after a sweep is one before it that was not selected, or the release of one that was.
pub record IsSwept (select : Row → Bool) (old new : List Row) : Type 0 where
  pub origin :
      (x : Row)
      → Member x new
      → (r : Row) × Member r old
        × (((select r ≡ false) × (x ≡ r)) ⊎ ((select r ≡ true) × (x ≡ release r)))

swept :
    (select : Row → Bool) (w v : World) (n : ℕ)
    → statement (update_pubkeys select release) w ≡ (ok n, v)
    → IsSwept select w.db.pubkeys v.db.pubkeys
swept select w v n h =
    let run = statement-ok (update_pubkeys select release) w n v h in
    let rows : update_rows select release w.db.pubkeys ≡ v.db.pubkeys = cc in
    subst (IsSwept select w.db.pubkeys) rows (record {
      origin = λ x m.
          let (r, mr, e) = Member-update select release w.db.pubkeys x m in
          (
            r,
            mr,
            elim (Bool-cases (select r)) [
              | inl s ↦ inr (s, e ∙ rw s refl)
              | inr s ↦ inl (s, e ∙ rw s refl)
            ],
          );
    })

-- A time that is there, and not older than the age.
abbrev pub IsRecent : Option ℕ → ℕ → ℕ → Type 0
IsRecent none secs now = ⊥
IsRecent (some t) secs now = now ≤ t + secs * 1_000_000

recent :
    (at : Option ℕ) (secs now : ℕ) → IsSome at → is_older at secs now ≡ false → IsRecent at secs now
recent none secs now there young = there
recent (some t) secs now there young = ground arith

terminal_time : (s : Status) (f c : Option ℕ) → HasTimes s f c → is_terminal s ≡ true → IsSome f
terminal_time discovered f c h e = cc
terminal_time in_progress f c h e = cc
terminal_time fetched f c h e = h
terminal_time not_found f c h e = h
terminal_time failed f c h e = h

lease_time : (s : Status) (f c : Option ℕ) → HasTimes s f c → is_in_progress s ≡ true → IsSome c
lease_time discovered f c h e = cc
lease_time in_progress f c h e = h
lease_time fetched f c h e = cc
lease_time not_found f c h e = cc
lease_time failed f c h e = cc

-- After a sweep by age that succeeds, on tables that satisfy the invariant, every row with a terminal
-- status was fetched within the age, and the rows that changed are those that were terminal and
-- older, released.
pub reclaim_stale_by_ttl-IsSwept :
    (ttl_secs now : ℕ) (w v : World) (n : ℕ)
    → WellFormed w.db
    → reclaim_stale_by_ttl ttl_secs now w ≡ (ok n, v)
    → IsSwept
        (λ r. is_terminal r.status && is_older r.last_fetched_at ttl_secs now)
        w.db.pubkeys
        v.db.pubkeys
      × ((x : Row)
          → Member x v.db.pubkeys
          → is_terminal x.status ≡ true
          → IsRecent x.last_fetched_at ttl_secs now)
unfolding reclaim_stale_by_ttl
reclaim_stale_by_ttl-IsSwept ttl_secs now w v n p h =
    let select : Row → Bool =
      λ r. is_terminal r.status && is_older r.last_fetched_at ttl_secs now in
    let sweep = swept select w v n h in
    (
      sweep,
      λ x m terminal.
          let (r, mr, split) = sweep.origin x m in
          elim split [
            | inr (_, e) ↦ absurd (released x r e terminal)
            | inl (s, e) ↦
                let here : is_terminal r.status ≡ true =
                  subst (λ y. is_terminal y.status ≡ true) e terminal in
                let young : is_older r.last_fetched_at ttl_secs now ≡ false = rw here at s in
                let times = (All-member IsSound r w.db.pubkeys p.sound mr).times in
                subst (λ y. IsRecent y.last_fetched_at ttl_secs now) (sym e)
                  (recent r.last_fetched_at ttl_secs now
                    (terminal_time r.status r.last_fetched_at r.claimed_at times here) young)
          ],
    )
  where
    released : (x r : Row) → x ≡ release r → is_terminal x.status ≡ true → ⊥
    released x r e t = let q = subst (λ y. is_terminal y.status ≡ true) e t in cc

-- After a sweep of leases that succeeds, on tables that satisfy the invariant, every lease left is
-- within the age, and the rows that changed are those whose lease was older, released: no lease
-- within the age is taken away.
pub reclaim_in_progress_older_than-IsSwept :
    (age_secs now : ℕ) (w v : World) (n : ℕ)
    → WellFormed w.db
    → reclaim_in_progress_older_than age_secs now w ≡ (ok n, v)
    → IsSwept
        (λ r. is_in_progress r.status && is_older r.claimed_at age_secs now)
        w.db.pubkeys
        v.db.pubkeys
      × ((x : Row)
          → Member x v.db.pubkeys
          → is_in_progress x.status ≡ true
          → IsRecent x.claimed_at age_secs now)
unfolding reclaim_in_progress_older_than
reclaim_in_progress_older_than-IsSwept age_secs now w v n p h =
    let select : Row → Bool = λ r. is_in_progress r.status && is_older r.claimed_at age_secs now in
    let sweep = swept select w v n h in
    (
      sweep,
      λ x m leased.
          let (r, mr, split) = sweep.origin x m in
          elim split [
            | inr (_, e) ↦ absurd (released x r e leased)
            | inl (s, e) ↦
                let here : is_in_progress r.status ≡ true =
                  subst (λ y. is_in_progress y.status ≡ true) e leased in
                let young : is_older r.claimed_at age_secs now ≡ false = rw here at s in
                let times = (All-member IsSound r w.db.pubkeys p.sound mr).times in
                subst (λ y. IsRecent y.claimed_at age_secs now) (sym e)
                  (recent r.claimed_at age_secs now
                    (lease_time r.status r.last_fetched_at r.claimed_at times here) young)
          ],
    )
  where
    released : (x r : Row) → x ≡ release r → is_in_progress x.status ≡ true → ⊥
    released x r e t = let q = subst (λ y. is_in_progress y.status ≡ true) e t in cc

-- After the sweep at the start succeeds no row is leased; the rows that changed are those that were,
-- each discovered again with its retries forgotten.
pub reclaim_stale_on_startup-IsSwept :
    (w v : World) (n : ℕ)
    → reclaim_stale_on_startup w ≡ (ok n, v)
    → IsSwept (λ r. is_in_progress r.status) w.db.pubkeys v.db.pubkeys
      × ((x : Row) → Member x v.db.pubkeys → is_in_progress x.status ≡ false)
unfolding reclaim_stale_on_startup
reclaim_stale_on_startup-IsSwept w v n h =
    let sweep = swept (λ r. is_in_progress r.status) w v n h in
    (
      sweep,
      λ x m.
          let (r, mr, split) = sweep.origin x m in
          elim split [
            | inl (s, e) ↦ subst (λ y. is_in_progress y.status ≡ false) (sym e) s
            | inr (_, e) ↦ subst (λ y. is_in_progress y.status ≡ false) (sym e) refl
          ],
    )

-- `k` rounds of a claim and a failed fetch, at any times.
abbrev pub rounds : ℕ → ℕ → (ℕ → ℕ) → Row → Row
rounds max_attempts zero clock r = r
rounds max_attempts (suc k) clock r =
    requeue max_attempts (clock k) (lease (clock k) (rounds max_attempts k clock r))
