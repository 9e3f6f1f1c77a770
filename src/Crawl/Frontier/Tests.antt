-- ===== src/Crawl/Frontier/Tests.antt =====
-- Runs of the frontier, and the theorems on it at concrete inputs.
use wotcrawler.Prelude.{
  ℕ, ◌≡◌, ◌≢◌, inl, inr, refl, ap, Bool, true, false, ◌&&◌, List, [], ◌∷◌, some, pos, arith, Member,
}
use wotcrawler.Prelude.Results.{ok}
use wotcrawler.Store.{in_progress, fetched, Row, World}
use wotcrawler.Store.Pubkeys.{new_row, upsert_pubkey, set_fetch_status, status_of}
use wotcrawler.Store.WellFormed.{WellFormed, IsSound}
use wotcrawler.Crawl.Frontier.{
  ClaimedAuthor, is_terminal, is_older, seed_anchor, claim_batch, reclaim_stale_on_startup,
  reclaim_stale_by_ttl, reclaim_in_progress_older_than, requeue_or_fail,
}
use wotcrawler.Crawl.Frontier.Preserve.{
  Operation, seed, set_status, apply_follows, claim, requeue_failed, run_all, run_all-WellFormed,
}
use wotcrawler.Crawl.Frontier.Claims.{IsClaim, claim_batch-IsClaim, claim_batch_exclusive}
use wotcrawler.Crawl.Frontier.Reclaim.{IsSwept, IsRecent, reclaim_stale_by_ttl-IsSwept}

program : Unit {0}
unfolding claim_batch reclaim_stale_on_startup reclaim_stale_by_ttl reclaim_in_progress_older_than
    requeue_or_fail seed_anchor upsert_pubkey set_fetch_status
program = tt

abbrev key : ℕ → List ℕ
key a =
    a ∷ 0 ∷ 0 ∷ 0 ∷ 0 ∷ 0 ∷ 0 ∷ 0 ∷ 0 ∷ 0 ∷ 0 ∷ 0 ∷ 0 ∷ 0 ∷ 0 ∷ 0 ∷ 0 ∷ 0 ∷ 0 ∷ 0 ∷ 0 ∷ 0 ∷ 0 ∷ 0
    ∷ 0 ∷ 0 ∷ 0 ∷ 0 ∷ 0 ∷ 0 ∷ 0 ∷ 0 ∷ []

abbrev done_row : Row
done_row = record (new_row 2 (key 2)) { status = fetched; last_fetched_at = some 1_000_000 }

abbrev leased_row : Row
leased_row = record (new_row 4 (key 4)) { status = in_progress; claimed_at = some 2_000_000 }

-- Out of order: a discovered row, a fetched one, a discovered one, and a leased one.
abbrev world : World
world = record {
  db = record {
    pubkeys = new_row 3 (key 3) ∷ done_row ∷ new_row 1 (key 1) ∷ leased_row ∷ [];
    follows = [];
    pubkey_relays = [];
    next_id = 5;
  };
  left = 20;
  acts = false;
}

fresh-IsSound : (id a : ℕ) → IsSound (new_row id (key a))
fresh-IsSound id a = record {
  key = refl;
  times = tt;
  churn = omega arith;
  changed = λ h. absurd (omega arith);
  attempts = omega arith;
}

abbrev first : List ℕ → ℕ
first [] = 0
first (x ∷ xs) = x

key-unlike : (a b : ℕ) → a ≢ b → key a ≢ key b
key-unlike a b n e = n (ap first e)

world-WellFormed : WellFormed world.db
world-WellFormed = record {
  sound = (
    fresh-IsSound 3 3,
    (
      record {
        key = refl;
        times = tt;
        churn = omega arith;
        changed = λ h. absurd (omega arith);
        attempts = omega arith;
      },
      (
        fresh-IsSound 1 1,
        (
          record {
            key = refl;
            times = tt;
            churn = omega arith;
            changed = λ h. absurd (omega arith);
            attempts = omega arith;
          },
          tt,
        ),
      ),
    ),
  );
  once = ((λ m. ground arith), ((λ m. ground arith), ((λ m. ground arith), ((λ m. m), tt))));
  keyed = (
    (λ m. elim m [
      | inl e ↦ key-unlike 3 2 (λ q. omega arith) e
      | inr k ↦ elim k [
        | inl e ↦ key-unlike 3 1 (λ q. omega arith) e
        | inr l ↦ elim l [ inl e ↦ key-unlike 3 4 (λ q. omega arith) e | inr n ↦ n ]
      ]
    ]),
    (
      (λ m. elim m [
        | inl e ↦ key-unlike 2 1 (λ q. omega arith) e
        | inr l ↦ elim l [ inl e ↦ key-unlike 2 4 (λ q. omega arith) e | inr n ↦ n ]
      ]),
      ((λ m. elim m [ inl e ↦ key-unlike 1 4 (λ q. omega arith) e | inr n ↦ n ]), ((λ m. m), tt)),
    ),
  );
  fresh = (omega arith, (omega arith, (omega arith, (omega arith, tt))));
  edges = tt;
  edges_once = tt;
  relays = tt;
}

abbrev first_claim : World
unfolding program
first_claim = (claim_batch [] 1 3_000_000 world).1

abbrev second_claim : World
unfolding program
second_claim = (claim_batch (1 ∷ []) 5 4_000_000 world).1

abbrev author : ℕ → ClaimedAuthor
author a = record { id = a; pubkey = key a }

claim_lowest : claim_batch [] 1 3_000_000 world ≡ (ok (author 1 ∷ []), first_claim)
unfolding program
claim_lowest = refl

claim_unlocked : claim_batch (1 ∷ []) 5 4_000_000 world ≡ (ok (author 3 ∷ []), second_claim)
unfolding program
claim_unlocked = refl

claim_batch-IsClaim_example :
    IsClaim [] 1 3_000_000 world.db.pubkeys (author 1 ∷ []) first_claim.db.pubkeys
claim_batch-IsClaim_example =
    claim_batch-IsClaim [] 1 3_000_000 world first_claim (author 1 ∷ []) claim_lowest

claim_batch_exclusive_example : ¬ ((author 1).id ≡ (author 3).id)
claim_batch_exclusive_example =
    claim_batch_exclusive [] 1 3_000_000 world first_claim (author 1 ∷ []) (1 ∷ []) 5 4_000_000
      world second_claim (author 3 ∷ []) claim_lowest claim_unlocked
      (inr (λ a m. elim m [ inl e ↦ inl (ap (λ b. b.id) e) | inr n ↦ absurd n ])) (author 1)
      (author 3) (inl refl) (inl refl)

abbrev swept : World
unfolding program
swept = (reclaim_stale_by_ttl 3600 9_000_000_000 world).1

reclaim_stale_by_ttl-IsSwept_example :
    IsSwept
      (λ r. is_terminal r.status && is_older r.last_fetched_at 3600 9_000_000_000)
      world.db.pubkeys
      swept.db.pubkeys
    × ((x : Row)
        → Member x swept.db.pubkeys
        → is_terminal x.status ≡ true
        → IsRecent x.last_fetched_at 3600 9_000_000_000)
unfolding program
reclaim_stale_by_ttl-IsSwept_example =
    reclaim_stale_by_ttl-IsSwept 3600 9_000_000_000 world swept 1 world-WellFormed refl

abbrev released : World
unfolding program
released = (reclaim_in_progress_older_than 120 9_000_000_000 world).1

abbrev restarted : World
unfolding program
restarted = (reclaim_stale_on_startup world).1

not_leased : status_of "not_found" ≢ some in_progress
unfolding program
not_leased e = cc

abbrev steps : List (Operation × ℕ × Bool)
steps =
    (seed (key 9), 3, false)
    ∷ (claim [] 2 3_000_000, 3, false)
    ∷ (apply_follows 3 77 (pos 100) (1 ∷ 5 ∷ []) 4_000_000, 2, true)
    ∷ (requeue_failed 1 5 4_000_000, 3, false)
    ∷ (set_status 2 "not_found" 5_000_000, 3, false)
    ∷ []

run_all-WellFormed_example : WellFormed (run_all world.db steps)
run_all-WellFormed_example =
    run_all-WellFormed world.db steps world-WellFormed
      (tt, (tt, (tt, (tt, ((λ e. not_leased e), tt)))))
