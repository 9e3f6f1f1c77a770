-- ===== src/Store/Succeeds.antt =====
-- src/store: over a connection that lasts long enough, the operations of the store succeed.
use wotcrawler.Prelude.{
  ℕ, zero, suc, ◌+◌, ◌≡◌, ◌≢◌, refl, sym, ap, ◌∙◌, subst, Bool, true, false, Bool-cases, List, [],
  ◌∷◌, ◌++◌, Option, none, some, Option-cases, Member, Member-append_left, Member-append_right,
  arith, inl, inr, ◌==◌, ==_iff, length, map,
}
use wotcrawler.Prelude.Results.{Result, ok, err}
use wotcrawler.Errors.{StoreError}
use wotcrawler.Store.{
  Row, Db, World, Sql, and_then, ◌>>=◌, answer, statement_within, statement, conclude,
  commit_within, start_within, transaction, done, update_pubkeys, update_rows, find_row, has_id,
}
use wotcrawler.Store.WellFormed.{ids}
pub mod Rows
pub mod Writers

-- No row is lost.
abbrev pub Grows : Db → Db → Type 0
Grows old new = (i : ℕ) → Member i (ids old.pubkeys) → Member i (ids new.pubkeys)

-- From the tables `db`, with enough statements before the connection is lost, the operation
-- succeeds, loses no row, and its result satisfies `R`.
pub record Succeeds {A : Type 0} (db : Db) (m : Sql A) (R : A → Db → Type 0) : Type 0 where
  pub steps : ℕ
  pub result : A
  pub after : Db
  pub grows : Grows db after
  pub holds : R result after
  pub runs :
      (w : World) (k : ℕ)
      → w.db ≡ db
      → w.left ≡ steps + k
      → m w ≡ (ok result, record { db = after; left = k; acts = w.acts })

abbrev pub Anything : {A : Type 0} → A → Db → Type 0
Anything a db = Unit

module _ {A : Type 0} (R : A → Db → Type 0) where
  pub done-Succeeds : (a : A) (db : Db) → R a db → Succeeds db (done a) R
  done-Succeeds a db h = record {
    steps = 0;
    result = a;
    after = db;
    grows = λ i m. m;
    holds = h;
    runs = λ w k e l.
        let l' : w.left ≡ k = omega arith in
        ap (λ d. (ok a, record { db = d; left = w.left; acts = w.acts })) e
        ∙ ap (λ n. (ok a, record { db = db; left = n; acts = w.acts })) l';
  }

  pub statement-Succeeds :
      (run : Db → Result StoreError (A × Db)) (a : A) (db new : Db)
      → run db ≡ ok (a, new)
      → Grows db new
      → R a new
      → Succeeds db (statement run) R
  statement-Succeeds run a db new q grows h = record {
    steps = 1;
    result = a;
    after = new;
    grows = grows;
    holds = h;
    runs = λ w k e l.
        let l' : w.left ≡ suc k = omega arith in
        ap (λ n. statement_within n run w) l'
        ∙ ap (λ r. answer r (record w { left = k })) (ap run e ∙ q);
  }

  pub transaction-Succeeds :
      (body : Sql A) (db : Db) → Succeeds db body R → Succeeds db (transaction body) R
  transaction-Succeeds body db s = record {
    steps = suc (s.steps + 1);
    result = s.result;
    after = s.after;
    grows = s.grows;
    holds = s.holds;
    runs = λ w k e l.
        let l' : w.left ≡ suc (s.steps + suc k) = omega arith in
        ap (λ n. start_within n body w) l'
        ∙ ap (conclude w.db) (s.runs (record w { left = s.steps + suc k }) (suc k) e refl);
  }

pub bind-Succeeds :
    {A B : Type 0} (R : A → Db → Type 0) (Q : B → Db → Type 0) (m : Sql A) (f : A → Sql B) (db : Db)
    → Succeeds db m R
    → ((a : A) (new : Db) → Grows db new → R a new → Succeeds new (f a) Q)
    → Succeeds db (m >>= f) Q
bind-Succeeds R Q m f db first rest =
    let next = rest first.result first.after first.grows first.holds in
    record {
      steps = first.steps + next.steps;
      result = next.result;
      after = next.after;
      grows = λ i m. next.grows i (first.grows i m);
      holds = next.holds;
      runs = λ w k e l.
          let l' : w.left ≡ first.steps + (next.steps + k) = omega arith in
          let u : World = record { db = first.after; left = next.steps + k; acts = w.acts } in
          ap (λ r. and_then r f) (first.runs w (next.steps + k) e l') ∙ next.runs u k refl refl;
    }
