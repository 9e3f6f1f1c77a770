-- ===== src/Store/Rules.antt =====
-- src/store: how statements and transactions compose.
use wotcrawler.Prelude.{ℕ, zero, suc, ◌≡◌, ◌⊎◌, inl, inr, refl, ap, Bool-cases}
use wotcrawler.Prelude.Results.{Result, ok, err}
use wotcrawler.Errors.{StoreError}
use wotcrawler.Store.{
  Db, World, Sql, and_then, ◌>>=◌, answer, statement_within, statement, commit_within, conclude,
  start_within, transaction, done,
}

module _ {A : Type 0} (P : Db → Type 0) where
  -- Whether it succeeds or fails, and wherever the connection is lost, it keeps `P`.
  abbrev pub Keeps : Sql A → Type 0
  Keeps m = (w : World) → P w.db → P (m w).1.db

  answer-keeps :
      (r : Result StoreError (A × Db)) (w : World)
      → ((a : A) (db : Db) → r ≡ ok (a, db) → P db)
      → P w.db
      → P (answer r w).1.db
  answer-keeps (ok (a, db)) w f p = f a db refl
  answer-keeps (err e) w f p = p

  pub statement-Keeps :
      (run : Db → Result StoreError (A × Db))
      → ((old : Db) (a : A) (db : Db) → P old → run old ≡ ok (a, db) → P db)
      → Keeps (statement run)
  statement-Keeps run f w p = within w.left
    where
      within : (left : ℕ) → P (statement_within left run w).1.db
      within zero = p
      within (suc left) =
          answer-keeps (run w.db) (record w { left = left }) (λ a db e. f w.db a db p e) p

  conclude-keeps :
      (old : Db) (r : Result StoreError A × World) → P old → P r.1.db → P (conclude old r).1.db
  conclude-keeps old (err e, w) p q = p
  conclude-keeps old (ok a, w) p q = within w.left
    where
      within : (left : ℕ) → P (commit_within left old a w).1.db
      within (suc left) = q
      within zero = elim (Bool-cases w.acts) [ inl e ↦ rw e q | inr e ↦ rw e p ]

  pub transaction-Keeps : (body : Sql A) → Keeps body → Keeps (transaction body)
  transaction-Keeps body keeps w p = within w.left
    where
      within : (left : ℕ) → P (start_within left body w).1.db
      within zero = p
      within (suc left) =
          conclude-keeps w.db (body (record w { left = left })) p
            (keeps (record w { left = left }) p)

module _ {A B : Type 0} where
  and_then-keeps :
      (P : Db → Type 0) (r : Result StoreError A × World) (f : A → Sql B)
      → P r.1.db
      → ((a : A) → Keeps P (f a))
      → P (and_then r f).1.db
  and_then-keeps P (ok a, w) f p next = next a w p
  and_then-keeps P (err e, w) f p next = p

  pub bind-Keeps :
      (P : Db → Type 0) (m : Sql A) (f : A → Sql B)
      → Keeps P m
      → ((a : A) → Keeps P (f a))
      → Keeps P (m >>= f)
  bind-Keeps P m f first next w p = and_then-keeps P (m w) f (first w p) next

  and_then-ok :
      (r : Result StoreError A × World) (f : A → Sql B) (b : B) (v : World)
      → and_then r f ≡ (ok b, v)
      → (a : A) × (u : World) × (r ≡ (ok a, u)) × (f a u ≡ (ok b, v))
  and_then-ok (ok a, u) f b v h = (a, u, refl, h)
  and_then-ok (err e, u) f b v h = absurd (err_not_ok h)
    where
      err_not_ok : Path (Result StoreError B × World) (err e, u) (ok b, v) → ⊥
      err_not_ok q = cc

  -- A sequence that succeeds is one of parts that do.
  pub bind-ok :
      (m : Sql A) (f : A → Sql B) (w : World) (b : B) (v : World)
      → (m >>= f) w ≡ (ok b, v)
      → (a : A) × (u : World) × (m w ≡ (ok a, u)) × (f a u ≡ (ok b, v))
  bind-ok m f w b v h = and_then-ok (m w) f b v h

module _ {A : Type 0} where
  answer-ok :
      (r : Result StoreError (A × Db)) (w : World) (a : A) (v : World)
      → answer r w ≡ (ok a, v)
      → r ≡ ok (a, v.db)
  answer-ok (ok (a, db)) w b v h = cc
  answer-ok (err e) w b v h = cc

  pub statement-ok :
      (run : Db → Result StoreError (A × Db)) (w : World) (a : A) (v : World)
      → statement run w ≡ (ok a, v)
      → run w.db ≡ ok (a, v.db)
  statement-ok run w a v h = within w.left h
    where
      within : (left : ℕ) → statement_within left run w ≡ (ok a, v) → run w.db ≡ ok (a, v.db)
      within zero h = cc
      within (suc left) h = answer-ok (run w.db) (record w { left = left }) a v h

  conclude-ok :
      (old : Db) (r : Result StoreError A × World) (a : A) (v : World)
      → conclude old r ≡ (ok a, v)
      → (x : World) × (r ≡ (ok a, x)) × (x.db ≡ v.db)
  conclude-ok old (err e, w) a v h = cc
  conclude-ok old (ok b, w) a v h = within w.left h
    where
      within :
          (left : ℕ)
          → commit_within left old b w ≡ (ok a, v)
          → (x : World) × (Path (Result StoreError A × World) (ok b, w) (ok a, x)) × (x.db ≡ v.db)
      within zero h = cc
      within (suc left) h = (w, cc, cc)

  -- A transaction that succeeds leaves what its body, from the same database, left.
  pub transaction-ok :
      (body : Sql A) (w : World) (a : A) (v : World)
      → transaction body w ≡ (ok a, v)
      → (u : World) × (x : World) × (u.db ≡ w.db) × (body u ≡ (ok a, x)) × (x.db ≡ v.db)
  transaction-ok body w a v h = within w.left h
    where
      within :
          (left : ℕ)
          → start_within left body w ≡ (ok a, v)
          → (u : World) × (x : World) × (u.db ≡ w.db) × (body u ≡ (ok a, x)) × (x.db ≡ v.db)
      within zero h = cc
      within (suc left) h =
          let u = record w { left = left } in
          let (x, e, same) = conclude-ok w.db (body u) a v h in (u, x, refl, e, same)

  conclude_all_or_nothing :
      (old : Db) (r : Result StoreError A × World)
      → ((conclude old r).1.db ≡ old)
        ⊎ ((a : A) × (x : World) × (r ≡ (ok a, x)) × ((conclude old r).1.db ≡ x.db))
  conclude_all_or_nothing old (err e, w) = inl refl
  conclude_all_or_nothing old (ok a, w) = within w.left
    where
      within :
          (left : ℕ)
          → ((commit_within left old a w).1.db ≡ old)
            ⊎ ((b : A) × (x : World) × (Path (Result StoreError A × World) (ok a, w) (ok b, x))
                × ((commit_within left old a w).1.db ≡ x.db))
      within (suc left) = inr (a, w, refl, refl)
      within zero = elim (Bool-cases w.acts) [
        | inl e ↦ inr (a, w, refl, rw e refl)
        | inr e ↦ inl (rw e refl)
      ]

  -- Whatever happens, the database is as before a transaction, or as its body leaves it when it
  -- succeeds.
  pub transaction_all_or_nothing :
      (body : Sql A) (w : World)
      → ((transaction body w).1.db ≡ w.db)
        ⊎ ((a : A) × (u : World) × (x : World) × (u.db ≡ w.db)
            × (body u ≡ (ok a, x))
            × ((transaction body w).1.db ≡ x.db))
  transaction_all_or_nothing body w = within w.left
    where
      within :
          (left : ℕ)
          → ((start_within left body w).1.db ≡ w.db)
            ⊎ ((a : A) × (u : World) × (x : World) × (u.db ≡ w.db)
                × (body u ≡ (ok a, x))
                × ((start_within left body w).1.db ≡ x.db))
      within zero = inl refl
      within (suc left) =
          let u = record w { left = left } in
          elim (conclude_all_or_nothing w.db (body u)) [
            | inl e ↦ inl e
            | inr (a, x, e, f) ↦ inr (a, u, x, refl, e, f)
          ]

  -- A statement that fails has changed nothing.
  pub statement-err :
      (run : Db → Result StoreError (A × Db)) (w : World) (e : StoreError) (v : World)
      → statement run w ≡ (err e, v)
      → w.db ≡ v.db
  statement-err run w e v h = within w.left h
    where
      within : (left : ℕ) → statement_within left run w ≡ (err e, v) → w.db ≡ v.db
      within zero h = cc
      within (suc left) h = failed (run w.db) (record w { left = left }) h
        where
          failed :
              (r : Result StoreError (A × Db)) (u : World) → answer r u ≡ (err e, v) → u.db ≡ v.db
          failed (ok (a, db)) u h = cc
          failed (err e) u h = cc

module _ {A B : Type 0} where
  -- A constant result changes nothing.
  pub then_done-world : (m : Sql A) (b : B) (w : World) → ((m >>= λ _. done b) w).1 ≡ (m w).1
  then_done-world m b w = of (m w)
    where
      of : (r : Result StoreError A × World) → (and_then r (λ _. done b)).1 ≡ r.1
      of (ok a, v) = refl
      of (err e, v) = refl

  -- A sequence fails in its first part, or in the rest.
  pub bind_splits :
      (m : Sql A) (f : A → Sql B) (w : World)
      → ((e : StoreError) × (v : World) × (m w ≡ (err e, v)) × (((m >>= f) w).1 ≡ v))
        ⊎ ((a : A) × (u : World) × (m w ≡ (ok a, u)) × ((m >>= f) w ≡ f a u))
  bind_splits m f w = of (m w) refl
    where
      of :
          (r : Result StoreError A × World)
          → m w ≡ r
          → ((e : StoreError) × (v : World) × (m w ≡ (err e, v)) × (((m >>= f) w).1 ≡ v))
            ⊎ ((a : A) × (u : World) × (m w ≡ (ok a, u)) × ((m >>= f) w ≡ f a u))
      of (ok a, u) h = inr (a, u, h, ap (λ r. and_then r f) h)
      of (err e, v) h = inl (e, v, h, ap (λ r. (and_then r f).1) h)
