-- ===== src/Store/Follows/Repeat.antt =====
-- src/store/follows.rs: `apply_follow_list` is atomic, and idempotent on the same event.
use wotcrawler.Prelude.{
  ℕ, suc, ◌≡◌, ◌∙◌, ◌⊎◌, inl, inr, refl, sym, ap, subst, Bool, true, false, List, [], ◌∷◌, Option,
  some, ◌==◌, ==_refl, ℤ, Bool-cases,
}
use wotcrawler.Prelude.Results.{ok}
use wotcrawler.Store.{
  Row, Db, World, statement, done, ◌>>=◌, update_pubkeys, update_rows, has_id, find_row,
}
use wotcrawler.Store.Rules.{
  statement-ok, statement-err, transaction_all_or_nothing, bind_splits, then_done-world,
}
use wotcrawler.Store.Follows.{
  select_applied, is_applied, confirm, new_set, followees_of, difference, apply_event, apply_diff,
  select_followees, apply_follow_list,
}
use wotcrawler.Store.Follows.Applied.{
  Outcome, IsApplied, IsDiffed, diff_body, diff_body-IsDiffed, IsDiffed-IsReplaced, selected,
  is_applied→some, again, replace, resume, again-IsConfirmed, apply_follow_list-ok,
}

pub find_row-update :
    (f : ℕ) (change : Row → Row) (rs : List Row) (r : Row)
    → ((s : Row) → (change s).id ≡ s.id)
    → find_row f rs ≡ some r
    → find_row f (update_rows (has_id f) change rs) ≡ some (change r)
find_row-update f change [] r keeps h = cc
find_row-update f change (s ∷ rs) r keeps h = elim (Bool-cases (s.id == f)) [
  | inl e ↦
      let here : s ≡ r = first (rw e at h) in
      let still : ((change s).id == f) ≡ true = ap (λ i. i == f) (keeps s) ∙ e in
      rw (e, find_row, still) (ap (λ t. some (change t)) here)
  | inr e ↦ rw (e, find_row, e) (find_row-update f change rs r keeps (rw e at h))
]
  where
    first : Path (Option Row) (some s) (some r) → s ≡ r
    first q = cc

module _ (f event_id : ℕ) where
  -- The row of the follower says that the event is applied.
  abbrev IsCurrent : Db → Type 0
  IsCurrent db = (r : Row) × (find_row f db.pubkeys ≡ some r) × (r.applied_event_id ≡ some event_id)

  Outcome-IsCurrent :
      (created_at : ℤ) (now : ℕ) (ids : List ℕ) (new_event : Bool) (old new : Db)
      → Outcome f event_id created_at now ids new_event old new
      → IsCurrent new
  Outcome-IsCurrent created_at now ids true old new o =
      let (r, there) = o.before in
      let (changed, rows) = o.row in
      let change = apply_event event_id created_at changed now in
      (change r, rw rows (find_row-update f change old.pubkeys r (λ s. refl) there), refl)
  Outcome-IsCurrent created_at now ids false old new o =
      let (r, there, same) = o.before in
      let rows = o.row in
      (
        confirm now r,
        rw rows (find_row-update f (confirm now) old.pubkeys r (λ s. refl) there),
        same,
      )

  selects : (db : Db) → IsCurrent db → select_applied f db ≡ ok (some event_id, db)
  unfolding select_applied
  selects db (r, there, same) = rw (select_applied, there, same) refl

  confirms :
      (created_at : ℤ) (now : ℕ) (ids : List ℕ) (db : Db) (left : ℕ) (acts : Bool)
      → IsCurrent db
      → apply_follow_list f event_id created_at ids now
          (record { db = db; left = suc (suc left); acts = acts })
        ≡ (
          ok false,
          record {
            db = record db { pubkeys = update_rows (has_id f) (confirm now) db.pubkeys };
            left = left;
            acts = acts;
          },
        )
  unfolding apply_follow_list
  confirms created_at now ids db left acts current =
      rw (apply_follow_list, selects db current, ==_refl) refl

-- Once an event was applied, the same event again succeeds if two statements still get through,
-- says that it is not new, and changes no edge and nothing but the confirmation on the row of the
-- follower, whatever followees it comes with.
pub apply_follow_list_again :
    (f event_id : ℕ) (created_at : ℤ) (ids : List ℕ) (now : ℕ) (w v : World) (new_event : Bool)
    (later : ℕ) (left : ℕ) (other_ids : List ℕ)
    → apply_follow_list f event_id created_at ids now w ≡ (ok new_event, v)
    → apply_follow_list f event_id created_at other_ids later (record v { left = suc (suc left) })
      ≡ (
        ok false,
        record v {
          db = record v.db { pubkeys = update_rows (has_id f) (confirm later) v.db.pubkeys };
          left = left;
        },
      )
apply_follow_list_again f event_id created_at ids now w v new_event later left other_ids h =
    confirms f event_id created_at later other_ids v.db left v.acts (
      Outcome-IsCurrent f event_id created_at now ids new_event w.db v.db
        (apply_follow_list-ok f event_id created_at now ids w v new_event h))

module _ (f event_id : ℕ) (created_at : ℤ) (now : ℕ) (ids : List ℕ) where
  -- Nothing happened, or all that a success leaves.
  abbrev pub AllOrNothing : Db → Db → Type 0
  AllOrNothing old new =
      (new ≡ old) ⊎ ((new_event : Bool) × Outcome f event_id created_at now ids new_event old new)

  again-AllOrNothing :
      (w : World)
      → ((r : Row) × (find_row f w.db.pubkeys ≡ some r) × (r.applied_event_id ≡ some event_id))
      → AllOrNothing w.db (again f event_id created_at now w).1.db
  again-AllOrNothing w (r, there, same) =
      elim (bind_splits (statement (update_pubkeys (has_id f) (confirm now))) (λ _. done false) w) [
        | inl (e, v, failed, end) ↦ inl (
            ap (λ x. x.db) end
            ∙ sym (statement-err (update_pubkeys (has_id f) (confirm now)) w e v failed))
        | inr (n, u, _, end) ↦
            let x = (again f event_id created_at now w).1 in
            inr (
              false,
              again-IsConfirmed f event_id created_at now ids w x r false there same
                  (end ∙ ap (λ y. (ok false, y)) (ap (λ p. p.1) (sym end))),
            )
      ]

  diff_all_or_nothing :
      (added removed : List ℕ) (w : World)
      → ((apply_diff f event_id created_at added removed now w).1.db ≡ w.db)
        ⊎ IsDiffed f event_id created_at now added removed w.db
            (apply_diff f event_id created_at added removed now w).1.db
  unfolding apply_diff
  diff_all_or_nothing added removed w =
      elim (transaction_all_or_nothing (diff_body f event_id created_at now added removed) w) [
        | inl same ↦ inl same
        | inr (a, u, x, from, run, end) ↦ inr (
            subst (IsDiffed f event_id created_at now added removed w.db) (sym end) (
              subst (λ d. IsDiffed f event_id created_at now added removed d x.db) from
                (diff_body-IsDiffed f event_id created_at now added removed u x run)))
      ]

  applied :
      (old new : Db)
      → ((r : Row) × (find_row f old.pubkeys ≡ some r))
      → IsDiffed f event_id created_at now
          (difference (new_set f ids) (followees_of f old.follows))
          (difference (followees_of f old.follows) (new_set f ids))
          old
          new
      → IsApplied f event_id created_at now ids old new
  applied old new before diffed = record {
    before = before;
    replaced = IsDiffed-IsReplaced f event_id created_at now ids old new diffed;
    row = (_, diffed.rows);
  }

  replace-AllOrNothing :
      (w : World)
      → ((r : Row) × (find_row f w.db.pubkeys ≡ some r))
      → AllOrNothing w.db
          ((statement (select_followees f) >>= replace f event_id created_at now ids) w).1.db
  unfolding select_followees
  replace-AllOrNothing w before =
      elim (bind_splits (statement (select_followees f)) (replace f event_id created_at now ids)
        w) [
          | inl (e, v, failed, end) ↦
              inl (ap (λ x. x.db) end ∙ sym (statement-err (select_followees f) w e v failed))
          | inr (current, u, selecting, end) ↦
              let read = statement-ok (select_followees f) w current u selecting in
              let here : followees_of f w.db.follows ≡ current = cc in
              let same : w.db ≡ u.db = cc in
              let added = difference (new_set f ids) current in
              let removed = difference current (new_set f ids) in
              let diff = apply_diff f event_id created_at added removed now in
              let result : ((statement (select_followees f)
                      >>= replace f event_id created_at now ids)
                    w).1.db
                  ≡ (diff u).1.db =
                ap (λ p. p.1.db) end ∙ ap (λ x. x.db) (then_done-world diff true u) in
              elim (diff_all_or_nothing added removed u) [
                | inl unchanged ↦ inl (result ∙ unchanged ∙ sym same)
                | inr diffed ↦ inr (
                  true,
                  subst (IsApplied f event_id created_at now ids w.db) (sym result)
                      (applied w.db (diff u).1.db before (rw (here, same) diffed)),
                )
              ]
        ]

  -- Whatever fails and wherever the connection is lost, the database is as before the call, or it is
  -- as a success leaves it.
  pub apply_follow_list_atomic :
      (w : World) → AllOrNothing w.db (apply_follow_list f event_id created_at ids now w).1.db
  unfolding apply_follow_list
  apply_follow_list_atomic w =
      elim (bind_splits (statement (select_applied f)) (resume f event_id created_at now ids) w) [
        | inl (e, v, failed, end) ↦
            inl (ap (λ x. x.db) end ∙ sym (statement-err (select_applied f) w e v failed))
        | inr (current, u, selecting, end) ↦
            let (r, there, holds, same) =
              selected f event_id created_at now w.db u.db current
                (statement-ok (select_applied f) w current u selecting) in
            let there' : find_row f u.db.pubkeys ≡ some r =
              subst (λ d. find_row f d.pubkeys ≡ some r) same there in
            subst (λ d. AllOrNothing d (apply_follow_list f event_id created_at ids now w).1.db)
              (sym same)
              (subst (λ x. AllOrNothing u.db x.db) (ap (λ p. p.1) (sym end))
                (elim (Bool-cases (is_applied current event_id)) [
                  | inl e ↦ rw e (
                      again-AllOrNothing u
                        (r, there', holds ∙ is_applied→some f event_id created_at now current e))
                  | inr e ↦ rw e (replace-AllOrNothing u (r, there'))
                ]))
      ]
