-- ===== src/Store/Follows/Applied.antt =====
-- src/store/follows.rs: what `apply_follow_list` leaves when it succeeds, and on the same event again.
use wotcrawler.Prelude.{
  ℕ, ◌≡◌, ◌∙◌, ◌↔◌, ◌⊎◌, inl, inr, refl, sym, ap, subst, Bool, true, false, not, ◌||◌, List, Option,
  none, some, ==_iff, ℤ, Member, Bool-cases, Option-cases, if◌then◌else◌, is_empty, contains,
  contains→member, not-Member_of_contains,
}
use wotcrawler.Prelude.Results.{Result, ok, err}
use wotcrawler.Errors.{StoreError}
use wotcrawler.Store.{
  Row, Db, World, Sql, statement, done, ◌>>=◌, ◌>>◌, update_pubkeys, update_rows, has_id, find_row,
}
use wotcrawler.Store.Rules.{bind-ok, statement-ok, transaction-ok}
use wotcrawler.Store.Follows.{
  select_applied, is_applied, confirm, new_set, followees_of, difference, delete_all, insert_all,
  apply_event, apply_diff, select_followees, apply_follow_list,
}
use wotcrawler.Store.Follows.Edges.{Member-difference, delete_all-IsDeleted, insert_all-IsInserted}
use wotcrawler.Store.Follows.Sets.{IsReplaced, Member-new_set, Member-followees_of}

module _ (f event_id : ℕ) (created_at : ℤ) (now : ℕ) where
  abbrev differs : List ℕ → List ℕ → Bool
  differs added removed = not (is_empty added) || not (is_empty removed)

  updated :
      (change : Row → Row) (old new : Db) (n : ℕ)
      → update_pubkeys (has_id f) change old ≡ ok (n, new)
      → (new.pubkeys ≡ update_rows (has_id f) change old.pubkeys) × (new.follows ≡ old.follows)
  updated change old new n h =
      let same : record old { pubkeys = update_rows (has_id f) change old.pubkeys } ≡ new = cc in
      rw (← same) (refl, refl)

  pub record IsDiffed (added removed : List ℕ) (old new : Db) : Type 0 where
    pub rows :
        new.pubkeys
        ≡ update_rows
            (has_id f)
            (apply_event event_id created_at (differs added removed) now)
            old.pubkeys
    pub edges :
        (e : ℕ × ℕ)
        → Member e new.follows ↔ (
            (Member e old.follows × ¬ ((e.0 ≡ f) × Member e.1 removed))
            ⊎ ((e.0 ≡ f) × Member e.1 added))

  -- The statements of the transaction.
  abbrev pub diff_body : List ℕ → List ℕ → Sql (Unit {0})
  diff_body added removed =
      delete_all f removed
      >> insert_all f added
      >> statement
          (update_pubkeys (has_id f) (apply_event event_id created_at (differs added removed) now))
      >> done tt

  pub diff_body-IsDiffed :
      (added removed : List ℕ) (u x : World)
      → diff_body added removed u ≡ (ok tt, x)
      → IsDiffed added removed u.db x.db
  diff_body-IsDiffed added removed u x run =
      let change = apply_event event_id created_at (differs added removed) now in
      let set : Sql ℕ = statement (update_pubkeys (has_id f) change) in
      let (n, t, up_to_set, last) =
        bind-ok (delete_all f removed >> insert_all f added >> set) (λ _. done tt) u tt x run in
      let (b, s, up_to_insert, setting) =
        bind-ok (delete_all f removed >> insert_all f added) (λ _. set) u n t up_to_set in
      let (a, r, deleting, inserting) =
        bind-ok (delete_all f removed) (λ _. insert_all f added) u b s up_to_insert in
      let deleted = delete_all-IsDeleted f removed u r deleting in
      let inserted = insert_all-IsInserted f added r s inserting in
      let at_set =
        updated change s.db t.db n
          (statement-ok (update_pubkeys (has_id f) change) s n t setting) in
      let end : t.db ≡ x.db = ap (λ p. p.1.db) last in
      subst (IsDiffed added removed u.db) end (record {
        rows = at_set.0 ∙ ap (update_rows (has_id f) change) (inserted.rows ∙ deleted.rows);
        edges = λ e. rw at_set.1 (
          (λ m. elim ((inserted.edges e).0 m) [
            | inl k ↦ inl ((deleted.edges e).0 k)
            | inr q ↦ inr q
          ]),
          λ p. elim p [
            | inl k ↦ (inserted.edges e).1 (inl ((deleted.edges e).1 k))
            | inr q ↦ (inserted.edges e).1 (inr q)
          ],
        );
      })

  apply_diff-IsDiffed :
      (added removed : List ℕ) (w v : World)
      → apply_diff f event_id created_at added removed now w ≡ (ok tt, v)
      → IsDiffed added removed w.db v.db
  unfolding apply_diff
  apply_diff-IsDiffed added removed w v h =
      let (u, x, from, run, to) = transaction-ok (diff_body added removed) w tt v h in
      subst (IsDiffed added removed w.db) to
        (subst (λ d. IsDiffed added removed d x.db) from (diff_body-IsDiffed added removed u x run))

  -- From the differences of the sets to the sets.
  pub IsDiffed-IsReplaced :
      (ids : List ℕ) (old new : Db)
      → IsDiffed
          (difference (new_set f ids) (followees_of f old.follows))
          (difference (followees_of f old.follows) (new_set f ids))
          old
          new
      → IsReplaced f ids old.follows new.follows
  IsDiffed-IsReplaced ids old new d =
      let fresh = new_set f ids in
      let current = followees_of f old.follows in
      record {
        own = λ g. (
          (λ m. elim ((d.edges (f, g)).0 m) [
            | inr q ↦ (Member-new_set f ids g).0 ((Member-difference fresh current g).0 q.1).0
            | inl k ↦ elim (Bool-cases (contains fresh g)) [
              | inl c ↦ (Member-new_set f ids g).0 (contains→member fresh g c)
              | inr c ↦ absurd (
                  k.1 (
                    refl,
                    (Member-difference current fresh g).1 (
                      (Member-followees_of f old.follows g).1 k.0,
                      not-Member_of_contains fresh g c,
                    ),
                  ))
            ]
          ]),
          λ p.
              let wanted = (Member-new_set f ids g).1 p in
              elim (Bool-cases (contains current g)) [
                | inl c ↦ (d.edges (f, g)).1 (
                    inl (
                      (Member-followees_of f old.follows g).0 (contains→member current g c),
                      λ q. ((Member-difference current fresh g).0 q.1).1 wanted,
                    ))
                | inr c ↦ (d.edges (f, g)).1 (
                    inr (
                      refl,
                      (Member-difference fresh current g).1
                          (wanted, not-Member_of_contains current g c),
                    ))
              ],
        );
        others = λ a g other. (
          (λ m. elim ((d.edges (a, g)).0 m) [ inl k ↦ k.0 | inr q ↦ absurd (other q.0) ]),
          λ m. (d.edges (a, g)).1 (inl (m, λ q. other q.0)),
        );
      }

  -- What a call leaves: for a new event the edges replaced and the row of the follower updated; for
  -- the event that was applied before the row confirmed.
  pub record IsApplied (ids : List ℕ) (old new : Db) : Type 0 where
    pub before : (r : Row) × (find_row f old.pubkeys ≡ some r)
    pub replaced : IsReplaced f ids old.follows new.follows
    pub row :
        (changed : Bool) × (new.pubkeys
          ≡ update_rows (has_id f) (apply_event event_id created_at changed now) old.pubkeys)

  pub record IsConfirmed (old new : Db) : Type 0 where
    pub before :
        (r : Row) × (find_row f old.pubkeys ≡ some r) × (r.applied_event_id ≡ some event_id)
    pub same_edges : new.follows ≡ old.follows
    pub row : new.pubkeys ≡ update_rows (has_id f) (confirm now) old.pubkeys

  abbrev pub Outcome : List ℕ → Bool → Db → Db → Type 0
  Outcome ids true old new = IsApplied ids old new
  Outcome ids false old new = IsConfirmed old new

  pub selected :
      (old new : Db) (current : Option ℕ)
      → select_applied f old ≡ ok (current, new)
      → (r : Row) × (find_row f old.pubkeys ≡ some r) × (r.applied_event_id ≡ current) × (old ≡ new)
  unfolding select_applied
  selected old new current h = elim (Option-cases (find_row f old.pubkeys)) [
    | inl e ↦ absurd (missing (rw (select_applied, e) at h))
    | inr (r, e) ↦ let q = there r (rw (select_applied, e) at h) in (r, e, q.0, q.1)
  ]
    where
      missing :
          {e : StoreError}
          → Path (Result StoreError (Option ℕ × Db)) (err e) (ok (current, new))
          → ⊥
      missing q = cc

      there :
          (r : Row)
          → Path
              (Result StoreError (Option ℕ × Db))
              (ok (r.applied_event_id, old))
              (ok (current, new))
          → (r.applied_event_id ≡ current) × (old ≡ new)
      there r q = (cc, cc)

  pub is_applied→some :
      (current : Option ℕ) → is_applied current event_id ≡ true → current ≡ some event_id
  is_applied→some none h = cc
  is_applied→some (some e) h = ap some ((==_iff e event_id).0 h)

  -- The two ways on from the event that was read.
  abbrev pub again : Sql Bool
  again = statement (update_pubkeys (has_id f) (confirm now)) >> done false

  abbrev pub replace : List ℕ → List ℕ → Sql Bool
  replace ids current =
      apply_diff f event_id created_at (difference (new_set f ids) current)
        (difference current (new_set f ids)) now
      >> done true

  abbrev pub resume : List ℕ → Option ℕ → Sql Bool
  resume ids current =
      if is_applied current event_id then again else statement (select_followees f) >>= replace ids

  pub again-IsConfirmed :
      (ids : List ℕ) (w v : World) (r : Row) (new_event : Bool)
      → find_row f w.db.pubkeys ≡ some r
      → r.applied_event_id ≡ some event_id
      → again w ≡ (ok new_event, v)
      → Outcome ids new_event w.db v.db
  again-IsConfirmed ids w v r new_event there same h =
      let (n, t, confirming, last) =
        bind-ok (statement (update_pubkeys (has_id f) (confirm now))) (λ _. done false) w new_event
          v h in
      let at_set =
        updated (confirm now) w.db t.db n
          (statement-ok (update_pubkeys (has_id f) (confirm now)) w n t confirming) in
      let old_event : false ≡ new_event = cc in
      let end : t.db ≡ v.db = ap (λ p. p.1.db) last in
      rw (← old_event, ← end)
        (record { before = (r, there, same); same_edges = at_set.1; row = at_set.0 })

  pub replace-IsApplied :
      (ids : List ℕ) (w v : World) (r : Row) (new_event : Bool)
      → find_row f w.db.pubkeys ≡ some r
      → (statement (select_followees f) >>= replace ids) w ≡ (ok new_event, v)
      → Outcome ids new_event w.db v.db
  unfolding select_followees
  replace-IsApplied ids w v r new_event there h =
      let (current, u, selecting, rest) =
        bind-ok (statement (select_followees f)) (replace ids) w new_event v h in
      let read = statement-ok (select_followees f) w current u selecting in
      let here : followees_of f w.db.follows ≡ current = cc in
      let same : w.db ≡ u.db = cc in
      let added = difference (new_set f ids) current in
      let removed = difference current (new_set f ids) in
      let (a, t, diffing, last) =
        bind-ok (apply_diff f event_id created_at added removed now) (λ _. done true) u new_event v
          rest in
      let diffed = apply_diff-IsDiffed added removed u t diffing in
      let new : true ≡ new_event = cc in
      let end : t.db ≡ v.db = ap (λ p. p.1.db) last in
      let diffed' : IsDiffed (difference (new_set f ids) (followees_of f w.db.follows))
          (difference (followees_of f w.db.follows) (new_set f ids)) w.db t.db =
        rw (here, same) diffed in
      rw (← new, ← end)
        (record {
          before = (r, there);
          replaced = IsDiffed-IsReplaced ids w.db t.db diffed';
          row = (
            differs (difference (new_set f ids) (followees_of f w.db.follows))
                (difference (followees_of f w.db.follows) (new_set f ids)),
            diffed'.rows,
          );
        })

  pub apply_follow_list-ok :
      (ids : List ℕ) (w v : World) (new_event : Bool)
      → apply_follow_list f event_id created_at ids now w ≡ (ok new_event, v)
      → Outcome ids new_event w.db v.db
  unfolding apply_follow_list
  apply_follow_list-ok ids w v new_event h =
      let (current, u, selecting, rest) =
        bind-ok (statement (select_applied f)) (resume ids) w new_event v h in
      let (r, there, applied, same) =
        selected w.db u.db current (statement-ok (select_applied f) w current u selecting) in
      subst (λ d. Outcome ids new_event d v.db) (sym same)
        (elim (Bool-cases (is_applied current event_id)) [
          | inl e ↦
              again-IsConfirmed ids u v r new_event
                (subst (λ d. find_row f d.pubkeys ≡ some r) same there)
                (applied ∙ is_applied→some current e) (rw e at rest)
          | inr e ↦
              replace-IsApplied ids u v r new_event
                (subst (λ d. find_row f d.pubkeys ≡ some r) same there) (rw e at rest)
        ])
