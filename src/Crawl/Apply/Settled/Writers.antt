-- ===== src/Crawl/Apply/Settled/Writers.antt =====
-- src/crawl/apply.rs: what the writers of the store keep of the rows.
use Prim.Native.String.{String}
use wotcrawler.Prelude.{
  ℕ, ◌≡◌, inl, inr, refl, ap, Bool, true, false, not, ◌||◌, List, [], ◌∷◌, Bool-cases, Option-cases,
  if◌then◌else◌, ℤ, pos, is_empty,
}
use wotcrawler.Prelude.Results.{Result, ok, err}
use wotcrawler.Errors.{StoreError}
use wotcrawler.Ingest.RelayList.{Marker}
use wotcrawler.Store.{Row, Db, Sql, statement, done, ◌>>=◌, ◌>>◌, update_pubkeys, has_id, find_row}
use wotcrawler.Store.Rules.{Keeps, transaction-Keeps, bind-Keeps}
use wotcrawler.Store.Follows.{
  select_applied, select_followees, delete_edge, insert_edge, delete_all, insert_all, confirm,
  apply_event, new_set, difference, is_applied, apply_diff, apply_follow_list,
}
use wotcrawler.Store.Follows.Edges.{insert_edge_cases}
use wotcrawler.Store.Follows.Applied.{selected, resume, again, replace}
use wotcrawler.Store.Relays.{
  delete_relays, has_relay, insert_relay, insert_relays, apply_relay_list, select_write_relays,
  lookup_write_relays,
}
use wotcrawler.Crawl.Apply.Settled.{
  IsStable, IsKept, Q, same_rows, changes, upserts, stamps, requeues,
}

module _ (P : List Row → Type 0) (stable : IsStable P) where
  deletes : (f g : ℕ) → Keeps (Q P stable) (statement (delete_edge f g))
  unfolding delete_edge
  deletes f g = same_rows P stable (delete_edge f g) (λ old a db h. cc)

  inserts : (f g : ℕ) → Keeps (Q P stable) (statement (insert_edge f g))
  inserts f g = same_rows P stable (insert_edge f g) (λ old a db h.
      elim (insert_edge_cases f g old db a h) [
        | inl (_, same) ↦ ap (λ d. d.pubkeys) same
        | inr (_, _, _, _, same) ↦ ap (λ d. d.pubkeys) same
      ])

  deletes_all : (f : ℕ) (gs : List ℕ) → Keeps (Q P stable) (delete_all f gs)
  unfolding delete_all
  deletes_all f [] = λ w p. p
  deletes_all f (g ∷ gs) =
      bind-Keeps (Q P stable) (statement (delete_edge f g)) (λ _. delete_all f gs) (deletes f g)
        (λ _. deletes_all f gs)

  inserts_all : (f : ℕ) (gs : List ℕ) → Keeps (Q P stable) (insert_all f gs)
  unfolding insert_all
  inserts_all f [] = λ w p. p
  inserts_all f (g ∷ gs) =
      bind-Keeps (Q P stable) (statement (insert_edge f g)) (λ _. insert_all f gs) (inserts f g)
        (λ _. inserts_all f gs)

  diffs :
      (f event_id : ℕ) (created_at : ℤ) (added removed : List ℕ) (now : ℕ)
      → Keeps (Q P stable) (apply_diff f event_id created_at added removed now)
  unfolding apply_diff
  diffs f event_id created_at added removed now =
      let changed = not (is_empty added) || not (is_empty removed) in
      let change : Row → Row = apply_event event_id created_at changed now in
      let set : Sql ℕ = statement (update_pubkeys (has_id f) change) in
      transaction-Keeps (Q P stable) (delete_all f removed >> insert_all f added >> set >> done tt)
        (bind-Keeps (Q P stable) (delete_all f removed >> insert_all f added >> set) (λ _. done tt)
          (bind-Keeps (Q P stable) (delete_all f removed >> insert_all f added) (λ _. set)
            (bind-Keeps (Q P stable) (delete_all f removed) (λ _. insert_all f added)
              (deletes_all f removed) (λ _. inserts_all f added))
            (λ _. changes P stable f change (λ r. refl) (λ r. refl) (λ r. refl)))
          (λ _ w p. p))

  read_followees : (f : ℕ) → Keeps (Q P stable) (statement (select_followees f))
  unfolding select_followees
  read_followees f = same_rows P stable (select_followees f) (λ old a db h. cc)

  removes : (id : ℕ) → Keeps (Q P stable) (statement (delete_relays id))
  unfolding delete_relays
  removes id = same_rows P stable (delete_relays id) (λ old a db h. cc)

  pub applies :
      (f event_id : ℕ) (created_at : ℤ) (followees : List ℕ) (now : ℕ)
      → Keeps (Q P stable) (apply_follow_list f event_id created_at followees now)
  unfolding apply_follow_list
  applies f event_id created_at followees now =
      bind-Keeps (Q P stable) (statement (select_applied f))
        (resume f event_id created_at now followees)
        (same_rows P stable (select_applied f) (λ old current db h.
          let (r, _, _, same) = selected f 0 (pos 0) 0 old db current h in
          ap (λ d. d.pubkeys) same))
        (λ current. on (is_applied current event_id))
    where
      on :
          (old : Bool)
          → Keeps (Q P stable) (
              if old
              then again f event_id created_at now
              else statement (select_followees f) >>= replace f event_id created_at now followees)
      on true =
          bind-Keeps (Q P stable) (statement (update_pubkeys (has_id f) (confirm now)))
            (λ _. done false) (changes P stable f (confirm now) (λ r. refl) (λ r. refl) (λ r. refl))
            (λ _ w p. p)
      on false =
          bind-Keeps (Q P stable) (statement (select_followees f))
            (replace f event_id created_at now followees) (read_followees f)
            (λ current.
              let added = difference (new_set f followees) current in
              let removed = difference current (new_set f followees) in
              bind-Keeps (Q P stable) (apply_diff f event_id created_at added removed now)
                (λ _. done true) (diffs f event_id created_at added removed now) (λ _ w p. p))

  inserts_relay :
      (id : ℕ) (url : String) (marker : Marker) (seen_at : ℤ)
      → Keeps (Q P stable) (statement (insert_relay id url marker seen_at))
  unfolding insert_relay
  inserts_relay id url marker seen_at =
      same_rows P stable (insert_relay id url marker seen_at) (λ old a db h.
        elim (Bool-cases (has_relay id url old.pubkey_relays)) [
          | inl e ↦ holds db a (rw (insert_relay, e) at h)
          | inr e ↦ elim (Option-cases (find_row id old.pubkeys)) [
            | inl d ↦ absurd (failed db a (rw (insert_relay, e, d) at h))
            | inr (r, d) ↦ holds db a (rw (insert_relay, e, d) at h)
          ]
        ])
    where
      failed :
          (db : Db) (a : Unit {0}) {e : StoreError}
          → Path (Result StoreError (Unit {0} × Db)) (err e) (ok (a, db))
          → ⊥
      failed db a q = cc

      holds :
          (db : Db) (a : Unit {0}) {old : Db}
          → Path (Result StoreError (Unit {0} × Db)) (ok (tt, old)) (ok (a, db))
          → old.pubkeys ≡ db.pubkeys
      holds db a q = cc

  inserts_relays :
      (id : ℕ) (relays : List (String × Marker)) (seen_at : ℤ)
      → Keeps (Q P stable) (insert_relays id relays seen_at)
  unfolding insert_relays
  inserts_relays id [] seen_at = λ w p. p
  inserts_relays id ((url, marker) ∷ relays) seen_at =
      bind-Keeps (Q P stable) (statement (insert_relay id url marker seen_at))
        (λ _. insert_relays id relays seen_at) (inserts_relay id url marker seen_at)
        (λ _. inserts_relays id relays seen_at)

  pub applies_relays :
      (id : ℕ) (relays : List (String × Marker)) (seen_at : ℤ)
      → Keeps (Q P stable) (apply_relay_list id relays seen_at)
  unfolding apply_relay_list
  applies_relays id relays seen_at =
      transaction-Keeps (Q P stable)
        (statement (delete_relays id) >> insert_relays id relays seen_at)
        (bind-Keeps (Q P stable) (statement (delete_relays id))
          (λ _. insert_relays id relays seen_at) (removes id)
          (λ _. inserts_relays id relays seen_at))

  pub looks_up : (id : ℕ) → Keeps (Q P stable) (lookup_write_relays id)
  unfolding lookup_write_relays
  looks_up id = same_rows P stable (select_write_relays id) (λ old a db h. cc)

  pub IsStable-IsKept : IsKept (Q P stable)
  IsStable-IsKept = record {
    upserts = upserts P stable;
    applies = applies;
    applies_relays = applies_relays;
    looks_up = looks_up;
    stamps = stamps P stable;
    requeues = requeues P stable;
  }
