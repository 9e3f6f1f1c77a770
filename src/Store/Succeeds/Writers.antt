-- ===== src/Store/Succeeds/Writers.antt =====
-- src/store: the writers succeed over a connection that lasts, if the rows they are about are there.
use Prim.Native.String.{String}
use wotcrawler.Prelude.{
  ℕ, ◌≢◌, refl, sym, Bool, true, false, not, ◌||◌, Bool-cases, List, [], ◌∷◌, ◌++◌, Option, Member,
  Member-filter, inl, inr, ◌==◌, ==_iff, is_empty, ℤ, contains, if◌then◌else◌,
}
use wotcrawler.Ingest.RelayList.{Marker}
use wotcrawler.Store.{RelayRow, Db, Sql, statement, done, ◌>>=◌, ◌>>◌, update_pubkeys, has_id}
use wotcrawler.Store.Follows.{
  select_applied, is_applied, confirm, new_set, difference, has_edge, delete_edge, insert_edge,
  delete_all, insert_all, apply_event, apply_diff, select_followees, apply_follow_list,
}
use wotcrawler.Store.Follows.Sets.{Member-new_set}
use wotcrawler.Store.Follows.Applied.{again, replace, resume}
use wotcrawler.Store.Relays.{
  delete_relays, has_relay, insert_relay, insert_relays, apply_relay_list, lookup_write_relays,
  select_write_relays,
}
use wotcrawler.Store.Succeeds.{
  Grows, Succeeds, Anything, done-Succeeds, statement-Succeeds, transaction-Succeeds, bind-Succeeds,
}
use wotcrawler.Store.Succeeds.Rows.{IsThere, Member-find_row, update-Succeeds}

module _ (f : ℕ) where
  delete_all-Succeeds : (gs : List ℕ) (db : Db) → Succeeds db (delete_all f gs) Anything
  unfolding delete_all delete_edge
  delete_all-Succeeds [] db = done-Succeeds Anything tt db tt
  delete_all-Succeeds (g ∷ gs) db =
      bind-Succeeds Anything Anything (statement (delete_edge f g)) (λ _. delete_all f gs) db
        (statement-Succeeds Anything (delete_edge f g) tt db _ refl (λ i m. m) tt)
        (λ _ new grows h. delete_all-Succeeds gs new)

  -- An edge to another row that is there can be written.
  insert_edge-Succeeds :
      (g : ℕ) (db : Db)
      → IsThere f db
      → IsThere g db
      → g ≢ f
      → Succeeds db (statement (insert_edge f g)) Anything
  unfolding insert_edge
  insert_edge-Succeeds g db mf mg differ =
      let (r, er) = Member-find_row f db.pubkeys mf in
      let (s, es) = Member-find_row g db.pubkeys mg in
      elim (Bool-cases (f == g)) [
        | inl e ↦ absurd (differ (sym ((==_iff f g).0 e)))
        | inr e ↦ elim (Bool-cases (has_edge f g db.follows)) [
          | inl old ↦
              statement-Succeeds Anything (insert_edge f g) tt db db (rw (e, old) refl) (λ i m. m)
                tt
          | inr new ↦
              statement-Succeeds Anything (insert_edge f g) tt db
                (record db { follows = db.follows ++ (f, g) ∷ [] }) (rw (e, new, er, es) refl)
                (λ i m. m) tt
        ]
      ]

  insert_all-Succeeds :
      (gs : List ℕ) (db : Db)
      → IsThere f db
      → ((g : ℕ) → Member g gs → IsThere g db × (g ≢ f))
      → Succeeds db (insert_all f gs) Anything
  unfolding insert_all
  insert_all-Succeeds [] db mf all = done-Succeeds Anything tt db tt
  insert_all-Succeeds (g ∷ gs) db mf all =
      let (mg, differ) = all g (inl refl) in
      bind-Succeeds Anything Anything (statement (insert_edge f g)) (λ _. insert_all f gs) db
        (insert_edge-Succeeds g db mf mg differ)
        (λ _ new grows h.
          insert_all-Succeeds gs new (grows f mf)
            (λ x m. let (mx, dx) = all x (inr m) in (grows x mx, dx)))

  apply_diff-Succeeds :
      (event_id : ℕ) (created_at : ℤ) (added removed : List ℕ) (now : ℕ) (db : Db)
      → IsThere f db
      → ((g : ℕ) → Member g added → IsThere g db × (g ≢ f))
      → Succeeds db (apply_diff f event_id created_at added removed now) Anything
  unfolding apply_diff
  apply_diff-Succeeds event_id created_at added removed now db mf all =
      let set : Sql ℕ = statement (
        update_pubkeys (has_id f)
          (apply_event event_id created_at (not (is_empty added) || not (is_empty removed)) now)) in
      transaction-Succeeds Anything (delete_all f removed >> insert_all f added >> set >> done tt)
        db
        (bind-Succeeds Anything Anything (delete_all f removed >> insert_all f added >> set)
          (λ _. done tt) db
          (bind-Succeeds Anything Anything (delete_all f removed >> insert_all f added) (λ _. set)
            db
            (bind-Succeeds Anything Anything (delete_all f removed) (λ _. insert_all f added) db
              (delete_all-Succeeds removed db)
              (λ _ new grows h.
                insert_all-Succeeds added new (grows f mf)
                  (λ g m. let (there, differ) = all g m in (grows g there, differ))))
            (λ _ new grows h.
              update-Succeeds _ _ new (record { same_id = λ r. refl; same_key = λ r. refl })))
          (λ _ new grows h. done-Succeeds Anything tt new tt))

  -- A follow list is applied, if the follower and all followees have rows.
  pub apply_follow_list-Succeeds :
      (event_id : ℕ) (created_at : ℤ) (followees : List ℕ) (now : ℕ) (db : Db)
      → IsThere f db
      → ((g : ℕ) → Member g followees → IsThere g db)
      → Succeeds db (apply_follow_list f event_id created_at followees now) Anything
  unfolding apply_follow_list select_applied select_followees
  apply_follow_list-Succeeds event_id created_at followees now db mf all =
      let (r, e) = Member-find_row f db.pubkeys mf in
      bind-Succeeds Anything Anything (statement (select_applied f))
        (resume f event_id created_at now followees) db
        (statement-Succeeds Anything (select_applied f) r.applied_event_id db db
          (rw (e, select_applied) refl) (λ i m. m) tt)
        (λ current new grows h. go current new grows (is_applied current event_id))
    where
      go :
          (current : Option ℕ) (new : Db)
          → Grows db new
          → (old : Bool)
          → Succeeds new
              (if old
                then again f event_id created_at now
                else statement (select_followees f) >>= replace f event_id created_at now followees)
              Anything
      go current new grows true =
          bind-Succeeds Anything Anything (statement (update_pubkeys (has_id f) (confirm now)))
            (λ _. done false) new
            (update-Succeeds (has_id f) (confirm now) new
              (record { same_id = λ r. refl; same_key = λ r. refl }))
            (λ _ last g h. done-Succeeds Anything false last tt)
      go current new grows false =
          bind-Succeeds Anything Anything (statement (select_followees f))
            (replace f event_id created_at now followees) new
            (statement-Succeeds Anything (select_followees f) _ new new refl (λ i m. m) tt)
            (λ edges t more h.
              let added = difference (new_set f followees) edges in
              bind-Succeeds Anything Anything
                (apply_diff f event_id created_at added (difference edges (new_set f followees))
                  now)
                (λ _. done true) t
                (apply_diff-Succeeds event_id created_at added _ now t (more f (grows f mf)) (λ g m.
                  let (fresh, _) =
                    Member-filter (λ x. not (contains edges x)) g (new_set f followees) m in
                  let (asked, differ) = (Member-new_set f followees g).0 fresh in
                  (more g (grows g (all g asked)), differ)))
                (λ _ last k h. done-Succeeds Anything true last tt))

insert_relays-Succeeds :
    (id : ℕ) (relays : List (String × Marker)) (seen_at : ℤ) (db : Db)
    → IsThere id db
    → Succeeds db (insert_relays id relays seen_at) Anything
unfolding insert_relays insert_relay
insert_relays-Succeeds id [] seen_at db m = done-Succeeds Anything tt db tt
insert_relays-Succeeds id ((url, marker) ∷ relays) seen_at db m =
    bind-Succeeds Anything Anything (statement (insert_relay id url marker seen_at))
      (λ _. insert_relays id relays seen_at) db first
      (λ _ new grows h. insert_relays-Succeeds id relays seen_at new (grows id m))
  where
    first : Succeeds db (statement (insert_relay id url marker seen_at)) Anything
    first =
        let (r, e) = Member-find_row id db.pubkeys m in
        elim (Bool-cases (has_relay id url db.pubkey_relays)) [
          | inl old ↦
              statement-Succeeds Anything (insert_relay id url marker seen_at) tt db db
                (rw (old, insert_relay) refl) (λ i k. k) tt
          | inr new ↦
              let row : RelayRow = record {
                pubkey_id = id;
                url = url;
                marker = marker;
                seen_at = seen_at;
              } in
              statement-Succeeds Anything (insert_relay id url marker seen_at) tt db
                (record db { pubkey_relays = db.pubkey_relays ++ row ∷ [] })
                (rw (new, e, insert_relay) refl) (λ i k. k) tt
        ]

pub apply_relay_list-Succeeds :
    (id : ℕ) (relays : List (String × Marker)) (seen_at : ℤ) (db : Db)
    → IsThere id db
    → Succeeds db (apply_relay_list id relays seen_at) Anything
unfolding apply_relay_list delete_relays
apply_relay_list-Succeeds id relays seen_at db m =
    transaction-Succeeds Anything (statement (delete_relays id) >> insert_relays id relays seen_at)
      db
      (bind-Succeeds Anything Anything (statement (delete_relays id))
        (λ _. insert_relays id relays seen_at) db
        (statement-Succeeds Anything (delete_relays id) tt db _ refl (λ i k. k) tt)
        (λ _ new grows h. insert_relays-Succeeds id relays seen_at new (grows id m)))

pub lookup_write_relays-Succeeds :
    (id : ℕ) (db : Db) → Succeeds db (lookup_write_relays id) Anything
unfolding lookup_write_relays select_write_relays
lookup_write_relays-Succeeds id db =
    statement-Succeeds Anything (select_write_relays id) _ db db refl (λ i m. m) tt
