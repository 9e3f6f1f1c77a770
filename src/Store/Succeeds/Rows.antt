-- ===== src/Store/Succeeds/Rows.antt =====
-- src/store/pubkeys.rs: the writers of rows succeed over a connection that lasts.
use wotcrawler.Prelude.{
  ℕ, ◌+◌, ◌≡◌, refl, sym, Bool, false, Bool-cases, List, [], ◌∷◌, ◌++◌, Option, some, Option-cases,
  Member, Member-append_left, Member-append_right, inl, inr, ◌==◌, ==_iff, length,
}
use wotcrawler.Store.{Row, Db, statement, done, update_pubkeys, has_id, find_row, not_found}
use wotcrawler.Store.WellFormed.{ids, KeepsKeys, ids-update}
use wotcrawler.Store.Finding.{map-append}
use wotcrawler.Store.Pubkeys.{
  insert_pubkey, upsert_pubkey, find_pubkey, new_row, set_fetch_status, set_status, stamp_status,
  bytes_eq,
}
use wotcrawler.Store.Succeeds.{Succeeds, Anything, done-Succeeds, statement-Succeeds, bind-Succeeds}

-- A row with the id is there.
abbrev pub IsThere : ℕ → Db → Type 0
IsThere i db = Member i (ids db.pubkeys)

pub Member-find_row :
    (i : ℕ) (rs : List Row) → Member i (ids rs) → (r : Row) × (find_row i rs ≡ some r)
Member-find_row i [] m = absurd m
Member-find_row i (s ∷ rs) m = elim (Bool-cases (s.id == i)) [
  | inl e ↦ (s, rw e refl)
  | inr e ↦ rw e (Member-find_row i rs (later e m))
]
  where
    later : (s.id == i) ≡ false → Member i (s.id ∷ ids rs) → Member i (ids rs)
    later e (inr k) = k
    later e (inl q) = let same = (==_iff s.id i).1 (sym q) in cc

find_pubkey-Member :
    (pubkey : List ℕ) (rs : List Row) (i : ℕ) → find_pubkey pubkey rs ≡ some i → Member i (ids rs)
find_pubkey-Member pubkey [] i h = cc
find_pubkey-Member pubkey (r ∷ rs) i h = elim (Bool-cases (bytes_eq r.pubkey pubkey)) [
  | inl e ↦ inl (same (rw e at h))
  | inr e ↦ inr (find_pubkey-Member pubkey rs i (rw e at h))
]
  where
    same : Path (Option ℕ) (some r.id) (some i) → i ≡ r.id
    same q = cc

pub upsert_pubkey-Succeeds :
    (pubkey : List ℕ) (db : Db) → length pubkey ≡ 32 → Succeeds db (upsert_pubkey pubkey) IsThere
unfolding upsert_pubkey insert_pubkey
upsert_pubkey-Succeeds pubkey db size =
    rw ((==_iff (length pubkey) 32).1 size, upsert_pubkey)
      (elim (Option-cases (find_pubkey pubkey db.pubkeys)) [
        | inr (i, e) ↦
            statement-Succeeds IsThere (insert_pubkey pubkey) i db
              (record db { next_id = db.next_id + 1 }) (rw (e, insert_pubkey) refl) (λ j m. m)
              (find_pubkey-Member pubkey db.pubkeys i e)
        | inl e ↦
            let row : List Row = new_row db.next_id pubkey ∷ [] in
            let grown = map-append (λ r. r.id) db.pubkeys row in
            statement-Succeeds IsThere (insert_pubkey pubkey) db.next_id db
              (record db { pubkeys = db.pubkeys ++ row; next_id = db.next_id + 1 })
              (rw (e, insert_pubkey) refl)
              (λ j m. rw grown (Member-append_left j (ids db.pubkeys) (ids row) m))
              (rw grown (Member-append_right db.next_id (ids db.pubkeys) (ids row) (inl refl)))
      ])

pub update-Succeeds :
    (select : Row → Bool) (change : Row → Row) (db : Db)
    → KeepsKeys change
    → Succeeds db (statement (update_pubkeys select change)) Anything
update-Succeeds select change db u =
    statement-Succeeds Anything (update_pubkeys select change) _ db _ refl
      (λ i m. rw (ids-update select change u db.pubkeys) m) tt

pub set_fetch_status-Succeeds :
    (id ts : ℕ) (db : Db) → Succeeds db (set_fetch_status id "not_found" ts) Anything
unfolding set_fetch_status
set_fetch_status-Succeeds id ts db =
    bind-Succeeds Anything Anything (statement (set_status id (some not_found) ts)) (λ _. done tt)
      db
      (update-Succeeds (has_id id) (stamp_status not_found ts) db
        (record { same_id = λ r. refl; same_key = λ r. refl }))
      (λ n new g h. done-Succeeds Anything tt new tt)
