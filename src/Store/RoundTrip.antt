-- ===== src/Store/RoundTrip.antt =====
-- src/store/relays.rs: what is read of a relay list that has been written.
use Prim.Native.String.{String}
use wotcrawler.Prelude.{
  ℕ, ◌≡◌, ◌↔◌, refl, subst, sym, ap, ◌∙◌, Bool, true, not, ◌&&◌, List, [], some, ◌==◌, ==_iff, ℤ,
  filter, map, Member, Member-filter, Member-filter_of, Member-map, Member-map_of, arith,
}
use wotcrawler.Prelude.Maps.{string_eq, lookup}
use wotcrawler.Prelude.Results.{Result, ok}
use wotcrawler.Errors.{StoreError}
use wotcrawler.Ingest.RelayList.{Marker}
use wotcrawler.Store.{RelayRow, Db, World, statement, ◌>>◌}
use wotcrawler.Store.Relays.{
  delete_relays, insert_relays, apply_relay_list, is_write, select_write_relays,
  lookup_write_relays,
}
use wotcrawler.Store.Rules.{statement-ok, bind-ok, transaction-ok}
use wotcrawler.Store.StoredRelays.{IsStored, insert_relays-IsStored, none-IsStored}

module _ (p : ℕ) where
  delete_relays-eq :
      (db after : Db) (a : Unit)
      → delete_relays p db ≡ ok (a, after)
      → after.pubkey_relays ≡ filter (λ r. not (r.pubkey_id == p)) db.pubkey_relays
  unfolding delete_relays
  delete_relays-eq db after a h = ap (λ (d : Db). d.pubkey_relays) (sym (pair_of h))
    where
      pair_of :
          {d : Db} {b : Unit}
          → Path (Result StoreError (Unit × Db)) (ok (b, d)) (ok (a, after))
          → d ≡ after
      pair_of q = cc

  abbrev chosen : RelayRow → Bool
  chosen r = r.pubkey_id == p && is_write r.marker

  chosen_parts : (r : RelayRow) → chosen r ≡ true → (r.pubkey_id ≡ p) × (is_write r.marker ≡ true)
  chosen_parts r h =
      let parts : ((r.pubkey_id == p) ≡ true) × (is_write r.marker ≡ true) = ground arith in
      ((==_iff r.pubkey_id p).0 parts.0, parts.1)

  chosen_of : (r : RelayRow) → r.pubkey_id ≡ p → is_write r.marker ≡ true → chosen r ≡ true
  chosen_of r own writes = let same = (==_iff r.pubkey_id p).1 own in rw (same, writes) refl

  select_write_relays-eq :
      (db after : Db) (out : List String)
      → select_write_relays p db ≡ ok (out, after)
      → out ≡ map (λ r. r.url) (filter chosen db.pubkey_relays)
  unfolding select_write_relays
  select_write_relays-eq db after out h = sym (pair_of h)
    where
      pair_of :
          {d : Db} {b : List String}
          → Path (Result StoreError (List String × Db)) (ok (b, d)) (ok (out, after))
          → b ≡ out
      pair_of q = cc

  apply_relay_list-IsStored :
      (relays : List (String × Marker)) (seen_at : ℤ) (w v : World)
      → apply_relay_list p relays seen_at w ≡ (ok tt, v)
      → IsStored p relays v.db.pubkey_relays
  unfolding apply_relay_list delete_relays
  apply_relay_list-IsStored relays seen_at w v h =
      let (u, x, same, body, last) =
        transaction-ok (statement (delete_relays p) >> insert_relays p relays seen_at) w tt v h in
      let (_, y, first, rest) =
        bind-ok (statement (delete_relays p)) (λ _. insert_relays p relays seen_at) u tt x body in
      let deleted = statement-ok (delete_relays p) u tt y first in
      subst (λ d. IsStored p relays d.pubkey_relays) last
        (insert_relays-IsStored p seen_at [] relays y x rest (
          subst (IsStored p []) (sym (delete_relays-eq u.db y.db _ deleted))
            (none-IsStored p u.db.pubkey_relays)))

  -- If a relay list is written and then looked up, and both succeed, then what is read is exactly
  -- the urls whose first entry in the list is a write relay or has no marker: nothing of an older
  -- list is left.
  pub apply_relay_list-lookup :
      (relays : List (String × Marker)) (seen_at : ℤ) (w v z : World) (out : List String)
      → apply_relay_list p relays seen_at w ≡ (ok tt, v)
      → lookup_write_relays p v ≡ (ok out, z)
      → (url : String)
      → Member url out ↔ ((m : Marker) × (lookup url relays ≡ some m) × (is_write m ≡ true))
  unfolding lookup_write_relays
  apply_relay_list-lookup relays seen_at w v z out h g url =
      let st = apply_relay_list-IsStored relays seen_at w v h in
      let found =
        select_write_relays-eq v.db z.db out (statement-ok (select_write_relays p) v out z g) in
      (
        λ at.
            let (r, kept, same) =
              Member-map (λ r. r.url) url (filter chosen v.db.pubkey_relays)
                (subst (Member url) found at) in
            let (row, test) = Member-filter chosen r v.db.pubkey_relays kept in
            let (own, writes) = chosen_parts r test in
            (r.marker, ap (λ x. lookup x relays) same ∙ st.listed r row own, writes),
        λ (m, first, writes).
            let (r, row, own, same, marked) = st.stored url m first in
            subst (Member url) (sym found) (
              subst (λ x. Member x (map (λ r. r.url) (filter chosen v.db.pubkey_relays))) same
                (Member-map_of (λ r. r.url) r (filter chosen v.db.pubkey_relays)
                  (Member-filter_of chosen r v.db.pubkey_relays row
                    (chosen_of r own (ap is_write marked ∙ writes))))),
      )
