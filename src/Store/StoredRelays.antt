-- ===== src/Store/StoredRelays.antt =====
-- src/store/relays.rs: the rows that a list leaves, one insert after the other.
use Prim.Native.String.{String}
use wotcrawler.Prelude.{
  inl, inr, ℕ, ◌≡◌, refl, subst, sym, ap, ◌∙◌, Bool, true, false, not, ◌&&◌, List, [], ◌∷◌, ◌++◌,
  Option, none, some, ◌==◌, ==_iff, ℤ, filter, append-nil, append_assoc, Member, Member-append,
  Member-append_left, Member-append_right, Member-filter, Bool-cases, Option-cases, arith,
}
use wotcrawler.Prelude.Maps.{string_eq, lookup}
use wotcrawler.Prelude.Results.{Result, ok, err}
use wotcrawler.Errors.{StoreError}
use wotcrawler.Ingest.RelayList.{Marker}
use wotcrawler.Store.{RelayRow, Db, World, statement, done, find_row}
use wotcrawler.Store.Relays.{has_relay, insert_relay, insert_relays}
use wotcrawler.Store.Rules.{statement-ok, bind-ok}
use wotcrawler.Store.RelayLists.{
  lookup-append_found, lookup-append_none, lookup_here, lookup-append_cases,
}

module _ (p : ℕ) where
  -- Exactly the first marker of each url of `pairs` is stored.
  pub record IsStored (pairs : List (String × Marker)) (rows : List RelayRow) : Type 0 where
    pub listed :
        (r : RelayRow) → Member r rows → r.pubkey_id ≡ p → lookup r.url pairs ≡ some r.marker
    pub stored :
        (u : String) (m : Marker)
        → lookup u pairs ≡ some m
        → (r : RelayRow) × Member r rows × (r.pubkey_id ≡ p) × (r.url ≡ u) × (r.marker ≡ m)

  has_relay-Member :
      (u : String) (rows : List RelayRow)
      → has_relay p u rows ≡ true
      → (r : RelayRow) × Member r rows × (r.pubkey_id ≡ p) × (r.url ≡ u)
  has_relay-Member u [] h = cc
  has_relay-Member u (r ∷ rows) h = elim (Bool-cases (r.pubkey_id == p && string_eq.beq r.url u)) [
    | inl e ↦
        let both_hold : ((r.pubkey_id == p) ≡ true) × (string_eq.beq r.url u ≡ true) =
          ground arith in
        (
          r,
          inl refl,
          (==_iff r.pubkey_id p).0 both_hold.0,
          (string_eq.beq_iff r.url u).0 both_hold.1,
        )
    | inr e ↦ let (s, m, i, j) = has_relay-Member u rows (rw e at h) in (s, inr m, i, j)
  ]

  has_relay-of_Member :
      (r : RelayRow) (rows : List RelayRow)
      → Member r rows
      → r.pubkey_id ≡ p
      → has_relay p r.url rows ≡ true
  has_relay-of_Member r [] m e = absurd m
  has_relay-of_Member r (s ∷ rows) (inl q) e =
      let i : (s.pubkey_id == p) ≡ true =
        (==_iff s.pubkey_id p).1 (ap (λ x. x.pubkey_id) (sym q) ∙ e) in
      let j : string_eq.beq s.url r.url ≡ true =
        (string_eq.beq_iff s.url r.url).1 (ap (λ x. x.url) (sym q)) in
      rw (i, j) refl
  has_relay-of_Member r (s ∷ rows) (inr m) e =
      let ih = has_relay-of_Member r rows m e in ground (arith, ih)

  append-found :
      (u : String) (m k : Marker) (pairs : List (String × Marker)) (rows : List RelayRow)
      → lookup u pairs ≡ some k
      → IsStored pairs rows
      → IsStored (pairs ++ (u, m) ∷ []) rows
  append-found u m k pairs rows h st = record {
    listed = λ r at e. lookup-append_found r.url r.marker pairs ((u, m) ∷ []) (st.listed r at e);
    stored = λ j n g. elim (lookup-append_cases j u m n pairs g) [
      | inl e ↦ st.stored j n e
      | inr (e, same, _) ↦ absurd (none_not (sym e ∙ (ap (λ x. lookup x pairs) (sym same) ∙ h)))
    ];
  }
    where
      none_not : Path (Option Marker) none (some k) → ⊥
      none_not q = cc

  append-new :
      (u : String) (m : Marker) (pairs : List (String × Marker)) (rows : List RelayRow)
      (row : RelayRow)
      → row.pubkey_id ≡ p
      → row.url ≡ u
      → row.marker ≡ m
      → lookup u pairs ≡ none
      → IsStored pairs rows
      → IsStored (pairs ++ (u, m) ∷ []) (rows ++ row ∷ [])
  append-new u m pairs rows row own url marker h st = record {
    listed = λ r at e. elim (Member-append r rows (row ∷ []) at) [
      | inl old ↦ lookup-append_found r.url r.marker pairs ((u, m) ∷ []) (st.listed r old e)
      | inr (inl q) ↦
          let its_url : r.url ≡ u = ap (λ x. x.url) q ∙ url in
          let its_marker : r.marker ≡ m = ap (λ x. x.marker) q ∙ marker in
          ap (λ x. lookup x (pairs ++ (u, m) ∷ [])) its_url
          ∙ (lookup-append_none u pairs ((u, m) ∷ []) h
              ∙ (lookup_here u m ∙ ap some (sym its_marker)))
      | inr (inr none_left) ↦ absurd none_left
    ];
    stored = λ j n g. elim (lookup-append_cases j u m n pairs g) [
      | inl e ↦
          let (r, at, i, k, l) = st.stored j n e in
          (r, Member-append_left r rows (row ∷ []) at, i, k, l)
      | inr (_, same, marked) ↦ (
        row,
        Member-append_right row rows (row ∷ []) (inl refl),
        own,
        url ∙ same,
        marker ∙ marked,
      )
    ];
  }

  IsStored-absent :
      (u : String) (pairs : List (String × Marker)) (rows : List RelayRow)
      → has_relay p u rows ≡ false
      → IsStored pairs rows
      → lookup u pairs ≡ none
  IsStored-absent u pairs rows h st = elim (Option-cases (lookup u pairs)) [
    | inl e ↦ e
    | inr (k, e) ↦
        let (r, at, own, url, _) = st.stored u k e in
        let found = has_relay-of_Member r rows at own in
        absurd (true_not (sym (rw url at found) ∙ h))
  ]
    where
      true_not : Path Bool true false → ⊥
      true_not q = cc

  insert_relay-IsStored :
      (u : String) (m : Marker) (seen_at : ℤ) (pairs : List (String × Marker)) (db after : Db)
      → insert_relay p u m seen_at db ≡ ok (tt, after)
      → IsStored pairs db.pubkey_relays
      → IsStored (pairs ++ (u, m) ∷ []) after.pubkey_relays
  unfolding insert_relay
  insert_relay-IsStored u m seen_at pairs db after h st =
      elim (Bool-cases (has_relay p u db.pubkey_relays)) [
        | inl e ↦
            let (r, at, own, url) = has_relay-Member u db.pubkey_relays e in
            let kept : db ≡ after = pair_of (rw e at h) in
            subst (λ d. IsStored (pairs ++ (u, m) ∷ []) d.pubkey_relays) kept
              (append-found u m r.marker pairs db.pubkey_relays
                (ap (λ x. lookup x pairs) (sym url) ∙ st.listed r at own) st)
        | inr e ↦ elim (Option-cases (find_row p db.pubkeys)) [
          | inl f ↦ absurd (err_not (rw (e, f) at h))
          | inr (_, f) ↦
              let row : RelayRow = record {
                pubkey_id = p;
                url = u;
                marker = m;
                seen_at = seen_at;
              } in
              let kept : record db { pubkey_relays = db.pubkey_relays ++ row ∷ [] } ≡ after =
                pair_of (rw (e, f) at h) in
              subst (λ d. IsStored (pairs ++ (u, m) ∷ []) d.pubkey_relays) kept
                (append-new u m pairs db.pubkey_relays row refl refl refl
                  (IsStored-absent u pairs db.pubkey_relays e st) st)
        ]
      ]
    where
      pair_of :
          {d : Db} → Path (Result StoreError (Unit × Db)) (ok (tt, d)) (ok (tt, after)) → d ≡ after
      pair_of q = cc

      err_not : {e : StoreError} → Path (Result StoreError (Unit × Db)) (err e) (ok (tt, after)) → ⊥
      err_not q = cc

  pub insert_relays-IsStored :
      (seen_at : ℤ) (pairs relays : List (String × Marker)) (w v : World)
      → insert_relays p relays seen_at w ≡ (ok tt, v)
      → IsStored pairs w.db.pubkey_relays
      → IsStored (pairs ++ relays) v.db.pubkey_relays
  unfolding insert_relays
  insert_relays-IsStored seen_at pairs [] w v h st =
      subst (λ l. IsStored l v.db.pubkey_relays) (sym (append-nil pairs))
        (subst (λ (d : World). IsStored pairs d.db.pubkey_relays) (same_world h) st)
    where
      same_world : done tt w ≡ (ok tt, v) → w ≡ v
      same_world q = cc
  insert_relays-IsStored seen_at pairs ((u, m) ∷ relays) w v h st =
      let (_, x, now, later) =
        bind-ok (statement (insert_relay p u m seen_at)) (λ _. insert_relays p relays seen_at) w tt
          v h in
      let step =
        insert_relay-IsStored u m seen_at pairs w.db x.db
          (statement-ok (insert_relay p u m seen_at) w tt x now) st in
      subst (λ l. IsStored l v.db.pubkey_relays) (append_assoc pairs ((u, m) ∷ []) relays)
        (insert_relays-IsStored seen_at (pairs ++ (u, m) ∷ []) relays x v later step)

  pub none-IsStored :
      (rows : List RelayRow) → IsStored [] (filter (λ r. not (r.pubkey_id == p)) rows)
  unfolding lookup
  none-IsStored rows = record {
    listed = λ r at e.
        let kept = (Member-filter (λ r. not (r.pubkey_id == p)) r rows at).1 in
        let same = (==_iff r.pubkey_id p).1 e in absurd (ground arith);
    stored = λ u m h. cc;
  }
