-- ===== src/Store/Follows/Graph.antt =====
-- src/store/follows.rs: the tables as a graph, and `apply_follow_list` as a step on it.
use wotcrawler.Prelude.{
  ℕ, ◌≡◌, ◌≢◌, ◌∙◌, ◌↔◌, refl, sym, ap, Bool, true, false, not, ◌&&◌, List, [], ◌∷◌, Option, none,
  some, ==_iff, ◌==◌, ℤ, Member, Bool-cases, if◌then◌else◌, contains, contains→member,
  member→contains, inl, inr, arith,
}
use wotcrawler.Prelude.Results.{Result, ok}
use wotcrawler.Errors.{StoreError}
use wotcrawler.Store.{
  Row, Db, World, Sql, statement, done, ◌>>=◌, update_pubkeys, update_rows, has_id, find_row,
}
use wotcrawler.Store.Rules.{bind-ok, statement-ok}
use wotcrawler.Store.Follows.{
  select_applied, is_applied, confirm, edge_is, has_edge, apply_event, select_followees,
  apply_follow_list, new_set, difference, apply_diff,
}
use wotcrawler.Store.Follows.Edges.{edge_is_iff}
use wotcrawler.Store.Follows.Sets.{IsReplaced}
use wotcrawler.Store.Follows.Applied.{Outcome, selected, replace, resume, apply_follow_list-ok}
use wotcrawler.Store.Follows.Repeat.{find_row-update}

-- Who follows whom, and the event that each list was taken from.
pub record Graph : Type 0 where
  pub edges : ℕ → ℕ → Bool
  pub source : ℕ → Option ℕ

abbrev pub source_of : Option Row → Option ℕ
source_of (some r) = r.applied_event_id
source_of none = none

-- What of the tables the graph shows: neither the order of rows nor their bookkeeping.
abbrev pub graph_of : Db → Graph
graph_of db = record {
  edges = λ f g. has_edge f g db.follows;
  source = λ f. source_of (find_row f db.pubkeys);
}

-- The list of an event, received for `f`: it replaces the list of `f`, without `f` itself, unless that
-- is from the same event.
abbrev pub receive : ℕ → ℕ → List ℕ → Graph → Graph
receive f event_id ids graph = if is_applied (graph.source f) event_id then graph else record {
  edges = λ a b. if a == f then contains ids b && not (b == f) else graph.edges a b;
  source = λ a. if a == f then some event_id else graph.source a;
}

same_bool : {a b : Bool} → (a ≡ true) ↔ (b ≡ true) → a ≡ b
same_bool {a = true} {b = true} h = refl
same_bool {a = false} {b = false} h = refl
same_bool {a = true} {b = false} h = sym (h.0 refl)
same_bool {a = false} {b = true} h = h.1 refl

has_edge_iff : (f g : ℕ) (es : List (ℕ × ℕ)) → (has_edge f g es ≡ true) ↔ Member (f, g) es
has_edge_iff f g [] = (λ h. cc, λ m. absurd m)
has_edge_iff f g (e ∷ es) =
    let ih = has_edge_iff f g es in
    elim (Bool-cases (edge_is f g e)) [
      | inl s ↦ rw s (λ h. inl (sym ((edge_is_iff f g e).0 s)), λ m. refl)
      | inr s ↦ rw s (
        λ h. inr (ih.0 h),
        λ m. elim m [ inl q ↦ let t = (edge_is_iff f g e).1 (sym q) in cc | inr k ↦ ih.1 k ],
      )
    ]

find_row-other :
    (f i : ℕ) (change : Row → Row) (rs : List Row)
    → ((s : Row) → (change s).id ≡ s.id)
    → (i == f) ≡ false
    → find_row i (update_rows (has_id f) change rs) ≡ find_row i rs
find_row-other f i change [] keeps differ = refl
find_row-other f i change (s ∷ rs) keeps differ =
    let ih = find_row-other f i change rs keeps differ in
    elim (Bool-cases (s.id == f)) [
      | inl e ↦
          let own : (s.id == i) ≡ false = ground arith in
          let still : ((change s).id == i) ≡ false = ap (λ k. k == i) (keeps s) ∙ own in
          rw (e, find_row, still, own) ih
      | inr e ↦ rw (e, find_row) (ap (λ o. if s.id == i then some s else o) ih)
    ]

-- A write by the follower changes its source as it changes its row, and no other's.
source-update :
    (f : ℕ) (change : Row → Row) (old new : Db) (r : Row)
    → ((s : Row) → (change s).id ≡ s.id)
    → new.pubkeys ≡ update_rows (has_id f) change old.pubkeys
    → find_row f old.pubkeys ≡ some r
    → (a : ℕ)
    → source_of (find_row a new.pubkeys)
      ≡ (if a == f then (change r).applied_event_id else source_of (find_row a old.pubkeys))
source-update f change old new r keeps rows there a = elim (Bool-cases (a == f)) [
  | inl e ↦
      rw (rows, e)
        (ap (λ k. source_of (find_row k (update_rows (has_id f) change old.pubkeys)))
            ((==_iff a f).0 e)
          ∙ ap source_of (find_row-update f change old.pubkeys r keeps there))
  | inr e ↦ rw (rows, e) (ap source_of (find_row-other f a change old.pubkeys keeps e))
]

module _ (f event_id : ℕ) (created_at : ℤ) (now : ℕ) (ids : List ℕ) where
  -- A call that succeeds says whether the event was new.
  says_new :
      (w v : World) (new_event : Bool)
      → apply_follow_list f event_id created_at ids now w ≡ (ok new_event, v)
      → new_event ≡ not (is_applied (source_of (find_row f w.db.pubkeys)) event_id)
  unfolding apply_follow_list
  says_new w v new_event h =
      let (current, u, selecting, rest) =
        bind-ok (statement (select_applied f)) (resume f event_id created_at now ids) w new_event v
          h in
      let (r, there, applied, same) =
        selected f event_id created_at now w.db u.db current
          (statement-ok (select_applied f) w current u selecting) in
      let source : source_of (find_row f w.db.pubkeys) ≡ current = ap source_of there ∙ applied in
      elim (Bool-cases (is_applied current event_id)) [
        | inl e ↦
            let (n, t, q, last) =
              bind-ok (statement (update_pubkeys (has_id f) (confirm now))) (λ _. done false) u
                new_event v (rw e at rest) in
            rw (source, e) (answered last)
        | inr e ↦
            let (edges, t, q, last) =
              bind-ok (statement (select_followees f)) (replace f event_id created_at now ids) u
                new_event v (rw e at rest) in
            let (n, x, p, end) =
              bind-ok
                (apply_diff f event_id created_at (difference (new_set f ids) edges)
                  (difference edges (new_set f ids)) now)
                (λ _. done true) t new_event v last in
            rw (source, e) (answered end)
      ]
    where
      answered :
          {b : Bool} {t : World}
          → Path (Result StoreError Bool × World) (ok b, t) (ok new_event, v)
          → new_event ≡ b
      answered q = cc

Graph-path :
    (g h : Graph)
    → ((a b : ℕ) → g.edges a b ≡ h.edges a b)
    → ((a : ℕ) → g.source a ≡ h.source a)
    → g ≡ h
Graph-path g h p q i = record { edges = λ a b. p a b i; source = λ a. q a i }

not_same : (a b : ℕ) → a ≢ b → (a == b) ≡ false
not_same a b h = elim (Bool-cases (a == b)) [ inl e ↦ absurd (h ((==_iff a b).0 e)) | inr e ↦ e ]

apart : (a b : ℕ) → (a == b) ≡ false → a ≢ b
apart a b h q = let t = (==_iff a b).1 q in cc

conjuncts : (c d : Bool) → c && not d ≡ true → (c ≡ true) × (d ≡ false)
conjuncts true true h = cc
conjuncts true false h = (refl, refl)
conjuncts false d h = cc

new_source : (x : Bool) → true ≡ not x → x ≡ false
new_source true h = h
new_source false h = refl

old_source : (x : Bool) → false ≡ not x → x ≡ true
old_source true h = refl
old_source false h = h

-- The edges of a call for a new event.
edges-replaced :
    (f : ℕ) (ids : List ℕ) (old new : List (ℕ × ℕ))
    → IsReplaced f ids old new
    → (a b : ℕ)
    → has_edge a b new ≡ (if a == f then contains ids b && not (b == f) else has_edge a b old)
edges-replaced f ids old new r a b = elim (Bool-cases (a == f)) [
  | inl e ↦ rw e (
      ap (λ k. has_edge k b new) ((==_iff a f).0 e)
      ∙ same_bool (
        λ h.
            let (m, differ) = (r.own b).0 ((has_edge_iff f b new).0 h) in
            rw (member→contains ids b m, not_same b f differ) refl,
        λ h. (has_edge_iff f b new).1 (
            (r.own b).1 (
              let (c, d) = conjuncts (contains ids b) (b == f) h in
              (contains→member ids b c, apart b f d))),
      ))
  | inr e ↦
      let other = apart a f e in
      rw e (
        same_bool (
          λ h. (has_edge_iff a b old).1 ((r.others a b other).0 ((has_edge_iff a b new).0 h)),
          λ h. (has_edge_iff a b new).1 ((r.others a b other).1 ((has_edge_iff a b old).0 h)),
        ))
]

module _ (f event_id : ℕ) (created_at : ℤ) (now : ℕ) (ids : List ℕ) where
  Outcome-receive :
      (new_event : Bool) (old new : Db)
      → Outcome f event_id created_at now ids new_event old new
      → new_event ≡ not (is_applied (source_of (find_row f old.pubkeys)) event_id)
      → graph_of new ≡ receive f event_id ids (graph_of old)
  Outcome-receive true old new o says =
      let (r, there) = o.before in
      let (changed, rows) = o.row in
      let fresh : is_applied (source_of (find_row f old.pubkeys)) event_id ≡ false =
        new_source _ says in
      rw fresh (
        Graph-path _ _ (edges-replaced f ids old.follows new.follows o.replaced) (
          source-update f (apply_event event_id created_at changed now) old new r (λ s. refl) rows
            there))
  Outcome-receive false old new o says =
      let (r, there, same) = o.before in
      let known : is_applied (source_of (find_row f old.pubkeys)) event_id ≡ true =
        old_source _ says in
      rw known (
        Graph-path _ _ (λ a b. ap (has_edge a b) o.same_edges)
          (λ a.
            source-update f (confirm now) old new r (λ s. refl) o.row there a
            ∙ elim (Bool-cases (a == f)) [
              | inl e ↦ rw e (
                  sym (
                    ap (λ k. source_of (find_row k old.pubkeys)) ((==_iff a f).0 e)
                    ∙ ap source_of there))
              | inr e ↦ rw e refl
            ]))

  -- A call that succeeds is one step on the graph.
  pub graph_of-apply_follow_list :
      (w v : World) (new_event : Bool)
      → apply_follow_list f event_id created_at ids now w ≡ (ok new_event, v)
      → graph_of v.db ≡ receive f event_id ids (graph_of w.db)
  graph_of-apply_follow_list w v new_event h =
      Outcome-receive new_event w.db v.db
        (apply_follow_list-ok f event_id created_at now ids w v new_event h)
        (says_new f event_id created_at now ids w v new_event h)

-- A list as the store receives it.
pub record Received : Type 0 where
  pub follower_id : ℕ
  pub event_id : ℕ
  pub created_at : ℤ
  pub followee_ids : List ℕ
  pub now : ℕ

unfoldable pub apply_each : List Received → Sql (Unit {0})
apply_each [] = done tt
apply_each (l ∷ lists) =
    apply_follow_list l.follower_id l.event_id l.created_at l.followee_ids l.now >>= λ _.
    apply_each lists

abbrev pub receive_each : List Received → Graph → Graph
receive_each [] graph = graph
receive_each (l ∷ lists) graph =
    receive_each lists (receive l.follower_id l.event_id l.followee_ids graph)

-- Any sequence of calls that succeed is that sequence of steps on the graph: each list replaces that of
-- its follower, without the follower, unless it is from the event that the follower's list is from;
-- and nothing else of the graph changes.
pub graph_of-apply_each :
    (lists : List Received) (w v : World)
    → apply_each lists w ≡ (ok tt, v)
    → graph_of v.db ≡ receive_each lists (graph_of w.db)
unfolding apply_each
graph_of-apply_each [] w v h = ap (λ p. graph_of p.1.db) (sym h)
graph_of-apply_each (l ∷ lists) w v h =
    let (new_event, u, first, rest) =
      bind-ok (apply_follow_list l.follower_id l.event_id l.created_at l.followee_ids l.now)
        (λ _. apply_each lists) w tt v h in
    graph_of-apply_each lists u v rest
    ∙ ap (receive_each lists) (
        graph_of-apply_follow_list l.follower_id l.event_id l.created_at l.now l.followee_ids w u
          new_event first)
