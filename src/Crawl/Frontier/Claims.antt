-- ===== src/Crawl/Frontier/Claims.antt =====
-- src/crawl/frontier.rs: what `claim_batch` takes, and that no two claims take the same row.
use wotcrawler.Prelude.{
  ℕ, suc, ◌≤◌, ◌≡◌, ◌≢◌, ◌∙◌, ◌⊎◌, inl, inr, refl, sym, ap, subst, min, Bool, true, false, not,
  ◌&&◌, List, [], ◌∷◌, Member, map, contains, filter, take, length, Bool-cases, arith,
  if◌then◌else◌, Member-filter, Member-filter_of, Member-map, Member-map_of, not-Member_of_contains,
}
use wotcrawler.Prelude.Results.{ok}
use wotcrawler.Store.{
  Status, discovered, in_progress, fetched, not_found, failed, Row, World, statement, done,
  transaction, update_rows,
}
use wotcrawler.Store.Rules.{bind-ok, statement-ok, transaction-ok}
use wotcrawler.Crawl.Frontier.{
  ClaimedAuthor, is_discovered, order_by_id, claimable, lease, claim_statement, claimed_author,
  claim_batch,
}
use wotcrawler.Crawl.Frontier.Order.{
  Member-order, length-order, order-IsSorted, length-take, Member-take, take-lowest,
}

-- A row that a claim may take.
abbrev pub eligible : List ℕ → Row → Bool
eligible locked r = is_discovered r.status && not (contains locked r.id)

abbrev pub row_ids : List Row → List ℕ
row_ids rows = map (λ r. r.id) rows

eligible-parts :
    (locked : List ℕ) (r : Row)
    → eligible locked r ≡ true
    → (r.status ≡ discovered) × ¬ Member r.id locked
eligible-parts locked r h =
    let parts : (is_discovered r.status ≡ true) × (contains locked r.id ≡ false) = ground arith in
    (is r.status parts.0, not-Member_of_contains locked r.id parts.1)
  where
    is : (s : Status) → is_discovered s ≡ true → s ≡ discovered
    is discovered h = refl
    is in_progress h = cc
    is fetched h = cc
    is not_found h = cc
    is failed h = cc

-- What a claim took of the rows `old`, and what it left.
pub record IsClaim (locked : List ℕ) (limit now : ℕ) (old : List Row) (authors : List ClaimedAuthor)
    (new : List Row) : Type 0 where
  pub taken :
      (a : ClaimedAuthor)
      → Member a authors
      → (r : Row) × Member r old
        × (r.status ≡ discovered)
        × (¬ Member r.id locked)
        × (a ≡ claimed_author r)
  pub many : length authors ≡ min limit (length (filter (eligible locked) old))
  pub lowest :
      (a : ClaimedAuthor) (r : Row)
      → Member a authors
      → Member r old
      → eligible locked r ≡ true
      → Member (claimed_author r) authors ⊎ (a.id ≤ r.id)
  pub leased : new ≡ update_rows (λ r. contains (map (λ a. a.id) authors) r.id) (lease now) old

map-claimed : (rows : List Row) → map (λ a. a.id) (map claimed_author rows) ≡ row_ids rows
map-claimed [] = refl
map-claimed (r ∷ rows) = ap (◌∷◌ r.id) (map-claimed rows)

length-claimed : (rows : List Row) → length (map claimed_author rows) ≡ length rows
length-claimed [] = refl
length-claimed (r ∷ rows) = ap suc (length-claimed rows)

claimable-IsClaim :
    (locked : List ℕ) (limit now : ℕ) (old : List Row)
    → IsClaim locked limit now old
        (map claimed_author (claimable locked limit old))
        (update_rows (λ r. contains (row_ids (claimable locked limit old)) r.id) (lease now) old)
unfolding claimable
claimable-IsClaim locked limit now old =
    let found = filter (eligible locked) old in
    let rows = take limit (order_by_id found) in
    record {
      taken = λ a m.
          let (r, mr, e) = Member-map claimed_author a rows m in
          let there =
            Member-filter (eligible locked) r old
              ((Member-order found r).0 (Member-take limit (order_by_id found) r mr)) in
          let (status, free) = eligible-parts locked r there.1 in (r, there.0, status, free, e);
      many =
          length-claimed rows
          ∙ length-take limit (order_by_id found)
          ∙ ap (min limit) (length-order found);
      lowest = λ a r ma mr h.
          let (s, ms, e) = Member-map claimed_author a rows ma in
          let there = (Member-order found r).1 (Member-filter_of (eligible locked) r old mr h) in
          elim (take-lowest limit (order_by_id found) s r (order-IsSorted found) ms there) [
            | inl k ↦ inl (Member-map_of claimed_author r rows k)
            | inr k ↦ inr (rw e k)
          ];
      leased = rw (map-claimed rows) refl;
    }

-- A claim that succeeds takes rows that are discovered and not locked, as many as there are up to the
-- limit, none with a higher id than one that it leaves; it leases them, and changes no other row.
pub claim_batch-IsClaim :
    (locked : List ℕ) (limit now : ℕ) (w v : World) (authors : List ClaimedAuthor)
    → claim_batch locked limit now w ≡ (ok authors, v)
    → IsClaim locked limit now w.db.pubkeys authors v.db.pubkeys
unfolding claim_batch
claim_batch-IsClaim locked limit now w v authors h =
    let (rows, t, claiming, last) =
      bind-ok (transaction (statement (claim_statement locked limit now)))
        (λ rows. done (map claimed_author rows)) w authors v h in
    let (u, x, from, run, to) =
      transaction-ok (statement (claim_statement locked limit now)) w rows t claiming in
    let done_so = statement-ok (claim_statement locked limit now) u rows x run in
    let mine : claimable locked limit u.db.pubkeys ≡ rows = cc in
    let changed : update_rows (λ r. contains (row_ids (claimable locked limit u.db.pubkeys)) r.id)
          (lease now) u.db.pubkeys
        ≡ x.db.pubkeys =
      cc in
    let names : map claimed_author rows ≡ authors = cc in
    let end : x.db ≡ v.db = to ∙ ap (λ p. p.1.db) last in
    subst (λ d. IsClaim locked limit now d.pubkeys authors v.db.pubkeys) from
      (subst (λ d. IsClaim locked limit now u.db.pubkeys authors d.pubkeys) end
        (subst (λ rows. IsClaim locked limit now u.db.pubkeys authors rows) changed
          (subst
            (λ names. IsClaim locked limit now u.db.pubkeys names (
              update_rows (λ r. contains (row_ids (claimable locked limit u.db.pubkeys)) r.id)
                (lease now) u.db.pubkeys))
            (ap (map claimed_author) mine ∙ names)
            (claimable-IsClaim locked limit now u.db.pubkeys))))

pub Member-update :
    (select : Row → Bool) (change : Row → Row) (rs : List Row) (x : Row)
    → Member x (update_rows select change rs)
    → (r : Row) × Member r rs × (x ≡ (if select r then change r else r))
Member-update select change [] x m = absurd m
Member-update select change (r ∷ rs) x (inl e) = (r, inl refl, e)
Member-update select change (r ∷ rs) x (inr m) =
    let (s, ms, e) = Member-update select change rs x m in (s, inr ms, e)

-- A row with a claimed id is leased after the claim.
leased_row :
    (ids : List ℕ) (now : ℕ) (rs : List Row) (x : Row)
    → Member x (update_rows (λ r. contains ids r.id) (lease now) rs)
    → Member x.id ids
    → x.status ≡ in_progress
leased_row ids now rs x m named =
    let (r, mr, e) = Member-update (λ r. contains ids r.id) (lease now) rs x m in
    elim (Bool-cases (contains ids r.id)) [
      | inl c ↦ let here : x ≡ lease now r = e ∙ rw c refl in ap (λ y. y.status) here
      | inr c ↦
          let here : x ≡ r = e ∙ rw c refl in
          absurd (not-Member_of_contains ids r.id c (subst (λ y. Member y.id ids) here named))
    ]

-- Two claims that succeed share no id, if the second starts from the rows that the first left, or
-- finds the rows of the first locked.
pub claim_batch_exclusive :
    (locked : List ℕ) (limit now : ℕ) (w v : World) (authors : List ClaimedAuthor)
    (other_locked : List ℕ) (other_limit later : ℕ) (u x : World) (others : List ClaimedAuthor)
    → claim_batch locked limit now w ≡ (ok authors, v)
    → claim_batch other_locked other_limit later u ≡ (ok others, x)
    → (u.db.pubkeys ≡ v.db.pubkeys)
      ⊎ ((a : ClaimedAuthor) → Member a authors → Member a.id other_locked)
    → (a b : ClaimedAuthor) → Member a authors
    → Member b others
    → a.id ≢ b.id
claim_batch_exclusive locked limit now w v authors other_locked other_limit later u x others h k
      apart a b ma mb same =
    let first = claim_batch-IsClaim locked limit now w v authors h in
    let (r, mr, free, unlocked, e) =
      (claim_batch-IsClaim other_locked other_limit later u x others k).taken b mb in
    let here : a.id ≡ r.id = same ∙ ap (λ y. y.id) e in
    elim apart [
      | inr locks ↦ unlocked (subst (λ i. Member i other_locked) here (locks a ma))
      | inl after ↦
          let names = map (λ a. a.id) authors in
          let found =
            leased_row names now w.db.pubkeys r (subst (Member r) (after ∙ first.leased) mr)
              (subst (λ i. Member i names) here (Member-map_of (λ a. a.id) a authors ma)) in
          not_both (sym found ∙ free)
    ]
  where
    not_both : in_progress ≡ discovered → ⊥
    not_both q = cc
