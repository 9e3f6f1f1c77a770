-- ===== src/Relay/Fetch/Tests.antt =====
-- Runs of the page loop, and the theorems on it at concrete inputs.
use wotcrawler.Prelude.{
  contains, Bool-cases, ◌∷◌, ℕ, inl, inr, ◌+◌, ◌≡◌, refl, true, List, [], none, Member, subst,
  if◌then◌else◌, leb, arith,
}
use wotcrawler.Prelude.Results.{Result, ok, err}
use wotcrawler.External.{External}
use wotcrawler.Errors.{RelayError, fetch_timeout, boundary_stall, deadline}
use wotcrawler.Relay.Fetch.{paginate_chunk}
use wotcrawler.Relay.Fetch.Complete.{IsNewest, IsHonest, paginate_chunk-Covers}
use wotcrawler.Relay.Fetch.Authors.{IsFaithful, fetch_complete_with_timeout-Covers}
use wotcrawler.Relay.Fetch.Chunks.{Pool, fetch_complete_with_timeout}
use wotcrawler.Relay.Fetch.Sound.{IsSound, paginate_chunk-IsSound}

-- An event is its time, and so is its id.
abbrev ext : External
ext = record {
  Event = ℕ;
  id = λ e. e;
  pubkey = λ e. 1;
  created_at = λ e. e;
  kind = λ e. 3;
  verify = λ e. true;
  public_keys = λ e. [];
  extract_relay_list = λ e. [];
  from_slice = λ b. none;
  to_bytes = λ k. [];
  in_range = λ t. true;
}

-- What the relay stores, newest first, and its answer with at most two events.
abbrev store : List ℕ
store = 30 ∷ 20 ∷ 10 ∷ []

abbrev answer : ℕ → List ℕ
answer until =
    if leb 30 until
    then 30 ∷ 20 ∷ []
    else if leb 20 until
    then 20 ∷ 10 ∷ []
    else if leb 10 until
    then 10 ∷ []
    else []

abbrev relay : ℕ → ℕ → Result RelayError (List ℕ)
relay index until = ok (answer until)

program : Unit {0}
unfolding paginate_chunk fetch_complete_with_timeout
program = tt

paginate-all : paginate_chunk ext 2 relay 45 ≡ ok (30 ∷ 20 ∷ 10 ∷ [])
unfolding program
paginate-all = refl

-- A second with as many events as the cap cannot be paged through.
paginate_stall :
    paginate_chunk ext 1 (λ index until. ok (20 ∷ [])) 45 ≡ err (fetch_timeout (boundary_stall 20))
unfolding program
paginate_stall = refl

answer-IsNewest : (until : ℕ) → IsNewest ext store 2 until (answer until)
answer-IsNewest until = record {
  stored = λ x m. ground arith;
  within = λ x m. ground arith;
  short = λ few x m e. ground arith;
  newest_first = λ x m e. ground arith;
}

relay-IsHonest : IsHonest ext store 2 relay
relay-IsHonest index until window h =
    subst (IsNewest ext store 2 until) (cc) (answer-IsNewest until)

paginate_chunk-Covers_example : (y : ℕ) × Member y (30 ∷ 20 ∷ 10 ∷ []) × Member y store × (y ≡ 20)
paginate_chunk-Covers_example =
    paginate_chunk-Covers ext store 2 45 (omega arith) (λ a b p q e. e) relay relay-IsHonest
      (30 ∷ 20 ∷ 10 ∷ []) paginate-all 20 (inr (inl refl)) (omega arith)

paginate_chunk-IsSound_example : IsSound ext 2 relay (30 ∷ 20 ∷ 10 ∷ [])
paginate_chunk-IsSound_example =
    paginate_chunk-IsSound ext 2 relay 45 (30 ∷ 20 ∷ 10 ∷ []) paginate-all

-- A pool that takes five seconds; all stored events are by author 1.
abbrev pool : Pool ext
pool chunk index until = (5, ok (if contains chunk 1 then answer until else []))

fetch-all :
    fetch_complete_with_timeout ext pool "relay" (2 ∷ 1 ∷ []) 2 1 30 (λ i. 45 + i)
    ≡ ok (30 ∷ 20 ∷ 10 ∷ [])
unfolding program
fetch-all = refl

fetch_late :
    fetch_complete_with_timeout ext pool "relay" (2 ∷ 1 ∷ []) 2 1 5 (λ i. 45 + i)
    ≡ err (fetch_timeout (deadline "relay"))
unfolding program
fetch_late = refl

no_author-IsNewest : (until : ℕ) → IsNewest ext [] 2 until []
no_author-IsNewest until = record {
  stored = λ x m. m;
  within = λ x m. absurd m;
  short = λ few x m e. m;
  newest_first = λ x m e. absurd m;
}

pool-IsFaithful : IsFaithful ext store 2 30 45 (omega arith) pool
pool-IsFaithful chunk index until window h soon = elim (Bool-cases (contains chunk 1)) [
  | inl e ↦ rw e (subst (IsNewest ext store 2 until) (ok_same (rw e at h)) (answer-IsNewest until))
  | inr e ↦ rw e (subst (IsNewest ext [] 2 until) (ok_same (rw e at h)) (no_author-IsNewest until))
]
  where
    ok_same : {a : List ℕ} → Path (Result RelayError (List ℕ)) (ok a) (ok window) → a ≡ window
    ok_same q = cc

fetch_complete_with_timeout-Covers_example :
    (y : ℕ) × Member y (30 ∷ 20 ∷ 10 ∷ []) × Member y store × (y ≡ 20)
fetch_complete_with_timeout-Covers_example =
    fetch_complete_with_timeout-Covers ext store 2 30 45 (omega arith) (λ a b p q e. e) pool
      pool-IsFaithful "relay" (2 ∷ 1 ∷ []) 2 1 (λ i. 45 + i) refl (λ i. omega arith)
      (30 ∷ 20 ∷ 10 ∷ []) fetch-all 20 (inr (inl refl)) (inr (inl refl)) (omega arith)
