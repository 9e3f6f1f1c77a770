-- ===== src/Crawl/Sample.antt =====
-- Test data: events, keys and scores as numbers.
use wotcrawler.Prelude.{
  ℕ, ◌+◌, ◌*◌, ◌-◌, ◌/◌, ◌≡◌, refl, ap, ◌∙◌, sym, true, List, [], ◌∷◌, Option, none, some, leb,
  if◌then◌else◌, Bool-cases, inl, inr,
}
use wotcrawler.External.{External, BindsId}
use wotcrawler.Relay.Health.{Float, RelayHealthRegistry}
use wotcrawler.Store.{Db}
use wotcrawler.Store.WellFormed.{WellFormed}
use wotcrawler.Store.Pubkeys.{bytes_eq}
use wotcrawler.Store.Finding.{bytes_same}

abbrev pub key : ℕ → List ℕ
key a =
    a ∷ 0 ∷ 0 ∷ 0 ∷ 0 ∷ 0 ∷ 0 ∷ 0 ∷ 0 ∷ 0 ∷ 0 ∷ 0 ∷ 0 ∷ 0 ∷ 0 ∷ 0 ∷ 0 ∷ 0 ∷ 0 ∷ 0 ∷ 0 ∷ 0 ∷ 0 ∷ 0
    ∷ 0 ∷ 0 ∷ 0 ∷ 0 ∷ 0 ∷ 0 ∷ 0 ∷ 0 ∷ []

abbrev pub first : List ℕ → ℕ
first [] = 0
first (x ∷ xs) = x

-- An event is its time, and by author 1, who follows 3. A key is 32 bytes, all but the first zero.
abbrev pub ext : External
ext = record {
  Event = ℕ;
  id = λ e. e;
  pubkey = λ e. 1;
  created_at = λ e. e;
  kind = λ e. 3;
  verify = λ e. true;
  public_keys = λ e. 3 ∷ [];
  extract_relay_list = λ e. [];
  from_slice = λ b. if bytes_eq (key (first b)) b then some (first b) else none;
  to_bytes = key;
  in_range = λ t. true;
}

pub ext-BindsId : BindsId ext
ext-BindsId = record { binds_time = λ a b p q e. e; binds_author = λ a b p q e. refl }

pub round_trip : (b : List ℕ) (k : ℕ) → ext.from_slice b ≡ some k → ext.to_bytes k ≡ b
round_trip b k h = elim (Bool-cases (bytes_eq (key (first b)) b)) [
  | inl e ↦ ap key (sym (inj (rw e at h))) ∙ bytes_same (key (first b)) b e
  | inr e ↦ absurd (none_not (rw e at h))
]
  where
    inj : Path (Option ℕ) (some (first b)) (some k) → first b ≡ k
    inj q = cc

    none_not : Path (Option ℕ) none (some k) → ⊥
    none_not q = cc

abbrev pub float : Float
float = record {
  F = ℕ;
  of_nat = λ n. 1000 * n;
  add = λ a b. a + b;
  sub = λ a b. a - b;
  mul = λ a b. a * b / 1000;
  div = λ a b. a * 1000 / b;
  ge = λ a b. leb b a;
  round_usize = λ a. (a + 500) / 1000;
  as_secs_f64 = λ n. n / 1_000_000;
}

abbrev pub health : RelayHealthRegistry float
health = record { alpha = 300; scores = []; in_use = []; last_probe = [] }

abbrev pub empty : Db
empty = record { pubkeys = []; follows = []; pubkey_relays = []; next_id = 1 }

pub empty-WellFormed : WellFormed empty
empty-WellFormed = record {
  sound = tt;
  once = tt;
  keyed = tt;
  fresh = tt;
  edges = tt;
  edges_once = tt;
  relays = tt;
}
