-- ===== src/Store/Follows/Tests.antt =====
-- Runs of the writer of edges, and the theorems on it at concrete inputs.
use wotcrawler.Prelude.{ℕ, ◌≡◌, refl, true, false, List, [], ◌∷◌, pos}
use wotcrawler.Prelude.Results.{ok, err}
use wotcrawler.Errors.{sqlx}
use wotcrawler.Store.{Row, World}
use wotcrawler.Store.Pubkeys.{new_row}
use wotcrawler.Store.Follows.{apply_follow_list}
use wotcrawler.Store.Follows.Graph.{
  Received, apply_each, graph_of, receive_each, graph_of-apply_each,
}
use wotcrawler.Store.Follows.Repeat.{AllOrNothing, apply_follow_list_atomic}

program : Unit {0}
unfolding apply_follow_list
program = tt

abbrev rows : List Row
rows = new_row 1 (1 ∷ []) ∷ new_row 2 (2 ∷ []) ∷ new_row 3 (3 ∷ []) ∷ []

-- The first follows the second, and the third the first.
abbrev world : ℕ → World
world left = record {
  db = record { pubkeys = rows; follows = (1, 2) ∷ (3, 1) ∷ []; pubkey_relays = []; next_id = 4 };
  left = left;
  acts = false;
}

-- The first now follows the third; itself and the repetition are dropped.
abbrev followed : World
unfolding program
followed = (apply_follow_list 1 77 (pos 100) (3 ∷ 1 ∷ 3 ∷ []) 5000 (world 20)).1

followed_edges : followed.db.follows ≡ (3, 1) ∷ (1, 3) ∷ []
unfolding program
followed_edges = refl

followed_ok :
    apply_follow_list 1 77 (pos 100) (3 ∷ 1 ∷ 3 ∷ []) 5000 (world 20) ≡ (ok true, followed)
unfolding program
followed_ok = refl

-- The connection is lost after the delete: the delete is undone.
lost_midway : apply_follow_list 1 77 (pos 100) (3 ∷ []) 5000 (world 4) ≡ (err sqlx, world 0)
unfolding program
lost_midway = refl

-- A followee with no row is refused, and nothing is kept.
refused_edge : (apply_follow_list 1 77 (pos 100) (3 ∷ 9 ∷ []) 5000 (world 20)).1.db ≡ (world 20).db
unfolding program
refused_edge = refl

apply_follow_list_atomic_example :
    AllOrNothing 1 77
      (pos 100)
      5000
      (3 ∷ [])
      (world 4).db
      (apply_follow_list 1 77 (pos 100) (3 ∷ []) 5000 (world 4)).1.db
apply_follow_list_atomic_example = apply_follow_list_atomic 1 77 (pos 100) 5000 (3 ∷ []) (world 4)

-- The first list, the list of the third that it follows, and the first list once more.
abbrev received : List Received
received =
    record {
      follower_id = 1;
      event_id = 77;
      created_at = pos 100;
      followee_ids = 3 ∷ 1 ∷ 3 ∷ [];
      now = 5000;
    }
    ∷ record {
      follower_id = 3;
      event_id = 78;
      created_at = pos 100;
      followee_ids = 2 ∷ [];
      now = 5000;
    }
    ∷ record { follower_id = 1; event_id = 77; created_at = pos 100; followee_ids = []; now = 6000 }
    ∷ []

abbrev last : World
unfolding program apply_each
last = (apply_each received (world 40)).1

received_edges : last.db.follows ≡ (1, 3) ∷ (3, 2) ∷ []
unfolding program apply_each
received_edges = refl

received_ok : apply_each received (world 40) ≡ (ok tt, last)
unfolding program apply_each
received_ok = refl

graph_of-apply_each_example : graph_of last.db ≡ receive_each received (graph_of (world 40).db)
graph_of-apply_each_example = graph_of-apply_each received (world 40) last received_ok
