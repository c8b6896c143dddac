-- ===== src/Ranking/Tests.antt =====
-- Three competitors on one case, with whole numbers for the scores.
use eval_hive.Base.{
  ℕ, ◌+◌, ◌-◌, ◌*◌, ◌/◌, ◌≡◌, refl, false, none, some, List, [], ◌∷◌, Text, codes, nat_eq, text_eq,
  ltb, leb, map, text_beq,
}
use eval_hive.Loops.Keys.{is_empty}
use eval_hive.Ranking.{
  Floats, Match, GivenMatch, Method, bt, a_wins, tie, number, no_weight, ok, rank, normalize, tally,
  row_of,
}
use eval_hive.Ranking.Tally.{total, total_weight, games_of, tally_columns}
use eval_hive.Ranking.Order.{IsLeaderboard, rank-IsLeaderboard}
use eval_hive.Ranking.Matches.{model, Scored, build_matches, derive_matches}
use eval_hive.Ranking.Valid.{given, normalize-build_matches, normalize_again}
use eval_hive.Ranking.Accounts.{derive_matches_accounts, count_selected}
use eval_hive.Ranking.Versions.{IsVersioned, RankingRequest, run_all, run_all-IsVersioned}
use eval_hive.Ranking.Tally.{wins_of, losses_of, ties_of, tally_exact}

abbrev floats : Floats ℕ
floats = record {
  of_nat = λ n. n;
  plus = λ x y. x + y;
  minus = λ x y. x - y;
  over = λ x y. x / y;
  absolute = λ x. x;
  at_most = leb;
  below = ltb;
}

abbrev rows : List (Text × (Text × ℕ))
rows = (codes "c", (codes "m", 5)) ∷ (codes "c", (codes "k", 9)) ∷ (codes "c", (codes "m", 7)) ∷ []

m_named : is_empty (codes "m") ≡ false
unfolding is_empty
m_named = refl

k_named : is_empty (codes "k") ≡ false
unfolding is_empty
k_named = refl

normalize-build_matches_example :
    normalize (map given (build_matches floats 0 rows).0) ≡ (build_matches floats 0 rows).0
normalize-build_matches_example =
    normalize-build_matches floats 0 rows (m_named, (k_named, (m_named, tt)))

abbrev matches : List GivenMatch
matches =
    record {
      player_a = some (codes "x");
      player_b = some (codes "y");
      outcome = some a_wins;
      weight = number 2;
    }
    ∷ record {
      player_a = some (codes "x");
      player_b = some (codes "x");
      outcome = some tie;
      weight = no_weight;
    }
    ∷ []

abbrev fit : Method → List Match → (Text → ℕ) × (Text → ℕ × ℕ)
fit method l = ((λ p. wins_of p l), (λ p. (0, 9)))

ranked : (rank floats fit bt matches).status ≡ ok
unfolding rank is_empty text_beq
ranked = refl

rank-IsLeaderboard_example :
    IsLeaderboard floats (normalize matches) (rank floats fit bt matches).players
rank-IsLeaderboard_example = rank-IsLeaderboard floats fit bt matches ranked

normalize_again_example : normalize (map given (normalize matches)) ≡ normalize matches
normalize_again_example = normalize_again matches

tally_exact_example : row_of (codes "x") (tally [] (normalize matches)) ≡ record {
  wins = wins_of (codes "x") (normalize matches);
  losses = losses_of (codes "x") (normalize matches);
  ties = ties_of (codes "x") (normalize matches);
}
tally_exact_example = tally_exact (codes "x") (normalize matches)

tally_columns_example :
    (total (λ r. r.wins) (tally [] (normalize matches))
      ≡ total (λ r. r.losses) (tally [] (normalize matches)))
    × (total games_of (tally [] (normalize matches)) ≡ 2 * total_weight (normalize matches))
tally_columns_example = tally_columns (normalize matches)

abbrev scored : Scored ℕ
scored = record {
  workspace_id = 1;
  suite = none;
  failure_type = none;
  quality_profile = some (some 8);
  benchmark_case_id = some (codes "c");
  model_used = some (codes "m");
  template_name = none;
  template_id = none;
}

derive_matches_accounts_example :
    (derive_matches floats 0 1 model none (scored ∷ [])).1.n_records_used
      + (derive_matches floats 0 1 model none (scored ∷ [])).1.n_unmatched
    ≡ count_selected 1 none (scored ∷ [])
derive_matches_accounts_example = derive_matches_accounts floats 0 1 model none (scored ∷ [])

abbrev request : RankingRequest
request = record {
  workspace_id = 1;
  subject = model;
  method = bt;
  suite = none;
  matches = some matches;
}

run_all-IsVersioned_example :
    IsVersioned (run_all floats fit 0 (([], request) ∷ ([], request) ∷ []))
run_all-IsVersioned_example = run_all-IsVersioned floats fit 0 (([], request) ∷ ([], request) ∷ [])
