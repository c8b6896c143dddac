-- ===== src/Ranking/Matches.antt =====
-- `build_matches`, `derive_matches_from_records` and the versions of `run_ranking`, of
-- backend/app/quality/ranking.py.
use eval_hive.Base.{
  ℕ, suc, ◌+◌, Bool, true, false, ◌&&◌, not, Option, none, some, List, [], ◌∷◌, ◌++◌, Text, ◌==◌,
  nat_eq, text_eq, if◌then◌else◌, length, sorted, text_le, ltb,
}
use eval_hive.Loops.Keys.{is_empty}
use eval_hive.Failures.{FailureType, is_contaminated}
use eval_hive.Ranking.{Floats, Match, a_wins, b_wins, tie, add_member}

pub data Subject : Type 0 where
  model template : Subject

-- The columns of a quality record that are read, with the reason of its task, if there is one. The profile
-- is `none` where the column is NULL, and holds the score where it is a number.
pub record Scored (R : Type 0) : Type 0 where
  pub workspace_id : ℕ
  pub suite : Option Text
  pub failure_type : Option FailureType
  pub quality_profile : Option (Option R)
  pub benchmark_case_id : Option Text
  pub model_used : Option Text
  pub template_name : Option Text
  pub template_id : Option Text

-- A value that counts as true.
abbrev named : Option Text → Option Text
named none = none
named (some t) = if is_empty t then none else some t

pub add_members : List Text → List Text → List Text
unfolding add_member
add_members [] seen = seen
add_members (p ∷ l) seen = add_members l (add_member p seen)

module _ {R : Type 0} where
  -- `QualityRecord.quality_profile.isnot(None)`
  abbrev has_profile : Scored R → Bool
  has_profile r = elim r.quality_profile [ none ↦ false | some p ↦ true ]

  -- `(r.quality_profile or {}).get("weighted_score")`, where it is a number
  abbrev weighted_score : Scored R → Option R
  weighted_score r = elim r.quality_profile [ none ↦ none | some p ↦ p ]

  -- `_player_key`
  player_key : Subject → Scored R → Option Text
  player_key model r = named r.model_used
  player_key template r = elim (named r.template_name) [ some t ↦ some t | none ↦ r.template_id ]

  unfoldable pub add_score : Text → R → List (Text × List R) → List (Text × List R)
  add_score p x [] = (p, x ∷ []) ∷ []
  add_score p x ((q, l) ∷ m) =
      let rest = add_score p x m in if q == p then (q, l ++ (x ∷ [])) ∷ m else (q, l) ∷ rest

  unfoldable pub add_case :
      Text → Text → R → List (Text × List (Text × List R)) → List (Text × List (Text × List R))
  unfolding add_score
  add_case c p x [] = (c, add_score p x []) ∷ []
  add_case c p x ((d, m) ∷ g) =
      let rest = add_case c p x g in if d == c then (d, add_score p x m) ∷ g else (d, m) ∷ rest

  -- (case, player, score), in the order of the records
  unfoldable pub group_rows :
      List (Text × (Text × R))
      → List (Text × List (Text × List R))
      → List (Text × List (Text × List R))
  unfolding add_case
  group_rows [] g = g
  group_rows ((c, (p, x)) ∷ rows) g = group_rows rows (add_case c p x g)

  unfoldable pub n_records : List (Text × List R) → ℕ
  n_records [] = 0
  n_records ((p, l) ∷ m) = length l + n_records m

  unfoldable pub score_keys : List (Text × List R) → List Text
  score_keys [] = []
  score_keys ((p, l) ∷ m) = p ∷ score_keys m

  -- sum(v), from 0
  sum_from : Floats R → R → List R → R
  sum_from fl s [] = s
  sum_from fl s (x ∷ l) = sum_from fl (fl.plus s x) l

  mean : Floats R → List R → R
  unfolding sum_from
  mean fl l = fl.over (sum_from fl (fl.of_nat 0) l) (fl.of_nat (length l))

  pub mean_of : Floats R → Text → List (Text × List R) → R
  unfolding mean
  mean_of fl p [] = fl.of_nat 0
  mean_of fl p ((q, l) ∷ m) = if q == p then mean fl l else mean_of fl p m

  unfoldable pub duel : Floats R → R → (Text → R) → Text → Text → Match
  duel fl epsilon means a b = record {
    player_a = a;
    player_b = b;
    outcome =
        if fl.at_most (fl.absolute (fl.minus (means a) (means b))) epsilon
        then tie
        else if fl.below (means b) (means a)
        then a_wins
        else b_wins;
    weight = 1;
  }

  -- One match for each pair, the earlier one first.
  unfoldable pub duels_with : Floats R → R → (Text → R) → Text → List Text → List Match
  unfolding duel
  duels_with fl epsilon means a [] = []
  duels_with fl epsilon means a (b ∷ l) =
      duel fl epsilon means a b ∷ duels_with fl epsilon means a l

  unfoldable pub duels : Floats R → R → (Text → R) → List Text → List Match
  unfolding duels_with
  duels fl epsilon means [] = []
  duels fl epsilon means (a ∷ l) = duels_with fl epsilon means a l ++ duels fl epsilon means l

pub record Meta : Type 0 where
  pub n_cases : ℕ
  pub n_records_used : ℕ
  pub n_unmatched : ℕ
  pub players_seen : List Text

abbrev pub no_meta : Meta
no_meta = record { n_cases = 0; n_records_used = 0; n_unmatched = 0; players_seen = [] }

module _ {R : Type 0} where
  -- The matches of one case; a player alone has none.
  unfoldable pub case_matches : Floats R → R → List (Text × List R) → List Match
  unfolding duels score_keys mean_of
  case_matches fl epsilon m =
      if ltb (length m) 2
      then []
      else duels fl epsilon (λ p. mean_of fl p m) (sorted text_le (score_keys m))

  -- The loop over the cases.
  unfoldable pub match_cases :
      Floats R → R → List (Text × List (Text × List R)) → Meta → List Match × Meta
  unfolding case_matches add_members n_records score_keys
  match_cases fl epsilon [] meta = ([], meta)
  match_cases fl epsilon ((c, m) ∷ g) meta =
      let meta' : Meta =
        if ltb (length m) 2
        then record meta { n_unmatched = meta.n_unmatched + n_records m }
        else record meta {
          n_cases = meta.n_cases + 1;
          n_records_used = meta.n_records_used + n_records m;
          players_seen = add_members (score_keys m) meta.players_seen;
        } in
      let rest = match_cases fl epsilon g meta' in (case_matches fl epsilon m ++ rest.0, rest.1)

  -- `build_matches`
  unfoldable pub build_matches : Floats R → R → List (Text × (Text × R)) → List Match × Meta
  unfolding group_rows match_cases
  build_matches fl epsilon rows = match_cases fl epsilon (group_rows rows []) no_meta

  abbrev in_suite : Option Text → Scored R → Bool
  in_suite none r = true
  in_suite (some s) r =
      if is_empty s then true else (elim r.suite [ none ↦ false | some t ↦ t == s ])

  -- The query, with `measures_the_model` of the reason of the task.
  pub is_selected : ℕ → Option Text → Scored R → Bool
  is_selected workspace suite r =
      r.workspace_id == workspace
      && has_profile r
      && not (is_contaminated r.failure_type)
      && in_suite suite r

  -- The rows of the query that carry a case, a player and a score, and how many do not.
  unfoldable pub usable_rows :
      ℕ → Subject → Option Text → List (Scored R) → List (Text × (Text × R)) × ℕ
  unfolding player_key is_selected
  usable_rows workspace subject suite [] = ([], 0)
  usable_rows workspace subject suite (r ∷ l) =
      let rest = usable_rows workspace subject suite l in
      if is_selected workspace suite r
      then (elim (weighted_score r) [
        | none ↦ (rest.0, suc rest.1)
        | some x ↦ elim (named r.benchmark_case_id) [
          | none ↦ (rest.0, suc rest.1)
          | some c ↦ elim (named (player_key subject r)) [
            | none ↦ (rest.0, suc rest.1)
            | some p ↦ ((c, (p, x)) ∷ rest.0, rest.1)
          ]
        ]
      ])
      else rest

  -- `derive_matches_from_records`
  unfoldable pub derive_matches :
      Floats R → R → ℕ → Subject → Option Text → List (Scored R) → List Match × Meta
  unfolding usable_rows build_matches
  derive_matches fl epsilon workspace subject suite records =
      let usable = usable_rows workspace subject suite records in
      let built = build_matches fl epsilon usable.0 in
      (built.0, record (built.1) { n_unmatched = built.1.n_unmatched + usable.1 })
