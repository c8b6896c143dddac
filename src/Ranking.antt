-- ===== src/Ranking.antt =====
-- Leaderboards from head-to-head matches: backend/app/quality/aggregation.py, and their sourcing and history in
-- backend/app/quality/ranking.py. Floating-point numbers are a type with the operations that the code uses.

pub mod Tally
pub mod Matches
pub mod Valid
pub mod Accounts
pub mod Versions
mod Tests
pub mod Order
use eval_hive.Base.{
  ℕ, suc, zero, ◌+◌, ◌*◌, Bool, true, false, ◌&&◌, ◌||◌, not, Option, none, some, List, [], ◌∷◌,
  ◌++◌, map, Text, codes, ◌==◌, nat_eq, text_eq, if◌then◌else◌, length, sorted, text_le, ltb,
}
use eval_hive.Loops.Keys.{is_empty}

pub record Floats (R : Type 0) : Type 0 where
  pub of_nat : ℕ → R
  pub plus : R → R → R
  pub minus : R → R → R
  pub over : R → R → R
  pub absolute : R → R
  pub at_most : R → R → Bool
  pub below : R → R → Bool

-- "a", "b" or "tie"
pub data Outcome : Type 0 where
  a_wins b_wins tie : Outcome

-- `weight` of a match: left out, a number, or something that `int` refuses.
pub data Weight : Type 0 where
  no_weight malformed negative : Weight
  number : ℕ → Weight

-- A match as it is given: `none` for a player that is missing, and for another outcome.
pub record GivenMatch : Type 0 where
  pub player_a : Option Text
  pub player_b : Option Text
  pub outcome : Option Outcome
  pub weight : Weight

pub record Match : Type 0 where
  pub player_a : Text
  pub player_b : Text
  pub outcome : Outcome
  pub weight : ℕ

-- int(m.get("weight", 1) or 1), 1 where that raises, `none` where it is not positive.
pub read_weight : Weight → Option ℕ
read_weight no_weight = some 1
read_weight malformed = some 1
read_weight negative = none
read_weight (number n) = if n == 0 then some 1 else some n

pub read_match : GivenMatch → Option Match
unfolding read_weight
read_match m = elim m.player_a [
  | none ↦ none
  | some a ↦ elim m.player_b [
    | none ↦ none
    | some b ↦ elim m.outcome [
      | none ↦ none
      | some o ↦ if is_empty a || is_empty b || a == b then none else elim (read_weight m.weight) [
        | none ↦ none
        | some w ↦ some (record { player_a = a; player_b = b; outcome = o; weight = w })
      ]
    ]
  ]
]

-- `_normalize`
pub normalize : List GivenMatch → List Match
unfolding read_match
normalize [] = []
normalize (m ∷ l) =
    let rest = normalize l in elim (read_match m) [ none ↦ rest | some x ↦ x ∷ rest ]

pub is_member : Text → List Text → Bool
is_member p [] = false
is_member p (q ∷ l) = q == p || is_member p l

-- `set.add`
pub add_member : Text → List Text → List Text
unfolding is_member
add_member p l = if is_member p l then l else p ∷ l

pub seen_players : List Match → List Text
unfolding add_member
seen_players [] = []
seen_players (m ∷ l) = add_member m.player_a (add_member m.player_b (seen_players l))

-- `_players`
pub players : List Match → List Text
unfolding seen_players text_le
players l = sorted text_le (seen_players l)

pub record Row : Type 0 where
  pub wins : ℕ
  pub losses : ℕ
  pub ties : ℕ

abbrev pub no_games : Row
no_games = record { wins = 0; losses = 0; ties = 0 }

abbrev pub Table : Type 0
Table = List (Text × Row)

-- `_row(p)`, changed in place.
pub change_row : Text → (Row → Row) → Table → Table
change_row p f [] = (p, f no_games) ∷ []
change_row p f ((q, r) ∷ t) =
    let rest = change_row p f t in if q == p then (q, f r) ∷ t else (q, r) ∷ rest

abbrev pub add_wins : ℕ → Row → Row
add_wins w r = record r { wins = r.wins + w }

abbrev pub add_losses : ℕ → Row → Row
add_losses w r = record r { losses = r.losses + w }

abbrev pub add_ties : ℕ → Row → Row
add_ties w r = record r { ties = r.ties + w }

-- One match in the table; both rows are there before one is changed.
pub count_match : Match → Table → Table
unfolding change_row
count_match m t = elim m.outcome [
  | a_wins ↦
      change_row m.player_b (add_losses m.weight) (change_row m.player_a (add_wins m.weight) t)
  | b_wins ↦
      change_row m.player_b (add_wins m.weight) (change_row m.player_a (add_losses m.weight) t)
  | tie ↦ change_row m.player_b (add_ties m.weight) (change_row m.player_a (add_ties m.weight) t)
]

-- `_tally`
pub tally : Table → List Match → Table
unfolding count_match
tally t [] = t
tally t (m ∷ l) = tally (count_match m t) l

-- tally.get(p, …)
pub row_of : Text → Table → Row
row_of p [] = no_games
row_of p ((q, r) ∷ t) = if q == p then r else row_of p t

pub data Method : Type 0 where
  bt elo : Method

pub data ReportStatus : Type 0 where
  empty insufficient_data ok : ReportStatus

pub record PlayerRow (R : Type 0) : Type 0 where
  pub player : Text
  pub rating : R
  pub ci_low : R
  pub ci_high : R
  pub games : Row
  pub rank : ℕ

pub record Report (R : Type 0) : Type 0 where
  pub method : Method
  pub status : ReportStatus
  pub n_matches : ℕ
  pub n_players : ℕ
  pub players : List (PlayerRow R)

module _ {R : Type 0} where
  -- (-r["rating"], r["player"]), in order
  pub row_before : Floats R → PlayerRow R → PlayerRow R → Bool
  unfolding text_le
  row_before fl r s =
      fl.below s.rating r.rating || (not (fl.below r.rating s.rating) && text_le r.player s.player)

  unfoldable pub numbered : ℕ → List (PlayerRow R) → List (PlayerRow R)
  numbered i [] = []
  numbered i (r ∷ l) = record r { rank = i } ∷ numbered (i + 1) l

  -- A row for each player, from the ratings, the intervals, and the table.
  pub player_rows : (Text → R) → (Text → R × R) → Table → List Text → List (PlayerRow R)
  unfolding row_of
  player_rows rating ci t [] = []
  player_rows rating ci t (p ∷ l) =
      record {
        player = p;
        rating = rating p;
        ci_low = (ci p).0;
        ci_high = (ci p).1;
        games = row_of p t;
        rank = 0;
      }
      ∷ player_rows rating ci t l

  -- `rank`. The ratings and intervals of the valid matches are `fit`.
  pub rank :
      Floats R
      → (Method → List Match → (Text → R) × (Text → R × R))
      → Method
      → List GivenMatch
      → Report R
  unfolding normalize players tally row_before numbered player_rows
  rank fl fit method given =
      let norm = normalize given in
      let ps = players norm in
      let fitted = fit method norm in
      if length norm == 0
      then record { method = method; status = empty; n_matches = 0; n_players = 0; players = [] }
      else if ltb (length ps) 2
      then record {
        method = method;
        status = insufficient_data;
        n_matches = length norm;
        n_players = length ps;
        players = [];
      }
      else record {
        method = method;
        status = ok;
        n_matches = length norm;
        n_players = length ps;
        players =
            numbered 1 (sorted (row_before fl) (player_rows fitted.0 fitted.1 (tally [] norm) ps));
      }
