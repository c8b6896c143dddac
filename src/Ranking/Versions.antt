-- ===== src/Ranking/Versions.antt =====
-- `run_ranking` and the history of reports, of backend/app/quality/ranking.py.
use eval_hive.Base.{
  ℕ, ◌+◌, ◌≡◌, Bool, true, false, ◌&&◌, Option, none, some, List, [], ◌∷◌, map, ◌==◌, nat_eq,
  if◌then◌else◌, max, refl, arith, Bool-cases, inl, inr, Text,
}
use eval_hive.Ranking.{Floats, Match, GivenMatch, Method, bt, elo, Report, ReportStatus, rank}
use eval_hive.Ranking.Matches.{Subject, model, template, Scored, derive_matches, Meta}
use eval_hive.Ranking.Valid.{given}

same_subject : Subject → Subject → Bool
same_subject model model = true
same_subject template template = true
same_subject _ _ = false

same_method : Method → Method → Bool
same_method bt bt = true
same_method elo elo = true
same_method _ _ = false

-- A row of the history; the newest stands first.
pub record RankingReport (R : Type 0) : Type 0 where
  pub workspace_id : ℕ
  pub subject : Subject
  pub method : Method
  pub version : ℕ
  pub suite : Option Text
  pub derivation : Option Meta
  pub metrics : Report R
  pub passed : Bool

is_ok : ReportStatus → Bool
is_ok ReportStatus.ok = true
is_ok _ = false

-- What a caller of `run_ranking` gives: `none` for the matches means that they are derived.
pub record RankingRequest : Type 0 where
  pub workspace_id : ℕ
  pub subject : Subject
  pub method : Method
  pub suite : Option Text
  pub matches : Option (List GivenMatch)

subject_eq : (x y : Subject) → same_subject x y ≡ true → x ≡ y
unfolding same_subject
subject_eq model model e = refl
subject_eq model template e = cc
subject_eq template model e = cc
subject_eq template template e = refl

method_eq : (x y : Method) → same_method x y ≡ true → x ≡ y
unfolding same_method
method_eq bt bt e = refl
method_eq bt elo e = cc
method_eq elo bt e = cc
method_eq elo elo e = refl

module _ {R : Type 0} where
  in_line : ℕ → Subject → Method → RankingReport R → Bool
  unfolding same_subject same_method
  in_line workspace subject method r =
      r.workspace_id == workspace && same_subject r.subject subject && same_method r.method method

  -- max(version), 0 where there is none
  max_version : ℕ → Subject → Method → List (RankingReport R) → ℕ
  unfolding in_line
  max_version workspace subject method [] = 0
  max_version workspace subject method (r ∷ l) =
      max (if in_line workspace subject method r then r.version else 0)
        (max_version workspace subject method l)

  run_ranking :
      Floats R
      → (Method → List Match → (Text → R) × (Text → R × R))
      → R
      → List (Scored R)
      → RankingRequest
      → List (RankingReport R)
      → List (RankingReport R)
  unfolding max_version is_ok
  run_ranking fl fit epsilon records q history =
      let derived = derive_matches fl epsilon q.workspace_id q.subject q.suite records in
      let matches : List GivenMatch = elim q.matches [ none ↦ map given derived.0 | some l ↦ l ] in
      let report = rank fl fit q.method matches in
      record {
        workspace_id = q.workspace_id;
        subject = q.subject;
        method = q.method;
        version = max_version q.workspace_id q.subject q.method history + 1;
        suite = q.suite;
        derivation = elim q.matches [ none ↦ some derived.1 | some l ↦ none ];
        metrics = report;
        passed = is_ok report.status;
      }
      ∷ history

  pub count_line : ℕ → Subject → Method → List (RankingReport R) → ℕ
  count_line workspace subject method [] = 0
  count_line workspace subject method (r ∷ l) =
      (if in_line workspace subject method r then 1 else 0) + count_line workspace subject method l

  -- Each row's version is its place among the rows of its workspace, subject and method.
  abbrev pub IsVersioned : List (RankingReport R) → Type 0
  IsVersioned [] = Unit
  IsVersioned (r ∷ l) =
      (r.version ≡ count_line r.workspace_id r.subject r.method l + 1) × IsVersioned l

  same_line :
      (workspace : ℕ) (subject : Subject) (method : Method) (r : RankingReport R)
      (l : List (RankingReport R))
      → in_line workspace subject method r ≡ true
      → count_line r.workspace_id r.subject r.method l ≡ count_line workspace subject method l
  unfolding in_line
  same_line workspace subject method r l h =
      let w : r.workspace_id ≡ workspace = ground arith in
      let s : r.subject ≡ subject = subject_eq r.subject subject (ground arith) in
      let m : r.method ≡ method = method_eq r.method method (ground arith) in rw (w, s, m) refl

  max_version-count_line :
      (workspace : ℕ) (subject : Subject) (method : Method) (l : List (RankingReport R))
      → IsVersioned l
      → max_version workspace subject method l ≡ count_line workspace subject method l
  unfolding max_version count_line
  max_version-count_line workspace subject method [] h = refl
  max_version-count_line workspace subject method (r ∷ l) h =
      let rest = max_version-count_line workspace subject method l h.1 in
      elim (Bool-cases (in_line workspace subject method r)) [
        | inl e ↦ rw e (omega (arith, rest, h.0, same_line workspace subject method r l e))
        | inr e ↦ rw e (omega (arith, rest))
      ]

  -- The history of any requests, the last one first.
  pub run_all :
      Floats R
      → (Method → List Match → (Text → R) × (Text → R × R))
      → R
      → List (List (Scored R) × RankingRequest)
      → List (RankingReport R)
  run_all fl fit epsilon [] = []
  run_all fl fit epsilon ((records, q) ∷ l) =
      run_ranking fl fit epsilon records q (run_all fl fit epsilon l)

  -- In the history of any sequence of requests, the versions of each workspace, subject and method count
  -- from 1 without a gap, in the order of the requests.
  pub run_all-IsVersioned :
      (fl : Floats R) (fit : Method → List Match → (Text → R) × (Text → R × R)) (epsilon : R)
      (l : List (List (Scored R) × RankingRequest))
      → IsVersioned (run_all fl fit epsilon l)
  unfolding run_all run_ranking
  run_all-IsVersioned fl fit epsilon [] = tt
  run_all-IsVersioned fl fit epsilon ((records, q) ∷ l) =
      let rest = run_all-IsVersioned fl fit epsilon l in
      (
        omega (
          arith,
          max_version-count_line q.workspace_id q.subject q.method (run_all fl fit epsilon l) rest,
        ),
        rest,
      )
