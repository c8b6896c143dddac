-- ===== src/Ranking/Accounts.antt =====
-- The records of the query, and the two counts that the derivation reports.
use eval_hive.Base.{
  ℕ, ◌+◌, ◌≡◌, Option, List, [], ◌∷◌, Text, nat_eq, text_eq, if◌then◌else◌, length, ltb, refl,
  arith, Bool-cases, inl, inr, length-append,
}
use eval_hive.Ranking.{Floats}
use eval_hive.Ranking.Matches.{
  Meta, Scored, Subject, build_matches, derive_matches, match_cases, group_rows, add_case,
  add_score, n_records, usable_rows, is_selected, no_meta, add_members, score_keys,
}

abbrev counted : Meta → ℕ
counted meta = meta.n_records_used + meta.n_unmatched

module _ {R : Type 0} where
  n_records-add_score :
      (p : Text) (x : R) (m : List (Text × List R)) → n_records (add_score p x m) ≡ n_records m + 1
  unfolding n_records add_score
  n_records-add_score p x [] = refl
  n_records-add_score p x ((q, l) ∷ m) =
      ground (arith, length-append l (x ∷ []), n_records-add_score p x m)

  total_records : List (Text × List (Text × List R)) → ℕ
  total_records [] = 0
  total_records ((c, m) ∷ g) = n_records m + total_records g

  total_records-add_case :
      (c p : Text) (x : R) (g : List (Text × List (Text × List R)))
      → total_records (add_case c p x g) ≡ total_records g + 1
  unfolding total_records add_case n_records
  total_records-add_case c p x [] = omega (arith, n_records-add_score p x [])
  total_records-add_case c p x ((d, m) ∷ g) =
      ground (arith, n_records-add_score p x m, total_records-add_case c p x g)

  total_records-group_rows :
      (rows : List (Text × (Text × R))) (g : List (Text × List (Text × List R)))
      → total_records (group_rows rows g) ≡ total_records g + length rows
  unfolding group_rows
  total_records-group_rows [] g = omega arith
  total_records-group_rows ((c, (p, x)) ∷ rows) g =
      omega
        (arith, total_records-group_rows rows (add_case c p x g), total_records-add_case c p x g)

  counted-match_cases :
      (fl : Floats R) (epsilon : R) (g : List (Text × List (Text × List R))) (meta : Meta)
      → counted (match_cases fl epsilon g meta).1 ≡ counted meta + total_records g
  unfolding match_cases total_records
  counted-match_cases fl epsilon [] meta = omega arith
  counted-match_cases fl epsilon ((c, m) ∷ g) meta = elim (Bool-cases (ltb (length m) 2)) [
    | inl e ↦
        rw (match_cases, e)
          (omega (
            arith,
            counted-match_cases fl epsilon g
                (record meta { n_unmatched = meta.n_unmatched + n_records m }),
          ))
    | inr e ↦
        rw (match_cases, e)
          (omega (
            arith,
            counted-match_cases fl epsilon g (record meta {
              n_cases = meta.n_cases + 1;
              n_records_used = meta.n_records_used + n_records m;
              players_seen = add_members (score_keys m) meta.players_seen;
            }),
          ))
  ]

  -- The records of the query.
  pub count_selected : ℕ → Option Text → List (Scored R) → ℕ
  count_selected workspace suite [] = 0
  count_selected workspace suite (r ∷ l) =
      (if is_selected workspace suite r then 1 else 0) + count_selected workspace suite l

  usable_rows_count :
      (workspace : ℕ) (subject : Subject) (suite : Option Text) (l : List (Scored R))
      → length (usable_rows workspace subject suite l).0 + (usable_rows workspace subject suite l).1
        ≡ count_selected workspace suite l
  unfolding usable_rows count_selected
  usable_rows_count workspace subject suite [] = refl
  usable_rows_count workspace subject suite (r ∷ l) =
      ground (arith, usable_rows_count workspace subject suite l)

  -- The records that the derivation reports as used and as unmatched are together those of the workspace
  -- and suite that have a quality profile and whose task was not decided by the infrastructure.
  pub derive_matches_accounts :
      (fl : Floats R) (epsilon : R) (workspace : ℕ) (subject : Subject) (suite : Option Text)
      (records : List (Scored R))
      → let meta = (derive_matches fl epsilon workspace subject suite records).1 in
        meta.n_records_used + meta.n_unmatched ≡ count_selected workspace suite records
  unfolding derive_matches build_matches total_records
  derive_matches_accounts fl epsilon workspace subject suite records =
      let usable = usable_rows workspace subject suite records in
      omega (
        arith,
        counted-match_cases fl epsilon (group_rows usable.0 []) no_meta,
        total_records-group_rows usable.0 [],
        usable_rows_count workspace subject suite records,
      )
