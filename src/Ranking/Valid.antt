-- ===== src/Ranking/Valid.antt =====
-- The validation of matches, and the matches that are derived from records.
use eval_hive.Base.{
  ◌≡◌, true, false, some, List, [], ◌∷◌, ◌++◌, map, Text, ◌==◌, nat_eq, text_eq, length, sorted,
  insert_sorted, text_le, if_both, All, refl, arith, Bool-cases, Option-cases, inl, inr, ==-refl,
  ==→≡, sym, ap, ◌∙◌, ltb,
}
use eval_hive.Loops.Keys.{is_empty}
use eval_hive.Ranking.{Floats, Match, GivenMatch, number, normalize, read_match, read_weight}
use eval_hive.Ranking.Matches.{
  Meta, build_matches, match_cases, duels, duels_with, duel, group_rows, add_case, add_score,
  score_keys, case_matches, mean_of,
}

-- A match as `rank` gets it from the derivation, or a second time.
abbrev pub given : Match → GivenMatch
given m = record {
  player_a = some m.player_a;
  player_b = some m.player_b;
  outcome = some m.outcome;
  weight = number m.weight;
}

pub record IsValid (m : Match) : Type 0 where
  pub named_a : is_empty m.player_a ≡ false
  pub named_b : is_empty m.player_b ≡ false
  pub apart : (m.player_a == m.player_b) ≡ false
  pub weighs : (m.weight == 0) ≡ false

read_match-IsValid : (g : GivenMatch) (m : Match) → read_match g ≡ some m → IsValid m
unfolding read_match read_weight
read_match-IsValid g m h = elim (Option-cases g.player_a) [
  | inl e ↦ cc
  | inr (a, ea) ↦ elim (Option-cases g.player_b) [
    | inl e ↦ cc
    | inr (b, eb) ↦ elim (Option-cases g.outcome) [
      | inl e ↦ cc
      | inr (o, eo) ↦ record {
        named_a = ground (arith, ea, eb, eo, h);
        named_b = ground (arith, ea, eb, eo, h);
        apart = ground (arith, ea, eb, eo, h);
        weighs = ground (arith, ea, eb, eo, h);
      }
    ]
  ]
]

normalize-AllValid : (l : List GivenMatch) → All IsValid (normalize l)
unfolding normalize
normalize-AllValid [] = tt
normalize-AllValid (g ∷ l) = elim (Option-cases (read_match g)) [
  | inl e ↦ rw (normalize, e) (normalize-AllValid l)
  | inr (m, e) ↦ rw (normalize, e) (read_match-IsValid g m e, normalize-AllValid l)
]

normalize-given : (l : List Match) → All IsValid l → normalize (map given l) ≡ l
unfolding normalize
normalize-given [] all = refl
normalize-given (m ∷ l) all =
    let same : read_match (given m) ≡ some m = read_given m all.0 in
    rw (normalize, same) (ap (λ (k : List Match). m ∷ k) (normalize-given l all.1))
  where
    read_given : (x : Match) → IsValid x → read_match (given x) ≡ some x
    read_given x v = ground (arith, v.named_a, v.named_b, v.apart, v.weighs)

-- Validation is idempotent: what it lets through, it lets through again, unchanged.
pub normalize_again : (l : List GivenMatch) → normalize (map given (normalize l)) ≡ normalize l
normalize_again l = normalize-given (normalize l) (normalize-AllValid l)

-- Names that are there and all different.
abbrev pub AreNames : List Text → Type 0
AreNames [] = Unit
AreNames (p ∷ l) = (is_empty p ≡ false) × All (λ (q : Text). (p == q) ≡ false) l × AreNames l

flip_apart : (p q : Text) → (p == q) ≡ false → (q == p) ≡ false
flip_apart p q h = elim (Bool-cases (q == p)) [
  | inl e ↦
      let same : q ≡ p = ==→≡ q p e in
      let bad : true ≡ false = sym (==-refl p) ∙ (ap (λ (x : Text). p == x) (sym same) ∙ h) in cc
  | inr e ↦ e
]

All-insert_sorted :
    (P : Text → Type 0) (x : Text) (l : List Text)
    → P x
    → All P l
    → All P (insert_sorted text_le x l)
All-insert_sorted P x [] p all = (p, tt)
All-insert_sorted P x (y ∷ l) p all =
    if_both (All P) (text_le x y) (p, all) (all.0, All-insert_sorted P x l p all.1)

AreNames-insert_sorted :
    (x : Text) (l : List Text)
    → is_empty x ≡ false
    → All (λ (q : Text). (x == q) ≡ false) l
    → AreNames l
    → AreNames (insert_sorted text_le x l)
AreNames-insert_sorted x [] full all h = (full, tt, tt)
AreNames-insert_sorted x (y ∷ l) full all h =
    if_both AreNames (text_le x y) (full, all, h)
      (
        h.0,
        All-insert_sorted (λ (q : Text). (y == q) ≡ false) x l (flip_apart x y all.0) h.1,
        AreNames-insert_sorted x l full all.1 h.2,
      )

All-sorted : (P : Text → Type 0) (l : List Text) → All P l → All P (sorted text_le l)
All-sorted P [] all = tt
All-sorted P (x ∷ l) all = All-insert_sorted P x (sorted text_le l) all.0 (All-sorted P l all.1)

AreNames-sorted : (l : List Text) → AreNames l → AreNames (sorted text_le l)
AreNames-sorted [] h = tt
AreNames-sorted (x ∷ l) h =
    AreNames-insert_sorted x (sorted text_le l) h.0
      (All-sorted (λ (q : Text). (x == q) ≡ false) l h.1) (AreNames-sorted l h.2)

All-append : {A : Type 0} (P : A → Type 0) (l k : List A) → All P l → All P k → All P (l ++ k)
All-append P [] k all all2 = all2
All-append P (x ∷ l) k all all2 = (all.0, All-append P l k all.1 all2)

module _ {R : Type 0} where
  add_score-apart :
      (q p : Text) (x : R) (m : List (Text × List R))
      → (q == p) ≡ false
      → All (λ (k : Text). (q == k) ≡ false) (score_keys m)
      → All (λ (k : Text). (q == k) ≡ false) (score_keys (add_score p x m))
  unfolding score_keys add_score
  add_score-apart q p x [] ne all = (ne, tt)
  add_score-apart q p x ((k, l) ∷ m) ne all = elim (Bool-cases (k == p)) [
    | inl e ↦ rw (add_score, e) all
    | inr e ↦ rw (add_score, e) (all.0, add_score-apart q p x m ne all.1)
  ]

  add_score-AreNames :
      (p : Text) (x : R) (m : List (Text × List R))
      → is_empty p ≡ false
      → AreNames (score_keys m)
      → AreNames (score_keys (add_score p x m))
  unfolding score_keys add_score
  add_score-AreNames p x [] full h = (full, tt, tt)
  add_score-AreNames p x ((k, l) ∷ m) full h = elim (Bool-cases (k == p)) [
    | inl e ↦ rw (add_score, e) h
    | inr e ↦
        rw (add_score, e) (h.0, add_score-apart k p x m e h.1, add_score-AreNames p x m full h.2)
  ]

  -- Every case has named players that are different.
  abbrev HasNames : Text × List (Text × List R) → Type 0
  HasNames (c, m) = AreNames (score_keys m)

  add_case-HasNames :
      (c p : Text) (x : R) (g : List (Text × List (Text × List R)))
      → is_empty p ≡ false
      → All HasNames g
      → All HasNames (add_case c p x g)
  unfolding add_case score_keys
  add_case-HasNames c p x [] full all = (add_score-AreNames p x [] full tt, tt)
  add_case-HasNames c p x ((d, m) ∷ g) full all = elim (Bool-cases (d == c)) [
    | inl e ↦ rw (add_case, e) (add_score-AreNames p x m full all.0, all.1)
    | inr e ↦ rw (add_case, e) (all.0, add_case-HasNames c p x g full all.1)
  ]

  abbrev pub HasPlayer : Text × (Text × R) → Type 0
  HasPlayer (c, (p, x)) = is_empty p ≡ false

  group_rows-HasNames :
      (rows : List (Text × (Text × R))) (g : List (Text × List (Text × List R)))
      → All HasPlayer rows
      → All HasNames g
      → All HasNames (group_rows rows g)
  unfolding group_rows
  group_rows-HasNames [] g named all = all
  group_rows-HasNames ((c, (p, x)) ∷ rows) g named all =
      group_rows-HasNames rows (add_case c p x g) named.1 (add_case-HasNames c p x g named.0 all)

  module _ (fl : Floats R) (epsilon : R) where
    duels_with-AllValid :
        (means : Text → R) (a : Text) (l : List Text)
        → is_empty a ≡ false
        → All (λ (q : Text). (a == q) ≡ false) l
        → AreNames l
        → All IsValid (duels_with fl epsilon means a l)
    unfolding duels_with duel
    duels_with-AllValid means a [] full all h = tt
    duels_with-AllValid means a (b ∷ l) full all h = (
      record { named_a = full; named_b = h.0; apart = all.0; weighs = refl },
      duels_with-AllValid means a l full all.1 h.2,
    )

    duels-AllValid :
        (means : Text → R) (l : List Text) → AreNames l → All IsValid (duels fl epsilon means l)
    unfolding duels
    duels-AllValid means [] h = tt
    duels-AllValid means (a ∷ l) h =
        All-append IsValid (duels_with fl epsilon means a l) (duels fl epsilon means l)
          (duels_with-AllValid means a l h.0 h.1 h.2) (duels-AllValid means l h.2)

    case_matches-AllValid :
        (m : List (Text × List R))
        → AreNames (score_keys m)
        → All IsValid (case_matches fl epsilon m)
    unfolding case_matches
    case_matches-AllValid m h = if_both (All IsValid) (ltb (length m) 2) {x = []} tt (
        duels-AllValid (λ p. mean_of fl p m) (sorted text_le (score_keys m))
          (AreNames-sorted (score_keys m) h))

    match_cases-AllValid :
        (g : List (Text × List (Text × List R))) (meta : Meta)
        → All HasNames g
        → All IsValid (match_cases fl epsilon g meta).0
    unfolding match_cases
    match_cases-AllValid [] meta all = tt
    match_cases-AllValid ((c, m) ∷ g) meta all =
        All-append IsValid (case_matches fl epsilon m) _ (case_matches-AllValid m all.0)
          (match_cases-AllValid g _ all.1)

    -- `rank` takes every derived match as it is, where the rows name their players.
    pub normalize-build_matches :
        (rows : List (Text × (Text × R)))
        → All HasPlayer rows
        → normalize (map given (build_matches fl epsilon rows).0)
          ≡ (build_matches fl epsilon rows).0
    unfolding build_matches
    normalize-build_matches rows named =
        normalize-given (build_matches fl epsilon rows).0
          (match_cases-AllValid (group_rows rows []) _ (group_rows-HasNames rows [] named tt))
