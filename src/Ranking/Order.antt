-- ===== src/Ranking/Order.antt =====
-- The rows of a report: their order, their numbers, and the players.
use eval_hive.Base.{
  ℕ, suc, zero, ◌+◌, ◌≡◌, Bool, true, false, ◌||◌, List, [], ◌∷◌, Text, ◌==◌, nat_eq, text_eq,
  if◌then◌else◌, refl, arith, ==→≡, Bool-cases, inl, inr, map, All, sorted, insert_sorted, text_le,
  if_both, length, ltb, ◌∙◌, ap, if_given,
}
use eval_hive.Ranking.{
  Floats, Match, GivenMatch, Method, Report, PlayerRow, ok, rank, numbered, player_rows, row_before,
  players, seen_players, add_member, is_member, normalize, tally, ReportStatus, insufficient_data,
}
use eval_hive.Ranking.Tally.{wins_of, losses_of, ties_of, tally_exact}

text_le_total : (s t : Text) → text_le s t ≡ false → text_le t s ≡ true
unfolding text_le
text_le_total [] t h = cc
text_le_total (x ∷ s) [] h = refl
text_le_total (x ∷ s) (y ∷ t) h = elim (Bool-cases (ltb x y)) [
  | inl e ↦ ground (arith, h, e)
  | inr e ↦ elim (Bool-cases (x == y)) [
    | inl e2 ↦
        let rest : text_le s t ≡ false = ground (arith, h, e, e2) in
        ground (arith, text_le_total s t rest, e, e2)
    | inr e2 ↦ ground (arith, e, e2)
  ]
]

module _ {A : Type 0} (le : A → A → Bool) where
  -- No element stands before one that it should follow.
  abbrev pub IsOrdered : List A → Type 0
  IsOrdered [] = Unit
  IsOrdered (x ∷ []) = Unit
  IsOrdered (x ∷ (y ∷ l)) = (le x y ≡ true) × IsOrdered (y ∷ l)

  insert_sorted-IsOrdered :
      (total : (x y : A) → le x y ≡ false → le y x ≡ true) (x : A) (l : List A)
      → IsOrdered l
      → IsOrdered (insert_sorted le x l)
  insert_sorted-IsOrdered total x [] h = tt
  insert_sorted-IsOrdered total x (y ∷ []) h = elim (Bool-cases (le x y)) [
    | inl e ↦ rw e (e, tt)
    | inr e ↦ rw e (total x y e, tt)
  ]
  insert_sorted-IsOrdered total x (y ∷ (z ∷ l)) h =
      let rest = insert_sorted-IsOrdered total x (z ∷ l) h.1 in
      elim (Bool-cases (le x y)) [
        | inl e ↦ rw e (e, h)
        | inr e ↦ elim (Bool-cases (le x z)) [
          | inl e2 ↦ rw (e, e2) (total x y e, (e2, h.1))
          | inr e2 ↦ rw (e, e2) (h.0, (rw e2 at rest))
        ]
      ]

  sorted-IsOrdered :
      ((x y : A) → le x y ≡ false → le y x ≡ true) → (l : List A) → IsOrdered (sorted le l)
  sorted-IsOrdered total [] = tt
  sorted-IsOrdered total (x ∷ l) =
      insert_sorted-IsOrdered total x (sorted le l) (sorted-IsOrdered total l)

  All-insert_sorted :
      (P : A → Type 0) (x : A) (l : List A) → P x → All P l → All P (insert_sorted le x l)
  All-insert_sorted P x [] p all = (p, tt)
  All-insert_sorted P x (y ∷ l) p all =
      if_both (All P) (le x y) (p, all) (all.0, All-insert_sorted P x l p all.1)

  All-sorted : (P : A → Type 0) (l : List A) → All P l → All P (sorted le l)
  All-sorted P [] all = tt
  All-sorted P (x ∷ l) all = All-insert_sorted P x (sorted le l) all.0 (All-sorted P l all.1)

  -- How many elements pass a test does not change.
  module _ (f : A → Bool) where
    abbrev pub count_by : List A → ℕ
    count_by [] = 0
    count_by (x ∷ l) = (if f x then 1 else 0) + count_by l

    count_by-insert_sorted :
        (x : A) (l : List A) → count_by (insert_sorted le x l) ≡ count_by (x ∷ l)
    count_by-insert_sorted x [] = refl
    count_by-insert_sorted x (y ∷ l) = elim (Bool-cases (le x y)) [
      | inl e ↦ rw e refl
      | inr e ↦ rw e (omega (arith, count_by-insert_sorted x l))
    ]

    count_by-sorted : (l : List A) → count_by (sorted le l) ≡ count_by l
    count_by-sorted [] = refl
    count_by-sorted (x ∷ l) =
        omega (arith, count_by-insert_sorted x (sorted le l), count_by-sorted l)

-- Whether a player takes part.
pub plays : Text → List Match → Bool
plays p [] = false
plays p (m ∷ l) = m.player_a == p || m.player_b == p || plays p l

abbrev one_if : Bool → ℕ
one_if true = 1
one_if false = 0

member_eq : (p q : Text) (l : List Text) → (p == q) ≡ true → is_member p l ≡ is_member q l
member_eq p q l e = let same : p ≡ q = ==→≡ p q e in ap (λ (x : Text). is_member x l) same

-- A set holds each of its members once.
count_by-add_member :
    (p q : Text) (l : List Text)
    → count_by text_le (λ x. x == p) l ≡ one_if (is_member p l)
    → (count_by text_le (λ x. x == p) (add_member q l) ≡ one_if (q == p || is_member p l))
      × (is_member p (add_member q l) ≡ (q == p || is_member p l))
unfolding add_member is_member
count_by-add_member p q l h = elim (Bool-cases (is_member q l)) [
  | inl e ↦ elim (Bool-cases (q == p)) [
    | inl e2 ↦ let mem = member_eq q p l e2 in ground (arith, e, e2, mem, h)
    | inr e2 ↦ ground (arith, e, e2, h)
  ]
  | inr e ↦ elim (Bool-cases (q == p)) [
    | inl e2 ↦ let mem = member_eq q p l e2 in ground (arith, e, e2, mem, h)
    | inr e2 ↦ ground (arith, e, e2, h)
  ]
]

count_by-seen_players :
    (p : Text) (l : List Match)
    → (count_by text_le (λ x. x == p) (seen_players l) ≡ one_if (plays p l))
      × (is_member p (seen_players l) ≡ plays p l)
unfolding seen_players plays is_member
count_by-seen_players p [] = (refl, refl)
count_by-seen_players p (m ∷ l) =
    let (c, mem) = count_by-seen_players p l in
    let (c1, mem1) = count_by-add_member p m.player_b (seen_players l) (ground (arith, c, mem)) in
    let (c2, mem2) =
      count_by-add_member p m.player_a (add_member m.player_b (seen_players l))
        (ground (arith, c1, mem1)) in
    (ground (arith, c2, mem1, mem), ground (arith, mem2, mem1, mem))

count_by-players :
    (p : Text) (l : List Match) → count_by text_le (λ x. x == p) (players l) ≡ one_if (plays p l)
unfolding players
count_by-players p l =
    count_by-sorted text_le (λ x. x == p) (seen_players l) ∙ (count_by-seen_players p l).0

-- i, i + 1, and so on
abbrev count_up : ℕ → ℕ → List ℕ
count_up i zero = []
count_up i (suc n) = i ∷ count_up (i + 1) n

module _ {R : Type 0} (fl : Floats R) where
  row_before_total : (r s : PlayerRow R) → row_before fl r s ≡ false → row_before fl s r ≡ true
  unfolding row_before
  row_before_total r s h = ground (arith, h, text_le_total r.player s.player)

  IsOrdered-numbered :
      (i : ℕ) (l : List (PlayerRow R))
      → IsOrdered (row_before fl) l
      → IsOrdered (row_before fl) (numbered i l)
  unfolding numbered row_before
  IsOrdered-numbered i [] h = tt
  IsOrdered-numbered i (r ∷ []) h = tt
  IsOrdered-numbered i (r ∷ (s ∷ l)) h = (h.0, IsOrdered-numbered (i + 1) (s ∷ l) h.1)

  count_by-numbered :
      (p : Text) (i : ℕ) (l : List (PlayerRow R))
      → count_by (row_before fl) (λ r. r.player == p) (numbered i l)
        ≡ count_by (row_before fl) (λ r. r.player == p) l
  unfolding numbered
  count_by-numbered p i [] = refl
  count_by-numbered p i (r ∷ l) = ground (arith, count_by-numbered p (i + 1) l)

  ranks-numbered :
      (i : ℕ) (l : List (PlayerRow R))
      → map (λ (r : PlayerRow R). r.rank) (numbered i l) ≡ count_up i (length (numbered i l))
  unfolding numbered
  ranks-numbered i [] = refl
  ranks-numbered i (r ∷ l) = ap (λ (k : List ℕ). i ∷ k) (ranks-numbered (i + 1) l)

  abbrev pub HasGames : List Match → PlayerRow R → Type 0
  HasGames l r = r.games ≡ record {
    wins = wins_of r.player l;
    losses = losses_of r.player l;
    ties = ties_of r.player l;
  }

  All-numbered :
      (l : List Match) (i : ℕ) (rows : List (PlayerRow R))
      → All (HasGames l) rows
      → All (HasGames l) (numbered i rows)
  unfolding numbered
  All-numbered l i [] all = tt
  All-numbered l i (r ∷ rows) all = (all.0, All-numbered l (i + 1) rows all.1)

  module _ (rating : Text → R) (ci : Text → R × R) where
    player_rows-HasGames :
        (l : List Match) (ps : List Text) → All (HasGames l) (player_rows rating ci (tally [] l) ps)
    unfolding player_rows
    player_rows-HasGames l [] = tt
    player_rows-HasGames l (p ∷ ps) = (tally_exact p l, player_rows-HasGames l ps)

    count_by-player_rows :
        (p : Text) (l : List Match) (ps : List Text)
        → count_by (row_before fl) (λ r. r.player == p) (player_rows rating ci (tally [] l) ps)
          ≡ count_by text_le (λ x. x == p) ps
    unfolding player_rows
    count_by-player_rows p l [] = refl
    count_by-player_rows p l (q ∷ ps) = ground (arith, count_by-player_rows p l ps)

  -- What is said of the rows of a report.
  abbrev pub IsLeaderboard : List Match → List (PlayerRow R) → Type 0
  IsLeaderboard l rows =
      IsOrdered (row_before fl) rows
      × (map (λ (r : PlayerRow R). r.rank) rows ≡ count_up 1 (length rows))
      × ((p : Text) → count_by (row_before fl) (λ r. r.player == p) rows ≡ one_if (plays p l))
      × All (HasGames l) rows

  sorted_rows :
      (rating : Text → R) (ci : Text → R × R) (l : List Match)
      → IsLeaderboard l
          (numbered 1 (sorted (row_before fl) (player_rows rating ci (tally [] l) (players l))))
  sorted_rows rating ci l =
      let raw = player_rows rating ci (tally [] l) (players l) in
      let rows = sorted (row_before fl) raw in
      (
        IsOrdered-numbered 1 rows (sorted-IsOrdered (row_before fl) row_before_total raw),
        ranks-numbered 1 rows,
        λ p.
            count_by-numbered p 1 rows
            ∙ (count_by-sorted (row_before fl) (λ r. r.player == p) raw
                ∙ (count_by-player_rows rating ci p l (players l) ∙ count_by-players p l)),
        All-numbered l 1 rows (
            All-sorted (row_before fl) (HasGames l) raw
              (player_rows-HasGames rating ci l (players l))),
      )

  -- A leaderboard of at least two players has its rows in descending order of the rating, and by name
  -- where neither rating is below the other; the rows are numbered from 1; each player of a valid match
  -- has one row and nobody else has any; and each row holds the player's games in the valid matches.
  pub rank-IsLeaderboard :
      (fit : Method → List Match → (Text → R) × (Text → R × R)) (method : Method)
      (given : List GivenMatch)
      → (rank fl fit method given).status ≡ ok
      → IsLeaderboard (normalize given) (rank fl fit method given).players
  unfolding rank
  rank-IsLeaderboard fit method given h =
      if_given (λ (r : Report R). r.status ≡ ok → IsLeaderboard (normalize given) r.players)
        (length (normalize given) == 0) (λ _ (bad : ReportStatus.empty ≡ ok). cc)
        (λ _.
          if_given (λ (r : Report R). r.status ≡ ok → IsLeaderboard (normalize given) r.players)
            (ltb (length (players (normalize given))) 2) (λ _ (bad : insufficient_data ≡ ok). cc)
            (λ _ _.
              sorted_rows (fit method (normalize given)).0 (fit method (normalize given)).1
                (normalize given)))
        h
