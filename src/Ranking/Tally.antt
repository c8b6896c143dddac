-- ===== src/Ranking/Tally.antt =====
-- The table of games against a count of the matches, and the sums of its columns.
use eval_hive.Base.{
  ℕ, ◌+◌, ◌*◌, ◌≡◌, Bool, true, false, List, [], ◌∷◌, Text, ◌==◌, nat_eq, text_eq, if◌then◌else◌,
  refl, arith, ==-refl, ==→≡, Bool-cases, inl, inr, ◌∙◌, sym, subst, ap,
}
use eval_hive.Ranking.{
  Match, Row, Table, tally, count_match, change_row, row_of, no_games, Outcome, a_wins, b_wins, tie,
  add_wins, add_losses, add_ties,
}

-- Games counted match by match.
pub wins_of : Text → List Match → ℕ
wins_of p [] = 0
wins_of p (m ∷ l) =
    (elim m.outcome [
      | a_wins ↦ if m.player_a == p then m.weight else 0
      | b_wins ↦ if m.player_b == p then m.weight else 0
      | tie ↦ 0
    ])
    + wins_of p l

pub losses_of : Text → List Match → ℕ
losses_of p [] = 0
losses_of p (m ∷ l) =
    (elim m.outcome [
      | a_wins ↦ if m.player_b == p then m.weight else 0
      | b_wins ↦ if m.player_a == p then m.weight else 0
      | tie ↦ 0
    ])
    + losses_of p l

pub ties_of : Text → List Match → ℕ
ties_of p [] = 0
ties_of p (m ∷ l) =
    (elim m.outcome [
      | a_wins ↦ 0
      | b_wins ↦ 0
      | tie ↦ (if m.player_a == p then m.weight else 0) + (if m.player_b == p then m.weight else 0)
    ])
    + ties_of p l

apart_of : (k p q : Text) → (k == p) ≡ true → (k == q) ≡ false → (q == p) ≡ false
apart_of k p q mine there = elim (Bool-cases (q == p)) [
  | inl e ↦
      let same : k ≡ q = ==→≡ k p mine ∙ sym (==→≡ q p e) in
      subst (λ (b : Bool). (q == p) ≡ b)
        (sym (==-refl k) ∙ (ap (λ (x : Text). k == x) same ∙ there)) e
  | inr e ↦ e
]

row_of-change_row :
    (p q : Text) (f : Row → Row) (t : Table)
    → row_of p (change_row q f t) ≡ (if q == p then f (row_of p t) else row_of p t)
unfolding row_of change_row
row_of-change_row p q f [] = ground arith
row_of-change_row p q f ((k, r) ∷ t) = elim (Bool-cases (k == q)) [
  | inl here ↦ let same : k ≡ q = ==→≡ k q here in ground (arith, here, same)
  | inr there ↦ elim (Bool-cases (k == p)) [
    | inl mine ↦
        let other : (q == p) ≡ false = apart_of k p q mine there in
        ground (arith, there, mine, other)
    | inr not_mine ↦ ground (arith, there, not_mine, row_of-change_row p q f t)
  ]
]

-- The row of p after one match, and after all.
row_of-count_match :
    (p : Text) (m : Match) (t : Table)
    → ((row_of p (count_match m t)).wins ≡ (row_of p t).wins + wins_of p (m ∷ []))
      × ((row_of p (count_match m t)).losses ≡ (row_of p t).losses + losses_of p (m ∷ []))
      × ((row_of p (count_match m t)).ties ≡ (row_of p t).ties + ties_of p (m ∷ []))
unfolding count_match wins_of losses_of ties_of
row_of-count_match p m t = by_outcome m.outcome refl
  where
    by_outcome :
        (o : Outcome)
        → m.outcome ≡ o
        → ((row_of p (count_match m t)).wins ≡ (row_of p t).wins + wins_of p (m ∷ []))
          × ((row_of p (count_match m t)).losses ≡ (row_of p t).losses + losses_of p (m ∷ []))
          × ((row_of p (count_match m t)).ties ≡ (row_of p t).ties + ties_of p (m ∷ []))
    by_outcome a_wins e =
        let second =
          row_of-change_row p m.player_b (add_losses m.weight)
            (change_row m.player_a (add_wins m.weight) t) in
        let first = row_of-change_row p m.player_a (add_wins m.weight) t in
        ground (arith, e, first, second)
    by_outcome b_wins e =
        let second =
          row_of-change_row p m.player_b (add_wins m.weight)
            (change_row m.player_a (add_losses m.weight) t) in
        let first = row_of-change_row p m.player_a (add_losses m.weight) t in
        ground (arith, e, first, second)
    by_outcome tie e =
        let second =
          row_of-change_row p m.player_b (add_ties m.weight)
            (change_row m.player_a (add_ties m.weight) t) in
        let first = row_of-change_row p m.player_a (add_ties m.weight) t in
        ground (arith, e, first, second)

tally_from :
    (p : Text) (l : List Match) (t : Table)
    → ((row_of p (tally t l)).wins ≡ (row_of p t).wins + wins_of p l)
      × ((row_of p (tally t l)).losses ≡ (row_of p t).losses + losses_of p l)
      × ((row_of p (tally t l)).ties ≡ (row_of p t).ties + ties_of p l)
unfolding tally wins_of losses_of ties_of
tally_from p [] t = ground arith
tally_from p (m ∷ l) t =
    let (a, b, c) = row_of-count_match p m t in
    let (d, e, f) = tally_from p l (count_match m t) in
    (omega (arith, a, d), omega (arith, b, e), omega (arith, c, f))

-- The row of each player holds the weights of the matches that it won, lost and drew.
pub tally_exact :
    (p : Text) (l : List Match)
    → row_of p (tally [] l)
      ≡ record { wins = wins_of p l; losses = losses_of p l; ties = ties_of p l }
unfolding row_of
tally_exact p l = let (a, b, c) = tally_from p l [] in ground (arith, a, b, c)

-- The sum of a column.
pub total : (Row → ℕ) → Table → ℕ
total f [] = 0
total f ((p, r) ∷ t) = f r + total f t

pub total_weight : List Match → ℕ
total_weight [] = 0
total_weight (m ∷ l) = m.weight + total_weight l

total-change_row :
    (f : Row → ℕ) (g : Row → Row) (d : ℕ) (q : Text) (t : Table)
    → f no_games ≡ 0
    → ((r : Row) → f (g r) ≡ f r + d)
    → total f (change_row q g t) ≡ total f t + d
unfolding total change_row
total-change_row f g d q [] z more = omega (arith, more no_games)
total-change_row f g d q ((p, r) ∷ t) z more =
    ground (arith, more r, total-change_row f g d q t z more)

abbrev pub games_of : Row → ℕ
games_of r = r.wins + r.losses + r.ties

total-count_match :
    (m : Match) (t : Table)
    → (total (λ r. r.wins) (count_match m t) + total (λ r. r.losses) t
        ≡ total (λ r. r.losses) (count_match m t) + total (λ r. r.wins) t)
      × (total games_of (count_match m t) ≡ total games_of t + 2 * m.weight)
unfolding count_match
total-count_match m t = by_outcome m.outcome refl
  where
    by_outcome :
        (o : Outcome)
        → m.outcome ≡ o
        → (total (λ r. r.wins) (count_match m t) + total (λ r. r.losses) t
            ≡ total (λ r. r.losses) (count_match m t) + total (λ r. r.wins) t)
          × (total games_of (count_match m t) ≡ total games_of t + 2 * m.weight)
    by_outcome a_wins e =
        let t1 = change_row m.player_a (add_wins m.weight) t in
        let run : count_match m t ≡ change_row m.player_b (add_losses m.weight) t1 =
          ground (arith, e) in
        let w1 =
          total-change_row (λ r. r.wins) (add_wins m.weight) m.weight m.player_a t refl
            (λ r. refl) in
        let l1 =
          total-change_row (λ r. r.losses) (add_wins m.weight) 0 m.player_a t refl
            (λ r. omega arith) in
        let g1 =
          total-change_row games_of (add_wins m.weight) m.weight m.player_a t refl
            (λ r. omega arith) in
        let w2 =
          total-change_row (λ r. r.wins) (add_losses m.weight) 0 m.player_b t1 refl
            (λ r. omega arith) in
        let l2 =
          total-change_row (λ r. r.losses) (add_losses m.weight) m.weight m.player_b t1 refl
            (λ r. refl) in
        let g2 =
          total-change_row games_of (add_losses m.weight) m.weight m.player_b t1 refl
            (λ r. omega arith) in
        rw run (omega (arith, w1, l1, w2, l2), omega (arith, g1, g2))
    by_outcome b_wins e =
        let t1 = change_row m.player_a (add_losses m.weight) t in
        let run : count_match m t ≡ change_row m.player_b (add_wins m.weight) t1 =
          ground (arith, e) in
        let w1 =
          total-change_row (λ r. r.wins) (add_losses m.weight) 0 m.player_a t refl
            (λ r. omega arith) in
        let l1 =
          total-change_row (λ r. r.losses) (add_losses m.weight) m.weight m.player_a t refl
            (λ r. refl) in
        let g1 =
          total-change_row games_of (add_losses m.weight) m.weight m.player_a t refl
            (λ r. omega arith) in
        let w2 =
          total-change_row (λ r. r.wins) (add_wins m.weight) m.weight m.player_b t1 refl
            (λ r. refl) in
        let l2 =
          total-change_row (λ r. r.losses) (add_wins m.weight) 0 m.player_b t1 refl
            (λ r. omega arith) in
        let g2 =
          total-change_row games_of (add_wins m.weight) m.weight m.player_b t1 refl
            (λ r. omega arith) in
        rw run (omega (arith, w1, l1, w2, l2), omega (arith, g1, g2))
    by_outcome tie e =
        let t1 = change_row m.player_a (add_ties m.weight) t in
        let run : count_match m t ≡ change_row m.player_b (add_ties m.weight) t1 =
          ground (arith, e) in
        let w1 =
          total-change_row (λ r. r.wins) (add_ties m.weight) 0 m.player_a t refl
            (λ r. omega arith) in
        let l1 =
          total-change_row (λ r. r.losses) (add_ties m.weight) 0 m.player_a t refl
            (λ r. omega arith) in
        let g1 =
          total-change_row games_of (add_ties m.weight) m.weight m.player_a t refl
            (λ r. omega arith) in
        let w2 =
          total-change_row (λ r. r.wins) (add_ties m.weight) 0 m.player_b t1 refl
            (λ r. omega arith) in
        let l2 =
          total-change_row (λ r. r.losses) (add_ties m.weight) 0 m.player_b t1 refl
            (λ r. omega arith) in
        let g2 =
          total-change_row games_of (add_ties m.weight) m.weight m.player_b t1 refl
            (λ r. omega arith) in
        rw run (omega (arith, w1, l1, w2, l2), omega (arith, g1, g2))

columns_from :
    (l : List Match) (t : Table)
    → total (λ r. r.wins) t ≡ total (λ r. r.losses) t
    → (total (λ r. r.wins) (tally t l) ≡ total (λ r. r.losses) (tally t l))
      × (total games_of (tally t l) ≡ total games_of t + 2 * total_weight l)
unfolding tally total_weight
columns_from [] t e = (e, omega arith)
columns_from (m ∷ l) t e =
    let (a, b) = total-count_match m t in
    let (c, d) = columns_from l (count_match m t) (omega (arith, a, e)) in (c, omega (arith, d, b))

-- In the whole table there are as many wins as losses, and every match counts twice.
pub tally_columns :
    (l : List Match)
    → (total (λ r. r.wins) (tally [] l) ≡ total (λ r. r.losses) (tally [] l))
      × (total games_of (tally [] l) ≡ 2 * total_weight l)
unfolding total
tally_columns l = let (a, b) = columns_from l [] refl in (a, omega (arith, b))
