-- ===== src/Trajectory/Dag/Counts.antt =====
-- Orders of nodes that respect edges, and the count of edges from nodes that are done.
use eval_hive.Base.{
  ◌<◌, Bool-cases, inl, inr, ℕ, ◌+◌, ◌≤◌, ◌≡◌, refl, Bool, true, false, List, [], ◌∷◌, ◌++◌, ◌==◌,
  nat_eq, text_eq, if◌then◌else◌, All, arith,
}
use eval_hive.Trajectory.Dag.{Edge, in_degree, successors, count}

-- The nodes carried out so far.
abbrev pub mark : ℕ → (ℕ → Bool) → ℕ → Bool
mark n done k = if n == k then true else done k

-- Each node is carried out once, and after all its predecessors.
abbrev pub IsOrder : List Edge → (ℕ → Bool) → List ℕ → Type 0
IsOrder edges done [] = Unit
IsOrder edges done (n ∷ l) =
    (done n ≡ false)
    × All (λ (e : Edge). e.1 ≡ n → done e.0 ≡ true) edges
    × IsOrder edges (mark n done) l

-- The edges into `n` from nodes that are done.
pub from_done : List Edge → (ℕ → Bool) → ℕ → ℕ
from_done [] done n = 0
from_done ((u, v) ∷ es) done n =
    (if v == n then (if done u then 1 else 0) else 0) + from_done es done n

pub from_done_le : (es : List Edge) (done : ℕ → Bool) (n : ℕ) → from_done es done n ≤ in_degree es n
unfolding from_done in_degree
from_done_le [] done n = omega arith
from_done_le ((u, v) ∷ es) done n = ground (arith, from_done_le es done n)

-- Where every edge into `n` is counted, every predecessor is done.
pub from_done-All :
    (es : List Edge) (done : ℕ → Bool) (n : ℕ)
    → from_done es done n ≡ in_degree es n
    → All (λ (e : Edge). e.1 ≡ n → done e.0 ≡ true) es
unfolding from_done in_degree
from_done-All [] done n h = tt
from_done-All ((u, v) ∷ es) done n h =
    let le = from_done_le es done n in (λ at. ground arith, from_done-All es done n (ground arith))

-- All edges into `n` are counted, where every predecessor is done.
pub All-from_done :
    (es : List Edge) (done : ℕ → Bool) (n : ℕ)
    → All (λ (e : Edge). e.1 ≡ n → done e.0 ≡ true) es
    → from_done es done n ≡ in_degree es n
unfolding from_done in_degree
All-from_done [] done n h = refl
All-from_done ((u, v) ∷ es) done n h = ground (arith, All-from_done es done n h.1, h.0)

pub from_done-mark :
    (es : List Edge) (done : ℕ → Bool) (n m : ℕ)
    → done n ≡ false
    → from_done es (mark n done) m ≡ from_done es done m + count m (successors es n)
unfolding from_done successors count
from_done-mark [] done n m h = omega arith
from_done-mark ((u, v) ∷ es) done n m h = ground (arith, from_done-mark es done n m h)

abbrev pub IsDistinct : List ℕ → Type 0
IsDistinct [] = Unit
IsDistinct (x ∷ l) = All (λ y. (x == y) ≡ false) l × IsDistinct l

pub IsDistinct-snoc :
    (x : ℕ) (l : List ℕ) → All (λ y. (y == x) ≡ false) l → IsDistinct l → IsDistinct (l ++ (x ∷ []))
IsDistinct-snoc x [] a d = (tt, tt)
IsDistinct-snoc x (y ∷ l) a d = (apart l a.0 d.0, IsDistinct-snoc x l a.1 d.1)
  where
    apart :
        (l : List ℕ)
        → (y == x) ≡ false
        → All (λ z. (y == z) ≡ false) l
        → All (λ z. (y == z) ≡ false) (l ++ (x ∷ []))
    apart [] e a = (e, tt)
    apart (z ∷ l) e a = (a.0, apart l e a.1)

pub from_done_nil : (es : List Edge) (n : ℕ) → from_done es (λ k. false) n ≡ 0
unfolding from_done
from_done_nil [] n = refl
from_done_nil ((u, v) ∷ es) n = ground (arith, from_done_nil es n)

-- The nodes behind the edges of `n` are in range, where all edges lead to a node in range.
pub successors_range :
    (size : ℕ) (es : List Edge) (n : ℕ)
    → All (λ (e : Edge). e.1 < size) es
    → All (λ m. m < size) (successors es n)
unfolding successors
successors_range size [] n h = tt
successors_range size ((u, v) ∷ es) n h = elim (Bool-cases (u == n)) [
  | inl here ↦ rw here (h.0, successors_range size es n h.1)
  | inr there ↦ rw there (successors_range size es n h.1)
]
