-- ===== src/Model/Walks/Touching.antt =====
-- Cells that touch, by a side or at a corner.
use travel_mcp.Prelude.{ℕ, zero, suc, ◌+◌, ◌≤◌, ◌≡◌, refl, sym, subst, ◌⊎◌, inl, inr, In, arith}
use travel_mcp.Model.Walks.{Cell, neighbours}

-- Neither number of the one is further from that of the other than 1.
abbrev pub Touching : Cell → Cell → Type 0
Touching (i, j) (k, l) = (i ≤ k + 1) × (k ≤ i + 1) × (j ≤ l + 1) × (l ≤ j + 1)

near_cases : (a b : ℕ) → a ≤ b + 1 → b ≤ a + 1 → (a ≡ b) ⊎ ((b ≡ suc a) ⊎ (a ≡ suc b))
near_cases a b h k = ground arith

right_of : (i j : ℕ) → In (suc i, j) (neighbours (i, j))
unfolding neighbours
right_of i zero = inl refl
right_of i (suc j) = inl refl

above_of : (i j : ℕ) → In (i, suc j) (neighbours (i, j))
unfolding neighbours
above_of i zero = inr (inl refl)
above_of i (suc j) = inr (inl refl)

upper_corner : (i j : ℕ) → In (suc i, suc j) (neighbours (i, j))
unfolding neighbours
upper_corner i zero = inr (inr (inl refl))
upper_corner i (suc j) = inr (inr (inl refl))

lower_corner : (i j : ℕ) → In (suc i, j) (neighbours (i, suc j))
unfolding neighbours
lower_corner i j = inr (inr (inr (inl refl)))

at_pair : (A : Cell → Type 0) (i j k l : ℕ) → k ≡ i → l ≡ j → A (i, j) → A (k, l)
at_pair A i j k l e f a = subst (λ x. A (x, l)) (sym e) (subst (λ y. A (i, y)) (sym f) a)

-- Of two cells that touch, one is the other, or a neighbour of the other.
pub Touching-neighbours :
    (c d : Cell) → Touching c d → (c ≡ d) ⊎ (In d (neighbours c) ⊎ In c (neighbours d))
Touching-neighbours (i, j) (k, l) (h1, h2, h3, h4) = elim (near_cases i k h1 h2) [
  | inl e ↦ elim (near_cases j l h3 h4) [
    | inl f ↦ inl (at_pair (λ x. x ≡ (k, l)) k l i j e f refl)
    | inr (inl f) ↦
        inr (inl (at_pair (λ x. In x (neighbours (i, j))) i (suc j) k l (sym e) f (above_of i j)))
    | inr (inr f) ↦
        inr (inr (at_pair (λ x. In x (neighbours (k, l))) k (suc l) i j e f (above_of k l)))
  ]
  | inr (inl e) ↦ elim (near_cases j l h3 h4) [
    | inl f ↦
        inr (inl (at_pair (λ x. In x (neighbours (i, j))) (suc i) j k l e (sym f) (right_of i j)))
    | inr (inl f) ↦
        inr
          (inl (at_pair (λ x. In x (neighbours (i, j))) (suc i) (suc j) k l e f (upper_corner i j)))
    | inr (inr f) ↦ inr (
        inl (
          at_pair (λ x. In (k, l) (neighbours x)) i (suc l) i j refl f
            (at_pair (λ x. In x (neighbours (i, suc l))) (suc i) l k l e refl (lower_corner i l))))
  ]
  | inr (inr e) ↦ elim (near_cases j l h3 h4) [
    | inl f ↦ inr (inr (at_pair (λ x. In x (neighbours (k, l))) (suc k) l i j e f (right_of k l)))
    | inr (inl f) ↦ inr (
        inr (
          at_pair (λ x. In (i, j) (neighbours x)) k (suc j) k l refl f
            (at_pair (λ x. In x (neighbours (k, suc j))) (suc k) j i j e refl (lower_corner k j))))
    | inr (inr f) ↦
        inr
          (inr (at_pair (λ x. In x (neighbours (k, l))) (suc k) (suc l) i j e f (upper_corner k l)))
  ]
]
