-- ===== src/Graph/Yen/Candidates.antt =====
-- The candidate set: in order, and so without two candidates for one path.
use bravo_finder.Prelude.{
  ◌≡◌, sym, ap, ◌∙◌, inl, inr, true, false, List, [], ◌∷◌, All, Bool-cases, arith,
}
use bravo_finder.Prelude.Int.{ℤ, ltb_ℤ, eqb_ℤ}
use bravo_finder.Double.{Double}
use bravo_finder.FixedString.Memory.{lex_lt, lex_lt_irrefl, lex_lt_trans}
use bravo_finder.Graph.Yen.{Candidate, candidate_lt, insert_candidate}

-- The comparisons of numbers, which are the values that equal themselves, are those of an order.
pub record IsOrdered (D : Double) : Type 0 where
  pub rank : D.Carrier → ℤ
  pub eq_rank :
      (a b : D.Carrier) → D.eq a a ≡ true → D.eq b b ≡ true → D.eq a b ≡ eqb_ℤ (rank a) (rank b)
  pub lt_rank :
      (a b : D.Carrier) → D.eq a a ≡ true → D.eq b b ≡ true → D.lt a b ≡ ltb_ℤ (rank a) (rank b)

module _ (D : Double) (R : IsOrdered D) where
  -- The candidate's cost is a number.
  abbrev pub IsNumber : Candidate D → Type 0
  IsNumber c = D.eq c.cost c.cost ≡ true

  candidate_lt_trans :
      (a b c : Candidate D)
      → IsNumber a
      → IsNumber b
      → IsNumber c
      → candidate_lt D a b ≡ true
      → candidate_lt D b c ≡ true
      → candidate_lt D a c ≡ true
  unfolding candidate_lt
  candidate_lt_trans a b c ha hb hc p q = ground (
    arith,
    R.eq_rank a.cost b.cost ha hb,
    R.eq_rank b.cost c.cost hb hc,
    R.eq_rank a.cost c.cost ha hc,
    R.lt_rank a.cost b.cost ha hb,
    R.lt_rank b.cost c.cost hb hc,
    R.lt_rank a.cost c.cost ha hc,
    lex_lt_trans a.vertices b.vertices c.vertices,
  )

  -- Candidates of one cost for one path are equivalent.
  pub candidate_lt_same :
      (a b : Candidate D)
      → IsNumber a
      → a.cost ≡ b.cost
      → a.vertices ≡ b.vertices
      → candidate_lt D a b ≡ false
  unfolding candidate_lt
  candidate_lt_same a b ha same path =
      let equal : D.eq a.cost b.cost ≡ true = ap (D.eq a.cost) (sym same) ∙ ha in
      rw equal (ap (lex_lt a.vertices) (sym path) ∙ lex_lt_irrefl a.vertices)

  abbrev pub InOrder : List (Candidate D) → Type 0
  InOrder [] = Unit {0}
  InOrder (c ∷ cs) = All (λ (d : Candidate D). candidate_lt D c d ≡ true) cs × InOrder cs

  pub insert_candidate-All :
      (P : Candidate D → Type 0) (c : Candidate D) (cs : List (Candidate D))
      → P c
      → All P cs
      → All P (insert_candidate D c cs)
  unfolding insert_candidate
  insert_candidate-All P c [] p h = (p, tt)
  insert_candidate-All P c (x ∷ xs) p h = elim (Bool-cases (candidate_lt D x c)) [
    | inl less ↦ rw less (h.0, insert_candidate-All P c xs p h.1)
    | inr k ↦ elim (Bool-cases (candidate_lt D c x)) [
      | inl more ↦ rw (k, more) (p, h)
      | inr same ↦ rw (k, same) h
    ]
  ]

  after_both :
      (c x : Candidate D) (xs : List (Candidate D))
      → IsNumber c
      → IsNumber x
      → All IsNumber xs
      → candidate_lt D c x ≡ true
      → All (λ (d : Candidate D). candidate_lt D x d ≡ true) xs
      → All (λ (d : Candidate D). candidate_lt D c d ≡ true) xs
  after_both c x [] hc hx hs e h = tt
  after_both c x (y ∷ ys) hc hx hs e h =
      (candidate_lt_trans c x y hc hx hs.0 e h.0, after_both c x ys hc hx hs.1 e h.1)

  pub insert_candidate-InOrder :
      (c : Candidate D) (cs : List (Candidate D))
      → IsNumber c
      → All IsNumber cs
      → InOrder cs
      → InOrder (insert_candidate D c cs)
  unfolding insert_candidate
  insert_candidate-InOrder c [] hc hs o = (tt, tt)
  insert_candidate-InOrder c (x ∷ xs) hc hs o = elim (Bool-cases (candidate_lt D x c)) [
    | inl less ↦ rw less (
      insert_candidate-All (λ (d : Candidate D). candidate_lt D x d ≡ true) c xs less o.0,
      insert_candidate-InOrder c xs hc hs.1 o.1,
    )
    | inr k ↦ elim (Bool-cases (candidate_lt D c x)) [
      | inl more ↦ rw (k, more) ((more, after_both c x xs hc hs.0 hs.1 more o.0), o)
      | inr same ↦ rw (k, same) o
    ]
  ]
