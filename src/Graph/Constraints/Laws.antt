-- ===== src/Graph/Constraints/Laws.antt =====
-- What the constraints keep the search from doing.
use bravo_finder.Prelude.{◌≡◌, ◌⊎◌, ◌↔◌, inl, inr, true, false, List, Bool-cases, arith}
use bravo_finder.Prelude.Int.{ℤ, pos, ltb_ℤ, eqb_ℤ, ◌≤ℤ◌}
use bravo_finder.Double.{Double}
use bravo_finder.Graph.Nav.{FlRange, GraphEdge}
use bravo_finder.Graph.Constraints.{altitude_verdict}

-- A flight level of the range at which the airway's edge may be flown. A bound of 0 is none.
pub record Level (base top : ℤ) (r : FlRange) : Type 0 where
  pub fl : ℤ
  pub above_min : r.min_fl ≤ℤ fl
  pub below_max : fl ≤ℤ r.max_fl
  pub above_base : (base ≡ pos 0) ⊎ (base ≤ℤ fl)
  pub below_top : (top ≡ pos 0) ⊎ (fl ≤ℤ top)

-- Where the range is in order and so are the edge's bounds that are given, the altitude constraint
-- allows the edge exactly when some flight level of the range lies within the edge's bounds.
pub altitude_verdict_iff :
    (D : Double) (e : GraphEdge D) (r : FlRange)
    → r.min_fl ≤ℤ r.max_fl
    → (e.base_fl ≡ pos 0) ⊎ (e.top_fl ≡ pos 0) ⊎ (e.base_fl ≤ℤ e.top_fl)
    → ((altitude_verdict D e r).allowed ≡ true) ↔ Level e.base_fl e.top_fl r
altitude_verdict_iff D e r ordered bounds = (
  λ ok_verdict.
      lowest (Bool-cases (eqb_ℤ e.base_fl (pos 0))) (Bool-cases (ltb_ℤ r.min_fl e.base_fl))
        ok_verdict,
  λ l. allowed_at l l.above_base l.below_top,
)
  where
    allowed_at :
        (l : Level e.base_fl e.top_fl r)
        → (e.base_fl ≡ pos 0) ⊎ (e.base_fl ≤ℤ l.fl)
        → (e.top_fl ≡ pos 0) ⊎ (l.fl ≤ℤ e.top_fl)
        → (altitude_verdict D e r).allowed ≡ true
    allowed_at l base top =
        unfold altitude_verdict in ground (arith, base, top, l.above_min, l.below_max)

    lowest :
        (eqb_ℤ e.base_fl (pos 0) ≡ true) ⊎ (eqb_ℤ e.base_fl (pos 0) ≡ false)
        → (ltb_ℤ r.min_fl e.base_fl ≡ true) ⊎ (ltb_ℤ r.min_fl e.base_fl ≡ false)
        → (altitude_verdict D e r).allowed ≡ true
        → Level e.base_fl e.top_fl r
    lowest (inl free) b ok_verdict = record {
      fl = r.min_fl;
      above_min = omega arith;
      below_max = ordered;
      above_base = inl (ground (arith, free));
      below_top = unfold altitude_verdict in ground (arith, ok_verdict);
    }
    lowest (inr held) (inl below) ok_verdict = record {
      fl = e.base_fl;
      above_min = ground (arith, below);
      below_max = unfold altitude_verdict in ground (arith, ok_verdict, held);
      above_base = inr (omega arith);
      below_top = ground (arith, bounds, held);
    }
    lowest (inr held) (inr over) ok_verdict = record {
      fl = r.min_fl;
      above_min = omega arith;
      below_max = ordered;
      above_base = inr (ground (arith, over));
      below_top = unfold altitude_verdict in ground (arith, ok_verdict);
    }
