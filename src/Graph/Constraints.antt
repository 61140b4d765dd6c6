-- ===== src/Graph/Constraints.antt =====
-- The constraints of libs/engine/core/constraints: altitude_constraints.h,
-- avoid_waypoint_constraint.h and airway_rule_constraint.h. A sorted vector with `binary_search` is
-- a list with a membership test, and a mask of rules is a number of 32 bits.
pub mod Laws
mod Runs
use bravo_finder.Prelude.{
  ℕ, zero, suc, ◌/◌, ◌%◌, Bool, true, false, not, ◌&&◌, ◌||◌, List, [], ◌∷◌, Option, none, some,
  get_or, bit_and, bit_or, ◌==◌, if◌then◌else◌, Bytes, bytes_eq,
}
use bravo_finder.Prelude.Int.{ℤ, pos, ltb_ℤ, eqb_ℤ}
use bravo_finder.Double.{Double, zero_of}
use bravo_finder.Graph.Nav.{
  AirwayLevel, LevelPreference, FlRange, Match, RouteRequest, GraphEdge, EdgeVerdict, EdgeContext,
  allow, block_edge, penalize_edge,
}
use bravo_finder.Graph.Options.{is_banned}

-- `std::string_view::starts_with`.
unfoldable pub starts_with : Bytes → Bytes → Bool
starts_with s [] = true
starts_with [] (x ∷ p) = false
starts_with (y ∷ s) (x ∷ p) = y == x && starts_with s p

unfoldable pub is_empty_text : Bytes → Bool
is_empty_text [] = true
is_empty_text (x ∷ xs) = false

unfoldable pub any_prefix : Bytes → List Bytes → Bool
any_prefix region [] = false
any_prefix region (p ∷ ps) = is_empty_text p || starts_with region p || any_prefix region ps

unfoldable pub matches_any_prefix : Bytes → List Bytes → Bool
matches_any_prefix region [] = true
matches_any_prefix region (p ∷ ps) = any_prefix region (p ∷ ps)

unfoldable pub any_designator : Bytes → List Bytes → Match → Bool
any_designator designator [] match = false
any_designator designator (w ∷ ws) Match.prefix =
    is_empty_text w || starts_with designator w || any_designator designator ws Match.prefix
any_designator designator (w ∷ ws) Match.exact =
    is_empty_text w || bytes_eq designator w || any_designator designator ws Match.exact

unfoldable pub matches_any_designator : Bytes → List Bytes → Match → Bool
matches_any_designator designator [] match = true
matches_any_designator designator (w ∷ ws) match = any_designator designator (w ∷ ws) match

module _ (D : Double) where
  open D use {Carrier, add, mul, lt}

  -- The body of `AltitudeBandConstraint::Evaluate` for a request with an altitude.
  unfoldable pub altitude_verdict : GraphEdge D → FlRange → EdgeVerdict D
  altitude_verdict e r =
      if not (eqb_ℤ e.base_fl (pos 0)) && ltb_ℤ r.max_fl e.base_fl
      then block_edge D
      else if not (eqb_ℤ e.top_fl (pos 0)) && ltb_ℤ e.top_fl r.min_fl
      then block_edge D
      else allow D

  unfoldable pub altitude_band : EdgeContext D → RouteRequest D → EdgeVerdict D
  altitude_band ctx request = elim request.altitude [
    | none ↦ allow D
    | some r ↦ altitude_verdict ctx.edge r
  ]

  unfoldable pub is_high : AirwayLevel → Bool
  is_high AirwayLevel.high = true
  is_high AirwayLevel.low = false
  is_high AirwayLevel.both = false

  unfoldable pub same : Bool → Bool → Bool
  same true b = b
  same false b = not b

  unfoldable pub level_verdict :
      Carrier → GraphEdge D → AirwayLevel → LevelPreference → EdgeVerdict D
  level_verdict fraction e level LevelPreference.none = allow D
  level_verdict fraction e AirwayLevel.both wanted = allow D
  level_verdict fraction e level LevelPreference.low =
      if same (is_high level) false then allow D else penalize_edge D (mul e.distance_nm fraction)
  level_verdict fraction e level LevelPreference.high =
      if same (is_high level) true then allow D else penalize_edge D (mul e.distance_nm fraction)

  -- The constructor takes a negative fraction for 0.
  unfoldable pub level_preference : Carrier → EdgeContext D → RouteRequest D → EdgeVerdict D
  level_preference penalty_fraction ctx request =
      level_verdict (if lt penalty_fraction (zero_of D) then zero_of D else penalty_fraction)
        ctx.edge ctx.edge.level request.level

  unfoldable pub avoid_waypoint : List ℕ → EdgeContext D → RouteRequest D → EdgeVerdict D
  avoid_waypoint vertices ctx request =
      if is_banned vertices ctx.edge.to then block_edge D else allow D

  -- The sum over the set bits, lowest first.
  unfoldable pub fraction_sum : List Carrier → ℕ → Carrier → Carrier
  fraction_sum [] bits frac = frac
  fraction_sum (f ∷ fs) bits frac =
      fraction_sum fs (bits / 2) (if bits % 2 == 1 then add frac f else frac)

  pub record AirwayRuleConstraint : Type 0 where
    pub vertex_mask : List ℕ
    pub airway_mask : List ℕ
    pub block_bits : ℕ
    pub fractions : List Carrier

  unfoldable pub airway_rule : AirwayRuleConstraint → EdgeContext D → RouteRequest D → EdgeVerdict D
  airway_rule c ctx request =
      let m =
        bit_and (bit_or (get_or c.vertex_mask ctx.from 0) (get_or c.vertex_mask ctx.edge.to 0))
          (get_or c.airway_mask ctx.edge.airway_id 0) in
      if m == 0
      then allow D
      else if not (bit_and m c.block_bits == 0)
      then block_edge D
      else penalize_edge D (mul ctx.edge.distance_nm (fraction_sum c.fractions m (zero_of D)))
