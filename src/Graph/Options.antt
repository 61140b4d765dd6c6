-- ===== src/Graph/Options.antt =====
-- The inputs that shape a search, of libs/engine/core/graph/astar.h: the turn penalty, the node and
-- edge filters, seeded endpoints and the priority queue. A sorted banned vector with
-- `binary_search` is a list with a membership test.
pub mod Keys
use mathlib.Core.List.{Permᴰ}
use bravo_finder.Prelude.{
  ℕ, ◌*◌, ◌%◌, ◌^◌, ◌≡◌, Bool, true, false, not, ◌&&◌, ◌||◌, List, [], ◌∷◌, Option, none, some,
  bit_or, ◌==◌, if◌then◌else◌, All,
}
use bravo_finder.Prelude.Int.{ℤ, pos, ltb_ℤ}
use bravo_finder.Double.{Double, zero_of}
use bravo_finder.Coordinate.{half_circle, full_circle}
use bravo_finder.Graph.Nav.{RouteRequest, Constraint}

unfoldable pub edge_key : ℕ → ℕ → ℕ
edge_key from to = bit_or (from * 2 ^ 32) (to % 2 ^ 32)

unfoldable pub is_banned : List ℕ → ℕ → Bool
is_banned [] v = false
is_banned (x ∷ xs) v = x == v || is_banned xs v

pub record NodeFilter : Type 0 where
  pub airport_first : ℤ
  pub airport_last : ℤ
  pub banned : Option (List ℕ)

unfoldable pub blocks_node : NodeFilter → ℕ → Bool
unfolding is_banned
blocks_node f v =
    if not (ltb_ℤ f.airport_first (pos 0))
      && (not (ltb_ℤ (pos v) f.airport_first) && ltb_ℤ (pos v) f.airport_last)
    then true
    else elim f.banned [ none ↦ false | some vs ↦ is_banned vs v ]

pub record EdgeFilter : Type 0 where
  pub banned : Option (List ℕ)

unfoldable pub blocks_edge : EdgeFilter → ℕ → ℕ → Bool
unfolding is_banned edge_key
blocks_edge f from to = elim f.banned [
  | none ↦ false
  | some keys ↦ is_banned keys (edge_key from to)
]

module _ (D : Double) where
  open D use {Carrier, lit, add, sub, mul, div, abs, lt, le}

  unfoldable pub turn_angle_deg : Carrier → Carrier → Carrier
  turn_angle_deg inbound_deg outbound_deg =
      let delta = abs (sub inbound_deg outbound_deg) in
      if lt (half_circle D) delta then sub (full_circle D) delta else delta

  pub record TurnPenalty : Type 0 where
    pub enabled : Bool

  abbrev threshold_deg : Carrier
  threshold_deg = lit (pos 450) 1

  abbrev knee_deg : Carrier
  knee_deg = lit (pos 900) 1

  abbrev penalty_at_knee_nm : Carrier
  penalty_at_knee_nm = lit (pos 200) 1

  abbrev max_penalty_nm : Carrier
  max_penalty_nm = lit (pos 2000) 1

  unfoldable pub turn_cost_of : TurnPenalty → Carrier → Carrier
  turn_cost_of p angle_deg =
      if not p.enabled || le angle_deg threshold_deg
      then zero_of D
      else if le angle_deg knee_deg
      then div (mul penalty_at_knee_nm (sub angle_deg threshold_deg)) (sub knee_deg threshold_deg)
      else if le (half_circle D) angle_deg
      then max_penalty_nm
      else (let t = div (sub angle_deg knee_deg) (sub (half_circle D) knee_deg) in
          add penalty_at_knee_nm (mul (mul (sub max_penalty_nm penalty_at_knee_nm) t) t))

  pub record SearchOptions : Type 0 where
    pub constraints : List (Constraint D)
    pub request : Option (RouteRequest D)
    pub turn_penalty : TurnPenalty
    pub node_filter : NodeFilter
    pub edge_filter : EdgeFilter

  pub record SeededEndpoint : Type 0 where
    pub vertex : ℤ
    pub cost : Carrier
    pub bearing : Carrier

  pub record QueueNode : Type 0 where
    pub f : Carrier
    pub vertex : ℕ

  -- `push_back` with `push_heap`, and `pop_heap` with `back` and `pop_back`, of <algorithm>.
  pub record OpenSet : Type 0 where
    pub push : QueueNode → List QueueNode → List QueueNode
    pub pop : List QueueNode → Option (QueueNode × List QueueNode)

  -- What the standard says of them: on a valid heap, `pop` takes a least node away and leaves the
  -- others as a valid heap.
  pub record IsHeap (H : OpenSet) : Type 1 where
    pub Valid : List QueueNode → Type 0
    pub valid-nil : Valid []
    pub valid-push : (x : QueueNode) (h : List QueueNode) → Valid h → Valid (H.push x h)
    pub push-perm : (x : QueueNode) (h : List QueueNode) → Valid h → Permᴰ (H.push x h) (x ∷ h)
    pub pop-nil : H.pop [] ≡ none
    pub pop-cons :
        (x : QueueNode) (h : List QueueNode)
        → Valid (x ∷ h)
        → (top : QueueNode) × (rest : List QueueNode) × (H.pop (x ∷ h) ≡ some (top, rest))
          × Permᴰ (x ∷ h) (top ∷ rest)
          × Valid rest
          × All (λ (y : QueueNode). lt y.f top.f ≡ false) rest
