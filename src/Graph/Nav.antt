-- ===== src/Graph/Nav.antt =====
-- The graph of libs/engine/core/graph/nav_graph.h, the request of core/routing/route_request.h and
-- the constraint interface of core/constraints/constraint.h. A vertex in an edge is an index, and
-- rows are read from the edge array by the offsets, as `EdgesBegin` and `EdgesEnd` do.
use bravo_finder.Prelude.{
  ℕ, ◌+◌, ◌-◌, Bool, true, false, List, length, get_or, take, drop, Option, Bytes,
}
use bravo_finder.Prelude.Int.{ℤ}
use bravo_finder.Double.{Double, zero_of}
use bravo_finder.Coordinate.{Coordinate}

pub data AirwayLevel : Type 0 where
  low high both : AirwayLevel

pub data LevelPreference : Type 0 where
  none low high : LevelPreference

pub record FlRange : Type 0 where
  pub min_fl : ℤ
  pub max_fl : ℤ

pub data Action : Type 0 where
  penalize block : Action

pub data Match : Type 0 where
  exact prefix : Match

module _ (D : Double) where
  open D use {Carrier}

  pub record AirwayRule : Type 0 where
    pub region_prefixes : List Bytes
    pub designators : List Bytes
    pub match : Match
    pub action : Action
    pub penalty_fraction : Carrier

  pub record RouteRequest : Type 0 where
    pub departure : Bytes
    pub arrival : Bytes
    pub altitude : Option FlRange
    pub level : LevelPreference
    pub k : ℤ
    pub departure_runway : Bytes
    pub arrival_runway : Bytes
    pub departure_sid : Bytes
    pub arrival_star : Bytes
    pub avoid_waypoints : List Bytes
    pub airway_rules : List AirwayRule
    pub random_seed : Option ℕ
    pub forced_points : List Bytes

  pub record GraphEdge : Type 0 where
    pub to : ℕ
    pub distance_nm : Carrier
    pub airway_id : ℕ
    pub base_fl : ℤ
    pub top_fl : ℤ
    pub level : AirwayLevel

  pub record NavGraph : Type 0 where
    pub coords : List (Coordinate D)
    pub offsets : List ℕ
    pub edges : List GraphEdge

  unfoldable pub vertex_count : NavGraph → ℕ
  vertex_count g = length g.coords

  unfoldable pub coord_of : NavGraph → ℕ → Coordinate D
  coord_of g v = get_or g.coords v (record { latitude = zero_of D; longitude = zero_of D })

  -- The edges from `EdgesBegin(v)` up to `EdgesEnd(v)`. The source does not check the offsets; where
  -- they are not inside the edge array its reads are undefined, and here the row is cut short. The
  -- offsets of a graph that `GraphCodec::Decode` accepts are checked there.
  unfoldable pub edges_of : NavGraph → ℕ → List GraphEdge
  edges_of g v =
      let begin = get_or g.offsets v 0 in
      take (get_or g.offsets (v + 1) 0 - begin) (drop begin g.edges)

  pub record EdgeVerdict : Type 0 where
    pub allowed : Bool
    pub extra_cost : Carrier

  abbrev pub allow : EdgeVerdict
  allow = record { allowed = true; extra_cost = zero_of D }

  abbrev pub block_edge : EdgeVerdict
  block_edge = record { allowed = false; extra_cost = zero_of D }

  abbrev pub penalize_edge : Carrier → EdgeVerdict
  penalize_edge cost = record { allowed = true; extra_cost = cost }

  pub record EdgeContext : Type 0 where
    pub edge : GraphEdge
    pub from_coord : Coordinate D
    pub to_coord : Coordinate D
    pub from : ℕ

  -- A constraint is its `Evaluate`.
  abbrev pub Constraint : Type 0
  Constraint = EdgeContext → RouteRequest → EdgeVerdict
