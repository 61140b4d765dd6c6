-- ===== src/Graph/Workspace.antt =====
-- `SearchWorkspace` of libs/engine/core/graph/astar.h and astar.cc: per-vertex arrays that one search
-- after another uses, cleared by a generation number. `prev` holds no vertex for `kNoVertex`.
pub mod Laws
use bravo_finder.Prelude.{
  ℕ, suc, ◌+◌, ◌-◌, ◌%◌, ◌^◌, Bool, List, [], ◌++◌, length, get_or, set, take, replicate, Option,
  none, some, ltb, ◌==◌, if◌then◌else◌,
}
use bravo_finder.Double.{Double, zero_of, no_bearing}
use bravo_finder.Graph.Options.{QueueNode}

-- `std::vector::resize`.
unfoldable pub resize {ℓ} : {A : Type ℓ} → ℕ → A → List A → List A
resize n d xs = take n xs ++ replicate (n - length xs) d

module _ (D : Double) where
  open D use {Carrier, infinity}

  pub record SearchWorkspace : Type 0 where
    pub g : List Carrier
    pub geo : List Carrier
    pub prev : List (Option ℕ)
    pub inbound : List Carrier
    pub stamp : List ℕ
    pub closed_stamp : List ℕ
    pub heap : List (QueueNode D)
    pub generation : ℕ

  unfoldable pub new_workspace : SearchWorkspace
  new_workspace = record {
    g = [];
    geo = [];
    prev = [];
    inbound = [];
    stamp = [];
    closed_stamp = [];
    heap = [];
    generation = 0;
  }

  unfoldable pub reset : ℕ → SearchWorkspace → SearchWorkspace
  unfolding resize
  reset n ws =
      if ltb (length ws.stamp) n
      then record ws {
        g = resize n (zero_of D) ws.g;
        geo = resize n (zero_of D) ws.geo;
        prev = resize n (some 0) ws.prev;
        inbound = resize n (zero_of D) ws.inbound;
        stamp = resize n 0 ws.stamp;
        closed_stamp = resize n 0 ws.closed_stamp;
      }
      else ws

  unfoldable pub next_generation : SearchWorkspace → SearchWorkspace
  next_generation ws = record ws { generation = (ws.generation + 1) % 2 ^ 32 }

  unfoldable pub live : SearchWorkspace → ℕ → Bool
  live ws v = get_or ws.stamp v 0 == ws.generation

  unfoldable pub g_at : SearchWorkspace → ℕ → Carrier
  unfolding live
  g_at ws v = if live ws v then get_or ws.g v (zero_of D) else infinity

  unfoldable pub geo_at : SearchWorkspace → ℕ → Carrier
  unfolding live
  geo_at ws v = if live ws v then get_or ws.geo v (zero_of D) else zero_of D

  unfoldable pub prev_at : SearchWorkspace → ℕ → Option ℕ
  unfolding live
  prev_at ws v = if live ws v then get_or ws.prev v (some 0) else none

  unfoldable pub inbound_at : SearchWorkspace → ℕ → Carrier
  unfolding live
  inbound_at ws v = if live ws v then get_or ws.inbound v (zero_of D) else no_bearing D

  unfoldable pub closed : SearchWorkspace → ℕ → Bool
  closed ws v = get_or ws.closed_stamp v 0 == ws.generation

  unfoldable pub touch : ℕ → SearchWorkspace → SearchWorkspace
  unfolding live
  touch v ws = if live ws v then ws else record ws {
    stamp = set ws.stamp v ws.generation;
    g = set ws.g v infinity;
    geo = set ws.geo v (zero_of D);
    prev = set ws.prev v none;
    inbound = set ws.inbound v (no_bearing D);
  }

  unfoldable pub relax :
      ℕ → Carrier → Carrier → Option ℕ → Carrier → SearchWorkspace → SearchWorkspace
  unfolding touch
  relax v g geo prev inbound ws =
      let ws' = touch v ws in
      record ws' {
        g = set ws'.g v g;
        geo = set ws'.geo v geo;
        prev = set ws'.prev v prev;
        inbound = set ws'.inbound v inbound;
      }

  unfoldable pub mark_closed : ℕ → SearchWorkspace → SearchWorkspace
  mark_closed v ws = record ws { closed_stamp = set ws.closed_stamp v ws.generation }
