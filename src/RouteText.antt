-- ===== src/RouteText.antt =====
-- The text of a route: libs/engine/core/routing/route_string.cc and the tokenizer of route_parser.cc.
pub mod Segments
pub mod Labels
pub mod Runs
use bravo_finder.Prelude.{
  ℕ, zero, suc, ◌+◌, ◌-◌, Bool, true, false, not, ◌&&◌, ◌||◌, List, [], ◌∷◌, ◌++◌, map, length, ltb,
  leb, ◌==◌, if◌then◌else◌, Bytes, bytes_of, bytes_eq,
}
use bravo_finder.Double.{Double, zero_of}

-- The runs of bytes between separators, without the empty ones; `current` is the run so far. Both
-- loops of the source, which search for the next separator from `start`, cut the text like this.
unfoldable pub segments : (ℕ → Bool) → Bytes → Bytes → List Bytes
segments sep current [] = if length current == 0 then [] else current ∷ []
segments sep current (c ∷ cs) =
    let fresh = segments sep [] cs in
    let longer = segments sep (current ++ (c ∷ [])) cs in
    if sep c then (if length current == 0 then fresh else current ∷ fresh) else longer

abbrev pub is_dash : ℕ → Bool
is_dash c = c == 45

unfoldable pub split_designators : Bytes → List Bytes
unfolding segments
split_designators via = segments is_dash [] via

-- `std::isspace` and `std::toupper` of the C locale.
abbrev pub is_space : ℕ → Bool
is_space c = c == 32 || leb 9 c && leb c 13

unfoldable pub to_upper : ℕ → ℕ
to_upper c = if leb 97 c && leb c 122 then c - 32 else c

unfoldable pub tokenize_route : Bytes → List Bytes
unfolding segments to_upper
tokenize_route route_str = map (map to_upper) (segments is_space [] route_str)

unfoldable pub is_in : Bytes → List Bytes → Bool
is_in s [] = false
is_in s (x ∷ xs) = bytes_eq x s || is_in s xs

unfoldable pub intersect : List Bytes → List Bytes → List Bytes
unfolding is_in
intersect [] b = []
intersect (s ∷ a) b = let rest = intersect a b in if is_in s b then s ∷ rest else rest

abbrev pub dct_token : Bytes
dct_token = bytes_of "DCT"

unfoldable pub first_of : List Bytes → Bytes
first_of [] = []
first_of (s ∷ ss) = s

module _ (D : Double) where
  pub record RouteLeg : Type 0 where
    pub from : Bytes
    pub to : Bytes
    pub via : Bytes
    pub distance_nm : D.Carrier
    pub concurrent_airways : List Bytes

  unfoldable pub running_sums : D.Carrier → List RouteLeg → List D.Carrier
  running_sums running [] = []
  running_sums running (leg ∷ legs) =
      let next = D.add running leg.distance_nm in next ∷ running_sums next legs

  unfoldable pub cumulative_distances : List RouteLeg → List D.Carrier
  unfolding running_sums
  cumulative_distances legs = running_sums (zero_of D) legs

  -- The loop that grows a group: the names that all its legs share, its legs, and the legs after it.
  pub record Group : Type 0 where
    pub running : List Bytes
    pub taken : List RouteLeg
    pub left : List RouteLeg

  unfoldable pub grow : List Bytes → List RouteLeg → Group
  unfolding split_designators intersect
  grow running [] = record { running = running; taken = []; left = [] }
  grow running (leg ∷ legs) =
      let inter = intersect running (split_designators leg.via) in
      let more = grow inter legs in
      if bytes_eq leg.via dct_token || length inter == 0
      then record { running = running; taken = []; left = leg ∷ legs }
      else record more { taken = leg ∷ more.taken }

  -- A leg of a group after its name is chosen, and a leg that is a group boundary.
  unfoldable pub relabel : Bytes → RouteLeg → RouteLeg
  unfolding split_designators
  relabel chosen leg =
      let names = split_designators leg.via in
      record leg { via = chosen; concurrent_airways = if ltb 1 (length names) then names else [] }

  unfoldable pub stand_alone : RouteLeg → RouteLeg
  stand_alone leg = record leg { concurrent_airways = [] }

  unfoldable pub last_to : RouteLeg → List RouteLeg → Bytes
  last_to leg [] = leg.to
  last_to leg (next ∷ legs) = last_to next legs

  -- The main loop; each round takes one leg or more, so the number of legs is enough fuel.
  unfoldable pub fold_legs : ℕ → Bytes → List RouteLeg → Bytes × List RouteLeg
  unfolding grow relabel stand_alone last_to first_of split_designators
  fold_legs fuel rs [] = (rs, [])
  fold_legs zero rs (leg ∷ legs) = (rs, leg ∷ legs)
  fold_legs (suc fuel) rs (leg ∷ legs) =
      let names = split_designators leg.via in
      let alone = fold_legs fuel (rs ++ (bytes_of " DCT " ++ leg.to)) legs in
      let g = grow names legs in
      let chosen = first_of g.running in
      let shared =
        fold_legs fuel (rs ++ (bytes_of " " ++ (chosen ++ (bytes_of " " ++ last_to leg g.taken))))
          g.left in
      if bytes_eq leg.via dct_token || length names == 0
      then (alone.0, stand_alone leg ∷ alone.1)
      else (shared.0, map (relabel chosen) (leg ∷ g.taken) ++ shared.1)

  unfoldable pub build_route_string : Bytes → List RouteLeg → Bytes × List RouteLeg
  unfolding fold_legs
  build_route_string first_point legs = fold_legs (length legs) first_point legs
