-- ===== src/Coordinate.antt =====
-- libs/engine/core/domain/coordinate.h and coordinate.cc: positions on the sphere.
use bravo_finder.Prelude.{if◌then◌else◌}
use bravo_finder.Prelude.Int.{pos}
use bravo_finder.Double.{Double, max_of, zero_of}

module _ (D : Double) where
  open D use {Carrier, lit, add, sub, mul, div, sqrt, sin, cos, atan2, lt}

  pub record Coordinate : Type 0 where
    pub latitude : Carrier
    pub longitude : Carrier

  -- 6371.0088 km in nautical miles of 1.852 km.
  abbrev pub earth_radius_nm : Carrier
  earth_radius_nm = div (lit (pos 63710088) 4) (lit (pos 1852) 3)

  abbrev pub pi : Carrier
  pi = lit (pos 314159265358979323846) 20

  abbrev pub full_circle : Carrier
  full_circle = lit (pos 3600) 1

  abbrev pub half_circle : Carrier
  half_circle = lit (pos 1800) 1

  unfoldable pub to_radians : Carrier → Carrier
  to_radians degrees = div (mul degrees pi) half_circle

  unfoldable pub distance_to : Coordinate → Coordinate → Carrier
  unfolding to_radians max_of
  distance_to here other =
      let lat1 = to_radians here.latitude in
      let lat2 = to_radians other.latitude in
      let d_lat = sub lat2 lat1 in
      let d_lon = to_radians (sub other.longitude here.longitude) in
      let two = lit (pos 20) 1 in
      let sin_lat = sin (div d_lat two) in
      let sin_lon = sin (div d_lon two) in
      let a = add (mul sin_lat sin_lat) (mul (mul (mul (cos lat1) (cos lat2)) sin_lon) sin_lon) in
      let c = mul two (atan2 (sqrt a) (sqrt (max_of D (zero_of D) (sub (lit (pos 10) 1) a)))) in
      mul earth_radius_nm c

  unfoldable pub bearing_to : Coordinate → Coordinate → Carrier
  unfolding to_radians
  bearing_to here other =
      let lat1 = to_radians here.latitude in
      let lat2 = to_radians other.latitude in
      let d_lon = to_radians (sub other.longitude here.longitude) in
      let y = mul (sin d_lon) (cos lat2) in
      let x = sub (mul (cos lat1) (sin lat2)) (mul (mul (sin lat1) (cos lat2)) (cos d_lon)) in
      let deg = div (mul (atan2 y x) half_circle) pi in
      if lt deg (zero_of D) then add deg full_circle else deg
