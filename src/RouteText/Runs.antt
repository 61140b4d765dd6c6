-- ===== src/RouteText/Runs.antt =====
-- A route over two legs that share an airway, and a direct one.
use bravo_finder.Prelude.{ℕ, ◌+◌, ◌≤◌, ◌≡◌, refl, List, [], ◌∷◌, ◌++◌, All, Bytes, bytes_of, arith}
use bravo_finder.Prelude.Int.{pos}
use bravo_finder.RouteText.{
  RouteLeg, build_route_string, split_designators, tokenize_route, is_dash, is_space,
}
use bravo_finder.RouteText.Segments.{
  IsRun, IsToken, join, split_designators-join, tokenize_route-join,
}
use bravo_finder.RouteText.Labels.{AllLabelled, build_route_string-AllLabelled}
use bravo_finder.Graph.Runs.{whole}

abbrev leg : Bytes → Bytes → Bytes → RouteLeg whole
leg from to via = record {
  from = from;
  to = to;
  via = via;
  distance_nm = pos 10;
  concurrent_airways = [];
}

abbrev three_legs : List (RouteLeg whole)
three_legs =
    leg (bytes_of "AAA") (bytes_of "BBB") (bytes_of "A593-Y592")
    ∷ leg (bytes_of "BBB") (bytes_of "CCC") (bytes_of "Y592-Z1")
    ∷ leg (bytes_of "CCC") (bytes_of "DDD") (bytes_of "DCT")
    ∷ []

abbrev text : Bytes
text = (build_route_string whole (bytes_of "AAA") three_legs).0

build_route_string-AllLabelled_example :
    AllLabelled whole three_legs (build_route_string whole (bytes_of "AAA") three_legs).1
build_route_string-AllLabelled_example =
    build_route_string-AllLabelled whole (bytes_of "AAA") three_legs

-- The shared airway is chosen for both of its legs.
folded : text ≡ bytes_of "AAA Y592 CCC DCT DDD"
unfolding bravo_finder.RouteText.segments bravo_finder.RouteText.to_upper
    bravo_finder.RouteText.is_in bravo_finder.RouteText.intersect bravo_finder.RouteText.first_of
    bravo_finder.RouteText.grow bravo_finder.RouteText.relabel bravo_finder.RouteText.stand_alone
    bravo_finder.RouteText.last_to bravo_finder.RouteText.fold_legs build_route_string
    split_designators bravo_finder.Prelude.bytes_eq
folded = refl

abbrev two_names : List Bytes
two_names = bytes_of "A593" ∷ bytes_of "Y592" ∷ []

split_designators-join_example :
    (split_designators (join is_dash 45 two_names) ≡ two_names)
    × All (IsRun is_dash) (split_designators (bytes_of "-A1--B2"))
split_designators-join_example = split_designators-join two_names (bytes_of "-A1--B2") (
  record { nonempty = omega arith; plain = (refl, (refl, (refl, (refl, tt)))) },
  (record { nonempty = omega arith; plain = (refl, (refl, (refl, (refl, tt)))) }, tt),
)

abbrev two_tokens : List Bytes
two_tokens = bytes_of "AAA" ∷ bytes_of "Y5" ∷ []

two_tokens-All : All IsToken two_tokens
unfolding bravo_finder.RouteText.to_upper
two_tokens-All = (
  record {
    run = record { nonempty = omega arith; plain = (refl, (refl, (refl, tt))) };
    upper = (refl, (refl, (refl, tt)));
  },
  (
    record {
      run = record { nonempty = omega arith; plain = (refl, (refl, tt)) };
      upper = (refl, (refl, tt));
    },
    tt,
  ),
)

tokenize_route-join_example :
    (tokenize_route (join is_space 32 two_tokens) ≡ two_tokens)
    × All IsToken (tokenize_route (bytes_of " aaa  y5"))
tokenize_route-join_example = tokenize_route-join two_tokens (bytes_of " aaa  y5") two_tokens-All
