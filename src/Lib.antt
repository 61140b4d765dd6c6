-- ===== src/Lib.antt =====
-- BravoFinder plans routes on a graph of airways. This library models the engine's core under
-- libs/engine: its byte formats, its small fixed-size types, its altitude grid and its search.
--
-- Parts and files:
--   Prelude            numbers, lists, bytes, integers and the lemmas that the parts share
--   ByteIo             io/cache/byte_io.h: ByteWriter (Writer), ByteReader and ResolveRef (Reader),
--                      StringPool (Pool), and the laws of reads after writes
--   Result             core/result.h
--   FixedString        core/domain/fixed_string.h and ident.h
--   MoraGrid           core/domain/mora_grid.h
--   Double             `double`, a parameter of every definition that computes with it
--   Coordinate         core/domain/coordinate.h and coordinate.cc
--   Graph.Nav          core/graph/nav_graph.h, core/routing/route_request.h, core/constraints/constraint.h
--   Graph.Options      filters, turn penalty, endpoints and queue nodes of core/graph/astar.h
--   Graph.Workspace    SearchWorkspace of astar.h
--   Graph.Select       EdgeAllowed and SelectEdge of core/graph/astar.cc
--   Graph.Tables       BuildSeedTable, BuildBearingTable and MultiGoalHeuristic
--   Graph.Constraints  altitude_constraints.h, avoid_waypoint_constraint.h and airway_rule_constraint.h
--                      of core/constraints
--   Graph.Search       FindShortestPathMulti and FindShortestPath; its Spec says what a path is to be,
--                      with no queue and no workspace, and its other modules prove the search
--                      against it: Routes and Invariant (the arrays), Seeding, Edges, Steps and Rounds
--                      (the loops), Progress (the measure), Goals (the table of the goals) and
--                      Answers (the whole)
--   Graph.Yen          core/graph/yen_kshortest.cc: the price of a path and the candidates; Rounds has the
--                      spur searches and the loop over them, Lists, Forward, Candidates, Spurs,
--                      Detours and Steps what one spur leaves, and Paths the whole
--   GraphCodec         io/cache/graph_snapshot.h and graph_codec.cc: Encode and Decode, what both of
--                      them check (Consistency, Soundness, Acceptance; Records for the reads), and
--                      the graph part of FromSnapshot in io/build/graph_builder.cc (Searchable)
--   Inventory          io/cache/bfdb_naming.cc (Naming, Names) and bfdb_inventory.cc (Scan, Winners,
--                      Choices)
--   Crc                io/cache/crc32c.h
--   RouteText          core/routing/route_string.cc, route_metrics.h and the tokenizer of
--                      route_parser.cc
--   Procedure          core/domain/procedure.h and procedure.cc
-- A function of the source keeps its name in lower case with underscores. An object that a method
-- changes is an argument and a result. A buffer is a list of bytes, each a number; the bits of a
-- float are a number. `size_t` sums wrap at 2 ^ 64, other unsigned values at their own width.
--
-- The codecs of the sections call the writer field by field and the reader in the same order; a sequence of
-- fields stands for any such codec. The graph gives each vertex its edges by offsets into one array.
-- The search keeps its state in a workspace that outlives it, and asks the constraints for a verdict
-- on each edge. Its loops take fuel: one step for each source, for each edge and one to find the
-- queue empty, since a vertex is expanded once and an edge makes one queue entry at most.
--
-- Outside the model: logging, file access, the loaders of third-party data, the HTTP server and the
-- applications, which are input and output; the section codecs other than the
-- graph's, the routers above the search, `MoraAt` of the grid, the constraints of mora_constraint.h and
-- randomize_constraint.h, and `ParseRouteTypeToken`. The heap functions of <algorithm> and the
-- arithmetic of `double` are parameters.
pub mod Prelude
pub mod ByteIo
pub mod Result
pub mod FixedString
pub mod MoraGrid
pub mod Double
pub mod Coordinate
pub mod Graph
pub mod GraphCodec
pub mod Inventory
pub mod RouteText
pub mod Crc
pub mod Procedure
