-- ===== src/Graph/Options/Keys.antt =====
-- The keys of the edge filter.
use native.Mathlib.Nat.{mod-eq_of_lt}
use bravo_finder.Prelude.{ℕ, ◌+◌, ◌*◌, ◌^◌, ◌<◌, ◌≡◌, ap, ◌∙◌, bit_or, arith}
use bravo_finder.Prelude.Bits.{bit_or_comm, bit_or_disjoint}
use bravo_finder.Graph.Options.{edge_key}

edge_key-sum : (from to : ℕ) → to < 2 ^ 32 → edge_key from to ≡ to + from * 2 ^ 32
unfolding edge_key
edge_key-sum from to h =
    ap (bit_or (from * 2 ^ 32)) (mod-eq_of_lt h)
    ∙ bit_or_comm (from * 2 ^ 32) to
    ∙ bit_or_disjoint 32 to from h

-- Two edges whose ends are below 2 ^ 32 have one key only if they are one edge.
pub edge_key-injective :
    (from to from' to' : ℕ)
    → to < 2 ^ 32
    → to' < 2 ^ 32
    → edge_key from to ≡ edge_key from' to'
    → (from ≡ from') × (to ≡ to')
edge_key-injective from to from' to' h h' e =
    let sum = edge_key-sum from to h in
    let sum' = edge_key-sum from' to' h' in
    (omega (arith, sum, sum', e, h, h'), omega (arith, sum, sum', e, h, h'))
