-- ===== src/FixedString/Ident/Laws.antt =====
-- Packing, equality and order of `FixedIdent`.
use Prim.Native.Nat.{Ordering}
use mathlib.Core.Path.{ap₂}
use bravo_finder.Prelude.{
  ℕ, ◌%◌, ◌≤◌, ◌<◌, ◌≡◌, ◌↔◌, ◌≢◌, refl, sym, ap, subst, ◌∙◌, ◌⊎◌, inl, inr, Bool, true, false,
  ◌&&◌, ◌||◌, ltb, length, take, min, replicate, Bool-cases, bytes_eq, bytes_eq→eq, bytes_eq_refl,
  arith,
}
use bravo_finder.Result.{ok, err, invalid_argument, ident_too_long, icao_code_too_long}
use bravo_finder.FixedString.Memory.{
  memcmp, memcpy, ne_zero, lt_zero, lex_lt, memcmp-eq, memcmp-lex_lt,
}
use bravo_finder.FixedString.Name.Laws.{same_length, packed_view}
use bravo_finder.FixedString.Ident.{
  Ident, FixedIdent, ident_view, icao_code_view, fixed_eq, fixed_lt, from_parts, from_ident,
  to_ident,
}

pub record IsPacked (f : FixedIdent) : Type 0 where
  pub ident_fits : f.ident_len ≤ length f.ident
  pub icao_fits : f.arinc424_icao_code_len ≤ length f.arinc424_icao_code

-- Order by the identifier, then by the region.
pub ident_lt : Ident → Ident → Bool
ident_lt a b =
    lex_lt a.ident b.ident
    || (bytes_eq a.ident b.ident && lex_lt a.arinc424_icao_code b.arinc424_icao_code)

fixed_eq_iff :
    (f o : FixedIdent) → IsPacked f → IsPacked o → (fixed_eq f o ≡ true) ↔ (to_ident f ≡ to_ident o)
unfolding fixed_eq to_ident ident_view icao_code_view ne_zero
fixed_eq_iff f o p q = (
  λ e.
      let lens : f.ident_len ≡ o.ident_len = ground arith in
      let lens' : f.arinc424_icao_code_len ≡ o.arinc424_icao_code_len = ground arith in
      let same = memcmp-eq f.ident_len f.ident o.ident p.ident_fits (omega (arith, q.ident_fits)) in
      let same' =
        memcmp-eq f.arinc424_icao_code_len f.arinc424_icao_code o.arinc424_icao_code p.icao_fits
          (omega (arith, q.icao_fits)) in
      let left = same.0 (ground arith) ∙ ap (λ (n : ℕ). take n o.ident) lens in
      let right = same'.0 (ground arith) ∙ ap (λ (n : ℕ). take n o.arinc424_icao_code) lens' in
      λ i. record { ident = left i; arinc424_icao_code = right i },
  λ e.
      let left = ap (λ (x : Ident). x.ident) e in
      let right = ap (λ (x : Ident). x.arinc424_icao_code) e in
      let lens =
        same_length f.ident_len o.ident_len f.ident o.ident p.ident_fits q.ident_fits left in
      let lens' =
        same_length f.arinc424_icao_code_len o.arinc424_icao_code_len f.arinc424_icao_code
          o.arinc424_icao_code p.icao_fits q.icao_fits right in
      let same = memcmp-eq f.ident_len f.ident o.ident p.ident_fits (omega (arith, q.ident_fits)) in
      let same' =
        memcmp-eq f.arinc424_icao_code_len f.arinc424_icao_code o.arinc424_icao_code p.icao_fits
          (omega (arith, q.icao_fits)) in
      let c = same.1 (left ∙ ap (λ (n : ℕ). take n o.ident) (sym lens)) in
      let c' = same'.1 (right ∙ ap (λ (n : ℕ). take n o.arinc424_icao_code) (sym lens')) in
      ground arith,
)

-- Equal identifiers have one length, and their common prefix compares equal.
same_view :
    (f o : FixedIdent)
    → IsPacked f
    → IsPacked o
    → ident_view f ≡ ident_view o
    → (f.ident_len ≡ o.ident_len)
      × (memcmp (min f.ident_len o.ident_len) f.ident o.ident ≡ Ordering.eq)
unfolding ident_view
same_view f o p q e =
    let lens = same_length f.ident_len o.ident_len f.ident o.ident p.ident_fits q.ident_fits e in
    let least : min f.ident_len o.ident_len ≡ f.ident_len = omega arith in
    let same = memcmp-eq f.ident_len f.ident o.ident p.ident_fits (omega (arith, q.ident_fits)) in
    (lens, rw least (same.1 (e ∙ ap (λ (n : ℕ). take n o.ident) (sym lens))))

differ_view :
    (f o : FixedIdent)
    → IsPacked f
    → IsPacked o
    → bytes_eq (ident_view f) (ident_view o) ≡ false
    → memcmp (min f.ident_len o.ident_len) f.ident o.ident ≡ Ordering.eq
    → f.ident_len ≢ o.ident_len
unfolding ident_view
differ_view f o p q e c lens =
    let least : min f.ident_len o.ident_len ≡ f.ident_len = omega arith in
    let same = memcmp-eq f.ident_len f.ident o.ident p.ident_fits (omega (arith, q.ident_fits)) in
    let view = same.0 (rw (← least) c) ∙ ap (λ (n : ℕ). take n o.ident) lens in
    cc (view, bytes_eq_refl (take f.ident_len f.ident))

fixed_lt-ident_lt :
    (f o : FixedIdent) → IsPacked f → IsPacked o → fixed_lt f o ≡ ident_lt (to_ident f) (to_ident o)
unfolding fixed_lt ident_lt to_ident ident_view icao_code_view ne_zero lt_zero
fixed_lt-ident_lt f o p q =
    let by_ident =
      memcmp-lex_lt f.ident_len o.ident_len f.ident o.ident p.ident_fits q.ident_fits in
    let by_icao =
      memcmp-lex_lt f.arinc424_icao_code_len o.arinc424_icao_code_len f.arinc424_icao_code
        o.arinc424_icao_code p.icao_fits q.icao_fits in
    elim (Bool-cases (bytes_eq (ident_view f) (ident_view o))) [
      | inl same ↦
          let (lens, c) = same_view f o p q (bytes_eq→eq _ _ same) in
          ground (arith, by_ident, by_icao, c, lens)
      | inr differ ↦ ground (arith, by_ident, by_icao, differ_view f o p q differ)
    ]

-- A point packs exactly when its identifier has at most 7 characters and its region code at most 3,
-- and it unpacks to itself. A longer identifier is refused, and then a longer region code, each
-- with the text, its length and the capacity for the message.
pub from_ident_total :
    (id : Ident)
    → ((length id.ident ≤ 7)
        × (length id.arinc424_icao_code ≤ 3)
        × ((f : FixedIdent) × (from_ident id ≡ ok f) × (to_ident f ≡ id) × IsPacked f))
      ⊎ ((7 < length id.ident)
          × (from_ident id
              ≡ err (record {
                code = invalid_argument;
                message = ident_too_long id.ident (length id.ident) 7;
              })))
      ⊎ ((length id.ident ≤ 7)
          × (3 < length id.arinc424_icao_code)
          × (from_ident id
              ≡ err (record {
                code = invalid_argument;
                message = icao_code_too_long id.arinc424_icao_code (length id.arinc424_icao_code) 3;
              })))
unfolding from_ident from_parts to_ident ident_view icao_code_view
from_ident_total id = elim (Bool-cases (ltb 7 (length id.ident))) [
  | inl long ↦ inr (inl (ground arith, rw long refl))
  | inr short ↦ elim (Bool-cases (ltb 3 (length id.arinc424_icao_code))) [
    | inl long ↦ inr (inr (ground arith, ground arith, rw (short, long) refl))
    | inr short' ↦
        let fits : length id.ident ≤ 7 = ground arith in
        let fits' : length id.arinc424_icao_code ≤ 3 = ground arith in
        let (view, size, within) = packed_view 7 id.ident fits (omega arith) in
        let (view', size', within') = packed_view 3 id.arinc424_icao_code fits' (omega arith) in
        inl (
          fits,
          fits',
          (
            record {
              ident = memcpy (replicate 7 0) id.ident;
              arinc424_icao_code = memcpy (replicate 3 0) id.arinc424_icao_code;
              ident_len = length id.ident % 256;
              arinc424_icao_code_len = length id.arinc424_icao_code % 256;
            },
            rw (short, short') refl,
            (λ i. record { ident = view i; arinc424_icao_code = view' i }),
            record { ident_fits = rw size within; icao_fits = rw size' within' },
          ),
        )
  ]
]

from_ident-view :
    (id : Ident) (f : FixedIdent) → from_ident id ≡ ok f → (to_ident f ≡ id) × IsPacked f
from_ident-view id f e = elim (from_ident_total id) [
  | inl (_, _, (g, e', v, p)) ↦
      let same : g ≡ f = cc in
      (ap to_ident (sym same) ∙ v, subst (λ (k : FixedIdent). IsPacked k) same p)
  | inr (inl (_, e')) ↦ cc
  | inr (inr (_, _, e')) ↦ cc
]

-- Packed points compare as the points do: `<` orders by the identifier's bytes and then by the
-- region's, lexicographically, and `==` is equality of the points.
pub from_ident-order :
    (a b : Ident) (f o : FixedIdent)
    → from_ident a ≡ ok f
    → from_ident b ≡ ok o
    → (fixed_lt f o ≡ ident_lt a b) × ((fixed_eq f o ≡ true) ↔ (a ≡ b))
from_ident-order a b f o p q =
    let (vf, pf) = from_ident-view a f p in
    let (vo, po) = from_ident-view b o q in
    let (there, back) = fixed_eq_iff f o pf po in
    (
      fixed_lt-ident_lt f o pf po ∙ ap₂ ident_lt vf vo,
      (λ e. sym vf ∙ there e ∙ vo, λ e. back (vf ∙ e ∙ sym vo)),
    )
