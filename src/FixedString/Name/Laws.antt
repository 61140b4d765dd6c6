-- ===== src/FixedString/Name/Laws.antt =====
-- Packing, equality and order of `FixedName`, for every capacity that a length byte can hold.
use Prim.Native.Nat.{Ordering}
use mathlib.Core.Path.{ap₂}
use native.Mathlib.Decide.{dec_lt}
use native.Mathlib.Nat.{mod-eq_of_lt}
use bravo_finder.Prelude.{
  ℕ, ◌-◌, ◌%◌, ◌≤◌, ◌<◌, ◌≡◌, ◌↔◌, refl, sym, ap, subst, ◌∙◌, ◌⊎◌, inl, inr, true, ltb, length,
  length-append, length-drop, length-replicate, length-take, take, take-append, drop, replicate,
  Bytes, Bool-cases, arith,
}
use bravo_finder.Result.{ok, err, invalid_argument, name_too_long}
use bravo_finder.FixedString.Memory.{memcmp, memcpy, ne_zero, lex_lt, memcmp-eq, memcmp-lex_lt}
use bravo_finder.FixedString.Name.{FixedName, view, name_lt, name_eq, from}

-- The length byte does not pass the array's end.
abbrev pub IsPacked : FixedName → Type 0
IsPacked f = f.len ≤ length f.text

pub name_lt-lex_lt :
    (f o : FixedName) → IsPacked f → IsPacked o → name_lt f o ≡ lex_lt (view f) (view o)
unfolding name_lt view
name_lt-lex_lt f o p q = memcmp-lex_lt f.len o.len f.text o.text p q

pub same_length :
    (m n : ℕ) (xs ys : Bytes) → m ≤ length xs → n ≤ length ys → take m xs ≡ take n ys → m ≡ n
same_length m n xs ys p q e = omega (arith, ap length e, length-take m xs, length-take n ys)

-- Two names are equal exactly when their views are.
pub name_eq_iff :
    (f o : FixedName) → IsPacked f → IsPacked o → (name_eq f o ≡ true) ↔ (view f ≡ view o)
unfolding name_eq view ne_zero
name_eq_iff f o p q = (
  λ e.
      let lens : f.len ≡ o.len = ground arith in
      let prefix = memcmp-eq f.len f.text o.text p (omega arith) in
      let same : memcmp f.len f.text o.text ≡ Ordering.eq = ground arith in
      prefix.0 same ∙ ap (λ (n : ℕ). take n o.text) lens,
  λ e.
      let lens : f.len ≡ o.len = same_length f.len o.len f.text o.text p q e in
      let prefix = memcmp-eq f.len f.text o.text p (omega arith) in
      let same = prefix.1 (e ∙ ap (λ (n : ℕ). take n o.text) (sym lens)) in
      ground (arith, same, lens),
)

-- The characters that `memcpy` put at the front of a zeroed array.
pub packed_view :
    (room : ℕ) (s : Bytes)
    → length s ≤ room
    → room < 256
    → (take (length s % 256) (memcpy (replicate room 0) s) ≡ s)
      × (length (memcpy (replicate room 0) s) ≡ room)
      × (length s % 256 ≤ room)
unfolding memcpy
packed_view room s h small =
    let e : length s % 256 ≡ length s = mod-eq_of_lt (omega arith) in
    rw e (
      take-append s _,
      omega (
        arith,
        length-append s (drop (length s) (replicate room 0)),
        length-drop {A = ℕ} (length s) (replicate room 0),
        length-replicate {A = ℕ} room 0,
      ),
      h,
    )

-- The capacity is `N - 1` and is counted in a byte. A text that fits packs into an array of that
-- size, and its view is the text; a longer one is refused, with the text, its length and the
-- capacity for the message.
pub from_total :
    (n : ℕ) (s : Bytes)
    → n ≤ 256
    → (((length s ≤ n - 1)
          × ((f : FixedName) × (from n s ≡ ok f)
              × (view f ≡ s)
              × (length f.text ≡ n - 1)
              × IsPacked f))
        ⊎ ((n - 1 < length s)
            × (from n s
                ≡ err (record {
                  code = invalid_argument;
                  message = name_too_long s (length s) (n - 1);
                }))))
unfolding from view
from_total n s small = elim (Bool-cases (ltb (n - 1) (length s))) [
  | inl long ↦ inr (ground arith, rw long refl)
  | inr short ↦
      let fits : length s ≤ n - 1 = ground arith in
      elim (dec_lt (n - 1) 256) [
        | yes below ↦
            let (same, size, within) = packed_view (n - 1) s fits below in
            inl (
              fits,
              (
                record { text = memcpy (replicate (n - 1) 0) s; len = length s % 256 },
                rw short refl,
                same,
                size,
                rw size within,
              ),
            )
        | no above ↦ absurd (omega arith)
      ]
]

from-view :
    (n : ℕ) (s : Bytes) (f : FixedName) → n ≤ 256 → from n s ≡ ok f → (view f ≡ s) × IsPacked f
from-view n s f small e = elim (from_total n s small) [
  | inl (fits, (g, e', v, size, p)) ↦
      let same : g ≡ f = cc in
      (ap view (sym same) ∙ v, subst (λ (k : FixedName). IsPacked k) same p)
  | inr (long, e') ↦ cc
]

-- Names packed from texts compare as the texts do: `<` is the lexicographic order of the bytes, and
-- `==` is equality.
pub from-order :
    (n : ℕ) (s t : Bytes) (f o : FixedName)
    → n ≤ 256
    → from n s ≡ ok f
    → from n t ≡ ok o
    → (name_lt f o ≡ lex_lt s t) × ((name_eq f o ≡ true) ↔ (s ≡ t))
from-order n s t f o small p q =
    let (vf, pf) = from-view n s f small p in
    let (vo, po) = from-view n t o small q in
    let (there, back) = name_eq_iff f o pf po in
    (
      name_lt-lex_lt f o pf po ∙ ap₂ lex_lt vf vo,
      (λ e. sym vf ∙ there e ∙ vo, λ e. back (vf ∙ e ∙ sym vo)),
    )
