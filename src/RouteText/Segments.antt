-- ===== src/RouteText/Segments.antt =====
-- What the cut of a text at its separators gives, and that it undoes a join.
use bravo_finder.Prelude.{
  ℕ, ◌≤◌, ◌≡◌, refl, sym, ap, ◌∙◌, inl, inr, Bool, true, false, List, [], ◌∷◌, ◌++◌, map, suc,
  length, All, Bool-cases, ◌==◌, Bytes, arith,
}
use mathlib.Core.Path.{ap₂}
use mathlib.Core.List.{append_assoc, append-nil}
use bravo_finder.RouteText.{
  segments, is_dash, is_space, to_upper, split_designators, tokenize_route,
}

module _ (sep : ℕ → Bool) where
  abbrev pub Plain : Bytes → Type 0
  Plain s = All (λ c. sep c ≡ false) s

  -- A run: not empty, without a separator.
  pub record IsRun (s : Bytes) : Type 0 where
    pub nonempty : 1 ≤ length s
    pub plain : Plain s

  Plain-append : (s : Bytes) (c : ℕ) → Plain s → sep c ≡ false → Plain (s ++ (c ∷ []))
  Plain-append [] c h p = (p, tt)
  Plain-append (x ∷ s) c h p = (h.0, Plain-append s c h.1 p)

  pub segments-All : (current text : Bytes) → Plain current → All IsRun (segments sep current text)
  unfolding segments
  segments-All current [] h = elim (Bool-cases (length current == 0)) [
    | inl empty ↦ rw empty tt
    | inr some_bytes ↦
        rw some_bytes (record { nonempty = ground (arith, some_bytes); plain = h }, tt)
  ]
  segments-All current (c ∷ cs) h = elim (Bool-cases (sep c)) [
    | inl cut ↦ elim (Bool-cases (length current == 0)) [
      | inl empty ↦ rw (cut, empty) (segments-All [] cs tt)
      | inr some_bytes ↦
          rw (cut, some_bytes)
            (record { nonempty = ground (arith, some_bytes); plain = h }, segments-All [] cs tt)
    ]
    | inr on ↦ rw on (segments-All (current ++ (c ∷ [])) cs (Plain-append current c h on))
  ]

  -- A run is read whole.
  segments-append :
      (current s rest : Bytes)
      → Plain s
      → segments sep current (s ++ rest) ≡ segments sep (current ++ s) rest
  unfolding segments
  segments-append current [] rest h = ap (λ t. segments sep t rest) (sym (append-nil current))
  segments-append current (c ∷ s) rest h = rw h.0 (
      segments-append (current ++ (c ∷ [])) s rest h.1
      ∙ ap (λ t. segments sep t rest) (append_assoc current (c ∷ []) s))

  -- A join with one separator between each two.
  unfoldable pub join : ℕ → List Bytes → Bytes
  join d [] = []
  join d (s ∷ []) = s
  join d (s ∷ t ∷ ss) = s ++ (d ∷ join d (t ∷ ss))

  pub segments-join :
      (d : ℕ) (ss : List Bytes) → sep d ≡ true → All IsRun ss → segments sep [] (join d ss) ≡ ss
  unfolding segments join
  segments-join d [] cut h = refl
  segments-join d (s ∷ []) cut h =
      let filled : (length s == 0) ≡ false = ground (arith, h.0.nonempty) in
      ap (segments sep []) (sym (append-nil s)) ∙ segments-append [] s [] h.0.plain ∙ rw filled refl
  segments-join d (s ∷ t ∷ ss) cut h =
      let filled : (length s == 0) ≡ false = ground (arith, h.0.nonempty) in
      segments-append [] s (d ∷ join d (t ∷ ss)) h.0.plain
      ∙ rw (cut, filled) (ap (◌∷◌ s) (segments-join d (t ∷ ss) cut h.1))

-- Designators that are not empty and have no hyphen come back, all and in order, from the field that
-- joins them by hyphens; and from whatever field, only such designators come.
pub split_designators-join :
    (ss : List Bytes) (via : Bytes)
    → All (IsRun is_dash) ss
    → (split_designators (join is_dash 45 ss) ≡ ss) × All (IsRun is_dash) (split_designators via)
unfolding split_designators
split_designators-join ss via h =
    (segments-join is_dash 45 ss refl h, segments-All is_dash [] via tt)

abbrev pub IsUpper : Bytes → Type 0
IsUpper s = All (λ c. to_upper c ≡ c) s

map-IsUpper : (s : Bytes) → IsUpper s → map to_upper s ≡ s
map-IsUpper [] h = refl
map-IsUpper (c ∷ s) h = ap₂ ◌∷◌ h.0 (map-IsUpper s h.1)

map-All-IsUpper : (ss : List Bytes) → All IsUpper ss → map (map to_upper) ss ≡ ss
map-All-IsUpper [] h = refl
map-All-IsUpper (s ∷ ss) h = ap₂ ◌∷◌ (map-IsUpper s h.0) (map-All-IsUpper ss h.1)

to_upper-space : (c : ℕ) → is_space c ≡ false → is_space (to_upper c) ≡ false
unfolding to_upper
to_upper-space c h = ground (arith, h)

to_upper-twice : (c : ℕ) → to_upper (to_upper c) ≡ to_upper c
unfolding to_upper
to_upper-twice c = ground arith

map-Plain :
    (s : Bytes) → Plain is_space s → Plain is_space (map to_upper s) × IsUpper (map to_upper s)
map-Plain [] h = (tt, tt)
map-Plain (c ∷ s) h =
    let (plain, upper) = map-Plain s h.1 in
    ((to_upper-space c h.0, plain), (to_upper-twice c, upper))

-- A token: a run without white space, in upper case.
pub record IsToken (s : Bytes) : Type 0 where
  pub run : IsRun is_space s
  pub upper : IsUpper s

map-IsRun : (s : Bytes) → IsRun is_space s → IsToken (map to_upper s)
map-IsRun s h =
    let (plain, upper) = map-Plain s h.plain in
    record {
      run = record { nonempty = omega (arith, h.nonempty, length-upper s); plain = plain };
      upper = upper;
    }
  where
    length-upper : (t : Bytes) → length (map to_upper t) ≡ length t
    length-upper [] = refl
    length-upper (c ∷ t) = ap suc (length-upper t)

map-All-IsRun : (ss : List Bytes) → All (IsRun is_space) ss → All IsToken (map (map to_upper) ss)
map-All-IsRun [] h = tt
map-All-IsRun (s ∷ ss) h = (map-IsRun s h.0, map-All-IsRun ss h.1)

runs_of : (ss : List Bytes) → All IsToken ss → All (IsRun is_space) ss × All IsUpper ss
runs_of [] h = (tt, tt)
runs_of (s ∷ ss) h = let (a, b) = runs_of ss h.1 in ((h.0.run, a), (h.0.upper, b))

-- Tokens, which are not empty, have no white space and no lower-case letter, come back, all and in
-- order, from the route that joins them by spaces; and from whatever text, only such tokens come.
pub tokenize_route-join :
    (ts : List Bytes) (text : Bytes)
    → All IsToken ts
    → (tokenize_route (join is_space 32 ts) ≡ ts) × All IsToken (tokenize_route text)
unfolding tokenize_route
tokenize_route-join ts text h =
    let (runs, upper) = runs_of ts h in
    (
      ap (map (map to_upper)) (segments-join is_space 32 ts refl runs) ∙ map-All-IsUpper ts upper,
      map-All-IsRun (segments is_space [] text) (segments-All is_space [] text tt),
    )
