-- ===== src/RouteText/Labels.antt =====
-- What `BuildRouteString` does to the legs: it names each after one of its own airways.
use bravo_finder.Prelude.{
  ℕ, zero, suc, ◌≤◌, ◌<◌, ◌≡◌, ◌⊎◌, refl, sym, ap, subst, inl, inr, true, ◌||◌, List, [], ◌∷◌, ◌++◌,
  map, length, length-append, All, Among, Bool-cases, ltb, ◌==◌, Bytes, bytes_of, bytes_eq,
  bytes_eq→eq, arith,
}
use bravo_finder.Double.{Double}
use bravo_finder.RouteText.{
  split_designators, is_in, intersect, dct_token, first_of, RouteLeg, Group, grow, relabel,
  stand_alone, last_to, fold_legs, build_route_string,
}

abbrev Within : List Bytes → List Bytes → Type 0
Within xs ys = All (λ s. Among s ys) xs

All-Among : (P : Bytes → Type 0) (s : Bytes) (xs : List Bytes) → Among s xs → All P xs → P s
All-Among P s [] m h = elim m [ ]
All-Among P s (x ∷ xs) (inl e) h = subst P (sym e) h.0
All-Among P s (x ∷ xs) (inr m) h = All-Among P s xs m h.1

Within-trans : (xs ys zs : List Bytes) → Within xs ys → Within ys zs → Within xs zs
Within-trans [] ys zs h k = tt
Within-trans (x ∷ xs) ys zs h k =
    (All-Among (λ s. Among s zs) x ys h.0 k, Within-trans xs ys zs h.1 k)

Within-more : (xs ys : List Bytes) (y : Bytes) → Within xs ys → Within xs (y ∷ ys)
Within-more [] ys y h = tt
Within-more (x ∷ xs) ys y h = (inr h.0, Within-more xs ys y h.1)

Within_refl : (xs : List Bytes) → Within xs xs
Within_refl [] = tt
Within_refl (x ∷ xs) = (inl refl, Within-more xs xs x (Within_refl xs))

is_in-Among : (s : Bytes) (xs : List Bytes) → is_in s xs ≡ true → Among s xs
unfolding is_in
is_in-Among s [] h = cc
is_in-Among s (x ∷ xs) h = elim (Bool-cases (bytes_eq x s)) [
  | inl here ↦ inl (sym (bytes_eq→eq x s here))
  | inr later ↦ inr (is_in-Among s xs (ground (arith, h, later)))
]

intersect-Within : (a b : List Bytes) → Within (intersect a b) a × Within (intersect a b) b
unfolding intersect
intersect-Within [] b = (tt, tt)
intersect-Within (s ∷ a) b =
    let (left, right) = intersect-Within a b in
    elim (Bool-cases (is_in s b)) [
      | inl both ↦
          rw both ((inl refl, Within-more (intersect a b) a s left), (is_in-Among s b both, right))
      | inr other ↦ rw other (Within-more (intersect a b) a s left, right)
    ]

first_of-All : (P : Bytes → Type 0) (xs : List Bytes) → 1 ≤ length xs → All P xs → P (first_of xs)
unfolding first_of
first_of-All P [] h p = absurd (omega (arith, h))
first_of-All P (x ∷ xs) h p = p.0

module _ (D : Double) where
  -- What a group is: its names are among the names at its start and among those of each of its legs.
  record IsGroup (running : List Bytes) (legs : List (RouteLeg D)) (g : Group D) : Type 0 where
    some_name : 1 ≤ length g.running
    kept : Within g.running running
    shared : All (λ (leg : RouteLeg D). Within g.running (split_designators leg.via)) g.taken
    cut : legs ≡ g.taken ++ g.left

  grow-IsGroup :
      (running : List Bytes) (legs : List (RouteLeg D))
      → 1 ≤ length running
      → IsGroup running legs (grow D running legs)
  unfolding grow
  grow-IsGroup running [] h = record {
    some_name = h;
    kept = Within_refl running;
    shared = tt;
    cut = refl;
  }
  grow-IsGroup running (leg ∷ legs) h =
      let names = split_designators leg.via in
      let inter = intersect running names in
      elim (Bool-cases (bytes_eq leg.via dct_token || length inter == 0)) [
        | inl stop ↦
            rw stop (record { some_name = h; kept = Within_refl running; shared = tt; cut = refl })
        | inr go ↦
            let g = grow-IsGroup inter legs (ground (arith, go)) in
            let (left, right) = intersect-Within running names in
            rw go (record {
              some_name = g.some_name;
              kept = Within-trans (grow D inter legs).running inter running g.kept left;
              shared =
                  (Within-trans (grow D inter legs).running inter names g.kept right, g.shared);
              cut = ap (◌∷◌ leg) g.cut;
            })
      ]

  -- A leg and what becomes of it: the same piece of the way, under the name of one of its airways,
  -- or, as a leg off the airways, under its own. All the airways that share it are listed if there
  -- are two or more, and none if there are not.
  pub record Labelled (leg leg' : RouteLeg D) : Type 0 where
    pub from : leg'.from ≡ leg.from
    pub to : leg'.to ≡ leg.to
    pub distance : leg'.distance_nm ≡ leg.distance_nm
    pub name :
        Among leg'.via (split_designators leg.via)
        ⊎ ((leg'.via ≡ leg.via)
            × ((bytes_eq leg.via dct_token || length (split_designators leg.via) == 0) ≡ true))
    pub concurrent :
        ((1 < length (split_designators leg.via))
          × (leg'.concurrent_airways ≡ split_designators leg.via))
        ⊎ ((length (split_designators leg.via) ≤ 1) × (leg'.concurrent_airways ≡ []))

  abbrev pub AllLabelled : List (RouteLeg D) → List (RouteLeg D) → Type 0
  AllLabelled [] [] = Unit {0}
  AllLabelled [] (y ∷ ys) = ⊥
  AllLabelled (x ∷ xs) [] = ⊥
  AllLabelled (x ∷ xs) (y ∷ ys) = Labelled x y × AllLabelled xs ys

  AllLabelled-append :
      (xs xs' ys ys' : List (RouteLeg D))
      → AllLabelled xs ys
      → AllLabelled xs' ys'
      → AllLabelled (xs ++ xs') (ys ++ ys')
  AllLabelled-append [] xs' [] ys' h k = k
  AllLabelled-append [] xs' (y ∷ ys) ys' h k = elim h [ ]
  AllLabelled-append (x ∷ xs) xs' [] ys' h k = elim h [ ]
  AllLabelled-append (x ∷ xs) xs' (y ∷ ys) ys' h k = (h.0, AllLabelled-append xs xs' ys ys' h.1 k)

  -- A leg off the airways lists one name at most.
  off-single :
      (via : Bytes)
      → (bytes_eq via dct_token || length (split_designators via) == 0) ≡ true
      → length (split_designators via) ≤ 1
  off-single via off = elim (Bool-cases (bytes_eq via dct_token)) [
    | inl direct ↦
        let one : length (split_designators dct_token) ≡ 1 =
          unfold split_designators bravo_finder.RouteText.segments in refl in
        rw (bytes_eq→eq via dct_token direct) (omega (arith, one))
    | inr airway ↦ ground (arith, off, airway)
  ]

  relabel-Labelled :
      (chosen : Bytes) (leg : RouteLeg D)
      → Among chosen (split_designators leg.via)
      → Labelled leg (relabel D chosen leg)
  unfolding relabel
  relabel-Labelled chosen leg m = record {
    from = refl;
    to = refl;
    distance = refl;
    name = inl m;
    concurrent = elim (Bool-cases (ltb 1 (length (split_designators leg.via)))) [
      | inl more ↦ inl (ground (arith, more), rw more refl)
      | inr one ↦ inr (ground (arith, one), rw one refl)
    ];
  }

  relabel-All :
      (names : List Bytes) (legs : List (RouteLeg D))
      → 1 ≤ length names
      → All (λ (leg : RouteLeg D). Within names (split_designators leg.via)) legs
      → AllLabelled legs (map (relabel D (first_of names)) legs)
  relabel-All names [] h k = tt
  relabel-All names (leg ∷ legs) h k = (
    relabel-Labelled (first_of names) leg
        (first_of-All (λ s. Among s (split_designators leg.via)) names h k.0),
    relabel-All names legs h k.1,
  )

  fold_legs-AllLabelled :
      (fuel : ℕ) (rs : Bytes) (legs : List (RouteLeg D))
      → length legs ≤ fuel
      → AllLabelled legs (fold_legs D fuel rs legs).1
  unfolding fold_legs stand_alone
  fold_legs-AllLabelled zero rs [] h = tt
  fold_legs-AllLabelled (suc fuel) rs [] h = tt
  fold_legs-AllLabelled zero rs (leg ∷ legs) h = absurd (omega (arith, h))
  fold_legs-AllLabelled (suc fuel) rs (leg ∷ legs) h =
      let names = split_designators leg.via in
      elim (Bool-cases (bytes_eq leg.via dct_token || length names == 0)) [
        | inl off ↦ rw off (
          record {
            from = refl;
            to = refl;
            distance = refl;
            name = inr (refl, off);
            concurrent = inr (off-single leg.via off, refl);
          },
          fold_legs-AllLabelled fuel _ legs (omega (arith, h)),
        )
        | inr on ↦
            let g = grow-IsGroup names legs (ground (arith, on)) in
            let grown = grow D names legs in
            let fewer : length grown.left ≤ fuel =
              omega (arith, h, ap length g.cut, length-append grown.taken grown.left) in
            let chosen = first_of grown.running in
            let text =
              rs ++ (bytes_of " " ++ (chosen ++ (bytes_of " " ++ last_to D leg grown.taken))) in
            let renamed = map (relabel D chosen) (leg ∷ grown.taken) in
            let after = (fold_legs D fuel text grown.left).1 in
            let group =
              relabel-All grown.running (leg ∷ grown.taken) g.some_name (g.kept, g.shared) in
            let all =
              AllLabelled-append (leg ∷ grown.taken) grown.left renamed after group
                (fold_legs-AllLabelled fuel text grown.left fewer) in
            rw on (subst (λ ls. AllLabelled (leg ∷ ls) (renamed ++ after)) (sym g.cut) all)
      ]

  -- The text of a route leaves the number, the order, the ends and the lengths of its legs as they
  -- are, and names each leg after one of the airways that its field lists; a direct leg, or one whose
  -- field lists none, keeps its name. A leg whose field lists two airways or more gets exactly their
  -- list as its concurrent airways, and any other leg gets none.
  pub build_route_string-AllLabelled :
      (first_point : Bytes) (legs : List (RouteLeg D))
      → AllLabelled legs (build_route_string D first_point legs).1
  unfolding build_route_string
  build_route_string-AllLabelled first_point legs =
      fold_legs-AllLabelled (length legs) first_point legs (omega arith)
