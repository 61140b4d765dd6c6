-- ===== src/Graph/Yen/Lists.antt =====
-- Lists of vertices: what the bans of a spur search say of them.
use bravo_finder.Prelude.{
  ℕ, zero, suc, ◌+◌, ◌<◌, ◌≤◌, ◌≡◌, ◌≢◌, refl, sym, ap, subst, ◌∙◌, inl, inr, true, false, ◌||◌,
  List, [], ◌∷◌, ◌++◌, length, take, get_or, Option, none, some, All, Bool-cases, ◌==◌,
  if◌then◌else◌, arith,
}
use bravo_finder.Graph.Options.{is_banned}
use bravo_finder.Graph.Search.Spec.{Nodup}
use bravo_finder.Graph.Yen.{insert_sorted, sort_unique, merge_banned}
use bravo_finder.Graph.Yen.Rounds.{drop_last, shares_root}

is_banned-insert_sorted :
    (v : ℕ) (xs : List ℕ) (w : ℕ) → is_banned (insert_sorted v xs) w ≡ (v == w || is_banned xs w)
unfolding is_banned insert_sorted
is_banned-insert_sorted v [] w = refl
is_banned-insert_sorted v (x ∷ xs) w = ground (arith, is_banned-insert_sorted v xs w)

is_banned-sort_unique : (xs : List ℕ) (w : ℕ) → is_banned (sort_unique xs) w ≡ is_banned xs w
unfolding is_banned sort_unique
is_banned-sort_unique [] w = refl
is_banned-sort_unique (x ∷ xs) w =
    is_banned-insert_sorted x (sort_unique xs) w
    ∙ ap (λ b. x == w || b) (is_banned-sort_unique xs w)

pub is_banned-append :
    (xs ys : List ℕ) (w : ℕ) → is_banned (xs ++ ys) w ≡ (is_banned xs w || is_banned ys w)
unfolding is_banned
is_banned-append [] ys w = refl
is_banned-append (x ∷ xs) ys w = ground (arith, is_banned-append xs ys w)

-- What a spur search may enter is not among the bans of its own.
pub merge_banned-own :
    (caller : Option (List ℕ)) (yen : List ℕ) (w : ℕ)
    → is_banned (merge_banned caller yen) w ≡ false
    → is_banned yen w ≡ false
unfolding merge_banned
merge_banned-own none yen w h = sym (is_banned-sort_unique yen w) ∙ h
merge_banned-own (some caller) yen w h =
    ground (arith, is_banned-sort_unique (caller ++ yen) w, is_banned-append caller yen w, h)

pub is_banned-All : (xs : List ℕ) (w : ℕ) → is_banned xs w ≡ false → All (λ x. x ≢ w) xs
unfolding is_banned
is_banned-All [] w h = tt
is_banned-All (x ∷ xs) w h = (ground (arith, h), is_banned-All xs w (ground (arith, h)))

pub All-is_banned : (xs : List ℕ) (w : ℕ) → All (λ x. w ≢ x) xs → is_banned xs w ≡ false
unfolding is_banned
All-is_banned [] w h = refl
All-is_banned (x ∷ xs) w h = ground (arith, h.0, All-is_banned xs w h.1)

-- `v` is in front of `ys` and comes after nothing it equals.
pub Nodup-append :
    (xs ys : List ℕ) → Nodup xs → Nodup ys → All (λ y. is_banned xs y ≡ false) ys → Nodup (xs ++ ys)
Nodup-append [] ys p q h = q
Nodup-append (x ∷ xs) ys p q h =
    (both xs ys p.0 (others ys h), Nodup-append xs ys p.1 q (rest ys h))
  where
    others : (zs : List ℕ) → All (λ y. is_banned (x ∷ xs) y ≡ false) zs → All (λ y. y ≢ x) zs
    others [] k = tt
    others (z ∷ zs) k = ((λ e. (is_banned-All (x ∷ xs) z k.0).0 (sym e)), others zs k.1)

    rest :
        (zs : List ℕ)
        → All (λ y. is_banned (x ∷ xs) y ≡ false) zs
        → All (λ y. is_banned xs y ≡ false) zs
    rest [] k = tt
    rest (z ∷ zs) k = (unfold is_banned in ground (arith, k.0), rest zs k.1)

    both :
        (ps bs : List ℕ) → All (λ w. w ≢ x) ps → All (λ y. y ≢ x) bs → All (λ w. w ≢ x) (ps ++ bs)
    both [] bs i j = j
    both (a ∷ ps) bs i j = (i.0, both ps bs i.1 j)

-- A list without repetition splits into such lists, and the vertex between them is not before itself.
pub Nodup-split :
    (xs : List ℕ) (v : ℕ) (ys : List ℕ)
    → Nodup (xs ++ (v ∷ ys))
    → Nodup xs × (is_banned xs v ≡ false)
unfolding is_banned
Nodup-split [] v ys h = (tt, refl)
Nodup-split (x ∷ xs) v ys h =
    let (p, b) = Nodup-split xs v ys h.1 in ((left xs h.0, p), ground (arith, b, at xs h.0))
  where
    left : (ps : List ℕ) → All (λ w. w ≢ x) (ps ++ (v ∷ ys)) → All (λ w. w ≢ x) ps
    left [] i = tt
    left (a ∷ ps) i = (i.0, left ps i.1)

    at : (ps : List ℕ) → All (λ w. w ≢ x) (ps ++ (v ∷ ys)) → v ≢ x
    at [] i = i.0
    at (a ∷ ps) i = at ps i.1

-- A path cut behind its `i`-th vertex.
pub record Cut (i : ℕ) (path : List ℕ) : Type 0 where
  pub pre : List ℕ
  pub v : ℕ
  pub post : List ℕ
  pub whole : path ≡ pre ++ (v ∷ post)
  pub size : length pre ≡ i
  pub root : take (suc i) path ≡ pre ++ (v ∷ [])
  pub before : drop_last (take (suc i) path) ≡ pre
  pub at : get_or path i 0 ≡ v

pub drop_last-append : (xs : List ℕ) (v : ℕ) → drop_last (xs ++ (v ∷ [])) ≡ xs
unfolding drop_last
drop_last-append [] v = refl
drop_last-append (x ∷ []) v = refl
drop_last-append (x ∷ y ∷ xs) v = ap (◌∷◌ x) (drop_last-append (y ∷ xs) v)

pub cut : (i : ℕ) (path : List ℕ) → i < length path → Cut i path
cut i [] h = absurd (omega arith)
cut zero (v ∷ vs) h = record {
  pre = [];
  v = v;
  post = vs;
  whole = refl;
  size = refl;
  root = refl;
  before = unfold drop_last in refl;
  at = refl;
}
cut (suc i) (v ∷ vs) h =
    let c = cut i vs (omega arith) in
    let root : take (suc (suc i)) (v ∷ vs) ≡ v ∷ (c.pre ++ (c.v ∷ [])) = ap (◌∷◌ v) c.root in
    record {
      pre = v ∷ c.pre;
      v = c.v;
      post = c.post;
      whole = ap (◌∷◌ v) c.whole;
      size = ap suc c.size;
      root = root;
      before = ap drop_last root ∙ drop_last-append (v ∷ c.pre) c.v;
      at = c.at;
    }

pub shares_root-append : (root more : List ℕ) → shares_root root (root ++ more) ≡ true
unfolding shares_root
shares_root-append [] more = refl
shares_root-append (r ∷ root) more = ground (arith, shares_root-append root more)

pub get_or-append_here :
    (xs : List ℕ) (v : ℕ) (ys : List ℕ) → get_or (xs ++ (v ∷ ys)) (length xs) 0 ≡ v
get_or-append_here [] v ys = refl
get_or-append_here (x ∷ xs) v ys = get_or-append_here xs v ys

-- Pigeonholes.
without : ℕ → List ℕ → List ℕ
without m [] = []
without m (x ∷ xs) = let rest = without m xs in if x == m then xs else x ∷ rest

without-length : (m : ℕ) (xs : List ℕ) → length xs ≤ length (without m xs) + 1
unfolding without
without-length m [] = omega arith
without-length m (x ∷ xs) = ground (arith, without-length m xs)

without-All : (P : ℕ → Type 0) (m : ℕ) (xs : List ℕ) → All P xs → All P (without m xs)
unfolding without
without-All P m [] h = tt
without-All P m (x ∷ xs) h = elim (Bool-cases (x == m)) [
  | inl here ↦ rw here h.1
  | inr other ↦ rw other (h.0, without-All P m xs h.1)
]

without-Nodup : (m : ℕ) (xs : List ℕ) → Nodup xs → Nodup (without m xs)
unfolding without
without-Nodup m [] h = tt
without-Nodup m (x ∷ xs) h = elim (Bool-cases (x == m)) [
  | inl here ↦ rw here h.1
  | inr other ↦ rw other (without-All (λ w. w ≢ x) m xs h.0, without-Nodup m xs h.1)
]

without-ne : (m : ℕ) (xs : List ℕ) → Nodup xs → All (λ x. x ≢ m) (without m xs)
unfolding without
without-ne m [] h = tt
without-ne m (x ∷ xs) h = elim (Bool-cases (x == m)) [
  | inl here ↦ let e : x ≡ m = ground arith in rw here (subst (λ k. All (λ w. w ≢ k) xs) e h.0)
  | inr other ↦ rw other (ground arith, without-ne m xs h.1)
]

-- A list of numbers below `n` without repetition has at most `n` elements.
pub Nodup-length : (n : ℕ) (xs : List ℕ) → Nodup xs → All (λ x. x < n) xs → length xs ≤ n
Nodup-length zero [] h b = omega arith
Nodup-length zero (x ∷ xs) h b = absurd (omega (arith, b.0))
Nodup-length (suc n) xs h b =
    let less =
      Nodup-length n (without n xs) (without-Nodup n xs h)
        (narrower (without n xs) (without-All (λ x. x < suc n) n xs b) (without-ne n xs h)) in
    omega (arith, less, without-length n xs)
  where
    narrower : (ys : List ℕ) → All (λ x. x < suc n) ys → All (λ x. x ≢ n) ys → All (λ x. x < n) ys
    narrower [] p q = tt
    narrower (y ∷ ys) p q = (omega (arith, p.0, q.0), narrower ys p.1 q.1)
