-- ===== src/ByteIo/Interning.antt =====
-- The string pool against `resolve_ref`: what was interned can be resolved, then and later.
use mathlib.Core.List.{append-nil, append_assoc}
use native.Mathlib.Nat.{mod-eq_of_lt}
use bravo_finder.Prelude.{
  ℕ, ◌+◌, ◌-◌, ◌%◌, ◌^◌, ◌≤◌, ◌<◌, ◌≡◌, refl, sym, ap, subst, ◌∙◌, ◌↔◌, inl, inr, true, List, [],
  ◌∷◌, ◌++◌, Option, none, some, length, length-append, length-take, length-drop, take, drop,
  drop-append, All, Bytes, bytes_eq, bytes_eq→eq, bytes_eq_refl, Bool-cases, arith,
}
use bravo_finder.ByteIo.Reader.{resolve_ref}
use bravo_finder.ByteIo.Pool.{Ref, StringPool, find_ref, intern, add}
use bravo_finder.ByteIo.Safety.{take-drop-append}

-- A reference resolves with no error exactly when its range lies in the blob, and exactly when its
-- text has the length it names, its offset is in the blob and its length does not pass the blob's
-- end.
pub resolve_ref_bounds :
    (pool : Bytes) (offset len : ℕ)
    → (((resolve_ref pool offset len true).1 ≡ true) ↔ (offset + len ≤ length pool))
      × (((resolve_ref pool offset len true).1 ≡ true)
          ↔ (length (resolve_ref pool offset len true).0 ≡ len)
            × (offset ≤ length pool)
            × (len ≤ length pool - offset))
unfolding resolve_ref
resolve_ref_bounds pool offset len =
    ground (arith, length-take len (drop offset pool), length-drop offset pool)

abbrev pub Resolves : Bytes → Ref → Bytes → Type 0
Resolves blob ref s = resolve_ref blob ref.offset ref.len true ≡ (s, true)

-- Text behind the blob does not disturb a reference into it.
pub Resolves-append :
    (blob more s : Bytes) (ref : Ref) → Resolves blob ref s → Resolves (blob ++ more) ref s
unfolding resolve_ref
Resolves-append blob more s ref h =
    ground (arith, length-append blob more, take-drop-append ref.len ref.offset blob more)

Resolves-last :
    (blob s : Bytes) → Resolves (blob ++ s) (record { offset = length blob; len = length s }) s
unfolding resolve_ref
Resolves-last blob s =
    let tail : take (length s) (drop (length blob) (blob ++ s)) ≡ s =
      ap (take (length s)) (drop-append blob s) ∙ take-all s in
    ground (arith, length-append blob s, tail)
  where
    take-all : (xs : Bytes) → take (length xs) xs ≡ xs
    take-all [] = refl
    take-all (x ∷ xs) = ap (◌∷◌ x) (take-all xs)

-- Every interned string resolves to itself.
abbrev pub IsPooled : StringPool → Type 0
IsPooled p = All (λ (e : Bytes × Ref). Resolves p.blob e.1 e.0) p.interned

find_ref-Resolves :
    (blob s : Bytes) (m : List (Bytes × Ref)) (ref : Ref)
    → All (λ (e : Bytes × Ref). Resolves blob e.1 e.0) m
    → find_ref s m ≡ some ref
    → Resolves blob ref s
unfolding find_ref
find_ref-Resolves blob s [] ref h e = cc
find_ref-Resolves blob s ((t, other) ∷ m) ref h e = elim (Bool-cases (bytes_eq t s)) [
  | inl hit ↦
      let same : other ≡ ref = ground arith in
      subst (λ (r : Ref). Resolves blob r s) same
        (subst (Resolves blob other) (bytes_eq→eq t s hit) h.0)
  | inr miss ↦ find_ref-Resolves blob s m ref h.1 (ground arith)
]

Resolves-append-All :
    (blob more : Bytes) (m : List (Bytes × Ref))
    → All (λ (e : Bytes × Ref). Resolves blob e.1 e.0) m
    → All (λ (e : Bytes × Ref). Resolves (blob ++ more) e.1 e.0) m
Resolves-append-All blob more [] h = tt
Resolves-append-All blob more ((t, ref) ∷ m) h =
    (Resolves-append blob more t ref h.0, Resolves-append-All blob more m h.1)

-- What `add` promises: the blob only grows at its end, the returned reference resolves to the
-- string, and the pool stays well formed.
pub record Added (p : StringPool) (s : Bytes) (r : Ref × StringPool) : Type 0 where
  pub tail : Bytes
  pub grown : r.1.blob ≡ p.blob ++ tail
  pub found : Resolves r.1.blob r.0 s
  pub pooled : IsPooled r.1

intern-Added :
    (s : Bytes) (p : StringPool) (o : Option Ref)
    → find_ref s p.interned ≡ o
    → IsPooled p
    → length (intern s p o).1.blob < 2 ^ 32
    → Added p s (intern s p o)
unfolding intern
intern-Added s p (some ref) e h small = record {
  tail = [];
  grown = sym (append-nil p.blob);
  found = find_ref-Resolves p.blob s p.interned ref h e;
  pooled = h;
}
intern-Added s p none e h small =
    let here : Resolves (p.blob ++ s)
        (record { offset = length p.blob % 2 ^ 32; len = length s % 2 ^ 32 }) s =
      rw
        (
          mod-eq_of_lt {n = length p.blob} {m = 2 ^ 32} (omega (arith, length-append p.blob s)),
          mod-eq_of_lt {n = length s} {m = 2 ^ 32} (omega (arith, length-append p.blob s)),
        )
        (Resolves-last p.blob s) in
    record {
      tail = s;
      grown = refl;
      found = here;
      pooled = (here, Resolves-append-All p.blob s p.interned h);
    }

pub add-Added :
    (s : Bytes) (p : StringPool)
    → IsPooled p
    → length (add s p).1.blob < 2 ^ 32
    → Added p s (add s p)
unfolding add
add-Added s p h small = intern-Added s p (find_ref s p.interned) refl h small

intern_again :
    (s : Bytes) (p : StringPool) (o : Option Ref)
    → find_ref s p.interned ≡ o
    → add s (intern s p o).1 ≡ intern s p o
unfolding add intern find_ref
intern_again s p (some ref) e = rw (e, intern) refl
intern_again s p none e = rw (bytes_eq_refl s) refl

-- Adding a string a second time gives the same reference and changes nothing.
pub add-add : (s : Bytes) (p : StringPool) → add s (add s p).1 ≡ add s p
unfolding add
add-add s p = intern_again s p (find_ref s p.interned) refl

-- One after the other, as a codec interns the strings of its section.
unfoldable pub add_all : List Bytes → StringPool → List Ref × StringPool
add_all [] p = ([], p)
add_all (s ∷ ss) p = let (ref, q) = add s p in let (refs, last) = add_all ss q in (ref ∷ refs, last)

abbrev pub ResolveAll : Bytes → List Ref → List Bytes → Type 0
ResolveAll blob [] [] = Unit {0}
ResolveAll blob [] (s ∷ ss) = ⊥
ResolveAll blob (r ∷ rs) [] = ⊥
ResolveAll blob (r ∷ rs) (s ∷ ss) = Resolves blob r s × ResolveAll blob rs ss

intern_grows :
    (s : Bytes) (p : StringPool) (o : Option Ref) → length p.blob ≤ length (intern s p o).1.blob
unfolding intern
intern_grows s p (some ref) = omega arith
intern_grows s p none = omega (arith, length-append p.blob s)

add_all_grows : (ss : List Bytes) (p : StringPool) → length p.blob ≤ length (add_all ss p).1.blob
unfolding add_all add
add_all_grows [] p = omega arith
add_all_grows (s ∷ ss) p =
    omega (arith, intern_grows s p (find_ref s p.interned), add_all_grows ss (add s p).1)

-- What a whole section's references mean in the blob that is written at the end.
pub record AddedAll (p : StringPool) (ss : List Bytes) (r : List Ref × StringPool) : Type 0 where
  pub tail : Bytes
  pub grown : r.1.blob ≡ p.blob ++ tail
  pub found : ResolveAll r.1.blob r.0 ss
  pub pooled : IsPooled r.1

-- Whatever strings are interned one after the other into a well-formed pool, every reference that
-- was handed out resolves to its string in the final blob, the blob has only grown at its end, and
-- the pool is well formed, as long as the final blob is shorter than 2 ^ 32 bytes.
pub add_all-AddedAll :
    (ss : List Bytes) (p : StringPool)
    → IsPooled p
    → length (add_all ss p).1.blob < 2 ^ 32
    → AddedAll p ss (add_all ss p)
unfolding add_all
add_all-AddedAll [] p h small = record {
  tail = [];
  grown = sym (append-nil p.blob);
  found = tt;
  pooled = h;
}
add_all-AddedAll (s ∷ ss) p h small =
    let one = add-Added s p h (omega (arith, add_all_grows ss (add s p).1)) in
    let rest = add_all-AddedAll ss (add s p).1 one.pooled small in
    record {
      tail = one.tail ++ rest.tail;
      grown =
          rest.grown
          ∙ ap (λ bs. bs ++ rest.tail) one.grown
          ∙ append_assoc p.blob one.tail rest.tail;
      found = (
        subst (λ (bs : Bytes). Resolves bs (add s p).0 s) (sym rest.grown)
            (Resolves-append (add s p).1.blob rest.tail s (add s p).0 one.found),
        rest.found,
      );
      pooled = rest.pooled;
    }
