-- ===== src/ByteIo/Safety.antt =====
-- Reads over arbitrary input, well formed or not.
use bravo_finder.Prelude.{
  ℕ, zero, suc, ◌+◌, ◌*◌, ◌%◌, ◌^◌, ◌≤◌, ◌<◌, ◌≡◌, refl, sym, ap, subst, ◌∙◌, ◌≢◌, true, false,
  List, [], ◌∷◌, ◌++◌, map, length, length-append, get_or, take, drop, bit_or, All, Bytes, arith,
}
use bravo_finder.ByteIo.Reader.{
  ByteReader, Read, ◌>>=◌, give, start, past_end, remaining, read_u8, read_u16, read_bytes_into,
  read_u32, read_u64, read_i16, read_i32, read_f32, read_f64, str_body, read_str, to_signed,
}
use bravo_finder.ByteIo.Sequences.{
  Field, Kind, kind_of, Fits, read_field, read_fields, read_fields-write_fields, write_fields,
}
use bravo_finder.ByteIo.Writer.{ByteWriter}

-- The cursor is inside the buffer, and the buffer is of a size that an object can have.
pub record IsSane (r : ByteReader) : Type 0 where
  pub inside : r.pos ≤ length r.bytes
  pub small : length r.bytes < 2 ^ 63

-- `r'` comes after `r`: the same buffer, a cursor that did not go back or out, a flag that did not
-- come back.
pub record Later (r r' : ByteReader) : Type 0 where
  pub same : r'.bytes ≡ r.bytes
  pub onward : r.pos ≤ r'.pos
  pub inside : r'.pos ≤ length r.bytes
  pub sticky : r'.ok ≡ true → r.ok ≡ true

abbrev pub widen : ByteReader → Bytes → ByteReader
widen r more = record r { bytes = r.bytes ++ more }

-- A read is well behaved: it moves on within the buffer, and where it reports no error it does not
-- depend on what lies behind the buffer's end.
pub record IsSound {A : Type 0} (m : Read A) : Type 0 where
  pub later : (r : ByteReader) → IsSane r → Later r (m r).1
  pub local :
      (r : ByteReader) (more : Bytes)
      → IsSane r
      → length (r.bytes ++ more) < 2 ^ 63
      → (m r).1.ok ≡ true
      → m (widen r more) ≡ ((m r).0, widen (m r).1 more)

get_or-append : (xs ys : Bytes) (i : ℕ) → i < length xs → get_or (xs ++ ys) i 0 ≡ get_or xs i 0
get_or-append [] ys i h = elim h [ ]
get_or-append (x ∷ xs) ys zero h = refl
get_or-append (x ∷ xs) ys (suc i) h = get_or-append xs ys i (omega arith)

pub take-drop-append :
    (n i : ℕ) (xs ys : Bytes) → i + n ≤ length xs → take n (drop i (xs ++ ys)) ≡ take n (drop i xs)
take-drop-append zero zero xs ys h = refl
take-drop-append (suc n) zero [] ys h = absurd (omega arith)
take-drop-append (suc n) zero (x ∷ xs) ys h =
    ap (◌∷◌ x) (take-drop-append n zero xs ys (omega arith))
take-drop-append zero (suc i) [] ys h = refl
take-drop-append (suc n) (suc i) [] ys h = absurd (omega arith)
take-drop-append n (suc i) (x ∷ xs) ys h = take-drop-append n i xs ys (omega arith)

pub Later-IsSane : {r r' : ByteReader} → IsSane r → Later r r' → IsSane r'
Later-IsSane {r'} s l = record {
  inside = subst (λ (bs : Bytes). r'.pos ≤ length bs) (sym l.same) l.inside;
  small = subst (λ (bs : Bytes). length bs < 2 ^ 63) (sym l.same) s.small;
}

pub Later-trans : {a b c : ByteReader} → Later a b → Later b c → Later a c
Later-trans {a} {b} {c} p q = record {
  same = q.same ∙ p.same;
  onward = omega (arith, p.onward, q.onward);
  inside = subst (λ (bs : Bytes). c.pos ≤ length bs) p.same q.inside;
  sticky = λ e. p.sticky (q.sticky e);
}

pub give-IsSound : {A : Type 0} (x : A) → IsSound (give x)
give-IsSound x = record {
  later = λ r s. record { same = refl; onward = omega arith; inside = s.inside; sticky = λ e. e };
  local = λ r more s h e. refl;
}

pub bind-IsSound :
    {A B : Type 0} (m : Read A) (f : A → Read B)
    → IsSound m
    → ((a : A) → IsSound (f a))
    → IsSound (m >>= f)
bind-IsSound m f p q = record {
  later = λ r s.
      let first = p.later r s in
      Later-trans first ((q (m r).0).later (m r).1 (Later-IsSane s first));
  local = λ r more s h e.
      let first = p.later r s in
      let sane = Later-IsSane s first in
      let kept = ((q (m r).0).later (m r).1 sane).sticky e in
      let fits : length ((m r).1.bytes ++ more) < 2 ^ 63 =
        subst (λ (bs : Bytes). length (bs ++ more) < 2 ^ 63) (sym first.same) h in
      ap (λ p. f p.0 p.1) (p.local r more s h kept) ∙ (q (m r).0).local (m r).1 more sane fits e;
}

pub read_u8-IsSound : IsSound read_u8
unfolding read_u8 past_end
read_u8-IsSound = record {
  later = λ r s. record {
    same = ground arith;
    onward = ground arith;
    inside = ground (arith, s.inside, s.small);
    sticky = λ e. ground arith;
  };
  local = λ r more s h e.
      ground
        (arith, s.inside, s.small, length-append r.bytes more, get_or-append r.bytes more r.pos);
}

pub read_bytes_into-IsSound : (w n i v : ℕ) → IsSound (read_bytes_into w n i v)
unfolding read_bytes_into
read_bytes_into-IsSound w zero i v = give-IsSound v
read_bytes_into-IsSound w (suc n) i v =
    bind-IsSound read_u8 (λ b. read_bytes_into w n (i + 1) (bit_or v (b * 2 ^ (8 * i) % 2 ^ w)))
      read_u8-IsSound (λ b. read_bytes_into-IsSound w n (i + 1) _)

str_body-IsSound : (len : ℕ) → IsSound (str_body len)
unfolding str_body remaining
str_body-IsSound len = record {
  later = λ r s. record {
    same = ground arith;
    onward = ground arith;
    inside = ground (arith, s.inside);
    sticky = λ e. ground arith;
  };
  local = λ r more s h e.
      ground (arith, s.inside, length-append r.bytes more, take-drop-append len r.pos r.bytes more);
}

module _ {A B : Type 0} where
  pub map-IsSound : (m : Read A) (f : A → B) → IsSound m → IsSound (m >>= (λ a. give (f a)))
  map-IsSound m f p = bind-IsSound m (λ a. give (f a)) p (λ a. give-IsSound (f a))

pub read_u16-IsSound : IsSound read_u16
unfolding read_u16
read_u16-IsSound =
    bind-IsSound read_u8 (λ lo. read_u8 >>= (λ hi. give (bit_or lo (hi * 2 ^ 8) % 2 ^ 16)))
      read_u8-IsSound
      (λ lo. map-IsSound read_u8 (λ hi. bit_or lo (hi * 2 ^ 8) % 2 ^ 16) read_u8-IsSound)

read_str-IsSound : IsSound read_str
unfolding read_str read_u32
read_str-IsSound =
    bind-IsSound read_u32 str_body (read_bytes_into-IsSound 32 4 0 0) str_body-IsSound

read_field-IsSound : (k : Kind) → IsSound (read_field k)
unfolding read_field read_u32 read_u64 read_i16 read_i32 read_f32 read_f64
read_field-IsSound Kind.u8 = map-IsSound read_u8 Field.u8 read_u8-IsSound
read_field-IsSound Kind.u16 = map-IsSound read_u16 Field.u16 read_u16-IsSound
read_field-IsSound Kind.u32 = map-IsSound read_u32 Field.u32 (read_bytes_into-IsSound 32 4 0 0)
read_field-IsSound Kind.u64 = map-IsSound read_u64 Field.u64 (read_bytes_into-IsSound 64 8 0 0)
read_field-IsSound Kind.f32 = map-IsSound read_f32 Field.f32 (read_bytes_into-IsSound 32 4 0 0)
read_field-IsSound Kind.f64 = map-IsSound read_f64 Field.f64 (read_bytes_into-IsSound 64 8 0 0)
read_field-IsSound Kind.i16 =
    map-IsSound read_i16 Field.i16 (map-IsSound read_u16 (to_signed (2 ^ 16)) read_u16-IsSound)
read_field-IsSound Kind.i32 =
    map-IsSound read_i32 Field.i32
      (map-IsSound read_u32 (to_signed (2 ^ 32)) (read_bytes_into-IsSound 32 4 0 0))
read_field-IsSound Kind.str = map-IsSound read_str Field.str read_str-IsSound

-- Any sequence of field reads is well behaved.
pub read_fields-IsSound : (ks : List Kind) → IsSound (read_fields ks)
unfolding read_fields
read_fields-IsSound [] = give-IsSound []
read_fields-IsSound (k ∷ ks) =
    bind-IsSound (read_field k) (λ f. read_fields ks >>= (λ fs. give (f ∷ fs)))
      (read_field-IsSound k)
      (λ f. map-IsSound (read_fields ks) (λ fs. f ∷ fs) (read_fields-IsSound ks))

-- Any sequence of field reads, from any reader inside its buffer and whatever the bytes are, keeps
-- the buffer, does not move the cursor back or out of the buffer, and never clears an error.
pub read_fields-Later : (ks : List Kind) (r : ByteReader) → IsSane r → Later r (read_fields ks r).1
read_fields-Later ks r s = (read_fields-IsSound ks).later r s

-- Where a sequence of field reads, from any reader inside its buffer, reports no error, the values
-- and the cursor are the same whatever more bytes follow the buffer, up to 2 ^ 63 bytes in all.
pub read_fields-widen :
    (ks : List Kind) (r : ByteReader) (more : Bytes)
    → IsSane r
    → length (r.bytes ++ more) < 2 ^ 63
    → (read_fields ks r).1.ok ≡ true
    → read_fields ks (widen r more) ≡ ((read_fields ks r).0, widen (read_fields ks r).1 more)
read_fields-widen ks r more s small good = (read_fields-IsSound ks).local r more s small good

-- A read that used up a buffer and more does not succeed on the buffer alone.
overrun :
    {A : Type 0} (m : Read A) (front more : Bytes)
    → IsSound m
    → length (front ++ more) < 2 ^ 63
    → (m (start (front ++ more))).1.ok ≡ true
    → remaining (m (start (front ++ more))).1 ≡ 0
    → 0 < length more
    → (m (start front)).1.ok ≢ true
unfolding start remaining
overrun m front more p h ok used some_more good =
    let sane : IsSane (start front) = record {
      inside = omega arith;
      small = omega (arith, length-append front more);
    } in
    let late = p.later (start front) sane in
    let whole = p.local (start front) more sane h good in
    let all_read = subst (λ q. remaining q.1 ≡ 0) whole used in
    let bytes_eq = ap (λ (bs : Bytes). length (bs ++ more)) late.same in
    absurd (ground (arith, late.inside, length-append front more))

-- A buffer that was cut short is noticed: reading the fields that were written back from a proper
-- prefix of what was written sets the error flag, wherever the cut is. The fields are in the range
-- of their types, and what was written is shorter than 2 ^ 63 bytes.
pub read_fields-truncated :
    (fs : List Field) (w : ByteWriter) (front : Bytes) (b : ℕ) (back : Bytes)
    → w.out ≡ []
    → All Fits fs
    → length (write_fields fs w).out < 2 ^ 63
    → (write_fields fs w).out ≡ front ++ (b ∷ back)
    → (read_fields (map kind_of fs) (start front)).1.ok ≡ false
read_fields-truncated fs w front b back e fits small cut =
    let (values, ok, used, _) = read_fields-write_fields fs w e fits small in
    let m = read_fields (map kind_of fs) in
    let bad =
      overrun m front (b ∷ back) (read_fields-IsSound (map kind_of fs))
        (subst (λ (bs : Bytes). length bs < 2 ^ 63) cut small)
        (subst (λ (bs : Bytes). (m (start bs)).1.ok ≡ true) cut ok)
        (subst (λ (bs : Bytes). remaining (m (start bs)).1 ≡ 0) cut used) (omega arith) in
    ground (arith, bad)
