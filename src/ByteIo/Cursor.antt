-- ===== src/ByteIo/Cursor.antt =====
-- How a reader stands before bytes still to be read, and rules to compose reads and writes.
use mathlib.Core.List.{append-nil, append_assoc}
use bravo_finder.Prelude.{
  ℕ, ◌+◌, ◌^◌, ◌≤◌, ◌<◌, ◌≡◌, refl, sym, ap, subst, ◌∙◌, true, false, [], ◌∷◌, ◌++◌, some, length,
  length-append, take, drop, take-append, drop-append, drop-drop, get_or-drop, Bytes, arith,
}
use bravo_finder.ByteIo.Writer.{ByteWriter, write_u8}
use bravo_finder.ByteIo.Reader.{ByteReader, Read, ◌>>=◌, give, start, past_end, read_u8, read_bytes}

-- The reader is sound, and `rest` is what it has not read.
pub record Ready (r : ByteReader) (rest : Bytes) : Type 0 where
  pub good : r.ok ≡ true
  pub unread : drop r.pos r.bytes ≡ rest
  pub placed : r.pos + length rest ≡ length r.bytes
  pub small : length r.bytes < 2 ^ 63

-- From a reader before `bs`, the read gives `x` and stops behind them.
abbrev pub Reads : {A : Type 0} → Read A → A → Bytes → Type 0
Reads m x bs =
    (r : ByteReader) (rest : Bytes) → Ready r (bs ++ rest) → ((m r).0 ≡ x) × Ready (m r).1 rest

-- The write appends `bs` and changes nothing else.
abbrev pub Writes : (ByteWriter → ByteWriter) → Bytes → Type 0
Writes op bs = (w : ByteWriter) → op w ≡ record w { out = w.out ++ bs }

pub start-Ready : (bs : Bytes) → length bs < 2 ^ 63 → Ready (start bs) bs
unfolding start
start-Ready bs h = record { good = refl; unread = refl; placed = omega arith; small = h }

pub Writes-nil : Writes (λ w. w) []
Writes-nil w = rw append-nil

pub Writes-then :
    (f g : ByteWriter → ByteWriter) (bs cs : Bytes)
    → Writes f bs
    → Writes g cs
    → Writes (λ w. g (f w)) (bs ++ cs)
Writes-then f g bs cs p q w = rw (p w, q (record w { out = w.out ++ bs })) (rw append_assoc)

pub write_u8-Writes : (v : ℕ) → Writes (write_u8 v) (v ∷ [])
unfolding write_u8
write_u8-Writes v w = refl

pub Reads-give : {A : Type 0} (x : A) → Reads (give x) x []
Reads-give x r rest h = (refl, h)

module _ {A B : Type 0} where
  -- Reads compose as the bytes before them do.
  pub Reads-bind :
      (m : Read A) (f : A → Read B) (x : A) (y : B) (bs cs : Bytes)
      → Reads m x bs
      → Reads (f x) y cs
      → Reads (m >>= f) y (bs ++ cs)
  Reads-bind m f x y bs cs p q r rest h =
      let first = p r (cs ++ rest) (subst (Ready r) (append_assoc bs cs rest) h) in
      subst (λ (a : A). ((f a (m r).1).0 ≡ y) × Ready (f a (m r).1).1 rest) (sym first.0)
        (q (m r).1 rest first.1)

  -- A read whose value is passed through a function.
  pub Reads-map :
      (m : Read A) (f : A → B) (x : A) (y : B) (bs : Bytes)
      → Reads m x bs
      → f x ≡ y
      → Reads (m >>= (λ a. give (f a))) y bs
  Reads-map m f x y bs p e r rest h = let first = p r rest h in (ap f first.0 ∙ e, first.1)

pub past_end-Ready :
    (n : ℕ) (r : ByteReader) (rest : Bytes) → Ready r rest → n ≤ length rest → past_end n r ≡ false
unfolding past_end
past_end-Ready n r rest h le = ground (arith, h.placed, h.small)

-- Moving the cursor over `bs`.
pub advance-Ready :
    (r : ByteReader) (bs rest : Bytes)
    → Ready r (bs ++ rest)
    → Ready (record r { pos = r.pos + length bs }) rest
advance-Ready r bs rest h = record {
  good = h.good;
  unread =
      sym (drop-drop r.pos (length bs) r.bytes)
      ∙ ap (drop (length bs)) h.unread
      ∙ drop-append bs rest;
  placed = omega (arith, h.placed, length-append bs rest);
  small = h.small;
}

pub read_u8-Reads : (b : ℕ) → Reads read_u8 b (b ∷ [])
unfolding read_u8
read_u8-Reads b r rest h =
    rw (past_end-Ready 1 r (b ∷ rest) h (omega arith))
      (get_or-drop r.bytes r.pos 0 b rest h.unread, advance-Ready r (b ∷ []) rest h)

pub read_bytes-Reads : (bs : Bytes) → Reads (read_bytes (length bs)) (some bs) bs
unfolding read_bytes
read_bytes-Reads bs r rest h =
    rw (past_end-Ready (length bs) r (bs ++ rest) h (omega (arith, length-append bs rest)))
      (ap some (ap (take (length bs)) h.unread ∙ take-append bs rest), advance-Ready r bs rest h)
