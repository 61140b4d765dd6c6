-- ===== src/GraphCodec/Records.antt =====
-- The reads of graph_codec.cc over any bytes: where they leave the reader, and how long their arrays
-- are.
use bravo_finder.Prelude.{
  ℕ, zero, suc, ◌+◌, ◌*◌, ◌%◌, ◌^◌, ◌<◌, ◌≤◌, ◌≡◌, refl, ap, ◌∙◌, inl, inr, List, [], ◌∷◌, map,
  length, length-replicate, drop, Bool-cases, ltb, Bytes, arith,
}
use bravo_finder.Prelude.Int.{pos}
use bravo_finder.ByteIo.Reader.{
  ByteReader, Read, ◌>>=◌, give, past_end, read_u8, read_u32, read_i32, read_f64, to_signed, Endian,
  little, big, byte_swap32, memcpy32, swap_if_big, read_i32_span,
}
use bravo_finder.ByteIo.Safety.{
  IsSane, IsSound, give-IsSound, bind-IsSound, map-IsSound, read_u8-IsSound,
  read_bytes_into-IsSound,
}
use bravo_finder.GraphCodec.{flag_has_outbound, flag_has_inbound}
use bravo_finder.GraphCodec.Decode.{
  read_header, read_list, read_ref, read_vertex, or_zeros, flag_set,
}

read_u32-IsSound : IsSound read_u32
unfolding read_u32
read_u32-IsSound = read_bytes_into-IsSound 32 4 0 0

pub read_i32-IsSound : IsSound read_i32
unfolding read_i32
read_i32-IsSound = map-IsSound read_u32 (to_signed (2 ^ 32)) read_u32-IsSound

read_f64-IsSound : IsSound read_f64
unfolding read_f64 bravo_finder.ByteIo.Reader.read_u64
read_f64-IsSound = read_bytes_into-IsSound 64 8 0 0

read_ref-IsSound : IsSound read_ref
unfolding read_ref
read_ref-IsSound =
    bind-IsSound read_u32 _ read_u32-IsSound
      (λ o. map-IsSound read_u32 (λ l. record { offset = o; len = l }) read_u32-IsSound)

pub read_vertex-IsSound : IsSound read_vertex
unfolding read_vertex
read_vertex-IsSound = bind-IsSound read_f64 _ read_f64-IsSound (λ latitude.
    bind-IsSound read_f64 _ read_f64-IsSound (λ longitude.
      bind-IsSound read_ref _ read_ref-IsSound (λ ident.
        bind-IsSound read_ref _ read_ref-IsSound (λ region.
          bind-IsSound read_u8 _ read_u8-IsSound (λ flags.
            map-IsSound read_u8
              (λ kind. record {
                coord = record { latitude = latitude; longitude = longitude };
                ident = ident;
                region = region;
                outbound = flag_set flags flag_has_outbound;
                inbound = flag_set flags flag_has_inbound;
                kind = kind;
              })
              read_u8-IsSound)))))

pub read_header-IsSound : IsSound read_header
unfolding read_header
read_header-IsSound = bind-IsSound read_u32 _ read_u32-IsSound (λ v.
    bind-IsSound read_u32 _ read_u32-IsSound (λ e.
      bind-IsSound read_u32 _ read_u32-IsSound (λ airways.
        bind-IsSound read_u32 _ read_u32-IsSound (λ msa.
          map-IsSound read_u32
            (λ first. record {
              v = v;
              e = e;
              airway_count = airways;
              msa_count = msa;
              first_airport_vertex = to_signed (2 ^ 32) first;
            })
            read_u32-IsSound))))

module _ {A : Type 0} (m : Read A) where
  pub read_list-IsSound : (n : ℕ) → IsSound m → IsSound (read_list n m)
  unfolding read_list
  read_list-IsSound zero p = give-IsSound []
  read_list-IsSound (suc n) p =
      bind-IsSound m _ p (λ x. map-IsSound (read_list n m) (λ xs. x ∷ xs) (read_list-IsSound n p))

  pub length-read_list : (n : ℕ) (r : ByteReader) → length (read_list n m r).0 ≡ n
  unfolding read_list
  length-read_list zero r = refl
  length-read_list (suc n) r = ap suc (length-read_list n (m r).1)

length-drop_ge : (n i : ℕ) (xs : Bytes) → i + n ≤ length xs → n ≤ length (drop i xs)
length-drop_ge n zero xs h = omega (arith, h)
length-drop_ge n (suc i) [] h = omega (arith, h)
length-drop_ge n (suc i) (x ∷ xs) h = length-drop_ge n i xs (omega (arith, h))

length-memcpy32 :
    (e : Endian) (n : ℕ) (bs : Bytes) → n * 4 ≤ length bs → length (memcpy32 e n bs) ≡ n
unfolding memcpy32
length-memcpy32 e zero bs h = refl
length-memcpy32 e (suc n) [] h = absurd (omega (arith, h))
length-memcpy32 e (suc n) (a ∷ []) h = absurd (omega (arith, h))
length-memcpy32 e (suc n) (a ∷ b ∷ []) h = absurd (omega (arith, h))
length-memcpy32 e (suc n) (a ∷ b ∷ c ∷ []) h = absurd (omega (arith, h))
length-memcpy32 e (suc n) (a ∷ b ∷ c ∷ d ∷ bs) h =
    ap suc (length-memcpy32 e n bs (omega (arith, h)))

pub length-map : {A B : Type 0} (f : A → B) (xs : List A) → length (map f xs) ≡ length xs
length-map f [] = refl
length-map f (x ∷ xs) = ap suc (length-map f xs)

length-swap_if_big :
    (e : Endian) (f : ℕ → ℕ) (vs : List ℕ) → length (swap_if_big e f vs) ≡ length vs
unfolding swap_if_big
length-swap_if_big little f vs = refl
length-swap_if_big big f vs = length-map f vs

-- The array that a bulk read goes to keeps its length, whether or not the bytes are there.
pub length-or_zeros :
    (e : Endian) (n : ℕ) (r : ByteReader)
    → IsSane r
    → n < 2 ^ 60
    → length (or_zeros n (read_i32_span e n r).0) ≡ n
unfolding or_zeros read_i32_span past_end
length-or_zeros e n r s small =
    elim (Bool-cases (ltb (length r.bytes) ((r.pos + n * 4 % 2 ^ 64) % 2 ^ 64))) [
      | inl past ↦ rw past (length-replicate n (pos 0))
      | inr fits ↦
          let room : r.pos + n * 4 ≤ length r.bytes =
            ground (arith, fits, s.inside, s.small, small) in
          let raw = memcpy32 e n (drop r.pos r.bytes) in
          rw fits (
            length-map (to_signed (2 ^ 32)) (swap_if_big e byte_swap32 raw)
            ∙ length-swap_if_big e byte_swap32 raw
            ∙ length-memcpy32 e n (drop r.pos r.bytes) (length-drop_ge (n * 4) r.pos r.bytes room))
    ]
