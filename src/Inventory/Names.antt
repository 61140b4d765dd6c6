-- ===== src/Inventory/Names.antt =====
-- A name that was formatted parses to its cycle, in any directory.
use bravo_finder.Prelude.{
  ℕ, zero, suc, ◌+◌, ◌-◌, ◌*◌, ◌/◌, ◌%◌, ◌^◌, ◌<◌, ◌≤◌, ◌≡◌, refl, sym, ap, subst, ◌∙◌, inl, inr,
  true, false, ◌||◌, [], ◌∷◌, ◌++◌, length, length-append, take, drop, take-append, drop-append,
  none, some, Bool-cases, ltb, leb, ◌==◌, Bytes, bytes_eq, arith,
}
use mathlib.Core.List.{append_assoc}
use bravo_finder.Inventory.Naming.{
  prefix, suffix, slash, decimal, format_bfdb_name, has_slash, filename, parse_cycle, parse_name,
  parse_bfdb_name,
}

has_slash-append : (xs ys : Bytes) → has_slash (xs ++ ys) ≡ (has_slash xs || has_slash ys)
unfolding has_slash
has_slash-append [] ys = refl
has_slash-append (x ∷ xs) ys = ground (arith, has_slash-append xs ys)

filename-bare : (name : Bytes) → has_slash name ≡ false → filename name ≡ name
unfolding filename has_slash
filename-bare [] h = refl
filename-bare (c ∷ cs) h =
    let here : (c == slash) ≡ false = ground (arith, h) in
    let later : has_slash cs ≡ false = ground (arith, h) in rw (later, here) refl

filename-append :
    (dir name : Bytes) → has_slash name ≡ false → filename (dir ++ (slash ∷ name)) ≡ name
unfolding filename has_slash
filename-append [] name h = rw h refl
filename-append (c ∷ dir) name h =
    let more : has_slash (dir ++ (slash ∷ name)) ≡ true =
      ground (arith, has_slash-append dir (slash ∷ name)) in
    rw more (filename-append dir name h)

-- `10 ^ (fuel + 1)`.
tens : ℕ → ℕ
tens zero = 10
tens (suc fuel) = 10 * tens fuel

one_digit :
    (v d : ℕ) → d < 10 → v * 10 + d < 2 ^ 32 → parse_cycle v ((48 + d) ∷ []) ≡ some (v * 10 + d)
unfolding parse_cycle
one_digit v d small fits = ground (arith, small, fits)

parse_cycle-append :
    (v u d : ℕ) (xs : Bytes)
    → parse_cycle v xs ≡ some u
    → d < 10
    → u * 10 + d < 2 ^ 32
    → parse_cycle v (xs ++ ((48 + d) ∷ [])) ≡ some (u * 10 + d)
unfolding parse_cycle
parse_cycle-append v u d [] e small fits =
    let same : v ≡ u = cc e in
    subst (λ k. parse_cycle v ((48 + d) ∷ []) ≡ some (k * 10 + d)) same
      (one_digit v d small (subst (λ k. k * 10 + d < 2 ^ 32) (sym same) fits))
parse_cycle-append v u d (x ∷ xs) e small fits =
    let next = (v * 10 + (x - 48)) % 2 ^ 64 in
    elim (Bool-cases (ltb x 48 || ltb 57 x)) [
      | inl bad ↦ let wrong : none ≡ some u = sym (rw bad refl) ∙ e in cc wrong
      | inr digit ↦ elim (Bool-cases (ltb 0xFFFFFFFF next)) [
        | inl large ↦ let wrong : none ≡ some u = sym (rw (digit, large) refl) ∙ e in cc wrong
        | inr fine ↦
            rw (digit, fine)
              (parse_cycle-append next u d xs (sym (rw (digit, fine) refl) ∙ e) small fits)
      ]
    ]

first_digit : (n : ℕ) → n < 10 → parse_cycle 0 ((48 + n) ∷ []) ≡ some n
unfolding parse_cycle
first_digit n h = ground (arith, h)

parse_cycle-decimal :
    (fuel n : ℕ) → n < tens fuel → n < 2 ^ 32 → parse_cycle 0 (decimal fuel n) ≡ some n
unfolding decimal tens parse_cycle
parse_cycle-decimal zero n h small =
    let same : n % 10 ≡ n = omega (arith, h) in rw same (first_digit n h)
parse_cycle-decimal (suc fuel) n h small = elim (Bool-cases (ltb n 10)) [
  | inl one ↦ rw one (first_digit n (ground (arith, one)))
  | inr more ↦ rw more (
      parse_cycle-append 0 (n / 10) (n % 10) (decimal fuel (n / 10))
        (parse_cycle-decimal fuel (n / 10) (omega (arith, h)) (omega (arith, small))) (omega arith)
        (omega (arith, small))
      ∙ ap some (omega arith))
]

length-decimal : (fuel n : ℕ) → 1 ≤ length (decimal fuel n)
unfolding decimal
length-decimal zero n = omega arith
length-decimal (suc fuel) n = elim (Bool-cases (ltb n 10)) [
  | inl one ↦ rw one (omega arith)
  | inr more ↦ rw more (omega (arith, length-append (decimal fuel (n / 10)) ((48 + n % 10) ∷ [])))
]

has_slash-decimal : (fuel n : ℕ) → has_slash (decimal fuel n) ≡ false
unfolding decimal has_slash
has_slash-decimal zero n = ground arith
has_slash-decimal (suc fuel) n = elim (Bool-cases (ltb n 10)) [
  | inl one ↦ rw one (ground arith)
  | inr more ↦ rw more (
      ground (
        arith,
        has_slash-append (decimal fuel (n / 10)) ((48 + n % 10) ∷ []),
        has_slash-decimal fuel (n / 10),
      ))
]

-- The parse of a name with digits in it.
parse_name-digits :
    (digits : Bytes)
    → 1 ≤ length digits
    → parse_name (prefix ++ (digits ++ suffix)) ≡ parse_cycle 0 digits
unfolding parse_name bytes_eq
parse_name-digits digits some_digit =
    let name = prefix ++ (digits ++ suffix) in
    let size : length name ≡ 9 + length digits =
      omega (arith, length-append prefix (digits ++ suffix), length-append digits suffix) in
    let long : leb (length name) (length prefix + length suffix) ≡ false =
      ground (arith, size, some_digit) in
    let middle_size : length name - length prefix - length suffix ≡ length digits =
      omega (arith, size) in
    let end_at : length name - length suffix ≡ length (prefix ++ digits) =
      omega (arith, size, length-append prefix digits) in
    let ending : drop (length (prefix ++ digits)) name ≡ suffix =
      ap (drop (length (prefix ++ digits))) (sym (append_assoc prefix digits suffix))
      ∙ drop-append (prefix ++ digits) suffix in
    let middle : take (length digits) (digits ++ suffix) ≡ digits = take-append digits suffix in
    let filled : (length digits == 0) ≡ false = ground (arith, some_digit) in
    rw (long, end_at, ending, middle_size, middle, filled) refl

parse_name-format_bfdb_name :
    (cycle : ℕ) → cycle < 2 ^ 32 → parse_name (format_bfdb_name cycle) ≡ some cycle
unfolding format_bfdb_name
parse_name-format_bfdb_name cycle small = elim (Bool-cases (cycle == 0)) [
  | inl zeroth ↦ rw zeroth (unfold parse_name bytes_eq in ap some (ground (arith, zeroth)))
  | inr numbered ↦ rw numbered (
      parse_name-digits (decimal 9 cycle) (length-decimal 9 cycle)
      ∙ parse_cycle-decimal 9 cycle (unfold tens in omega (arith, small)) small)
]

has_slash-format_bfdb_name : (cycle : ℕ) → has_slash (format_bfdb_name cycle) ≡ false
unfolding format_bfdb_name has_slash
has_slash-format_bfdb_name cycle = elim (Bool-cases (cycle == 0)) [
  | inl zeroth ↦ rw zeroth refl
  | inr numbered ↦
      rw numbered
        (ground (arith, has_slash-append (decimal 9 cycle) suffix, has_slash-decimal 9 cycle))
]

-- A name formatted for a 32-bit cycle parses to that cycle, bare and behind any directory.
pub parse_bfdb_name-format_bfdb_name :
    (dir : Bytes) (cycle : ℕ)
    → cycle < 2 ^ 32
    → (parse_bfdb_name (format_bfdb_name cycle) ≡ some cycle)
      × (parse_bfdb_name (dir ++ (slash ∷ format_bfdb_name cycle)) ≡ some cycle)
unfolding parse_bfdb_name
parse_bfdb_name-format_bfdb_name dir cycle small =
    let name = format_bfdb_name cycle in
    let plain = has_slash-format_bfdb_name cycle in
    let parsed = parse_name-format_bfdb_name cycle small in
    (
      ap parse_name (filename-bare name plain) ∙ parsed,
      ap parse_name (filename-append dir name plain) ∙ parsed,
    )
