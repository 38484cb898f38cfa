-- ===== src/Output/Scientific.antt =====
-- The scientific notation of a scaled number.
use mathlib.Core.List.{append_assoc}
use sunspec.Prelude.{
  ℕ, zero, suc, ◌+◌, ◌-◌, ◌≤◌, ◌<◌, ◌⊎◌, true, false, ◌||◌, [], ◌∷◌, ◌++◌, ◌≡◌, ◌≢◌, refl, sym, ap,
  ◌∙◌, arith, ltb, leb, length, take, drop, get_or, length-append, ne→==, ok,
}
use sunspec.Prelude.Bytes.{Bytes, print_nat, overwrite_lem}
use sunspec.Prelude.Int.{ℤ, pos, ◌+ℤ◌, ◌-ℤ◌}
use sunspec.Output.{
  print_int, magnitude, snprintf, space_left, snprintf_int_sf_e, snprintf_int_sf,
  suns_snprintf_uint_sf,
}
use sunspec.Output.Decimal.{
  read_digits, read_decimal, AllDigits, print_nat-read, print_nat-nonempty,
}
use sunspec.Output.Digits.{read_point}

take-all : (n : ℕ) (xs : Bytes) → length xs ≤ n → take n xs ≡ xs
take-all zero [] h = refl
take-all zero (x ∷ xs) h = absurd (omega arith)
take-all (suc n) [] h = refl
take-all (suc n) (x ∷ xs) h = ap (◌∷◌ x) (take-all n xs (omega arith))

pub snprintf_whole :
    (size : ℕ) (text : Bytes) → length text < size → snprintf size text ≡ text ++ 0 ∷ []
unfolding snprintf
snprintf_whole zero text h = absurd (omega arith)
snprintf_whole (suc n) text h = ap (λ t. t ++ 0 ∷ []) (take-all n text (omega arith))

-- The first digit, the point and the other digits.
abbrev pub mantissa : Bytes → Bytes
mantissa base = get_or 0 base 0 ∷ b'.' ∷ drop 1 base

mantissa-read :
    (ds : Bytes)
    → AllDigits ds
    → 0 < length ds
    → (read_decimal false 0 0 (mantissa ds) ≡ (read_digits 0 ds, length ds - 1))
      × (length (mantissa ds) ≡ length ds + 1)
unfolding read_digits
mantissa-read [] d h = absurd (omega arith)
mantissa-read (c ∷ ds) d h =
    let places : length ds ≡ suc (length ds) - 1 = omega arith in
    (
      read_point (c ∷ []) ds (d.0, d.1, tt) d.2 ∙ ap (λ k. (read_digits 0 (c ∷ ds), k)) places,
      omega arith,
    )

-- The exponent that is printed.
abbrev pub normalized : Bytes → ℤ → ℤ
normalized base e = e +ℤ pos (length base) -ℤ pos 1

snprintf_int_sf_e_lem :
    (buf : Bytes) (len : ℕ) (ds : Bytes) (e : ℤ)
    → magnitude (normalized ds e) ≢ 0
    → length ds + length (print_int (normalized ds e)) + 4 ≤ len
    → len ≤ length buf
    → length (mantissa ds) ≡ length ds + 1
    → let text = mantissa ds ++ b'e' ∷ print_int (normalized ds e) in
      snprintf_int_sf_e buf len ds e
      ≡ ok (pos (length text), (text ++ 0 ∷ []) ++ drop (length (text ++ 0 ∷ [])) buf)
unfolding snprintf_int_sf_e space_left
snprintf_int_sf_e_lem buf len ds e ne fits room front =
    let exponent : Bytes = print_int (normalized ds e) in
    let text : Bytes = mantissa ds ++ b'e' ∷ exponent in
    let a : ltb len (length ds + 2) ≡ false = ground arith in
    let b : leb (length ds + 3) len ≡ true = ground arith in
    let c : ltb (len - length ds - 3) (length exponent) ≡ false = ground arith in
    let size : length text ≡ length (mantissa ds) + 1 + length exponent =
      omega (arith, length-append (mantissa ds) (b'e' ∷ exponent)) in
    let whole : snprintf (len - length ds - 3) exponent ≡ exponent ++ 0 ∷ [] =
      snprintf_whole (len - length ds - 3) exponent (omega arith) in
    let parts : mantissa ds ++ b'e' ∷ (exponent ++ 0 ∷ []) ≡ text ++ 0 ∷ [] =
      sym (append_assoc (mantissa ds) (b'e' ∷ exponent) (0 ∷ [])) in
    let inside : length (text ++ 0 ∷ []) ≤ length buf =
      omega (arith, length-append text (0 ∷ []), size, front) in
    rw (a, ne→== _ 0 ne, b, whole, parts, overwrite_lem buf (text ++ 0 ∷ []) inside, c, size) refl

-- In scientific notation, taken when an unsigned number or its places are too many for
-- `maxdigits`, the text is one digit, the point and the other digits, which read as the number's
-- digits with one place less than there are digits, and then an exponent, which is the scale
-- factor plus those places. It holds for an exponent that is not 0 and a `len` in which the text
-- and its zero byte fit; they are written inside the buffer.
pub suns_snprintf_uint_sf_scientific :
    (buf : Bytes) (len x : ℕ) (e : ℤ) (maxdigits : ℕ)
    → x ≢ 0
    → magnitude e ≢ 0
    → (maxdigits < length (print_nat x)) ⊎ (maxdigits + 2 < length (print_nat x) + magnitude e)
    → magnitude (normalized (print_nat x) e) ≢ 0
    → length (print_nat x) + length (print_int (normalized (print_nat x) e)) + 4 ≤ len
    → len ≤ length buf
    → let text = mantissa (print_nat x) ++ b'e' ∷ print_int (normalized (print_nat x) e) in
      (suns_snprintf_uint_sf buf len x e maxdigits
        ≡ ok (pos (length text), (text ++ 0 ∷ []) ++ drop (length (text ++ 0 ∷ [])) buf))
      × (read_decimal false 0 0 (mantissa (print_nat x)) ≡ (x, length (print_nat x) - 1))
unfolding suns_snprintf_uint_sf snprintf_int_sf
suns_snprintf_uint_sf_scientific buf len x e maxdigits nx ne large nn fits room =
    let (d, v) = print_nat-read x nx in
    let (value, front) = mantissa-read (print_nat x) d (print_nat-nonempty x) in
    let n = length (print_nat x) in
    let a : ltb len n ≡ false = ground arith in
    let b : (ltb maxdigits n || ltb (maxdigits + 2) (n + magnitude e)) ≡ true = ground arith in
    (
      rw (ne→== x 0 nx, a, ne→== _ 0 ne, b)
          (snprintf_int_sf_e_lem buf len (print_nat x) e nn fits room front),
      value ∙ ap (λ k. (k, n - 1)) v,
    )
