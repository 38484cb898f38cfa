-- ===== src/Output/Notation.antt =====
-- The fixed notation of a scaled number reads as the number times its power of ten.
use sunspec.Prelude.{
  ℕ, suc, ◌+◌, ◌*◌, ◌^◌, ◌≤◌, Bool, true, false, [], ◌∷◌, ◌++◌, ◌≡◌, ◌≢◌, refl, sym, ap, ◌∙◌, arith,
  ◌==◌, ltb, if◌then◌else◌, length, drop, replicate, length-replicate, length-append, ne→==, ok,
}
use sunspec.Prelude.Bytes.{Bytes, print_nat, overwrite_lem}
use sunspec.Prelude.Int.{ℤ, pos, negsuc}
use sunspec.Output.{
  print_int, magnitude, point_digits, fixed_text, snprintf_int_sf, suns_snprintf_int_sf,
}
use sunspec.Output.Decimal.{
  read_digits, read_decimal, AllDigits, read_digits-append, read_digits-zeros, print_nat-read,
}
use sunspec.Output.Digits.{append-AllDigits, point_digits-read, read_all, replicate-AllDigits}

-- The number times 10 to the power `e`, as a mantissa and its places behind the point.
abbrev pub scaled : (n : ℕ) → ℤ → ℕ × ℕ
scaled n (pos e) = (n * 10 ^ e, 0)
scaled n (negsuc k) = (n, suc k)

-- A text with an optional sign that reads as a number.
pub record Denotes (negative : Bool) (value : ℕ × ℕ) (text : Bytes) : Type 0 where
  pub body : Bytes
  pub text_is : text ≡ (if negative then b'-' ∷ body else body)
  pub value_is : read_decimal false 0 0 body ≡ value

abbrev pub signed : Bool → Bytes → Bytes
signed negative ds = if negative then b'-' ∷ ds else ds

shift_digits :
    (e : ℕ) (ds : Bytes)
    → AllDigits ds
    → read_decimal false 0 0 (ds ++ replicate e b'0') ≡ (read_digits 0 ds * 10 ^ e, 0)
shift_digits e ds d =
    read_all false 0 0 (ds ++ replicate e b'0')
      (append-AllDigits ds (replicate e b'0') d (replicate-AllDigits e))
    ∙ ap (λ k. (k, 0))
        (read_digits-append ds (replicate e b'0') 0 ∙ read_digits-zeros e (read_digits 0 ds))

pub fixed_text-Denotes :
    (negative : Bool) (ds : Bytes) (e : ℤ)
    → AllDigits ds
    → Denotes negative (scaled (read_digits 0 ds) e) (fixed_text (signed negative ds) e)
      × (length (fixed_text (signed negative ds) e) ≤ length (signed negative ds) + magnitude e + 2)
unfolding fixed_text
fixed_text-Denotes true ds (pos e) d = (
  record { body = ds ++ replicate e b'0'; text_is = refl; value_is = shift_digits e ds d },
  omega (arith, length-append ds (replicate e b'0'), length-replicate {A = ℕ} e b'0'),
)
fixed_text-Denotes false ds (pos e) d = (
  record { body = ds ++ replicate e b'0'; text_is = refl; value_is = shift_digits e ds d },
  omega (arith, length-append ds (replicate e b'0'), length-replicate {A = ℕ} e b'0'),
)
fixed_text-Denotes true ds (negsuc k) d =
    let (value, size) = point_digits-read (suc k) ds d in
    (
      record { body = point_digits (suc k) ds; text_is = refl; value_is = value },
      omega (arith, size),
    )
fixed_text-Denotes false [] (negsuc k) d =
    let (value, size) = point_digits-read (suc k) [] d in
    (
      record { body = point_digits (suc k) []; text_is = refl; value_is = value },
      omega (arith, size),
    )
fixed_text-Denotes false (c ∷ ds) (negsuc k) d =
    let (value, size) = point_digits-read (suc k) (c ∷ ds) d in
    let digit : (c == b'-') ≡ false = ground arith in
    rw digit (
      record { body = point_digits (suc k) (c ∷ ds); text_is = refl; value_is = value },
      omega (arith, size),
    )

abbrev pub is_negative : ℤ → Bool
is_negative (pos n) = false
is_negative (negsuc n) = true

pub print_int-signed :
    (x : ℤ)
    → magnitude x ≢ 0
    → (ds : Bytes) × (print_int x ≡ signed (is_negative x) ds)
      × AllDigits ds
      × (read_digits 0 ds ≡ magnitude x)
print_int-signed (pos n) h =
    let z : n + 0 ≡ n = omega arith in
    let (d, v) = print_nat-read n (λ e. h (z ∙ e)) in (print_nat n, refl, d, v ∙ sym z)
print_int-signed (negsuc n) h =
    let z : 0 + suc n ≡ suc n = omega arith in
    let (d, v) = print_nat-read (suc n) (λ e. h (z ∙ e)) in (print_nat (suc n), refl, d, v ∙ sym z)

-- The text that is written in fixed notation, where it fits in the buffer.
pub suns_snprintf_int_sf_text :
    (buf : Bytes) (len : ℕ) (x e : ℤ) (maxdigits : ℕ)
    → magnitude x ≢ 0
    → magnitude e ≢ 0
    → length (print_int x) ≤ len
    → length (print_int x) ≤ maxdigits
    → length (print_int x) + magnitude e ≤ maxdigits + 2
    → length (fixed_text (print_int x) e ++ 0 ∷ []) ≤ length buf
    → let text = fixed_text (print_int x) e in
      suns_snprintf_int_sf buf len x e maxdigits
      ≡ ok (pos (length text), (text ++ 0 ∷ []) ++ drop (length (text ++ 0 ∷ [])) buf)
unfolding suns_snprintf_int_sf snprintf_int_sf
suns_snprintf_int_sf_text buf len x e maxdigits nx ne fits short_number short_text inside =
    let text = fixed_text (print_int x) e in
    let a : ltb len (length (print_int x)) ≡ false = ground arith in
    let b : ltb maxdigits (length (print_int x)) ≡ false = ground arith in
    let c : ltb (maxdigits + 2) (length (print_int x) + magnitude e) ≡ false = ground arith in
    rw (ne→== _ 0 nx, a, ne→== _ 0 ne, b, c, overwrite_lem buf (text ++ 0 ∷ []) inside) refl

-- A text of a number in fixed notation is at most four characters longer than `maxdigits`.
pub fixed_text_bound :
    (x e : ℤ) (maxdigits : ℕ)
    → magnitude x ≢ 0
    → length (print_int x) + magnitude e ≤ maxdigits + 2
    → length (fixed_text (print_int x) e) ≤ maxdigits + 4
fixed_text_bound x e maxdigits nx short_text =
    let (ds, shown, d, v) = print_int-signed x nx in
    let (_, size) = fixed_text-Denotes (is_negative x) ds e d in
    let bound : length (fixed_text (print_int x) e) ≤ length (print_int x) + magnitude e + 2 =
      rw shown size in
    omega (arith, bound)

-- In fixed notation, the text of a number with its scale factor, neither of them 0, is the
-- number times that power of ten, exactly, with its sign. The text and its zero byte are written
-- inside a buffer of `maxdigits + 5` bytes, whatever else `len` is, and the result is the length
-- of the text. Fixed notation is taken when the number has at most `maxdigits` characters and at
-- most `maxdigits + 2` with the places that the scale factor adds.
pub suns_snprintf_int_sf-Denotes :
    (buf : Bytes) (len : ℕ) (x e : ℤ) (maxdigits : ℕ)
    → magnitude x ≢ 0
    → magnitude e ≢ 0
    → length (print_int x) ≤ len
    → length (print_int x) ≤ maxdigits
    → length (print_int x) + magnitude e ≤ maxdigits + 2
    → maxdigits + 5 ≤ length buf
    → (text : Bytes) × (suns_snprintf_int_sf buf len x e maxdigits
        ≡ ok (pos (length text), (text ++ 0 ∷ []) ++ drop (length (text ++ 0 ∷ [])) buf))
      × Denotes (is_negative x) (scaled (magnitude x) e) text
suns_snprintf_int_sf-Denotes buf len x e maxdigits nx ne fits short_number short_text room =
    let (ds, shown, d, v) = print_int-signed x nx in
    let text = fixed_text (print_int x) e in
    let (denotes, _) = fixed_text-Denotes (is_negative x) ds e d in
    let inside : length (text ++ 0 ∷ []) ≤ length buf =
      omega (arith, length-append text (0 ∷ []), fixed_text_bound x e maxdigits nx short_text) in
    (
      text,
      suns_snprintf_int_sf_text buf len x e maxdigits nx ne fits short_number short_text inside,
      rw (shown, sym v) denotes,
    )
