-- ===== src/Output/Digits.antt =====
-- Reading of texts of digits, with a point among them.
use mathlib.Core.List.{append-nil}
use sunspec.Prelude.{
  ℕ, zero, suc, ◌+◌, ◌-◌, ◌*◌, ◌^◌, ◌≤◌, ◌<◌, Bool, true, false, [], ◌∷◌, ◌++◌, ◌≡◌, refl, sym, ap,
  ◌∙◌, arith, inl, inr, ltb, ltb→lt, Bool-cases, if◌then◌else◌, length, take, drop, replicate,
  length-replicate, length-append, length-take, length-drop,
}
use sunspec.Prelude.Bytes.{Bytes}
use sunspec.Output.{point_digits}
use sunspec.Output.Decimal.{
  read_digits, read_decimal, AllDigits, read_digits-append, read_digits-zeros, read_decimal-append,
}

pub take-drop : (n : ℕ) (xs : Bytes) → take n xs ++ drop n xs ≡ xs
take-drop zero xs = refl
take-drop (suc n) [] = refl
take-drop (suc n) (x ∷ xs) = ap (◌∷◌ x) (take-drop n xs)

pub take-AllDigits : (n : ℕ) (xs : Bytes) → AllDigits xs → AllDigits (take n xs)
take-AllDigits zero xs d = tt
take-AllDigits (suc n) [] d = tt
take-AllDigits (suc n) (x ∷ xs) d = (d.0, d.1, take-AllDigits n xs d.2)

pub drop-AllDigits : (n : ℕ) (xs : Bytes) → AllDigits xs → AllDigits (drop n xs)
drop-AllDigits zero xs d = d
drop-AllDigits (suc n) [] d = tt
drop-AllDigits (suc n) (x ∷ xs) d = drop-AllDigits n xs d.2

pub replicate-AllDigits : (n : ℕ) → AllDigits (replicate n b'0')
replicate-AllDigits zero = tt
replicate-AllDigits (suc n) = (omega arith, omega arith, replicate-AllDigits n)

pub append-AllDigits : (xs ys : Bytes) → AllDigits xs → AllDigits ys → AllDigits (xs ++ ys)
append-AllDigits [] ys d e = e
append-AllDigits (x ∷ xs) ys d e = (d.0, d.1, append-AllDigits xs ys d.2 e)

-- Digits to the end of the text.
pub read_all :
    (seen : Bool) (m p : ℕ) (ds : Bytes)
    → AllDigits ds
    → read_decimal seen m p ds ≡ (read_digits m ds, if seen then p + length ds else p)
unfolding read_decimal
read_all seen m p ds d =
    ap (read_decimal seen m p) (sym (append-nil ds)) ∙ read_decimal-append seen ds [] m p d

pub zeros_in_front :
    (n : ℕ) (ds : Bytes) → read_digits 0 (b'0' ∷ replicate n b'0' ++ ds) ≡ read_digits 0 ds
unfolding read_digits
zeros_in_front n ds =
    let z : 0 * 10 ^ n ≡ 0 = omega arith in
    read_digits-append (replicate n b'0') ds 0
    ∙ ap (λ m. read_digits m ds) (read_digits-zeros n 0 ∙ z)

-- Digits, the point and digits.
pub read_point :
    (xs ys : Bytes)
    → AllDigits xs
    → AllDigits ys
    → read_decimal false 0 0 (xs ++ b'.' ∷ ys) ≡ (read_digits 0 (xs ++ ys), length ys)
unfolding read_decimal
read_point xs ys d e =
    let places : 0 + length ys ≡ length ys = omega arith in
    read_decimal-append false xs (b'.' ∷ ys) 0 0 d
    ∙ read_all true (read_digits 0 xs) 0 ys e
    ∙ rw (places, read_digits-append xs ys 0) refl

pub point_digits-read :
    (k : ℕ) (ds : Bytes)
    → AllDigits ds
    → (read_decimal false 0 0 (point_digits k ds) ≡ (read_digits 0 ds, k))
      × (length (point_digits k ds) ≤ length ds + k + 2)
unfolding point_digits
point_digits-read k ds d = elim (Bool-cases (ltb k (length ds))) [
  | inl h ↦
      let n = length ds - k in
      let left : Bytes = take n ds in
      let right : Bytes = drop n ds in
      let lt : k < length ds = ltb→lt k (length ds) h in
      let places : length right ≡ k = length-drop n ds ∙ omega arith in
      let size : length (left ++ b'.' ∷ right) ≡ length left + suc (length right) =
        length-append left (b'.' ∷ right) in
      rw h (
        read_point left right (take-AllDigits n ds d) (drop-AllDigits n ds d)
            ∙ rw (take-drop n ds, places) refl,
        omega (arith, size, places, length-take n ds (omega arith)),
      )
  | inr h ↦
      let le : length ds ≤ k = ground arith in
      let zeros : Bytes = replicate (k - length ds) b'0' in
      let size : length (zeros ++ ds) ≡ k =
        length-append zeros ds ∙ omega (arith, length-replicate {A = ℕ} (k - length ds) b'0') in
      let value : read_digits 0 (b'0' ∷ zeros ++ ds) ≡ read_digits 0 ds =
        zeros_in_front (k - length ds) ds in
      rw h (
        read_point (b'0' ∷ []) (zeros ++ ds) (omega arith, omega arith, tt)
              (append-AllDigits zeros ds (replicate-AllDigits (k - length ds)) d)
            ∙ rw (value, size) refl,
        omega (arith, size),
      )
]
