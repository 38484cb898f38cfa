-- ===== src/Number/Reads.antt =====
-- The parser's result for decimal numbers.
use mathlib.Core.List.{append_assoc}
use sunspec.Prelude.{
  ℕ, suc, ◌+◌, ◌-◌, ◌≤◌, ◌<◌, some, [], ◌∷◌, ◌++◌, ◌≡◌, refl, ap, ◌∙◌, arith, length, length-append,
  drop, replicate, ok,
}
use sunspec.Prelude.Bytes.{Bytes, overwrite}
use sunspec.Prelude.Copy.{NoZero, NoZero-append, c_string, c_string_text, length-overwritten}
use sunspec.Prelude.Int.{pos}
use sunspec.Output.Decimal.{read_digits}
use sunspec.Number.{
  t_start, t_base, t_fraction, t_end, Parsed, rounds, finish, string_decompose_decimal,
}
use sunspec.Number.Steps.{stored}
use sunspec.Number.Digits.{parser, whole_number, with_point}
use sunspec.Number.Rounds.{point_rounds, whole_rounds, whole-digits, end_rounds, tail_rounds}
use sunspec.Number.Literals.{
  sign_text, signed_value, Literal, integer, decimal, scientific, written, base_text, power,
  IsLiteral, Fits, digits-NoZero, signed-NoZero,
}

-- What the parser gives for a number: 0, its sign and digits as a string, and the power of ten.
pub record Reads (l : Literal) (out : Parsed) : Type 0 where
  pub rc_is : out.rc ≡ pos 0
  pub base_is : c_string out.base ≡ base_text l
  pub e_is : out.e ≡ power l

Fits-positive : (n : ℕ) (l : Literal) → Fits n l → 0 < n
Fits-positive n (integer s ds) h = omega arith
Fits-positive n (decimal s ds fs) h = omega arith
Fits-positive n (scientific s ds fs c t es) h = omega arith

-- The string that is left in the base's buffer.
stored-string :
    (n : ℕ) (tmp base : Bytes) → NoZero tmp → length tmp < n → c_string (stored n tmp base) ≡ tmp
stored-string n tmp base text fits =
    let room : n - length tmp ≡ suc (n - length tmp - 1) = omega arith in
    rw room (
      ap c_string (append_assoc tmp (0 ∷ replicate (n - length tmp - 1) 0) (drop n base))
      ∙ c_string_text tmp (replicate (n - length tmp - 1) 0 ++ drop n base) text)

-- The rounds that a number takes, two more than its characters.
literal_rounds :
    (fuel n : ℕ) (l : Literal) (rest base : Bytes)
    → IsLiteral l
    → Fits n l
    → n ≤ length base
    → (out : Parsed) × (rounds n
          (length (written l []) + suc (suc fuel))
          (parser t_start (written l (0 ∷ rest)) [] 0 base (pos 0))
        ≡ some (ok out))
      × Reads l out
literal_rounds fuel n (integer s ds) rest base wf fits room =
    let tmp : Bytes = sign_text s ++ ds in
    let text : NoZero tmp = signed-NoZero s ds (whole-digits s ds wf) in
    (
      finish (parser t_end (0 ∷ rest) tmp 0 (stored n tmp base) (pos 0)),
      whole_rounds n (suc (suc fuel)) s ds (0 ∷ rest) base wf (omega arith)
          ∙ end_rounds fuel n t_base rest tmp 0 base whole_number text fits.0 fits.1 room,
      record { rc_is = refl; base_is = stored-string n tmp base text fits.1; e_is = refl },
    )
literal_rounds fuel n (decimal s ds fs) rest base wf fits room =
    let tmp : Bytes = (sign_text s ++ ds) ++ fs in
    let text : NoZero tmp =
      NoZero-append (sign_text s ++ ds) fs (signed-NoZero s ds wf.0) (digits-NoZero fs wf.1) in
    let count : length (sign_text s ++ (ds ++ b'.' ∷ (fs ++ []))) + suc (suc fuel)
        ≡ length (sign_text s ++ ds) + suc (length fs + suc (suc fuel)) =
      omega (
        arith,
        length-append (sign_text s) (ds ++ b'.' ∷ (fs ++ [])),
        length-append ds (b'.' ∷ (fs ++ [])),
        length-append fs [],
        length-append (sign_text s) ds,
      ) in
    (
      finish (parser t_end (0 ∷ rest) tmp (length fs) (stored n tmp base) (pos 0)),
      rw count (
          point_rounds n (suc (suc fuel)) s ds fs (0 ∷ rest) base wf.0 wf.1 fits.0
          ∙ end_rounds fuel n t_fraction rest tmp (length fs) base with_point text fits.0 fits.1
              room),
      record { rc_is = refl; base_is = stored-string n tmp base text fits.1; e_is = refl },
    )
literal_rounds fuel n (scientific s ds fs c t es) rest base wf fits room =
    let tmp : Bytes = (sign_text s ++ ds) ++ fs in
    let text : NoZero tmp =
      NoZero-append (sign_text s ++ ds) fs (signed-NoZero s ds wf.0) (digits-NoZero fs wf.1) in
    let tail : Bytes = sign_text t ++ (es ++ []) in
    let count : length (sign_text s ++ (ds ++ b'.' ∷ (fs ++ c ∷ tail))) + suc (suc fuel)
        ≡ length (sign_text s ++ ds)
          + suc (length fs + suc (length (sign_text t ++ es) + suc (suc fuel))) =
      omega (
        arith,
        length-append (sign_text s) (ds ++ b'.' ∷ (fs ++ c ∷ tail)),
        length-append ds (b'.' ∷ (fs ++ c ∷ tail)),
        length-append fs (c ∷ tail),
        length-append (sign_text s) ds,
        length-append (sign_text t) (es ++ []),
        length-append es [],
        length-append (sign_text t) es,
      ) in
    (
      finish (
          parser t_end (0 ∷ rest) (sign_text t ++ es) (length fs) (stored n tmp base)
            (signed_value t (read_digits 0 es))),
      rw count (
          point_rounds n (suc (length (sign_text t ++ es) + suc (suc fuel))) s ds fs
            (c ∷ (sign_text t ++ (es ++ 0 ∷ rest))) base wf.0 wf.1 fits.0
          ∙ tail_rounds fuel n c t es rest tmp (length fs) base wf.4 wf.2 wf.3 text fits.0 fits.1
              room fits.2 fits.3),
      record { rc_is = refl; base_is = stored-string n tmp base text fits.1; e_is = refl },
    )

-- The first byte of the base is cleared.
pub cleared_start :
    (fuel n : ℕ) (buf base : Bytes)
    → 0 < length base
    → string_decompose_decimal fuel buf base n
      ≡ rounds n fuel (parser t_start buf [] 0 (0 ∷ drop 1 base) (pos 0))
unfolding string_decompose_decimal overwrite
cleared_start fuel n buf [] h = absurd (omega arith)
cleared_start fuel n buf (b ∷ base) h = refl

-- A decimal number, which is an optional sign and digits, perhaps with a point among them and then
-- with an exponent, is read in at most two rounds more than its text has characters: the result is
-- 0, the base is the sign and the digits without the point, as a string, and the power of ten is
-- the exponent less the digits behind the point. It holds if the sign and digits, and those of the
-- exponent, are less than 128, the former fit with their zero byte in the buffer of the base, and
-- both the exponent and the power of ten are numbers that an `int` holds.
pub string_decompose_decimal-Reads :
    (extra n : ℕ) (l : Literal) (rest base : Bytes)
    → IsLiteral l
    → Fits n l
    → n ≤ length base
    → (out : Parsed) × (string_decompose_decimal
          (length (written l []) + suc (suc extra))
          (written l (0 ∷ rest))
          base
          n
        ≡ some (ok out))
      × Reads l out
string_decompose_decimal-Reads extra n l rest base wf fits room =
    let some_room : 0 < length base = omega (arith, Fits-positive n l fits) in
    let kept : n ≤ length (0 ∷ drop 1 base) =
      omega (arith, length-overwritten base (0 ∷ []) (omega arith)) in
    let (out, run, reads) = literal_rounds extra n l rest (0 ∷ drop 1 base) wf fits kept in
    (out, cleared_start _ n (written l (0 ∷ rest)) base some_room ∙ run, reads)
