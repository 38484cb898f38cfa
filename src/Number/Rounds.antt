-- ===== src/Number/Rounds.antt =====
-- The rounds of the number parser on the parts of a decimal number.
use mathlib.Core.List.{append-nil}
use sunspec.Prelude.{
  ℕ, suc, ◌+◌, ◌≤◌, ◌<◌, true, false, ◌||◌, some, [], ◌∷◌, ◌++◌, ◌≡◌, ◌⊎◌, inl, inr, refl, ◌∙◌,
  arith, ◌==◌, length, length-append, ok,
}
use sunspec.Prelude.Bytes.{Bytes}
use sunspec.Prelude.Copy.{NoZero}
use sunspec.Prelude.Int.{ℤ, pos, IsInt}
use sunspec.Output.Decimal.{AllDigits, read_digits}
use sunspec.Number.{
  ParserState, t_start, t_base, t_fraction, t_exp, t_end, is_sign, is_end, rounds, finish,
}
use sunspec.Number.Steps.{
  first_digit_turn, first_sign_turn, point_turn, exponent_sign_turn, stored, mark_turn, last_turn,
  base_end_turn, exponent_end_turn,
}
use sunspec.Number.Digits.{
  parser, whole, behind, exponent, whole_number, with_point, one_turn, digits_rounds, Ending,
}
use sunspec.Number.Literals.{
  Sign, no_sign, minus, plus, sign_text, signed_value, IsWhole, scan_signed,
}

-- The state behind a sign and digits: the first state if there are none.
abbrev state_behind : Sign → Bytes → ParserState
state_behind no_sign [] = t_start
state_behind no_sign (c ∷ ds) = t_base
state_behind minus ds = t_base
state_behind plus ds = t_base

state_behind-cases :
    (s : Sign) (ds : Bytes) → (state_behind s ds ≡ t_start) ⊎ (state_behind s ds ≡ t_base)
state_behind-cases no_sign [] = inl refl
state_behind-cases no_sign (c ∷ ds) = inr refl
state_behind-cases minus ds = inr refl
state_behind-cases plus ds = inr refl

state_behind-whole : (s : Sign) (ds : Bytes) → IsWhole s ds → state_behind s ds ≡ t_base
state_behind-whole no_sign [] h = absurd (omega arith)
state_behind-whole no_sign (c ∷ ds) h = refl
state_behind-whole minus ds h = refl
state_behind-whole plus ds h = refl

pub whole-digits : (s : Sign) (ds : Bytes) → IsWhole s ds → AllDigits ds
whole-digits no_sign ds h = h.0
whole-digits minus ds h = h
whole-digits plus ds h = h

length-join : (fuel : ℕ) (xs ys : Bytes) → length (xs ++ ys) + fuel ≡ length xs + (length ys + fuel)
length-join fuel xs ys = omega (arith, length-append xs ys)

module _ (n : ℕ) where
  -- A sign and the digits behind it.
  signed_rounds :
      (fuel c : ℕ) (ds rest base : Bytes)
      → is_sign c ≡ true
      → AllDigits ds
      → suc (length ds) ≤ 128
      → rounds n (suc (length ds) + fuel) (parser t_start (c ∷ (ds ++ rest)) [] 0 base (pos 0))
        ≡ rounds n fuel (parser t_base rest (c ∷ ds) 0 base (pos 0))
  signed_rounds fuel c ds rest base sign d room =
      let z : suc (length ds) + fuel ≡ suc (length ds + fuel) = omega arith in
      rw z (
        one_turn n (length ds + fuel) (parser t_start (c ∷ (ds ++ rest)) [] 0 base (pos 0))
          (parser t_base (ds ++ rest) (c ∷ []) 0 base (pos 0)) refl
          (first_sign_turn n c (ds ++ rest) 0 base (pos 0) sign))
      ∙ digits_rounds n fuel t_base ds rest (c ∷ []) 0 base (pos 0) whole d (omega arith)

  -- What stands in front of a point or at the end.
  lead_rounds :
      (fuel : ℕ) (s : Sign) (ds rest base : Bytes)
      → AllDigits ds
      → length (sign_text s ++ ds) ≤ 128
      → rounds n
          (length (sign_text s ++ ds) + fuel)
          (parser t_start (sign_text s ++ (ds ++ rest)) [] 0 base (pos 0))
        ≡ rounds n fuel (parser (state_behind s ds) rest (sign_text s ++ ds) 0 base (pos 0))
  lead_rounds fuel no_sign [] rest base d room = let z : 0 + fuel ≡ fuel = omega arith in rw z refl
  lead_rounds fuel no_sign (c ∷ ds) rest base d room =
      let z : suc (length ds) + fuel ≡ suc (length ds + fuel) = omega arith in
      rw z (
        one_turn n (length ds + fuel) (parser t_start (c ∷ (ds ++ rest)) [] 0 base (pos 0))
          (parser t_base (ds ++ rest) (c ∷ []) 0 base (pos 0)) refl
          (first_digit_turn n c (ds ++ rest) 0 base (pos 0) d.0 d.1))
      ∙ digits_rounds n fuel t_base ds rest (c ∷ []) 0 base (pos 0) whole d.2 (omega arith)
  lead_rounds fuel minus ds rest base d room = signed_rounds fuel b'-' ds rest base refl d room
  lead_rounds fuel plus ds rest base d room = signed_rounds fuel b'+' ds rest base refl d room

  signed_exponent_rounds :
      (fuel c : ℕ) (es rest : Bytes) (k : ℕ) (base : Bytes) (e : ℤ)
      → is_sign c ≡ true
      → AllDigits es
      → suc (length es) ≤ 128
      → rounds n (suc (length es) + fuel) (parser t_exp (c ∷ (es ++ rest)) [] k base e)
        ≡ rounds n fuel (parser t_exp rest (c ∷ es) k base e)
  signed_exponent_rounds fuel c es rest k base e sign d room =
      let z : suc (length es) + fuel ≡ suc (length es + fuel) = omega arith in
      rw z (
        one_turn n (length es + fuel) (parser t_exp (c ∷ (es ++ rest)) [] k base e)
          (parser t_exp (es ++ rest) (c ∷ []) k base e) refl
          (exponent_sign_turn n c (es ++ rest) k base e sign))
      ∙ digits_rounds n fuel t_exp es rest (c ∷ []) k base e exponent d (omega arith)

  -- The sign and the digits of an exponent.
  exponent_rounds :
      (fuel : ℕ) (t : Sign) (es rest : Bytes) (k : ℕ) (base : Bytes) (e : ℤ)
      → AllDigits es
      → length (sign_text t ++ es) ≤ 128
      → rounds n
          (length (sign_text t ++ es) + fuel)
          (parser t_exp (sign_text t ++ (es ++ rest)) [] k base e)
        ≡ rounds n fuel (parser t_exp rest (sign_text t ++ es) k base e)
  exponent_rounds fuel no_sign es rest k base e d room =
      digits_rounds n fuel t_exp es rest [] k base e exponent d (omega arith)
  exponent_rounds fuel minus es rest k base e d room =
      signed_exponent_rounds fuel b'-' es rest k base e refl d room
  exponent_rounds fuel plus es rest k base e d room =
      signed_exponent_rounds fuel b'+' es rest k base e refl d room

  -- A number up to the digits behind its point.
  pub point_rounds :
      (fuel : ℕ) (s : Sign) (ds fs rest : Bytes) (base : Bytes)
      → AllDigits ds
      → AllDigits fs
      → length ((sign_text s ++ ds) ++ fs) < 128
      → rounds n
          (length (sign_text s ++ ds) + suc (length fs + fuel))
          (parser t_start (sign_text s ++ (ds ++ b'.' ∷ (fs ++ rest))) [] 0 base (pos 0))
        ≡ rounds n fuel
            (parser t_fraction rest ((sign_text s ++ ds) ++ fs) (length fs) base (pos 0))
  point_rounds fuel s ds fs rest base d f room =
      let size = length-append (sign_text s ++ ds) fs in
      let z : 0 + length fs ≡ length fs = omega arith in
      lead_rounds (suc (length fs + fuel)) s ds (b'.' ∷ (fs ++ rest)) base d (omega (arith, size))
      ∙ one_turn n (length fs + fuel)
          (parser (state_behind s ds) (b'.' ∷ (fs ++ rest)) (sign_text s ++ ds) 0 base (pos 0))
          (parser t_fraction (fs ++ rest) (sign_text s ++ ds) 0 base (pos 0))
          (elim (state_behind-cases s ds) [ inl p ↦ rw p refl | inr p ↦ rw p refl ])
          (point_turn n (state_behind s ds) (fs ++ rest) (sign_text s ++ ds) 0 base (pos 0)
            (state_behind-cases s ds))
      ∙ digits_rounds n fuel t_fraction fs rest (sign_text s ++ ds) 0 base (pos 0) behind f
          (omega (arith, size))
      ∙ rw z refl

pub whole_rounds :
    (n fuel : ℕ) (s : Sign) (ds rest base : Bytes)
    → IsWhole s ds
    → length (sign_text s ++ ds) ≤ 128
    → rounds n
        (length (sign_text s ++ (ds ++ [])) + fuel)
        (parser t_start (sign_text s ++ (ds ++ rest)) [] 0 base (pos 0))
      ≡ rounds n fuel (parser t_base rest (sign_text s ++ ds) 0 base (pos 0))
whole_rounds n fuel s ds rest base wf room = rw (append-nil ds) (
    rw (state_behind-whole s ds wf) at
      (lead_rounds n fuel s ds rest base (whole-digits s ds wf) room))

-- The last two rounds of a number without exponent.
pub end_rounds :
    (fuel n : ℕ) (st : ParserState) (rest tmp : Bytes) (k : ℕ) (base : Bytes)
    → Ending st
    → NoZero tmp
    → length tmp < 128
    → length tmp < n
    → n ≤ length base
    → rounds n (suc (suc fuel)) (parser st (0 ∷ rest) tmp k base (pos 0))
      ≡ some (ok (finish (parser t_end (0 ∷ rest) tmp k (stored n tmp base) (pos 0))))
end_rounds fuel n st rest tmp k base ending text small fits room =
    last_turn n fuel (parser st (0 ∷ rest) tmp k base (pos 0)) (0 ∷ rest) tmp k (stored n tmp base)
      (pos 0)
      (elim ending as (λ st _. is_end st ≡ false) [ whole_number ↦ refl | with_point ↦ refl ])
      (base_end_turn n st rest tmp k base (pos 0) ending text small (omega arith) room)

-- The rounds from the mark of an exponent on.
pub tail_rounds :
    (fuel n : ℕ) (c : ℕ) (t : Sign) (es rest tmp : Bytes) (k : ℕ) (base : Bytes)
    → (c ≡ b'e') ⊎ (c ≡ b'E')
    → AllDigits es
    → 0 < length es
    → NoZero tmp
    → length tmp < 128
    → length tmp < n
    → n ≤ length base
    → length (sign_text t ++ es) < 128
    → IsInt (signed_value t (read_digits 0 es))
    → rounds n
        (suc (length (sign_text t ++ es) + suc (suc fuel)))
        (parser t_fraction (c ∷ (sign_text t ++ (es ++ 0 ∷ rest))) tmp k base (pos 0))
      ≡ some (
          ok (
            finish (
              parser t_end
                (0 ∷ rest)
                (sign_text t ++ es)
                k
                (stored n tmp base)
                (signed_value t (read_digits 0 es)))))
tail_rounds fuel n c t es rest tmp k base mark d some_digits text small fits room short in_range =
    let after : Bytes = sign_text t ++ (es ++ 0 ∷ rest) in
    let is_mark : (c == b'e' || c == b'E') ≡ true = ground arith in
    one_turn n (length (sign_text t ++ es) + suc (suc fuel))
      (parser t_fraction (c ∷ after) tmp k base (pos 0))
      (parser t_exp after [] k (stored n tmp base) (pos 0)) refl
      (mark_turn n c after tmp k base (pos 0) is_mark text small (omega arith) room)
    ∙ exponent_rounds n (suc (suc fuel)) t es (0 ∷ rest) k (stored n tmp base) (pos 0) d
        (omega arith)
    ∙ last_turn n fuel (parser t_exp (0 ∷ rest) (sign_text t ++ es) k (stored n tmp base) (pos 0))
        (0 ∷ rest) (sign_text t ++ es) k (stored n tmp base) (signed_value t (read_digits 0 es))
        refl
        (exponent_end_turn n rest (sign_text t ++ es) k (stored n tmp base) (pos 0)
          (signed_value t (read_digits 0 es)) short (scan_signed t es d some_digits in_range))
