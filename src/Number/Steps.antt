-- ===== src/Number/Steps.antt =====
-- The rounds of the number parser on each kind of character.
use sunspec.Prelude.{
  ℕ, suc, ◌-◌, ◌≤◌, ◌<◌, true, false, ◌||◌, some, [], ◌∷◌, ◌++◌, ◌≡◌, refl, ◌∙◌, arith, ◌==◌, leb,
  length, length-append, replicate, length-replicate, drop, ok, ◌⊎◌, inl, inr,
}
use sunspec.Prelude.Bytes.{Bytes, overwrite_lem}
use sunspec.Prelude.Copy.{NoZero, strncpy_text}
use sunspec.Prelude.Int.{ℤ}
use sunspec.Number.{
  ParserState, t_start, t_base, t_fraction, t_exp, t_end, Parser, again, is_digit, is_sign, turn,
  on_char, on_digit, on_sign, on_point, rounds, is_end, copy_base, on_exponent, on_end, scan_int,
  finish,
}
use sunspec.Number.Digits.{Ending, one_turn, parser, whole_number, with_point}

module _ (base_len : ℕ) where
  -- The first digit.
  pub first_digit_turn :
      (c : ℕ) (rest : Bytes) (k : ℕ) (base : Bytes) (e : ℤ)
      → b'0' ≤ c
      → c < 58
      → turn base_len (parser t_start (c ∷ rest) [] k base e)
        ≡ ok (again (parser t_base rest (c ∷ []) k base e))
  unfolding turn on_char on_digit
  first_digit_turn c rest k base e lo hi =
      let sign : is_sign c ≡ false = ground arith in
      let digit : is_digit c ≡ true = ground arith in rw (sign, digit) refl

  -- The sign in front.
  pub first_sign_turn :
      (c : ℕ) (rest : Bytes) (k : ℕ) (base : Bytes) (e : ℤ)
      → is_sign c ≡ true
      → turn base_len (parser t_start (c ∷ rest) [] k base e)
        ≡ ok (again (parser t_base rest (c ∷ []) k base e))
  unfolding turn on_char on_sign
  first_sign_turn c rest k base e sign = rw sign refl

  pub point_turn :
      (st : ParserState) (rest tmp : Bytes) (k : ℕ) (base : Bytes) (e : ℤ)
      → (st ≡ t_start) ⊎ (st ≡ t_base)
      → turn base_len (parser st (b'.' ∷ rest) tmp k base e)
        ≡ ok (again (parser t_fraction rest tmp k base e))
  unfolding turn on_char on_point
  point_turn st rest tmp k base e s = elim s [ inl p ↦ rw p refl | inr p ↦ rw p refl ]

  -- The exponent's sign.
  pub exponent_sign_turn :
      (c : ℕ) (rest : Bytes) (k : ℕ) (base : Bytes) (e : ℤ)
      → is_sign c ≡ true
      → turn base_len (parser t_exp (c ∷ rest) [] k base e)
        ≡ ok (again (parser t_exp rest (c ∷ []) k base e))
  unfolding turn on_char on_sign
  exponent_sign_turn c rest k base e sign = rw sign refl

  -- The base, copied to the caller's buffer where it fits.
  abbrev pub stored : (tmp base : Bytes) → Bytes
  stored tmp base = (tmp ++ replicate (base_len - length tmp) 0) ++ drop base_len base

  copy_base_lem :
      (st : ParserState) (buf tmp : Bytes) (k : ℕ) (base : Bytes) (e : ℤ)
      → NoZero tmp
      → length tmp ≤ base_len
      → base_len ≤ length base
      → copy_base base_len (parser st buf tmp k base e)
        ≡ ok (parser st buf tmp k (stored tmp base) e)
  copy_base_lem st buf tmp k base e text fits room =
      let copied = tmp ++ replicate (base_len - length tmp) 0 in
      let size : length copied ≡ base_len =
        length-append tmp _ ∙ omega (arith, length-replicate {A = ℕ} (base_len - length tmp) 0) in
      rw
        (strncpy_text tmp base_len text fits, overwrite_lem base copied (omega (arith, size)), size)
        refl

  -- The mark of an exponent.
  pub mark_turn :
      (c : ℕ) (rest tmp : Bytes) (k : ℕ) (base : Bytes) (e : ℤ)
      → (c == b'e' || c == b'E') ≡ true
      → NoZero tmp
      → length tmp < 128
      → length tmp ≤ base_len
      → base_len ≤ length base
      → turn base_len (parser t_fraction (c ∷ rest) tmp k base e)
        ≡ ok (again (parser t_exp rest [] k (stored tmp base) e))
  unfolding turn on_char on_exponent
  mark_turn c rest tmp k base e mark text small fits room =
      let sign : is_sign c ≡ false = ground arith in
      let digit : is_digit c ≡ false = ground arith in
      let point : (c == b'.') ≡ false = ground arith in
      let free : leb 128 (length tmp) ≡ false = ground arith in
      rw
        (
          sign,
          digit,
          point,
          mark,
          free,
          copy_base_lem t_fraction (c ∷ rest) tmp k base e text fits room,
        )
        refl

  -- The last round.
  pub last_turn :
      (fuel : ℕ) (p : Parser) (buf tmp : Bytes) (k : ℕ) (base : Bytes) (e : ℤ)
      → is_end p.state ≡ false
      → turn base_len p ≡ ok (again (parser t_end buf tmp k base e))
      → rounds base_len (suc (suc fuel)) p ≡ some (ok (finish (parser t_end buf tmp k base e)))
  unfolding rounds
  last_turn fuel p buf tmp k base e running end =
      one_turn base_len (suc fuel) p (parser t_end buf tmp k base e) running end ∙ refl

  -- The end of a number without exponent.
  pub base_end_turn :
      (st : ParserState) (rest tmp : Bytes) (k : ℕ) (base : Bytes) (e : ℤ)
      → Ending st
      → NoZero tmp
      → length tmp < 128
      → length tmp ≤ base_len
      → base_len ≤ length base
      → turn base_len (parser st (0 ∷ rest) tmp k base e)
        ≡ ok (again (parser t_end (0 ∷ rest) tmp k (stored tmp base) e))
  unfolding turn on_char on_end
  base_end_turn st rest tmp k base e s text small fits room =
      let free : leb 128 (length tmp) ≡ false = ground arith in
      let copy = λ (st : ParserState). copy_base_lem st (0 ∷ rest) tmp k base e text fits room in
      elim s
        as (λ st _.
          turn base_len (parser st (0 ∷ rest) tmp k base e)
          ≡ ok (again (parser t_end (0 ∷ rest) tmp k (stored tmp base) e))) [
            | whole_number ↦ rw (free, copy t_base) refl
            | with_point ↦ rw (free, copy t_fraction) refl
          ]

  -- The end of an exponent.
  pub exponent_end_turn :
      (rest tmp : Bytes) (k : ℕ) (base : Bytes) (e z : ℤ)
      → length tmp < 128
      → scan_int tmp ≡ some z
      → turn base_len (parser t_exp (0 ∷ rest) tmp k base e)
        ≡ ok (again (parser t_end (0 ∷ rest) tmp k base z))
  unfolding turn on_char on_end
  exponent_end_turn rest tmp k base e z small scan =
      let free : leb 128 (length tmp) ≡ false = ground arith in rw (free, scan) refl
