-- ===== src/Number/Digits.antt =====
-- The rounds of the number parser on digits.
use mathlib.Core.List.{append_assoc, append-nil}
use sunspec.Prelude.{
  ℕ, suc, ◌+◌, ◌≤◌, ◌<◌, true, false, [], ◌∷◌, ◌++◌, ◌≡◌, refl, ◌∙◌, arith, leb, length,
  length-append, ok,
}
use sunspec.Prelude.Bytes.{Bytes}
use sunspec.Prelude.Int.{ℤ}
use sunspec.Output.Decimal.{AllDigits}
use sunspec.Number.{
  ParserState, t_base, t_fraction, t_exp, Parser, again, is_digit, is_sign, turn, on_char, on_digit,
  rounds, is_end,
}

abbrev pub parser : ParserState → (buf tmpbuf : Bytes) → ℕ → Bytes → ℤ → Parser
parser st buf tmpbuf places base e = record {
  state = st;
  buf = buf;
  tmpbuf = tmpbuf;
  decimal_places = places;
  base = base;
  e = e;
}

-- The states in which digits follow digits.
pub data Reading : ParserState → Type 0 where
  whole : Reading t_base
  behind : Reading t_fraction
  exponent : Reading t_exp

-- The states in which a number without exponent ends.
pub data Ending : ParserState → Type 0 where
  whole_number : Ending t_base
  with_point : Ending t_fraction

-- The decimal places counted after `n` more digits.
abbrev pub places : ParserState → ℕ → ℕ → ℕ
places t_fraction k n = k + n
places _ k n = k

module _ (base_len : ℕ) where
  -- One round that goes on.
  pub one_turn :
      (fuel : ℕ) (p q : Parser)
      → is_end p.state ≡ false
      → turn base_len p ≡ ok (again q)
      → rounds base_len (suc fuel) p ≡ rounds base_len fuel q
  unfolding rounds
  one_turn fuel p q running e = ground (arith, running, e)

  digit_turn :
      (st : ParserState) (c : ℕ) (rest tmp : Bytes) (k : ℕ) (base : Bytes) (e : ℤ)
      → Reading st
      → b'0' ≤ c
      → c < 58
      → length tmp < 128
      → turn base_len (parser st (c ∷ rest) tmp k base e)
        ≡ ok (again (parser st rest (tmp ++ c ∷ []) (places st k 1) base e))
  unfolding turn on_char on_digit
  digit_turn st c rest tmp k base e r lo hi room =
      let sign : is_sign c ≡ false = ground arith in
      let digit : is_digit c ≡ true = ground arith in
      let free : leb 128 (length tmp) ≡ false = ground arith in
      elim r
        as (λ st _.
          turn base_len (parser st (c ∷ rest) tmp k base e)
          ≡ ok (again (parser st rest (tmp ++ c ∷ []) (places st k 1) base e))) [
            | whole ↦ rw (sign, digit, free) refl
            | behind ↦ rw (sign, digit, free) refl
            | exponent ↦ rw (sign, digit, free) refl
          ]

  places-suc :
      (st : ParserState) (k n : ℕ) → Reading st → places st (places st k 1) n ≡ places st k (suc n)
  places-suc st k n whole = refl
  places-suc st k n behind = omega arith
  places-suc st k n exponent = refl

  places-zero : (st : ParserState) (k : ℕ) → Reading st → places st k 0 ≡ k
  places-zero st k whole = refl
  places-zero st k behind = omega arith
  places-zero st k exponent = refl

  running : {st : ParserState} → Reading st → is_end st ≡ false
  running whole = refl
  running behind = refl
  running exponent = refl

  -- Digits go to the temporary buffer, a round for each.
  pub digits_rounds :
      (fuel : ℕ) (st : ParserState) (ds rest tmp : Bytes) (k : ℕ) (base : Bytes) (e : ℤ)
      → Reading st
      → AllDigits ds
      → length tmp + length ds ≤ 128
      → rounds base_len (length ds + fuel) (parser st (ds ++ rest) tmp k base e)
        ≡ rounds base_len fuel (parser st rest (tmp ++ ds) (places st k (length ds)) base e)
  digits_rounds fuel st [] rest tmp k base e r d room =
      let z : 0 + fuel ≡ fuel = omega arith in rw (z, append-nil tmp, places-zero st k r) refl
  digits_rounds fuel st (c ∷ ds) rest tmp k base e r d room =
      let s : suc (length ds) + fuel ≡ suc (length ds + fuel) = omega arith in
      let more : length (tmp ++ c ∷ []) ≡ length tmp + 1 = length-append tmp (c ∷ []) in
      let next = parser st (ds ++ rest) (tmp ++ c ∷ []) (places st k 1) base e in
      rw s (
        one_turn (length ds + fuel) (parser st (c ∷ ds ++ rest) tmp k base e) next (running r)
          (digit_turn st c (ds ++ rest) tmp k base e r d.0 d.1 (omega arith)))
      ∙ digits_rounds fuel st ds rest (tmp ++ c ∷ []) (places st k 1) base e r d.2 (omega arith)
      ∙ rw (append_assoc tmp (c ∷ []) ds, places-suc st k (length ds) r) refl
