-- ===== src/Number/Ends.antt =====
-- When the loop of the number parser ends.
use sunspec.Number.Shape.{Shape, faults, errs, ends, moves, repeats, on_char-Shape}
use sunspec.Prelude.{
  ℕ, zero, suc, ◌+◌, ◌≤◌, ◌<◌, true, false, none, some, [], ◌∷◌, ◌++◌, ◌≡◌, ◌⊎◌, inl, inr, refl,
  sym, ap, ◌∙◌, arith, length, Bool-cases, Run, ok, fault,
}
use sunspec.Prelude.Bytes.{Bytes, overwrite}
use sunspec.Number.Digits.{one_turn}
use sunspec.Number.{
  ParserState, t_start, Parser, Turn, again, returns_error, is_sign, on_char, turn, is_end, rounds,
  Parsed, start, string_decompose_decimal, failed, finish,
}

-- A sign stands in the text, and not at its start when the parser is in its first state.
abbrev pub Misplaced : ParserState → Bytes → Type 0
Misplaced st buf =
    (pre : Bytes) × (c : ℕ) × (post : Bytes) × (buf ≡ pre ++ c ∷ post)
    × (is_sign c ≡ true)
    × (st ≡ t_start → 0 < length pre)

-- The loop ends with a result, or it never ends.
abbrev Stops : (n fuel : ℕ) → Parser → Type 0
Stops n fuel p =
    ((r : Run Parsed) × (rounds n fuel p ≡ some r))
    ⊎ (((k : ℕ) → rounds n k p ≡ none) × Misplaced p.state p.buf)

module _ (n : ℕ) where
  pub repeated :
      (k : ℕ) (p : Parser) → is_end p.state ≡ false → turn n p ≡ ok (again p) → rounds n k p ≡ none
  unfolding rounds
  repeated zero p running e = refl
  repeated (suc k) p running e = one_turn n k p p running e ∙ repeated k p running e

  fault_turn :
      (k : ℕ) (p : Parser)
      → is_end p.state ≡ false
      → turn n p ≡ fault
      → rounds n (suc k) p ≡ some fault
  unfolding rounds
  fault_turn k p running e = ground (arith, running, e)

  pub error_turn :
      (k : ℕ) (p : Parser)
      → is_end p.state ≡ false
      → turn n p ≡ ok returns_error
      → rounds n (suc k) p ≡ some (ok (failed p))
  unfolding rounds
  error_turn k p running e = ground (arith, running, e)

  ended : (k : ℕ) (p : Parser) → is_end p.state ≡ true → rounds n (suc k) p ≡ some (ok (finish p))
  unfolding rounds
  ended k p e = ground (arith, e)

  none_before :
      (p q : Parser)
      → is_end p.state ≡ false
      → turn n p ≡ ok (again q)
      → ((k : ℕ) → rounds n k q ≡ none)
      → (k : ℕ) → rounds n k p ≡ none
  unfolding rounds
  none_before p q running e h zero = refl
  none_before p q running e h (suc k) = one_turn n k p q running e ∙ h k

  moved :
      (fuel : ℕ) (p q : Parser) (c : ℕ) (rest : Bytes)
      → p.buf ≡ c ∷ rest
      → q.buf ≡ rest
      → is_end p.state ≡ false
      → turn n p ≡ ok (again q)
      → Stops n fuel q
      → Stops n (suc fuel) p
  moved fuel p q c rest e f running t (inl (r, h)) = inl (r, one_turn n fuel p q running t ∙ h)
  moved fuel p q c rest e f running t (inr (h, (pre, d, post, at, sign, _))) = inr (
    none_before p q running t h,
    (c ∷ pre, d, post, e ∙ ap (◌∷◌ c) (sym f ∙ at), sign, λ _. omega arith),
  )

  next_turn :
      (fuel : ℕ) (p : Parser) (c : ℕ) (rest : Bytes) (t : Run Turn)
      → Shape p c rest t
      → p.buf ≡ c ∷ rest
      → is_end p.state ≡ false
      → turn n p ≡ t
      → length rest + 2 ≤ fuel
      → ((q : Parser) → length q.buf + 2 ≤ fuel → Stops n fuel q)
      → Stops n (suc fuel) p
  next_turn fuel p c rest _ faults e running t h next = inl (fault, fault_turn fuel p running t)
  next_turn fuel p c rest _ errs e running t h next =
      inl (ok (failed p), error_turn fuel p running t)
  next_turn zero p c rest _ (ends q s) e running t h next = absurd (omega arith)
  next_turn (suc fuel) p c rest _ (ends q s) e running t h next =
      inl (ok (finish q), one_turn n (suc fuel) p q running t ∙ ended fuel q (ap is_end s))
  next_turn fuel p c rest _ (moves q f) e running t h next =
      moved fuel p q c rest e f running t (next q (omega (arith, ap (length {A = ℕ}) f)))
  next_turn fuel p c rest _ (repeats sign s) e running t h next =
      inr (λ k. repeated k p running t, ([], c, rest, e, sign, λ f. absurd (s f)))

  turn_at :
      (p : Parser) (buf : Bytes)
      → p.buf ≡ buf
      → turn n p ≡ elim buf [ [] ↦ fault | c ∷ rest ↦ on_char n c rest p ]
  unfolding turn
  turn_at p buf e = ap (λ (b : Bytes). elim b [ [] ↦ fault | c ∷ rest ↦ on_char n c rest p ]) e

  first_char :
      (fuel : ℕ) (p : Parser) (buf : Bytes)
      → p.buf ≡ buf
      → is_end p.state ≡ false
      → length buf + 1 ≤ fuel
      → ((q : Parser) → length q.buf + 2 ≤ fuel → Stops n fuel q)
      → Stops n (suc fuel) p
  first_char fuel p [] e running h next = inl (fault, fault_turn fuel p running (turn_at p [] e))
  first_char fuel p (c ∷ rest) e running h next =
      next_turn fuel p c rest (on_char n c rest p) (on_char-Shape n c rest p) e running
        (turn_at p (c ∷ rest) e) (omega arith) next

  rounds-Stops : (fuel : ℕ) (p : Parser) → length p.buf + 2 ≤ fuel → Stops n fuel p
  rounds-Stops zero p h = absurd (omega arith)
  rounds-Stops (suc fuel) p h = elim (Bool-cases (is_end p.state)) [
    | inl e ↦ inl (ok (finish p), ended fuel p e)
    | inr running ↦ first_char fuel p p.buf refl running (omega arith) (rounds-Stops fuel)
  ]

-- On every text, the parser ends within one round for each byte of the text and two more, or it
-- never ends; and it never ends only on a text in which a sign stands behind the first character.
pub string_decompose_decimal_stops :
    (n : ℕ) (buf base : Bytes)
    → ((r : Run Parsed) × (string_decompose_decimal (length buf + 2) buf base n ≡ some r))
      ⊎ (((fuel : ℕ) → string_decompose_decimal fuel buf base n ≡ none)
          × ((pre : Bytes) × (c : ℕ) × (post : Bytes) × (buf ≡ pre ++ c ∷ post)
              × (is_sign c ≡ true)
              × (0 < length pre)))
unfolding string_decompose_decimal overwrite
string_decompose_decimal_stops n buf [] = inl (fault, refl)
string_decompose_decimal_stops n buf (b ∷ base) =
    elim (rounds-Stops n (length buf + 2) (start buf (0 ∷ base)) (omega arith)) [
      | inl h ↦ inl h
      | inr (h, (pre, c, post, e, s, first)) ↦ inr (h, (pre, c, post, e, s, first refl))
    ]
