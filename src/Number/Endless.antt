-- ===== src/Number/Endless.antt =====
-- A text on which the number parser never ends.
use sunspec.Number.Ends.{repeated}
use sunspec.Prelude.{
  ℕ, zero, suc, ◌+◌, ◌≤◌, ◌<◌, true, false, none, [], ◌∷◌, ◌++◌, ◌≡◌, inl, inr, refl, sym, ◌∙◌,
  arith, length, drop, Bool-cases, Run, ok, fault,
}
use sunspec.Prelude.Bytes.{Bytes}
use sunspec.Prelude.Int.{ℤ, pos}
use sunspec.Number.Digits.{one_turn, parser}
use sunspec.Number.Literals.{Sign, sign_text, IsWhole}
use sunspec.Number.Rounds.{whole_rounds}
use sunspec.Number.Reads.{cleared_start}
use sunspec.Number.{
  t_start, t_base, Parser, Turn, again, returns_error, is_sign, on_sign, on_char, turn, is_end,
  rounds, string_decompose_decimal,
}

module _ (n : ℕ) where
  by_turn :
      (fuel : ℕ) (p : Parser) (t : Run Turn)
      → turn n p ≡ t
      → is_end p.state ≡ false
      → rounds n (suc (suc fuel)) p ≡ none
      → ((q : Parser) → rounds n (suc fuel) q ≡ none → rounds n fuel q ≡ none)
      → rounds n (suc fuel) p ≡ none
  unfolding rounds
  by_turn fuel p fault t e h less = ground (arith, h, t, e)
  by_turn fuel p (ok returns_error) t e h less = ground (arith, h, t, e)
  by_turn fuel p (ok (again q)) t e h less =
      one_turn n fuel p q e t ∙ less q (sym (one_turn n (suc fuel) p q e t) ∙ h)

  -- A loop that runs for one round more also runs for this many.
  still_running : (fuel : ℕ) (p : Parser) → rounds n (suc fuel) p ≡ none → rounds n fuel p ≡ none
  unfolding rounds
  still_running zero p h = refl
  still_running (suc fuel) p h = elim (Bool-cases (is_end p.state)) [
    | inl e ↦ ground (arith, h, e)
    | inr e ↦ by_turn fuel p (turn n p) refl e h (still_running fuel)
  ]

  running_before : (k fuel : ℕ) (p : Parser) → rounds n (k + fuel) p ≡ none → rounds n fuel p ≡ none
  running_before zero fuel p h = let z : 0 + fuel ≡ fuel = omega arith in rw z at h
  running_before (suc k) fuel p h =
      let z : suc k + fuel ≡ suc (k + fuel) = omega arith in
      running_before k fuel p (still_running (k + fuel) p (rw z at h))

  sign_repeats :
      (c : ℕ) (post tmp : Bytes) (k : ℕ) (base : Bytes) (e : ℤ)
      → is_sign c ≡ true
      → turn n (parser t_base (c ∷ post) tmp k base e)
        ≡ ok (again (parser t_base (c ∷ post) tmp k base e))
  unfolding turn on_char on_sign
  sign_repeats c post tmp k base e s = rw s refl

-- On digits, at most 128 with a sign in front, that are followed by a sign, the parser never ends.
pub string_decompose_decimal_endless :
    (n : ℕ) (s : Sign) (ds : Bytes) (c : ℕ) (post base : Bytes)
    → IsWhole s ds
    → length (sign_text s ++ ds) ≤ 128
    → is_sign c ≡ true
    → 0 < length base
    → (fuel : ℕ) → string_decompose_decimal fuel (sign_text s ++ (ds ++ c ∷ post)) base n ≡ none
string_decompose_decimal_endless n s ds c post base wf room sign some_room fuel =
    let p = parser t_base (c ∷ post) (sign_text s ++ ds) 0 (0 ∷ drop 1 base) (pos 0) in
    cleared_start fuel n (sign_text s ++ (ds ++ c ∷ post)) base some_room
    ∙ running_before n (length (sign_text s ++ (ds ++ []))) fuel
        (parser t_start (sign_text s ++ (ds ++ c ∷ post)) [] 0 (0 ∷ drop 1 base) (pos 0))
        (whole_rounds n fuel s ds (c ∷ post) (0 ∷ drop 1 base) wf room
          ∙ repeated n fuel p refl
              (sign_repeats n c post (sign_text s ++ ds) 0 (0 ∷ drop 1 base) (pos 0) sign))
