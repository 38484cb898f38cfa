-- ===== src/Number/Shape.antt =====
-- What a round of the number parser does to the text that is left.
use sunspec.Prelude.{
  ℕ, Bool, true, false, ◌||◌, Option, none, some, [], ◌≡◌, ◌≢◌, inl, inr, refl, arith, ◌==◌, leb,
  length, Bool-cases, if◌then◌else◌, Run, ok, fault, ◌>>=◌,
}
use sunspec.Prelude.Bytes.{Bytes}
use sunspec.Prelude.Int.{ℤ}
use sunspec.Number.{
  ParserState, t_start, t_base, t_fraction, t_exp, t_end, Parser, Turn, again, returns_error,
  is_digit, is_sign, after_digit, on_sign, on_digit, on_point, on_exponent, on_end, on_char,
  has_room, copy_base, by_scan, scan_int,
}

-- What a round does to the text that is left: nothing is left to do, or one character less, or
-- the round changes nothing.
pub data Shape (p : Parser) (c : ℕ) (rest : Bytes) : Run Turn → Type 0 where
  faults : Shape p c rest fault
  errs : Shape p c rest (ok returns_error)
  ends : (q : Parser) → q.state ≡ t_end → Shape p c rest (ok (again q))
  moves : (q : Parser) → q.buf ≡ rest → Shape p c rest (ok (again q))
  repeats : is_sign c ≡ true → p.state ≢ t_start → Shape p c rest (ok (again p))

after_digit-buf : (st : ParserState) (q : Parser) → (after_digit st q).buf ≡ q.buf
after_digit-buf t_start q = refl
after_digit-buf t_base q = refl
after_digit-buf t_fraction q = refl
after_digit-buf t_exp q = refl
after_digit-buf t_end q = refl

module _ (n c : ℕ) (rest : Bytes) where
  on_sign-Shape :
      (st : ParserState) (p : Parser)
      → p.state ≡ st
      → is_sign c ≡ true
      → Shape p c rest (on_sign c rest p)
  unfolding on_sign
  on_sign-Shape t_start p e s = elim (Bool-cases (leb 128 (length p.tmpbuf))) [
    | inl full ↦ rw (e, full) faults
    | inr room ↦ rw (e, room) (moves _ refl)
  ]
  on_sign-Shape t_exp p e s = elim (Bool-cases (leb 128 (length p.tmpbuf))) [
    | inl full ↦ rw (e, full) faults
    | inr room ↦ rw (e, room) (moves _ refl)
  ]
  on_sign-Shape t_base p e s = rw e (repeats s (λ h. ground (arith, e, h)))
  on_sign-Shape t_fraction p e s = rw e (repeats s (λ h. ground (arith, e, h)))
  on_sign-Shape t_end p e s = rw e (repeats s (λ h. ground (arith, e, h)))

  on_digit-Shape : (p : Parser) → Shape p c rest (on_digit c rest p)
  unfolding on_digit
  on_digit-Shape p = elim (Bool-cases (leb 128 (length p.tmpbuf))) [
    | inl full ↦ rw full errs
    | inr room ↦ rw room (moves _ (after_digit-buf p.state _))
  ]

  on_point-Shape : (p : Parser) → Shape p c rest (on_point rest p)
  unfolding on_point
  on_point-Shape p =
      elim p.state
        as (λ st. Shape p c rest (elim st [
          | t_start ↦ ok (again (record p { state = t_fraction; buf = rest }))
          | t_base ↦ ok (again (record p { state = t_fraction; buf = rest }))
          | _ ↦ ok returns_error
        ])) [
          | t_start ↦ moves _ refl
          | t_base ↦ moves _ refl
          | t_fraction ↦ errs
          | t_exp ↦ errs
          | t_end ↦ errs
        ]

  -- A step that may fault in front of the others.
  after_check :
      {A : Type 0} (p : Parser) (check : Run A) (next : A → Run Turn)
      → ((a : A) → Shape p c rest (next a))
      → Shape p c rest (check >>= next)
  after_check p (ok a) next h = h a
  after_check p fault next h = faults

  on_exponent-Shape :
      (st : ParserState) (p : Parser) → p.state ≡ st → Shape p c rest (on_exponent n rest p)
  unfolding on_exponent
  on_exponent-Shape st p e = after_check p (has_room p.tmpbuf) _ (λ _. by_state st e)
    where
      by_state :
          (st : ParserState)
          → p.state ≡ st
          → Shape p c rest (elim p.state [
            | t_fraction ↦ do
              q ← copy_base n p
              ok (again (record q { state = t_exp; buf = rest; tmpbuf = [] }))
            | _ ↦ ok returns_error
          ])
      by_state t_fraction e = rw e (after_check _ (copy_base n p) _ (λ q. moves _ refl))
      by_state t_start e = rw e errs
      by_state t_base e = rw e errs
      by_state t_exp e = rw e errs
      by_state t_end e = rw e errs

  by_scan-Shape : (p : Parser) (o : Option ℤ) → Shape p c rest (by_scan p o)
  by_scan-Shape p none = errs
  by_scan-Shape p (some z) = ends _ refl

  on_end-Shape : (st : ParserState) (p : Parser) → p.state ≡ st → Shape p c rest (on_end n p)
  unfolding on_end
  on_end-Shape t_base p e =
      after_check p (has_room p.tmpbuf) _
        (λ _. rw e (after_check _ (copy_base n p) _ (λ q. ends _ refl)))
  on_end-Shape t_fraction p e =
      after_check p (has_room p.tmpbuf) _
        (λ _. rw e (after_check _ (copy_base n p) _ (λ q. ends _ refl)))
  on_end-Shape t_exp p e =
      after_check p (has_room p.tmpbuf) _ (λ _. rw e (by_scan-Shape _ (scan_int p.tmpbuf)))
  on_end-Shape t_start p e = after_check p (has_room p.tmpbuf) _ (λ _. rw e errs)
  on_end-Shape t_end p e = after_check p (has_room p.tmpbuf) _ (λ _. rw e errs)

  -- A choice between two ways on.
  by_test :
      (p : Parser) (b : Bool) (x y : Run Turn)
      → (b ≡ true → Shape p c rest x)
      → Shape p c rest y
      → Shape p c rest (if b then x else y)
  by_test p true x y h k = h refl
  by_test p false x y h k = k

  pub on_char-Shape : (p : Parser) → Shape p c rest (on_char n c rest p)
  unfolding on_char
  on_char-Shape p =
      by_test p (is_sign c) _ _ (λ s. on_sign-Shape p.state p refl s)
        (by_test p (is_digit c) _ _ (λ _. on_digit-Shape p)
          (by_test p (c == b'.') _ _ (λ _. on_point-Shape p)
            (by_test p (c == b'e' || c == b'E') _ _ (λ _. on_exponent-Shape p.state p refl)
              (by_test p (c == 0) _ _ (λ _. on_end-Shape p.state p refl) errs))))
