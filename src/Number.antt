-- ===== src/Number.antt =====
-- The parser of decimal numbers: string_decompose_decimal of src/lib/trx/string.c. A text is the bytes of the object from the pointer on, with its zero byte.
pub mod Ends
pub mod Endless
pub mod Shape
pub mod Literals
pub mod Reads
pub mod Rounds
pub mod RoundTrip
pub mod Printed
pub mod Steps
pub mod Digits
use sunspec.Prelude.{
  ℕ, zero, suc, ◌+◌, ◌-◌, ◌*◌, Bool, true, false, ◌&&◌, ◌||◌, Option, none, some, [], ◌∷◌, ◌++◌,
  ◌^◌, ◌==◌, ltb, leb, min, if◌then◌else◌, length, Run, ok, fault, ◌>>=◌,
}
use sunspec.Prelude.Bytes.{Bytes, strncpy, overwrite}
use sunspec.Prelude.Int.{ℤ, pos, negsuc, ◌-ℤ◌, sub_ℕ, signed32, word_of}

-- `decimal_parser_state_t`
pub data ParserState : Type 0 where
  t_start : ParserState
  t_base : ParserState
  t_fraction : ParserState
  t_exp : ParserState
  t_end : ParserState

-- The variables of the loop. `buf` is the text from `buf_char` on, and `tmpbuf` holds the bytes
-- before `tmpbuf_char`.
pub record Parser : Type 0 where
  pub state : ParserState
  pub buf : Bytes
  pub tmpbuf : Bytes
  pub decimal_places : ℕ
  pub base : Bytes
  pub e : ℤ

-- A round of the loop goes on or returns -1.
pub data Turn : Type 0 where
  again : Parser → Turn
  returns_error : Turn

-- BUFFER_SIZE
abbrev pub tmpbuf_size : ℕ
tmpbuf_size = 128

abbrev pub is_digit : ℕ → Bool
is_digit c = leb b'0' c && leb c b'9'

abbrev pub is_sign : ℕ → Bool
is_sign c = c == b'-' || c == b'+'

-- `tmpbuf[tmpbuf_char++] = buf[buf_char++]`
abbrev pub take_char : (c : ℕ) (rest : Bytes) → Parser → Run Parser
take_char c rest p =
    if leb tmpbuf_size (length p.tmpbuf)
    then fault
    else ok (record p { buf = rest; tmpbuf = p.tmpbuf ++ c ∷ [] })

unfoldable pub on_sign : (c : ℕ) (rest : Bytes) → Parser → Run Turn
on_sign c rest p = elim p.state [
  | t_start ↦ do q ← take_char c rest p; ok (again (record q { state = t_base }))
  | t_exp ↦ do q ← take_char c rest p; ok (again q)
  | _ ↦ ok (again p)
]

abbrev pub after_digit : ParserState → Parser → Parser
after_digit t_start p = record p { state = t_base }
after_digit t_fraction p = record p { decimal_places = p.decimal_places + 1 }
after_digit t_base p = p
after_digit t_exp p = p
after_digit t_end p = p

unfoldable pub on_digit : (c : ℕ) (rest : Bytes) → Parser → Run Turn
on_digit c rest p =
    if leb tmpbuf_size (length p.tmpbuf)
    then ok returns_error
    else do q ← take_char c rest p; ok (again (after_digit p.state q))

unfoldable pub on_point : (rest : Bytes) → Parser → Run Turn
on_point rest p = elim p.state [
  | t_start ↦ ok (again (record p { state = t_fraction; buf = rest }))
  | t_base ↦ ok (again (record p { state = t_fraction; buf = rest }))
  | _ ↦ ok returns_error
]

-- `tmpbuf[tmpbuf_char] = '\0'` is inside the buffer.
abbrev pub has_room : Bytes → Run Bool
has_room tmpbuf = if leb tmpbuf_size (length tmpbuf) then fault else ok true

-- `strncpy(base, tmpbuf, base_len)`
abbrev pub copy_base : (base_len : ℕ) → Parser → Run Parser
copy_base base_len p = do
  copied ← strncpy (p.tmpbuf ++ 0 ∷ []) base_len
  base ← overwrite p.base copied
  ok (record p { base = base })

unfoldable pub on_exponent : (base_len : ℕ) (rest : Bytes) → Parser → Run Turn
on_exponent base_len rest p = do
  _ ← has_room p.tmpbuf
  elim p.state [
    | t_fraction ↦ do
      q ← copy_base base_len p
      ok (again (record q { state = t_exp; buf = rest; tmpbuf = [] }))
    | _ ↦ ok returns_error
  ]

-- The digits at the front of a text, behind those that make `m`.
unfoldable pub scan_digits : ℕ → Bytes → ℕ
scan_digits m [] = m
scan_digits m (c ∷ s) = if is_digit c then scan_digits (m * 10 + (c - b'0')) s else m

abbrev starts_with_digit : Bytes → Bool
starts_with_digit [] = false
starts_with_digit (c ∷ s) = is_digit c

abbrev scan_unsigned : Bool → Bytes → Option ℤ
scan_unsigned negative s =
    let n = scan_digits 0 s in
    if starts_with_digit s then some (if negative then sub_ℕ 0 n else pos n) else none

-- The integer at the front of a text without blanks, of any size.
unfoldable pub scan_number : Bytes → Option ℤ
scan_number [] = none
scan_number (c ∷ s) =
    if c == b'-'
    then scan_unsigned true s
    else if c == b'+'
    then scan_unsigned false s
    else scan_unsigned false (c ∷ s)

-- `strtol` and `strtoul` keep a number out of the range of `long` or `unsigned long` at its end, and
-- `strtoul` takes a negative number modulo 2^64. The numbers are of 64 bits.
abbrev pub saturated : (signed : Bool) → ℤ → ℤ
saturated true (pos n) = pos (min n (2 ^ 63 - 1))
saturated true (negsuc n) = negsuc (min n (2 ^ 63 - 1))
saturated false (pos n) = pos (min n (2 ^ 64 - 1))
saturated false (negsuc n) = if ltb n (2 ^ 64 - 1) then negsuc n else pos (2 ^ 64 - 1)

-- What `%d` stores of a number: the low 32 bits of the `long`. The C standard leaves it open where
-- the number is none of an `int`; glibc does this.
abbrev pub stored_int : ℤ → ℤ
stored_int z = signed32 (word_of 32 (saturated true z))

abbrev stored_scan : Option ℤ → Option ℤ
stored_scan none = none
stored_scan (some z) = some (stored_int z)

-- `sscanf(…, "%d", …)`
unfoldable pub scan_int : Bytes → Option ℤ
scan_int s = stored_scan (scan_number s)

abbrev by_scan : Parser → Option ℤ → Run Turn
by_scan p none = ok returns_error
by_scan p (some e) = ok (again (record p { state = t_end; e = e }))

unfoldable pub on_end : (base_len : ℕ) → Parser → Run Turn
on_end base_len p = do
  _ ← has_room p.tmpbuf
  let end = (do q ← copy_base base_len p; ok (again (record q { state = t_end })))
  elim p.state [
    | t_base ↦ end
    | t_fraction ↦ end
    | t_exp ↦ by_scan p (scan_int p.tmpbuf)
    | _ ↦ ok returns_error
  ]

-- The `switch` on the character.
unfoldable pub on_char : (base_len c : ℕ) (rest : Bytes) → Parser → Run Turn
on_char base_len c rest p =
    if is_sign c
    then on_sign c rest p
    else if is_digit c
    then on_digit c rest p
    else if c == b'.'
    then on_point rest p
    else if c == b'e' || c == b'E'
    then on_exponent base_len rest p
    else if c == 0
    then on_end base_len p
    else ok returns_error

unfoldable pub turn : (base_len : ℕ) → Parser → Run Turn
turn base_len p = elim p.buf [ [] ↦ fault | c ∷ rest ↦ on_char base_len c rest p ]

-- The result and what the two pointers refer to.
pub record Parsed : Type 0 where
  pub rc : ℤ
  pub base : Bytes
  pub e : ℤ

abbrev pub finish : Parser → Parsed
finish p = record { rc = pos 0; base = p.base; e = p.e -ℤ pos p.decimal_places }

abbrev pub failed : Parser → Parsed
failed p = record { rc = negsuc 0; base = p.base; e = p.e }

abbrev pub is_end : ParserState → Bool
is_end t_end = true
is_end _ = false

-- The loop; `none` is for a loop that is still running when the rounds are used up.
unfoldable pub rounds : (base_len fuel : ℕ) → Parser → Option (Run Parsed)
rounds base_len zero p = none
rounds base_len (suc fuel) p = elim (is_end p.state) [
  | true ↦ some (ok (finish p))
  | false ↦ elim (turn base_len p) [
    | fault ↦ some fault
    | ok returns_error ↦ some (ok (failed p))
    | ok (again q) ↦ rounds base_len fuel q
  ]
]

-- `*base` and `*e` are cleared first.
abbrev pub start : (buf base : Bytes) → Parser
start buf base = record {
  state = t_start;
  buf = buf;
  tmpbuf = [];
  decimal_places = 0;
  base = base;
  e = pos 0;
}

unfoldable pub string_decompose_decimal :
    (fuel : ℕ) (buf base : Bytes) (base_len : ℕ) → Option (Run Parsed)
string_decompose_decimal fuel buf base base_len = elim (overwrite base (0 ∷ [])) [
  | fault ↦ some fault
  | ok cleared ↦ rounds base_len fuel (start buf cleared)
]
