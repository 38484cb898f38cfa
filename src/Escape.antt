-- ===== src/Escape.antt =====
-- The text functions of src/lib/trx/string.c beside the number parser: escaping, trimming of
-- quotes, and copies that grow. A text is the object from the pointer on, with its zero byte, and
-- `out` the object that is written to. A `char` is signed.
pub mod Xml
pub mod Unescape
use sunspec.Prelude.{
  ℕ, zero, suc, ◌+◌, ◌-◌, ◌/◌, ◌%◌, ◌^◌, Bool, true, false, ◌||◌, Option, none, some, List, [], ◌∷◌,
  ◌++◌, ◌==◌, ltb, leb, if◌then◌else◌, length, get_or, Run, ok, fault, ◌>>=◌,
}
use sunspec.Prelude.Bytes.{Bytes, codes, strncpy, overwrite}
use sunspec.Prelude.Copy.{c_string}
use sunspec.Prelude.Int.{ℤ, pos, negsuc}
use sunspec.Buffer.Memory.{write_at}

-- `out_len - n` as a `size_t`
abbrev pub space_behind : ℕ → ℕ → ℕ
space_behind out_len n = (2 ^ 64 + out_len - n) % 2 ^ 64

-- The character is written once for each of `esc_chars`, after `esc` where it is that one.
unfoldable pub escape_char :
    (c : ℕ) (esc_chars : Bytes) (esc at : ℕ) (out : Bytes) → Run (ℕ × Bytes)
escape_char c [] esc at out = fault
escape_char c (e ∷ chars) esc at out =
    let new : Bytes = if c == e then esc ∷ c ∷ [] else c ∷ [] in
    let next = (do
      written ← write_at at new out
      escape_char c chars esc (at + length new) written) in
    if e == 0 then ok (at, out) else next

-- The length of what is left of the text, escaped.
unfoldable pub over_run : (at : ℕ) → Bytes → Run ℕ
over_run at [] = fault
over_run at (c ∷ s) =
    let rest = over_run (if c == b'"' || c == 39 || c == b'\\' then at + 2 else at + 1) s in
    if c == 0 then ok at else rest

unfoldable pub escape_from :
    Bytes → (at : ℕ) (out : Bytes) (out_len : ℕ) (esc_chars : Bytes) (esc : ℕ) → Run (ℕ × Bytes)
escape_from [] at out out_len esc_chars esc = fault
escape_from (c ∷ s) at out out_len esc_chars esc =
    let end = (do cut ← write_at at (0 ∷ []) out; ok (at, cut)) in
    let next = (do
      (to, written) ← escape_char c esc_chars esc at out
      escape_from s to written out_len esc_chars esc) in
    let truncate = (do cut ← write_at at (0 ∷ []) out; n ← over_run at (c ∷ s); ok (n, cut)) in
    if ltb at (space_behind out_len 2) then if c == 0 then end else next else truncate

unfoldable pub string_escape :
    (text out : Bytes) (out_len : ℕ) (esc_chars : Bytes) (esc : ℕ) → Run (ℕ × Bytes)
string_escape text out out_len esc_chars esc = escape_from text 0 out out_len esc_chars esc

unfoldable pub string_escape_cstyle : (text out : Bytes) (out_len : ℕ) → Run (ℕ × Bytes)
unfolding string_escape
string_escape_cstyle text out out_len =
    string_escape text out out_len (b'\\' ∷ 39 ∷ b'"' ∷ 0 ∷ []) b'\\'

unfoldable pub string_escape_sql : (text out : Bytes) (out_len : ℕ) → Run (ℕ × Bytes)
unfolding string_escape
string_escape_sql text out out_len = string_escape text out out_len (39 ∷ 0 ∷ []) 39

-- `xml_escape_map_t`
pub record XmlEscape : Type 0 where
  pub glyph : ℕ
  pub entity : Bytes

abbrev pub xml_map : List XmlEscape
xml_map =
    record { glyph = b'"'; entity = codes "&quot;" }
    ∷ record { glyph = 39; entity = codes "&apos;" }
    ∷ record { glyph = b'<'; entity = codes "&lt;" }
    ∷ record { glyph = b'>'; entity = codes "&gt;" }
    ∷ record { glyph = b'&'; entity = codes "&amp;" }
    ∷ []

unfoldable pub search_map : ℕ → List XmlEscape → Option Bytes
search_map c [] = none
search_map c (m ∷ ms) = if c == m.glyph then some m.entity else search_map c ms

abbrev hex_digit : ℕ → ℕ
hex_digit n = if ltb n 10 then b'0' + n else b'a' + (n - 10)

-- `%02x` of a `char`: a negative one has the eight digits of its `int`.
unfoldable pub hex_char : ℕ → Bytes
hex_char c =
    let low : Bytes = hex_digit (c / 16) ∷ hex_digit (c % 16) ∷ [] in
    if ltb c 128 then low else codes "ffffff" ++ low

-- A string and its zero byte, if there is more space than it has bytes; the offset then moves on
-- by `step`.
abbrev pub put_string : (text : Bytes) (step out_len at : ℕ) (out : Bytes) → Run (ℕ × Bytes)
put_string text step out_len at out =
    let put = (do written ← write_at at (text ++ 0 ∷ []) out; ok (at + step, written)) in
    if ltb step (space_behind out_len at) then put else ok (at, out)

-- A character that has no entity in the table.
abbrev pub put_other : (c out_len at : ℕ) (out : Bytes) → Run (ℕ × Bytes)
put_other c out_len at out =
    let copy = (do written ← write_at at (c ∷ []) out; ok (at + 1, written)) in
    if ltb c 32 || leb 128 c
    then put_string (codes "&#" ++ (hex_char c ++ b';' ∷ [])) 5 out_len at out
    else if c == 127
    then put_string (codes "&#127;") 6 out_len at out
    else copy

abbrev by_entity : Option Bytes → (c out_len at : ℕ) (out : Bytes) → Run (ℕ × Bytes)
by_entity none c out_len at out = put_other c out_len at out
by_entity (some entity) c out_len at out = put_string entity (length entity) out_len at out

unfoldable pub escape_xml_char : (c out_len at : ℕ) (out : Bytes) → Run (ℕ × Bytes)
escape_xml_char c out_len at out = by_entity (search_map c xml_map) c out_len at out

unfoldable pub escape_xml_from : Bytes → (out_len at : ℕ) (out : Bytes) → Run (ℕ × Bytes)
escape_xml_from [] out_len at out = fault
escape_xml_from (c ∷ s) out_len at out =
    let end = (do written ← write_at at (0 ∷ []) out; ok (at, written)) in
    let next = (do
      (to, written) ← escape_xml_char c out_len at out
      escape_xml_from s out_len to written) in
    if c == 0 then end else next

-- The number of characters and the object after the call.
unfoldable pub string_escape_xml : (text out : Bytes) (out_len : ℕ) → Run (ℕ × Bytes)
string_escape_xml text out out_len = escape_xml_from text out_len 0 out

abbrev is_quote : ℕ → Bool
is_quote c = c == b'"' || c == 39

-- The offset of the result in the string, and the string. The last character of an empty string
-- is outside the object.
unfoldable pub string_trim_quotes : Bytes → Run (ℕ × Bytes)
string_trim_quotes s =
    let last = length (c_string s) - 1 in
    let cut = if is_quote (get_or 0 s last) then write_at last (0 ∷ []) s else ok s in
    let trim = (do t ← cut; ok (if is_quote (get_or 0 t 0) then 1 else 0, t)) in
    if length (c_string s) == 0 then fault else trim

-- `strncpy(*to, from, *to_len)`
abbrev copy_whole : (to : Bytes) (to_len : ℕ) (from : Bytes) → Run (ℤ × Bytes × ℕ)
copy_whole to to_len from = do
  copied ← strncpy from to_len
  out ← overwrite to copied
  ok (pos 0, out, to_len)

-- `grown` is the object that `realloc` gives, `none` for a null pointer.
unfoldable pub string_set_any_length :
    (to : Bytes) (to_len : ℕ) (from : Bytes) (grown : Option Bytes) → Run (ℤ × Bytes × ℕ)
string_set_any_length to to_len from grown =
    let new_size = length (c_string from) + 1 in
    if ltb to_len new_size
    then elim grown [
      | some larger ↦ copy_whole larger new_size from
      | none ↦ ok (negsuc 0, to, to_len)
    ]
    else copy_whole to to_len from
