-- ===== src/Escape/Xml.antt =====
-- The escaped text of string_escape_xml reads as the text.
use mathlib.Core.List.{append_assoc, append-nil}
use sunspec.Prelude.{
  ℕ, ◌+◌, ◌*◌, ◌^◌, ◌≤◌, ◌<◌, true, false, ◌||◌, [], ◌∷◌, ◌++◌, ◌≡◌, refl, sym, ap, ◌∙◌, arith, inl,
  inr, ◌==◌, ltb, leb, length, take, length-append, Run, ok,
}
use sunspec.Prelude.Bytes.{Bytes}
use sunspec.Buffer.Memory.{put_at, write_at_lem, length-put_at, take-put_at, take-put_at_front}
use sunspec.Escape.{space_behind, put_string, escape_xml_char, escape_xml_from, string_escape_xml}
use sunspec.Escape.Unescape.{Escaped, no_markup, no_markup-append, search-Escaped, unescape}

-- The printable characters of ASCII.
abbrev pub AllPrintable : Bytes → Type 0
AllPrintable [] = Unit {0}
AllPrintable (c ∷ s) = (32 ≤ c) × (c < 127) × AllPrintable s

-- A character written at an offset.
record Put (c out_len at : ℕ) (out : Bytes) : Type 0 where
  text : Bytes
  after : Bytes
  runs : escape_xml_char c out_len at out ≡ ok (at + length text, after)
  escaped : Escaped c text
  same_length : length after ≡ length out
  front : take (at + length text) after ≡ take at out ++ text

put_string_lem :
    (e : Bytes) (out_len at : ℕ) (out : Bytes)
    → length e ≤ 6
    → at + 7 ≤ out_len
    → out_len ≤ length out
    → out_len < 2 ^ 63
    → put_string e (length e) out_len at out ≡ ok (at + length e, put_at at (e ++ 0 ∷ []) out)
put_string_lem e out_len at out short room inside small =
    let space : ltb (length e) (space_behind out_len at) ≡ true = ground arith in
    rw (space, write_at_lem at (e ++ 0 ∷ []) out (omega (arith, length-append e (0 ∷ [])))) refl

escape_xml_char-Put :
    (c out_len at : ℕ) (out : Bytes)
    → 32 ≤ c
    → c < 127
    → at + 7 ≤ out_len
    → out_len ≤ length out
    → out_len < 2 ^ 63
    → Put c out_len at out
unfolding escape_xml_char
escape_xml_char-Put c out_len at out lo hi room inside small = elim (search-Escaped c) [
  | inl (e, found, escaped) ↦
      let fits : at + length (e ++ 0 ∷ []) ≤ length out =
        omega (arith, length-append e (0 ∷ []), escaped.short) in
      record {
        text = e;
        after = put_at at (e ++ 0 ∷ []) out;
        runs = rw found (put_string_lem e out_len at out escaped.short room inside small);
        escaped = escaped;
        same_length = length-put_at at (e ++ 0 ∷ []) out fits;
        front = take-put_at_front at (at + length e) e (0 ∷ []) out refl (omega arith);
      }
  | inr (missing, escaped) ↦
      let low : (ltb c 32 || leb 128 c) ≡ false = ground arith in
      let not_del : (c == 127) ≡ false = ground arith in
      record {
        text = c ∷ [];
        after = put_at at (c ∷ []) out;
        runs = rw (missing, low, not_del, write_at_lem at (c ∷ []) out (omega arith)) refl;
        escaped = escaped;
        same_length = length-put_at at (c ∷ []) out (omega arith);
        front = take-put_at at (at + 1) (c ∷ []) out refl (omega arith);
      }
]

-- The text that was written from an offset on.
record Written (s : Bytes) (at : ℕ) (out : Bytes) (r : Run (ℕ × Bytes)) : Type 0 where
  text : Bytes
  after : Bytes
  runs : r ≡ ok (at + length text, after)
  front : take (at + length text + 1) after ≡ (take at out ++ text) ++ 0 ∷ []
  reads : unescape 0 text ≡ s
  plain : no_markup text ≡ true

prepend :
    (c : ℕ) (s rest : Bytes) (out_len at : ℕ) (out : Bytes)
    → (c == 0) ≡ false
    → (p : Put c out_len at out)
    → Written s
        (at + length p.text)
        p.after
        (escape_xml_from (s ++ 0 ∷ rest) out_len (at + length p.text) p.after)
    → Written (c ∷ s) at out (escape_xml_from (c ∷ (s ++ 0 ∷ rest)) out_len at out)
unfolding escape_xml_from
prepend c s rest out_len at out more p w =
    let size : at + length p.text + length w.text ≡ at + length (p.text ++ w.text) =
      omega (arith, length-append p.text w.text) in
    record {
      text = p.text ++ w.text;
      after = w.after;
      runs = rw (more, p.runs, w.runs, size) refl;
      front = rw (← size) (
          w.front
          ∙ ap (λ t. (t ++ w.text) ++ 0 ∷ []) p.front
          ∙ ap (λ t. t ++ 0 ∷ []) (append_assoc (take at out) p.text w.text));
      reads = p.escaped.reads w.text ∙ ap (◌∷◌ c) w.reads;
      plain = no_markup-append p.text w.text p.escaped.plain w.plain;
    }

escape_xml_from-Written :
    (s rest : Bytes) (out_len at : ℕ) (out : Bytes)
    → AllPrintable s
    → at + 6 * length s < out_len
    → out_len ≤ length out
    → out_len < 2 ^ 63
    → Written s at out (escape_xml_from (s ++ 0 ∷ rest) out_len at out)
unfolding escape_xml_from unescape
escape_xml_from-Written [] rest out_len at out d room inside small =
    let z : at + 0 ≡ at = omega arith in
    record {
      text = [];
      after = put_at at (0 ∷ []) out;
      runs = rw (write_at_lem at (0 ∷ []) out (omega arith), z) refl;
      front =
          take-put_at at (at + 0 + 1) (0 ∷ []) out (omega arith) (omega arith)
          ∙ ap (λ t. t ++ 0 ∷ []) (sym (append-nil (take at out)));
      reads = refl;
      plain = refl;
    }
escape_xml_from-Written (c ∷ s) rest out_len at out d room inside small =
    let p = escape_xml_char-Put c out_len at out d.0 d.1 (omega arith) inside small in
    prepend c s rest out_len at out (ground (arith, d.0)) p (
      escape_xml_from-Written s rest out_len (at + length p.text) p.after d.2
        (omega (arith, p.escaped.short)) (omega (arith, p.same_length)) small)

-- The XML-escaped text of printable ASCII characters, from the space (32) to 126, reads as the text,
-- once the five named references are resolved, and has no bracket and no quote in it. It is written to the start of the
-- object with a zero byte behind it, and its length is the result, if the length of the output is
-- more than six times that of the text.
pub string_escape_xml-unescape :
    (s rest out : Bytes) (out_len : ℕ)
    → AllPrintable s
    → 6 * length s < out_len
    → out_len ≤ length out
    → out_len < 2 ^ 63
    → (text : Bytes) × (after : Bytes) × (string_escape_xml (s ++ 0 ∷ rest) out out_len
        ≡ ok (length text, after))
      × (take (length text + 1) after ≡ text ++ 0 ∷ [])
      × (unescape 0 text ≡ s)
      × (no_markup text ≡ true)
unfolding string_escape_xml
string_escape_xml-unescape s rest out out_len d room inside small =
    let w = escape_xml_from-Written s rest out_len 0 out d (omega arith) inside small in
    let z : 0 + length w.text ≡ length w.text = omega arith in
    (w.text, w.after, w.runs ∙ ap (λ n. ok (n, w.after)) z, rw z at w.front, w.reads, w.plain)
