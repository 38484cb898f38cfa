-- ===== src/Tests/EscapeTests.antt =====
-- Escaped texts.
use sunspec.Prelude.{
  ◌+◌, [], ◌∷◌, ◌++◌, ◌≡◌, refl, arith, true, some, length, take, replicate, ok, fault,
}
use sunspec.Prelude.Bytes.{Bytes, codes, strncpy, overwrite}
use sunspec.Prelude.Copy.{c_string}
use sunspec.Prelude.Int.{pos}
use sunspec.Buffer.Memory.{write_at}
use sunspec.Escape.{
  string_escape, string_escape_cstyle, string_escape_sql, escape_from, escape_char, over_run,
  string_escape_xml, string_trim_quotes, string_set_any_length, escape_xml_from, escape_xml_char,
  search_map, hex_char,
}
use sunspec.Escape.Xml.{string_escape_xml-unescape}
use sunspec.Escape.Unescape.{unescape, no_markup}

abbrev page : Bytes
page = replicate 40 0

-- a<b
string_escape_xml-unescape_example :
    (text : Bytes) × (after : Bytes) × (string_escape_xml (codes "a<b" ++ 0 ∷ []) page 40
      ≡ ok (length text, after))
    × (take (length text + 1) after ≡ text ++ 0 ∷ [])
    × (unescape 0 text ≡ codes "a<b")
    × (no_markup text ≡ true)
string_escape_xml-unescape_example =
    string_escape_xml-unescape (codes "a<b") [] page 40 (omega arith) (omega arith) (omega arith)
      (omega arith)

-- With three characters to escape, each character is written three times.
tripled :
    string_escape_cstyle (codes "a'" ++ 0 ∷ []) (replicate 12 0) 12
    ≡ ok (7, codes "aaa'\\''" ++ replicate 5 0)
unfolding string_escape_cstyle string_escape escape_from escape_char over_run write_at overwrite
tripled = refl

doubled :
    string_escape_sql (codes "it's" ++ 0 ∷ []) (replicate 8 0) 8
    ≡ ok (5, codes "it''s" ++ replicate 3 0)
unfolding string_escape_sql string_escape escape_from escape_char over_run write_at overwrite
doubled = refl

-- A line break, whose reference lacks the x of a hexadecimal one.
line_break :
    string_escape_xml (10 ∷ 0 ∷ []) (replicate 8 0) 8 ≡ ok (5, codes "&#0a;" ++ replicate 3 0)
unfolding string_escape_xml escape_xml_from escape_xml_char search_map hex_char write_at overwrite
line_break = refl

trimmed : string_trim_quotes (codes "\"ab\"" ++ 0 ∷ []) ≡ ok (1, codes "\"ab" ++ 0 ∷ 0 ∷ [])
unfolding string_trim_quotes c_string write_at overwrite
trimmed = refl

empty_trimmed : string_trim_quotes (0 ∷ []) ≡ fault
unfolding string_trim_quotes c_string
empty_trimmed = refl

grown :
    string_set_any_length [] 0 (codes "ab" ++ 0 ∷ []) (some (replicate 3 7))
    ≡ ok (pos 0, codes "ab" ++ 0 ∷ [], 3)
unfolding string_set_any_length c_string strncpy overwrite
grown = refl
