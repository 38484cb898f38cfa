-- ===== src/Escape/Unescape.antt =====
-- Reading of an XML-escaped text, and what the table of string_escape_xml makes of a character.
use sunspec.Prelude.{
  ℕ, zero, suc, ◌≤◌, Bool, true, false, ◌||◌, Option, none, some, [], ◌∷◌, ◌++◌, ◌≡◌, ◌⊎◌, refl,
  sym, ap, ◌∙◌, arith, inl, inr, ◌==◌, ==→eq, Bool-cases, if◌then◌else◌, length,
}
use sunspec.Prelude.Bytes.{Bytes, codes}
use sunspec.Escape.{xml_map, search_map}

-- Whether a text starts with another one.
abbrev starts : Bytes → Bytes → Bool
starts [] s = true
starts (c ∷ p) [] = false
starts (c ∷ p) (x ∷ s) = if c == x then starts p s else false

-- The character that a reference behind `&` stands for, and the reference's length.
abbrev entity_at : Bytes → Option (ℕ × ℕ)
entity_at s =
    if starts (codes "quot;") s
    then some (b'"', 5)
    else if starts (codes "apos;") s
    then some (39, 5)
    else if starts (codes "lt;") s
    then some (b'<', 3)
    else if starts (codes "gt;") s
    then some (b'>', 3)
    else if starts (codes "amp;") s
    then some (b'&', 4)
    else none

-- The text that an XML reader sees; `skip` characters were read before.
unfoldable pub unescape : (skip : ℕ) → Bytes → Bytes
unescape skip [] = []
unescape (suc skip) (c ∷ s) = unescape skip s
unescape zero (c ∷ s) = elim (c == b'&') [
  | false ↦ c ∷ unescape 0 s
  | true ↦ elim (entity_at s) [ none ↦ c ∷ unescape 0 s | some (x, n) ↦ x ∷ unescape n s ]
]

abbrev is_markup : ℕ → Bool
is_markup c = c == b'<' || c == b'>' || c == b'"' || c == 39

-- No brackets and no quotes.
abbrev pub no_markup : Bytes → Bool
no_markup [] = true
no_markup (c ∷ s) = if is_markup c then false else no_markup s

pub no_markup-append :
    (s t : Bytes) → no_markup s ≡ true → no_markup t ≡ true → no_markup (s ++ t) ≡ true
no_markup-append [] t d e = e
no_markup-append (c ∷ s) t d e = elim (Bool-cases (is_markup c)) [
  | inl p ↦ absurd (ground (arith, p, d))
  | inr p ↦ rw p (no_markup-append s t (rw p at d) e)
]

-- A character as it is written.
pub record Escaped (c : ℕ) (e : Bytes) : Type 0 where
  pub short : length e ≤ 6
  pub reads : (rest : Bytes) → unescape 0 (e ++ rest) ≡ c ∷ unescape 0 rest
  pub plain : no_markup e ≡ true

plain_read :
    (c : ℕ) (rest : Bytes) → (c == b'&') ≡ false → unescape 0 (c ∷ rest) ≡ c ∷ unescape 0 rest
unfolding unescape
plain_read c rest e = ground (arith, e)

-- The characters of the table have an entity, and the others stand for themselves.
pub search-Escaped :
    (c : ℕ)
    → ((e : Bytes) × (search_map c xml_map ≡ some e) × Escaped c e)
      ⊎ ((search_map c xml_map ≡ none) × Escaped c (c ∷ []))
unfolding search_map unescape
search-Escaped c = elim (Bool-cases (c == b'"')) [
  | inl p ↦ inl (codes "&quot;", rw p refl, entity b'"' _ p (λ rest. refl) (omega arith) refl)
  | inr p ↦ elim (Bool-cases (c == 39)) [
    | inl q ↦ inl (codes "&apos;", rw (p, q) refl, entity 39 _ q (λ rest. refl) (omega arith) refl)
    | inr q ↦ elim (Bool-cases (c == b'<')) [
      | inl r ↦
          inl (codes "&lt;", rw (p, q, r) refl, entity b'<' _ r (λ rest. refl) (omega arith) refl)
      | inr r ↦ elim (Bool-cases (c == b'>')) [
        | inl s ↦
            inl (
              codes "&gt;",
              rw (p, q, r, s) refl,
              entity b'>' _ s (λ rest. refl) (omega arith) refl,
            )
        | inr s ↦ elim (Bool-cases (c == b'&')) [
          | inl t ↦ inl (
            codes "&amp;",
            rw (p, q, r, s, t) refl,
            entity b'&' _ t (λ rest. refl) (omega arith) refl,
          )
          | inr t ↦ inr (
            rw (p, q, r, s, t) refl,
            record {
              short = omega arith;
              reads = λ rest. plain_read c rest t;
              plain = rw (r, s, p, q) refl;
            },
          )
        ]
      ]
    ]
  ]
]
  where
    entity :
        (x : ℕ) (e : Bytes)
        → (c == x) ≡ true
        → ((rest : Bytes) → unescape 0 (e ++ rest) ≡ x ∷ unescape 0 rest)
        → length e ≤ 6
        → no_markup e ≡ true
        → Escaped c e
    entity x e p reads short plain =
        let same : c ≡ x = ==→eq c x p in
        record {
          short = short;
          reads = λ rest. reads rest ∙ ap (λ (k : ℕ). k ∷ unescape 0 rest) (sym same);
          plain = plain;
        }
