-- ===== src/StringValue/Dotted.antt =====
-- An internet address is no number, and suns_string_to_value refuses it.
use sunspec.Prelude.{ℕ, suc, ◌+◌, ◌<◌, Option, some, ◌∷◌, ◌++◌, ◌≡◌, refl, ◌∙◌, length, drop, ok}
use sunspec.Prelude.Bytes.{Bytes}
use sunspec.Prelude.Int.{ℤ, pos, negsuc}
use sunspec.Types.{SunsType}
use sunspec.Value.{TypePair, SunsValue}
use sunspec.Output.Decimal.{AllDigits}
use sunspec.Number.{
  t_fraction, turn, on_char, on_point, returns_error, failed, string_decompose_decimal,
}
use sunspec.Number.Literals.{no_sign}
use sunspec.Number.Digits.{parser}
use sunspec.Number.Rounds.{point_rounds}
use sunspec.Number.Ends.{error_turn}
use sunspec.Number.Reads.{cleared_start}
use sunspec.StringValue.{form, suns_string_to_value}

second_point_turn :
    (n : ℕ) (more tmp : Bytes) (k : ℕ) (base : Bytes) (e : ℤ)
    → turn n (parser t_fraction (b'.' ∷ more) tmp k base e) ≡ ok returns_error
unfolding turn on_char on_point
second_point_turn n more tmp k base e = refl

-- A text with two points among its digits is refused by the number parser at the second one.
dotted_rounds :
    (n extra : ℕ) (ds fs more base : Bytes)
    → AllDigits ds
    → AllDigits fs
    → length (ds ++ fs) < 128
    → 0 < length base
    → string_decompose_decimal
        (length ds + suc (length fs + suc extra))
        (ds ++ b'.' ∷ (fs ++ b'.' ∷ more))
        base
        n
      ≡ some (
          ok (
            failed
              (parser t_fraction (b'.' ∷ more) (ds ++ fs) (length fs) (0 ∷ drop 1 base) (pos 0))))
dotted_rounds n extra ds fs more base d f small room =
    cleared_start (length ds + suc (length fs + suc extra)) n (ds ++ b'.' ∷ (fs ++ b'.' ∷ more))
      base room
    ∙ point_rounds n (suc extra) no_sign ds fs (b'.' ∷ more) (0 ∷ drop 1 base) d f small
    ∙ error_turn n extra
        (parser t_fraction (b'.' ∷ more) (ds ++ fs) (length fs) (0 ∷ drop 1 base) (pos 0)) refl
        (second_point_turn n more (ds ++ fs) (length fs) (0 ∷ drop 1 base) (pos 0))

-- For an IPv4 address, every text that starts with digits, a point, digits and a second point is
-- refused with the result -1, although this is how such an address is written: the number parser,
-- which is asked first, accepts one point only. The value gets the type pair and nothing else. It
-- holds if the digits in front of the second point are fewer than 128.
pub suns_string_to_value_dotted :
    (scan_float : (width : ℕ) → Bytes → Option ℕ) (extra : ℕ) (ds fs more base : Bytes)
    (v : SunsValue) (tp : TypePair)
    → tp.type ≡ SunsType.ipv4
    → AllDigits ds
    → AllDigits fs
    → length (ds ++ fs) < 128
    → 0 < length base
    → suns_string_to_value scan_float
        (length ds + suc (length fs + suc extra))
        (ds ++ b'.' ∷ (fs ++ b'.' ∷ more))
        base
        v
        tp
      ≡ some (ok (negsuc 0, record v { tp = tp }))
unfolding suns_string_to_value form
suns_string_to_value_dotted sf extra ds fs more base v tp is_address d f small room =
    rw (is_address, dotted_rounds 128 extra ds fs more base d f small room) refl
