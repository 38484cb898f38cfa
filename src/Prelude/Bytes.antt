-- ===== src/Prelude/Bytes.antt =====
-- Memory as bytes: C strings, `strncpy`, writes through a pointer, big-endian words, `%d`.
use Prim.Native.Char.{code}
use Prim.Native.Nat.{ℕ, zero, suc, ◌+◌, ◌*◌, ◌/◌, ◌%◌, ◌^◌, ◌≤◌}
use Prim.Native.String.{String}
use mathlib.Core.Path.{◌≡◌, refl, ap}
use mathlib.Core.List.{List, [], ◌∷◌, ◌++◌}
use native.Mathlib.Omega.{arith}
use sunspec.Prelude.Lists.{length, replicate, drop}
use sunspec.Prelude.Outcome.{Run, ok, fault, ◌>>=◌}
use sunspec.Prelude.Tests.{◌==◌, if◌then◌else◌}

abbrev pub Bytes : Type 0
Bytes = List ℕ

-- The code points of a text: its bytes, if it is ASCII.
abbrev pub codes : String → Bytes
codes String.[] = []
codes (String.◌∷◌ c s) = code c ∷ codes s

-- Writes `new` at the start of the object `old`; a write past its end is a fault.
unfoldable pub overwrite : (old new : Bytes) → Run Bytes
overwrite old [] = ok old
overwrite [] (b ∷ new) = fault
overwrite (a ∷ old) (b ∷ new) = do rest ← overwrite old new; ok (b ∷ rest)

pub overwrite_lem :
    (old new : Bytes)
    → length new ≤ length old
    → overwrite old new ≡ ok (new ++ drop (length new) old)
unfolding overwrite
overwrite_lem old [] h = refl
overwrite_lem [] (b ∷ new) h = absurd (omega arith)
overwrite_lem (a ∷ old) (b ∷ new) h = ground (arith, overwrite_lem old new)

-- The bytes that `strncpy(…, s, n)` stores: `s` up to its zero byte, then zeros. Reading past the
-- end of the object that holds `s` is a fault.
unfoldable pub strncpy : Bytes → ℕ → Run Bytes
strncpy s zero = ok []
strncpy [] (suc n) = fault
strncpy (c ∷ s) (suc n) =
    if c == 0 then ok (replicate (suc n) 0) else do rest ← strncpy s n; ok (c ∷ rest)

-- Big-endian words.
abbrev pub be16 : ℕ → Bytes
be16 x = (x / 2 ^ 8 % 2 ^ 8) ∷ (x % 2 ^ 8) ∷ []

abbrev pub be32 : ℕ → Bytes
be32 x = (x / 2 ^ 24 % 2 ^ 8) ∷ (x / 2 ^ 16 % 2 ^ 8) ∷ (x / 2 ^ 8 % 2 ^ 8) ∷ (x % 2 ^ 8) ∷ []

abbrev pub be64 : ℕ → Bytes
be64 x = be32 (x / 2 ^ 32) ++ be32 x

unfoldable pub get16 : Bytes → Run ℕ
get16 (a ∷ b ∷ _) = ok (a * 2 ^ 8 + b)
get16 _ = fault

unfoldable pub get32 : Bytes → Run ℕ
get32 (a ∷ b ∷ c ∷ d ∷ _) = ok (a * 2 ^ 24 + b * 2 ^ 16 + c * 2 ^ 8 + d)
get32 _ = fault

unfoldable pub get64 : Bytes → Run ℕ
unfolding get32
get64 buf = do hi ← get32 buf; lo ← get32 (drop 4 buf); ok (hi * 2 ^ 32 + lo)

pub get16-be16 : (x : ℕ) (rest : Bytes) → get16 (be16 x ++ rest) ≡ ok (x % 2 ^ 16)
unfolding get16
get16-be16 x rest = ap ok (omega arith)

pub get32-be32 : (x : ℕ) (rest : Bytes) → get32 (be32 x ++ rest) ≡ ok (x % 2 ^ 32)
unfolding get32
get32-be32 x rest = ap ok (omega arith)

pub get64-be64 : (x : ℕ) (rest : Bytes) → get64 (be64 x ++ rest) ≡ ok (x % 2 ^ 64)
unfolding get64 get32
get64-be64 x rest = ap ok (omega arith)

-- The decimal digits of `n`, as `printf` writes them; `n` rounds are enough.
unfoldable pub digits : ℕ → ℕ → Bytes → Bytes
digits zero n out = out
digits (suc fuel) n out =
    let rest = digits fuel (n / 10) ((b'0' + n % 10) ∷ out) in if n == 0 then out else rest

unfoldable pub print_nat : ℕ → Bytes
unfolding digits
print_nat n = if n == 0 then b'0' ∷ [] else digits n n []
