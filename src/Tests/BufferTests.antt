-- ===== src/Tests/BufferTests.antt =====
-- The byte buffer.
use sunspec.Prelude.{
  ◌-◌, ◌<◌, ◌≤◌, ◌⊎◌, List, [], ◌∷◌, ◌++◌, ◌≡◌, refl, arith, length, replicate, ok,
}
use sunspec.Prelude.Bytes.{Bytes, codes, overwrite}
use sunspec.Prelude.Int.{ℤ, pos}
use sunspec.Types.{SunsType, suns_type_size}
use sunspec.Value.{SunsValue, suns_value_set_null}
use sunspec.Wire.{suns_buf_to_value, kind}
use sunspec.Wire.RoundTrip.{is_number, member}
use sunspec.Wire.ToBuffer.{suns_value_to_buffer, suns_value_to_buffer-Appended}
use sunspec.Buffer.{
  Buffer, buffer_copy_to, buffer_copy_from, buffer_part_copy_from, buffer_eat, buffer_compact,
  make_room, buffer_printf,
}
use sunspec.Buffer.Memory.{read_at, read_front, write_at}
use sunspec.Buffer.Valid.{IsValid, contents}
use sunspec.Buffer.Refine.{Op, copy_to, copy_from, eat, compact}
use sunspec.Buffer.Transfer.{run, run-ServedAll, ServedAll}
use sunspec.Buffer.Printf.{buffer_printf_fills}
use sunspec.Tests.{typed, holding}

-- Eight bytes, of which the third to the sixth are held.
abbrev half_full : Buffer
half_full = record { start = codes "abcdefgh"; in_at = 6; out_at = 2; size = 8 }

half_full-IsValid : IsValid half_full
half_full-IsValid = record {
  memory_is = refl;
  small = omega arith;
  out_in = omega arith;
  in_size = omega arith;
}

abbrev calls : List Op
calls = eat 1 ∷ copy_to (codes "xyz") ∷ compact ∷ copy_from (replicate 5 0) ∷ []

all_calls :
    run half_full calls
    ≡ ok (
      (pos 0, []) ∷ (pos 3, []) ∷ (pos 6, []) ∷ (pos 5, codes "defxy") ∷ [],
      record { start = codes "defxyzgh"; in_at = 6; out_at = 5; size = 8 },
    )
unfolding buffer_copy_to buffer_copy_from buffer_part_copy_from buffer_eat buffer_compact make_room
    read_at read_front write_at overwrite
all_calls = refl

run-ServedAll_example :
    (rs : List (ℤ × Bytes)) × (c : Buffer) × (run half_full calls ≡ ok (rs, c))
    × IsValid c
    × (c.size ≡ 8)
    × ServedAll 8 (codes "cdef") calls rs (contents c)
run-ServedAll_example =
    run-ServedAll calls half_full half_full-IsValid (tt, (tt, (tt, (omega arith, tt))))

buffer_printf_fills_example :
    (e : Buffer) × (buffer_printf half_full (codes "no") ≡ ok (2, e))
    × (e.size ≡ 8)
    × (8 ≤ e.in_at)
    × (8 - length (contents half_full) < length (codes "no") → 8 < e.in_at)
buffer_printf_fills_example =
    buffer_printf_fills half_full (codes "no") half_full-IsValid (omega arith)

-- The number 300 behind the bytes held.
abbrev three_hundred : SunsValue
three_hundred = holding (typed SunsType.uint16) 300

suns_value_to_buffer-Appended_example :
    ((half_full.size - half_full.in_at < suns_type_size SunsType.uint16)
      × (suns_value_to_buffer half_full three_hundred ≡ ok (pos 0, half_full)))
    ⊎ ((d : Bytes) × (e : Buffer) × (u : SunsValue) × (suns_value_to_buffer half_full three_hundred
          ≡ ok (pos 0, e))
        × IsValid e
        × (length d ≡ suns_type_size SunsType.uint16)
        × (contents e ≡ contents half_full ++ d)
        × (suns_buf_to_value d (typed SunsType.uint16) suns_value_set_null ≡ ok (pos 0, u))
        × (u.tp ≡ typed SunsType.uint16)
        × (member SunsType.uint16 u.value ≡ member SunsType.uint16 three_hundred.value))
unfolding is_number kind
suns_value_to_buffer-Appended_example =
    suns_value_to_buffer-Appended half_full three_hundred suns_value_set_null half_full-IsValid refl
      refl
