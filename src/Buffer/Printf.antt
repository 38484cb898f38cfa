-- ===== src/Buffer/Printf.antt =====
-- What buffer_printf does to the pointer `in`.
use sunspec.Prelude.{
  ℕ, zero, suc, ◌+◌, ◌-◌, ◌≤◌, ◌<◌, false, [], ◌∷◌, ◌≡◌, refl, arith, inl, inr, ◌==◌, ltb,
  Bool-cases, if◌then◌else◌, length, take, length-append, ok,
}
use sunspec.Prelude.Bytes.{Bytes}
use sunspec.Output.{snprintf}
use sunspec.Buffer.{Buffer, buffer_space, make_room, buffer_printf}
use sunspec.Buffer.Memory.{put_at, write_at_lem}
use sunspec.Buffer.Valid.{IsValid, contents, buffer_space_lem, length-contents, make_room-Kept}

length-take-le : (n : ℕ) (xs : Bytes) → length (take n xs) ≤ n
length-take-le zero xs = omega arith
length-take-le (suc n) [] = omega arith
length-take-le (suc n) (x ∷ xs) = omega (arith, length-take-le n xs)

length-snprintf : (size : ℕ) (text : Bytes) → length (snprintf size text) ≤ size
unfolding snprintf
length-snprintf zero text = omega arith
length-snprintf (suc n) text =
    omega (arith, length-append (take n text) (0 ∷ []), length-take-le n text)

printf_runs :
    (b c : Buffer) (text : Bytes) (space : ℕ)
    → make_room b (λ free. free == 0) ≡ ok c
    → buffer_space c ≡ space
    → (space == 0) ≡ false
    → c.in_at + length (snprintf space text) ≤ length c.start
    → buffer_printf b text
      ≡ ok (
        length text,
        record c {
          start = put_at c.in_at (snprintf space text) c.start;
          in_at = c.in_at + (if ltb (length text) space then space else length text);
        },
      )
unfolding buffer_printf
printf_runs b c text space room s z fits =
    rw (room, s, z, write_at_lem c.in_at (snprintf space text) c.start fits) refl

-- On a valid buffer that is not full, buffer_printf returns the length of the text and leaves no
-- space, whatever the text is; and `in` is behind the end of the object if the text is longer than
-- what is not used of a buffer.
pub buffer_printf_fills :
    (b : Buffer) (text : Bytes)
    → IsValid b
    → length (contents b) < b.size
    → (e : Buffer) × (buffer_printf b text ≡ ok (length text, e))
      × (e.size ≡ b.size)
      × (b.size ≤ e.in_at)
      × (b.size - length (contents b) < length text → b.size < e.in_at)
buffer_printf_fills b text v room_left =
    let (c, room, k, moved, stayed) = make_room-Kept b (λ free. free == 0) v in
    let space : ℕ = c.size - c.in_at in
    let held = length-contents b v in
    let behind : length (contents b) ≤ c.in_at = elim (Bool-cases ((b.size - b.in_at) == 0)) [
      | inl t ↦ omega (arith, moved t)
      | inr t ↦ omega (arith, stayed t, held, v.out_in)
    ] in
    let some_space : (space == 0) ≡ false = elim (Bool-cases ((b.size - b.in_at) == 0)) [
      | inl t ↦ ground (arith, moved t, k.size_is, room_left)
      | inr t ↦ ground (arith, stayed t, k.size_is, t)
    ] in
    let inside : c.in_at + length (snprintf space text) ≤ length c.start =
      omega (arith, length-snprintf space text, k.valid.in_size, k.valid.memory_is) in
    (
      record c {
        start = put_at c.in_at (snprintf space text) c.start;
        in_at = c.in_at + (if ltb (length text) space then space else length text);
      },
      printf_runs b c text space room (buffer_space_lem c k.valid) some_space inside,
      k.size_is,
      ground (arith, k.valid.in_size, k.size_is),
      λ h. ground (arith, k.valid.in_size, k.size_is, behind, h),
    )
