-- ===== src/Wire/ToBuffer.antt =====
-- Values written to a byte buffer: `suns_value_to_buffer` of src/suns_model.c. The size of a string
-- is taken to fit in an `int`.
use mathlib.Core.List.{append-nil}
use sunspec.Prelude.{
  ℕ, ◌+◌, ◌-◌, ◌^◌, ◌≤◌, ◌<◌, Bool, true, false, ◌||◌, Bool-cases, ltb→lt, [], ◌++◌, ◌≡◌, ◌⊎◌, inl,
  inr, refl, sym, ap, ◌∙◌, arith, ltb, leb, if◌then◌else◌, length, take, drop, length-drop, Run, ok,
  ◌>>=◌,
}
use sunspec.Prelude.Bytes.{Bytes}
use sunspec.Prelude.Int.{ℤ, pos}
use sunspec.Types.{enum, SunsType, is_type, suns_type_size}
use sunspec.Value.{SunsValue}
use sunspec.Wire.{kind, suns_type_pair_size, suns_value_to_buf, suns_buf_to_value}
use sunspec.Wire.RoundTrip.{
  is_number, member, wire, width, size-width, to_buf_as-wire, wire-read, length-wire,
}
use sunspec.Buffer.{Buffer, buffer_space}
use sunspec.Buffer.Memory.{take-append-drop}
use sunspec.Buffer.Valid.{
  IsValid, contents, buffer_space_lem, Appended, appended, appended-Appended,
}

-- The comparison with an `int` is one of signed numbers.
abbrev pub too_small : (space size : ℕ) → Bool
too_small space size = leb (2 ^ 63) space || ltb space size

-- `suns_value_to_buf` writes from the pointer `in` on.
abbrev pub write_value : Buffer → SunsValue → (size : ℕ) → Run (ℤ × Buffer)
write_value b v size = do
  (rc, out) ← suns_value_to_buf v (drop b.in_at b.start)
  ok (rc, record b { start = take b.in_at b.start ++ out; in_at = b.in_at + size })

unfoldable pub suns_value_to_buffer : Buffer → SunsValue → Run (ℤ × Buffer)
suns_value_to_buffer b v =
    let size = suns_type_pair_size v.tp in
    if too_small (buffer_space b) size then ok (pos 0, b) else write_value b v size

not_string : (t : SunsType) → is_number (kind t) ≡ true → is_type t SunsType.string ≡ false
unfolding is_type enum is_number kind
not_string SunsType.int16 h = refl
not_string _ h = ground (arith, h)

number_size :
    (v : SunsValue)
    → is_number (kind v.tp.type) ≡ true
    → suns_type_pair_size v.tp ≡ suns_type_size v.tp.type
unfolding suns_type_pair_size
number_size v h = rw (not_string v.tp.type h) refl

write_value_runs :
    (b : Buffer) (v : SunsValue) (size : ℕ) (w : Bytes)
    → suns_value_to_buf v (drop b.in_at b.start) ≡ ok (pos 0, w ++ drop size (drop b.in_at b.start))
    → length w ≡ size
    → b.in_at ≤ length b.start
    → write_value b v size ≡ ok (pos 0, appended b w)
write_value_runs b v size w sent bytes inside = rw sent (
    ap
      (λ n. ok (
        pos 0,
        record b {
          start = take b.in_at b.start ++ (w ++ drop n (drop b.in_at b.start));
          in_at = b.in_at + n;
        },
      ))
      (sym bytes)
    ∙ ap (λ m. ok (pos 0, record b { start = m; in_at = b.in_at + length w }))
        (take-append-drop b.in_at w b.start inside))

-- The bytes of a number are appended.
number_written :
    (b : Buffer) (v : SunsValue)
    → IsValid b
    → is_number (kind v.tp.type) ≡ true
    → suns_type_size v.tp.type ≤ b.size - b.in_at
    → let w = wire (kind v.tp.type) v.value in
      (suns_value_to_buffer b v ≡ ok (pos 0, appended b w)) × Appended b w (appended b w)
unfolding suns_value_to_buffer suns_value_to_buf
number_written b v ok_buffer number fits =
    let k = kind v.tp.type in
    let size : suns_type_size v.tp.type ≡ width k = size-width v.tp.type number in
    let whole : suns_type_pair_size v.tp ≡ width k = number_size v number ∙ size in
    let after : length (drop b.in_at b.start) ≡ b.size - b.in_at =
      length-drop b.in_at b.start ∙ ap (λ n. n - b.in_at) ok_buffer.memory_is in
    let (sent, bytes) = to_buf_as-wire k v (drop b.in_at b.start) number (omega arith) in
    let enough : too_small (b.size - b.in_at) (width k) ≡ false =
      ground (arith, ok_buffer.small, size, fits) in
    (
      rw (whole, buffer_space_lem b ok_buffer, enough)
          (write_value_runs b v (width k) (wire k v.value) sent bytes (omega arith)),
      appended-Appended b (wire k v.value) ok_buffer (omega (arith, bytes, ok_buffer.in_size)),
    )

-- A value of one number is written to a valid buffer exactly if the space behind the bytes held is
-- enough for its type. If not, nothing changes. If so, its bytes are appended to those held, the
-- buffer stays valid, and the bytes behind those held before are read back as the same number of
-- the same type. The result is 0 in both cases.
pub suns_value_to_buffer-Appended :
    (b : Buffer) (v w : SunsValue)
    → IsValid b
    → is_number (kind v.tp.type) ≡ true
    → length w.raw ≡ 8
    → ((b.size - b.in_at < suns_type_size v.tp.type) × (suns_value_to_buffer b v ≡ ok (pos 0, b)))
      ⊎ ((d : Bytes) × (e : Buffer) × (u : SunsValue) × (suns_value_to_buffer b v ≡ ok (pos 0, e))
          × IsValid e
          × (length d ≡ suns_type_size v.tp.type)
          × (contents e ≡ contents b ++ d)
          × (suns_buf_to_value d v.tp w ≡ ok (pos 0, u))
          × (u.tp ≡ v.tp)
          × (member v.tp.type u.value ≡ member v.tp.type v.value))
unfolding suns_value_to_buffer
suns_value_to_buffer-Appended b v w ok_buffer number full =
    let size : suns_type_size v.tp.type ≡ width (kind v.tp.type) = size-width v.tp.type number in
    let whole = number_size v number in
    let space = buffer_space_lem b ok_buffer in
    elim (Bool-cases (ltb (b.size - b.in_at) (suns_type_size v.tp.type))) [
      | inl small ↦
          let less : b.size - b.in_at < suns_type_size v.tp.type = ltb→lt _ _ small in
          let no_room : too_small (b.size - b.in_at) (suns_type_size v.tp.type) ≡ true =
            ground (arith, small) in
          inl (less, rw (whole, space, no_room) refl)
      | inr enough ↦
          let d : Bytes = wire (kind v.tp.type) v.value in
          let (run, a) = number_written b v ok_buffer number (ground arith) in
          let (u, got, tp_is, same) = wire-read v w [] number full in
          inr (
            d,
            appended b d,
            u,
            run,
            a.valid,
            length-wire (kind v.tp.type) v.value number ∙ sym size,
            a.contents_is,
            ap (λ x. suns_buf_to_value x v.tp w) (sym (append-nil d)) ∙ got,
            tp_is,
            same,
          )
    ]
