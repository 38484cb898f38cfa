-- ===== src/Buffer/Valid.antt =====
-- The invariant of the byte buffer, its contents as a queue of bytes, and what keeps them.
use sunspec.Prelude.{
  ℕ, ◌+◌, ◌-◌, ◌^◌, ◌≤◌, ◌<◌, Bool, true, false, ◌++◌, ◌≡◌, refl, sym, ap, ◌∙◌, arith, inl, inr,
  ◌==◌, ==→eq, Bool-cases, length, take, drop, length-take, length-drop, take-append, ok,
}
use sunspec.Prelude.Bytes.{Bytes, overwrite_lem}
use sunspec.Prelude.Copy.{length-overwritten}
use sunspec.Buffer.{
  Buffer, buffer_space, buffer_len, move_down, buffer_compact, make_room, append_bytes,
}
use sunspec.Buffer.Memory.{read_at, put_at, read_at_lem, write_at_lem, length-put_at, window-put_at}

-- `out` is not behind `in`, which is inside the object.
pub record IsValid (b : Buffer) : Type 0 where
  pub memory_is : length b.start ≡ b.size
  pub small : b.size < 2 ^ 63
  pub out_in : b.out_at ≤ b.in_at
  pub in_size : b.in_at ≤ b.size

-- The bytes held, oldest first.
abbrev pub contents : Buffer → Bytes
contents b = take (b.in_at - b.out_at) (drop b.out_at b.start)

pub buffer_space_lem : (b : Buffer) → IsValid b → buffer_space b ≡ b.size - b.in_at
buffer_space_lem b v = omega arith

pub buffer_len_lem : (b : Buffer) → IsValid b → buffer_len b ≡ b.in_at - b.out_at
buffer_len_lem b v = omega arith

pub length-contents : (b : Buffer) → IsValid b → length (contents b) ≡ b.in_at - b.out_at
length-contents b v =
    length-take (b.in_at - b.out_at) (drop b.out_at b.start)
      (omega (arith, length-drop b.out_at b.start))

-- A buffer that holds the same bytes.
pub record Kept (b c : Buffer) : Type 0 where
  pub valid : IsValid c
  pub contents_is : contents c ≡ contents b
  pub size_is : c.size ≡ b.size

pub record Compacted (b c : Buffer) : Type 0 where
  pub kept : Kept b c
  pub in_is : c.in_at ≡ length (contents b)

move_down_lem :
    (b : Buffer) (len : ℕ)
    → IsValid b
    → len ≡ b.in_at - b.out_at
    → move_down b len ≡ ok (contents b ++ drop (length (contents b)) b.start)
move_down_lem b len v e = elim (Bool-cases (len == 0)) [
  | inl z ↦
      let zero_len : len ≡ 0 = ==→eq len 0 z in
      let none_held : b.in_at - b.out_at ≡ 0 = sym e ∙ zero_len in rw (z, none_held) refl
  | inr z ↦
      let read : read_at b.out_at len b.start ≡ ok (contents b) =
        read_at_lem b.out_at len b.start (omega arith)
        ∙ ap (λ n. ok (take n (drop b.out_at b.start))) e in
      rw (z, read) (overwrite_lem b.start (contents b) (omega (arith, length-contents b v)))
]

abbrev compacted : Buffer → Buffer
compacted b = record b {
  start = contents b ++ drop (length (contents b)) b.start;
  in_at = length (contents b);
  out_at = 0;
}

compacted-Compacted : (b : Buffer) → IsValid b → Compacted b (compacted b)
compacted-Compacted b v =
    let size = length-contents b v in
    let all : length (contents b) - 0 ≡ length (contents b) = omega arith in
    record {
      kept = record {
        valid = record {
          memory_is =
              length-overwritten b.start (contents b) (omega (arith, size, v.memory_is))
              ∙ v.memory_is;
          small = v.small;
          out_in = omega arith;
          in_size = omega (arith, size);
        };
        contents_is = rw all (take-append (contents b) _);
        size_is = refl;
      };
      in_is = refl;
    }

-- Compaction moves the bytes held to the start of the object.
pub buffer_compact-Compacted :
    (b : Buffer)
    → IsValid b
    → (c : Buffer) × (buffer_compact b ≡ ok (length (contents b), c)) × Compacted b c
unfolding buffer_compact
buffer_compact-Compacted b v = elim (Bool-cases (b.in_at == 0)) [
  | inl z ↦
      let at_start : b.in_at ≡ 0 = ==→eq b.in_at 0 z in
      let none_held : length (contents b) ≡ 0 = length-contents b v ∙ omega arith in
      (
        b,
        rw (z, none_held) refl,
        record {
          kept = record { valid = v; contents_is = refl; size_is = refl };
          in_is = at_start ∙ sym none_held;
        },
      )
  | inr z ↦
      let held : buffer_len b ≡ length (contents b) =
        buffer_len_lem b v ∙ sym (length-contents b v) in
      let moved = move_down_lem b (length (contents b)) v (length-contents b v) in
      (compacted b, rw (z, held, moved) refl, compacted-Compacted b v)
]

-- Making room keeps the bytes held, and compacts them if the test says so.
pub make_room-Kept :
    (b : Buffer) (too_little : ℕ → Bool)
    → IsValid b
    → (c : Buffer) × (make_room b too_little ≡ ok c)
      × Kept b c
      × (too_little (b.size - b.in_at) ≡ true → c.in_at ≡ length (contents b))
      × (too_little (b.size - b.in_at) ≡ false → c.in_at ≡ b.in_at)
unfolding make_room
make_room-Kept b too_little v =
    let space = buffer_space_lem b v in
    let (c, run, k) = buffer_compact-Compacted b v in
    elim (Bool-cases (too_little (b.size - b.in_at))) [
      | inl t ↦ (c, rw (space, t, run) refl, k.kept, λ _. k.in_is, λ f. ground (arith, t, f))
      | inr t ↦ (
        b,
        rw (space, t) refl,
        record { valid = v; contents_is = refl; size_is = refl },
        λ f. ground (arith, t, f),
        λ _. refl,
      )
    ]

-- A buffer with more bytes behind those that it held.
pub record Appended (b : Buffer) (d : Bytes) (e : Buffer) : Type 0 where
  pub valid : IsValid e
  pub contents_is : contents e ≡ contents b ++ d
  pub size_is : e.size ≡ b.size

abbrev pub appended : Buffer → Bytes → Buffer
appended b d = record b { start = put_at b.in_at d b.start; in_at = b.in_at + length d }

pub appended-Appended :
    (b : Buffer) (d : Bytes) → IsValid b → b.in_at + length d ≤ b.size → Appended b d (appended b d)
appended-Appended b d v fits =
    let inside : b.in_at + length d ≤ length b.start = omega arith in
    record {
      valid = record {
        memory_is = length-put_at b.in_at d b.start inside ∙ v.memory_is;
        small = v.small;
        out_in = omega arith;
        in_size = fits;
      };
      contents_is =
          window-put_at b.out_at b.in_at (b.in_at - b.out_at) (b.in_at + length d - b.out_at) d
            b.start (omega arith) (omega arith) (omega arith);
      size_is = refl;
    }

pub append_bytes-Appended :
    (b : Buffer) (d : Bytes)
    → IsValid b
    → b.in_at + length d ≤ b.size
    → (e : Buffer) × (append_bytes b d ≡ ok e) × Appended b d e
append_bytes-Appended b d v fits = (
  appended b d,
  rw (write_at_lem b.in_at d b.start (omega arith)) refl,
  appended-Appended b d v fits,
)
