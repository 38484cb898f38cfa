-- ===== src/Buffer/Calls.antt =====
-- The calls on the byte buffer that transfer bytes by a file.
use sunspec.Prelude.{
  ℕ, ◌+◌, ◌-◌, ◌≤◌, ◌<◌, true, false, Option, none, some, [], ◌++◌, ◌≡◌, refl, sym, ap, ◌∙◌, arith,
  inl, inr, ◌==◌, ==→eq, Bool-cases, if◌then◌else◌, length, take, drop, Run, ok,
}
use sunspec.Prelude.Bytes.{Bytes}
use sunspec.Prelude.Int.{ℤ, pos, negsuc}
use sunspec.Buffer.{
  Buffer, buffer_space, buffer_len, make_room, buffer_read_to, by_read, buffer_write_from, by_write,
}
use sunspec.Buffer.Memory.{read_at, read_at_lem}
use sunspec.Buffer.Valid.{
  IsValid, contents, buffer_space_lem, buffer_len_lem, length-contents, Kept, make_room-Kept,
  append_bytes-Appended,
}
use sunspec.Buffer.Steps.{advance}
use sunspec.Buffer.Refine.{read_to, write_from, IsOp, Serves}

read_runs :
    (b c : Buffer) (read : ℕ → Option Bytes) (space : ℕ) (out : Run (ℤ × Buffer))
    → make_room b (λ free. free == 0) ≡ ok c
    → buffer_space c ≡ space
    → (if space == 0 then ok (pos 0, c) else by_read c (read space)) ≡ out
    → buffer_read_to b read ≡ out
unfolding buffer_read_to
read_runs b c read space out room s e = rw (room, s) e

-- No space is left only if the queue is full.
full-or-space :
    (b c : Buffer)
    → IsValid b
    → Kept b c
    → (((b.size - b.in_at) == 0) ≡ true → c.in_at ≡ length (contents b))
    → (((b.size - b.in_at) == 0) ≡ false → c.in_at ≡ b.in_at)
    → c.size - c.in_at ≡ 0
    → length (contents b) ≡ b.size
full-or-space b c v k moved stayed none_left = elim (Bool-cases ((b.size - b.in_at) == 0)) [
  | inl t ↦ omega (arith, moved t, k.size_is, length-contents b v, v.in_size, v.out_in)
  | inr t ↦ ground (arith, stayed t, k.size_is, none_left, t)
]

pub read_to-Serves :
    (b : Buffer) (read : ℕ → Option Bytes)
    → IsValid b
    → IsOp (read_to read)
    → Serves b (read_to read)
read_to-Serves b read v bounded =
    let (c, room, k, moved, stayed) = make_room-Kept b (λ space. space == 0) v in
    let space : ℕ = c.size - c.in_at in
    let space_is = buffer_space_lem c k.valid in
    let held : length (contents b) ≡ c.in_at - c.out_at =
      ap (length {A = ℕ}) (sym k.contents_is) ∙ length-contents c k.valid in
    elim (Bool-cases (space == 0)) [
      | inl z ↦
          let none_left : c.size - c.in_at ≡ 0 = ==→eq space 0 z in
          record {
            reply = (pos 0, []);
            after = c;
            runs = rw (read_runs b c read space (ok (pos 0, c)) room space_is (rw z refl)) refl;
            valid = k.valid;
            size_is = k.size_is;
            served = inl (full-or-space b c v k moved stayed none_left, refl, k.contents_is);
          }
      | inr z ↦
          let some_left : 0 < space = ground arith in
          let fits : length (contents b) + space ≤ b.size =
            omega (arith, held, k.size_is, k.valid.in_size) in
          by_result b c read space v k room space_is z some_left fits (read space) refl bounded
    ]
  where
    by_result :
        (b c : Buffer) (read : ℕ → Option Bytes) (space : ℕ)
        → IsValid b
        → Kept b c
        → make_room b (λ free. free == 0) ≡ ok c
        → buffer_space c ≡ space
        → (space == 0) ≡ false
        → 0 < space
        → length (contents b) + space ≤ b.size
        → (r : Option Bytes) → read space ≡ r
        → IsOp (read_to read)
        → Serves b (read_to read)
    by_result b c read space v k room s z some_left fits none e bounded = record {
      reply = (negsuc 0, []);
      after = c;
      runs = rw (read_runs b c read space (ok (negsuc 0, c)) room s (rw (z, e) refl)) refl;
      valid = k.valid;
      size_is = k.size_is;
      served = inr (space, some_left, fits, inl (e, refl, k.contents_is));
    }
    by_result b c read space v k room s z some_left fits (some d) e bounded =
        let short : length d ≤ space = bounded space d e in
        let space_is : buffer_space c ≡ c.size - c.in_at = buffer_space_lem c k.valid in
        let room_for : c.in_at + length d ≤ c.size =
          omega (arith, sym s ∙ space_is, k.valid.in_size) in
        let (f, append, a) = append_bytes-Appended c d k.valid room_for in
        record {
          reply = (pos (length d), []);
          after = f;
          runs =
              rw (read_runs b c read space (ok (pos (length d), f)) room s (rw (z, e, append) refl))
                refl;
          valid = a.valid;
          size_is = a.size_is ∙ k.size_is;
          served = inr (
            space,
            some_left,
            fits,
            inr (d, e, refl, a.contents_is ∙ ap (λ q. q ++ d) k.contents_is),
          );
        }

write_runs :
    (b : Buffer) (write : Bytes → Option ℕ) (held : ℕ) (d : Bytes) (out : Run (ℤ × Buffer))
    → buffer_len b ≡ held
    → read_at b.out_at held b.start ≡ ok d
    → (if held == 0 then ok (pos 0, b) else by_write b (write d)) ≡ out
    → buffer_write_from b write ≡ out
unfolding buffer_write_from
write_runs b write held d out h read e = rw (h, read) e

by_written :
    (b : Buffer) (write : Bytes → Option ℕ)
    → IsValid b
    → (length (contents b) == 0) ≡ false
    → (r : Option ℕ) → write (contents b) ≡ r
    → IsOp (write_from write)
    → ((out : Run (ℤ × Buffer))
        → (if length (contents b) == 0 then ok (pos 0, b) else by_write b (write (contents b)))
          ≡ out
        → buffer_write_from b write ≡ out)
    → Serves b (write_from write)
by_written b write v z none e bounded runs = record {
  reply = (negsuc 0, []);
  after = b;
  runs = rw (runs (ok (negsuc 0, b)) (rw (z, e) refl)) refl;
  valid = v;
  size_is = refl;
  served = inr (ground arith, inl (e, refl, refl));
}
by_written b write v z (some n) e bounded runs =
    let t = advance b n v (omega (arith, bounded (contents b) n e, length-contents b v)) in
    record {
      reply = (pos n, []);
      after = record b { out_at = b.out_at + n };
      runs = rw (runs (ok (pos n, record b { out_at = b.out_at + n })) (rw (z, e) refl)) refl;
      valid = t.valid;
      size_is = refl;
      served = inr (ground arith, inr (n, e, refl, t.contents_is));
    }

pub write_from-Serves :
    (b : Buffer) (write : Bytes → Option ℕ)
    → IsValid b
    → IsOp (write_from write)
    → Serves b (write_from write)
write_from-Serves b write v bounded =
    let size : length (contents b) ≡ b.in_at - b.out_at = length-contents b v in
    let held : buffer_len b ≡ length (contents b) = buffer_len_lem b v ∙ sym size in
    let read : read_at b.out_at (length (contents b)) b.start ≡ ok (contents b) =
      read_at_lem b.out_at (length (contents b)) b.start (omega (arith, size, v.memory_is))
      ∙ ap (λ n. ok (take n (drop b.out_at b.start))) size in
    let runs = write_runs b write (length (contents b)) (contents b) in
    elim (Bool-cases (length (contents b) == 0)) [
      | inl z ↦ record {
        reply = (pos 0, []);
        after = b;
        runs = rw (runs (ok (pos 0, b)) held read (rw z refl)) refl;
        valid = v;
        size_is = refl;
        served = inl (==→eq (length (contents b)) 0 z, refl, refl);
      }
      | inr z ↦
          by_written b write v z (write (contents b)) refl bounded (λ out e. runs out held read e)
    ]
