-- ===== src/Buffer.antt =====
-- The byte buffer of lib/trx/buffer.c and lib/trx/buffer.h. The pointers `in` and `out` are offsets
-- from `start`, and a length is a `size_t`, with its wrap-around. Results are taken to fit in an
-- `int`. The bytes that `read` gives and the number that `write` takes are arguments, `none` for
-- an error. buffer_change_size is left out: it subtracts pointers into two objects, whatever its
-- arguments are.
pub mod Memory
pub mod Printf
pub mod Refine
pub mod Steps
pub mod Transfer
pub mod Calls
pub mod Valid
use sunspec.Prelude.{
  ℕ, zero, suc, ◌+◌, ◌-◌, ◌%◌, ◌^◌, Bool, Option, none, some, [], ◌∷◌, ◌++◌, min, ◌==◌, ltb,
  if◌then◌else◌, length, drop, Run, ok, fault, ◌>>=◌,
}
use sunspec.Prelude.Bytes.{Bytes, overwrite}
use sunspec.Prelude.Int.{ℤ, pos, negsuc}
use sunspec.Output.{snprintf}
use sunspec.Buffer.Memory.{read_at, write_at}

-- `buffer_t`
pub record Buffer : Type 0 where
  pub start : Bytes
  pub in_at : ℕ
  pub out_at : ℕ
  pub size : ℕ

-- The difference of two pointers, as a `size_t`.
abbrev pub ptr_distance : ℕ → ℕ → ℕ
ptr_distance a b = (2 ^ 64 + a - b) % 2 ^ 64

abbrev pub buffer_space : Buffer → ℕ
buffer_space b = ptr_distance b.size b.in_at

abbrev pub buffer_len : Buffer → ℕ
buffer_len b = ptr_distance b.in_at b.out_at

-- The bytes between `start` and `in`.
abbrev pub buffer_unusable : Buffer → ℕ
buffer_unusable b = b.in_at

-- `memory` is what `malloc` gives.
unfoldable pub buffer_new : (size : ℕ) (memory : Bytes) → Buffer
buffer_new size memory = record { start = memory; in_at = 0; out_at = 0; size = size }

unfoldable pub buffer_new_static_init : Buffer → (size : ℕ) (memory : Bytes) → Buffer
buffer_new_static_init b size memory = record b {
  start = memory;
  in_at = 0;
  out_at = 0;
  size = size;
}

unfoldable pub buffer_reset : Buffer → Buffer
buffer_reset b = record b { in_at = 0; out_at = 0 }

unfoldable pub buffer_peek : Buffer → (offset : ℕ) → Run Bytes
buffer_peek b offset = read_at (b.out_at + offset) 1 b.start

unfoldable pub buffer_poke : Buffer → (c : ℕ) → Run Buffer
buffer_poke b c = do
  start ← write_at b.in_at (c ∷ []) b.start
  ok (record b { start = start; in_at = b.in_at + 1 })

unfoldable pub buffer_eat : Buffer → (len : ℕ) → Buffer
buffer_eat b len =
    if ltb (buffer_len b) len
    then record b { out_at = b.out_at + buffer_len b }
    else record b { out_at = b.out_at + len }

-- `memmove(buf->start, buf->out, len)`
abbrev pub move_down : Buffer → (len : ℕ) → Run Bytes
move_down b len =
    if len == 0 then ok b.start else do d ← read_at b.out_at len b.start; overwrite b.start d

unfoldable pub buffer_compact : Buffer → Run (ℕ × Buffer)
buffer_compact b =
    let len = buffer_len b in
    let compacted = (do
      start ← move_down b len
      ok (len, record b { start = start; in_at = len; out_at = 0 })) in
    if buffer_unusable b == 0 then ok (0, b) else compacted

-- `more` is what `realloc` adds to the object, or `none` if it fails.
unfoldable pub buffer_resize : Buffer → (size : ℕ) (more : Option Bytes) → Run (ℤ × Buffer)
buffer_resize b size none = do (_, c) ← buffer_compact b; ok (negsuc 0, c)
buffer_resize b size (some more) = do
  (_, c) ← buffer_compact b
  ok (pos 0, record c { start = c.start ++ more; size = size })

-- The result, the object of `dest` and the buffer.
unfoldable pub buffer_part_copy_from :
    Buffer → (offset : ℕ) (dest : Bytes) (len : ℕ) → Run (ℕ × Bytes × Buffer)
buffer_part_copy_from b offset dest len =
    let copy_len = min (buffer_len b) (ptr_distance len offset) in
    let copy = (do
      d ← read_at (b.out_at + offset) copy_len b.start
      out ← overwrite dest d
      ok (copy_len, out, record b { out_at = b.out_at + copy_len })) in
    if copy_len == 0 then ok (0, dest, b) else copy

unfoldable pub buffer_copy_from : Buffer → (dest : Bytes) (len : ℕ) → Run (ℕ × Bytes × Buffer)
unfolding buffer_part_copy_from
buffer_copy_from b dest len = buffer_part_copy_from b 0 dest len

-- The bytes are compacted if there is too little space behind them.
unfoldable pub make_room : Buffer → (too_little : ℕ → Bool) → Run Buffer
make_room b too_little =
    if too_little (buffer_space b) then (do (_, c) ← buffer_compact b; ok c) else ok b

abbrev pub append_bytes : Buffer → Bytes → Run Buffer
append_bytes b d = do
  start ← write_at b.in_at d b.start
  ok (record b { start = start; in_at = b.in_at + length d })

unfoldable pub buffer_copy_to : Buffer → (src : Bytes) (len : ℕ) → Run (ℕ × Buffer)
buffer_copy_to b src len = do
  c ← make_room b (λ space. ltb space len)
  let copy_len = min (buffer_space c) len
  let copy = (do d ← read_at 0 copy_len src; e ← append_bytes c d; ok (copy_len, e))
  if buffer_space c == 0 then ok (0, c) else copy

abbrev pub by_read : Buffer → Option Bytes → Run (ℤ × Buffer)
by_read b none = ok (negsuc 0, b)
by_read b (some d) = do e ← append_bytes b d; ok (pos (length d), e)

-- `read n` is what a request for `n` bytes gives.
unfoldable pub buffer_read_to : Buffer → (read : ℕ → Option Bytes) → Run (ℤ × Buffer)
buffer_read_to b read = do
  c ← make_room b (λ space. space == 0)
  if buffer_space c == 0 then ok (pos 0, c) else by_read c (read (buffer_space c))

abbrev pub by_write : Buffer → Option ℕ → Run (ℤ × Buffer)
by_write b none = ok (negsuc 0, b)
by_write b (some n) = ok (pos n, record b { out_at = b.out_at + n })

-- `write d` is how many of the bytes `d` are taken.
unfoldable pub buffer_write_from : Buffer → (write : Bytes → Option ℕ) → Run (ℤ × Buffer)
buffer_write_from b write =
    let send = (do d ← read_at b.out_at (buffer_len b) b.start; by_write b (write d)) in
    if buffer_len b == 0 then ok (pos 0, b) else send

-- The bytes go from the object of the first buffer to the second; the result is with both.
unfoldable pub buffer_to_buffer_copy_len : (from to : Buffer) (len : ℕ) → Run (ℕ × Buffer × Buffer)
buffer_to_buffer_copy_len from to len =
    let copy = (do
      (n, filled) ← buffer_copy_to to (drop from.out_at from.start) len
      ok (n, record from { out_at = from.out_at + n }, filled)) in
    if buffer_len from == 0
    then ok (0, from, to)
    else if buffer_space to == 0
    then ok (0, from, to)
    else copy

-- `text` is what the format and its arguments make.
unfoldable pub buffer_printf : Buffer → (text : Bytes) → Run (ℕ × Buffer)
buffer_printf b text = do
  c ← make_room b (λ space. space == 0)
  let rc = length text
  let space = buffer_space c
  let print = (do
    start ← write_at c.in_at (snprintf space text) c.start
    ok (rc, record c { start = start; in_at = c.in_at + (if ltb rc space then space else rc) }))
  if space == 0 then ok (0, c) else print
