-- ===== src/Buffer/Refine.antt =====
-- The byte buffer serves its clients as a bounded queue of bytes.
use sunspec.Prelude.{
  ℕ, zero, suc, ◌+◌, ◌-◌, ◌^◌, ◌≤◌, ◌<◌, true, false, Option, none, some, [], ◌∷◌, ◌++◌, ◌≡◌, ◌⊎◌,
  refl, sym, ap, ◌∙◌, arith, inl, inr, ◌==◌, ltb, ==→eq, Bool-cases, length, take, drop,
  length-take, min, Run, ok, ◌>>=◌,
}
use sunspec.Prelude.Bytes.{Bytes, overwrite_lem}
use sunspec.Prelude.Int.{ℤ, pos, negsuc}
use sunspec.Buffer.{
  Buffer, ptr_distance, buffer_len, buffer_compact, buffer_copy_to, buffer_part_copy_from,
  buffer_copy_from, buffer_eat, buffer_read_to, buffer_write_from,
}
use sunspec.Buffer.Steps.{advance, take-take, buffer_copy_to_lem}
use sunspec.Buffer.Memory.{read_at, read_at_lem}
use sunspec.Buffer.Valid.{
  IsValid, contents, buffer_len_lem, length-contents, buffer_compact-Compacted,
}

-- The calls of a client. The source and destination are whole objects.
pub data Op : Type 0 where
  copy_to : (src : Bytes) → Op
  copy_from : (dest : Bytes) → Op
  eat : (len : ℕ) → Op
  compact : Op
  read_to : (read : ℕ → Option Bytes) → Op
  write_from : (write : Bytes → Option ℕ) → Op

-- `read` gives no more bytes than it is asked for, and `write` takes no more than it is given.
abbrev pub IsOp : Op → Type 0
IsOp (copy_from dest) = length dest < 2 ^ 64
IsOp (read_to read) = (n : ℕ) (d : Bytes) → read n ≡ some d → length d ≤ n
IsOp (write_from write) = (d : Bytes) (n : ℕ) → write d ≡ some n → n ≤ length d
IsOp (copy_to src) = Unit {0}
IsOp (eat len) = Unit {0}
IsOp compact = Unit {0}

-- What a queue of at most `cap` bytes does on each call: the result and the destination, and the
-- bytes held afterwards.
abbrev pub Served : (cap : ℕ) (q : Bytes) → Op → ℤ × Bytes → Bytes → Type 0
Served cap q (copy_to src) r q' =
    (r ≡ (pos (min (cap - length q) (length src)), []))
    × (q' ≡ q ++ take (min (cap - length q) (length src)) src)
Served cap q (copy_from dest) r q' =
    (r ≡ (
      pos (min (length q) (length dest)),
      take (min (length q) (length dest)) q ++ drop (min (length q) (length dest)) dest,
    ))
    × (q' ≡ drop (min (length q) (length dest)) q)
Served cap q (eat len) r q' = (r ≡ (pos 0, [])) × (q' ≡ drop len q)
Served cap q compact r q' = (r ≡ (pos (length q), [])) × (q' ≡ q)
Served cap q (read_to read) r q' =
    ((length q ≡ cap) × (r ≡ (pos 0, [])) × (q' ≡ q))
    ⊎ ((n : ℕ) × (0 < n)
        × (length q + n ≤ cap)
        × (((read n ≡ none) × (r ≡ (negsuc 0, [])) × (q' ≡ q))
            ⊎ ((d : Bytes) × (read n ≡ some d) × (r ≡ (pos (length d), [])) × (q' ≡ q ++ d))))
Served cap q (write_from write) r q' =
    ((length q ≡ 0) × (r ≡ (pos 0, [])) × (q' ≡ q))
    ⊎ ((0 < length q)
        × (((write q ≡ none) × (r ≡ (negsuc 0, [])) × (q' ≡ q))
            ⊎ ((n : ℕ) × (write q ≡ some n) × (r ≡ (pos n, [])) × (q' ≡ drop n q))))

-- The calls on the buffer.
abbrev pub step : Buffer → Op → Run ((ℤ × Bytes) × Buffer)
step b (copy_to src) = do (n, c) ← buffer_copy_to b src (length src); ok ((pos n, []), c)
step b (copy_from dest) = do
  (n, out, c) ← buffer_copy_from b dest (length dest)
  ok ((pos n, out), c)
step b (eat len) = ok ((pos 0, []), buffer_eat b len)
step b compact = do (n, c) ← buffer_compact b; ok ((pos n, []), c)
step b (read_to read) = do (rc, c) ← buffer_read_to b read; ok ((rc, []), c)
step b (write_from write) = do (rc, c) ← buffer_write_from b write; ok ((rc, []), c)

-- A call that served its client.
pub record Serves (b : Buffer) (op : Op) : Type 0 where
  pub reply : ℤ × Bytes
  pub after : Buffer
  pub runs : step b op ≡ ok (reply, after)
  pub valid : IsValid after
  pub size_is : after.size ≡ b.size
  pub served : Served b.size (contents b) op reply (contents after)

pub copy_to-Serves : (b : Buffer) (src : Bytes) → IsValid b → Serves b (copy_to src)
copy_to-Serves b src v =
    let t = buffer_copy_to_lem b src (length src) v (omega arith) in
    record {
      reply = (pos t.count, []);
      after = t.after;
      runs = rw t.runs refl;
      valid = t.valid;
      size_is = t.size_is;
      served = (
        ap (λ (n : ℕ). (pos n, [])) t.count_is,
        t.contents_is ∙ ap (λ n. contents b ++ take n src) t.count_is,
      );
    }

copy_from_runs :
    (b : Buffer) (dest d : Bytes) (len held : ℕ)
    → buffer_len b ≡ held
    → ptr_distance len 0 ≡ len
    → (min held len == 0) ≡ false
    → read_at (b.out_at + 0) (min held len) b.start ≡ ok d
    → length d ≤ length dest
    → buffer_copy_from b dest len
      ≡ ok (min held len, d ++ drop (length d) dest, record b { out_at = b.out_at + min held len })
unfolding buffer_copy_from buffer_part_copy_from
copy_from_runs b dest d len held h l z read fits =
    rw (h, l, z, read, overwrite_lem dest d fits) refl

none_runs :
    (b : Buffer) (dest : Bytes) (len held : ℕ)
    → buffer_len b ≡ held
    → ptr_distance len 0 ≡ len
    → (min held len == 0) ≡ true
    → buffer_copy_from b dest len ≡ ok (0, dest, b)
unfolding buffer_copy_from buffer_part_copy_from
none_runs b dest len held h l z = rw (h, l, z) refl

pub copy_from-Serves :
    (b : Buffer) (dest : Bytes) → IsValid b → length dest < 2 ^ 64 → Serves b (copy_from dest)
copy_from-Serves b dest v small =
    let len = length dest in
    let q : ℕ = length (contents b) in
    let size : length (contents b) ≡ b.in_at - b.out_at = length-contents b v in
    let held : buffer_len b ≡ length (contents b) = buffer_len_lem b v ∙ sym size in
    let whole : ptr_distance len 0 ≡ len = omega arith in
    let n : ℕ = min q len in
    let at : b.out_at + 0 ≡ b.out_at = omega arith in
    let read : read_at (b.out_at + 0) n b.start ≡ ok (take n (contents b)) = rw at (
      read_at_lem b.out_at n b.start (omega (arith, size, v.memory_is))
      ∙ ap ok (sym (take-take n (b.in_at - b.out_at) (drop b.out_at b.start) (omega arith)))) in
    let given : length (take n (contents b)) ≡ n = length-take n (contents b) (omega arith) in
    let t = advance b n v (omega (arith, size)) in
    elim (Bool-cases (min q len == 0)) [
      | inl z ↦
          let none_moved : n ≡ 0 = ==→eq n 0 z in
          record {
            reply = (pos 0, dest);
            after = b;
            runs = rw (none_runs b dest len q held whole z) refl;
            valid = v;
            size_is = refl;
            served = (
              ap (λ k. (pos k, take k (contents b) ++ drop k dest)) (sym none_moved),
              ap (λ k. drop k (contents b)) (sym none_moved),
            );
          }
      | inr z ↦ record {
        reply = (pos n, take n (contents b) ++ drop n dest);
        after = record b { out_at = b.out_at + n };
        runs =
            rw
              (copy_from_runs b dest (take n (contents b)) len q held whole z read
                (omega (arith, given)))
              (ap
                (λ k.
                  ok (
                    (pos n, take n (contents b) ++ drop k dest),
                    record b { out_at = b.out_at + n },
                  ))
                given);
        valid = t.valid;
        size_is = refl;
        served = (refl, t.contents_is);
      }
    ]

drop-all : (n : ℕ) (xs : Bytes) → length xs ≤ n → drop n xs ≡ []
drop-all zero [] h = refl
drop-all zero (x ∷ xs) h = absurd (omega arith)
drop-all (suc n) [] h = refl
drop-all (suc n) (x ∷ xs) h = drop-all n xs (omega arith)

pub eat-Serves : (b : Buffer) (len : ℕ) → IsValid b → Serves b (eat len)
unfolding buffer_eat
eat-Serves b len v =
    let size : length (contents b) ≡ b.in_at - b.out_at = length-contents b v in
    let held : buffer_len b ≡ length (contents b) = buffer_len_lem b v ∙ sym size in
    let q : ℕ = length (contents b) in
    elim (Bool-cases (ltb q len)) [
      | inl more ↦
          let t = advance b q v (omega (arith, size)) in
          record {
            reply = (pos 0, []);
            after = record b { out_at = b.out_at + q };
            runs = rw (held, more) refl;
            valid = t.valid;
            size_is = refl;
            served = (
              refl,
              t.contents_is
                  ∙ drop-all q (contents b) (omega arith)
                  ∙ sym (drop-all len (contents b) (ground arith)),
            );
          }
      | inr fits ↦
          let t = advance b len v (ground (arith, size)) in
          record {
            reply = (pos 0, []);
            after = record b { out_at = b.out_at + len };
            runs = rw (held, fits) refl;
            valid = t.valid;
            size_is = refl;
            served = (refl, t.contents_is);
          }
    ]

pub compact-Serves : (b : Buffer) → IsValid b → Serves b compact
compact-Serves b v =
    let (c, run, k) = buffer_compact-Compacted b v in
    record {
      reply = (pos (length (contents b)), []);
      after = c;
      runs = rw run refl;
      valid = k.kept.valid;
      size_is = k.kept.size_is;
      served = (refl, k.kept.contents_is);
    }
