-- ===== src/Buffer/Memory.antt =====
-- Reads and writes at an offset of an object, as `memcpy` makes them.
use mathlib.Core.List.{append_assoc}
use sunspec.Prelude.{
  ℕ, zero, suc, ◌+◌, ◌≤◌, [], ◌∷◌, ◌++◌, ◌≡◌, refl, ap, arith, length, take, drop, length-append,
  length-drop, take-append, Run, ok, fault, ◌>>=◌,
}
use sunspec.Prelude.Bytes.{Bytes, overwrite, overwrite_lem}

-- A read or a write past the end is a fault.
unfoldable pub read_front : (n : ℕ) → Bytes → Run Bytes
read_front zero mem = ok []
read_front (suc n) [] = fault
read_front (suc n) (b ∷ mem) = do rest ← read_front n mem; ok (b ∷ rest)

unfoldable pub read_at : (at n : ℕ) → Bytes → Run Bytes
unfolding read_front
read_at zero n mem = read_front n mem
read_at (suc i) n [] = fault
read_at (suc i) n (b ∷ mem) = read_at i n mem

unfoldable pub write_at : (at : ℕ) (new mem : Bytes) → Run Bytes
unfolding overwrite
write_at zero new mem = overwrite mem new
write_at (suc i) new [] = fault
write_at (suc i) new (b ∷ mem) = do rest ← write_at i new mem; ok (b ∷ rest)

-- The object after a write.
abbrev pub put_at : (at : ℕ) (new mem : Bytes) → Bytes
put_at zero new mem = new ++ drop (length new) mem
put_at (suc i) new [] = []
put_at (suc i) new (b ∷ mem) = b ∷ put_at i new mem

read_front_lem : (n : ℕ) (mem : Bytes) → n ≤ length mem → read_front n mem ≡ ok (take n mem)
unfolding read_front
read_front_lem zero mem h = refl
read_front_lem (suc n) [] h = absurd (omega arith)
read_front_lem (suc n) (b ∷ mem) h = rw (read_front_lem n mem (omega arith)) refl

pub read_at_lem :
    (i n : ℕ) (mem : Bytes) → i + n ≤ length mem → read_at i n mem ≡ ok (take n (drop i mem))
unfolding read_at
read_at_lem zero n mem h = read_front_lem n mem (omega arith)
read_at_lem (suc i) n [] h = absurd (omega arith)
read_at_lem (suc i) n (b ∷ mem) h = read_at_lem i n mem (omega arith)

pub write_at_lem :
    (i : ℕ) (new mem : Bytes)
    → i + length new ≤ length mem
    → write_at i new mem ≡ ok (put_at i new mem)
unfolding write_at
write_at_lem zero new mem h = overwrite_lem mem new (omega arith)
write_at_lem (suc i) new [] h = absurd (omega arith)
write_at_lem (suc i) new (b ∷ mem) h = rw (write_at_lem i new mem (omega arith)) refl

pub length-put_at :
    (i : ℕ) (new mem : Bytes) → i + length new ≤ length mem → length (put_at i new mem) ≡ length mem
length-put_at zero new mem h =
    omega (arith, length-append new (drop (length new) mem), length-drop (length new) mem)
length-put_at (suc i) new [] h = absurd (omega arith)
length-put_at (suc i) new (b ∷ mem) h = ap suc (length-put_at i new mem (omega arith))

pub take-put_at :
    (i k : ℕ) (new mem : Bytes)
    → k ≡ i + length new
    → i ≤ length mem
    → take k (put_at i new mem) ≡ take i mem ++ new
take-put_at zero k new mem e h =
    let z : k ≡ length new = omega arith in rw z (take-append new (drop (length new) mem))
take-put_at (suc i) zero new mem e h = absurd (omega arith)
take-put_at (suc i) (suc k) new [] e h = absurd (omega arith)
take-put_at (suc i) (suc k) new (b ∷ mem) e h =
    ap (◌∷◌ b) (take-put_at i k new mem (omega arith) (omega arith))

pub take-put_at_front :
    (i k : ℕ) (e z mem : Bytes)
    → k ≡ i + length e
    → i ≤ length mem
    → take k (put_at i (e ++ z) mem) ≡ take i mem ++ e
take-put_at_front zero k e z mem f h =
    let same : k ≡ length e = omega arith in
    rw (same, append_assoc e z (drop (length (e ++ z)) mem)) (take-append e _)
take-put_at_front (suc i) zero e z mem f h = absurd (omega arith)
take-put_at_front (suc i) (suc k) e z [] f h = absurd (omega arith)
take-put_at_front (suc i) (suc k) e z (b ∷ mem) f h =
    ap (◌∷◌ b) (take-put_at_front i k e z mem (omega arith) (omega arith))

-- A write behind a window of the object makes the window longer by what is written.
pub window-put_at :
    (o i n k : ℕ) (new mem : Bytes)
    → o + n ≡ i
    → k ≡ n + length new
    → i ≤ length mem
    → take k (drop o (put_at i new mem)) ≡ take n (drop o mem) ++ new
window-put_at zero i n k new mem e f h =
    let z : n ≡ i = omega arith in rw z (take-put_at i k new mem (omega arith) h)
window-put_at (suc o) zero n k new mem e f h = absurd (omega arith)
window-put_at (suc o) (suc i) n k new [] e f h = absurd (omega arith)
window-put_at (suc o) (suc i) n k new (b ∷ mem) e f h =
    window-put_at o i n k new mem (omega arith) f (omega arith)

pub take-append-drop :
    (i : ℕ) (new mem : Bytes)
    → i ≤ length mem
    → take i mem ++ (new ++ drop (length new) (drop i mem)) ≡ put_at i new mem
take-append-drop zero new mem h = refl
take-append-drop (suc i) new [] h = absurd (omega arith)
take-append-drop (suc i) new (b ∷ mem) h = ap (◌∷◌ b) (take-append-drop i new mem (omega arith))
