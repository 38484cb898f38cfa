-- ===== src/Buffer/Transfer.antt =====
-- Sequences of calls on the byte buffer.
use mathlib.Core.Path.{subst}
use sunspec.Prelude.{ℕ, List, [], ◌∷◌, ◌≡◌, refl, ◌∙◌, Run, ok, ◌>>=◌}
use sunspec.Prelude.Bytes.{Bytes}
use sunspec.Prelude.Int.{ℤ}
use sunspec.Buffer.{Buffer}
use sunspec.Buffer.Valid.{IsValid, contents}
use sunspec.Buffer.Refine.{
  Op, copy_to, copy_from, eat, compact, read_to, write_from, IsOp, Served, step, Serves,
  copy_to-Serves, copy_from-Serves, eat-Serves, compact-Serves,
}
use sunspec.Buffer.Calls.{read_to-Serves, write_from-Serves}

step-Serves : (b : Buffer) (op : Op) → IsValid b → IsOp op → Serves b op
step-Serves b (copy_to src) v o = copy_to-Serves b src v
step-Serves b (copy_from dest) v o = copy_from-Serves b dest v o
step-Serves b (eat len) v o = eat-Serves b len v
step-Serves b compact v o = compact-Serves b v
step-Serves b (read_to read) v o = read_to-Serves b read v o
step-Serves b (write_from write) v o = write_from-Serves b write v o

-- The calls of a client in order, with their results.
abbrev pub run : Buffer → List Op → Run (List (ℤ × Bytes) × Buffer)
run b [] = ok ([], b)
run b (op ∷ ops) = do (r, c) ← step b op; (rs, d) ← run c ops; ok (r ∷ rs, d)

abbrev pub AllOps : List Op → Type 0
AllOps [] = Unit {0}
AllOps (op ∷ ops) = IsOp op × AllOps ops

-- The queue served each call in turn.
abbrev pub ServedAll : (cap : ℕ) (q : Bytes) → List Op → List (ℤ × Bytes) → Bytes → Type 0
ServedAll cap q [] [] q' = q' ≡ q
ServedAll cap q [] (r ∷ rs) q' = ⊥
ServedAll cap q (op ∷ ops) [] q' = ⊥
ServedAll cap q (op ∷ ops) (r ∷ rs) q' =
    (q₁ : Bytes) × Served cap q op r q₁ × ServedAll cap q₁ ops rs q'

-- Every sequence of calls on a valid buffer runs without a fault and keeps it valid, and the
-- results and the bytes held are those of a queue of at most the buffer's size: buffer_copy_to
-- appends the bytes that fit and buffer_copy_from takes the oldest, both up to the length of the
-- client's object, buffer_eat drops the oldest and buffer_compact changes nothing;
-- buffer_read_to asks for at least one byte and no more than fit unless the queue is full and
-- appends what it gets; and buffer_write_from offers all bytes unless there is none and drops those
-- taken. `read` must not give more than asked for, nor `write` take more than offered.
pub run-ServedAll :
    (ops : List Op) (b : Buffer)
    → IsValid b
    → AllOps ops
    → (rs : List (ℤ × Bytes)) × (c : Buffer) × (run b ops ≡ ok (rs, c))
      × IsValid c
      × (c.size ≡ b.size)
      × ServedAll b.size (contents b) ops rs (contents c)
run-ServedAll [] b v o = ([], b, refl, v, refl, refl)
run-ServedAll (op ∷ ops) b v o =
    let s = step-Serves b op v o.0 in
    let (rs, c, e, w, size, served) = run-ServedAll ops s.after s.valid o.1 in
    (
      s.reply ∷ rs,
      c,
      rw (s.runs, e) refl,
      w,
      size ∙ s.size_is,
      (
        contents s.after,
        s.served,
        subst (λ cap. ServedAll cap (contents s.after) ops rs (contents c)) s.size_is served,
      ),
    )
