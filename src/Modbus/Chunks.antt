-- ===== src/Modbus/Chunks.antt =====
-- A read in chunks gives what one request for all registers would give.
use mathlib.Core.Option.{some-injective}
use sunspec.Prelude.{
  ℕ, zero, suc, ◌+◌, ◌-◌, ◌≤◌, ◌<◌, false, Option, some, none, List, [], ◌∷◌, ◌++◌, ◌≡◌, refl, sym,
  ap, ◌∙◌, arith, min, ltb, length,
}
use sunspec.Modbus.{
  Modbus, Reply, registers, illegal_address, failed, by_reply, by_chunk, slice, IsHonest,
  IsReliable, Fetched, got, lost, try_read, read_chunks, suns_app_read_registers, max_request,
}

pub length-slice : (mem : ℕ → ℕ) (addr n : ℕ) → length (slice mem addr n) ≡ n
unfolding slice
length-slice mem addr zero = refl
length-slice mem addr (suc n) = omega (arith, length-slice mem (addr + 1) n)

pub slice-append :
    (mem : ℕ → ℕ) (addr m n : ℕ)
    → slice mem addr m ++ slice mem (addr + m) n ≡ slice mem addr (m + n)
unfolding slice
slice-append mem addr zero n =
    let a : addr + 0 ≡ addr = omega arith in
    let b : n ≡ 0 + n = omega arith in ap (λ k. slice mem k n) a ∙ ap (slice mem addr) b
slice-append mem addr (suc m) n =
    let a : addr + suc m ≡ addr + 1 + m = omega arith in
    let b : suc m + n ≡ suc (m + n) = omega arith in
    rw (a, b) (ap (◌∷◌ (mem addr)) (slice-append mem (addr + 1) m n))

le→ltb : {a b : ℕ} → b ≤ a → ltb a b ≡ false
le→ltb {a} {b} h = ground arith

lossless : {rs : List ℕ} → some rs ≡ none → ⊥
lossless e = cc

by_reply-some :
    {S : Type 0} (s : S) (again : S × Option (List ℕ)) (r : Reply) {rs xs : List ℕ}
    → (by_reply s again r).1 ≡ some rs
    → (again.1 ≡ some rs → rs ≡ xs)
    → ((ys : List ℕ) → r ≡ registers ys → ys ≡ xs)
    → rs ≡ xs
by_reply-some s again (registers ys) e later now = sym (some-injective ys _ e) ∙ now ys refl
by_reply-some s again illegal_address e later now = later e
by_reply-some s again failed e later now = later e

-- The outcomes of a read that ends, inside its buffer, with all registers, or without an answer
-- where `Lossy` holds.
pub data Fetches (Lossy : Type 0) {S : Type 0} (regs : List ℕ) : Fetched S → Type 0 where
  all : (s : S) → Fetches Lossy regs (got s regs)
  unanswered : (s : S) → Lossy → Fetches Lossy regs (lost s)

by_chunk-Fetches :
    {Lossy S : Type 0} {regs : List ℕ} {next : List ℕ → Fetched S} (s : S) (reply : Option (List ℕ))
    → (reply ≡ none → Lossy)
    → ((rs : List ℕ) → reply ≡ some rs → Fetches Lossy regs (next rs))
    → Fetches Lossy regs (by_chunk s reply next)
by_chunk-Fetches s none l k = unanswered s (l refl)
by_chunk-Fetches s (some rs) l k = k rs refl

Fetches-got :
    {S : Type 0} {regs : List ℕ} (r : Fetched S) → Fetches ⊥ regs r → (s : S) × r ≡ got s regs
Fetches-got _ (all s) = (s, refl)
Fetches-got _ (unanswered s impossible) = absurd impossible

module _ (m : Modbus) (mem : ℕ → ℕ) where
  open m use {State, read_registers}

  -- The registers that a retried request gives, if it gives any.
  pub try_read-slice :
      (honest : IsHonest m mem) (tries : ℕ) (s : State) (addr n : ℕ) {rs : List ℕ}
      → (try_read m tries s addr n).1 ≡ some rs
      → rs ≡ slice mem addr n
  unfolding try_read
  try_read-slice honest zero s addr n e = cc
  try_read-slice honest (suc tries) s addr n e =
      let r = read_registers s addr n in
      by_reply-some r.0 (try_read m tries r.0 addr n) r.1 e
        (λ f. try_read-slice honest tries r.0 addr n f) (λ ys f. honest.answers s addr n ys f)

  pub try_read-reliable :
      (reliable : IsReliable m mem) (tries : ℕ) (s : State) (addr n : ℕ)
      → 0 < tries
      → 0 < n
      → n ≤ max_request
      → (try_read m tries s addr n).1 ≡ some (slice mem addr n)
  unfolding try_read
  try_read-reliable reliable zero s addr n h some_count few = absurd (omega arith)
  try_read-reliable reliable (suc tries) s addr n h some_count few =
      let r = read_registers s addr n in
      ap (λ reply. (by_reply r.0 (try_read m tries r.0 addr n) reply).1)
        (reliable.replies s addr n some_count few)

  module _ (tries max_read room start : ℕ) (some_max : 0 < max_read) (honest : IsHonest m mem)
      (Lossy : Type 0)
      (loss : (s : State) (addr n : ℕ)
        → 0 < n
        → n ≤ max_read
        → (try_read m tries s addr n).1 ≡ none
        → Lossy) where
    read_chunks-Fetches :
        (fuel : ℕ) (s : State) (offset left : ℕ) (regs : List ℕ)
        → regs ≡ slice mem start offset
        → left ≤ fuel
        → offset + left ≤ room
        → Fetches Lossy
            (slice mem start (offset + left))
            (read_chunks m fuel tries max_read room s start offset left regs)
    unfolding read_chunks
    read_chunks-Fetches fuel s offset zero regs e f h =
        let z : offset + 0 ≡ offset = omega arith in rw (z, e) (all s)
    read_chunks-Fetches zero s offset (suc left) regs e f h = absurd (omega arith)
    read_chunks-Fetches (suc fuel) s offset (suc left) regs e f h =
        let n = min (suc left) max_read in
        let r = try_read m tries s (start + offset) n in
        by_chunk-Fetches r.0 r.1 (loss s (start + offset) n (omega arith) (omega arith)) λ rs g.
          let here : rs ≡ slice mem (start + offset) n =
            try_read-slice honest tries s (start + offset) n g in
          let k : length rs ≡ n = ap length here ∙ length-slice mem (start + offset) n in
          let b : n ≤ suc left = omega arith in
          let t : ltb room (offset + length rs) ≡ false = le→ltb (omega (arith, k)) in
          let joined : regs ++ rs ≡ slice mem start (offset + n) =
            rw (e, here) (slice-append mem start offset n) in
          let total : offset + n + (suc left - n) ≡ offset + suc left = omega arith in
          let rest =
            read_chunks-Fetches fuel r.0 (offset + n) (suc left - n) (regs ++ rs) joined
              (omega arith) (omega arith) in
          rw (t, sym total) rest

    read_all :
        (s : State) (len : ℕ)
        → len ≤ room
        → Fetches Lossy
            (slice mem start len)
            (suns_app_read_registers m tries max_read room s start len)
    unfolding suns_app_read_registers slice
    read_all s len k =
        let z : slice mem start (0 + len) ≡ slice mem start len =
          ap (slice mem start) (omega arith) in
        rw (sym z) (read_chunks-Fetches len s 0 len [] refl (omega arith) (omega (arith, k)))

  -- On a line whose successful requests give the registers asked for, with room for `len`
  -- registers and a request size that is not 0, a read ends inside its buffer: with the registers
  -- from `start` on, all and in order, or without an answer.
  pub suns_app_read_registers-Fetches :
      (honest : IsHonest m mem) (tries max_read room : ℕ) (s : State) (start len : ℕ)
      → 0 < max_read
      → len ≤ room
      → Fetches Unit
          (slice mem start len)
          (suns_app_read_registers m tries max_read room s start len)
  suns_app_read_registers-Fetches honest tries max_read room s start len h k =
      read_all tries max_read room start h honest Unit (λ _ _ _ _ _ _. record {}) s len k

  -- On a line that answers each request for 1 to 125 registers with the registers asked for, with
  -- room for `len` registers, at least one try and a request size from 1 to 125, a read gives all
  -- `len` registers from `start` on, in order: what one request for all of them would give.
  pub suns_app_read_registers-slice :
      (reliable : IsReliable m mem) (tries max_read room : ℕ) (s : State) (start len : ℕ)
      → 0 < tries
      → 0 < max_read
      → max_read ≤ max_request
      → len ≤ room
      → (s' : State) × suns_app_read_registers m tries max_read room s start len
          ≡ got s' (slice mem start len)
  suns_app_read_registers-slice reliable tries max_read room s start len t h few_max k =
      Fetches-got _ (
        read_all tries max_read room start h reliable.honest ⊥
          (λ s addr n some_count few e.
            lossless
              (sym (try_read-reliable reliable tries s addr n t some_count (omega arith)) ∙ e))
          s len k)
