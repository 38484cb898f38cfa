-- ===== src/Modbus.antt =====
-- Reading registers of a device: `suns_app_read_registers` and `suns_app_swap_registers` of
-- src/suns_app.c. libmodbus is not part of the repository: `Modbus` is what the code uses of it.
pub mod Chunks
pub mod Swap
use sunspec.Prelude.{
  ℕ, zero, suc, ◌+◌, ◌-◌, ◌*◌, ◌%◌, ◌^◌, ◌≤◌, ◌<◌, Bool, Option, some, none, List, [], ◌∷◌, ◌++◌,
  ◌≡◌, min, ltb, if◌then◌else◌, length, Run, ok, true, false,
}
use sunspec.Prelude.Bytes.{Bytes, be16}

-- The answer to one request: the registers, the exception "illegal address", or another failure.
pub data Reply : Type 0 where
  registers : List ℕ → Reply
  illegal_address failed : Reply

-- `modbus_read_registers`: the context and the line change with each request.
pub record Modbus : Type 1 where
  pub State : Type 0
  pub read_registers : State → (addr count : ℕ) → State × Reply

-- `count` registers of a device from an address on.
unfoldable pub slice : (ℕ → ℕ) → (addr count : ℕ) → List ℕ
slice mem addr zero = []
slice mem addr (suc n) = mem addr ∷ slice mem (addr + 1) n

-- The documented behaviour: a successful request gives the registers asked for. `mem` are the
-- registers of the device, which do not change meanwhile.
pub record IsHonest (m : Modbus) (mem : ℕ → ℕ) : Type 0 where
  pub answers :
      (s : m.State) (addr count : ℕ) (rs : List ℕ)
      → (m.read_registers s addr count).1 ≡ registers rs
      → rs ≡ slice mem addr count

-- The most registers that one request may ask for, by the specification of Modbus.
abbrev pub max_request : ℕ
max_request = 125

-- A line on which each request for a number of registers that is allowed succeeds.
pub record IsReliable (m : Modbus) (mem : ℕ → ℕ) : Type 0 where
  pub honest : IsHonest m mem
  pub replies :
      (s : m.State) (addr count : ℕ)
      → 0 < count
      → count ≤ max_request
      → (m.read_registers s addr count).1 ≡ registers (slice mem addr count)

-- The results of the reading functions, with the state of the line.
pub data Fetched (S : Type 0) : Type 0 where
  got : S → List ℕ → Fetched S
  lost : S → Fetched S
  fault : Fetched S
  out_of_fuel : Fetched S

-- The test of the retry loop: `again` is what the tries that are left give.
abbrev pub by_reply : {S : Type 0} → S → (again : S × Option (List ℕ)) → Reply → S × Option (List ℕ)
by_reply s again (registers rs) = (s, some rs)
by_reply s again illegal_address = again
by_reply s again failed = again

abbrev pub by_chunk : {S : Type 0} → S → Option (List ℕ) → (List ℕ → Fetched S) → Fetched S
by_chunk s none next = lost s
by_chunk s (some rs) next = next rs

module _ (m : Modbus) where
  open m use {State, read_registers}

  -- The retry loop, on the tries that are left; `by_reply` is its test on one answer.
  unfoldable pub try_read : ℕ → State → (addr count : ℕ) → State × Option (List ℕ)
  try_read zero s addr count = (s, none)
  try_read (suc tries) s addr count =
      let (s', reply) = read_registers s addr count in
      by_reply s' (try_read tries s' addr count) reply

  -- `room` are the registers that the buffer behind `regs` holds: libmodbus writes all it read.
  -- The loop `while (reg_offset < len)`. Each round reads at least one register if
  -- `max_modbus_read` is not 0, so `len` rounds are enough.
  unfoldable pub read_chunks :
      (fuel tries max_modbus_read room : ℕ)
      → State
      → (start offset len : ℕ) → List ℕ
      → Fetched State
  read_chunks fuel tries max_read room s start offset zero regs = got s regs
  read_chunks zero tries max_read room s start offset (suc left) regs = out_of_fuel
  read_chunks (suc fuel) tries max_read room s start offset (suc left) regs =
      let n = min (suc left) max_read in
      let (s', reply) = try_read tries s (start + offset) n in
      by_chunk s' reply λ rs.
        let later =
          read_chunks fuel tries max_read room s' start (offset + n) (suc left - n) (regs ++ rs) in
        if ltb room (offset + length rs) then fault else later

  -- `len` is what is left to read.
  unfoldable pub suns_app_read_registers :
      (tries max_modbus_read room : ℕ) → State → (start len : ℕ) → Fetched State
  suns_app_read_registers tries max_read room s start len =
      read_chunks len tries max_read room s start 0 len []

-- `((uint16_t*)buf)[i] = htobe16(reg[i])`, into a buffer of `room` bytes.
unfoldable pub swap_all : List ℕ → Bytes
swap_all [] = []
swap_all (r ∷ rs) = be16 r ++ swap_all rs

unfoldable pub suns_app_swap_registers : (room : ℕ) → List ℕ → Run Bytes
unfolding swap_all
suns_app_swap_registers room regs =
    if ltb room (2 * length regs) then Run.fault else ok (swap_all regs)
