-- ===== src/Modbus/Swap.antt =====
-- The byte order of a buffer of registers.
use mathlib.Core.Option.{some-injective}
use sunspec.Prelude.{
  ℕ, zero, suc, ◌*◌, ◌%◌, ltb, false, ◌^◌, ◌≤◌, List, [], ◌∷◌, ◌≡◌, refl, arith, length, ok, drop,
  get_elem?, some,
}
use sunspec.Prelude.Bytes.{Bytes, get16, get16-be16}
use sunspec.Modbus.{swap_all, suns_app_swap_registers}

pub length-swap_all : (regs : List ℕ) → length (swap_all regs) ≡ 2 * length regs
unfolding swap_all
length-swap_all [] = refl
length-swap_all (r ∷ rs) = omega (arith, length-swap_all rs)

pub swap_all-get16 :
    (regs : List ℕ) (i r : ℕ)
    → get_elem? regs i ≡ some r
    → get16 (drop (2 * i) (swap_all regs)) ≡ ok (r % 2 ^ 16)
unfolding swap_all
swap_all-get16 [] i r e = cc
swap_all-get16 (x ∷ rs) zero r e =
    let f : x ≡ r = some-injective _ _ e in rw f (get16-be16 r (swap_all rs))
swap_all-get16 (x ∷ rs) (suc i) r e =
    let d : 2 * suc i ≡ suc (suc (2 * i)) = omega arith in rw d (swap_all-get16 rs i r e)

-- A buffer with two bytes for each register is filled inside its bounds, and the big-endian word
-- at byte `2 * i` of it is register `i` (its 16 bits).
pub suns_app_swap_registers-get16 :
    (room : ℕ) (regs : List ℕ)
    → 2 * length regs ≤ room
    → (buf : Bytes) × (suns_app_swap_registers room regs ≡ ok buf)
      × (length buf ≡ 2 * length regs)
      × ((i r : ℕ) → get_elem? regs i ≡ some r → get16 (drop (2 * i) buf) ≡ ok (r % 2 ^ 16))
unfolding suns_app_swap_registers
suns_app_swap_registers-get16 room regs h =
    let t : ltb room (2 * length regs) ≡ false = ground arith in
    (swap_all regs, rw t refl, length-swap_all regs, swap_all-get16 regs)
