-- ===== src/Model/Offsets.antt =====
-- `suns_model_fill_offsets` lays the points of a block out one behind the other.
use sunspec.Model.Sizes.{width_of, registers-width_of}
use sunspec.Prelude.{
  ℕ, ◌+◌, ◌-◌, ◌%◌, ◌^◌, ◌≤◌, ◌<◌, true, false, List, [], ◌∷◌, ◌≡◌, refl, ap, ◌∙◌, inl, inr, arith,
  if◌then◌else◌, Bool-cases,
}
use sunspec.Prelude.Int.{ℤ, pos, negsuc, pos_part, ltb_ℤ}
use sunspec.Model.{Dp, DpBlock, SunsModel, fill_dps, fill_blocks, suns_model_fill_offsets}

-- The registers that a point takes.
abbrev pub registers_of : Dp → ℕ
registers_of dp = width_of dp.type_pair.type dp.type_pair.len

-- A point with no offset of its own.
abbrev pub IsUnset : Dp → Type 0
IsUnset dp = ltb_ℤ (pos 0) dp.offset ≡ false

-- Where a point goes if the points before it end at `n`.
abbrev pub start : ℕ → Dp → ℕ
start n dp = if ltb_ℤ (pos 0) dp.offset then pos_part dp.offset else n

-- No given offset lies inside the points before it.
abbrev pub Fits : ℕ → List Dp → Type 0
Fits n [] = Unit {0}
Fits n (dp ∷ dps) = (n ≤ start n dp) × Fits (start n dp + registers_of dp) dps

-- The points stand in order from `n`, none inside another, and the last one ends at `end`.
pub data Spaced (end : ℕ) : ℕ → List Dp → Type 0 where
  stop : {n : ℕ} → n ≡ end → Spaced end n []
  place :
      {n : ℕ} {dp : Dp} {dps : List Dp} (k : ℕ)
      → dp.offset ≡ pos k
      → n ≤ k
      → Spaced end (k + registers_of dp) dps
      → Spaced end n (dp ∷ dps)

given : (z : ℤ) → ltb_ℤ (pos 0) z ≡ true → z ≡ pos (pos_part z)
given (pos n) h = refl
given (negsuc n) h = absurd (ground arith)

pub fill_dps-Spaced :
    (dps : List Dp) (n : ℕ) → Fits n dps → Spaced (fill_dps 0 n dps).1 n (fill_dps 0 n dps).0
unfolding fill_dps
fill_dps-Spaced [] n h = stop refl
fill_dps-Spaced (dp ∷ dps) n h = elim (Bool-cases (ltb_ℤ (pos 0) dp.offset)) [
  | inl g ↦
      let z : pos_part dp.offset - 0 ≡ pos_part dp.offset = omega arith in
      let later = rw g at h in
      rw (g, registers-width_of dp.type_pair, z)
        (place (pos_part dp.offset) (given dp.offset g) later.0
          (fill_dps-Spaced dps (pos_part dp.offset + registers_of dp) later.1))
  | inr g ↦
      let later = rw g at h in
      rw (g, registers-width_of dp.type_pair)
        (place n (ap pos (omega arith)) later.0 (fill_dps-Spaced dps (n + registers_of dp) later.1))
]

unfoldable pub total : List Dp → ℕ
total [] = 0
total (dp ∷ dps) = registers_of dp + total dps

abbrev pub AllUnset : List Dp → Type 0
AllUnset [] = Unit {0}
AllUnset (dp ∷ dps) = IsUnset dp × AllUnset dps

AllUnset-Fits : (dps : List Dp) (n : ℕ) → AllUnset dps → Fits n dps
AllUnset-Fits [] n u = tt
AllUnset-Fits (dp ∷ dps) n u = rw u.0 (omega arith, AllUnset-Fits dps (n + registers_of dp) u.1)

fill_dps-total : (dps : List Dp) (n : ℕ) → AllUnset dps → (fill_dps 0 n dps).1 ≡ n + total dps
unfolding fill_dps total
fill_dps-total [] n u = omega arith
fill_dps-total (dp ∷ dps) n u =
    rw (u.0, registers-width_of dp.type_pair)
      (fill_dps-total dps (n + registers_of dp) u.1 ∙ omega arith)

-- Registers of all blocks, and of those that do not repeat.
unfoldable pub total_blocks : List DpBlock → ℕ
total_blocks [] = 0
total_blocks (block ∷ blocks) = total block.dp_list + total_blocks blocks

unfoldable pub total_fixed : List DpBlock → ℕ
total_fixed [] = 0
total_fixed (block ∷ blocks) =
    (if block.repeating then 0 else total block.dp_list) + total_fixed blocks

abbrev pub BlocksUnset : List DpBlock → Type 0
BlocksUnset [] = Unit {0}
BlocksUnset (block ∷ blocks) = AllUnset block.dp_list × BlocksUnset blocks

-- Each block starts at 0 and is as long as the registers of its points.
abbrev pub BlocksLaid : List DpBlock → List DpBlock → Type 0
BlocksLaid [] [] = Unit {0}
BlocksLaid (b ∷ bs) (c ∷ cs) =
    (c.repeating ≡ b.repeating)
    × (c.len ≡ total b.dp_list)
    × Spaced c.len 0 c.dp_list
    × BlocksLaid bs cs
BlocksLaid _ _ = ⊥

fill_blocks_lem :
    (blocks : List DpBlock) (base_len len : ℕ)
    → BlocksUnset blocks
    → base_len < 2 ^ 16
    → len < 2 ^ 16
    → BlocksLaid blocks (fill_blocks blocks base_len len).0
      × ((fill_blocks blocks base_len len).1 ≡ (base_len + total_fixed blocks) % 2 ^ 16)
      × ((fill_blocks blocks base_len len).2 ≡ (len + total_blocks blocks) % 2 ^ 16)
unfolding fill_blocks total_blocks total_fixed
fill_blocks_lem [] base_len len u p q = (tt, omega arith, omega arith)
fill_blocks_lem (block ∷ blocks) base_len len u p q =
    let end = fill_dps-total block.dp_list 0 u.0 in
    let laid = fill_dps-Spaced block.dp_list 0 (AllUnset-Fits block.dp_list 0 u.0) in
    let n = (fill_dps 0 0 block.dp_list).1 in
    let (bs, fixed, all) =
      fill_blocks_lem blocks (if block.repeating then base_len else (base_len + n) % 2 ^ 16)
        ((len + n) % 2 ^ 16) u.1 (ground arith) (omega arith) in
    ((refl, end ∙ omega arith, laid, bs), ground arith, all ∙ omega arith)

-- For a model whose points have no offsets of their own, every block's points are laid out in order
-- from the offset 0 on, with no register shared: one register for a type of 16 bits, two for one of
-- 32 and an IPv4 address, four for one of 64 and an IPv6 address, half of its bytes, rounded up, for
-- a string, and none for the two types that are no types. The block's length is the registers of its
-- points, and the lengths of the model grow, modulo 2^16, by those of all and of the fixed blocks.
pub suns_model_fill_offsets-BlocksLaid :
    (m : SunsModel)
    → BlocksUnset m.dp_blocks
    → m.base_len < 2 ^ 16
    → m.len < 2 ^ 16
    → BlocksLaid m.dp_blocks (suns_model_fill_offsets m).dp_blocks
      × ((suns_model_fill_offsets m).base_len ≡ (m.base_len + total_fixed m.dp_blocks) % 2 ^ 16)
      × ((suns_model_fill_offsets m).len ≡ (m.len + total_blocks m.dp_blocks) % 2 ^ 16)
unfolding suns_model_fill_offsets
suns_model_fill_offsets-BlocksLaid m u p q = fill_blocks_lem m.dp_blocks m.base_len m.len u p q
