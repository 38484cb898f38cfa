-- ===== src/Decode/Rounds.antt =====
-- `suns_decode_dp_block`: a repeating block is read as often as it fits in the data.
use native.Mathlib.Nat.{div-add-mod, mod-lt}
use sunspec.Prelude.{
  ◌%◌, ℕ, zero, suc, ◌+◌, ◌*◌, ◌/◌, ◌≤◌, ◌<◌, Bool, true, false, List, [], ◌∷◌, ◌≡◌, ◌≢◌, refl, inl,
  inr, arith, Bool-cases, ne→==, length, length-append, ok,
}
use sunspec.Prelude.Bytes.{Bytes}
use sunspec.Wire.{suns_type_pair_size}
use sunspec.Model.{Dp, DpBlock}
use sunspec.Decode.{Decoding, decode_rounds, len_multiple, suns_decode_dp_block, join}
use sunspec.Decode.Block.{Pass, end, read, short, decode_dps-Pass}

-- The bytes of a list of points.
unfoldable pub bytes : List Dp → ℕ
bytes [] = 0
bytes (dp ∷ dps) = suns_type_pair_size dp.type_pair + bytes dps

Pass-offset :
    {index : ℕ} {buf : Bytes} {len offset : ℕ} {dps : List Dp} {d : Decoding}
    → Pass index buf len offset dps d
    → offset ≤ len
    → d.offset ≤ len
Pass-offset (end e) h = ground arith
Pass-offset (read le r p) h = Pass-offset p le
Pass-offset (short lt) h = h

-- What a pass leaves when all its points fit.
pub record Complete (offset : ℕ) (dps : List Dp) (d : Decoding) : Type 0 where
  pub not_stopped : d.stopped ≡ false
  pub offset_is : d.offset ≡ offset + bytes dps
  pub count_is : length d.values ≡ length dps
  pub silent : d.notices ≡ []

Pass-Complete :
    {index : ℕ} {buf : Bytes} {len offset : ℕ} {dps : List Dp} {d : Decoding}
    → Pass index buf len offset dps d
    → offset + bytes dps ≤ len
    → Complete offset dps d
unfolding bytes
Pass-Complete (end e) h = ground arith
Pass-Complete (read le r p) h =
    let c = Pass-Complete p (omega arith) in
    record {
      not_stopped = c.not_stopped;
      offset_is = omega (arith, c.offset_is);
      count_is = omega (arith, c.count_is);
      silent = c.silent;
    }
Pass-Complete (short lt) h = absurd (omega arith)

-- The rounds of a block from `offset`, numbered from `index`: each is a pass, and the first that
-- does not reach the end of the points is the last.
pub data Rounds (buf : Bytes) (len : ℕ) (dps : List Dp)
    : (index rounds offset : ℕ) → Decoding → Type 0 where
  none :
      {index offset : ℕ} {d : Decoding}
      → d ≡ record { stopped = false; offset = offset; values = []; notices = [] }
      → Rounds buf len dps index zero offset d
  last :
      {index n offset : ℕ} {d : Decoding}
      → Pass index buf len offset dps d
      → d.stopped ≡ true
      → Rounds buf len dps index (suc n) offset d
  next :
      {index n offset : ℕ} {d rest : Decoding}
      → Pass index buf len offset dps d
      → d.stopped ≡ false
      → Rounds buf len dps (index + 1) n d.offset rest
      → Rounds buf len dps index (suc n) offset (join d rest)

module _ (repeating : Bool) (buf : Bytes) (len : ℕ) (inside : len ≤ length buf)
    (dps : List Dp) where
  decode_rounds-Rounds :
      (n index offset : ℕ)
      → (d : Decoding) × (decode_rounds n repeating index buf len dps offset ≡ ok d)
        × Rounds buf len dps index n offset d
  unfolding decode_rounds
  decode_rounds-Rounds zero index offset = (_, refl, none refl)
  decode_rounds-Rounds (suc n) index offset =
      let (d, e, p) = decode_dps-Pass repeating index buf len inside dps offset in
      elim (Bool-cases d.stopped) [
        | inl s ↦ (d, rw (e, s), last p s)
        | inr s ↦
            let (rest, f, r) = decode_rounds-Rounds n (index + 1) d.offset in
            (join d rest, rw (e, s, f), next p s r)
      ]

Rounds-offset :
    {buf : Bytes} {len : ℕ} {dps : List Dp} {index n offset : ℕ} {d : Decoding}
    → Rounds buf len dps index n offset d
    → offset ≤ len
    → d.offset ≤ len
Rounds-offset (none e) h = ground arith
Rounds-offset (last p s) h = Pass-offset p h
Rounds-offset (next p s r) h = Rounds-offset r (Pass-offset p h)

multiple :
    (block : DpBlock) (len : ℕ)
    → (block.repeating ≡ true → block.len ≢ 0)
    → (n : ℕ) × (len_multiple block len ≡ ok n)
unfolding len_multiple
multiple block len h = elim (Bool-cases block.repeating) [
  | inl r ↦ (len / block.len / 2, rw (r, ne→== block.len 0 (h r)))
  | inr r ↦ (1, rw r)
]

-- A block is decoded with no fault into the rounds that its length allows, and never uses more
-- than the `len` bytes that it is given, if a block that repeats has a length.
pub suns_decode_dp_block-Rounds :
    (block : DpBlock) (buf : Bytes) (len : ℕ)
    → len ≤ length buf
    → (block.repeating ≡ true → block.len ≢ 0)
    → (n : ℕ) × (d : Decoding) × (len_multiple block len ≡ ok n)
      × (suns_decode_dp_block block buf len ≡ ok d)
      × Rounds buf len block.dp_list 1 n 0 d
      × (d.offset ≤ len)
unfolding suns_decode_dp_block
suns_decode_dp_block-Rounds block buf len inside has_len =
    let (n, e) = multiple block len has_len in
    let (d, f, r) = decode_rounds-Rounds block.repeating buf len inside block.dp_list n 1 0 in
    (n, d, e, rw (e, f), r, Rounds-offset r (omega arith))

Rounds-Complete :
    {buf : Bytes} {len : ℕ} {dps : List Dp} {index n offset : ℕ} {d : Decoding}
    → Rounds buf len dps index n offset d
    → offset + n * bytes dps ≤ len
    → (d.offset ≡ offset + n * bytes dps)
      × (length d.values ≡ n * length dps)
      × (d.stopped ≡ false)
      × (d.notices ≡ [])
Rounds-Complete (none e) h = ground arith
Rounds-Complete (last p s) h = absurd (cc (Pass-Complete p (grind arith)).not_stopped)
Rounds-Complete (next {d} {rest} p s r) h =
    let c = Pass-Complete p (grind arith) in
    let (off, count, stop, quiet) = Rounds-Complete r (grind (arith, c.offset_is)) in
    (
      grind (arith, c.offset_is, off),
      grind (arith, c.count_is, count, length-append d.values rest.values),
      stop,
      rw (c.silent, quiet),
    )

repeat_count :
    (block : DpBlock) (len : ℕ) {n : ℕ}
    → block.repeating ≡ true
    → block.len ≢ 0
    → len_multiple block len ≡ ok n
    → n ≡ len / block.len / 2
unfolding len_multiple
repeat_count block len r h e =
    let value : len_multiple block len ≡ ok (len / block.len / 2) = rw (r, ne→== block.len 0 h) in
    cc (e, value)

mul_mono : (x m b : ℕ) → x ≤ m → x * b ≤ m * b
mul_mono x m b h = grind arith

rounds_fit : (len b : ℕ) → len / b / 2 * (2 * b) ≤ len
rounds_fit len b =
    let pairs : len / b / 2 * 2 ≤ len / b = omega arith in
    let whole = div-add-mod len b in
    omega (arith, mul_mono (len / b / 2 * 2) (len / b) b pairs, whole)

rounds_rest : (len b : ℕ) → b ≢ 0 → len < len / b / 2 * (2 * b) + 2 * b
rounds_rest len b h =
    let pairs : len / b ≤ len / b / 2 * 2 + 1 = omega arith in
    let small : len % b < b = mod-lt len (omega arith) in
    omega (arith, mul_mono (len / b) (len / b / 2 * 2 + 1) b pairs, div-add-mod len b, small)

-- A repeating block whose points take exactly the registers of its length is read in full rounds
-- only, with no message: as many rounds as fit in the data, each with every point, and fewer bytes
-- are left than one more round would take.
pub suns_decode_dp_block_repeating :
    (block : DpBlock) (buf : Bytes) (len : ℕ)
    → block.repeating ≡ true
    → block.len ≢ 0
    → bytes block.dp_list ≡ 2 * block.len
    → len ≤ length buf
    → (n : ℕ) × (d : Decoding) × (suns_decode_dp_block block buf len ≡ ok d)
      × Rounds buf len block.dp_list 1 n 0 d
      × (d.offset ≡ n * bytes block.dp_list)
      × (length d.values ≡ n * length block.dp_list)
      × (d.notices ≡ [])
      × (d.offset ≤ len)
      × (len < d.offset + bytes block.dp_list)
suns_decode_dp_block_repeating block buf len rep pos_len full inside =
    let (n, d, e, f, r, le) = suns_decode_dp_block-Rounds block buf len inside (λ _. pos_len) in
    let count : n ≡ len / block.len / 2 = repeat_count block len rep pos_len e in
    let fits : n * bytes block.dp_list ≤ len = rw (full, count) (rounds_fit len block.len) in
    let (off, values, stop, quiet) = Rounds-Complete r (omega (arith, fits)) in
    let used : d.offset ≡ n * bytes block.dp_list = omega (arith, off) in
    (
      n,
      d,
      f,
      r,
      used,
      values,
      quiet,
      le,
      rw (used, full, count) (rounds_rest len block.len pos_len),
    )
