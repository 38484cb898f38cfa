-- ===== src/Decode/Data.antt =====
-- `suns_decode_data`: a buffer that holds the registers it announces is decoded with no fault and
-- with no overrun.
use sunspec.Prelude.{
  ℕ, ◌+◌, ◌-◌, ◌*◌, ◌≤◌, Bool, true, false, some, none, List, [], ◌∷◌, ◌++◌, ◌≡◌, ◌≢◌, refl, arith,
  inl, inr, leb, le→leb, Bool-cases, length, length-drop, drop, Run, ok, ◌==◌, if◌then◌else◌,
}
use sunspec.Prelude.Bytes.{Bytes, get16}
use sunspec.Model.{Dp, DpBlock, SunsModel, ModelDid, suns_find_did, suns_model_last_dp}
use sunspec.Decode.{
  Decoding, Notice, unknown_did, join, len_multiple, bytes_left, decode_blocks, check_length,
  suns_resolve_scale_factors, suns_decode_data,
}
use sunspec.Decode.Rounds.{Rounds, suns_decode_dp_block-Rounds}

-- A repeating block has a length.
abbrev pub BlocksHaveLen : List DpBlock → Type 0
BlocksHaveLen [] = Unit {0}
BlocksHaveLen (b ∷ bs) = (b.repeating ≡ true → b.len ≢ 0) × BlocksHaveLen bs

-- Each block in turn is read, in rounds, from the bytes that the blocks before it left.
pub data BlocksRead (buf : Bytes) (did_len : ℕ) : ℕ → List DpBlock → Decoding → Type 0 where
  end :
      {offset : ℕ} {d : Decoding}
      → d ≡ record { stopped = false; offset = offset; values = []; notices = [] }
      → BlocksRead buf did_len offset [] d
  block :
      {offset : ℕ} {b : DpBlock} {bs : List DpBlock} (n : ℕ) {first rest : Decoding}
      → len_multiple b (did_len * 2 - offset) ≡ ok n
      → Rounds (drop (offset + 4) buf) (did_len * 2 - offset) b.dp_list 1 n 0 first
      → BlocksRead buf did_len (offset + first.offset) bs rest
      → BlocksRead buf did_len offset (b ∷ bs) (join first rest)

bytes_left-sub :
    (did_len offset : ℕ) → offset ≤ did_len * 2 → bytes_left did_len offset ≡ did_len * 2 - offset
unfolding bytes_left
bytes_left-sub did_len offset h = rw (le→leb _ _ h)

either_ok :
    (b : Bool) (xs ys : List Notice)
    → (zs : List Notice) × (if◌then◌else◌ {A = Run (List Notice)} b (ok xs) (ok ys) ≡ ok zs)
either_ok true xs ys = (xs, refl)
either_ok false xs ys = (ys, refl)

module _ (buf : Bytes) (did_len : ℕ) (room : did_len * 2 + 4 ≤ length buf) where
  decode_blocks-BlocksRead :
      (bs : List DpBlock) (offset : ℕ)
      → BlocksHaveLen bs
      → offset ≤ did_len * 2
      → (d : Decoding) × (decode_blocks buf did_len bs offset ≡ ok d)
        × BlocksRead buf did_len offset bs d
        × (d.stopped ≡ false)
        × (d.offset ≤ did_len * 2)
  unfolding decode_blocks
  decode_blocks-BlocksRead [] offset h le = (_, refl, end refl, refl, le)
  decode_blocks-BlocksRead (b ∷ bs) offset h le =
      let left = did_len * 2 - offset in
      let (n, first, e, f, r, used) =
        suns_decode_dp_block-Rounds b (drop (offset + 4) buf) left
          (omega (arith, length-drop (offset + 4) buf)) h.0 in
      let (rest, g, q, s, t) =
        decode_blocks-BlocksRead bs (offset + first.offset) h.1 (omega arith) in
      let inside : leb (did_len * 2 + 4) (offset + first.offset) ≡ false = ground arith in
      (join first rest, rw (bytes_left-sub did_len offset le, f, inside, g), block n e r q, s, t)

  check_length-ok :
      (m : SunsModel) {dp : Dp}
      → suns_model_last_dp m ≡ ok dp
      → (notices : List Notice) × (check_length m did_len ≡ ok notices)
  unfolding check_length
  check_length-ok m {dp} h = elim (Bool-cases (m.base_len == m.len)) [
    | inr r ↦ rw r (either_ok _ [] _)
    | inl r ↦ rw (r, h) (either_ok (m.len == did_len) [] _)
  ]

-- A buffer that starts with a known number and a length, and holds the registers of that length,
-- is decoded with no fault into a dataset of that model: its blocks are read in order from their
-- own bytes behind the header, at most the announced bytes are used, so the decoder's overrun exit
-- is never taken, and the values then get their scale factors. It needs a model whose repeating
-- blocks have a length and that has a last point.
pub suns_decode_data-BlocksRead :
    (dids : List ModelDid) (did : ModelDid) (buf : Bytes) {value did_len : ℕ} {dp : Dp}
    → get16 buf ≡ ok value
    → get16 (drop 2 buf) ≡ ok did_len
    → suns_find_did dids value ≡ some did
    → did_len * 2 + 4 ≤ length buf
    → BlocksHaveLen did.model.dp_blocks
    → suns_model_last_dp did.model ≡ ok dp
    → (about : List Notice) × (d : Decoding) × (suns_decode_data dids buf
        ≡ ok (
          some (record { did = did; values = (suns_resolve_scale_factors d.values).0; index = 0 }),
          about ++ d.notices,
        ))
      × BlocksRead buf did_len 0 did.model.dp_blocks d
      × (d.offset ≤ did_len * 2)
      × (check_length did.model did_len ≡ ok about)
unfolding suns_decode_data
suns_decode_data-BlocksRead dids did buf {did_len} e f known room lens last =
    let (about, c) = check_length-ok buf did_len room did.model last in
    let (d, g, r, s, le) =
      decode_blocks-BlocksRead buf did_len room did.model.dp_blocks 0 lens (omega arith) in
    (about, d, rw (e, f, known, c, g, s), r, le, c)

-- An unknown number gives no dataset and one message.
pub suns_decode_data_unknown :
    (dids : List ModelDid) (buf : Bytes) {value did_len : ℕ}
    → get16 buf ≡ ok value
    → get16 (drop 2 buf) ≡ ok did_len
    → suns_find_did dids value ≡ none
    → suns_decode_data dids buf ≡ ok (none, unknown_did value ∷ [])
unfolding suns_decode_data
suns_decode_data_unknown dids buf e f unknown = rw (e, f, unknown)
