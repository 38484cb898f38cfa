-- ===== src/Scan/Walk.antt =====
-- The scan of a device that is laid out as the specification says.
use sunspec.Prelude.{
  ℕ, zero, suc, ◌+◌, ◌-◌, ◌*◌, ◌^◌, ◌≤◌, ◌<◌, true, false, Option, some, none, List, [], ◌∷◌, ◌≡◌,
  ◌≢◌, refl, sym, ◌∙◌, arith, length, ok, ◌==◌, ne→==, ltb,
}
use sunspec.Prelude.Int.{pos}
use sunspec.Model.{ModelDid, suns_find_did}
use sunspec.Modbus.{
  Modbus, slice, swap_all, suns_app_swap_registers, IsReliable, got, try_read,
  suns_app_read_registers, max_request,
}
use sunspec.Modbus.Chunks.{length-slice, try_read-reliable, suns_app_read_registers-slice}
use sunspec.Scan.{
  Tally, count_model, meet_block, note_common, take_block, done, scan_models, find_base, probe,
}
use sunspec.Scan.Layout.{
  Layout, end, block, FirstSignature, here, later, Attached, nil, skip, take, with_dataset,
  ModelIsReadable, block-decoded,
}

swapped :
    (mem : ℕ → ℕ) (at n : ℕ)
    → n ≤ 1024
    → suns_app_swap_registers 2048 (slice mem at n) ≡ ok (swap_all (slice mem at n))
unfolding suns_app_swap_registers
swapped mem at n h =
    let t : ltb 2048 (2 * length (slice mem at n)) ≡ false =
      ground (arith, length-slice mem at n) in
    rw t refl

module _ (dids : List ModelDid) (mem : ℕ → ℕ) (words : (a : ℕ) → mem a < 2 ^ 16)
    (readable : (v : ℕ) (k : ModelDid)
      → suns_find_did dids v ≡ some k
      → ModelIsReadable k.model) where
  -- The tallies after the header and the registers of one block, from which the rest goes on.
  block_taken :
      (at did len : ℕ) (t : Tally) (found : Option ModelDid)
      → mem at ≡ did
      → mem (at + 1) ≡ len
      → suns_find_did dids did ≡ found
      → (met taken : Tally) × (meet_block did len (count_model t) found ≡ ok met)
        × (take_block dids (swap_all (slice mem at (len + 2))) met found ≡ ok taken)
        × ((blocks : List (ℕ × ℕ)) (last : Tally)
            → Attached dids mem (at + (len + 2)) blocks taken last
            → Attached dids mem at ((did, len) ∷ blocks) t last)
  unfolding meet_block take_block
  block_taken at did len t none e f g =
      (count_model t, count_model t, refl, refl, λ blocks last a. skip g a)
  block_taken at did len t (some known) e f g =
      let (dataset, notices, decoded, same) =
        block-decoded dids mem at known words e f g (readable did known g) in
      let (b, tested) = (readable did known g).length_test len in
      (
        note_common did (count_model t),
        with_dataset did dataset t,
        rw tested refl,
        rw decoded refl,
        λ blocks last a. take known dataset notices g decoded same a,
      )

  module _ (m : Modbus) (reliable : IsReliable m mem) (retries max_read base : ℕ)
      (some_tries : 0 < retries) (some_max : 0 < max_read) (few_max : max_read ≤ max_request) where
    open m use {State}

    header :
        (s : State) (at : ℕ) {a b : ℕ}
        → mem at ≡ a
        → mem (at + 1) ≡ b
        → (try_read m retries s at 2).1 ≡ some (a ∷ b ∷ [])
    unfolding slice
    header s at e f =
        rw (sym e, sym f)
          (try_read-reliable m mem reliable retries s at 2 some_tries (omega arith) (omega arith))

    one_round :
        (fuel : ℕ) (s s'' : State) (at offset : ℕ) {did len : ℕ} (t : Tally) {met taken : Tally}
        → at ≡ base + offset - 1
        → mem at ≡ did
        → mem (at + 1) ≡ len
        → did ≢ 0
        → did < 0xFFFF
        → len + 2 ≤ 1024
        → suns_app_read_registers m retries max_read 1024 (try_read m retries s at 2).0 at (len + 2)
          ≡ got s'' (slice mem at (len + 2))
        → meet_block did len (count_model t) (suns_find_did dids did) ≡ ok met
        → take_block dids (swap_all (slice mem at (len + 2))) met (suns_find_did dids did)
          ≡ ok taken
        → scan_models m dids retries max_read (suc fuel) s base offset t
          ≡ scan_models m dids retries max_read fuel s'' base (offset + (len + 2)) taken
    unfolding scan_models
    one_round fuel s s'' at offset {did} {len} t e d l n b r g meets takes =
        let not_end : (did == 0xFFFF) ≡ false = ground arith in
        rw
          (
            sym e,
            header s at d l,
            not_end,
            ne→== did 0 n,
            meets,
            g,
            swapped mem at (len + 2) r,
            takes,
          )
          refl

    pub scan_models-Attached :
        (fuel : ℕ) (s : State) (at offset : ℕ) (t : Tally) (blocks : List (ℕ × ℕ))
        → Layout mem at blocks
        → at ≡ base + offset - 1
        → 0 < offset
        → length blocks < fuel
        → (s' : State) × (last : Tally) × (scan_models m dids retries max_read fuel s base offset t
            ≡ done s' (record (count_model last) { found_end_marker = true }) (pos 0))
          × Attached dids mem at blocks t last
    unfolding scan_models
    scan_models-Attached zero s at offset t blocks layout e o h = absurd (omega arith)
    scan_models-Attached (suc fuel) s at offset t [] (end high low) e o h =
        ((try_read m retries s at 2).0, t, rw (sym e, header s at high low) refl, nil)
    scan_models-Attached (suc fuel) s at offset t ((did, len) ∷ blocks) (block d l n b r rest) e o
          h =
        let s' = (try_read m retries s at 2).0 in
        let (s'', g) =
          suns_app_read_registers-slice m mem reliable retries max_read 1024 s' at (len + 2)
            some_tries some_max few_max r in
        let (met, taken, meets, takes, back) =
          block_taken at did len t (suns_find_did dids did) d l refl in
        let next : at + (len + 2) ≡ base + (offset + (len + 2)) - 1 = omega arith in
        let (s3, last, scanned, a) =
          scan_models-Attached fuel s'' (at + (len + 2)) (offset + (len + 2)) taken blocks rest next
            (omega arith) (omega arith) in
        (
          s3,
          last,
          one_round fuel s s'' at offset t e d l n b r g meets takes ∙ scanned,
          back blocks last a,
        )

    probe-slice :
        (tries : ℕ) (s : State) (addr : ℕ)
        → 0 < tries
        → (probe m dids retries max_read tries s addr).1 ≡ some (slice mem addr 2)
    unfolding probe
    probe-slice zero s addr h = absurd (omega arith)
    probe-slice (suc tries) s addr h =
        rw (reliable.replies s addr 2 (omega arith) (omega arith)) refl

    pub find_base-first :
        (rs : List ℕ) (s : State) {b : ℕ}
        → FirstSignature mem rs b
        → (s' : State) × (find_base m dids retries max_read rs s ≡ (s', some b))
    unfolding find_base
    find_base-first _ s (here {r} {rs} e) = (
      (probe m dids retries max_read retries s (r - 1)).0,
      rw (probe-slice retries s (r - 1) some_tries, e) refl,
    )
    find_base-first _ s (later {r} {rs = rs} e f) =
        let (s', g) = find_base-first rs (probe m dids retries max_read retries s (r - 1)).0 f in
        (s', rw (probe-slice retries s (r - 1) some_tries, e) g)
