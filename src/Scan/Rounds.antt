-- ===== src/Scan/Rounds.antt =====
-- The rounds of a scan that ends with the result 0.
use mathlib.Core.Option.{some-injective}
use mathlib.Core.Path.{subst}
use sunspec.Prelude.{
  ℕ, zero, suc, ◌+◌, ◌-◌, ◌<◌, true, ◌&&◌, Option, some, none, List, [], ◌∷◌, ◌≡◌, ◌≢◌, refl, sym,
  ap, ◌∙◌, arith, ◌==◌, if◌then◌else◌, ok, Bool-cases, inl, inr,
}
use sunspec.Prelude.Int.{pos, negsuc}
use sunspec.Model.{ModelDid, suns_find_did}
use sunspec.Modbus.{
  Modbus, Reply, registers, illegal_address, failed, slice, IsHonest, try_read,
  suns_app_read_registers, suns_app_swap_registers,
}
use sunspec.Modbus.Chunks.{try_read-slice}
use sunspec.Scan.{
  Tally, count_model, Scanned, done, find_base, by_registers, by_run, by_probe, is_signature,
  meet_block, take_block, scan_models, probe,
}
use sunspec.Scan.Notes.{
  Blocks, end, block, Signed, here, later, by_header-done, by_registers-done, by_run-done,
  SameCount, take_block-SameCount, Noted, Noted-block,
}

by_probe-some :
    {S : Type 0} (s : S) (again : S × Option (List ℕ)) (r : Reply) {rs xs : List ℕ}
    → (by_probe s again r).1 ≡ some rs
    → (again.1 ≡ some rs → rs ≡ xs)
    → ((ys : List ℕ) → r ≡ registers ys → ys ≡ xs)
    → rs ≡ xs
by_probe-some s again (registers rs) e retried now = sym (some-injective rs _ e) ∙ now rs refl
by_probe-some s again illegal_address e retried now = absurd (cc e)
by_probe-some s again failed e retried now = retried e

probed : (o : Option (List ℕ)) → is_signature o ≡ true → (rs : List ℕ) × (o ≡ some rs)
probed none h = absurd (cc h)
probed (some rs) h = (rs, refl)

two_registers :
    (mem : ℕ → ℕ) (at : ℕ) {did len : ℕ} {rest : List ℕ}
    → did ∷ len ∷ rest ≡ slice mem at 2
    → (mem at ≡ did) × (mem (at + 1) ≡ len)
unfolding slice
two_registers mem at e = (cc e, cc e)

module _ (dids : List ModelDid) (mem : ℕ → ℕ) (m : Modbus) (honest : IsHonest m mem)
    (retries max_read : ℕ) where
  open m use {State, read_registers}

  probe-slice :
      (tries : ℕ) (s : State) (addr : ℕ) {rs : List ℕ}
      → (probe m dids retries max_read tries s addr).1 ≡ some rs
      → rs ≡ slice mem addr 2
  unfolding probe
  probe-slice zero s addr e = absurd (cc e)
  probe-slice (suc tries) s addr e =
      let r = read_registers s addr 2 in
      by_probe-some r.0 (probe m dids retries max_read tries r.0 addr) r.1 e
        (λ f. probe-slice tries r.0 addr f) (λ ys f. honest.answers s addr 2 ys f)

  pub find_base-Signed :
      (rs : List ℕ) (s : State) {b : ℕ}
      → (find_base m dids retries max_read rs s).1 ≡ some b
      → Signed mem b rs
  unfolding find_base
  find_base-Signed [] s e = absurd (cc e)
  find_base-Signed (r ∷ rs) s {b} e =
      let p = probe m dids retries max_read retries s (r - 1) in
      elim (Bool-cases (is_signature p.1)) [
        | inl sign ↦
            let (regs, answered) = probed p.1 sign in
            let same : r ≡ b = some-injective r b (rw sign at e) in
            let stands = probe-slice retries s (r - 1) answered in
            rw (sym same) (here (rw (answered, stands) at sign))
        | inr other ↦ later (find_base-Signed rs p.0 (rw other at e))
      ]

  -- One round that does not stop the scan with an error.
  data Round (fuel : ℕ) (s' : State) (base offset : ℕ) (t t' : Tally) : Type 0 where
    ended :
        mem (base + offset - 1) ≡ 0xFFFF
        → mem (base + offset - 1 + 1) ≡ 0
        → t'.found_common_model_first ≡ t.found_common_model_first
        → Round fuel s' base offset t t'
    went_on :
        (did len : ℕ) (met taken : Tally) (s : State)
        → mem (base + offset - 1) ≡ did
        → mem (base + offset - 1 + 1) ≡ len
        → did ≢ 0
        → meet_block did len (count_model t) (suns_find_did dids did) ≡ ok met
        → SameCount met taken
        → scan_models m dids retries max_read fuel s base (offset + (len + 2)) taken
          ≡ done s' t' (pos 0)
        → Round fuel s' base offset t t'

  -- What the scan does behind a header.
  abbrev behind_header : (fuel : ℕ) → State → (base offset did len : ℕ) → Tally → Scanned State
  behind_header fuel s base offset did len t =
      let at = base + offset - 1 in
      by_run (meet_block did len (count_model t) (suns_find_did dids did)) λ met.
        by_registers met (suns_app_read_registers m retries max_read 1024 s at (len + 2)) λ s₁ regs.
          by_run (suns_app_swap_registers 2048 regs) λ buf.
            by_run (take_block dids buf met (suns_find_did dids did))
              λ taken. scan_models m dids retries max_read fuel s₁ base (offset + (len + 2)) taken

  behind_header-Round :
      (fuel : ℕ) (s s' : State) (base offset did len : ℕ) (t t' : Tally)
      → mem (base + offset - 1) ≡ did
      → mem (base + offset - 1 + 1) ≡ len
      → did ≢ 0
      → behind_header fuel s base offset did len t ≡ done s' t' (pos 0)
      → Round fuel s' base offset t t'
  behind_header-Round fuel s s' base offset did len t t' d l n h =
      let (met, meets, h₁) =
        by_run-done (meet_block did len (count_model t) (suns_find_did dids did)) h in
      let (s₁, regs, h₂) =
        by_registers-done met
          (suns_app_read_registers m retries max_read 1024 s (base + offset - 1) (len + 2)) h₁ in
      let (buf, _, h₃) = by_run-done (suns_app_swap_registers 2048 regs) h₂ in
      let (taken, takes, h₄) = by_run-done (take_block dids buf met (suns_find_did dids did)) h₃ in
      went_on did len met taken s₁ d l n meets
        (take_block-SameCount dids buf met taken (suns_find_did dids did) takes) h₄

  header-Round :
      (fuel : ℕ) (s s' : State) (base offset did len : ℕ) (t t' : Tally)
      → mem (base + offset - 1) ≡ did
      → mem (base + offset - 1 + 1) ≡ len
      → (if did == 0xFFFF && len == 0x0000
          then done s (record (count_model t) { found_end_marker = true }) (pos 0)
          else if did == 0
          then done s (count_model t) (negsuc 0)
          else behind_header fuel s base offset did len t)
        ≡ done s' t' (pos 0)
      → Round fuel s' base offset t t'
  header-Round fuel s s' base offset did len t t' d l h =
      elim (Bool-cases (did == 0xFFFF && len == 0x0000)) [
        | inl z ↦
            let marked : record (count_model t) { found_end_marker = true } ≡ t' = cc (rw z at h) in
            ended (d ∙ ground (arith, z)) (l ∙ ground (arith, z))
              (ap (λ (u : Tally). u.found_common_model_first) (sym marked))
        | inr z ↦ elim (Bool-cases (did == 0)) [
          | inl n ↦ absurd (cc (rw (z, n) at h))
          | inr n ↦
              behind_header-Round fuel s s' base offset did len t t' d l (ground (arith, n))
                (rw (z, n) at h)
        ]
      ]

  scan_models-Round :
      (fuel : ℕ) (s s' : State) (base offset : ℕ) (t t' : Tally)
      → scan_models m dids retries max_read (suc fuel) s base offset t ≡ done s' t' (pos 0)
      → Round fuel s' base offset t t'
  unfolding scan_models
  scan_models-Round fuel s s' base offset t t' h =
      let at = base + offset - 1 in
      let r = try_read m retries s at 2 in
      let (did, len, rest, answered, header) = by_header-done r.0 t r.1 h in
      let (d, l) = two_registers mem at (try_read-slice m mem honest retries s at 2 answered) in
      header-Round fuel r.0 s' base offset did len t t' d l header

  pub scan_models-Noted :
      (fuel : ℕ) (s s' : State) (base offset : ℕ) (t t' : Tally)
      → 0 < offset
      → scan_models m dids retries max_read fuel s base offset t ≡ done s' t' (pos 0)
      → (blocks : List (ℕ × ℕ)) × Blocks mem (base + offset - 1) blocks × Noted dids blocks t t'
  unfolding scan_models
  scan_models-Noted zero s s' base offset t t' o h = absurd (cc h)
  scan_models-Noted (suc fuel) s s' base offset t t' o h =
      elim (scan_models-Round fuel s s' base offset t t' h) [
        | ended d l same ↦ (
          [],
          end d l,
          record {
            counted = λ some_models. same;
            uncounted = λ no_models unnoted found. absurd (cc (sym unnoted ∙ sym same ∙ found));
          },
        )
        | went_on did len met taken s₁ d l n meets same on ↦
            let (blocks, chain, noted) =
              scan_models-Noted fuel s₁ s' base (offset + (len + 2)) taken t' (omega arith) on in
            let next : base + (offset + (len + 2)) - 1 ≡ base + offset - 1 + (len + 2) =
              omega arith in
            (
              (did, len) ∷ blocks,
              block d l n (subst (λ a. Blocks mem a blocks) next chain),
              Noted-block dids did len blocks t met taken t' meets same noted,
            )
      ]
