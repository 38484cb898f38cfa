-- ===== src/Buffer/Steps.antt =====
-- What the calls on the byte buffer do to its contents.
use mathlib.Core.List.{append-nil}
use sunspec.Prelude.{
  ℕ, zero, suc, ◌+◌, ◌-◌, ◌≤◌, true, false, [], ◌∷◌, ◌++◌, ◌≡◌, refl, sym, ap, ◌∙◌, arith, inl, inr,
  ◌==◌, ltb, ==→eq, Bool-cases, length, take, drop, length-take, drop-drop, min, ok,
}
use sunspec.Prelude.Bytes.{Bytes}
use sunspec.Buffer.{Buffer, buffer_space, append_bytes, make_room, buffer_copy_to}
use sunspec.Buffer.Memory.{read_at_lem}
use sunspec.Buffer.Valid.{
  IsValid, contents, buffer_space_lem, length-contents, Kept, make_room-Kept, append_bytes-Appended,
}

pub drop-take : (n k : ℕ) (xs : Bytes) → drop n (take k xs) ≡ take (k - n) (drop n xs)
drop-take zero k xs = ap (λ j. take j xs) (omega arith)
drop-take (suc n) zero xs = let z : 0 - suc n ≡ 0 = omega arith in rw z refl
drop-take (suc n) (suc k) [] = take-nil (suc k - suc n)
  where
    take-nil : (j : ℕ) → ◌≡◌ {A = Bytes} [] (take j [])
    take-nil zero = refl
    take-nil (suc j) = refl
drop-take (suc n) (suc k) (x ∷ xs) =
    let z : suc k - suc n ≡ k - n = omega arith in rw z (drop-take n k xs)

pub take-take : (n k : ℕ) (xs : Bytes) → n ≤ k → take n (take k xs) ≡ take n xs
take-take zero k xs h = refl
take-take (suc n) zero xs h = absurd (omega arith)
take-take (suc n) (suc k) [] h = refl
take-take (suc n) (suc k) (x ∷ xs) h = ap (◌∷◌ x) (take-take n k xs (omega arith))

-- The buffer once `n` bytes are taken from it.
pub record Taken (b : Buffer) (n : ℕ) (c : Buffer) : Type 0 where
  pub valid : IsValid c
  pub contents_is : contents c ≡ drop n (contents b)
  pub size_is : c.size ≡ b.size

pub advance :
    (b : Buffer) (n : ℕ)
    → IsValid b
    → n ≤ b.in_at - b.out_at
    → Taken b n (record b { out_at = b.out_at + n })
advance b n v h =
    let rest : b.in_at - (b.out_at + n) ≡ b.in_at - b.out_at - n = omega arith in
    record {
      valid = record {
        memory_is = v.memory_is;
        small = v.small;
        out_in = omega arith;
        in_size = v.in_size;
      };
      contents_is = rw rest (
          sym (
            drop-take n (b.in_at - b.out_at) (drop b.out_at b.start)
            ∙ ap (take (b.in_at - b.out_at - n)) (drop-drop n b.out_at b.start)));
      size_is = refl;
    }

-- What buffer_copy_to does: the bytes that fit are appended.
pub record CopiedTo (b : Buffer) (src : Bytes) (len : ℕ) : Type 0 where
  pub count : ℕ
  pub after : Buffer
  pub runs : buffer_copy_to b src len ≡ ok (count, after)
  pub count_is : count ≡ min (b.size - length (contents b)) len
  pub valid : IsValid after
  pub size_is : after.size ≡ b.size
  pub contents_is : contents after ≡ contents b ++ take count src

-- The space once there is room: all that is not used, if less than `len`.
room_enough :
    (b c : Buffer) (len : ℕ)
    → IsValid b
    → Kept b c
    → (ltb (b.size - b.in_at) len ≡ true → c.in_at ≡ length (contents b))
    → (ltb (b.size - b.in_at) len ≡ false → c.in_at ≡ b.in_at)
    → min (c.size - c.in_at) len ≡ min (b.size - length (contents b)) len
room_enough b c len v k moved stayed =
    let held : length (contents b) ≡ b.in_at - b.out_at = length-contents b v in
    elim (Bool-cases (ltb (b.size - b.in_at) len)) [
      | inl t ↦ omega (arith, moved t, k.size_is)
      | inr t ↦ ground (arith, stayed t, k.size_is, held, v.in_size, v.out_in)
    ]

copy_to_runs :
    (b c e : Buffer) (src : Bytes) (len space : ℕ)
    → make_room b (λ free. ltb free len) ≡ ok c
    → buffer_space c ≡ space
    → (space == 0) ≡ false
    → min space len ≤ length src
    → append_bytes c (take (min space len) src) ≡ ok e
    → buffer_copy_to b src len ≡ ok (min space len, e)
unfolding buffer_copy_to
copy_to_runs b c e src len space room s z fits append =
    rw (room, s, z, read_at_lem 0 (min space len) src (omega arith), append) refl

pub buffer_copy_to_lem :
    (b : Buffer) (src : Bytes) (len : ℕ) → IsValid b → len ≤ length src → CopiedTo b src len
unfolding buffer_copy_to
buffer_copy_to_lem b src len v fits =
    let (c, room, k, moved, stayed) = make_room-Kept b (λ space. ltb space len) v in
    let space = buffer_space_lem c k.valid in
    let same = room_enough b c len v k moved stayed in
    let n : ℕ = min (c.size - c.in_at) len in
    let given : length (take n src) ≡ n = length-take n src (omega arith) in
    elim (Bool-cases ((c.size - c.in_at) == 0)) [
      | inl z ↦
          let no_space : c.size - c.in_at ≡ 0 = ==→eq (c.size - c.in_at) 0 z in
          record {
            count = 0;
            after = c;
            runs = rw (room, space, z) refl;
            count_is = omega (arith, same, no_space);
            valid = k.valid;
            size_is = k.size_is;
            contents_is = k.contents_is ∙ sym (append-nil (contents b));
          }
      | inr z ↦
          let (e, append, a) =
            append_bytes-Appended c (take n src) k.valid (omega (arith, given, k.valid.in_size)) in
          record {
            count = n;
            after = e;
            runs = copy_to_runs b c e src len (c.size - c.in_at) room space z (omega arith) append;
            count_is = same;
            valid = a.valid;
            size_is = a.size_is ∙ k.size_is;
            contents_is = a.contents_is ∙ ap (λ q. q ++ take n src) k.contents_is;
          }
    ]
