-- ===== src/Libc/Moves.antt =====
-- lib/libc/memmove.c and bzero.c: the loops by words and by bytes do what they are to do.
use cs325os.Base.{
  ◌⊎◌, ℕ, zero, suc, ◌+◌, ◌-◌, ◌*◌, ◌/◌, ◌%◌, ◌≤◌, ◌<◌, ◌≡◌, ap, ◌∙◌, inl, inr, true, false, ◌&&◌,
  ltb, ◌==◌, Bool-cases, if◌then◌else◌, arith,
}
use cs325os.Libc.Defs.{
  Memory, within, assign, copy_up, copy_down, by_words, memcpy, memmove, store, fill, bzero,
}

-- The `len` bytes at `src` stand at `dst`, and the other memory is as before.
abbrev pub moved : ℕ → ℕ → ℕ → Memory → Memory
moved dst src len mem x = if within dst len x then mem (src + (x - dst)) else mem x

pub assign_hit :
    (w d s x : ℕ) (mem : Memory) → within d w x ≡ true → assign w d s mem x ≡ mem (s + (x - d))
unfolding assign
assign_hit w d s x mem e = rw e

pub assign_miss : (w d s x : ℕ) (mem : Memory) → within d w x ≡ false → assign w d s mem x ≡ mem x
unfolding assign
assign_miss w d s x mem e = rw e

-- Copying upwards does not write what is still to be read.
abbrev pub Upwards : ℕ → ℕ → ℕ → Type 0
Upwards d s len = (d ≤ s) ⊎ (s + len ≤ d)

-- One element is copied, and then the `n` elements behind it.
pub assign_step :
    (w n i d s : ℕ) (mem : Memory) (x : ℕ)
    → Upwards d s ((i + suc n) * w)
    → (if within (d + (i + 1) * w) (n * w) x
        then assign w (d + i * w) (s + i * w) mem (s + (x - d))
        else assign w (d + i * w) (s + i * w) mem x)
      ≡ (if within (d + i * w) (suc n * w) x then mem (s + (x - d)) else mem x)
assign_step w n i d s mem x up =
    let step : (i + 1) * w ≡ i * w + w = omega arith in
    let more : suc n * w ≡ w + n * w = omega arith in
    let all : (i + suc n) * w ≡ i * w + w + n * w = omega arith in
    elim (Bool-cases (within (d + (i + 1) * w) (n * w) x)) [
      | inl later ↦
          let whole : within (d + i * w) (suc n * w) x ≡ true = ground (arith, step, more) in
          let untouched : within (d + i * w) w (s + (x - d)) ≡ false =
            ground (arith, step, more, all) in
          rw (later, whole) (assign_miss w (d + i * w) (s + i * w) (s + (x - d)) mem untouched)
      | inr not_later ↦ elim (Bool-cases (within (d + i * w) w x)) [
        | inl now ↦
            let whole : within (d + i * w) (suc n * w) x ≡ true = ground (arith, step, more) in
            let at : s + i * w + (x - (d + i * w)) ≡ s + (x - d) = ground arith in
            rw (not_later, whole) (assign_hit w (d + i * w) (s + i * w) x mem now ∙ ap mem at)
        | inr not_now ↦
            let whole : within (d + i * w) (suc n * w) x ≡ false = ground (arith, step, more) in
            rw (not_later, whole) (assign_miss w (d + i * w) (s + i * w) x mem not_now)
      ]
    ]

copy_up_lem :
    (w n i d s : ℕ) (mem : Memory) (x : ℕ)
    → d ≤ s
    → copy_up w n i d s mem x ≡ (if within (d + i * w) (n * w) x then mem (s + (x - d)) else mem x)
unfolding copy_up
copy_up_lem w zero i d s mem x le =
    let none_left : within (d + i * w) (0 * w) x ≡ false = ground arith in rw none_left
copy_up_lem w (suc n) i d s mem x le =
    copy_up_lem w n (i + 1) d s (assign w (d + i * w) (s + i * w) mem) x le
    ∙ assign_step w n i d s mem x (inl le)

copy_down_lem :
    (w i d s : ℕ) (mem : Memory) (x : ℕ)
    → 0 < w
    → s ≤ d
    → copy_down w i d s mem x ≡ (if within d (i * w) x then mem (s + (x - d)) else mem x)
unfolding copy_down
copy_down_lem w zero d s mem x pos le =
    let none_left : within d (0 * w) x ≡ false = ground arith in rw none_left
copy_down_lem w (suc i) d s mem x pos le =
    let mem1 = assign w (d + i * w) (s + i * w) mem in
    let rest = copy_down_lem w i d s mem1 x pos le in
    let more : suc i * w ≡ i * w + w = omega arith in
    elim (Bool-cases (within d (i * w) x)) [
      | inl later ↦
          let whole : within d (suc i * w) x ≡ true = ground (arith, more) in
          let untouched : within (d + i * w) w (s + (x - d)) ≡ false = ground arith in
          rest
          ∙ rw (later, whole) (assign_miss w (d + i * w) (s + i * w) (s + (x - d)) mem untouched)
      | inr not_later ↦ elim (Bool-cases (within (d + i * w) w x)) [
        | inl now ↦
            let whole : within d (suc i * w) x ≡ true = ground (arith, more) in
            let at : s + i * w + (x - (d + i * w)) ≡ s + (x - d) = ground arith in
            rest
            ∙ rw (not_later, whole) (assign_hit w (d + i * w) (s + i * w) x mem now ∙ ap mem at)
        | inr not_now ↦
            let whole : within d (suc i * w) x ≡ false = ground (arith, more) in
            rest ∙ rw (not_later, whole) (assign_miss w (d + i * w) (s + i * w) x mem not_now)
      ]
    ]

pub whole_words : (d s len : ℕ) → by_words d s len ≡ true → len / 4 * 4 ≡ len
whole_words d s len e =
    let even : (len % 4 == 0) ≡ true = ground arith in
    let zero_left : len % 4 ≡ 0 = ground arith in omega arith

-- memcpy, whose two blocks do not overlap or whose destination is the lower one.
pub memcpy-moved :
    (dst src len : ℕ) (mem : Memory) (x : ℕ)
    → dst ≤ src
    → memcpy dst src len mem x ≡ moved dst src len mem x
unfolding memcpy
memcpy-moved dst src len mem x le =
    let same : dst + 0 * 4 ≡ dst = omega arith in
    let same' : dst + 0 * 1 ≡ dst = omega arith in
    let ones : len * 1 ≡ len = omega arith in
    elim (Bool-cases (by_words dst src len)) [
      | inl words ↦
          rw words
            (copy_up_lem 4 (len / 4) 0 dst src mem x le ∙ rw (same, whole_words dst src len words))
      | inr bytes ↦ rw bytes (copy_up_lem 1 len 0 dst src mem x le ∙ rw (same', ones))
    ]

-- However the two blocks overlap, after memmove the destination holds what the source held before, and the other
-- memory is as before.
pub memmove-moved :
    (dst src len : ℕ) (mem : Memory) (x : ℕ) → memmove dst src len mem x ≡ moved dst src len mem x
unfolding memmove
memmove-moved dst src len mem x =
    let ones : len * 1 ≡ len = omega arith in
    elim (Bool-cases (ltb dst src)) [
      | inl below ↦ rw below (memcpy-moved dst src len mem x (ground arith))
      | inr above ↦
          let le : src ≤ dst = ground arith in
          elim (Bool-cases (by_words dst src len)) [
            | inl words ↦
                rw (above, words)
                  (copy_down_lem 4 (len / 4) dst src mem x (omega arith) le
                    ∙ rw (whole_words dst src len words))
            | inr bytes ↦
                rw (above, bytes) (copy_down_lem 1 len dst src mem x (omega arith) le ∙ rw ones)
          ]
    ]

fill_lem :
    (w n i d ch : ℕ) (mem : Memory) (x : ℕ)
    → fill w n i d ch mem x ≡ (if within (d + i * w) (n * w) x then ch else mem x)
unfolding fill store
fill_lem w zero i d ch mem x =
    let none_left : within (d + i * w) (0 * w) x ≡ false = ground arith in rw none_left
fill_lem w (suc n) i d ch mem x =
    let rest = fill_lem w n (i + 1) d ch (store w (d + i * w) ch mem) x in
    let step : (i + 1) * w ≡ i * w + w = omega arith in
    let more : suc n * w ≡ w + n * w = omega arith in
    elim (Bool-cases (within (d + (i + 1) * w) (n * w) x)) [
      | inl later ↦
          let whole : within (d + i * w) (suc n * w) x ≡ true = ground (arith, step, more) in
          rest ∙ rw (later, whole)
      | inr not_later ↦ elim (Bool-cases (within (d + i * w) w x)) [
        | inl now ↦
            let whole : within (d + i * w) (suc n * w) x ≡ true = ground (arith, step, more) in
            rest ∙ rw (not_later, whole, now)
        | inr not_now ↦
            let whole : within (d + i * w) (suc n * w) x ≡ false = ground (arith, step, more) in
            rest ∙ rw (not_later, whole, not_now)
      ]
    ]

-- bzero clears its block and nothing else.
pub bzero-within :
    (block len : ℕ) (mem : Memory) (x : ℕ)
    → bzero block len mem x ≡ (if within block len x then 0 else mem x)
unfolding bzero
bzero-within block len mem x =
    let same : block + 0 * 4 ≡ block = omega arith in
    let same' : block + 0 * 1 ≡ block = omega arith in
    let ones : len * 1 ≡ len = omega arith in
    elim (Bool-cases ((block % 4 == 0) && (len % 4 == 0))) [
      | inl words ↦
          let even : (len % 4 == 0) ≡ true = ground arith in
          let zero_left : len % 4 ≡ 0 = ground arith in
          let whole : len / 4 * 4 ≡ len = omega arith in
          rw words (fill_lem 4 (len / 4) 0 block 0 mem x ∙ rw (same, whole))
      | inr bytes ↦ rw bytes (fill_lem 1 len 0 block 0 mem x ∙ rw (same', ones))
    ]
