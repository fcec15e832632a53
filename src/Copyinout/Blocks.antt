-- ===== src/Copyinout/Blocks.antt =====
-- kern/lib/copyinout.c: copycheck, copyin and copyout.
use cs325os.Base.{
  ℕ, zero, suc, ◌+◌, ◌-◌, ◌*◌, ◌/◌, ◌%◌, ◌≤◌, ◌<◌, ◌≡◌, refl, sym, ◌∙◌, subst, ◌⊎◌, inl, inr, Bool,
  true, false, ◌&&◌, ◌||◌, ltb, leb, ◌==◌, Bool-cases, if◌then◌else◌, efault, arith,
}
use cs325os.Ram.{word}
use cs325os.Libc.{Memory, within, assign, by_words}
use cs325os.Libc.Moves.{moved, Upwards, assign_step, assign_miss, whole_words}
use cs325os.Copyinout.Defs.{
  copycheck, guarded, guarded_memcpy, copy_checked, copyin, copyout, usertop,
}

-- The user's block is in user space and not empty.
pub copycheck-accepts :
    (userptr len : ℕ) → 0 < len → userptr + len ≤ usertop → copycheck userptr len ≡ (0, len)
unfolding copycheck
copycheck-accepts userptr len pos fits =
    let top : (userptr + len + word - 1) % word ≡ userptr + len - 1 = omega arith in
    let ordered : ltb (userptr + len - 1) userptr ≡ false = ground arith in
    let user : leb usertop userptr ≡ false = ground arith in
    let below : leb usertop (userptr + len - 1) ≡ false = ground arith in
    rw (top, ordered, user, below)

-- It is not.
copycheck_refuses :
    (userptr len : ℕ)
    → userptr < word
    → len < word
    → (len ≡ 0) ⊎ (usertop < userptr + len)
    → (copycheck userptr len ≡ (efault, len))
      ⊎ ((n : ℕ) × (copycheck userptr len ≡ (0, n)) × ((n == len) ≡ false))
unfolding copycheck
copycheck_refuses userptr len pw lw out =
    elim (Bool-cases (ltb ((userptr + len + word - 1) % word) userptr)) [
      | inl wrapped ↦ inl (rw wrapped)
      | inr ordered ↦ elim (Bool-cases (leb usertop userptr)) [
        | inl kernel ↦ inl (rw (ordered, kernel))
        | inr user ↦
            let into : leb usertop ((userptr + len + word - 1) % word) ≡ true = ground arith in
            inr (usertop - userptr, rw (ordered, user, into), ground arith)
      ]
    ]

-- One of the addresses of the two blocks faults.
pub record Bad (bad : ℕ → Bool) (dst src len : ℕ) : Type 0 where
  pub address : ℕ
  pub faults : bad address ≡ true
  pub inside : (within src len address || within dst len address) ≡ true

-- No element of the two blocks faults, where an element is a byte or a word.
pub record Quiet (bad : ℕ → Bool) (dst src len : ℕ) : Type 0 where
  pub size : ℕ
  pub count : ℕ
  pub all : count * size ≡ len
  pub element : (size ≡ 1) ⊎ (size ≡ 4)
  pub quiet : (j : ℕ) → j < count → (bad (src + j * size) || bad (dst + j * size)) ≡ false

-- What becomes of a copy while faults are caught.
pub data Copying (bad : ℕ → Bool) (dst src len : ℕ) (mem : Memory) (result : Bool × Memory)
    : Type 0 where
  whole :
      (mem' : Memory)
      → result ≡ (true, mem')
      → ((x : ℕ) → mem' x ≡ moved dst src len mem x)
      → Quiet bad dst src len
      → Copying bad dst src len mem result
  broken :
      (mem' : Memory)
      → result ≡ (false, mem')
      → ((x : ℕ) → within dst len x ≡ false → mem' x ≡ mem x)
      → Bad bad dst src len
      → Copying bad dst src len mem result

Guarded : (bad : ℕ → Bool) (w n i d s : ℕ) (mem : Memory) → Bool × Memory → Type 0
Guarded bad w n i d s mem result =
    ((mem' : Memory) × (result ≡ (true, mem'))
      × ((x : ℕ) → mem' x ≡ (if within (d + i * w) (n * w) x then mem (s + (x - d)) else mem x))
      × ((j : ℕ) → j < n → (bad (s + (i + j) * w) || bad (d + (i + j) * w)) ≡ false))
    ⊎ ((mem' : Memory) × (result ≡ (false, mem'))
        × ((x : ℕ) → within (d + i * w) (n * w) x ≡ false → mem' x ≡ mem x)
        × Bad bad (d + i * w) (s + i * w) (n * w))

first-Bad : (bad : ℕ → Bool) (d s n : ℕ) → 0 < n → (bad s || bad d) ≡ true → Bad bad d s n
first-Bad bad d s n pos e = elim (Bool-cases (bad s)) [
  | inl src ↦ record { address = s; faults = src; inside = ground arith }
  | inr src ↦
      let dst : bad d ≡ true = rw src at e in
      record { address = d; faults = dst; inside = ground arith }
]

quiet_step :
    (bad : ℕ → Bool) (w n i d s : ℕ)
    → (bad (s + i * w) || bad (d + i * w)) ≡ false
    → ((j : ℕ) → j < n → (bad (s + (i + 1 + j) * w) || bad (d + (i + 1 + j) * w)) ≡ false)
    → (j : ℕ) → j < suc n
    → (bad (s + (i + j) * w) || bad (d + (i + j) * w)) ≡ false
quiet_step bad w n i d s fine rest zero lt = let at : i + 0 ≡ i = omega arith in rw at fine
quiet_step bad w n i d s fine rest (suc j) lt =
    let at : i + suc j ≡ i + 1 + j = omega arith in rw at (rest j (omega arith))

guarded-Guarded :
    (bad : ℕ → Bool) (w n i d s : ℕ) (mem : Memory)
    → 0 < w
    → Upwards d s ((i + n) * w)
    → Guarded bad w n i d s mem (guarded bad w n i d s mem)
unfolding guarded Guarded
guarded-Guarded bad w zero i d s mem pos up = inl (
  mem,
  refl,
  λ x. let none_left : within (d + i * w) (0 * w) x ≡ false = ground arith in rw none_left,
  λ j lt. absurd (omega arith),
)
guarded-Guarded bad w (suc n) i d s mem pos up =
    let step : (i + 1) * w ≡ i * w + w = omega arith in
    let more : suc n * w ≡ w + n * w = omega arith in
    elim (Bool-cases (bad (s + i * w) || bad (d + i * w))) [
      | inl faults ↦ inr (
        mem,
        rw faults,
        λ x out. refl,
        first-Bad bad (d + i * w) (s + i * w) (suc n * w) (omega (arith, more)) faults,
      )
      | inr fine ↦
          let next : i + 1 + n ≡ i + suc n = omega arith in
          let rest =
            guarded-Guarded bad w n (i + 1) d s (assign w (d + i * w) (s + i * w) mem) pos
              (subst (λ k. Upwards d s (k * w)) (sym next) up) in
          elim rest [
            | inl (mem', e, moved_all, quiet) ↦ inl (
              mem',
              rw (fine, e),
              λ x. moved_all x ∙ assign_step w n i d s mem x up,
              quiet_step bad w n i d s fine quiet,
            )
            | inr (mem', e, same, b) ↦ inr (
              mem',
              rw (fine, e),
              λ x out.
                  same x (ground (arith, step, more))
                  ∙ assign_miss w (d + i * w) (s + i * w) x mem (ground (arith, step, more)),
              record {
                address = b.address;
                faults = b.faults;
                inside = ground (arith, step, more, b.inside);
              },
            )
          ]
    ]

from_start :
    (bad : ℕ → Bool) (w n dst src len : ℕ) (mem : Memory) (result : Bool × Memory)
    → n * w ≡ len
    → (w ≡ 1) ⊎ (w ≡ 4)
    → Guarded bad w n 0 dst src mem result
    → Copying bad dst src len mem result
unfolding Guarded
from_start bad w n dst src len mem result e one_or_four g =
    let d0 : dst + 0 * w ≡ dst = omega arith in
    let s0 : src + 0 * w ≡ src = omega arith in
    elim g [
      | inl (mem', r, all, quiet) ↦
          whole mem' r (λ x. all x ∙ rw (d0, e))
            (record {
              size = w;
              count = n;
              all = e;
              element = one_or_four;
              quiet = λ j lt.
                  let at : 0 + j ≡ j = omega arith in
                  subst (λ k. (bad (src + k * w) || bad (dst + k * w)) ≡ false) at (quiet j lt);
            })
      | inr (mem', r, same, b) ↦
          broken mem' r (λ x out. same x (rw (d0, e) out))
            (record { address = b.address; faults = b.faults; inside = rw (d0, s0, e) at b.inside })
    ]

guarded_memcpy-Copying :
    (bad : ℕ → Bool) (dst src len : ℕ) (mem : Memory)
    → Upwards dst src len
    → Copying bad dst src len mem (guarded_memcpy bad dst src len mem)
unfolding guarded_memcpy
guarded_memcpy-Copying bad dst src len mem up =
    let sized : (w n : ℕ)
        → (w ≡ 1) ⊎ (w ≡ 4)
        → n * w ≡ len
        → Copying bad dst src len mem (guarded bad w n 0 dst src mem) =
      λ w n pos e.
        let all : (0 + n) * w ≡ len = (let start : 0 + n ≡ n = omega arith in rw start e) in
        from_start bad w n dst src len mem (guarded bad w n 0 dst src mem) e pos (
          guarded-Guarded bad w n 0 dst src mem (ground arith)
            (subst (Upwards dst src) (sym all) up)) in
    elim (Bool-cases (by_words dst src len)) [
      | inl words ↦ rw words (sized 4 (len / 4) (inr refl) (whole_words dst src len words))
      | inr bytes ↦ rw bytes (sized 1 len (inl refl) (omega arith))
    ]

-- What copyin and copyout answer for the user's block at `userptr`.
pub data Answer (bad : ℕ → Bool) (userptr dst src len : ℕ) (mem : Memory) (result : ℕ × Memory)
    : Type 0 where
  refused :
      (len ≡ 0) ⊎ (usertop < userptr + len)
      → result ≡ (efault, mem)
      → Answer bad userptr dst src len mem result
  copied :
      (mem' : Memory)
      → 0 < len
      → userptr + len ≤ usertop
      → result ≡ (0, mem')
      → ((x : ℕ) → mem' x ≡ moved dst src len mem x)
      → Quiet bad dst src len
      → Answer bad userptr dst src len mem result
  faulted :
      (mem' : Memory)
      → 0 < len
      → userptr + len ≤ usertop
      → result ≡ (efault, mem')
      → ((x : ℕ) → within dst len x ≡ false → mem' x ≡ mem x)
      → Bad bad dst src len
      → Answer bad userptr dst src len mem result

copy_checked-Answer :
    (bad : ℕ → Bool) (userptr dst src len : ℕ) (mem : Memory)
    → userptr < word
    → len < word
    → (userptr + len ≤ usertop → Upwards dst src len)
    → Answer bad userptr dst src len mem (copy_checked bad userptr dst src len mem)
unfolding copy_checked
copy_checked-Answer bad userptr dst src len mem pw lw up =
    elim (Bool-cases (ltb 0 len && leb (userptr + len) usertop)) [
      | inr outside ↦
          let out : (len ≡ 0) ⊎ (usertop < userptr + len) = ground arith in
          elim (copycheck_refuses userptr len pw lw out) [
            | inl e ↦ refused out (rw e)
            | inr (n, e, short) ↦ refused out (rw (e, short))
          ]
      | inl inside ↦
          let pos : 0 < len = ground arith in
          let fits : userptr + len ≤ usertop = ground arith in
          let same : (len == len) ≡ true = ground arith in
          let checked = copycheck-accepts userptr len pos fits in
          elim (guarded_memcpy-Copying bad dst src len mem (up fits)) [
            | whole mem' e all quiet ↦ copied mem' pos fits (rw (checked, same, e)) all quiet
            | broken mem' e kept b ↦ faulted mem' pos fits (rw (checked, same, e)) kept b
          ]
    ]

-- copyin, to a block `dest` in kernel memory, has one of three ends. If the user's block is empty or reaches out of user
-- space it returns EFAULT with the memory as it was. Else, if no element of the two blocks faults, it returns 0 and has
-- copied the block and changed no other memory; and if one faults it returns EFAULT and has changed no memory
-- outside of `dest`.
pub copyin-Answer :
    (bad : ℕ → Bool) (usersrc dest len : ℕ) (mem : Memory)
    → usersrc < word
    → len < word
    → usertop ≤ dest
    → dest + len ≤ word
    → Answer bad usersrc dest usersrc len mem (copyin bad usersrc dest len mem)
unfolding copyin
copyin-Answer bad usersrc dest len mem pw lw kernel high =
    copy_checked-Answer bad usersrc dest usersrc len mem pw lw (λ fits. inr (omega arith))

-- copyout, from a block `src` in kernel memory, has one of three ends. If the user's block is empty or reaches out of user
-- space it returns EFAULT with the memory as it was. Else, if no element of the two blocks faults, it returns 0 and has
-- copied the block and changed no other memory; and if one faults it returns EFAULT and has changed no memory
-- outside of the user's block.
pub copyout-Answer :
    (bad : ℕ → Bool) (src userdest len : ℕ) (mem : Memory)
    → userdest < word
    → len < word
    → usertop ≤ src
    → src + len ≤ word
    → Answer bad userdest userdest src len mem (copyout bad src userdest len mem)
unfolding copyout
copyout-Answer bad src userdest len mem pw lw kernel high =
    copy_checked-Answer bad userdest userdest src len mem pw lw (λ fits. inl (omega arith))
