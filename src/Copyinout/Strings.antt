-- ===== src/Copyinout/Strings.antt =====
-- kern/lib/copyinout.c: copyinstr and copyoutstr.
use cs325os.Base.{
  ℕ, ◌+◌, ◌-◌, ◌≤◌, ◌<◌, ◌≡◌, ◌≢◌, Bool, true, false, ◌||◌, Option, none, some, ltb, if◌then◌else◌,
  efault,
}
use cs325os.Libc.{Memory}
use cs325os.Libc.Moves.{moved}
use cs325os.Copyinout.Defs.{enametoolong, usertop}

-- `n` bytes at `src` before any terminator.
abbrev pub NoZero : ℕ → ℕ → Memory → Type 0
NoZero src n mem = (j : ℕ) → j < n → mem (src + j) ≢ 0

-- None of the first `n` bytes faults, on either side.
abbrev pub Quiet : (ℕ → Bool) → ℕ → ℕ → ℕ → Type 0
Quiet bad dest src n = (j : ℕ) → j < n → (bad (src + j) || bad (dest + j)) ≡ false

-- What copystr answers: the string with its terminator is copied; or it does not end before `stoplen`, which comes
-- first; or it does not end in `maxlen` bytes; or an access faults. In each case the bytes up to there are copied.
pub data Answer (bad : ℕ → Bool) (dest src maxlen stoplen : ℕ) (mem : Memory)
    (result : ℕ × Option ℕ × Memory) : Type 0 where
  found :
      (k : ℕ) (mem' : Memory)
      → k < maxlen
      → k < stoplen
      → mem (src + k) ≡ 0
      → NoZero src k mem
      → Quiet bad dest src (k + 1)
      → result ≡ (0, some (k + 1), mem')
      → ((x : ℕ) → mem' x ≡ moved dest src (k + 1) mem x)
      → Answer bad dest src maxlen stoplen mem result
  overran :
      (mem' : Memory)
      → stoplen < maxlen
      → NoZero src stoplen mem
      → Quiet bad dest src stoplen
      → result ≡ (efault, none, mem')
      → ((x : ℕ) → mem' x ≡ moved dest src stoplen mem x)
      → Answer bad dest src maxlen stoplen mem result
  overlong :
      (mem' : Memory)
      → maxlen ≤ stoplen
      → NoZero src maxlen mem
      → Quiet bad dest src maxlen
      → result ≡ (enametoolong, none, mem')
      → ((x : ℕ) → mem' x ≡ moved dest src maxlen mem x)
      → Answer bad dest src maxlen stoplen mem result
  faulted :
      (n : ℕ) (mem' : Memory)
      → n < maxlen
      → n < stoplen
      → (bad (src + n) || bad (dest + n)) ≡ true
      → NoZero src n mem
      → Quiet bad dest src n
      → result ≡ (efault, none, mem')
      → ((x : ℕ) → mem' x ≡ moved dest src n mem x)
      → Answer bad dest src maxlen stoplen mem result

-- The bytes from `usersrc` on that are in user space, of `len`.
abbrev user_part : ℕ → ℕ → ℕ
user_part userptr len = if ltb usertop (userptr + len) then usertop - userptr else len
