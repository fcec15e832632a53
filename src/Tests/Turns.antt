-- ===== src/Tests/Turns.antt =====
-- The round-robin scheduler of kern/thread/scheduler.c, and kern/userprog/uio.c, on concrete states.
use cs325os.Base.{
  ℕ, zero, suc, ◌+◌, ◌%◌, ◌≡◌, refl, Bool, false, none, some, [], ◌∷◌, ok, arith, get_elem?, leb,
  ltb, ◌&&◌,
}
use cs325os.Queue.{Queue}
use cs325os.Queue.Model.{Holds}
use cs325os.RoundRobin.Turns.{yields, turns}
use cs325os.Uio
use cs325os.Uio.{Uio, uio_userspace, uio_read}
use cs325os.Uio.Copies.{Outcome, kernel_copies, uiomove-Outcome}
use cs325os.Libc.{Memory}

abbrev never : ℕ → Bool
never n = false

abbrev two_ready : Queue ℕ
two_ready = record {
  size = 4;
  nextwrite = 2;
  nextread = 0;
  words = some 5 ∷ some 6 ∷ none ∷ none ∷ [];
}

two_ready-slots :
    (k x : ℕ)
    → get_elem? (5 ∷ 6 ∷ []) k ≡ some x
    → get_elem? two_ready.words ((0 + k) % 4) ≡ some (some x)
two_ready-slots zero x e = cc
two_ready-slots (suc zero) x e = cc
two_ready-slots (suc (suc k)) x e = cc

two_ready-Holds : Holds two_ready (5 ∷ 6 ∷ [])
two_ready-Holds = record {
  free = omega arith;
  small = omega arith;
  backed = omega arith;
  start = omega arith;
  finish = refl;
  slots = two_ready-slots;
}

turns_example : (q' : Queue ℕ) × (yields never (5 ∷ 6 ∷ []) two_ready 4 ≡ ok (5 ∷ 6 ∷ [], q'))
turns_example = turns never 4 (5 ∷ 6 ∷ []) two_ready-Holds (omega arith)

-- The pages from 0x500000 on fault.
abbrev no_pages : ℕ → Bool
no_pages a = leb 0x500000 a && ltb a 0x80000000

abbrev stripes : Memory
stripes a = a % 7

-- A read of a user program.
abbrev user_buffer : Uio
user_buffer = record {
  base = 0x400000;
  len = 10;
  offset = 20;
  resid = 10;
  segflg = uio_userspace;
  rw_mode = uio_read;
  space = some 3;
}

uiomove-Outcome_example :
    Outcome no_pages 0x80020000 6 user_buffer stripes
      (Uio.uiomove (kernel_copies no_pages) (some 3) 0x80020000 6 user_buffer stripes)
uiomove-Outcome_example =
    uiomove-Outcome no_pages (some 3) 0x80020000 6 user_buffer stripes (omega arith) (omega arith)
      (omega arith) refl refl (omega arith)
