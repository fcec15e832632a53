-- ===== src/Tests/Tables.antt =====
-- kern/userprog/filetable.c and kern/userprog/file.c on a concrete table.
use cs325os.Base.{
  ℕ, ◌+◌, ◌-◌, ◌==◌, ◌≡◌, refl, ◌⊎◌, Bool, true, false, none, some, List, [], ◌∷◌, ok, panic, arith,
  ebadf, if◌then◌else◌,
}
use cs325os.Base.Int.{pos, negsuc}
use cs325os.Array.{Array}
use cs325os.Filetable
use cs325os.Filetable.{Pointer, Filetable}
use cs325os.Filetable.Table.{Handles, Lists}
use cs325os.Filetable.Add.{add-Lists}
use cs325os.Filetable.Copy.{copy-Lists}
use cs325os.Filetable.Remove.{remove-remove_at}
use cs325os.File.{Vfs, Process, sys_open, sys_close, word}
use cs325os.File.Access.{Opened, sys_open-Opened}
use cs325os.File.Faults.{sys_close_fails, sys_close_panics}

abbrev always : ℕ → Bool
always n = true

abbrev handles_of_two : Array Pointer
handles_of_two = record { num = 2; max = 3; v = some (some (some 40) ∷ some (some 41) ∷ none ∷ []) }

-- Two open handles.
abbrev two : Filetable
two = record { handles = handles_of_two; next = 2 }

abbrev two_handles : List Pointer
two_handles = some 40 ∷ some 41 ∷ []

two-Handles : Handles two.handles two_handles
two-Handles = record { valid = omega arith; items_eq = refl }

two-Lists : Lists two two_handles
two-Lists = record { handles = two-Handles; lowest = refl }

abbrev disk : Vfs
disk = record {
  open_file = λ path oflag. (0, path + 100);
  read_at = λ vn offset nbytes. (0, 0);
  write_at = λ vn offset nbytes. (0, 0);
  try_seek = λ vn offset. 0;
  blocksize = λ vn. 512;
  blocks = λ vn. 8;
}

abbrev process : Process
process = record { ft = two; desc = λ q. record { vn = q; offset = 0; mode = 0 } }

add-Lists_example :
    ((ft' : Filetable) × (Filetable.add always two (some 42) ≡ ok (pos 2, ft'))
      × Lists ft' (some 40 ∷ some 41 ∷ some 42 ∷ []))
    ⊎ ((n : ℕ) × (always n ≡ false) × (Filetable.add always two (some 42) ≡ ok (negsuc 0, two)))
add-Lists_example = add-Lists always two 42 two-Lists (omega arith)

copy-Lists_example :
    (ft' : Filetable) × (Filetable.copy always two ≡ ok (some ft')) × Lists ft' two_handles
copy-Lists_example = copy-Lists always (λ n. refl) two (40 ∷ 41 ∷ []) two-Lists (omega arith)

remove-remove_at_example : Filetable.remove two (pos 1) ≡ panic
remove-remove_at_example = remove-remove_at two two_handles (pos 1) two-Handles

sys_open-Opened_example :
    ((p' : Process) × (sys_open disk always (some 42) process 7 1 0 ≡ ok ((0, 2), p'))
      × Opened process two_handles 42 107 0 p')
    ⊎ ((n : ℕ) × (p' : Process) × (always n ≡ false)
        × (sys_open disk always (some 42) process 7 1 0 ≡ ok ((word - 1, word - 1), p'))
        × (p'.ft ≡ two))
sys_open-Opened_example =
    sys_open-Opened disk always process 42 7 1 0 107 two-Lists (omega arith) refl

-- The process after an open for writing (flags 1) with the mode 0.
abbrev opened : Process
opened = record {
  ft = record {
    handles = record {
      num = 3;
      max = 3;
      v = some (some (some 40) ∷ some (some 41) ∷ some (some 42) ∷ []);
    };
    next = 3;
  };
  desc = λ q.
      if 42 == q
      then record { vn = 107; offset = 0; mode = 0 }
      else record { vn = q; offset = 0; mode = 0 };
}

open_two : sys_open disk always (some 42) process 7 1 0 ≡ ok ((0, 2), opened)
unfolding sys_open Filetable.add cs325os.Array.add cs325os.Array.setsize cs325os.Array.resize
open_two = refl

sys_close_fails_example :
    (sys_close process (pos 1) ≡ panic) ⊎ (sys_close process (pos 1) ≡ ok (ebadf, process))
sys_close_fails_example = sys_close_fails disk process two-Handles (pos 1)

sys_close_panics_example : sys_close process (pos 1) ≡ panic
sys_close_panics_example = sys_close_panics disk process two-Handles 40 1 refl
