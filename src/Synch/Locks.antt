-- ===== src/Synch/Locks.antt =====
-- The functions of synch.c on locks and condition variables as the source has them: most have no body
-- yet. Both objects are a name, of which nothing depends, so they carry no data.
use cs325os.Base.{ℕ, Bool, true, ◌&&◌, Option, none, some, Result, ok, panic, if◌then◌else◌}

-- `struct lock`, all but the name.
pub record Lock : Type 0 where

-- `struct cv`, all but the name.
pub record Cv : Type 0 where

-- The sizes are those of the object and of the copy of the name.
unfoldable pub lock_create : (ℕ → Bool) → ℕ → ℕ → Option Lock
lock_create room lock_size name_size =
    if room lock_size && room name_size then some (record {}) else none

-- `assert(lock != NULL)`, and the memory is freed.
unfoldable pub lock_destroy : Option Lock → Result (Unit {0})
lock_destroy none = panic
lock_destroy (some lock) = ok tt

unfoldable pub lock_acquire : Lock → Lock
lock_acquire lock = lock

unfoldable pub lock_release : Lock → Lock
lock_release lock = lock

unfoldable pub lock_do_i_hold : Lock → Bool
lock_do_i_hold lock = true

unfoldable pub cv_create : (ℕ → Bool) → ℕ → ℕ → Option Cv
cv_create room cv_size name_size = if room cv_size && room name_size then some (record {}) else none

unfoldable pub cv_destroy : Option Cv → Result (Unit {0})
cv_destroy none = panic
cv_destroy (some cv) = ok tt

unfoldable pub cv_wait : Cv → Lock → Cv × Lock
cv_wait cv lock = (cv, lock)

unfoldable pub cv_signal : Cv → Lock → Cv × Lock
cv_signal cv lock = (cv, lock)

unfoldable pub cv_broadcast : Cv → Lock → Cv × Lock
cv_broadcast cv lock = (cv, lock)
