-- ===== src/File/Faults.antt =====
-- kern/userprog/file.c: system calls that stop the kernel, that never succeed, or whose result the
-- user is not told.
use cs325os.Base.{
  ℕ, ◌≡◌, ◌⊎◌, inl, inr, true, none, some, List, Option-cases, if◌then◌else◌, ok, panic, fault,
  get_elem?, ebadf, ◌==◌,
}
use cs325os.Base.Int.{ℤ, pos, negsuc}
use cs325os.Filetable
use cs325os.Filetable.{Pointer, Filetable}
use cs325os.Filetable.Table.{Handles, get-handle_at}
use cs325os.Filetable.Remove.{remove-remove_at}
use cs325os.File.Defs.{Vfs, Process, sys_read, sys_write, sys_close, sys_dup2, overwrite, sys_lseek}

module _ (vfs : Vfs) (p : Process) {ps : List Pointer} (h : Handles p.ft.handles ps) where
  -- A negative descriptor passes the test of `filetable_get` for the end of the table, so to read or
  -- write with a buffer, to duplicate and to seek with one stops the kernel.
  pub negative_panics :
      (n nbytes newfd offset whence : ℕ)
      → (sys_read vfs p (negsuc n) true nbytes ≡ panic)
        × (sys_write vfs p (negsuc n) true nbytes ≡ panic)
        × (sys_dup2 p (negsuc n) (pos newfd) ≡ panic)
        × (sys_lseek vfs p (negsuc n) offset whence ≡ panic)
  unfolding sys_read sys_write sys_dup2 sys_lseek
  negative_panics n nbytes newfd offset whence =
      let g = get-handle_at p.ft (negsuc n) h in (rw g, rw g, rw g, rw g)

  remove_fails :
      (i : ℤ)
      → (Filetable.remove p.ft i ≡ panic) ⊎ (Filetable.remove p.ft i ≡ ok (negsuc 0, p.ft, none))
  remove_fails (negsuc i) = inl (remove-remove_at p.ft ps (negsuc i) h)
  remove_fails (pos i) = elim (Option-cases (get_elem? ps i)) [
    | inl out ↦ inl (rw (remove-remove_at p.ft ps (pos i) h, out))
    | inr (none, e) ↦ inr (rw (remove-remove_at p.ft ps (pos i) h, e))
    | inr (some d, e) ↦ inl (rw (remove-remove_at p.ft ps (pos i) h, e))
  ]

  -- `sys_close` closes nothing: whatever the descriptor, the kernel panics or the call returns EBADF
  -- and changes nothing.
  pub sys_close_fails : (fd : ℤ) → (sys_close p fd ≡ panic) ⊎ (sys_close p fd ≡ ok (ebadf, p))
  unfolding sys_close
  sys_close_fails (pos n) = elim (remove_fails (pos 0)) [ inl e ↦ inl (rw e) | inr e ↦ inr (rw e) ]
  sys_close_fails (negsuc n) = elim (remove_fails (if n == 0 then pos 1 else pos 0)) [
    | inl e ↦ inl (rw e)
    | inr e ↦ inr (rw e)
  ]

  -- With the descriptor 0 open, to close any descriptor stops the kernel.
  pub sys_close_panics : (d n : ℕ) → get_elem? ps 0 ≡ some (some d) → sys_close p (pos n) ≡ panic
  unfolding sys_close
  sys_close_panics d n e = rw (remove-remove_at p.ft ps (pos 0) h, e)

  overwrite_fails : (k : ℕ) → (overwrite p (pos k) ≡ panic) ⊎ (overwrite p (pos k) ≡ fault)
  unfolding overwrite
  overwrite_fails k = elim (Option-cases (get_elem? ps k)) [
    | inl out ↦ inr (rw (get-handle_at p.ft (pos k) h, out))
    | inr (none, e) ↦ inr (rw (get-handle_at p.ft (pos k) h, e))
    | inr (some d, e) ↦ elim (sys_close_fails (pos k)) [
      | inl c ↦ inl (rw (get-handle_at p.ft (pos k) h, e) (rw c))
      | inr c ↦ inr (rw (get-handle_at p.ft (pos k) h, e) (rw c))
    ]
  ]

  -- `sys_dup2` duplicates nothing: it returns EBADF and changes nothing, or the kernel panics, or it
  -- writes through a pointer that was never set.
  pub sys_dup2_fails :
      (oldfd newfd : ℤ)
      → (sys_dup2 p oldfd newfd ≡ ok (pos ebadf, p))
        ⊎ ((sys_dup2 p oldfd newfd ≡ panic) ⊎ (sys_dup2 p oldfd newfd ≡ fault))
  unfolding sys_dup2
  sys_dup2_fails (negsuc n) newfd = inr (inl (rw (get-handle_at p.ft (negsuc n) h)))
  sys_dup2_fails (pos n) (negsuc k) = elim (Option-cases (get_elem? ps n)) [
    | inl out ↦ inl (rw (get-handle_at p.ft (pos n) h, out))
    | inr (none, e) ↦ inl (rw (get-handle_at p.ft (pos n) h, e))
    | inr (some d, e) ↦ inl (rw (get-handle_at p.ft (pos n) h, e))
  ]
  sys_dup2_fails (pos n) (pos k) = elim (Option-cases (get_elem? ps n)) [
    | inl out ↦ inl (rw (get-handle_at p.ft (pos n) h, out))
    | inr (none, e) ↦ inl (rw (get-handle_at p.ft (pos n) h, e))
    | inr (some d, e) ↦ elim (overwrite_fails k) [
      | inl o ↦ inr (inl (rw (get-handle_at p.ft (pos n) h, e) o))
      | inr o ↦ inr (inr (rw (get-handle_at p.ft (pos n) h, e) o))
    ]
  ]
