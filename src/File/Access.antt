-- ===== src/File/Access.antt =====
-- kern/userprog/file.c: opening a file, and which descriptors may be read and written.
use cs325os.Base.{
  ℕ, ◌+◌, ◌-◌, ◌%◌, ◌≤◌, ◌<◌, ◌≡◌, ◌≢◌, refl, subst, ◌⊎◌, inl, inr, Bool, true, false, none, some,
  List, [], ◌∷◌, ◌^◌, ok, arith, length, get_elem?, ebadf, ◌==◌,
}
use cs325os.Base.Int.{pos}
use cs325os.Filetable.{Pointer}
use cs325os.Filetable.Table.{first_free, Lists, get-handle_at}
use cs325os.Filetable.Add.{fill, add-Lists}
use cs325os.File.Defs.{Vfs, Process, word, accmode, put_desc, sys_open, sys_write, o_rdonly}

first_free-le : (ps : List Pointer) → first_free ps ≤ length ps
first_free-le [] = omega arith
first_free-le (none ∷ ps) = omega arith
first_free-le (some p ∷ ps) = omega (arith, first_free-le ps)

get_elem?-fill : (ps : List Pointer) (p : ℕ) → get_elem? (fill ps p) (first_free ps) ≡ some (some p)
get_elem?-fill [] p = refl
get_elem?-fill (none ∷ ps) p = refl
get_elem?-fill (some q ∷ ps) p = get_elem?-fill ps p

-- What a successful `sys_open` has made of the process.
pub record Opened (p : Process) (ps : List Pointer) (fd vn mode : ℕ) (p' : Process) : Type 0 where
  pub table : Lists p'.ft (fill ps fd)
  pub made : p'.desc fd ≡ record { vn = vn; offset = 0; mode = mode }
  pub others : (q : ℕ) → fd ≢ q → p'.desc q ≡ p.desc q

module _ (vfs : Vfs) (room : ℕ → Bool) where
  -- If the file system opens the file, `kmalloc` gives the new `filedesc` and the table has fewer
  -- than 2 ^ 29 - 1 handles, `sys_open` gives the lowest free descriptor, with the offset 0 and the
  -- `mode` of the call, or returns -1 and leaves the table as it was if memory is short.
  pub sys_open-Opened :
      (p : Process) {ps : List Pointer} (fd path oflag mode vn : ℕ)
      → Lists p.ft ps
      → length ps + 1 < 2 ^ 29
      → vfs.open_file path oflag ≡ (0, vn)
      → ((p' : Process) × (sys_open vfs room (some fd) p path oflag mode
            ≡ ok ((0, first_free ps), p'))
          × Opened p ps fd vn mode p')
        ⊎ ((n : ℕ) × (p' : Process) × (room n ≡ false)
            × (sys_open vfs room (some fd) p path oflag mode ≡ ok ((word - 1, word - 1), p'))
            × (p'.ft ≡ p.ft))
  unfolding sys_open
  sys_open-Opened p {ps} fd path oflag mode vn l small e =
      let desc = put_desc p.desc fd (record { vn = vn; offset = 0; mode = mode }) in
      let fits : first_free ps % 2 ^ 32 ≡ first_free ps = omega (arith, first_free-le ps) in
      elim (add-Lists room p.ft fd l small) [
        | inl (ft', ea, l') ↦ inl (
          record { ft = ft'; desc = desc },
          rw (e, ea, fits),
          record { table = l'; made = ground arith; others = λ q ne. ground arith },
        )
        | inr (n, out, ea) ↦ inr (n, record { ft = p.ft; desc = desc }, out, rw (e, ea), refl)
      ]

  -- If the file system returns an error, so does `sys_open`, and nothing changes.
  pub sys_open_error :
      (p : Process) (memory : Pointer) (path oflag mode error vn : ℕ)
      → vfs.open_file path oflag ≡ (error, vn)
      → error ≢ 0
      → sys_open vfs room memory p path oflag mode ≡ ok ((error, error), p)
  unfolding sys_open
  sys_open_error p memory path oflag mode error vn e ne =
      let t : (error == 0) ≡ false = ground arith in rw (e, t)

  -- In a table of fewer than 2 ^ 29 - 1 handles, a descriptor opened with a `mode`, the permission
  -- bits of a new file, whose access bits read O_RDONLY cannot be written, whatever the flags of
  -- the call are: O_WRONLY and O_RDWR too.
  pub open_flags_ignored :
      (p p' : Process) {ps : List Pointer} (fd path oflag mode vn i nbytes : ℕ)
      → Lists p.ft ps
      → length ps + 1 < 2 ^ 29
      → vfs.open_file path oflag ≡ (0, vn)
      → sys_open vfs room (some fd) p path oflag mode ≡ ok ((0, i), p')
      → accmode mode ≡ o_rdonly
      → sys_write vfs p' (pos i) true nbytes ≡ ok ((ebadf, 0), p')
  unfolding sys_write
  open_flags_ignored p p' {ps} fd path oflag mode vn i nbytes l small e opened m =
      elim (sys_open-Opened p fd path oflag mode vn l small e) [
        | inl (p1, e1, o) ↦
            let ei : first_free ps ≡ i = cc in
            let ep : p1 ≡ p' = cc in
            let o' = subst (λ x. Opened p ps fd vn mode x) ep o in
            let g = get-handle_at p'.ft (pos i) o'.table.handles in
            let at =
              subst (λ k. get_elem? (fill ps fd) k ≡ some (some fd)) ei (get_elem?-fill ps fd) in
            rw (g, at, o'.made, m)
        | inr (n, p1, out, e1, same) ↦ absurd (ground (arith, e1, opened))
      ]
