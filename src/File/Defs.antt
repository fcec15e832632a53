-- ===== src/File/Defs.antt =====
-- The functions of file.c. What they call in the file system is an argument: `vfs` stands for
-- `vfs_open` and for the operations of a vnode. Turning interrupts off and on is left out.
use cs325os.Base.{
  ℕ, ◌+◌, ◌-◌, ◌%◌, ◌^◌, ◌||◌, not, Bool, true, false, Option, none, some, ◌==◌, if◌then◌else◌,
  Result, ok, fault, ◌>>=◌, efault, ebadf, einval,
}
use cs325os.Base.Int.{ℤ, pos, negsuc}
use cs325os.Filetable
use cs325os.Filetable.{Pointer, Filetable}

-- `filedesc`; `vn` names a vnode, `offset` and `mode` are 32-bit words.
pub record Filedesc : Type 0 where
  pub vn : ℕ
  pub offset : ℕ
  pub mode : ℕ

-- The file system: an error code beside what the call gives back.
pub record Vfs : Type 0 where
  pub open_file : ℕ → ℕ → ℕ × ℕ  -- path and flags; the vnode
  pub read_at : ℕ → ℕ → ℕ → ℕ × ℕ  -- vnode, offset and count; what is left of the count
  pub write_at : ℕ → ℕ → ℕ → ℕ × ℕ
  pub try_seek : ℕ → ℕ → ℕ
  pub blocksize : ℕ → ℕ  -- of the device of a vnode
  pub blocks : ℕ → ℕ

-- The file table of the current thread, and the objects that its pointers name.
pub record Process : Type 0 where
  pub ft : Filetable
  pub desc : ℕ → Filedesc

abbrev pub word : ℕ
word = 2 ^ 32

-- An `int` as the word that holds it.
abbrev pub to_word : ℤ → ℕ
to_word (pos n) = n % word
to_word (negsuc n) = word - (n + 1)

abbrev pub o_rdonly : ℕ
o_rdonly = 0

abbrev pub o_wronly : ℕ
o_wronly = 1

abbrev pub o_rdwr : ℕ
o_rdwr = 2

-- `mode & O_ACCMODE`
abbrev pub accmode : ℕ → ℕ
accmode mode = mode % 4

abbrev pub put_desc : (ℕ → Filedesc) → ℕ → Filedesc → ℕ → Filedesc
put_desc desc p d q = if p == q then d else desc q

-- The code that a call returns, and `*ret`; 0 stands for a `*ret` that the call leaves alone.
abbrev pub Reply : Type 0
Reply = ℕ × ℕ

is_minus_one : ℤ → Bool
is_minus_one (pos n) = false
is_minus_one (negsuc n) = n == 0

module _ (vfs : Vfs) where
  -- `memory` is what `kmalloc` gives for the new `filedesc`.
  unfoldable pub sys_open : (ℕ → Bool) → Pointer → Process → ℕ → ℕ → ℕ → Result (Reply × Process)
  unfolding is_minus_one
  sys_open room memory p path oflag mode =
      let (error, vn) = vfs.open_file path oflag in
      if error == 0
      then elim memory [
        | none ↦ fault
        | some fd ↦
            let desc = put_desc p.desc fd (record { vn = vn; offset = 0; mode = mode }) in
            Filetable.add room p.ft (some fd) >>= λ (ret, ft').
            if is_minus_one ret
            then ok ((to_word ret, to_word ret), record { ft = ft'; desc = desc })
            else ok ((0, to_word ret), record { ft = ft'; desc = desc })
      ]
      else ok ((error, error), p)

  -- `sys_read` and `sys_write` but for the modes that they allow and the operation that they call.
  -- `buf` tells whether the buffer is not NULL.
  unfoldable pub transfer :
      (ℕ → Bool) → (ℕ → ℕ → ℕ → ℕ × ℕ) → Process → ℤ → Bool → ℕ → Result (Reply × Process)
  transfer allowed operation p fd buf nbytes =
      if not buf
      then ok ((efault, 0), p)
      else Filetable.get p.ft fd >>= λ file_d. elim file_d [
        | none ↦ ok ((ebadf, 0), p)
        | some d ↦
            let f = p.desc d in
            if not (allowed (accmode f.mode))
            then ok ((ebadf, 0), p)
            else let (error, resid) = operation f.vn f.offset nbytes in
              if error == 0
              then ok ((0, (nbytes + word - resid) % word), p)
              else ok ((error, error), p)
      ]

  unfoldable pub sys_read : Process → ℤ → Bool → ℕ → Result (Reply × Process)
  unfolding transfer
  sys_read = transfer (λ m. (m == o_rdonly) || (m == o_rdwr)) vfs.read_at

  unfoldable pub sys_write : Process → ℤ → Bool → ℕ → Result (Reply × Process)
  unfolding transfer
  sys_write = transfer (λ m. (m == o_wronly) || (m == o_rdwr)) vfs.write_at

-- The value of `fd == -1`, as an `int`.
abbrev equals_minus_one : ℤ → ℤ
equals_minus_one (pos n) = pos 0
equals_minus_one (negsuc n) = if n == 0 then pos 1 else pos 0

abbrev nonzero : ℤ → Bool
nonzero (pos n) = not (n == 0)
nonzero (negsuc n) = true

-- `if (filetable_remove(curthread->ft, fd == -1)) return EBADF;`
unfoldable pub sys_close : Process → ℤ → Result (ℕ × Process)
sys_close p fd = do
  (removed, ft', _) ← Filetable.remove p.ft (equals_minus_one fd)
  ok (if nonzero removed then ebadf else 0, record p { ft = ft' })

abbrev is_negative : ℤ → Bool
is_negative (pos n) = false
is_negative (negsuc n) = true

-- What `sys_dup2` does once it has the old handle: it closes the new one if that is open, and then
-- writes through `file_d_new`, which it never sets.
unfoldable pub overwrite : Process → ℤ → Result (ℤ × Process)
overwrite p newfd = do
  file_d_check ← Filetable.get p.ft newfd
  elim file_d_check [ none ↦ fault | some d ↦ sys_close p newfd >>= λ _. fault ]

unfoldable pub sys_dup2 : Process → ℤ → ℤ → Result (ℤ × Process)
sys_dup2 p oldfd newfd = do
  file_d_old ← Filetable.get p.ft oldfd
  elim file_d_old [
    | none ↦ ok (pos ebadf, p)
    | some d ↦ if is_negative newfd then ok (pos ebadf, p) else overwrite p newfd
  ]

abbrev pub seek_set : ℕ
seek_set = 0

abbrev pub seek_cur : ℕ
seek_cur = 1

abbrev pub seek_end : ℕ
seek_end = 2

-- The position that `sys_lseek` tries, as a word; `none` for a `whence` that it does not know.
abbrev pub target : Vfs → Filedesc → ℕ → ℕ → Option ℕ
target vfs f offset whence =
    if whence == seek_set
    then some offset
    else if whence == seek_cur
    then some ((offset + f.offset) % word)
    else if whence == seek_end
    then some ((offset + (vfs.blocksize f.vn + vfs.blocks f.vn)) % word)
    else none

-- `sys_lseek` returns an error code or the new position, both as its value.
unfoldable pub sys_lseek : Vfs → Process → ℤ → ℕ → ℕ → Result (ℕ × Process)
sys_lseek vfs p fd offset whence = do
  file_d ← Filetable.get p.ft fd
  elim file_d [
    | none ↦ ok (ebadf, p)
    | some d ↦
        let f = p.desc d in
        elim (target vfs f offset whence) [
          | none ↦ ok (einval, p)
          | some at ↦
              let error = vfs.try_seek f.vn at in
              if error == 0
              then ok (at, record p { desc = put_desc p.desc d (record f { offset = at }) })
              else ok (error, p)
        ]
  ]

-- The end of `mips_syscall`: the registers v0 and a3.
unfoldable pub deliver : ℕ → ℕ → ℕ × ℕ
deliver err retval = if err == 0 then (retval, 0) else (err, 1)
