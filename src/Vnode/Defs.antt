-- ===== src/Vnode/Defs.antt =====
-- The functions of vnode.c on the counts. The lock of the counts has no code in kern/thread/synch.c, so
-- its calls are left out.
use cs325os.Base.{
  ℕ, ◌+◌, ◌-◌, Bool, true, false, ◌&&◌, ltb, ◌==◌, if◌then◌else◌, Result, ok, fault, ◌>>◌, assert,
  int_limit, enomem,
}

-- `vn_refcount` and `vn_opencount`.
pub record Vnode : Type 0 where
  pub refcount : ℕ
  pub opencount : ℕ

-- `vnode_init`: an error code and the counts. `room` is what `lock_create` asks.
unfoldable pub init : (ℕ → Bool) → ℕ → ℕ → ℕ × Vnode
init room lock_size name_size =
    (if room lock_size && room name_size then 0 else enomem, record { refcount = 1; opencount = 0 })

unfoldable pub kill : Vnode → Result Vnode
kill vn = do
  assert (vn.refcount == 1)
  assert (vn.opencount == 0)
  ok (record { refcount = 0; opencount = 0 })

unfoldable pub incref : Vnode → Result Vnode
incref vn =
    if ltb (vn.refcount + 1) int_limit then ok (record vn { refcount = vn.refcount + 1 }) else fault

-- `vnode_decref`. `reclaim` is what VOP_RECLAIM of the file system makes of the vnode; its error code is
-- only printed. The Boolean tells whether it is called.
unfoldable pub decref : (Vnode → Vnode) → Vnode → Result (Bool × Vnode)
decref reclaim vn = do
  assert (ltb 0 vn.refcount)
  ok (
      if ltb 1 vn.refcount
      then (false, record vn { refcount = vn.refcount - 1 })
      else (true, reclaim vn))

unfoldable pub incopen : Vnode → Result Vnode
incopen vn =
    if ltb (vn.opencount + 1) int_limit
    then ok (record vn { opencount = vn.opencount + 1 })
    else fault

-- `vnode_decopen`. `close` is what VOP_CLOSE makes of the vnode; the Boolean tells whether it is called.
unfoldable pub decopen : (Vnode → Vnode) → Vnode → Result (Bool × Vnode)
decopen close vn = do
  assert (ltb 0 vn.opencount)
  ok (
      if ltb 0 (vn.opencount - 1)
      then (false, record vn { opencount = vn.opencount - 1 })
      else (true, close (record vn { opencount = vn.opencount - 1 })))
