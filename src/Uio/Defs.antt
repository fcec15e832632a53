-- ===== src/Uio/Defs.antt =====
-- The functions of uio.c. The memory and what copies in it, memmove, copyin and copyout, are arguments.
use cs325os.Base.{
  ℕ, zero, suc, ◌+◌, ◌-◌, ◌%◌, ◌^◌, Bool, true, false, not, ◌&&◌, Option, none, some, ltb, ◌==◌,
  if◌then◌else◌, Result, ok, panic, no_fuel, ◌>>=◌, ◌>>◌, assert,
}

-- `enum uio_rw`. What `uiomove` does with a value that is none of an enum's is left out.
pub data UioRw : Type 0 where
  uio_read : UioRw
  uio_write : UioRw

-- `enum uio_seg`
pub data UioSeg : Type 0 where
  uio_userspace : UioSeg
  uio_sysspace : UioSeg
  uio_userispace : UioSeg

-- `struct uio` with its `struct iovec`; `space` is NULL or names an address space.
pub record Uio : Type 0 where
  pub base : ℕ
  pub len : ℕ
  pub offset : ℕ
  pub resid : ℕ
  pub segflg : UioSeg
  pub rw_mode : UioRw
  pub space : Option ℕ

-- Destination, source and size; the two that reach user memory return an error code.
pub record Copier (M : Type 0) : Type 0 where
  pub memmove : ℕ → ℕ → ℕ → M → M
  pub copyout : ℕ → ℕ → ℕ → M → ℕ × M
  pub copyin : ℕ → ℕ → ℕ → M → ℕ × M

abbrev pub word : ℕ
word = 2 ^ 32

module _ {M : Type 0} (c : Copier M) where
  -- The `switch` of `uiomove`: the error code and the memory.
  abbrev pub transfer : UioSeg → UioRw → ℕ → ℕ → ℕ → M → ℕ × M
  transfer uio_sysspace uio_read ptr base size m = (0, c.memmove base ptr size m)
  transfer uio_sysspace uio_write ptr base size m = (0, c.memmove ptr base size m)
  transfer uio_userspace uio_read ptr base size m = c.copyout base ptr size m
  transfer uio_userspace uio_write ptr base size m = c.copyin ptr base size m
  transfer uio_userispace uio_read ptr base size m = c.copyout base ptr size m
  transfer uio_userispace uio_write ptr base size m = c.copyin ptr base size m

  -- The end of a round.
  abbrev pub advance : Uio → ℕ → Uio
  advance u size = record u {
    base = (u.base + size) % word;
    len = u.len - size;
    resid = (u.resid + word - size) % word;
    offset = (u.offset + size) % word;
  }

  -- The loop of `uiomove`.
  unfoldable pub move_loop : ℕ → ℕ → ℕ → Uio → M → Result (ℕ × Uio × M)
  move_loop zero ptr n u m = no_fuel
  move_loop (suc f) ptr n u m =
      if not (ltb 0 n && ltb 0 u.resid)
      then ok (0, u, m)
      else let size = if ltb n u.len then n else u.len in
        if size == 0
        then panic
        else let (result, m') = transfer u.segflg u.rw_mode ptr u.base size m in
          let rest = move_loop f ((ptr + size) % word) (n - size) (advance u size) m' in
          if result == 0 then rest else ok (result, u, m')

  abbrev pub is_null : Option ℕ → Bool
  is_null none = true
  is_null (some a) = false

  abbrev pub same_space : Option ℕ → Option ℕ → Bool
  same_space none none = true
  same_space none (some b) = false
  same_space (some a) none = false
  same_space (some a) (some b) = a == b

  -- What `uiomove` asserts of the address space; `vmspace` is that of the current thread.
  abbrev pub space_ok : UioSeg → Option ℕ → Option ℕ → Bool
  space_ok uio_sysspace space vmspace = is_null space
  space_ok uio_userspace space vmspace = same_space space vmspace
  space_ok uio_userispace space vmspace = same_space space vmspace

  -- A round uses up the count or the buffer, so the third round does not come.
  unfoldable pub uiomove : Option ℕ → ℕ → ℕ → Uio → M → Result (ℕ × Uio × M)
  uiomove vmspace ptr n u m = do assert (space_ok u.segflg u.space vmspace); move_loop 3 ptr n u m

  abbrev pub is_read : UioRw → Bool
  is_read uio_read = true
  is_read uio_write = false

  -- The loop of `uiomovezeros`; `zeros_at` is the address of its 16 zeros.
  unfoldable pub zeros_loop : ℕ → Option ℕ → ℕ → ℕ → Uio → M → Result (ℕ × Uio × M)
  zeros_loop zero vmspace zeros_at n u m = if n == 0 then ok (0, u, m) else no_fuel
  zeros_loop (suc f) vmspace zeros_at n u m =
      if n == 0
      then ok (0, u, m)
      else let amt = if ltb n 16 then n else 16 in
        uiomove vmspace zeros_at amt u m >>= λ (result, u', m').
        let rest = zeros_loop f vmspace zeros_at (n - amt) u' m' in
        if result == 0 then rest else ok (result, u', m')

  unfoldable pub uiomovezeros : Option ℕ → ℕ → ℕ → Uio → M → Result (ℕ × Uio × M)
  uiomovezeros vmspace zeros_at n u m = do
    assert (is_read u.rw_mode)
    zeros_loop n vmspace zeros_at n u m

unfoldable pub mk_kuio : ℕ → ℕ → ℕ → UioRw → Uio
mk_kuio kbuf len pos rw_mode = record {
  base = kbuf;
  len = len;
  offset = pos;
  resid = len;
  segflg = uio_sysspace;
  rw_mode = rw_mode;
  space = none;
}
