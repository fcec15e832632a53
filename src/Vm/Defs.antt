-- ===== src/Vm/Defs.antt =====
-- The functions of dumbvm.c on address spaces. Addresses are 32-bit words; `& PAGE_FRAME` takes the low
-- 12 bits away.
use cs325os.Base.{
  ℕ, ◌+◌, ◌-◌, ◌*◌, ◌/◌, ◌%◌, Bool, true, false, not, ◌&&◌, Option, none, some, ltb, leb, ◌==◌,
  if◌then◌else◌, List, [], ◌∷◌, Result, ok, panic, ◌>>=◌, ◌>>◌, assert, efault, einval, enomem,
}
use cs325os.Libc.{Memory, memmove}
use cs325os.Ram.{Ram, word, page_size, kseg0, getppages}

abbrev pub eunimp : ℕ
eunimp = 13

abbrev pub dumbvm_stackpages : ℕ
dumbvm_stackpages = 12

-- `USERSTACK`, which is `USERTOP`.
abbrev pub userstack : ℕ
userstack = kseg0

abbrev pub stackbase : ℕ
stackbase = userstack - dumbvm_stackpages * page_size

abbrev pub page_frame : ℕ → ℕ
page_frame a = a / page_size * page_size

-- `struct addrspace` with dumbvm.
pub record Addrspace : Type 0 where
  pub vbase1 : ℕ
  pub pbase1 : ℕ
  pub npages1 : ℕ
  pub vbase2 : ℕ
  pub pbase2 : ℕ
  pub npages2 : ℕ
  pub stackpbase : ℕ

-- The TLB: `entryhi` and `entrylo` of each entry.
abbrev pub Tlb : Type 0
Tlb = List (ℕ × ℕ)

abbrev pub num_tlb : ℕ
num_tlb = 64

abbrev pub tlblo_dirty : ℕ
tlblo_dirty = 0x400

abbrev pub tlblo_valid : ℕ
tlblo_valid = 0x200

-- `elo & TLBLO_VALID`
abbrev pub is_set : ℕ → Bool
is_set elo = elo / tlblo_valid % 2 == 1

-- `VM_FAULT_READ`, `VM_FAULT_WRITE` and `VM_FAULT_READONLY`; any other number is `unknown`.
pub data Faulttype : Type 0 where
  read : Faulttype
  write : Faulttype
  readonly : Faulttype
  unknown : Faulttype

-- Where the page of a fault is, by the three regions of the address space.
unfoldable pub translate : Addrspace → ℕ → Option ℕ
translate s va =
    if leb s.vbase1 va && ltb va ((s.vbase1 + s.npages1 * page_size) % word)
    then some ((va - s.vbase1 + s.pbase1) % word)
    else if leb s.vbase2 va && ltb va ((s.vbase2 + s.npages2 * page_size) % word)
    then some ((va - s.vbase2 + s.pbase2) % word)
    else if leb stackbase va && ltb va userstack
    then some ((va - stackbase + s.stackpbase) % word)
    else none

-- The loop of `vm_fault`: the first entry that is not valid is written. Low bits of `paddr` are 0, so that
-- the flags are added.
unfoldable pub write_entry : ℕ → ℕ → Tlb → Option Tlb
write_entry va paddr [] = none
write_entry va paddr ((ehi, elo) ∷ tlb) =
    let rest = write_entry va paddr tlb in
    if is_set elo
    then elim rest [ none ↦ none | some tlb' ↦ some ((ehi, elo) ∷ tlb') ]
    else some ((va, paddr + tlblo_dirty + tlblo_valid) ∷ tlb)

abbrev pub set_up : Addrspace → Bool
set_up s =
    not (s.vbase1 == 0)
    && not (s.pbase1 == 0)
    && not (s.npages1 == 0)
    && not (s.vbase2 == 0)
    && not (s.pbase2 == 0)
    && not (s.npages2 == 0)
    && not (s.stackpbase == 0)

abbrev pub paged : Addrspace → Bool
paged s =
    (page_frame s.vbase1 == s.vbase1)
    && (page_frame s.pbase1 == s.pbase1)
    && (page_frame s.vbase2 == s.vbase2)
    && (page_frame s.pbase2 == s.pbase2)
    && (page_frame s.stackpbase == s.stackpbase)

-- From the choice of the region on: the error code with the TLB.
unfoldable pub load_tlb : Tlb → ℕ → Option ℕ → Result (ℕ × Tlb)
load_tlb tlb va none = ok (efault, tlb)
load_tlb tlb va (some paddr) =
    assert (page_frame paddr == paddr)
    >> elim (write_entry va paddr tlb) [ none ↦ ok (efault, tlb) | some tlb' ↦ ok (0, tlb') ]

-- `vm_fault` once the type of the fault is that of an access.
unfoldable pub fault_in : Option Addrspace → Tlb → ℕ → Result (ℕ × Tlb)
fault_in none tlb va = ok (efault, tlb)
fault_in (some s) tlb va = assert (set_up s) >> assert (paged s) >> load_tlb tlb va (translate s va)

-- `vm_fault` in the address space of the current thread.
unfoldable pub vm_fault : Option Addrspace → Tlb → Faulttype → ℕ → Result (ℕ × Tlb)
vm_fault space tlb readonly faultaddress = panic
vm_fault space tlb unknown faultaddress = ok (einval, tlb)
vm_fault space tlb read faultaddress = fault_in space tlb (page_frame faultaddress)
vm_fault space tlb write faultaddress = fault_in space tlb (page_frame faultaddress)

-- The value of `as_create` when it has memory.
abbrev pub as_create : Addrspace
as_create = record {
  vbase1 = 0;
  pbase1 = 0;
  npages1 = 0;
  vbase2 = 0;
  pbase2 = 0;
  npages2 = 0;
  stackpbase = 0;
}

-- The loop of `as_activate`, from the entry `i` on.
unfoldable pub invalid_from : ℕ → Tlb → Tlb
invalid_from i [] = []
invalid_from i (e ∷ tlb) = ((0x80000 + i) * 4096, 0) ∷ invalid_from (i + 1) tlb

unfoldable pub as_activate : Tlb → Tlb
as_activate tlb = invalid_from 0 tlb

-- `as_define_region`
unfoldable pub as_define_region : Addrspace → ℕ → ℕ → ℕ × Addrspace
as_define_region s vaddr sz =
    let sz1 = (sz + vaddr % page_size) % word in
    let base = page_frame vaddr in
    let npages = page_frame ((sz1 + page_size - 1) % word) / page_size in
    if s.vbase1 == 0
    then (0, record s { vbase1 = base; npages1 = npages })
    else if s.vbase2 == 0
    then (0, record s { vbase2 = base; npages2 = npages })
    else (eunimp, s)

-- `as_prepare_load`: the error code, the address space and the pages that are left. A base that
-- getppages could not fill is 0.
unfoldable pub as_prepare_load : Ram → Addrspace → Result (ℕ × Addrspace × Ram)
as_prepare_load ram s = do
  assert (s.pbase1 == 0)
  assert (s.pbase2 == 0)
  assert (s.stackpbase == 0)
  let (pbase1, ram1) = getppages ram s.npages1
  let as1 = record s { pbase1 = pbase1 }
  if pbase1 == 0
      then ok (enomem, as1, ram1)
      else (let (pbase2, ram2) = getppages ram1 s.npages2 in
          let as2 = record as1 { pbase2 = pbase2 } in
          if pbase2 == 0
          then ok (enomem, as2, ram2)
          else (let (stackpbase, ram3) = getppages ram2 dumbvm_stackpages in
              let as3 = record as2 { stackpbase = stackpbase } in
              if stackpbase == 0 then ok (enomem, as3, ram3) else ok (0, as3, ram3)))

-- `as_define_stack`: the stack pointer.
unfoldable pub as_define_stack : Addrspace → Result ℕ
as_define_stack s = assert (not (s.stackpbase == 0)) >> ok userstack

-- The three calls of memmove in `as_copy`, through the addresses at which the kernel sees the pages.
unfoldable pub copy_pages : Addrspace → Addrspace → Memory → Memory
copy_pages old new mem =
    memmove ((new.stackpbase + kseg0) % word) ((old.stackpbase + kseg0) % word)
      (dumbvm_stackpages * page_size)
      (memmove ((new.pbase2 + kseg0) % word) ((old.pbase2 + kseg0) % word)
        (old.npages2 * page_size % word)
        (memmove ((new.pbase1 + kseg0) % word) ((old.pbase1 + kseg0) % word)
          (old.npages1 * page_size % word) mem))

-- `as_copy` where `room` says whether `as_create` gets memory: ENOMEM, or the new address space, with
-- the pages that are left and the memory.
unfoldable pub as_copy : Bool → Ram → Memory → Addrspace → Result (Option Addrspace × Ram × Memory)
as_copy false ram mem old = ok (none, ram, mem)
as_copy true ram mem old = do
  (result, new, ram') ← as_prepare_load ram (record as_create {
    vbase1 = old.vbase1;
    npages1 = old.npages1;
    vbase2 = old.vbase2;
    npages2 = old.npages2;
  })
  if not (result == 0)
      then ok (none, ram', mem)
      else assert (not (new.pbase1 == 0))
        >> assert (not (new.pbase2 == 0))
        >> assert (not (new.stackpbase == 0))
        >> ok (some new, ram', copy_pages old new mem)
