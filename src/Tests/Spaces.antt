-- ===== src/Tests/Spaces.antt =====
-- An address space with two regions, and a page fault in it.
use cs325os.Base.{
  ℕ, ◌+◌, ◌*◌, ◌%◌, ◌<◌, ◌≡◌, refl, ◌⊎◌, true, none, some, [], ◌∷◌, ok, ◌==◌, if◌then◌else◌, enomem,
  arith,
}
use cs325os.Ram.{Ram, page_size}
use cs325os.Ram.Pages as Pages
use cs325os.Libc.{Memory, memmove}
use cs325os.Libc.Moves.{moved, memmove-moved}
use cs325os.Vm.{
  Addrspace, Tlb, read, write, as_prepare_load, as_copy, as_define_region, as_create, vm_fault,
  as_activate, page_frame, eunimp, translate, invalid_from, fault_in, load_tlb, write_entry,
}
use cs325os.Vm.Spaces.{IsReady, IsDefined, placed, as_prepare_load-IsReady}
use cs325os.Vm.Copy.{Copied, as_copy-Copied}
use cs325os.Vm.Regions.{Covers, as_define_region-Covers}
use cs325os.Vm.Faults.{Faults, Sound, idle, Faults-Sound}
use cs325os.Vm.Frames.{Answer, vm_fault-Answer}

abbrev low_ram : Ram
low_ram = record { firstpaddr = 0x30000; lastpaddr = 0x100000 }

abbrev later_ram : Ram
later_ram = record { firstpaddr = 0x60000; lastpaddr = 0x100000 }

low_ram-IsValid : Pages.IsValid low_ram
low_ram-IsValid = record {
  first = omega arith;
  aligned = refl;
  within = omega arith;
  small = omega arith;
}

later_ram-IsValid : Pages.IsValid later_ram
later_ram-IsValid = record {
  first = omega arith;
  aligned = refl;
  within = omega arith;
  small = omega arith;
}

abbrev no_pages : Addrspace
no_pages = record as_create { vbase1 = 0x400000; npages1 = 2; vbase2 = 0x10000000; npages2 = 1 }

no_pages-IsDefined : IsDefined no_pages
no_pages-IsDefined = record {
  none1 = refl;
  none2 = refl;
  none3 = refl;
  base1 = omega arith;
  base2 = omega arith;
  whole1 = refl;
  whole2 = refl;
  some1 = omega arith;
  some2 = omega arith;
  user1 = omega arith;
  user2 = omega arith;
}

abbrev in_pages : Addrspace
in_pages = record no_pages { pbase1 = 0x30000; pbase2 = 0x32000; stackpbase = 0x33000 }

in_pages-IsReady : IsReady in_pages 0x60000
in_pages-IsReady = record {
  base1 = omega arith;
  base2 = omega arith;
  whole1 = refl;
  whole2 = refl;
  some1 = omega arith;
  some2 = omega arith;
  user1 = omega arith;
  user2 = omega arith;
  page1 = omega arith;
  aligned1 = refl;
  aligned2 = refl;
  aligned3 = refl;
  next = omega arith;
  last = omega arith;
  below = omega arith;
  small = omega arith;
}

as_prepare_load-IsReady_example :
    ((r' : Ram) × (as_prepare_load low_ram no_pages ≡ ok (0, placed no_pages 0x30000, r'))
      × IsReady (placed no_pages 0x30000) r'.firstpaddr
      × Pages.IsValid r')
    ⊎ ((s' : Addrspace) × (r' : Ram) × (as_prepare_load low_ram no_pages ≡ ok (enomem, s', r'))
        × (0x100000 < 0x30000 + (2 + 1 + 12) * page_size))
as_prepare_load-IsReady_example =
    as_prepare_load-IsReady low_ram no_pages low_ram-IsValid no_pages-IsDefined

abbrev counting : Memory
counting a = a % 256

as_copy-Copied_example :
    ((new : Addrspace) × (r' : Ram) × (mem' : Memory) × (as_copy true later_ram counting in_pages
        ≡ ok (some new, r', mem'))
      × Copied in_pages new 0x60000 r'.firstpaddr counting mem')
    ⊎ ((r' : Ram) × (as_copy true later_ram counting in_pages ≡ ok (none, r', counting))
        × (0x100000 < 0x60000 + (2 + 1 + 12) * page_size))
as_copy-Copied_example =
    as_copy-Copied later_ram counting in_pages later_ram-IsValid in_pages-IsReady

as_define_region-Covers_example :
    (n : ℕ) × Covers 0x400010 5000 (page_frame 0x400010) n
    × (as_define_region as_create 0x400010 5000 ≡ (
        if 0 == 0
        then (0, record as_create { vbase1 = page_frame 0x400010; npages1 = n })
        else if 0 == 0
        then (0, record as_create { vbase2 = page_frame 0x400010; npages2 = n })
        else (eunimp, as_create)))
as_define_region-Covers_example = as_define_region-Covers as_create 0x400010 5000 (omega arith)

abbrev two_entries : Tlb
two_entries = (0x401000, 0x31600) ∷ (0x80001000, 0) ∷ []

vm_fault-Answer_example :
    Answer in_pages two_entries 0x10000000 (vm_fault (some in_pages) two_entries read 0x10000123)
    × Answer in_pages two_entries 0x10000000 (vm_fault (some in_pages) two_entries write 0x10000123)
vm_fault-Answer_example =
    vm_fault-Answer in_pages 0x60000 two_entries 0x10000123 in_pages-IsReady refl

one_fault : Faults in_pages (as_activate two_entries) ((0x10000000, 0x32600) ∷ (0x80001000, 0) ∷ [])
unfolding as_activate invalid_from vm_fault fault_in load_tlb write_entry translate
one_fault = Faults.fault read 0x10000123 0 idle refl refl

Faults-Sound_example : Sound in_pages ((0x10000000, 0x32600) ∷ (0x80001000, 0) ∷ [])
Faults-Sound_example =
    Faults-Sound in_pages 0x60000 two_entries ((0x10000000, 0x32600) ∷ (0x80001000, 0) ∷ [])
      in_pages-IsReady one_fault

memmove-moved_example :
    memmove 0x1004 0x1000 16 counting 0x100c ≡ moved 0x1004 0x1000 16 counting 0x100c
memmove-moved_example = memmove-moved 0x1004 0x1000 16 counting 0x100c
