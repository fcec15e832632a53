-- ===== src/Vm/Regions.antt =====
-- kern/arch/mips/mips/dumbvm.c: as_define_region.
use cs325os.Base.{ℕ, ◌+◌, ◌-◌, ◌*◌, ◌/◌, ◌%◌, ◌≤◌, ◌<◌, ◌≡◌, ◌==◌, if◌then◌else◌, arith}
use cs325os.Ram.{word, page_size}
use cs325os.Vm.Defs.{Addrspace, as_define_region, page_frame, eunimp}

-- The `n` pages from `base` on have the `sz` bytes at `vaddr`, and no page that they do not need.
pub record Covers (vaddr sz base n : ℕ) : Type 0 where
  pub whole : base % page_size ≡ 0
  pub low : base ≤ vaddr
  pub near : vaddr < base + page_size
  pub high : vaddr + sz ≤ base + n * page_size
  pub tight : base + n * page_size < vaddr + sz + page_size

-- as_define_region takes the first of the two regions that has no base yet, and gives it the pages that cover
-- the `sz` bytes at `vaddr`, which end below the last page of the address space; with both taken it returns EUNIMP and changes
-- nothing.
pub as_define_region-Covers :
    (s : Addrspace) (vaddr sz : ℕ)
    → vaddr + sz + page_size ≤ word
    → (n : ℕ) × Covers vaddr sz (page_frame vaddr) n
      × (as_define_region s vaddr sz ≡ (
          if s.vbase1 == 0
          then (0, record s { vbase1 = page_frame vaddr; npages1 = n })
          else if s.vbase2 == 0
          then (0, record s { vbase2 = page_frame vaddr; npages2 = n })
          else (eunimp, s)))
unfolding as_define_region
as_define_region-Covers s vaddr sz fits =
    let sum : (sz + vaddr % page_size) % word ≡ sz + vaddr % page_size = omega arith in
    let up : (sz + vaddr % page_size + page_size - 1) % word ≡ sz + vaddr % page_size + 4095 =
      omega arith in
    let n = page_frame (sz + vaddr % page_size + 4095) / page_size in
    (
      n,
      record {
        whole = omega arith;
        low = omega arith;
        near = omega arith;
        high = omega arith;
        tight = omega arith;
      },
      rw (sum, up),
    )
