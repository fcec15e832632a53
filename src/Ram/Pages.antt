-- ===== src/Ram/Pages.antt =====
-- kern/arch/mips/mips/ram.c: pages are handed out once.
use cs325os.Base.{
  ℕ, ◌+◌, ◌*◌, ◌%◌, ◌≤◌, ◌<◌, ◌≡◌, refl, ◌⊎◌, inl, inr, false, ◌-◌, ltb, ◌==◌, Bool-cases, arith,
}
use cs325os.Ram.Defs.{Ram, word, page_size, kseg0, max_ram, stealmem, getppages, alloc_kpages}

-- Whole pages are left between the two addresses, and the first is not 0.
pub record IsValid (r : Ram) : Type 0 where
  pub first : 0 < r.firstpaddr
  pub aligned : r.firstpaddr % page_size ≡ 0
  pub within : r.firstpaddr ≤ r.lastpaddr
  pub small : r.lastpaddr ≤ max_ram

-- What `ram_stealmem` has done.
pub record Stolen (r : Ram) (npages : ℕ) (paddr : ℕ) (r' : Ram) : Type 0 where
  pub start : paddr ≡ r.firstpaddr
  pub next : r'.firstpaddr ≡ r.firstpaddr + npages * page_size
  pub last : r'.lastpaddr ≡ r.lastpaddr

-- If fewer than 2 ^ 19 pages are asked, `ram_stealmem` hands out the pages at the first free
-- address and moves it behind them, or returns 0 and changes nothing because fewer are left.
pub stealmem-Stolen :
    (r : Ram) (npages : ℕ)
    → IsValid r
    → npages < 524288
    → ((r' : Ram) × (stealmem r npages ≡ (r.firstpaddr, r'))
        × Stolen r npages r.firstpaddr r'
        × IsValid r')
      ⊎ ((stealmem r npages ≡ (0, r)) × (r.lastpaddr < r.firstpaddr + npages * page_size))
unfolding stealmem
stealmem-Stolen r npages v few =
    let size : npages * page_size % word ≡ npages * page_size = omega arith in
    let sum : (r.firstpaddr + npages * page_size) % word ≡ r.firstpaddr + npages * page_size =
      omega arith in
    elim (Bool-cases (ltb r.lastpaddr (r.firstpaddr + npages * page_size))) [
      | inl short ↦ inr (rw (size, sum, short), ground arith)
      | inr enough ↦ inl (
        record r { firstpaddr = r.firstpaddr + npages * page_size },
        rw (size, sum, enough),
        record { start = refl; next = refl; last = refl },
        ground arith,
      )
    ]

-- A request of so many pages that the address wraps round 2 ^ 32 succeeds, with the address of the
-- first free page, and moves the first free address down: pages that are in use are handed out again.
pub stealmem_wraps :
    (r : Ram) (npages : ℕ)
    → IsValid r
    → npages < 1048576
    → word ≤ r.firstpaddr + npages * page_size
    → (r' : Ram) × (stealmem r npages ≡ (r.firstpaddr, r'))
      × (r'.firstpaddr + (1048576 - npages) * page_size ≡ r.firstpaddr)
unfolding stealmem
stealmem_wraps r npages v few wraps =
    let size : npages * page_size % word ≡ npages * page_size = omega arith in
    let back : (r.firstpaddr + npages * page_size) % word + word
        ≡ r.firstpaddr + npages * page_size =
      omega arith in
    let enough : ltb r.lastpaddr ((r.firstpaddr + npages * page_size) % word) ≡ false =
      ground arith in
    (
      record r { firstpaddr = (r.firstpaddr + npages * page_size) % word },
      rw (size, enough),
      omega (arith, back),
    )

-- `alloc_kpages` of one page, as the kernel heap calls it: the page is behind all handed out before, or
-- the result is 0 and nothing changes.
pub alloc_kpages-one :
    (r : Ram)
    → IsValid r
    → ((r' : Ram) × (alloc_kpages r 1 ≡ (r.firstpaddr + kseg0, r'))
        × IsValid r'
        × (r'.firstpaddr ≡ r.firstpaddr + page_size))
      ⊎ (alloc_kpages r 1 ≡ (0, r))
unfolding alloc_kpages getppages
alloc_kpages-one r v = elim (stealmem-Stolen r 1 v (omega arith)) [
  | inl (r', e, s, v') ↦
      let some_page : (r.firstpaddr == 0) ≡ false = ground arith in
      let seen : (r.firstpaddr + kseg0) % word ≡ r.firstpaddr + kseg0 = omega arith in
      inl (r', rw (e, some_page, seen), v', omega (arith, s.next))
  | inr (e, short) ↦ inr (rw e)
]
