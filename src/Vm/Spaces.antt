-- ===== src/Vm/Spaces.antt =====
-- kern/arch/mips/mips/dumbvm.c: address spaces get pages of their own.
use cs325os.Base.{
  ℕ, ◌+◌, ◌*◌, ◌%◌, ◌≤◌, ◌<◌, ◌≡◌, ◌⊎◌, inl, inr, true, false, ◌==◌, ok, enomem, arith,
}
use cs325os.Ram.{Ram, page_size, kseg0, max_ram, getppages}
use cs325os.Ram.Pages as Pages
use cs325os.Ram.Pages.{stealmem-Stolen}
use cs325os.Vm.Defs.{Addrspace, as_prepare_load}

-- An address space that is ready for use. Its pages are below `top`, those of its regions apart from one another.
pub record IsReady (s : Addrspace) (top : ℕ) : Type 0 where
  pub base1 : 0 < s.vbase1
  pub base2 : 0 < s.vbase2
  pub whole1 : s.vbase1 % page_size ≡ 0
  pub whole2 : s.vbase2 % page_size ≡ 0
  pub some1 : 0 < s.npages1
  pub some2 : 0 < s.npages2
  pub user1 : s.vbase1 + s.npages1 * page_size ≤ kseg0
  pub user2 : s.vbase2 + s.npages2 * page_size ≤ kseg0
  pub page1 : 0 < s.pbase1
  pub aligned1 : s.pbase1 % page_size ≡ 0
  pub aligned2 : s.pbase2 % page_size ≡ 0
  pub aligned3 : s.stackpbase % page_size ≡ 0
  pub next : s.pbase1 + s.npages1 * page_size ≤ s.pbase2
  pub last : s.pbase2 + s.npages2 * page_size ≤ s.stackpbase
  pub below : s.stackpbase + 12 * page_size ≤ top
  pub small : top ≤ max_ram

-- An address space with its two regions, but without pages.
pub record IsDefined (s : Addrspace) : Type 0 where
  pub none1 : s.pbase1 ≡ 0
  pub none2 : s.pbase2 ≡ 0
  pub none3 : s.stackpbase ≡ 0
  pub base1 : 0 < s.vbase1
  pub base2 : 0 < s.vbase2
  pub whole1 : s.vbase1 % page_size ≡ 0
  pub whole2 : s.vbase2 % page_size ≡ 0
  pub some1 : 0 < s.npages1
  pub some2 : 0 < s.npages2
  pub user1 : s.vbase1 + s.npages1 * page_size ≤ kseg0
  pub user2 : s.vbase2 + s.npages2 * page_size ≤ kseg0

-- The space with its pages from `p` on.
abbrev pub placed : Addrspace → ℕ → Addrspace
placed s p = record s {
  pbase1 = p;
  pbase2 = p + s.npages1 * page_size;
  stackpbase = p + s.npages1 * page_size + s.npages2 * page_size;
}

-- getppages of `n` pages.
getppages_lem :
    (r : Ram) (n : ℕ)
    → Pages.IsValid r
    → n < 524288
    → ((r' : Ram) × (getppages r n ≡ (r.firstpaddr, r'))
        × Pages.IsValid r'
        × (r'.firstpaddr ≡ r.firstpaddr + n * page_size)
        × (r'.lastpaddr ≡ r.lastpaddr))
      ⊎ ((getppages r n ≡ (0, r)) × (r.lastpaddr < r.firstpaddr + n * page_size))
unfolding getppages
getppages_lem r n v few = elim (stealmem-Stolen r n v few) [
  | inl (r', e, s, v') ↦ inl (r', e, v', s.next, s.last)
  | inr short ↦ inr short
]

-- A defined address space gets consecutive pages behind all handed out before, and is ready for
-- use; or ENOMEM is returned and fewer pages are left than it needs.
pub as_prepare_load-IsReady :
    (r : Ram) (s : Addrspace)
    → Pages.IsValid r
    → IsDefined s
    → ((r' : Ram) × (as_prepare_load r s ≡ ok (0, placed s r.firstpaddr, r'))
        × IsReady (placed s r.firstpaddr) r'.firstpaddr
        × Pages.IsValid r')
      ⊎ ((s' : Addrspace) × (r' : Ram) × (as_prepare_load r s ≡ ok (enomem, s', r'))
          × (r.lastpaddr < r.firstpaddr + (s.npages1 + s.npages2 + 12) * page_size))
unfolding as_prepare_load
as_prepare_load-IsReady r s v d =
    let no_page1 : (s.pbase1 == 0) ≡ true = ground (arith, d.none1) in
    let no_page2 : (s.pbase2 == 0) ≡ true = ground (arith, d.none2) in
    let no_page3 : (s.stackpbase == 0) ≡ true = ground (arith, d.none3) in
    let first : (r.firstpaddr == 0) ≡ false = ground (arith, v.first) in
    elim (getppages_lem r s.npages1 v (omega (arith, d.user1))) [
      | inr (e, short) ↦
          inr
            (record s { pbase1 = 0 }, r, rw (no_page1, no_page2, no_page3, e), omega (arith, short))
      | inl (r1, e1, v1, next1, last1) ↦
          let second : (r1.firstpaddr == 0) ≡ false = ground (arith, v1.first) in
          elim (getppages_lem r1 s.npages2 v1 (omega (arith, d.user2))) [
            | inr (e, short) ↦ inr (
              record s { pbase1 = r.firstpaddr; pbase2 = 0 },
              r1,
              rw (no_page1, no_page2, no_page3, e1, first, e),
              omega (arith, short, next1, last1),
            )
            | inl (r2, e2, v2, next2, last2) ↦
                let third : (r2.firstpaddr == 0) ≡ false = ground (arith, v2.first) in
                elim (getppages_lem r2 12 v2 (omega arith)) [
                  | inr (e, short) ↦ inr (
                    record s { pbase1 = r.firstpaddr; pbase2 = r1.firstpaddr; stackpbase = 0 },
                    r2,
                    rw (no_page1, no_page2, no_page3, e1, first, e2, second, e),
                    omega (arith, short, next1, last1, next2, last2),
                  )
                  | inl (r3, e3, v3, next3, last3) ↦ inl (
                    r3,
                    rw (
                      no_page1, no_page2, no_page3, e1, first, e2, second, e3, third, next2, next1,
                    ),
                    record {
                      base1 = d.base1;
                      base2 = d.base2;
                      whole1 = d.whole1;
                      whole2 = d.whole2;
                      some1 = d.some1;
                      some2 = d.some2;
                      user1 = d.user1;
                      user2 = d.user2;
                      page1 = v.first;
                      aligned1 = v.aligned;
                      aligned2 = omega (arith, v.aligned);
                      aligned3 = omega (arith, v.aligned);
                      next = omega arith;
                      last = omega arith;
                      below = omega (arith, next1, next2, next3);
                      small = omega (arith, v3.within, v3.small);
                    },
                    v3,
                  )
                ]
          ]
    ]
