-- ===== src/Vm/Copy.antt =====
-- kern/arch/mips/mips/dumbvm.c: as_copy.
use cs325os.Base.{
  ℕ, ◌+◌, ◌-◌, ◌*◌, ◌%◌, ◌≤◌, ◌<◌, ◌≡◌, refl, sym, ap, ◌∙◌, ◌⊎◌, inl, inr, true, false, ◌&&◌,
  Option, none, some, ltb, leb, ◌==◌, Bool-cases, ok, arith,
}
use cs325os.Ram.{Ram, word, page_size, kseg0}
use cs325os.Ram.Pages as Pages
use cs325os.Libc.{Memory}
use cs325os.Vm.Defs.{Addrspace, as_copy, as_create, copy_pages, translate, stackbase, userstack}
use cs325os.Vm.Spaces.{IsReady, IsDefined, placed, as_prepare_load-IsReady}
use cs325os.Vm.Moves.{three, three-before, three-first, three-second, three-third}
use cs325os.Vm.Translate.{in_region, plain, translate-plain}

-- The byte at a physical address, as the kernel sees it.
abbrev pub at_paddr : Memory → ℕ → ℕ
at_paddr mem p = mem (p + kseg0)

-- `new` has the bytes of `old`, in pages from `low` up to `high`, and the memory below is as before.
pub record Copied (old new : Addrspace) (low high : ℕ) (mem mem' : Memory) : Type 0 where
  pub ready : IsReady new high
  pub reads :
      (va p : ℕ)
      → translate old va ≡ some p
      → (q : ℕ) × (translate new va ≡ some q)
        × (low ≤ q)
        × (q < high)
        × (at_paddr mem' q ≡ at_paddr mem p)
  pub misses : (va : ℕ) → translate old va ≡ none → translate new va ≡ none
  pub before : (p : ℕ) → p < low → at_paddr mem' p ≡ at_paddr mem p

abbrev fresh : Addrspace → Addrspace
fresh old = record as_create {
  vbase1 = old.vbase1;
  npages1 = old.npages1;
  vbase2 = old.vbase2;
  npages2 = old.npages2;
}

module _ (old : Addrspace) (r r' : Ram) (mem : Memory) (v : IsReady old r.firstpaddr)
    (w : IsReady (placed (fresh old) r.firstpaddr) r'.firstpaddr) where
  abbrev new : Addrspace
  new = placed (fresh old) r.firstpaddr

  copied_lem :
      copy_pages old new mem
      ≡ three
          (old.pbase1 + kseg0)
          (old.pbase2 + kseg0)
          (old.stackpbase + kseg0)
          (old.npages1 * page_size)
          (old.npages2 * page_size)
          (12 * page_size)
          (new.pbase1 + kseg0)
          (new.pbase2 + kseg0)
          (new.stackpbase + kseg0)
          mem
  unfolding copy_pages
  copied_lem =
      let a : (new.pbase1 + kseg0) % word ≡ new.pbase1 + kseg0 =
        omega (arith, w.next, w.last, w.below, w.small) in
      let b : (new.pbase2 + kseg0) % word ≡ new.pbase2 + kseg0 =
        omega (arith, w.last, w.below, w.small) in
      let c : (new.stackpbase + kseg0) % word ≡ new.stackpbase + kseg0 =
        omega (arith, w.below, w.small) in
      let d : (old.pbase1 + kseg0) % word ≡ old.pbase1 + kseg0 =
        omega (arith, v.next, v.last, v.below, v.small) in
      let e : (old.pbase2 + kseg0) % word ≡ old.pbase2 + kseg0 =
        omega (arith, v.last, v.below, v.small) in
      let f : (old.stackpbase + kseg0) % word ≡ old.stackpbase + kseg0 =
        omega (arith, v.below, v.small) in
      let g : old.npages1 * page_size % word ≡ old.npages1 * page_size = omega (arith, v.user1) in
      let k : old.npages2 * page_size % word ≡ old.npages2 * page_size = omega (arith, v.user2) in
      rw (a, b, c, d, e, f, g, k)

  from1 : old.pbase1 + kseg0 + old.npages1 * page_size ≤ new.pbase1 + kseg0
  from1 = omega (arith, v.next, v.last, v.below)

  from2 : old.pbase2 + kseg0 + old.npages2 * page_size ≤ new.pbase1 + kseg0
  from2 = omega (arith, v.last, v.below)

  from3 : old.stackpbase + kseg0 + 12 * page_size ≤ new.pbase1 + kseg0
  from3 = omega (arith, v.below)

  after1 : new.pbase1 + kseg0 + old.npages1 * page_size ≤ new.pbase2 + kseg0
  after1 = omega arith

  after2 : new.pbase2 + kseg0 + old.npages2 * page_size ≤ new.stackpbase + kseg0
  after2 = omega arith

  -- What a move of the pages `old_base` to `new_base` says of one byte.
  byte_lem :
      (old_base new_base o : ℕ)
      → three
          (old.pbase1 + kseg0)
          (old.pbase2 + kseg0)
          (old.stackpbase + kseg0)
          (old.npages1 * page_size)
          (old.npages2 * page_size)
          (12 * page_size)
          (new.pbase1 + kseg0)
          (new.pbase2 + kseg0)
          (new.stackpbase + kseg0)
          mem
          (new_base + kseg0 + o)
        ≡ mem (old_base + kseg0 + o)
      → at_paddr (copy_pages old new mem) (o + new_base) ≡ at_paddr mem (o + old_base)
  byte_lem old_base new_base o e =
      let q : o + new_base + kseg0 ≡ new_base + kseg0 + o = omega arith in
      let p : o + old_base + kseg0 ≡ old_base + kseg0 + o = omega arith in
      ap (λ m. m (o + new_base + kseg0)) copied_lem ∙ rw (q, p) e

  before_lem : (p : ℕ) → p < r.firstpaddr → at_paddr (copy_pages old new mem) p ≡ at_paddr mem p
  before_lem p lt =
      ap (λ m. m (p + kseg0)) copied_lem
      ∙ three-before (old.pbase1 + kseg0) (old.pbase2 + kseg0) (old.stackpbase + kseg0)
          (old.npages1 * page_size) (old.npages2 * page_size) (12 * page_size) (new.pbase1 + kseg0)
          (new.pbase2 + kseg0) (new.stackpbase + kseg0) mem from1 from2 from3 after1 after2
          (p + kseg0) (omega arith)

  first_lem :
      (o : ℕ)
      → o < old.npages1 * page_size
      → at_paddr (copy_pages old new mem) (o + new.pbase1) ≡ at_paddr mem (o + old.pbase1)
  first_lem o lt = byte_lem old.pbase1 new.pbase1 o (
      three-first (old.pbase1 + kseg0) (old.pbase2 + kseg0) (old.stackpbase + kseg0)
        (old.npages1 * page_size) (old.npages2 * page_size) (12 * page_size) (new.pbase1 + kseg0)
        (new.pbase2 + kseg0) (new.stackpbase + kseg0) mem from1 from2 from3 after1 after2 o lt)

  second_lem :
      (o : ℕ)
      → o < old.npages2 * page_size
      → at_paddr (copy_pages old new mem) (o + new.pbase2) ≡ at_paddr mem (o + old.pbase2)
  second_lem o lt = byte_lem old.pbase2 new.pbase2 o (
      three-second (old.pbase1 + kseg0) (old.pbase2 + kseg0) (old.stackpbase + kseg0)
        (old.npages1 * page_size) (old.npages2 * page_size) (12 * page_size) (new.pbase1 + kseg0)
        (new.pbase2 + kseg0) (new.stackpbase + kseg0) mem from1 from2 from3 after1 after2 o lt)

  third_lem :
      (o : ℕ)
      → o < 12 * page_size
      → at_paddr (copy_pages old new mem) (o + new.stackpbase) ≡ at_paddr mem (o + old.stackpbase)
  third_lem o lt = byte_lem old.stackpbase new.stackpbase o (
      three-third (old.pbase1 + kseg0) (old.pbase2 + kseg0) (old.stackpbase + kseg0)
        (old.npages1 * page_size) (old.npages2 * page_size) (12 * page_size) (new.pbase1 + kseg0)
        (new.pbase2 + kseg0) (new.stackpbase + kseg0) mem from1 from2 from3 after1 after2 o lt)

  Reads : Option ℕ → Option ℕ → Type 0
  Reads from to =
      (p : ℕ)
      → from ≡ some p
      → (q : ℕ) × (to ≡ some q)
        × (r.firstpaddr ≤ q)
        × (q < r'.firstpaddr)
        × (at_paddr (copy_pages old new mem) q ≡ at_paddr mem p)

  read_at :
      (o old_base new_base : ℕ)
      → r.firstpaddr ≤ new_base
      → o + new_base < r'.firstpaddr
      → at_paddr (copy_pages old new mem) (o + new_base) ≡ at_paddr mem (o + old_base)
      → Reads (some (o + old_base)) (some (o + new_base))
  unfolding Reads
  read_at o old_base new_base low high e p is_p =
      let same : o + old_base ≡ p = cc in
      (o + new_base, refl, omega arith, high, e ∙ ap (at_paddr mem) same)

  none_read : Reads none none
  unfolding Reads
  none_read p e = cc

  plain-Reads :
      (va : ℕ)
      → Reads
          (plain old.vbase1 old.npages1 old.vbase2 old.npages2 old va)
          (plain old.vbase1 old.npages1 old.vbase2 old.npages2 new va)
  plain-Reads va = elim (Bool-cases (in_region old.vbase1 old.npages1 va)) [
    | inl one ↦
        let lt : va - old.vbase1 < old.npages1 * page_size = ground (arith, one) in
        rw one (
          read_at (va - old.vbase1) old.pbase1 new.pbase1 (omega arith) (omega (arith, w.below))
            (first_lem (va - old.vbase1) lt))
    | inr not_one ↦ elim (Bool-cases (in_region old.vbase2 old.npages2 va)) [
      | inl two ↦
          let lt : va - old.vbase2 < old.npages2 * page_size = ground (arith, two) in
          rw (not_one, two)
            (read_at (va - old.vbase2) old.pbase2 new.pbase2 (omega arith) (omega (arith, w.below))
              (second_lem (va - old.vbase2) lt))
      | inr not_two ↦ elim (Bool-cases (leb stackbase va && ltb va userstack)) [
        | inl stack ↦
            let lt : va - stackbase < 12 * page_size = ground (arith, stack) in
            rw (not_one, not_two, stack)
              (read_at (va - stackbase) old.stackpbase new.stackpbase (omega arith)
                (omega (arith, w.below)) (third_lem (va - stackbase) lt))
        | inr no_stack ↦ rw (not_one, not_two, no_stack) none_read
      ]
    ]
  ]

  misses_lem :
      (va : ℕ)
      → plain old.vbase1 old.npages1 old.vbase2 old.npages2 old va ≡ none
      → plain old.vbase1 old.npages1 old.vbase2 old.npages2 new va ≡ none
  misses_lem va e = elim (Bool-cases (in_region old.vbase1 old.npages1 va)) [
    | inl one ↦ let found : some (va - old.vbase1 + old.pbase1) ≡ none = rw one at e in cc
    | inr not_one ↦ elim (Bool-cases (in_region old.vbase2 old.npages2 va)) [
      | inl two ↦
          let found : some (va - old.vbase2 + old.pbase2) ≡ none = rw (not_one, two) at e in cc
      | inr not_two ↦ elim (Bool-cases (leb stackbase va && ltb va userstack)) [
        | inl stack ↦
            let found : some (va - stackbase + old.stackpbase) ≡ none =
              rw (not_one, not_two, stack) at e in
            cc
        | inr no_stack ↦ rw (not_one, not_two, no_stack)
      ]
    ]
  ]

  copied : Copied old new r.firstpaddr r'.firstpaddr mem (copy_pages old new mem)
  unfolding Reads
  copied = record {
    ready = w;
    reads = λ va p e.
        let (q, is_q, low, high, same) =
          plain-Reads va p (sym (translate-plain old r.firstpaddr va v) ∙ e) in
        (q, translate-plain new r'.firstpaddr va w ∙ is_q, low, high, same);
    misses = λ va e.
        translate-plain new r'.firstpaddr va w
        ∙ misses_lem va (sym (translate-plain old r.firstpaddr va v) ∙ e);
    before = before_lem;
  }

fresh-IsDefined : (old : Addrspace) (top : ℕ) → IsReady old top → IsDefined (fresh old)
fresh-IsDefined old top v = record {
  none1 = refl;
  none2 = refl;
  none3 = refl;
  base1 = v.base1;
  base2 = v.base2;
  whole1 = v.whole1;
  whole2 = v.whole2;
  some1 = v.some1;
  some2 = v.some2;
  user1 = v.user1;
  user2 = v.user2;
}

-- Given a valid RAM and an address space that is ready, all pages of which were handed out before, and memory for the
-- structure, as_copy returns one of two results. Either it is a new address space, ready too: each
-- user address that the old one translates is translated to a page taken now, which holds the same byte; each other
-- address is in neither; and the memory of all pages handed out before is as it was. Or it is NULL with the memory as it
-- was, because fewer pages are left than the old one has.
pub as_copy-Copied :
    (r : Ram) (mem : Memory) (old : Addrspace)
    → Pages.IsValid r
    → IsReady old r.firstpaddr
    → ((new : Addrspace) × (r' : Ram) × (mem' : Memory) × (as_copy true r mem old
          ≡ ok (some new, r', mem'))
        × Copied old new r.firstpaddr r'.firstpaddr mem mem')
      ⊎ ((r' : Ram) × (as_copy true r mem old ≡ ok (none, r', mem))
          × (r.lastpaddr < r.firstpaddr + (old.npages1 + old.npages2 + 12) * page_size))
unfolding as_copy
as_copy-Copied r mem old rv v =
    elim (as_prepare_load-IsReady r (fresh old) rv (fresh-IsDefined old r.firstpaddr v)) [
      | inr (s', r', e, short) ↦ inr (r', rw e, short)
      | inl (r', e, w, rv') ↦
          let first : (r.firstpaddr == 0) ≡ false = ground (arith, rv.first) in
          let second : ((r.firstpaddr + old.npages1 * page_size) == 0) ≡ false =
            ground (arith, rv.first) in
          let third : ((r.firstpaddr + old.npages1 * page_size + old.npages2 * page_size) == 0)
              ≡ false =
            ground (arith, rv.first) in
          let s = placed (fresh old) r.firstpaddr in
          inl (s, r', copy_pages old s mem, rw (e, first, second, third), copied old r r' mem v w)
    ]
