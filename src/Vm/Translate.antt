-- ===== src/Vm/Translate.antt =====
-- kern/arch/mips/mips/dumbvm.c: translation in an address space that is ready.
use cs325os.Base.{
  ℕ, ◌+◌, ◌-◌, ◌*◌, ◌%◌, ◌≡◌, sym, ◌∙◌, inl, inr, Bool, ◌&&◌, Option, none, some, ltb, leb,
  Bool-cases, if◌then◌else◌, arith,
}
use cs325os.Ram.{word, page_size}
use cs325os.Vm.Defs.{Addrspace, translate, stackbase, userstack}
use cs325os.Vm.Spaces.{IsReady}

abbrev pub in_region : ℕ → ℕ → ℕ → Bool
in_region vbase npages va = leb vbase va && ltb va (vbase + npages * page_size)

-- `translate` where nothing wraps.
abbrev pub plain : ℕ → ℕ → ℕ → ℕ → Addrspace → ℕ → Option ℕ
plain vbase1 npages1 vbase2 npages2 s va =
    if in_region vbase1 npages1 va
    then some (va - vbase1 + s.pbase1)
    else if in_region vbase2 npages2 va
    then some (va - vbase2 + s.pbase2)
    else if leb stackbase va && ltb va userstack
    then some (va - stackbase + s.stackpbase)
    else none

pub translate-plain :
    (s : Addrspace) (top va : ℕ)
    → IsReady s top
    → translate s va ≡ plain s.vbase1 s.npages1 s.vbase2 s.npages2 s va
unfolding translate
translate-plain s top va v =
    let top1 : (s.vbase1 + s.npages1 * page_size) % word ≡ s.vbase1 + s.npages1 * page_size =
      omega (arith, v.user1) in
    let top2 : (s.vbase2 + s.npages2 * page_size) % word ≡ s.vbase2 + s.npages2 * page_size =
      omega (arith, v.user2) in
    elim (Bool-cases (in_region s.vbase1 s.npages1 va)) [
      | inl one ↦
          let at : (va - s.vbase1 + s.pbase1) % word ≡ va - s.vbase1 + s.pbase1 =
            ground (arith, v.user1, v.next, v.last, v.below, v.small, one) in
          rw (top1, one, at)
      | inr not_one ↦ elim (Bool-cases (in_region s.vbase2 s.npages2 va)) [
        | inl two ↦
            let at : (va - s.vbase2 + s.pbase2) % word ≡ va - s.vbase2 + s.pbase2 =
              ground (arith, v.user2, v.last, v.below, v.small, two) in
            rw (top1, top2, not_one, two, at)
        | inr not_two ↦ elim (Bool-cases (leb stackbase va && ltb va userstack)) [
          | inl three ↦
              let at : (va - stackbase + s.stackpbase) % word ≡ va - stackbase + s.stackpbase =
                ground (arith, v.below, v.small, three) in
              rw (top1, top2, not_one, not_two, three, at)
          | inr not_three ↦ rw (top1, top2, not_one, not_two, not_three)
        ]
      ]
    ]

-- The pages of an address space that is ready are whole.
pub translate_whole :
    (s : Addrspace) (top va p : ℕ)
    → IsReady s top
    → va % page_size ≡ 0
    → translate s va ≡ some p
    → p % page_size ≡ 0
translate_whole s top va p v whole e =
    let found = sym (translate-plain s top va v) ∙ e in
    elim (Bool-cases (in_region s.vbase1 s.npages1 va)) [
      | inl one ↦
          let is_p : some (va - s.vbase1 + s.pbase1) ≡ some p = rw one at found in
          let at : va - s.vbase1 + s.pbase1 ≡ p = cc in omega (arith, v.whole1, v.aligned1)
      | inr not_one ↦ elim (Bool-cases (in_region s.vbase2 s.npages2 va)) [
        | inl two ↦
            let is_p : some (va - s.vbase2 + s.pbase2) ≡ some p = rw (not_one, two) at found in
            let at : va - s.vbase2 + s.pbase2 ≡ p = cc in omega (arith, v.whole2, v.aligned2)
        | inr not_two ↦ elim (Bool-cases (leb stackbase va && ltb va userstack)) [
          | inl stack ↦
              let is_p : some (va - stackbase + s.stackpbase) ≡ some p =
                rw (not_one, not_two, stack) at found in
              let at : va - stackbase + s.stackpbase ≡ p = cc in omega (arith, v.aligned3)
          | inr no_stack ↦ let is_p : none ≡ some p = rw (not_one, not_two, no_stack) at found in cc
        ]
      ]
    ]
