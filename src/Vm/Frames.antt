-- ===== src/Vm/Frames.antt =====
-- kern/arch/mips/mips/dumbvm.c: the frame that vm_fault loads, by the pages of the regions.
use cs325os.Base.{
  ℕ, ◌+◌, ◌-◌, ◌*◌, ◌/◌, ◌%◌, ◌≤◌, ◌<◌, ◌≡◌, ◌≢◌, refl, sym, ◌∙◌, inl, inr, true, false, ◌&&◌, none,
  some, leb, ltb, ◌==◌, Bool-cases, if◌then◌else◌, Result, ok, efault, arith,
}
use cs325os.Ram.{page_size}
use cs325os.Vm.Defs.{
  Addrspace, Tlb, read, write, translate, vm_fault, page_frame, stackbase, userstack,
}
use cs325os.Vm.Spaces.{IsReady}
use cs325os.Vm.Translate.{in_region, translate-plain}
use cs325os.Vm.Faults.{Outcome, lookup, is_full, vm_fault_lem}

-- `va` is none of the `n` pages from `base` on.
abbrev pub Apart : ℕ → ℕ → ℕ → Type 0
Apart base n va = (i : ℕ) → i < n → va ≢ base + i * 4096

-- The page `va` of the address space is in the frame `p`: the page `i` of a region is in the
-- frame `i` of the region's, the stack is the 12 pages below 2 ^ 31, and the first region goes before the
-- second and the second before the stack.
pub data Maps (s : Addrspace) (va p : ℕ) : Type 0 where
  first : (i : ℕ) → i < s.npages1 → va ≡ s.vbase1 + i * 4096 → p ≡ s.pbase1 + i * 4096 → Maps s va p
  second :
      (i : ℕ)
      → Apart s.vbase1 s.npages1 va
      → i < s.npages2
      → va ≡ s.vbase2 + i * 4096
      → p ≡ s.pbase2 + i * 4096
      → Maps s va p
  stack :
      (i : ℕ)
      → Apart s.vbase1 s.npages1 va
      → Apart s.vbase2 s.npages2 va
      → i < 12
      → va ≡ 0x7fff4000 + i * 4096
      → p ≡ s.stackpbase + i * 4096
      → Maps s va p

-- The page `va` is in no region.
pub record Unmapped (s : Addrspace) (va : ℕ) : Type 0 where
  pub not_first : Apart s.vbase1 s.npages1 va
  pub not_second : Apart s.vbase2 s.npages2 va
  pub not_stack : Apart 0x7fff4000 12 va

-- What vm_fault answers to an access of the page `va`.
pub data Answer (s : Addrspace) (tlb : Tlb) (va : ℕ) (result : Result (ℕ × Tlb)) : Type 0 where
  unmapped : Unmapped s va → result ≡ ok (efault, tlb) → Answer s tlb va result
  full : is_full tlb ≡ true → result ≡ ok (efault, tlb) → Answer s tlb va result
  loaded :
      (p : ℕ) (tlb' : Tlb)
      → Maps s va p
      → result ≡ ok (0, tlb')
      → ((x : ℕ) → lookup tlb' x ≡ (if va == x then some p else lookup tlb x))
      → Answer s tlb va result

not_in : (base n va : ℕ) → in_region base n va ≡ false → Apart base n va
not_in base n va out i lt at = let inside : i * 4096 < n * 4096 = omega arith in ground arith

page_in :
    (base n va : ℕ)
    → in_region base n va ≡ true
    → va % page_size ≡ 0
    → base % page_size ≡ 0
    → (i : ℕ) × (i < n) × (va ≡ base + i * 4096)
page_in base n va inside whole aligned =
    let low : base ≤ va = ground arith in
    let high : va < base + n * 4096 = ground arith in ((va - base) / 4096, omega arith, omega arith)

translate-Maps :
    (s : Addrspace) (top va p : ℕ)
    → IsReady s top
    → va % page_size ≡ 0
    → translate s va ≡ some p
    → Maps s va p
translate-Maps s top va p v whole e =
    let found = sym (translate-plain s top va v) ∙ e in
    elim (Bool-cases (in_region s.vbase1 s.npages1 va)) [
      | inl one ↦
          let is_p : some (va - s.vbase1 + s.pbase1) ≡ some p = rw one at found in
          let at : va - s.vbase1 + s.pbase1 ≡ p = cc in
          let (i, lt, here) = page_in s.vbase1 s.npages1 va one whole v.whole1 in
          first i lt here (omega arith)
      | inr not_one ↦ elim (Bool-cases (in_region s.vbase2 s.npages2 va)) [
        | inl two ↦
            let is_p : some (va - s.vbase2 + s.pbase2) ≡ some p = rw (not_one, two) at found in
            let at : va - s.vbase2 + s.pbase2 ≡ p = cc in
            let (i, lt, here) = page_in s.vbase2 s.npages2 va two whole v.whole2 in
            second i (not_in s.vbase1 s.npages1 va not_one) lt here (omega arith)
        | inr not_two ↦ elim (Bool-cases (leb stackbase va && ltb va userstack)) [
          | inl three ↦
              let is_p : some (va - stackbase + s.stackpbase) ≡ some p =
                rw (not_one, not_two, three) at found in
              let at : va - stackbase + s.stackpbase ≡ p = cc in
              let (i, lt, here) = page_in 0x7fff4000 12 va three whole refl in
              stack i (not_in s.vbase1 s.npages1 va not_one) (not_in s.vbase2 s.npages2 va not_two)
                lt here (omega arith)
          | inr not_three ↦
              let is_p : none ≡ some p = rw (not_one, not_two, not_three) at found in cc
        ]
      ]
    ]

translate-Unmapped :
    (s : Addrspace) (top va : ℕ) → IsReady s top → translate s va ≡ none → Unmapped s va
translate-Unmapped s top va v e =
    let found = sym (translate-plain s top va v) ∙ e in
    elim (Bool-cases (in_region s.vbase1 s.npages1 va)) [
      | inl one ↦ let is_p : some (va - s.vbase1 + s.pbase1) ≡ none = rw one at found in cc
      | inr not_one ↦ elim (Bool-cases (in_region s.vbase2 s.npages2 va)) [
        | inl two ↦
            let is_p : some (va - s.vbase2 + s.pbase2) ≡ none = rw (not_one, two) at found in cc
        | inr not_two ↦ elim (Bool-cases (leb stackbase va && ltb va userstack)) [
          | inl three ↦
              let is_p : some (va - stackbase + s.stackpbase) ≡ none =
                rw (not_one, not_two, three) at found in
              cc
          | inr not_three ↦ record {
            not_first = not_in s.vbase1 s.npages1 va not_one;
            not_second = not_in s.vbase2 s.npages2 va not_two;
            not_stack = not_in 0x7fff4000 12 va not_three;
          }
        ]
      ]
    ]

Outcome-Answer :
    (s : Addrspace) (top : ℕ) (tlb : Tlb) (va : ℕ) (result : Result (ℕ × Tlb))
    → IsReady s top
    → va % page_size ≡ 0
    → Outcome s tlb va result
    → Answer s tlb va result
Outcome-Answer s top tlb va result v whole (Outcome.unmapped nowhere e) =
    unmapped (translate-Unmapped s top va v nowhere) e
Outcome-Answer s top tlb va result v whole (Outcome.full no_room e) = full no_room e
Outcome-Answer s top tlb va result v whole (Outcome.loaded p tlb' there e found) =
    loaded p tlb' (translate-Maps s top va p v whole there) e found

-- When a user program reads or writes a page that the TLB does not have, vm_fault in an address space that is ready
-- either returns 0 and has loaded the frame of the page, so that the TLB finds it and finds all other
-- pages as before: the page number i of a region is in the frame number i of that region. Or it
-- returns EFAULT and changes nothing, and the page is in neither region nor one of the 12 of the stack, or no
-- entry of the TLB is free.
pub vm_fault-Answer :
    (s : Addrspace) (top : ℕ) (tlb : Tlb) (faultaddress : ℕ)
    → IsReady s top
    → lookup tlb (page_frame faultaddress) ≡ none
    → Answer s tlb (page_frame faultaddress) (vm_fault (some s) tlb read faultaddress)
      × Answer s tlb (page_frame faultaddress) (vm_fault (some s) tlb write faultaddress)
vm_fault-Answer s top tlb faultaddress v miss =
    let va = page_frame faultaddress in
    let whole : page_frame faultaddress % page_size ≡ 0 = omega arith in
    let (a, b) = vm_fault_lem s top tlb faultaddress v miss in
    (
      Outcome-Answer s top tlb va (vm_fault (some s) tlb read faultaddress) v whole a,
      Outcome-Answer s top tlb va (vm_fault (some s) tlb write faultaddress) v whole b,
    )
