-- ===== src/Vm/Faults.antt =====
-- kern/arch/mips/mips/dumbvm.c: vm_fault and as_activate keep the TLB in step with the address space.
use cs325os.Base.{
  ℕ, ◌+◌, ◌%◌, ◌≡◌, refl, sym, ap, ◌∙◌, subst, ◌⊎◌, inl, inr, Bool, true, false, ◌&&◌, Option, none,
  some, ◌==◌, Bool-cases, Option-cases, if◌then◌else◌, [], ◌∷◌, Result, ok, efault, arith,
}
use cs325os.Ram.{page_size}
use cs325os.Vm.Defs.{
  Addrspace, Tlb, Faulttype, read, write, is_set, translate, write_entry, set_up, paged, load_tlb,
  fault_in, vm_fault, page_frame, invalid_from, as_activate,
}
use cs325os.Vm.Spaces.{IsReady}
use cs325os.Vm.Translate.{translate_whole}

-- What the processor finds in the TLB for a page: the frame of the first valid entry with its address.
abbrev pub lookup : Tlb → ℕ → Option ℕ
lookup [] x = none
lookup ((ehi, elo) ∷ tlb) x =
    let rest = lookup tlb x in
    if is_set elo then (if ehi == x then some (page_frame elo) else rest) else rest

-- No entry is free.
abbrev pub is_full : Tlb → Bool
is_full [] = true
is_full ((ehi, elo) ∷ tlb) = is_set elo && is_full tlb

-- The TLB finds only what the address space has.
abbrev pub Sound : Addrspace → Tlb → Type 0
Sound s tlb = (x q : ℕ) → lookup tlb x ≡ some q → translate s x ≡ some q

shifted :
    (ehi elo va p x : ℕ) (tlb tlb' : Tlb)
    → is_set elo ≡ true
    → (ehi == va) ≡ false
    → lookup tlb' x ≡ (if va == x then some p else lookup tlb x)
    → lookup ((ehi, elo) ∷ tlb') x ≡ (if va == x then some p else lookup ((ehi, elo) ∷ tlb) x)
shifted ehi elo va p x tlb tlb' taken other e = elim (Bool-cases (ehi == x)) [
  | inl hit ↦ let not_va : (va == x) ≡ false = ground arith in rw (taken, hit, not_va)
  | inr miss ↦ rw (taken, miss) e
]

write_entry_lem :
    (va p : ℕ) (tlb : Tlb)
    → p % page_size ≡ 0
    → lookup tlb va ≡ none
    → ((write_entry va p tlb ≡ none) × (is_full tlb ≡ true))
      ⊎ ((tlb' : Tlb) × (write_entry va p tlb ≡ some tlb')
          × ((x : ℕ) → lookup tlb' x ≡ (if va == x then some p else lookup tlb x)))
unfolding write_entry
write_entry_lem va p [] whole miss = inl (refl, refl)
write_entry_lem va p ((ehi, elo) ∷ tlb) whole miss = elim (Bool-cases (is_set elo)) [
  | inr free ↦
      let set_now : is_set (p + 0x400 + 0x200) ≡ true = ground arith in
      let frame : page_frame (p + 0x400 + 0x200) ≡ p = omega arith in
      inr ((va, p + 0x400 + 0x200) ∷ tlb, rw free, λ x. rw (set_now, frame, free))
  | inl taken ↦ elim (Bool-cases (ehi == va)) [
    | inl hit ↦ let found : some (page_frame elo) ≡ none = rw (taken, hit) at miss in cc
    | inr other ↦
        let deeper : lookup tlb va ≡ none = rw (taken, other) at miss in
        elim (write_entry_lem va p tlb whole deeper) [
          | inl (e, full) ↦ inl (rw (taken, e), rw (taken, full))
          | inr (tlb', e, found) ↦ inr (
            (ehi, elo) ∷ tlb',
            rw (taken, e),
            λ x. shifted ehi elo va p x tlb tlb' taken other (found x),
          )
        ]
  ]
]

-- What vm_fault answers to an access of the page `va`.
pub data Outcome (s : Addrspace) (tlb : Tlb) (va : ℕ) (result : Result (ℕ × Tlb)) : Type 0 where
  unmapped : translate s va ≡ none → result ≡ ok (efault, tlb) → Outcome s tlb va result
  full : is_full tlb ≡ true → result ≡ ok (efault, tlb) → Outcome s tlb va result
  loaded :
      (p : ℕ) (tlb' : Tlb)
      → translate s va ≡ some p
      → result ≡ ok (0, tlb')
      → ((x : ℕ) → lookup tlb' x ≡ (if va == x then some p else lookup tlb x))
      → Outcome s tlb va result

checks_lem : (s : Addrspace) (top : ℕ) → IsReady s top → (set_up s ≡ true) × (paged s ≡ true)
checks_lem s top v =
    let a : (s.vbase1 == 0) ≡ false = ground (arith, v.base1) in
    let b : (s.pbase1 == 0) ≡ false = ground (arith, v.page1) in
    let c : (s.npages1 == 0) ≡ false = ground (arith, v.some1) in
    let d : (s.vbase2 == 0) ≡ false = ground (arith, v.base2) in
    let e : (s.pbase2 == 0) ≡ false = ground (arith, v.page1, v.next) in
    let f : (s.npages2 == 0) ≡ false = ground (arith, v.some2) in
    let g : (s.stackpbase == 0) ≡ false = ground (arith, v.page1, v.next, v.last) in
    let i : (page_frame s.vbase1 == s.vbase1) ≡ true = ground (arith, v.whole1) in
    let j : (page_frame s.pbase1 == s.pbase1) ≡ true = ground (arith, v.aligned1) in
    let k : (page_frame s.vbase2 == s.vbase2) ≡ true = ground (arith, v.whole2) in
    let l : (page_frame s.pbase2 == s.pbase2) ≡ true = ground (arith, v.aligned2) in
    let m : (page_frame s.stackpbase == s.stackpbase) ≡ true = ground (arith, v.aligned3) in
    (rw (a, b, c, d, e, f, g), rw (i, j, k, l, m))

fault_in-Outcome :
    (s : Addrspace) (top : ℕ) (tlb : Tlb) (va : ℕ)
    → IsReady s top
    → va % page_size ≡ 0
    → lookup tlb va ≡ none
    → Outcome s tlb va (fault_in (some s) tlb va)
unfolding fault_in load_tlb
fault_in-Outcome s top tlb va v whole miss =
    let (checked, aligned) = checks_lem s top v in
    elim (Option-cases (translate s va)) [
      | inl nowhere ↦ unmapped nowhere (rw (checked, aligned, nowhere))
      | inr (p, there) ↦
          let frame = translate_whole s top va p v whole there in
          let same : (page_frame p == p) ≡ true = ground arith in
          elim (write_entry_lem va p tlb frame miss) [
            | inl (e, no_room) ↦ full no_room (rw (checked, aligned, there, same, e))
            | inr (tlb', e, found) ↦
                loaded p tlb' there (rw (checked, aligned, there, same, e)) found
          ]
    ]

-- When a user program reads or writes a page that the TLB does not have, vm_fault in an address space that is ready
-- loads the page's frame into a free entry, so that the TLB finds it and finds all others as
-- before, and returns 0; it returns EFAULT and changes nothing if the page is in no region or the TLB is full.
pub vm_fault_lem :
    (s : Addrspace) (top : ℕ) (tlb : Tlb) (faultaddress : ℕ)
    → IsReady s top
    → lookup tlb (page_frame faultaddress) ≡ none
    → Outcome s tlb (page_frame faultaddress) (vm_fault (some s) tlb read faultaddress)
      × Outcome s tlb (page_frame faultaddress) (vm_fault (some s) tlb write faultaddress)
unfolding vm_fault
vm_fault_lem s top tlb faultaddress v miss =
    let whole : page_frame faultaddress % page_size ≡ 0 = omega arith in
    let a = fault_in-Outcome s top tlb (page_frame faultaddress) v whole miss in (a, a)

-- The TLB in the time that an address space is active: a fault is of a page that it does not have.
pub data Faults (s : Addrspace) : Tlb → Tlb → Type 0 where
  idle : {tlb : Tlb} → Faults s tlb tlb
  fault :
      {tlb tlb1 tlb2 : Tlb} (k : Faulttype) (a e : ℕ)
      → Faults s tlb tlb1
      → lookup tlb1 (page_frame a) ≡ none
      → vm_fault (some s) tlb1 k a ≡ ok (e, tlb2)
      → Faults s tlb tlb2

Outcome-Sound :
    (s : Addrspace) (tlb tlb' : Tlb) (va e : ℕ) (result : Result (ℕ × Tlb))
    → Sound s tlb
    → Outcome s tlb va result
    → result ≡ ok (e, tlb')
    → Sound s tlb'
Outcome-Sound s tlb tlb' va e result sound (unmapped u r) is_ok =
    let same : tlb ≡ tlb' = cc in subst (Sound s) same sound
Outcome-Sound s tlb tlb' va e result sound (full u r) is_ok =
    let same : tlb ≡ tlb' = cc in subst (Sound s) same sound
Outcome-Sound s tlb tlb' va e result sound (loaded p tlb1 there r found) is_ok =
    let same : tlb1 ≡ tlb' = cc in
    subst (Sound s) same λ x q at. elim (Bool-cases (va == x)) [
      | inl hit ↦
          let now : some p ≡ some q = sym (found x ∙ rw hit) ∙ at in
          let here : va ≡ x = ground arith in sym (ap (translate s) here) ∙ there ∙ now
      | inr other ↦ sound x q (sym (found x ∙ rw other) ∙ at)
    ]

cleared : (i : ℕ) (tlb : Tlb) (x : ℕ) → lookup (invalid_from i tlb) x ≡ none
unfolding invalid_from
cleared i [] x = refl
cleared i (e ∷ tlb) x = cleared (i + 1) tlb x

refused_lem :
    (s : Addrspace) (tlb : Tlb) (a : ℕ) {e : ℕ} {tlb' : Tlb}
    → vm_fault (some s) tlb Faulttype.readonly a ≡ ok (e, tlb')
    → ⊥
unfolding vm_fault
refused_lem s tlb a r = cc

ignored_lem :
    (s : Addrspace) (tlb : Tlb) (a : ℕ) {e : ℕ} {tlb' : Tlb}
    → vm_fault (some s) tlb Faulttype.unknown a ≡ ok (e, tlb')
    → tlb ≡ tlb'
unfolding vm_fault
ignored_lem s tlb a r = cc

step-Sound :
    (s : Addrspace) (top : ℕ) (tlb tlb' : Tlb) (k : Faulttype) (a e : ℕ)
    → IsReady s top
    → Sound s tlb
    → lookup tlb (page_frame a) ≡ none
    → vm_fault (some s) tlb k a ≡ ok (e, tlb')
    → Sound s tlb'
step-Sound s top tlb tlb' Faulttype.read a e v sound miss r =
    Outcome-Sound s tlb tlb' (page_frame a) e (vm_fault (some s) tlb read a) sound
      (vm_fault_lem s top tlb a v miss).0 r
step-Sound s top tlb tlb' Faulttype.write a e v sound miss r =
    Outcome-Sound s tlb tlb' (page_frame a) e (vm_fault (some s) tlb write a) sound
      (vm_fault_lem s top tlb a v miss).1 r
step-Sound s top tlb tlb' Faulttype.readonly a e v sound miss r = absurd (refused_lem s tlb a r)
step-Sound s top tlb tlb' Faulttype.unknown a e v sound miss r =
    subst (Sound s) (ignored_lem s tlb a r) sound

run-Sound :
    (s : Addrspace) (top : ℕ) (tlb tlb' : Tlb)
    → IsReady s top
    → Sound s tlb
    → Faults s tlb tlb'
    → Sound s tlb'
run-Sound s top tlb tlb' v sound idle = sound
run-Sound s top tlb tlb' v sound (fault {tlb1 = tlb1} k a e before miss r) =
    step-Sound s top tlb1 tlb' k a e v (run-Sound s top tlb tlb1 v sound before) miss r

-- From as_activate on, whatever faults an active address space that is ready takes, the TLB never finds another frame
-- than the address space has.
pub Faults-Sound :
    (s : Addrspace) (top : ℕ) (tlb tlb' : Tlb)
    → IsReady s top
    → Faults s (as_activate tlb) tlb'
    → Sound s tlb'
unfolding as_activate
Faults-Sound s top tlb tlb' v run =
    run-Sound s top (invalid_from 0 tlb) tlb' v (λ x q at. let none_there = cleared 0 tlb x in cc)
      run
