-- ===== src/Kheap/Round.antt =====
-- kern/lib/kheap.c: kmalloc and kfree together.
use cs325os.Base.{
  ℕ, ◌+◌, ◌-◌, ◌%◌, ◌≤◌, ◌<◌, ◌≡◌, ◌≢◌, ◌⊎◌, inl, inr, true, false, leb, ◌==◌, Bool-cases,
  if◌then◌else◌, List, ok, panic, arith,
}
use cs325os.Ram.{word, page_size, free_kpages}
use cs325os.Kheap.Defs.{Kheap, kfree, subpage_kfree}
use cs325os.Kheap.Chain.{has}
use cs325os.Kheap.Inv.{IsValid, Live, pabs, page_of, size_of, limit_small}
use cs325os.Kheap.Blocks.{Disjoint, Given-Disjoint}
use cs325os.Kheap.Find.{find_page_lem, find_page-none}
use cs325os.Kheap.Free.{IsValid-Placed}

-- In a valid heap, two blocks that are given out at different addresses do not meet.
pub Live-Disjoint :
    (h : Kheap) (free : ℕ → List ℕ) (a s a' s' : ℕ)
    → IsValid h free
    → Live h free a s
    → Live h free a' s'
    → a ≢ a'
    → Disjoint a s a' s'
Live-Disjoint h free a s a' s' v g g' ne =
    Given-Disjoint (pabs h) h.allbase v.apart (λ r e. (v.each r e).typed) g g' ne

-- In a valid heap, `kfree` of an address in one of the heap's pages that is not the start of a block
-- panics.
pub kfree_astray :
    (h : Kheap) (free : ℕ → List ℕ) (r p : ℕ)
    → IsValid h free
    → has r h.allbase ≡ true
    → page_of (pabs h r) ≤ p
    → p < page_of (pabs h r) + 4096
    → (p - page_of (pabs h r)) % size_of (pabs h r) ≢ 0
    → kfree h p ≡ panic
unfolding kfree subpage_kfree
kfree_astray h free r p v listed low high odd =
    let k = v.each r listed in
    let small = limit_small v in
    let some_block : (p == 0) ≡ false = ground (arith, k.low) in
    let found =
      find_page_lem h p h.allbase r (IsValid-Placed h free v) (λ q e ne. v.apart q r e listed ne)
        listed low high in
    let offset : (p + word - page_of (pabs h r)) % word ≡ p - page_of (pabs h r) =
      omega (arith, k.high) in
    let near : leb 4096 (p - page_of (pabs h r)) ≡ false = ground arith in
    let bad : ((p - page_of (pabs h r)) % size_of (pabs h r) == 0) ≡ false = ground arith in
    rw (some_block, found, offset, near, bad)

-- In a valid heap, `kfree` of an address in none of its pages changes nothing if the address is that of a
-- page or NULL, and panics if not.
pub kfree_elsewhere :
    (h : Kheap) (free : ℕ → List ℕ) (p : ℕ)
    → IsValid h free
    → ((r : ℕ)
        → has r h.allbase ≡ true
        → (p < page_of (pabs h r)) ⊎ (page_of (pabs h r) + 4096 ≤ p))
    → kfree h p ≡ (if p % page_size == 0 then ok h else panic)
unfolding kfree subpage_kfree free_kpages
kfree_elsewhere h free p v away =
    let lost = find_page-none h p h.allbase (IsValid-Placed h free v) away in
    elim (Bool-cases (p == 0)) [
      | inl null ↦ let whole : (p % 4096 == 0) ≡ true = ground arith in rw (null, whole)
      | inr some_block ↦ elim (Bool-cases (p % 4096 == 0)) [
        | inl whole ↦ rw (some_block, lost, whole)
        | inr part ↦ rw (some_block, lost, part)
      ]
    ]
