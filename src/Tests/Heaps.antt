-- ===== src/Tests/Heaps.antt =====
-- A heap before its first use, and one with a page of four blocks.
use cs325os.Base.{
  Result, none, some, Option, ℕ, ◌≡◌, refl, Bool, true, false, ◌==◌, if◌then◌else◌, List, [], ◌∷◌,
  replicate, ok, panic, arith,
}
use cs325os.Ram
use cs325os.Ram.{Ram}
use cs325os.Ram.Pages as Pages
use cs325os.Kheap.{
  Kheap, Pageref, put, boot, new_page, allocpageref, allocpageref_from, take_bit, with_page,
  fill_page, link, kmalloc, kfree, blocktype, blocktype_from, subpage_kmalloc, find_free, doalloc,
  next_offset,
}
use cs325os.Kheap.Inv.{IsValid, Live}
use cs325os.Kheap.Sizes.{by_size}
use cs325os.Kheap.Chain.{has}
use cs325os.Kheap.Spec.{Freed}
use cs325os.Kheap.Alloc.{Allocates, kmalloc-Allocates}
use cs325os.Kheap.Free.{kfree-Freed}
use cs325os.Kheap.Large.{kmalloc_wraps}
use cs325os.Kheap.Uses.{Uses, Safe, begin, request, Uses-Safe}
use cs325os.Kheap.Round.{kfree_astray}

abbrev some_ram : Ram
some_ram = record { firstpaddr = 0x30000; lastpaddr = 0x100000 }

some_ram-IsValid : Pages.IsValid some_ram
some_ram-IsValid = record {
  first = omega arith;
  aligned = refl;
  within = omega arith;
  small = omega arith;
}

abbrev no_ref : Pageref
no_ref = record { pageaddr_and_blocktype = 0; freelist_offset = 0; nfree = 0 }

abbrev unset : List Bool
unset = replicate 32 false

abbrev new_heap : Kheap
new_heap = record {
  pagerefs = λ r. no_ref;
  inuse = replicate 8 unset;
  sizebases = λ b. [];
  allbase = [];
  mem = λ a. 0;
  ram = some_ram;
}

abbrev nothing : ℕ → List ℕ
nothing r = []

new_heap-IsValid : IsValid new_heap nothing
new_heap-IsValid = record {
  ram = some_ram-IsValid;
  each = λ r e. absurd (ground (arith, e));
  apart = λ r q e. absurd (ground (arith, e));
  sorted = λ b lt. refl;
  once = tt;
  used = λ r e. absurd (ground (arith, e));
  table = record {
    words = refl;
    bits = (refl, (refl, (refl, (refl, (refl, (refl, (refl, (refl, tt))))))));
  };
}

-- Blocks of 1024 bytes at 0x80020000; the last is free and the other three are given out.
abbrev one_ref : Pageref
one_ref = record { pageaddr_and_blocktype = 0x80020006; freelist_offset = 3072; nfree = 1 }

abbrev one_page : Kheap
one_page = record {
  pagerefs = λ r. one_ref;
  inuse = (true ∷ replicate 31 false) ∷ replicate 7 unset;
  sizebases = λ b. if b == 6 then 0 ∷ [] else [];
  allbase = 0 ∷ [];
  mem = λ a. 0;
  ram = some_ram;
}

abbrev one_free : ℕ → List ℕ
one_free r = 3 ∷ []

zero_only : (r : ℕ) → has r (0 ∷ []) ≡ true → r ≡ 0
zero_only r e = ground (arith, e)

one_page-IsValid : IsValid one_page one_free
one_page-IsValid = record {
  ram = some_ram-IsValid;
  each = λ r e. record {
    typed = omega arith;
    low = omega arith;
    high = omega arith;
    count = refl;
    start = refl;
    links = (refl, tt);
    below = (omega arith, tt);
    unique = (refl, tt);
  };
  apart = λ r q e e' ne. absurd (ne (ground (arith, zero_only r e, zero_only q e')));
  sorted =
      by_size (λ b. one_page.sizebases b ≡ (if 6 == b then 0 ∷ [] else [])) refl refl refl refl refl
        refl refl refl;
  once = (refl, tt);
  used = λ r e. let at = zero_only r e in rw at;
  table = record {
    words = refl;
    bits = (refl, (refl, (refl, (refl, (refl, (refl, (refl, (refl, tt))))))));
  };
}

first_block : Live one_page one_free 0x80020000 1024
first_block = record {
  ref = 0;
  block = 0;
  listed = refl;
  inside = omega arith;
  taken = refl;
  at = refl;
  bytes = refl;
}

third_block : Live one_page one_free 0x80020800 1024
third_block = record {
  ref = 0;
  block = 2;
  listed = refl;
  inside = omega arith;
  taken = refl;
  at = refl;
  bytes = refl;
}

kmalloc-Allocates_example : Allocates one_page one_free 700 (kmalloc one_page 700)
kmalloc-Allocates_example = kmalloc-Allocates one_page one_free 700 one_page-IsValid (omega arith)

kfree-Freed_example :
    (h' : Kheap) × (free' : ℕ → List ℕ) × (kfree one_page 0x80020000 ≡ ok h')
    × Freed one_page one_free 0x80020000 h' free'
kfree-Freed_example = kfree-Freed one_page one_free 0x80020000 1024 one_page-IsValid first_block

abbrev after_take : Kheap
after_take = record one_page {
  pagerefs = put (λ r. one_ref) 0 (record one_ref { freelist_offset = 0xffff; nfree = 0 });
}

take_run : kmalloc one_page 700 ≡ ok (0x80020c00, after_take)
unfolding kmalloc subpage_kmalloc blocktype blocktype_from find_free doalloc next_offset
take_run = refl

kmalloc_wraps_example : kmalloc new_heap 0xfffff801 ≡ ok (0x80030000, new_heap)
kmalloc_wraps_example =
    kmalloc_wraps new_heap nothing 0xfffff801 new_heap-IsValid (omega arith) (omega arith)

kfree_astray_example : kfree one_page 0x80020004 ≡ panic
kfree_astray_example =
    kfree_astray one_page one_free 0 0x80020004 one_page-IsValid refl (omega arith) (omega arith)
      (omega arith)

abbrev heap_of : Result (ℕ × Kheap) → Kheap
heap_of (ok (p, h)) = h
heap_of r = new_heap

abbrev first_use : Kheap
first_use = boot some_ram (λ a. 0)

first_run : kmalloc first_use 1500 ≡ ok (0x80030800, heap_of (kmalloc first_use 1500))
unfolding kmalloc subpage_kmalloc blocktype blocktype_from find_free new_page allocpageref
    allocpageref_from take_bit with_page fill_page link doalloc next_offset Ram.alloc_kpages
    Ram.getppages Ram.stealmem
first_run = refl

abbrev first_left : Kheap
first_left = heap_of (kmalloc first_use 1500)

one_request : Uses first_left (put (λ p. none) 0x80030800 (some 1500))
one_request =
    request 1500 0x80030800 (begin some_ram (λ a. 0) some_ram-IsValid) (omega arith) first_run
      (omega arith)

-- The stack of a thread.
abbrev second_left : Kheap
second_left = heap_of (kmalloc first_left 4096)

second_run : kmalloc first_left 4096 ≡ ok (0x80031000, second_left)
unfolding kmalloc subpage_kmalloc blocktype blocktype_from find_free new_page allocpageref
    allocpageref_from take_bit with_page fill_page link doalloc next_offset Ram.alloc_kpages
    Ram.getppages Ram.stealmem
second_run = refl

abbrev both : ℕ → Option ℕ
both = put (put (λ p. none) 0x80030800 (some 1500)) 0x80031000 (some 4096)

two_requests : Uses second_left both
two_requests = request 4096 0x80031000 one_request (omega arith) second_run (omega arith)

Uses-Safe_example : Safe second_left both
Uses-Safe_example = Uses-Safe second_left both two_requests
