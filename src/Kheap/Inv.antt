-- ===== src/Kheap/Inv.antt =====
-- kern/lib/kheap.c: the invariant of the heap. `free` gives the free blocks of each page by its reference.
use cs325os.Base.{
  ℕ, ◌+◌, ◌*◌, ◌/◌, ◌%◌, ◌≤◌, ◌<◌, ◌≡◌, ◌≢◌, ◌⊎◌, true, false, ◌==◌, if◌then◌else◌, List, [], ◌∷◌,
  length, arith,
}
use cs325os.Ram.{page_size, kseg0, max_ram}
use cs325os.Ram.Pages as Pages
use cs325os.Kheap.Defs.{Kheap, Pageref, size_at}
use cs325os.Kheap.Bits.{IsTable, in_use}
use cs325os.Kheap.Sizes.{blocks_at}
use cs325os.Kheap.Chain.{offset_of, Links, AllBelow, Unique, has}

-- What `PR_PAGEADDR` and `PR_BLOCKTYPE` read from `pageaddr_and_blocktype`.
abbrev pub page_of : ℕ → ℕ
page_of v = v / page_size * page_size

abbrev pub type_of : ℕ → ℕ
type_of v = v % page_size

abbrev pub size_of : ℕ → ℕ
size_of v = size_at (type_of v)

abbrev pub blocks_of : ℕ → ℕ
blocks_of v = blocks_at (type_of v)

-- The address of the block `k` of a page.
abbrev pub block_at : ℕ → ℕ → ℕ
block_at v k = page_of v + k * size_of v

-- The reference describes a page below `limit` with the free blocks `ks`.
pub record RefOk (pr : Pageref) (mem : ℕ → ℕ) (limit : ℕ) (ks : List ℕ) : Type 0 where
  pub typed : type_of pr.pageaddr_and_blocktype < 8
  pub low : kseg0 < page_of pr.pageaddr_and_blocktype
  pub high : page_of pr.pageaddr_and_blocktype + 4096 ≤ limit
  pub count : pr.nfree ≡ length ks
  pub start : pr.freelist_offset ≡ offset_of (size_of pr.pageaddr_and_blocktype) ks
  pub links : Links mem (page_of pr.pageaddr_and_blocktype) (size_of pr.pageaddr_and_blocktype) ks
  pub below : AllBelow (blocks_of pr.pageaddr_and_blocktype) ks
  pub unique : Unique ks

-- `pageaddr_and_blocktype` of every reference.
abbrev pub pabs : Kheap → ℕ → ℕ
pabs h r = (h.pagerefs r).pageaddr_and_blocktype

-- The references of `l` to pages of the block size `b`.
abbrev pub of_type : (ℕ → ℕ) → ℕ → List ℕ → List ℕ
of_type pab b [] = []
of_type pab b (r ∷ l) =
    let rest = of_type pab b l in if type_of (pab r) == b then r ∷ rest else rest

-- No two references of `l` are to the same page.
abbrev pub PagesApart : (ℕ → ℕ) → List ℕ → Type 0
PagesApart pab l =
    (r q : ℕ) → has r l ≡ true → has q l ≡ true → r ≢ q → page_of (pab r) ≢ page_of (pab q)

abbrev pub Sorted : (ℕ → ℕ) → (ℕ → List ℕ) → List ℕ → Type 0
Sorted pab sizebases l = (b : ℕ) → b < 8 → sizebases b ≡ of_type pab b l

abbrev pub limit : Kheap → ℕ
limit h = h.ram.firstpaddr + kseg0

-- Each listed reference is in use and describes a page of its own, the lists by size are those
-- of the list of all, and the free list in each page is that of its free blocks.
pub record IsValid (h : Kheap) (free : ℕ → List ℕ) : Type 0 where
  pub ram : Pages.IsValid h.ram
  pub each : (r : ℕ) → has r h.allbase ≡ true → RefOk (h.pagerefs r) h.mem (limit h) (free r)
  pub apart : PagesApart (pabs h) h.allbase
  pub sorted : Sorted (pabs h) h.sizebases h.allbase
  pub once : Unique h.allbase
  pub used : (r : ℕ) → has r h.allbase ≡ true → in_use h.inuse r ≡ true
  pub table : IsTable h.inuse

-- The `sz` bytes from `p` on are in none of the heap's pages.
abbrev pub Clear : Kheap → ℕ → ℕ → Type 0
Clear h p sz =
    (r : ℕ)
    → has r h.allbase ≡ true
    → (page_of (pabs h r) + 4096 ≤ p) ⊎ (p + sz ≤ page_of (pabs h r))

-- On the pages `l`, there is a block of `s` bytes at `a`, and it is not free.
pub record Given (pab : ℕ → ℕ) (l : List ℕ) (free : ℕ → List ℕ) (a s : ℕ) : Type 0 where
  pub ref : ℕ
  pub block : ℕ
  pub listed : has ref l ≡ true
  pub inside : block < blocks_of (pab ref)
  pub taken : has block (free ref) ≡ false
  pub at : a ≡ block_at (pab ref) block
  pub bytes : s ≡ size_of (pab ref)

-- The heap has given out the block of `s` bytes at `a`.
abbrev pub Live : Kheap → (ℕ → List ℕ) → ℕ → ℕ → Type 0
Live h free a s = Given (pabs h) h.allbase free a s

pub limit_small : {h : Kheap} {free : ℕ → List ℕ} → IsValid h free → limit h ≤ kseg0 + max_ram
limit_small v = omega (arith, v.ram.within, v.ram.small)
