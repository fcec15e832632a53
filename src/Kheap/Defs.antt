-- ===== src/Kheap/Defs.antt =====
-- The functions of kheap.c on pages and blocks, without the checks of SLOW and SLOWER. The two linked
-- lists of page references are lists of indices. `mem` is the memory by words: the free lists go
-- through it, and so may any other use of it.
use cs325os.Base.{
  replicate, ℕ, zero, suc, ◌+◌, ◌-◌, ◌*◌, ◌/◌, ◌%◌, Bool, true, false, not, ◌&&◌, ◌||◌, Option,
  none, some, ltb, leb, ◌==◌, if◌then◌else◌, List, [], ◌∷◌, Result, ok, panic, ◌>>=◌, ◌>>◌, assert,
  get_elem?,
}
use cs325os.Ram
use cs325os.Ram.{Ram, word, page_size}
use cs325os.Kheap.Refs.{Word, allocpageref, freepageref}

abbrev pub sizes : List ℕ
sizes = 16 ∷ 32 ∷ 64 ∷ 128 ∷ 256 ∷ 512 ∷ 1024 ∷ 2048 ∷ []

abbrev pub nsizes : ℕ
nsizes = 8

abbrev pub or_zero : Option ℕ → ℕ
or_zero none = 0
or_zero (some n) = n

-- `sizes[blktype]`
abbrev pub size_at : ℕ → ℕ
size_at b = or_zero (get_elem? sizes b)

abbrev pub largest_subpage_size : ℕ
largest_subpage_size = 2048

-- `INVALID_OFFSET`
abbrev pub invalid_offset : ℕ
invalid_offset = 0xffff

-- `struct pageref` without its links.
pub record Pageref : Type 0 where
  pub pageaddr_and_blocktype : ℕ
  pub freelist_offset : ℕ
  pub nfree : ℕ

-- `PR_PAGEADDR`, `PR_BLOCKTYPE` and `MKPAB`; `PAGE_FRAME` masks the low 12 bits away.
abbrev pub pr_pageaddr : Pageref → ℕ
pr_pageaddr pr = pr.pageaddr_and_blocktype / page_size * page_size

abbrev pub pr_blocktype : Pageref → ℕ
pr_blocktype pr = pr.pageaddr_and_blocktype % page_size

abbrev pub mkpab : ℕ → ℕ → ℕ
mkpab pa blk = pa / page_size * page_size + blk % page_size

-- The static variables of kheap.c, the memory, and what is left of the RAM.
pub record Kheap : Type 0 where
  pub pagerefs : ℕ → Pageref
  pub inuse : List Word
  pub sizebases : ℕ → List ℕ
  pub allbase : List ℕ
  pub mem : ℕ → ℕ
  pub ram : Ram

-- The static variables when the kernel starts.
abbrev pub boot : Ram → (ℕ → ℕ) → Kheap
boot ram mem = record {
  pagerefs = λ r. record { pageaddr_and_blocktype = 0; freelist_offset = 0; nfree = 0 };
  inuse = replicate 8 (replicate 32 false);
  sizebases = λ b. [];
  allbase = [];
  mem = mem;
  ram = ram;
}

abbrev pub put {ℓ} : {A : Type ℓ} → (ℕ → A) → ℕ → A → ℕ → A
put f k a n = if k == n then a else f n

-- The loop of `remove_lists`.
unfoldable pub unlink : ℕ → List ℕ → List ℕ
unlink pr [] = []
unlink pr (guy ∷ l) = if guy == pr then l else guy ∷ unlink pr l

unfoldable pub remove_lists : Kheap → ℕ → ℕ → Result Kheap
remove_lists h pr blktype = do
  assert (ltb blktype nsizes)
  ok (record h {
    sizebases = put h.sizebases blktype (unlink pr (h.sizebases blktype));
    allbase = unlink pr h.allbase;
  })

-- `blocktype`, from the size `i` on.
unfoldable pub blocktype_from : ℕ → List ℕ → ℕ → Result ℕ
blocktype_from i [] sz = panic
blocktype_from i (s ∷ l) sz = if leb sz s then ok i else blocktype_from (i + 1) l sz

unfoldable pub blocktype : ℕ → Result ℕ
blocktype sz = blocktype_from 0 sizes sz

-- The loop of `subpage_kmalloc` over the pages of one block size: the first with a free block.
unfoldable pub find_free : Kheap → ℕ → List ℕ → Result (Option ℕ)
find_free h blktype [] = ok none
find_free h blktype (pr ∷ l) = do
  assert (pr_blocktype (h.pagerefs pr) == blktype)
  if ltb 0 (h.pagerefs pr).nfree then ok (some pr) else find_free h blktype l

-- The offset of the next free block, once `fl` is the next pointer and `nfree` blocks are left.
unfoldable pub next_offset : ℕ → ℕ → ℕ → Result ℕ
next_offset prpage fl nfree =
    if fl == 0
    then assert (nfree == 0) >> ok invalid_offset
    else assert (ltb 0 nfree)
      >> assert (ltb ((fl + word - prpage) % word) page_size)
      >> ok ((fl + word - prpage) % word)

-- From the label `doalloc` on.
unfoldable pub doalloc : Kheap → ℕ → Result (ℕ × Kheap)
doalloc h pr = do
  let ref = h.pagerefs pr
  assert (ltb ref.freelist_offset page_size)
  let retptr = (pr_pageaddr ref + ref.freelist_offset) % word
  let nfree = (ref.nfree + 65536 - 1) % 65536
  offset ← next_offset (pr_pageaddr ref) (h.mem retptr) nfree
  ok (
    retptr,
    record h {
      pagerefs = put h.pagerefs pr (record ref { freelist_offset = offset; nfree = nfree });
    },
  )

-- The loop that links the blocks of a fresh page, from `i` with `n` rounds left: the last `fl` and the memory.
unfoldable pub link : ℕ → ℕ → ℕ → ℕ → ℕ → (ℕ → ℕ) → Result (ℕ × (ℕ → ℕ))
link zero i fla size last mem = ok (last, mem)
link (suc n) i fla size last mem = do
  let fl = (fla + i * size) % word
  let next = (fla + (i - 1) * size) % word
  assert (not (fl == next))
  link n (i + 1) fla size fl (put mem fl next)

-- A fresh page `prpage` under the reference `pr`.
unfoldable pub fill_page : Kheap → ℕ → ℕ → ℕ → Result Kheap
fill_page h pr prpage blktype = do
  let nfree = page_size / size_at blktype
  (fl, mem) ← link (nfree - 1) 1 prpage (size_at blktype) prpage (put h.mem prpage 0)
  let offset = (fl + word - prpage) % word % 65536
  assert (offset == (nfree - 1) * size_at blktype)
  ok (record h {
    pagerefs = put h.pagerefs pr (record {
      pageaddr_and_blocktype = mkpab prpage blktype;
      freelist_offset = offset;
      nfree = nfree;
    });
    sizebases = put h.sizebases blktype (pr ∷ h.sizebases blktype);
    allbase = pr ∷ h.allbase;
    mem = mem;
  })

-- The rest of `subpage_kmalloc` once it has the answer of `alloc_kpages`.
unfoldable pub with_page : Kheap → ℕ → ℕ → List Word → ℕ × Ram → Result (ℕ × Kheap)
with_page h blktype pr inuse (prpage, ram) =
    if prpage == 0
    then (freepageref inuse pr >>= λ inuse'. ok (0, record h { inuse = inuse'; ram = ram }))
    else fill_page (record h { inuse = inuse; ram = ram }) pr prpage blktype >>= λ h'. doalloc h' pr

-- No page of the size has a free block.
unfoldable pub new_page : Kheap → ℕ → Result (ℕ × Kheap)
new_page h blktype = do
  r ← allocpageref h.inuse
  elim r [
    | none ↦ ok (0, h)
    | some (pr, inuse) ↦ with_page h blktype pr inuse (Ram.alloc_kpages h.ram 1)
  ]

unfoldable pub subpage_kmalloc : Kheap → ℕ → Result (ℕ × Kheap)
subpage_kmalloc h sz = do
  blktype ← blocktype sz
  found ← find_free h blktype (h.sizebases blktype)
  elim found [ none ↦ new_page h blktype | some pr ↦ doalloc h pr ]

-- The loop of `subpage_kfree`: the page that holds the address.
unfoldable pub find_page : Kheap → ℕ → List ℕ → Result (Option ℕ)
find_page h ptraddr [] = ok none
find_page h ptraddr (pr ∷ l) = do
  let prpage = pr_pageaddr (h.pagerefs pr)
  assert (ltb (pr_blocktype (h.pagerefs pr)) nsizes)
  if leb prpage ptraddr && ltb ptraddr ((prpage + page_size) % word)
      then ok (some pr)
      else find_page h ptraddr l

-- `fill_deadbeef` of `n` words.
unfoldable pub fill_deadbeef : ℕ → ℕ → (ℕ → ℕ) → ℕ → ℕ
fill_deadbeef zero ptr mem = mem
fill_deadbeef (suc n) ptr mem = fill_deadbeef n (ptr + 4) (put mem ptr 0xdeadbeef)

-- What becomes of a page when all its blocks are free.
unfoldable pub release : Kheap → ℕ → ℕ → ℕ → Result Kheap
release h pr blktype prpage = do
  h' ← remove_lists h pr blktype
  inuse ← freepageref h'.inuse pr
  ok (record h' { inuse = inuse; ram = Ram.free_kpages h'.ram prpage })

-- The block at `offset` in the page of `pr` goes to the head of the free list.
unfoldable pub give_back : Kheap → ℕ → ℕ → Result Kheap
give_back h pr offset = do
  let ref = h.pagerefs pr
  let prpage = pr_pageaddr ref
  let blktype = pr_blocktype ref
  let fl = (prpage + offset) % word
  let nfree = (ref.nfree + 1) % 65536
  let next =
      if ref.freelist_offset == invalid_offset then 0 else (prpage + ref.freelist_offset) % word
  let h' = record h {
    pagerefs = put h.pagerefs pr (record ref { freelist_offset = offset; nfree = nfree });
    mem = put (fill_deadbeef (size_at blktype / 4) fl h.mem) fl next;
  }
  assert (leb nfree (page_size / size_at blktype))
  if nfree == page_size / size_at blktype then release h' pr blktype prpage else ok h'

-- `subpage_kfree`: `false` for -1.
unfoldable pub subpage_kfree : Kheap → ℕ → Result (Bool × Kheap)
subpage_kfree h ptraddr = do
  found ← find_page h ptraddr h.allbase
  elim found [
    | none ↦ ok (false, h)
    | some pr ↦
        let ref = h.pagerefs pr in
        let offset = (ptraddr + word - pr_pageaddr ref) % word in
        if leb page_size offset || not (offset % size_at (pr_blocktype ref) == 0)
        then panic
        else give_back h pr offset >>= λ h'. ok (true, h')
  ]

abbrev pub paged : Kheap → ℕ × Ram → ℕ × Kheap
paged h (address, ram) = (address, record h { ram = ram })

-- `kmalloc`; 0 is NULL.
unfoldable pub kmalloc : Kheap → ℕ → Result (ℕ × Kheap)
kmalloc h sz =
    if leb largest_subpage_size sz
    then ok (paged h (Ram.alloc_kpages h.ram ((sz + page_size - 1) % word / page_size)))
    else subpage_kmalloc h sz

unfoldable pub kfree : Kheap → ℕ → Result Kheap
kfree h ptr =
    if ptr == 0
    then ok h
    else subpage_kfree h ptr >>= λ (freed, h').
        if freed
        then ok h'
        else assert (ptr % page_size == 0) >> ok (record h' { ram = Ram.free_kpages h'.ram ptr })
