-- ===== src/Ram/Defs.antt =====
-- The functions of ram.c, and those of dumbvm.c that hand its pages to the kernel. Addresses are 32-bit
-- words.
use cs325os.Base.{ℕ, ◌+◌, ◌-◌, ◌*◌, ◌%◌, ◌^◌, ltb, ◌==◌, if◌then◌else◌}

abbrev pub word : ℕ
word = 2 ^ 32

abbrev pub page_size : ℕ
page_size = 4096

-- `MIPS_KSEG0`: where the kernel sees physical memory.
abbrev pub kseg0 : ℕ
kseg0 = 0x80000000

-- The static variables of ram.c.
pub record Ram : Type 0 where
  pub firstpaddr : ℕ
  pub lastpaddr : ℕ

-- 508 megabytes.
abbrev pub max_ram : ℕ
max_ram = 508 * 1024 * 1024

-- `ram_bootstrap`, given what `mips_ramsize` returns and the address that start.S has saved.
unfoldable pub bootstrap : ℕ → ℕ → Ram
bootstrap ramsize firstfree = record {
  firstpaddr = (firstfree + word - kseg0) % word;
  lastpaddr = if ltb max_ram ramsize then max_ram else ramsize;
}

-- `ram_stealmem`: the address, or 0.
unfoldable pub stealmem : Ram → ℕ → ℕ × Ram
stealmem r npages =
    let size = npages * page_size % word in
    if ltb r.lastpaddr ((r.firstpaddr + size) % word)
    then (0, r)
    else (r.firstpaddr, record r { firstpaddr = (r.firstpaddr + size) % word })

-- `ram_getsize`
unfoldable pub getsize : Ram → (ℕ × ℕ) × Ram
getsize r = ((r.firstpaddr, r.lastpaddr), record { firstpaddr = 0; lastpaddr = 0 })

-- `getppages`
unfoldable pub getppages : Ram → ℕ → ℕ × Ram
getppages = stealmem

-- `alloc_kpages`: the address as the kernel sees it, or 0.
unfoldable pub alloc_kpages : Ram → ℕ → ℕ × Ram
unfolding getppages
alloc_kpages r npages =
    let (pa, r') = getppages r npages in if pa == 0 then (0, r') else ((pa + kseg0) % word, r')

-- `free_kpages` does nothing.
unfoldable pub free_kpages : Ram → ℕ → Ram
free_kpages r addr = r
