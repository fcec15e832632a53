-- ===== src/Kheap/Sizes.antt =====
-- kern/lib/kheap.c: the block sizes.
use cs325os.Base.{
  ℕ, zero, suc, ◌+◌, ◌*◌, ◌/◌, ◌%◌, ◌≤◌, ◌<◌, ◌≡◌, ◌≢◌, ◌⊎◌, inl, inr, true, false, Bool-cases, leb,
  ok, panic, arith,
}
use cs325os.Kheap.Defs.{size_at, blocktype, blocktype_from}

-- The number of blocks on a page.
abbrev pub blocks_at : ℕ → ℕ
blocks_at b = 4096 / size_at b

pub by_size :
    (P : ℕ → Type 0) → P 0 → P 1 → P 2 → P 3 → P 4 → P 5 → P 6 → P 7 → (b : ℕ) → b < 8 → P b
by_size P a0 a1 a2 a3 a4 a5 a6 a7 zero lt = a0
by_size P a0 a1 a2 a3 a4 a5 a6 a7 (suc zero) lt = a1
by_size P a0 a1 a2 a3 a4 a5 a6 a7 (suc (suc zero)) lt = a2
by_size P a0 a1 a2 a3 a4 a5 a6 a7 (suc (suc (suc zero))) lt = a3
by_size P a0 a1 a2 a3 a4 a5 a6 a7 (suc (suc (suc (suc zero)))) lt = a4
by_size P a0 a1 a2 a3 a4 a5 a6 a7 (suc (suc (suc (suc (suc zero))))) lt = a5
by_size P a0 a1 a2 a3 a4 a5 a6 a7 (suc (suc (suc (suc (suc (suc zero)))))) lt = a6
by_size P a0 a1 a2 a3 a4 a5 a6 a7 (suc (suc (suc (suc (suc (suc (suc zero))))))) lt = a7
by_size P a0 a1 a2 a3 a4 a5 a6 a7 (suc (suc (suc (suc (suc (suc (suc (suc b)))))))) lt =
    absurd (omega arith)

abbrev Filled : ℕ → Type 0
Filled b =
    (blocks_at b * size_at b ≡ 4096)
    × (1 < blocks_at b)
    × (blocks_at b ≤ 256)
    × (4 ≤ size_at b)
    × (size_at b / 4 * 4 ≡ size_at b)

-- The blocks of a size fill a page.
pub blocks_fill : (b : ℕ) → b < 8 → Filled b
blocks_fill b =
    by_size Filled (omega arith) (omega arith) (omega arith) (omega arith) (omega arith)
      (omega arith) (omega arith) (omega arith) b

abbrev Inside : ℕ → Type 0
Inside b = (k : ℕ) → k < blocks_at b → k * size_at b + size_at b ≤ 4096

pub block-Inside : (b : ℕ) → b < 8 → Inside b
block-Inside b =
    by_size Inside (λ k h. omega arith) (λ k h. omega arith) (λ k h. omega arith)
      (λ k h. omega arith) (λ k h. omega arith) (λ k h. omega arith) (λ k h. omega arith)
      (λ k h. omega arith) b

abbrev Whole : ℕ → Type 0
Whole b = (k : ℕ) → (k * size_at b % size_at b ≡ 0) × (k * size_at b / size_at b ≡ k)

pub block_index : (b : ℕ) → b < 8 → Whole b
block_index b =
    by_size Whole (λ k. omega arith) (λ k. omega arith) (λ k. omega arith) (λ k. omega arith)
      (λ k. omega arith) (λ k. omega arith) (λ k. omega arith) (λ k. omega arith) b

abbrev Apart : ℕ → Type 0
Apart b =
    (j k : ℕ)
    → j ≢ k
    → (j * size_at b + size_at b ≤ k * size_at b) ⊎ (k * size_at b + size_at b ≤ j * size_at b)

pub blocks-Apart : (b : ℕ) → b < 8 → Apart b
blocks-Apart b =
    by_size Apart (λ j k ne. ground arith) (λ j k ne. ground arith) (λ j k ne. ground arith)
      (λ j k ne. ground arith) (λ j k ne. ground arith) (λ j k ne. ground arith)
      (λ j k ne. ground arith) (λ j k ne. ground arith) b

abbrev Indexed : ℕ → Type 0
Indexed b =
    (o : ℕ)
    → o < 4096
    → o % size_at b ≡ 0
    → (o / size_at b < blocks_at b) × (o / size_at b * size_at b ≡ o)

-- An aligned offset in a page is that of a block.
pub offset_index : (b : ℕ) → b < 8 → Indexed b
offset_index b =
    by_size Indexed (λ o h z. omega arith) (λ o h z. omega arith) (λ o h z. omega arith)
      (λ o h z. omega arith) (λ o h z. omega arith) (λ o h z. omega arith) (λ o h z. omega arith)
      (λ o h z. omega arith) b

abbrev pub Fits : ℕ → ℕ → Type 0
Fits sz b = (b < 8) × (sz ≤ size_at b) × ((b ≡ 0) ⊎ (size_at b < 2 * sz))

-- For up to 2048 bytes `blocktype` returns a block size that is large enough, and is the smallest or
-- less than twice the size asked for; above that the kernel panics.
pub blocktype-Fits :
    (sz : ℕ)
    → ((b : ℕ) × (blocktype sz ≡ ok b) × Fits sz b) ⊎ ((2048 < sz) × (blocktype sz ≡ panic))
unfolding blocktype blocktype_from
blocktype-Fits sz =
    try 16 (λ e. inl (0, rw e, ground arith))
      λ e0.
        try 32 (λ e. inl (1, rw (e0, e), ground arith))
          λ e1.
            try 64 (λ e. inl (2, rw (e0, e1, e), ground arith))
              λ e2.
                try 128 (λ e. inl (3, rw (e0, e1, e2, e), ground arith))
                  λ e3.
                    try 256 (λ e. inl (4, rw (e0, e1, e2, e3, e), ground arith))
                      λ e4.
                        try 512 (λ e. inl (5, rw (e0, e1, e2, e3, e4, e), ground arith))
                          λ e5.
                            try 1024 (λ e. inl (6, rw (e0, e1, e2, e3, e4, e5, e), ground arith))
                              λ e6.
                                try 2048
                                  (λ e. inl (7, rw (e0, e1, e2, e3, e4, e5, e6, e), ground arith))
                                  λ e7. inr (ground arith, rw (e0, e1, e2, e3, e4, e5, e6, e7))
  where
    try : {P : Type 0} (s : ℕ) → (leb sz s ≡ true → P) → (leb sz s ≡ false → P) → P
    try s yes_case no_case = elim (Bool-cases (leb sz s)) [ inl e ↦ yes_case e | inr e ↦ no_case e ]
