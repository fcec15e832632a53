-- ===== src/Vm/Moves.antt =====
-- kern/arch/mips/mips/dumbvm.c: three moves of memory one after another.
use cs325os.Base.{ℕ, ◌+◌, ◌-◌, ◌≤◌, ◌<◌, ◌≡◌, ◌∙◌, true, false, arith}
use cs325os.Libc.{Memory, memmove, within}
use cs325os.Libc.Moves.{memmove-moved}

abbrev pub three : (s1 s2 s3 n1 n2 n3 d1 d2 d3 : ℕ) → Memory → Memory
three s1 s2 s3 n1 n2 n3 d1 d2 d3 mem = memmove d3 s3 n3 (memmove d2 s2 n2 (memmove d1 s1 n1 mem))

-- Three moves of memory from below `d1` into consecutive blocks.
module _ (s1 s2 s3 n1 n2 n3 d1 d2 d3 : ℕ) (mem : Memory) (from1 : s1 + n1 ≤ d1)
    (from2 : s2 + n2 ≤ d1) (from3 : s3 + n3 ≤ d1) (then2 : d1 + n1 ≤ d2)
    (then3 : d2 + n2 ≤ d3) where
  outside : (d s n : ℕ) (m : Memory) (x : ℕ) → within d n x ≡ false → memmove d s n m x ≡ m x
  outside d s n m x e = memmove-moved d s n m x ∙ rw e

  inside : (d s n o : ℕ) (m : Memory) → o < n → memmove d s n m (d + o) ≡ m (s + o)
  inside d s n o m lt =
      let hit : within d n (d + o) ≡ true = ground arith in
      let at : s + (d + o - d) ≡ s + o = omega arith in memmove-moved d s n m (d + o) ∙ rw (hit, at)

  pub three-before : (x : ℕ) → x < d1 → three s1 s2 s3 n1 n2 n3 d1 d2 d3 mem x ≡ mem x
  three-before x lt =
      outside d3 s3 n3 (memmove d2 s2 n2 (memmove d1 s1 n1 mem)) x (ground arith)
      ∙ outside d2 s2 n2 (memmove d1 s1 n1 mem) x (ground arith)
      ∙ outside d1 s1 n1 mem x (ground arith)

  pub three-first : (o : ℕ) → o < n1 → three s1 s2 s3 n1 n2 n3 d1 d2 d3 mem (d1 + o) ≡ mem (s1 + o)
  three-first o lt =
      outside d3 s3 n3 (memmove d2 s2 n2 (memmove d1 s1 n1 mem)) (d1 + o) (ground arith)
      ∙ outside d2 s2 n2 (memmove d1 s1 n1 mem) (d1 + o) (ground arith)
      ∙ inside d1 s1 n1 o mem lt

  pub three-second : (o : ℕ) → o < n2 → three s1 s2 s3 n1 n2 n3 d1 d2 d3 mem (d2 + o) ≡ mem (s2 + o)
  three-second o lt =
      outside d3 s3 n3 (memmove d2 s2 n2 (memmove d1 s1 n1 mem)) (d2 + o) (ground arith)
      ∙ inside d2 s2 n2 o (memmove d1 s1 n1 mem) lt
      ∙ outside d1 s1 n1 mem (s2 + o) (ground arith)

  pub three-third : (o : ℕ) → o < n3 → three s1 s2 s3 n1 n2 n3 d1 d2 d3 mem (d3 + o) ≡ mem (s3 + o)
  three-third o lt =
      inside d3 s3 n3 o (memmove d2 s2 n2 (memmove d1 s1 n1 mem)) lt
      ∙ outside d2 s2 n2 (memmove d1 s1 n1 mem) (s3 + o) (ground arith)
      ∙ outside d1 s1 n1 mem (s3 + o) (ground arith)
