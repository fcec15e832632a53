-- ===== src/Scheduler/Levels.antt =====
-- kern/thread/scheduler.c: the lists of threads that the run queues stand for, lowest priority first.
use cs325os.Base.{
  ℕ, suc, ◌<◌, ◌≡◌, refl, subst, inl, inr, Bool, true, some, List, [], ◌∷◌, Bool-cases, arith,
  length, get_elem?, get_elem?-of_lt, get_elem?-set, length-set, ◌==◌, ◌&&◌, set,
}
use cs325os.Queue.{Queue}
use cs325os.Queue.Model.{Holds, is_empty_iff}
use cs325os.Scheduler.Defs.{all_empty}

-- `qs` holds `ls`, level by level.
pub record Levels (qs : List (Queue ℕ)) (ls : List (List ℕ)) : Type 0 where
  pub same : length qs ≡ length ls
  pub each :
      (i : ℕ) (q : Queue ℕ) (l : List ℕ)
      → get_elem? qs i ≡ some q
      → get_elem? ls i ≡ some l
      → Holds q l

-- A level below the number of levels, with its queue.
pub level :
    {qs : List (Queue ℕ)} {ls : List (List ℕ)} (i : ℕ)
    → Levels qs ls
    → i < length ls
    → (q : Queue ℕ) × (l : List ℕ) × (get_elem? qs i ≡ some q)
      × (get_elem? ls i ≡ some l)
      × Holds q l
level {qs} {ls} i v lt =
    let (l, el) = get_elem?-of_lt ls i lt in
    let (q, eq) = get_elem?-of_lt qs i (omega (arith, v.same)) in (q, l, eq, el, v.each i q l eq el)

pub set-Levels :
    {qs : List (Queue ℕ)} {ls : List (List ℕ)} (i : ℕ) (q : Queue ℕ) (l : List ℕ)
    → Levels qs ls
    → i < length ls
    → Holds q l
    → Levels (set qs i q) (set ls i l)
set-Levels {qs} {ls} i q l v lt h = record {
  same = omega (arith, v.same, length-set qs i q, length-set ls i l);
  each = λ j q' l' eq el. elim (Bool-cases (i == j)) [
    | inl hit ↦
        let a : q ≡ q' = ground (arith, get_elem?-set qs i j q (omega (arith, v.same)), hit) in
        let b : l ≡ l' = ground (arith, get_elem?-set ls i j l lt, hit) in
        subst (λ x. Holds x l') a (subst (λ y. Holds q y) b h)
    | inr miss ↦
        v.each j q' l' (ground (arith, get_elem?-set qs i j q (omega (arith, v.same)), miss))
          (ground (arith, get_elem?-set ls i j l lt, miss))
  ];
}

-- No level has a thread.
abbrev pub none_ready : List (List ℕ) → Bool
none_ready [] = true
none_ready (l ∷ ls) = (length l == 0) && none_ready ls

pub Levels-tail :
    {q : Queue ℕ} {qs : List (Queue ℕ)} {l : List ℕ} {ls : List (List ℕ)}
    → Levels (q ∷ qs) (l ∷ ls)
    → Levels qs ls
Levels-tail v = record {
  same = omega (arith, v.same);
  each = λ i q l eq el. v.each (suc i) q l eq el;
}

pub all_empty_iff :
    (qs : List (Queue ℕ)) (ls : List (List ℕ)) → Levels qs ls → all_empty qs ≡ none_ready ls
unfolding all_empty
all_empty_iff [] [] v = refl
all_empty_iff [] (l ∷ ls) v = absurd (omega (arith, v.same))
all_empty_iff (q ∷ qs) [] v = absurd (omega (arith, v.same))
all_empty_iff (q ∷ qs) (l ∷ ls) v =
    rw (is_empty_iff (v.each 0 q l refl refl), all_empty_iff qs ls (Levels-tail v))
