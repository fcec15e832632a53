-- ===== src/Queue/Grow.antt =====
-- kern/lib/queue.c: `q_grow` moves the items to a larger ring, in order.
use native.Mathlib.Nat.{pow-suc}
use mathlib.Core.List.{append-nil, append_assoc}
use cs325os.Base.{
  ℕ, zero, suc, ◌+◌, ◌*◌, ◌%◌, ◌^◌, ◌/◌, ◌≤◌, ◌<◌, ◌≡◌, refl, ◌⊎◌, inl, inr, Bool, true, false,
  Result, Option, none, some, ltb, ◌==◌, ok, Block, Bool-cases, arith, List, [], ◌∷◌, ◌++◌, length,
  get_elem?, replicate, length-replicate, length-append, wrap_lem, wrap_shift, enomem, bytes_of,
  sym, ◌∙◌,
}
use cs325os.Queue.Defs.{Queue, grow_size, refill, grow, addtail_within}
use cs325os.Queue.Model.{Holds, full_iff, put_lem}

grow_size_lem :
    (f n target : ℕ)
    → 0 < n
    → target ≤ 2 ^ 29
    → target ≤ n * 2 ^ f
    → (r : ℕ) × (grow_size (suc f) n target ≡ ok r)
      × (target ≤ r)
      × (n ≤ r)
      × ((r ≡ n) ⊎ (r < 2 * target))
unfolding grow_size
grow_size_lem zero n target p h fuel = (n, ground arith, ground arith, ground arith, inl refl)
grow_size_lem (suc f) n target p h fuel = elim (Bool-cases (ltb n target)) [
  | inl more ↦
      let e2 : n * 2 ^ suc f ≡ n * 2 * 2 ^ f = rw (pow-suc 2 f) (omega arith) in
      let (r, e, ge, le, b) = grow_size_lem f (n * 2) target (omega arith) h (omega (arith, e2)) in
      (r, ground (arith, e), ge, omega (arith, le), ground arith)
  | inr done ↦ (n, rw done, ground arith, ground arith, inl refl)
]

module _ {A : Type 0} where
  -- The items from the place `i` of the old block on.
  abbrev Slots : ℕ → Block A → ℕ → List A → Type 0
  Slots size words i xs =
      (k : ℕ) (x : A) → get_elem? xs k ≡ some x → get_elem? words ((i + k) % size) ≡ some (some x)

  -- An `addtail` that never fails while a place is free.
  abbrev pub Puts : (Queue A → A → Result (ℕ × Queue A)) → Type 0
  Puts addtail =
      (q : Queue A) (xs : List A) (x : A)
      → Holds q xs
      → length xs + 1 < q.size
      → (q' : Queue A) × (addtail q x ≡ ok (0, q')) × Holds q' (xs ++ (x ∷ [])) × (q'.size ≡ q.size)

  pub addtail_within-Puts : (d : ℕ) (room : ℕ → Bool) → Puts (addtail_within (suc d) room)
  unfolding addtail_within
  addtail_within-Puts d room q xs x h lt =
      let e : (length xs + 1 == q.size) ≡ false = ground arith in
      let p : ltb 0 q.size ≡ true = ground arith in
      let (q', r, h', s) = put_lem x h lt in (q', rw (p, full_iff h, e) r, h', s)

  refill_lem :
      (addtail : Queue A → A → Result (ℕ × Queue A)) (f i onw osize : ℕ) (words : Block A)
      (ys : List A) (q : Queue A) (zs : List A)
      → Puts addtail
      → Slots osize words i ys
      → i < osize
      → length ys < osize
      → length ys < f
      → onw ≡ (i + length ys) % osize
      → Holds q zs
      → length zs + length ys < q.size
      → (q' : Queue A) × (refill addtail f i onw osize words q ≡ ok q')
        × Holds q' (zs ++ ys)
        × (q'.size ≡ q.size)
  unfolding refill
  refill_lem addtail zero i onw osize words ys q zs puts slots hi hy hf ho h room =
      absurd (omega arith)
  refill_lem addtail (suc f) i onw osize words [] q zs puts slots hi hy hf ho h room =
      (q, ground (arith, wrap_lem osize i 0 hi), rw append-nil h, refl)
  refill_lem addtail (suc f) i onw osize words (y ∷ ys) q zs puts slots hi hy hf ho h room =
      let (q1, e1, h1, s1) = puts q zs y h (omega arith) in
      let (q2, e2, h2, s2) =
        refill_lem addtail f ((i + 1) % osize) onw osize words ys q1 (zs ++ (y ∷ [])) puts
          (λ k x e. rw (wrap_shift osize i k) (slots (suc k) x e))
          (ground (arith, wrap_lem osize i 1 hi)) (omega arith) (omega arith)
          (ho ∙ sym (wrap_shift osize i (length ys))) h1
          (omega (arith, length-append zs (y ∷ []), s1)) in
      let going : (i == onw) ≡ false = ground (arith, wrap_lem osize i (suc (length ys)) hi) in
      let word : get_elem? words i ≡ some (some y) =
        ground (arith, wrap_lem osize i 0 hi, slots 0 y refl) in
      (q2, rw (going, word, e1) e2, rw append_assoc at h2, s2 ∙ s1)

  pub fresh-Holds :
      (n : ℕ)
      → 0 < n
      → n < 2 ^ 30
      → Holds {A = A}
          (record {
            size = n;
            nextwrite = 0;
            nextread = 0;
            words = replicate (bytes_of n / 4) none;
          })
          []
  fresh-Holds n p h = record {
    free = p;
    small = h;
    backed = omega (arith, length-replicate {A = Option A} (bytes_of n / 4) none);
    start = p;
    finish = ground (arith, wrap_lem n 0 0 p p);
    slots = λ k x e. cc;
  }

  -- `q_grow` keeps the items and their order in a ring of the size asked for, or reports that
  -- memory is short and changes nothing.
  pub grow_lem :
      (addtail : Queue A → A → Result (ℕ × Queue A)) (room : ℕ → Bool) {q : Queue A} {xs : List A}
      (target : ℕ)
      → Puts addtail
      → Holds q xs
      → q.size < target
      → target ≤ 2 ^ 29
      → ((q' : Queue A) × (grow addtail room q target ≡ ok (0, q'))
          × Holds q' xs
          × (target ≤ q'.size)
          × ((n : ℕ) × (room n ≡ true)))
        ⊎ ((n : ℕ) × (room n ≡ false) × (grow addtail room q target ≡ ok (enomem, q)))
  unfolding grow
  grow_lem addtail room {q} {xs} target puts h lt small =
      let (n, en, ge, _, bound) =
        grow_size_lem 31 q.size target (omega arith) small (omega arith) in
      let (q', er, h', s) =
        refill_lem addtail q.size q.nextread q.nextwrite q.size q.words xs _ [] puts h.slots h.start
          h.free h.free h.finish (fresh-Holds n (omega arith) (omega arith)) (omega arith) in
      elim (Bool-cases (room (bytes_of n))) [
        | inl has ↦ inl (q', rw (en, has, er), h', rw s ge, (bytes_of n, has))
        | inr out ↦ inr (bytes_of n, out, rw (en, out))
      ]
