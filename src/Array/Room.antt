-- ===== src/Array/Room.antt =====
-- kern/lib/array.c: the functions that ask for memory.
use cs325os.Base.{
  ℕ, ◌+◌, ◌^◌, ◌/◌, ◌≤◌, ◌<◌, ◌≡◌, refl, ◌⊎◌, inl, inr, Bool, true, false, ◌&&◌, Result, none, some,
  ltb, leb, ◌==◌, if◌then◌else◌, ok, Block, Bool-cases, arith, [], ◌∷◌, ◌++◌, length, replicate,
  get_elem?, set, length-set, enomem, bytes_of,
}
use cs325os.Array.Defs.{Array, copy_words, preallocate, resize, setsize, add, grow_max, max_fuel}
use cs325os.Array.Grow.{grow_max-Grown}
use cs325os.Array.Items.{block, items, IsValid, copied, take-eq-get_elem?, block-some, snoc-items}

module _ {A : Type 0} (room : ℕ → Bool) where
  -- A result of an operation that may need memory: it succeeds with `P`, or `kmalloc` refused a
  -- request and nothing has changed.
  abbrev pub Grows : Array A → (Array A → Type 0) → Result (ℕ × Array A) → Type 0
  Grows a P r =
      ((a' : Array A) × (r ≡ ok (0, a')) × IsValid a' × P a')
      ⊎ ((n : ℕ) × (room n ≡ false) × (r ≡ ok (enomem, a)))

  preallocate_with :
      {a : Array A} (nguys r : ℕ) (w : Block A)
      → IsValid a
      → r < 2 ^ 30
      → grow_max max_fuel nguys a.max ≡ ok r
      → copy_words a.num 0 a.v (replicate r none) ≡ ok w
      → preallocate room a nguys ≡ (
          if room (bytes_of r)
          then ok (0, record { num = a.num; max = r; v = some w })
          else ok (enomem, a))
  unfolding preallocate
  preallocate_with {a} nguys r w v h er ew =
      let e : leb a.num a.max ≡ true = ground arith in
      let fit : bytes_of r / 4 ≡ r = omega arith in rw (e, er, fit, ew)

  -- For a number below 2 ^ 29, `array_preallocate` makes room for `nguys` items and keeps the
  -- items, or reports that memory is short and changes nothing.
  pub preallocate-items :
      {a : Array A} (nguys : ℕ)
      → IsValid a
      → nguys < 2 ^ 29
      → Grows a
          (λ a'. (items a' ≡ items a) × (a'.num ≡ a.num) × (nguys ≤ a'.max))
          (preallocate room a nguys)
  preallocate-items {a} nguys v h =
      let (r, er, g) = grow_max-Grown 31 nguys a.max (omega arith) (omega arith) in
      let (w, ew, lw, tw) = copied a.num a.v r (omega arith) (omega arith) in
      let e = preallocate_with nguys r w v (omega arith) er ew in
      elim (Bool-cases (room (bytes_of r))) [
        | inl has ↦ inl (
          record { num = a.num; max = r; v = some w },
          rw (e, has),
          omega (arith, lw),
          (tw, refl, g.enough),
        )
        | inr out ↦ inr (bytes_of r, out, rw (e, out))
      ]

  -- The words below both sizes stay.
  abbrev pub Agree : Array A → ℕ → Array A → Type 0
  Agree a nguys a' =
      (j : ℕ) → j < nguys → j < a.num → get_elem? (block a'.v) j ≡ get_elem? (block a.v) j

  resize_lem :
      {a : Array A} (nguys : ℕ)
      → IsValid a
      → nguys < 2 ^ 29
      → ((a' : Array A) × (resize room a nguys ≡ ok (0, a'))
          × (nguys ≤ a'.max)
          × (a'.max ≤ length (block a'.v))
          × (a'.max < 2 ^ 30)
          × Agree a nguys a')
        ⊎ ((n : ℕ) × (room n ≡ false) × (resize room a nguys ≡ ok (enomem, a)))
  unfolding resize
  resize_lem {a} nguys v h = elim (Bool-cases (ltb a.max nguys)) [
    | inl more ↦ elim (preallocate-items nguys v h) [
      | inl (a', e, v', p) ↦ inl (
        a',
        rw (more, e),
        p.2,
        v'.backed,
        v'.small,
        λ j lt old. take-eq-get_elem? a.num (block a'.v) (block a.v) (rw (p.1) at (p.0)) j old,
      )
      | inr (n, out, e) ↦ inr (n, out, rw (more, e))
    ]
    | inr fits ↦ elim (Bool-cases ((nguys == 0) && ltb 16 a.max)) [
      | inl give ↦ inl (
        record a { max = 0; v = none },
        ground (arith, block-some a.v (ground arith)),
        ground arith,
        ground arith,
        ground arith,
        λ j lt old. absurd (ground arith),
      )
      | inr keep ↦ inl (a, rw (fits, keep), ground arith, v.backed, v.small, λ j lt old. refl)
    ]
  ]

  -- `array_setsize` makes the array as long as asked and keeps the items below both lengths, or reports
  -- that memory is short and changes nothing.
  pub setsize-items :
      {a : Array A} (nguys : ℕ)
      → IsValid a
      → nguys < 2 ^ 29
      → Grows a (λ a'. (a'.num ≡ nguys) × Agree a nguys a') (setsize room a nguys)
  unfolding setsize
  setsize-items {a} nguys v h =
      let e : leb a.num a.max ≡ true = ground arith in
      elim (resize_lem nguys v h) [
        | inl (a', er, enough, backed, small, agree) ↦ inl (
          record a' { num = nguys },
          rw (e, er),
          record { fits = enough; backed = backed; small = small },
          (refl, agree),
        )
        | inr (n, out, er) ↦ inr (n, out, rw (e, er))
      ]

  -- For fewer than 2 ^ 29 - 1 items, `array_add` puts the pointer at the end, or reports that memory is
  -- short and changes nothing.
  pub add-items :
      {a : Array A} (x : A)
      → IsValid a
      → a.num + 1 < 2 ^ 29
      → Grows a (λ a'. items a' ≡ items a ++ (some x ∷ [])) (add room a x)
  unfolding add
  add-items {a} x v h = elim (setsize-items (a.num + 1) v h) [
    | inl (a', es, v', (en, agree)) ↦
        let b = block a'.v in
        let lt : a.num < length b = omega arith in
        let eb = block-some a'.v (omega arith) in
        let et : ltb a.num (length b) ≡ true = ground arith in
        inl (
          record a' { v = some (set b a.num (some x)) },
          rw (es, eb, et),
          omega (arith, length-set b a.num (some x)),
          snoc-items a.num a'.num (block a.v) b x (omega arith) lt en
              (λ j q. agree j (omega arith) q),
        )
    | inr (n, out, es) ↦ inr (n, out, rw es)
  ]
