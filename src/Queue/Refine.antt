-- ===== src/Queue/Refine.antt =====
-- kern/lib/queue.c: the calls that may grow the queue, against the list of its items.
use cs325os.Base.{
  ℕ, suc, ◌+◌, ◌^◌, ◌≤◌, ◌<◌, ◌≡◌, refl, ◌⊎◌, inl, inr, Bool, true, false, Result, none, some, ltb,
  ◌==◌, ok, Bool-cases, ltb→lt, arith, List, [], ◌∷◌, ◌++◌, length, enomem, bytes_of,
}
use cs325os.Queue.Defs.{Queue, create, addtail_within, addtail, preallocate}
use cs325os.Queue.Model.{Holds, full_iff, put_lem}
use cs325os.Queue.Grow.{addtail_within-Puts, grow_lem, fresh-Holds}

module _ {A : Type 0} (room : ℕ → Bool) where
  -- `r` is success with a queue that holds `xs` and has property `P`, or `kmalloc` refused a
  -- request, and the queue is as it was.
  abbrev pub Grows : Queue A → List A → (Queue A → Type 0) → Result (ℕ × Queue A) → Type 0
  Grows q xs P r =
      ((q' : Queue A) × (r ≡ ok (0, q')) × Holds q' xs × P q')
      ⊎ ((n : ℕ) × (room n ≡ false) × (r ≡ ok (enomem, q)))

  -- For a size from 1 to 2 ^ 30 - 1, `q_create` makes an empty queue of that size, or returns NULL
  -- if one of its requests is refused.
  pub create-Holds :
      (size : ℕ)
      → 0 < size
      → size < 2 ^ 30
      → ((q : Queue A) × (create room size ≡ some q) × Holds q [] × (q.size ≡ size))
        ⊎ ((n : ℕ) × (room n ≡ false) × (create {A = A} room size ≡ none))
  unfolding create
  create-Holds size p h = elim (Bool-cases (room 16)) [
    | inl has ↦ elim (Bool-cases (room (bytes_of size))) [
      | inl has' ↦ inl (_, rw (has, has'), fresh-Holds size p h, refl)
      | inr out ↦ inr (bytes_of size, out, rw (has, out))
    ]
    | inr out ↦ inr (16, out, rw out)
  ]

  -- At any depth from 2 on, `q_addtail` adds the pointer behind the others, growing a full ring.
  pub addtail_within_lem :
      (depth : ℕ) {q : Queue A} {xs : List A} (x : A)
      → Holds q xs
      → q.size < 2 ^ 29
      → Grows q
          (xs ++ (x ∷ []))
          (λ q'. q.size ≤ q'.size)
          (addtail_within (suc (suc depth)) room q x)
  unfolding addtail_within
  addtail_within_lem depth {q} {xs} x h small =
      let p : ltb 0 q.size ≡ true = ground (arith, h.free) in
      elim (Bool-cases (length xs + 1 == q.size)) [
        | inr spare ↦
            let (q', e, h', s) = put_lem x h (ground (arith, h.free)) in
            inl (q', rw (p, full_iff h, spare) e, h', omega (arith, s))
        | inl full ↦
            let fits : ltb (q.size + 1) (2 ^ 31) ≡ true = ground arith in
            elim (grow_lem (addtail_within (suc depth) room) room (q.size + 1)
              (addtail_within-Puts depth room) h (omega arith) (omega arith)) [
                | inl (q1, e1, h1, s1, granted) ↦
                    let (q', e, h', s) = put_lem x h1 (omega (arith, h.free)) in
                    inl (q', rw (p, full_iff h, full, fits, e1) e, h', omega (arith, s, s1))
                | inr (n, out, e) ↦ inr (n, out, rw (p, full_iff h, full, fits, e))
              ]
      ]

  -- For a queue of fewer than 2 ^ 29 words, `q_addtail` puts the pointer behind the others, growing
  -- a full ring, or reports that memory is short and changes nothing. It neither panics nor faults.
  pub addtail-Holds :
      {q : Queue A} {xs : List A} (x : A)
      → Holds q xs
      → q.size < 2 ^ 29
      → Grows q (xs ++ (x ∷ [])) (λ q'. q.size ≤ q'.size) (addtail room q x)
  unfolding addtail
  addtail-Holds = addtail_within_lem 0

  -- With a place to spare the answer of `kmalloc` does not matter.
  pub addtail_spare :
      {q : Queue A} {xs : List A} (x : A)
      → Holds q xs
      → length xs + 1 < q.size
      → (q' : Queue A) × (addtail room q x ≡ ok (0, q'))
        × Holds q' (xs ++ (x ∷ []))
        × (q'.size ≡ q.size)
  unfolding addtail
  addtail_spare {q} {xs} x h lt = addtail_within-Puts 1 room q xs x h lt

  -- A ring of fewer than 2 ^ 29 words with as many items as its size less one is full: if `kmalloc`
  -- refuses every request, `q_addtail` returns ENOMEM and changes nothing.
  pub addtail_short :
      {q : Queue A} {xs : List A} (x : A)
      → Holds q xs
      → q.size < 2 ^ 29
      → length xs + 1 ≡ q.size
      → ((n : ℕ) → room n ≡ false)
      → addtail room q x ≡ ok (enomem, q)
  unfolding addtail addtail_within
  addtail_short {q} {xs} x h small full refused =
      let p : ltb 0 q.size ≡ true = ground (arith, h.free) in
      let full' : (length xs + 1 == q.size) ≡ true = ground arith in
      let fits : ltb (q.size + 1) (2 ^ 31) ≡ true = ground arith in
      elim (grow_lem (addtail_within 1 room) room (q.size + 1) (addtail_within-Puts 0 room) h
        (omega arith) (omega arith)) [
          | inl (q1, e1, h1, s1, granted) ↦ let (n, has) = granted in cc (refused n)
          | inr (n, out, e) ↦ rw (p, full_iff h, full', fits, e)
        ]

  -- For a size up to 2 ^ 29, `q_preallocate` makes the ring at least as large as asked, or reports
  -- that memory is short and changes nothing; it keeps the items.
  pub preallocate-Holds :
      {q : Queue A} {xs : List A} (size : ℕ)
      → Holds q xs
      → size ≤ 2 ^ 29
      → Grows q xs (λ q'. size ≤ q'.size) (preallocate room q size)
  unfolding preallocate addtail
  preallocate-Holds {q} {xs} size h small =
      let p : ltb 0 q.size ≡ true = ground (arith, h.free) in
      elim (Bool-cases (ltb q.size size)) [
        | inl more ↦
            elim (grow_lem (addtail_within 2 room) room size (addtail_within-Puts 1 room) h
              (ltb→lt q.size size more) small) [
                | inl (q1, e1, h1, s1, granted) ↦ inl (q1, rw (p, more) e1, h1, s1)
                | inr (n, out, e) ↦ inr (n, out, rw (p, more) e)
              ]
        | inr enough ↦ inl (q, rw (p, enough), h, ground arith)
      ]
