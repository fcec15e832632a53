-- ===== src/Queue/Model.antt =====
-- kern/lib/queue.c: the list that a queue stands for, oldest first, and the calls that do not grow it.
use cs325os.Base.{
  Result, ℕ, suc, ◌+◌, ◌%◌, ◌^◌, ◌≤◌, ◌<◌, ◌≡◌, refl, inl, inr, true, some, ltb, ◌==◌, ok, panic,
  Bool-cases, arith, List, [], ◌∷◌, ◌++◌, length, get_elem?, set, length-set, length-append,
  get_elem?-set, lt_of_get_elem?, get_elem?-snoc, wrap_lem, wrap_full, wrap_step, wrap_shift, sym,
  ◌∙◌,
}
use cs325os.Queue.Defs.{Queue, put, remhead, is_empty}

module _ {A : Type 0} where
  -- `q` holds `xs`: one place of the ring stays free, and the items go round from `nextread`.
  pub record Holds (q : Queue A) (xs : List A) : Type 0 where
    pub free : length xs < q.size
    pub small : q.size < 2 ^ 30
    pub backed : q.size ≤ length q.words
    pub start : q.nextread < q.size
    pub finish : q.nextwrite ≡ (q.nextread + length xs) % q.size
    pub slots :
        (k : ℕ) (x : A)
        → get_elem? xs k ≡ some x
        → get_elem? q.words ((q.nextread + k) % q.size) ≡ some (some x)

  length-snoc : (xs : List A) (x : A) → length (xs ++ (x ∷ [])) ≡ length xs + 1
  length-snoc xs x = omega (arith, length-append xs (x ∷ []))

  -- The test of `q_addtail` for a full ring.
  pub full_iff :
      {q : Queue A} {xs : List A}
      → Holds q xs
      → ((q.nextwrite + 1) % q.size == q.nextread) ≡ (length xs + 1 == q.size)
  full_iff {q} {xs} h =
      let n = length xs in
      rw (h.finish, wrap_step q.size q.nextread n)
        (elim (Bool-cases (ltb (n + 1) q.size)) [
          | inl lt ↦ ground (arith, wrap_lem q.size q.nextread (n + 1) h.start)
          | inr ge ↦ ground (arith, wrap_full q.size q.nextread (n + 1) h.start)
        ])

  put-slots :
      {q : Queue A} {xs : List A} (x : A)
      → Holds q xs
      → length xs + 1 < q.size
      → (k : ℕ) (y : A) → get_elem? (xs ++ (x ∷ [])) k ≡ some y
      → get_elem? (set q.words q.nextwrite (some x)) ((q.nextread + k) % q.size) ≡ some (some y)
  put-slots {q} {xs} x h lt k y e =
      let n = length xs in
      let inside : q.nextwrite < length q.words =
        ground (arith, wrap_lem q.size q.nextread n h.start h.free) in
      elim (Bool-cases (k == n)) [
        | inl last ↦ ground (
          arith,
          get_elem?-snoc xs x k,
          get_elem?-set q.words q.nextwrite ((q.nextread + k) % q.size) (some x) inside,
        )
        | inr old ↦
            let e' : get_elem? xs k ≡ some y = ground (arith, get_elem?-snoc xs x k) in
            let lk = lt_of_get_elem? xs k e' in
            ground (
              arith,
              get_elem?-set q.words q.nextwrite ((q.nextread + k) % q.size) (some x) inside,
              wrap_lem q.size q.nextread n h.start h.free,
              wrap_lem q.size q.nextread k,
              h.slots k y e',
            )
      ]

  put-Holds :
      {q : Queue A} {xs : List A} (x : A)
      → Holds q xs
      → length xs + 1 < q.size
      → Holds
          (record q {
            nextwrite = (q.nextwrite + 1) % q.size;
            words = set q.words q.nextwrite (some x);
          })
          (xs ++ (x ∷ []))
  put-Holds {q} {xs} x h lt = record {
    free = omega (arith, length-snoc xs x);
    small = h.small;
    backed = omega (arith, h.backed, length-set q.words q.nextwrite (some x));
    start = h.start;
    finish = rw (h.finish, wrap_step q.size q.nextread (length xs), length-snoc xs x);
    slots = put-slots x h lt;
  }

  -- With a place to spare, the end of `q_addtail` adds the pointer behind the others.
  pub put_lem :
      {q : Queue A} {xs : List A} (x : A)
      → Holds q xs
      → length xs + 1 < q.size
      → (q' : Queue A) × (put q x ≡ ok (0, q')) × Holds q' (xs ++ (x ∷ [])) × (q'.size ≡ q.size)
  unfolding put
  put_lem {q} {xs} x h lt =
      let inside : ltb q.nextwrite (length q.words) ≡ true =
        ground (arith, wrap_lem q.size q.nextread (length xs) h.start h.free) in
      (_, rw inside, put-Holds x h lt, refl)

  -- `q_empty` tells whether there is no item.
  pub is_empty_iff : {q : Queue A} {xs : List A} → Holds q xs → is_empty q ≡ (length xs == 0)
  unfolding is_empty
  is_empty_iff {q} {xs} h = ground (arith, wrap_lem q.size q.nextread (length xs) h.start h.free)

  pub remhead-cons :
      {q : Queue A} {x : A} {xs : List A}
      → Holds q (x ∷ xs)
      → (q' : Queue A) × (remhead q ≡ ok (x, q')) × Holds q' xs × (q'.size ≡ q.size)
  unfolding remhead
  remhead-cons {q} {x} {xs} h = (
    record q { nextread = (q.nextread + 1) % q.size },
    ground (
      arith,
      wrap_lem q.size q.nextread (suc (length xs)) h.start h.free,
      wrap_lem q.size q.nextread 0 h.start,
      h.slots 0 x refl,
    ),
    record {
      free = omega (arith, h.free);
      small = h.small;
      backed = h.backed;
      start = ground (arith, wrap_lem q.size q.nextread 1 h.start);
      finish = h.finish ∙ sym (wrap_shift q.size q.nextread (length xs));
      slots = λ k y e. rw (wrap_shift q.size q.nextread k) (h.slots (suc k) y e);
    },
    refl,
  )

  pub remhead-nil : {q : Queue A} → Holds q [] → remhead q ≡ panic
  unfolding remhead
  remhead-nil {q} h = ground (arith, wrap_lem q.size q.nextread 0 h.start h.free)

  -- What taking from a queue of these items gives.
  abbrev pub Takes : Queue A → List A → Result (A × Queue A) → Type 0
  Takes q [] r = r ≡ panic
  Takes q (x ∷ xs) r = (q' : Queue A) × (r ≡ ok (x, q')) × Holds q' xs × (q'.size ≡ q.size)

  -- `q_remhead` takes the oldest item out and keeps the others in order; the kernel panics if there is
  -- no item.
  pub remhead-Takes : (q : Queue A) (xs : List A) → Holds q xs → Takes q xs (remhead q)
  remhead-Takes q [] h = remhead-nil h
  remhead-Takes q (x ∷ xs) h = remhead-cons h
