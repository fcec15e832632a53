-- ===== src/Uio/Copies.antt =====
-- kern/userprog/uio.c: uiomove over memmove, copyin and copyout of the kernel.
use cs325os.Base.{
  ℕ, ◌+◌, ◌%◌, ◌≤◌, ◌<◌, ◌≡◌, ◌≢◌, refl, subst, ◌⊎◌, inl, inr, Bool, true, false, ◌&&◌, Option, ltb,
  ◌==◌, if◌then◌else◌, Result, ok, Bool-cases, arith, sym,
}
use cs325os.Libc.{Memory, memmove}
use cs325os.Libc.Moves as Bytes
use cs325os.Copyinout.{copyin, copyout, usertop}
use cs325os.Copyinout.Blocks as Blocks
use cs325os.Copyinout.Blocks.{copyin-Answer, copyout-Answer}
use cs325os.Uio.Defs.{
  Uio, UioRw, uio_read, uio_write, UioSeg, uio_sysspace, uio_userspace, uio_userispace, Copier,
  transfer, advance, uiomove, space_ok, word,
}
use cs325os.Uio.Moves.{smaller, uiomove-moved}

-- The kernel's own functions, where `bad` tells which addresses fault.
abbrev pub kernel_copies : (ℕ → Bool) → Copier Memory
kernel_copies bad = record {
  memmove = λ dst src size m. memmove dst src size m;
  copyout = λ userdest src size m. copyout bad src userdest size m;
  copyin = λ dest usersrc size m. copyin bad usersrc dest size m;
}

-- A read copies from the kernel buffer at `ptr` to the described one at `base`, a write the other way.
abbrev pub dest_of : UioRw → ℕ → ℕ → ℕ
dest_of uio_read ptr base = base
dest_of uio_write ptr base = ptr

abbrev pub source_of : UioRw → ℕ → ℕ → ℕ
source_of uio_read ptr base = ptr
source_of uio_write ptr base = base

abbrev pub is_kernel : UioSeg → Bool
is_kernel uio_sysspace = true
is_kernel uio_userspace = false
is_kernel uio_userispace = false

-- `k` is the smaller of the two.
pub record Least (k n len : ℕ) : Type 0 where
  pub some_bytes : 0 < k
  pub in_count : k ≤ n
  pub in_buffer : k ≤ len
  pub all : (k ≡ n) ⊎ (k ≡ len)

-- The uio `u'` is `u` with `k` bytes done.
pub record Ahead (u : Uio) (k : ℕ) (u' : Uio) : Type 0 where
  pub base : u'.base ≡ (u.base + k) % 4294967296
  pub len : u'.len + k ≡ u.len
  pub resid : u'.resid + k ≡ u.resid
  pub offset : u'.offset ≡ (u.offset + k) % 4294967296
  pub segflg : u'.segflg ≡ u.segflg
  pub rw_mode : u'.rw_mode ≡ u.rw_mode
  pub space : u'.space ≡ u.space

-- What becomes of a call of uiomove.
pub data Outcome (bad : ℕ → Bool) (ptr n : ℕ) (u : Uio) (m : Memory)
    (result : Result (ℕ × Uio × Memory)) : Type 0 where
  nothing : (n ≡ 0) ⊎ (u.len ≡ 0) → result ≡ ok (0, u, m) → Outcome bad ptr n u m result
  within_kernel :
      (k : ℕ) (u' : Uio) (m' : Memory)
      → Least k n u.len
      → is_kernel u.segflg ≡ true
      → result ≡ ok (0, u', m')
      → Ahead u k u'
      → ((x : ℕ)
          → m' x
            ≡ Bytes.moved (dest_of u.rw_mode ptr u.base) (source_of u.rw_mode ptr u.base) k m x)
      → Outcome bad ptr n u m result
  with_user :
      (k : ℕ) (u' : Uio) (m' : Memory)
      → Least k n u.len
      → is_kernel u.segflg ≡ false
      → result ≡ ok (0, u', m')
      → Ahead u k u'
      → Blocks.Answer bad u.base
          (dest_of u.rw_mode ptr u.base)
          (source_of u.rw_mode ptr u.base)
          k
          m
          (0, m')
      → Outcome bad ptr n u m result
  failed :
      (k code : ℕ) (m' : Memory)
      → Least k n u.len
      → is_kernel u.segflg ≡ false
      → code ≢ 0
      → result ≡ ok (code, u, m')
      → Blocks.Answer bad u.base
          (dest_of u.rw_mode ptr u.base)
          (source_of u.rw_mode ptr u.base)
          k
          m
          (code, m')
      → Outcome bad ptr n u m result

smaller-Least : (n len : ℕ) → (ltb 0 n && ltb 0 len) ≡ true → Least (smaller n len) n len
smaller-Least n len some_bytes = elim (Bool-cases (ltb n len)) [
  | inl less ↦
      let is_n : smaller n len ≡ n = rw less in
      record {
        some_bytes = ground arith;
        in_count = omega arith;
        in_buffer = ground arith;
        all = inl is_n;
      }
  | inr more ↦
      let is_len : smaller n len ≡ len = rw more in
      record {
        some_bytes = ground arith;
        in_count = ground arith;
        in_buffer = omega arith;
        all = inr is_len;
      }
]

advance-Ahead :
    (c : Copier Memory) (u : Uio) (k : ℕ)
    → k ≤ u.len
    → u.resid ≡ u.len
    → u.len < word
    → Ahead u k (advance c u k)
advance-Ahead c u k le whole small = record {
  base = refl;
  len = omega arith;
  resid = omega arith;
  offset = refl;
  segflg = refl;
  rw_mode = refl;
  space = refl;
}

-- The copy of one round.
data Sent (bad : ℕ → Bool) (seg : UioSeg) (mode : UioRw) (ptr base k : ℕ) (m : Memory)
    (r : ℕ × Memory) : Type 0 where
  by_memmove :
      is_kernel seg ≡ true
      → r.0 ≡ 0
      → ((x : ℕ) → r.1 x ≡ Bytes.moved (dest_of mode ptr base) (source_of mode ptr base) k m x)
      → Sent bad seg mode ptr base k m r
  checked :
      is_kernel seg ≡ false
      → Blocks.Answer bad base (dest_of mode ptr base) (source_of mode ptr base) k m r
      → Sent bad seg mode ptr base k m r

transfer-Sent :
    (bad : ℕ → Bool) (seg : UioSeg) (mode : UioRw) (ptr base k : ℕ) (m : Memory)
    → usertop ≤ ptr
    → ptr + k ≤ word
    → base < word
    → k < word
    → Sent bad seg mode ptr base k m (transfer (kernel_copies bad) seg mode ptr base k m)
transfer-Sent bad uio_sysspace uio_read ptr base k m low high bw kw =
    by_memmove refl refl (λ x. Bytes.memmove-moved base ptr k m x)
transfer-Sent bad uio_sysspace uio_write ptr base k m low high bw kw =
    by_memmove refl refl (λ x. Bytes.memmove-moved ptr base k m x)
transfer-Sent bad uio_userspace uio_read ptr base k m low high bw kw =
    checked refl (copyout-Answer bad ptr base k m bw kw low high)
transfer-Sent bad uio_userspace uio_write ptr base k m low high bw kw =
    checked refl (copyin-Answer bad base ptr k m bw kw low high)
transfer-Sent bad uio_userispace uio_read ptr base k m low high bw kw =
    checked refl (copyout-Answer bad ptr base k m bw kw low high)
transfer-Sent bad uio_userispace uio_write ptr base k m low high bw kw =
    checked refl (copyin-Answer bad base ptr k m bw kw low high)

end_lem :
    (bad : ℕ → Bool) (ptr n k : ℕ) (u : Uio) (m : Memory) (r : ℕ × Memory)
    → Least k n u.len
    → u.resid ≡ u.len
    → u.len < word
    → Sent bad u.segflg u.rw_mode ptr u.base k m r
    → Outcome bad ptr n u m
        (if r.0 == 0 then ok (0, advance (kernel_copies bad) u k, r.1) else ok (r.0, u, r.1))
end_lem bad ptr n k u m (code, m') least whole small (by_memmove seg zero_code bytes) =
    let no_error : code ≡ 0 = zero_code in
    let fine : (code == 0) ≡ true = ground arith in
    within_kernel k (advance (kernel_copies bad) u k) m' least seg (rw fine)
      (advance-Ahead (kernel_copies bad) u k least.in_buffer whole small) bytes
end_lem bad ptr n k u m (code, m') least whole small (checked seg a) =
    elim (Bool-cases (code == 0)) [
      | inl fine ↦
          let is_zero : code ≡ 0 = ground arith in
          with_user k (advance (kernel_copies bad) u k) m' least seg (rw fine)
            (advance-Ahead (kernel_copies bad) u k least.in_buffer whole small)
            (subst
              (λ e.
                Blocks.Answer bad u.base (dest_of u.rw_mode ptr u.base)
                  (source_of u.rw_mode ptr u.base) k m (e, m'))
              is_zero a)
      | inr error ↦ failed k code m' least seg (ground arith) (rw error) a
    ]

-- Suppose the kernel buffer at `ptr` is in kernel memory, the residual of the uio is the length of its
-- buffer, and its address space is the one that uiomove asserts. Then uiomove moves nothing if the count or
-- the buffer is 0. Else it copies the smaller of the two, from the kernel buffer in a read and to it in a write,
-- once: in kernel space as memmove does, and base, length, residual and offset then account for the bytes; in
-- user space as copyout and copyin do, and if these fail it returns their error code and the uio as it was.
pub uiomove-Outcome :
    (bad : ℕ → Bool) (vmspace : Option ℕ) (ptr n : ℕ) (u : Uio) (m : Memory)
    → usertop ≤ ptr
    → ptr + n ≤ word
    → u.base < word
    → space_ok (kernel_copies bad) u.segflg u.space vmspace ≡ true
    → u.resid ≡ u.len
    → u.len < word
    → Outcome bad ptr n u m (uiomove (kernel_copies bad) vmspace ptr n u m)
uiomove-Outcome bad vmspace ptr n u m low high bw space whole small =
    let c = kernel_copies bad in
    subst (Outcome bad ptr n u m) (sym (uiomove-moved c vmspace ptr n u m space whole small))
      (elim (Bool-cases (ltb 0 n && ltb 0 u.len)) [
        | inr none_left ↦ nothing (ground arith) (rw none_left)
        | inl some_bytes ↦
            let least = smaller-Least n u.len some_bytes in
            rw some_bytes (
              end_lem bad ptr n (smaller n u.len) u m
                (transfer c u.segflg u.rw_mode ptr u.base (smaller n u.len) m) least whole small
                (transfer-Sent bad u.segflg u.rw_mode ptr u.base (smaller n u.len) m low
                  (omega (arith, least.in_count)) bw (omega (arith, least.in_buffer))))
      ])
