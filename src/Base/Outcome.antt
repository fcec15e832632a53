-- ===== src/Base/Outcome.antt =====
-- How a call of a kernel function ends, and the words of kernel memory that it reads and writes.
use Prim.Native.Nat.{ℕ}
use mathlib.Core.Bool.{Bool, true, false}
use mathlib.Core.Option.{Option, none, some}
use mathlib.Core.List.{List}
use cs325os.Base.Tests.{ltb, if◌then◌else◌}
use cs325os.Base.Lists.{get_elem?, set, length}

-- `ok`: the call returns. `panic`: an `assert` fails or `panic` is called, and the kernel stops.
-- `fault`: C gives no meaning to the run (a null or wild pointer, an unset word, signed overflow).
-- `no_fuel`: the fuel of a loop of the model is used up.
pub data Result {ℓ} (A : Type ℓ) : Type ℓ where
  ok : A → Result A
  panic : Result A
  fault : Result A
  no_fuel : Result A

infixl 5 ◌>>=◌ ◌>>◌
abbrev pub ◌>>=◌ {ℓ κ} : {A : Type ℓ} {B : Type κ} → Result A → (A → Result B) → Result B
ok a >>= f = f a
panic >>= f = panic
fault >>= f = fault
no_fuel >>= f = no_fuel

abbrev pub ◌>>◌ {ℓ} : {B : Type ℓ} → Result (Unit {0}) → Result B → Result B
m >> k = m >>= λ _. k

-- The `assert` macro of the kernel.
abbrev pub assert : Bool → Result (Unit {0})
assert true = ok tt
assert false = panic

-- A block of memory that holds pointers: a word is `none` until it is written.
abbrev pub Block {ℓ} : Type ℓ → Type ℓ
Block A = List (Option A)

module _ {ℓ} {A : Type ℓ} where
  abbrev pub in_block : Option (Option A) → Result (Option A)
  in_block none = fault
  in_block (some w) = ok w

  abbrev pub set_word : Option A → Result A
  set_word none = fault
  set_word (some a) = ok a

  -- A word is copied whether it is set or not.
  abbrev pub load_word : Block A → ℕ → Result (Option A)
  load_word b i = in_block (get_elem? b i)

  -- A pointer is used only if it is set.
  abbrev pub load : Block A → ℕ → Result A
  load b i = load_word b i >>= set_word

  abbrev pub store : Block A → ℕ → Option A → Result (Block A)
  store b i w = if ltb i (length b) then ok (set b i w) else fault

-- A pointer to `B` that may be NULL.
abbrev pub deref {κ} : {B : Type κ} → Option B → Result B
deref none = fault
deref (some b) = ok b
