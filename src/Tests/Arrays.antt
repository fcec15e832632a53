-- ===== src/Tests/Arrays.antt =====
-- kern/lib/array.c and kern/lib/queue.c on concrete arrays and queues.
use cs325os.Base.{
  ℕ, ◌<◌, ◌≡◌, refl, Bool, true, false, none, some, [], ◌∷◌, ok, erase_at, arith, enomem, get_elem?,
}
use cs325os.Base.Int.{pos}
use cs325os.Array.{
  Array, add, remove, setsize, preallocate, grow_max, resize, copy_words, move_down,
}
use cs325os.Array.Items.{IsValid, items, block}
use cs325os.Array.Room.{Grows, setsize-items}
use cs325os.Array.Access.{remove-erase_at}

abbrev always : ℕ → Bool
always n = true

-- A `kmalloc` with no memory left.
abbrev never : ℕ → Bool
never n = false

-- Two items in a block of three words.
abbrev two : Array ℕ
two = record { num = 2; max = 3; v = some (some 7 ∷ some 8 ∷ none ∷ []) }

abbrev full : Array ℕ
full = record { num = 2; max = 2; v = some (some 7 ∷ some 8 ∷ []) }

two-IsValid : IsValid two
two-IsValid = omega arith

full-IsValid : IsValid full
full-IsValid = omega arith

add_grows :
    add always full 9
    ≡ ok (
      0,
      record { num = 3; max = 6; v = some (some 7 ∷ some 8 ∷ some 9 ∷ none ∷ none ∷ none ∷ []) },
    )
unfolding add setsize resize preallocate grow_max copy_words
add_grows = refl

add_no_memory : add never full 9 ≡ ok (enomem, full)
unfolding add setsize resize preallocate grow_max
add_no_memory = refl

remove_first :
    remove two (pos 0) ≡ ok (record { num = 1; max = 3; v = some (some 8 ∷ some 8 ∷ none ∷ []) })
unfolding remove move_down
remove_first = refl

setsize-items_example :
    Grows always two
      (λ a'.
        (a'.num ≡ 1)
        × ((j : ℕ) → j < 1 → j < 2 → get_elem? (block a'.v) j ≡ get_elem? (block two.v) j))
      (setsize always two 1)
setsize-items_example = setsize-items always 1 two-IsValid (omega arith)

remove-erase_at_example :
    (a' : Array ℕ) × (remove two (pos 0) ≡ ok a') × IsValid a' × (items a' ≡ erase_at 0 (items two))
remove-erase_at_example = remove-erase_at 0 two-IsValid (omega arith)
