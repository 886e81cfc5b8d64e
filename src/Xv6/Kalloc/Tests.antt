-- ===== src/Xv6/Kalloc/Tests.antt =====
-- The theorems on the page allocator at three pages of memory.
use asopracticas.Common.{
  ℕ, ◌+◌, ◌-◌, ◌/◌, ◌%◌, ◌≤◌, ◌<◌, ◌≡◌, ◌⊎◌, refl, true, false, none, some, [], ◌∷◌, arith,
}
use asopracticas.Xv6.Kalloc.{Kmem, pgsize, round_up, kfree, freerange}
use asopracticas.Xv6.Kalloc.FreeList.{IsPage, Holds, pushed, kfree_lem, freerange_lem}

abbrev end_of_kernel : ℕ
end_of_kernel = 0x80100000

abbrev nothing_free : Kmem
nothing_free = record { mem = λ _. 7; use_lock = false; freelist = 0 }

-- One free page.
abbrev one_free : Kmem
one_free = record { mem = λ _. 0; use_lock = true; freelist = 0x80101000 }

IsPage-mk : (p : ℕ) → p % pgsize ≡ 0 → end_of_kernel ≤ p → p < 0x8E000000 → IsPage end_of_kernel p
IsPage-mk p al lo hi = record { aligned = al; above = lo; backed = omega arith }

one_free-Holds : Holds end_of_kernel one_free (0x80101000 ∷ [])
one_free-Holds =
    (refl, omega arith, IsPage-mk 0x80101000 refl (omega arith) (omega arith), tt, refl)

kfree_lem_example :
    (IsPage end_of_kernel 0x80102000
      × ((k' : Kmem) × (kfree end_of_kernel 0x80102000 one_free ≡ some k')
          × Holds end_of_kernel k' (0x80102000 ∷ 0x80101000 ∷ [])
          × ((a : ℕ) → (a < 0x80102000) ⊎ (0x80102000 + pgsize ≤ a) → k'.mem a ≡ 0)))
    ⊎ ((IsPage end_of_kernel 0x80102000 → ⊥) × (kfree end_of_kernel 0x80102000 one_free ≡ none))
kfree_lem_example =
    kfree_lem end_of_kernel 0x80102000 one_free (0x80101000 ∷ []) (omega arith) (omega arith, tt)
      one_free-Holds

freerange_lem_example :
    (k' : Kmem) × (freerange end_of_kernel 0x80100001 0x80103000 nothing_free ≡ some k')
    × Holds end_of_kernel k'
        (pushed ((0x80103000 - round_up 0x80100001) / pgsize) (round_up 0x80100001) [])
freerange_lem_example =
    freerange_lem end_of_kernel 0x80100001 0x80103000 nothing_free []
      (record {
        kernel = omega arith;
        aligned = refl;
        above = omega arith;
        low = omega arith;
        high = omega arith;
      })
      tt refl

pages_freed :
    pushed ((0x80103000 - round_up 0x80100001) / pgsize) (round_up 0x80100001) []
    ≡ 0x80102000 ∷ 0x80101000 ∷ []
pages_freed = refl
