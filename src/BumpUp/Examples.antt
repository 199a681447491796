-- ===== src/BumpUp/Examples.antt =====
-- The allocator on a small range.
use all.Prelude.{ℕ, ◌+◌, ◌*◌, ◌^◌, ◌%◌, ◌≤◌, ◌<◌, ◌≡◌, refl, some, none, List, [], ◌∷◌, arith, ◌⊎◌}
use all.BumpUp.{address_mod, Range, Request, allocate}
use all.BumpUp.Laws.{Fits, IsAlignedUp, AreApart, allocate_lem, allocate_all, allocate_all-AreApart}

abbrev small : Range
small = record { low = 101; high = 120 }

-- Four elements of 8 bytes, aligned to 8.
abbrev four : Request
four = record { align = 3; size = 8; count = 4 }

four-Fits : Fits four small
four-Fits = record { start = omega arith; ordered = omega arith; room = omega arith }

-- The block ends at 136, behind the end of the range.
overrun : allocate four small ≡ some (104, record { low = 136; high = 120 })
unfolding allocate
overrun = refl

allocate_lem_example :
    (p : ℕ) × IsAlignedUp (2 ^ 3) 101 p
    × ((p + 8 ≤ 120)
          × (allocate four small ≡ some (p, record { low = (p + 8 * 4) % address_mod; high = 120 }))
        ⊎ (120 < p + 8) × (allocate four small ≡ none))
allocate_lem_example = allocate_lem four small four-Fits

abbrev one : Request
one = record { align = 3; size = 8; count = 1 }

allocate_all-AreApart_example :
    ((blocks : List (ℕ × ℕ)) × (allocate_all (one ∷ one ∷ []) small ≡ some blocks)
      × AreApart 101 120 blocks)
    ⊎ (allocate_all (one ∷ one ∷ []) small ≡ none)
allocate_all-AreApart_example =
    allocate_all-AreApart (one ∷ one ∷ []) small (omega arith) (omega arith)
      (refl, omega arith, (refl, omega arith, tt))
