-- ===== src/Memory/Physical/Tests.antt =====
-- The page allocator at concrete bitmaps: three pages taken, and all of them.
use semester_5_coursework.Prelude.{ap, arith, ◌⊎◌, ◌≡◌, replicate, refl, ℕ, ◌∷◌, some}
use semester_5_coursework.Memory.Physical.{malloc, free, Bitmap}
use semester_5_coursework.Memory.Physical.Pages.{malloc_cases, Allocates, IsFull, free-malloc}

-- The pages 0, 1 and 3 of word 0 are taken.
abbrev some_taken : Bitmap
some_taken = 11 ∷ replicate 31 0

malloc_picks_gap : malloc some_taken ≡ (0x402000, 15 ∷ replicate 31 0)
unfolding malloc
malloc_picks_gap = refl

malloc_exhausted : malloc (replicate 32 0xffff_ffff) ≡ (0, replicate 32 0xffff_ffff)
unfolding malloc
malloc_exhausted = refl

free-malloc_example : free (malloc some_taken).1 (malloc some_taken).0 ≡ some some_taken
free-malloc_example =
    free-malloc some_taken refl (λ z. ground (arith, ap (λ (r : ℕ × Bitmap). r.0) malloc_picks_gap))

malloc_cases_example :
    IsFull some_taken (malloc some_taken)
    ⊎ ((i : ℕ) × (j : ℕ) × Allocates some_taken i j (malloc some_taken))
malloc_cases_example = malloc_cases some_taken
