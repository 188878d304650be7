-- ===== src/Memory/Paging/Tests.antt =====
-- Pages and directories of an empty memory.
use semester_5_coursework.Prelude.{
  length-replicate, ◌⊎◌, ◌≢◌, arith, ◌^◌, ◌<◌, ◌≤◌, ◌==◌, ◌%◌, ◌+◌, ℕ, if◌then◌else◌, ◌≡◌,
  replicate, refl, some,
}
use semester_5_coursework.Memory.Paging.{
  default_directory, Paging, create_page, destroy_page, destroy_directory, slot,
}
use semester_5_coursework.Memory.Paging.Fresh.{after}
use semester_5_coursework.Memory.Paging.Translate.{translate}
use semester_5_coursework.Memory.Paging.Leak.{destroy-default_directory}
use semester_5_coursework.Memory.Physical.Pages.{taken}
use semester_5_coursework.Memory.Paging.Seen.{expected, default_directory-translate}
use semester_5_coursework.Memory.Paging.Entry.{destroy-create_page}
use semester_5_coursework.Memory.Physical.{page_address, malloc, find_free, find_bit}

abbrev fresh_memory : Paging
fresh_memory = record { bitmap = replicate 32 0; word = λ p. 0 }

first_page : (malloc fresh_memory.bitmap).0 ≡ 0x400000
unfolding malloc find_free find_bit
first_page = refl

destroy-create_page_example :
    let (page, m') = create_page 3 0x400000 7 fresh_memory in
    (m'.word (slot 0x400000 3) ≡ page + 7 % 2 ^ 12)
    × (0x400000 ≤ page)
    × (page < 0x800000)
    × (m'' : Paging) × (destroy_page 3 0x400000 m' ≡ some m'')
    × (m''.bitmap ≡ fresh_memory.bitmap)
    × (m''.word (slot 0x400000 3) ≡ 0)
    × ((p : ℕ)
        → p ≢ slot 0x400000 3
        → p < page ⊎ page + 4096 ≤ p
        → m''.word p ≡ fresh_memory.word p)
destroy-create_page_example =
    destroy-create_page 3 0x400000 7 fresh_memory (length-replicate {A = ℕ} 32 0)
      (λ e. omega (arith, e, first_page))

-- The fifth page of an empty memory.
fifth_page : (malloc (after 4 fresh_memory.bitmap)).0 ≡ 0x404000
unfolding malloc find_free find_bit after
fifth_page = refl

default_directory-translate_example :
    let (directory, m') = default_directory fresh_memory in
    (0x400000 ≤ directory)
    × (directory < 0x800000)
    × ((address : ℕ) → address < 2 ^ 32 → translate m'.word directory address ≡ expected address)
default_directory-translate_example =
    default_directory-translate fresh_memory (length-replicate {A = ℕ} 32 0)
      (λ e. omega (arith, e, fifth_page))

destroy-default_directory_example :
    let (directory, m') = default_directory fresh_memory in
    (m'' : Paging) × (destroy_directory directory m' ≡ some m'')
    × ((k l : ℕ)
        → k < 32
        → l < 32
        → taken m''.bitmap k l ≡ (
            if page_address k l == (malloc (after 1 fresh_memory.bitmap)).0
            then 1
            else if page_address k l == (malloc (after 2 fresh_memory.bitmap)).0
            then 1
            else if page_address k l == (malloc (after 3 fresh_memory.bitmap)).0
            then 1
            else taken fresh_memory.bitmap k l))
destroy-default_directory_example =
    destroy-default_directory fresh_memory (length-replicate {A = ℕ} 32 0)
      (λ e. omega (arith, e, fifth_page))
