-- ===== src/Filesystem/Fat32/Tests.antt =====
-- A file of five bytes, a path and the names that `locate` looks for.
use semester_5_coursework.Prelude.{◌≡◌, refl, [], ◌∷◌, some}
use semester_5_coursework.Filesystem.Fat32.{File, read_file, split, filename}

abbrev five_bytes : File
five_bytes = record { buffer = 1 ∷ 2 ∷ 3 ∷ 4 ∷ 5 ∷ []; size = 5; pos = 3 }

split-bin : split (47 ∷ 66 ∷ 73 ∷ 78 ∷ 47 ∷ 83 ∷ 72 ∷ []) 47 1 ≡ 3
unfolding split
split-bin = refl

-- "A.OUT", and "A.C", whose extension stands in the last byte.
filename-out :
    filename (65 ∷ []) (79 ∷ 85 ∷ 84 ∷ [])
    ≡ some (65 ∷ 32 ∷ 32 ∷ 32 ∷ 32 ∷ 32 ∷ 32 ∷ 32 ∷ 79 ∷ 85 ∷ 84 ∷ [])
unfolding filename
filename-out = refl

filename-short :
    filename (65 ∷ []) (67 ∷ []) ≡ some (65 ∷ 32 ∷ 32 ∷ 32 ∷ 32 ∷ 32 ∷ 32 ∷ 32 ∷ 32 ∷ 32 ∷ 67 ∷ [])
unfolding filename
filename-short = refl

-- A position behind the end: the result of `read` is the negative difference.
read-behind :
    read_file 4 (record five_bytes { pos = 7 })
    ≡ some (0xffff_fffe, [], record five_bytes { pos = 5 })
unfolding read_file
read-behind = refl
