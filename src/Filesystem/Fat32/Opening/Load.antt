-- ===== src/Filesystem/Fat32/Opening/Load.antt =====
-- The clusters of a file, and what `load_file` reads of them.
use native.Mathlib.Decide.{dec_lt}
use semester_5_coursework.Prelude.{
  take-past, take-within, sym, append-nil, length-take, ltb, append_assoc, set-append,
  length-append, ◌∙◌, ◌*◌, ◌-◌, ◌%◌, arith, ◌^◌, ◌/◌, take, replicate, ap, ◌≤◌, ◌≡◌, ◌<◌, ◌+◌, ◌++◌,
  length, ℕ, List, refl, zero, suc, true, false, some, [], ◌∷◌,
}
use semester_5_coursework.Filesystem.Fat32.{minus_one, greater, slice, copy_to}
use semester_5_coursework.Filesystem.Fat32.Opening.{next_cluster, load_from, load_file}
use semester_5_coursework.Filesystem.Fat32.Reading.{slice-within}
use semester_5_coursework.Filesystem.Fat32.Volume.{
  Disk, Volume, DirectoryEntry, word32, first_cluster, cluster_sector,
}

-- The entry of the allocation table for a cluster, of 128 entries in a sector.
abbrev pub fat_entry : Disk → Volume → (cluster : ℕ) → ℕ
fat_entry disk v c =
    word32 (disk ((v.boot_record.bpb.reserved_sectors + c / 128) % 2 ^ 32)) (4 * (c % 128))

-- The first sectors of so many clusters of a chain.
abbrev pub content : Disk → Volume → (clusters cluster : ℕ) → List ℕ
content disk v zero c = []
content disk v (suc n) c = disk (cluster_sector v c) ++ content disk v n (fat_entry disk v c)

-- The clusters of a chain are nonnegative numbers.
abbrev pub IsChain : Disk → Volume → (clusters cluster : ℕ) → Type 0
IsChain disk v zero c = Unit
IsChain disk v (suc n) c = (c < 2 ^ 31) × IsChain disk v n (fat_entry disk v c)

-- Sectors have 512 bytes.
abbrev pub IsDisk : Disk → Type 0
IsDisk disk = (lba : ℕ) → length (disk lba) ≡ 512

next_cluster-fat_entry :
    (disk : Disk) (v : Volume) (c : ℕ)
    → v.boot_record.bpb.bytes_per_sector ≡ 512
    → c < 2 ^ 31
    → next_cluster disk v c ≡ some (fat_entry disk v c)
next_cluster-fat_entry disk v c size small = rw size (ground arith)

-- What is copied takes the place of zeros.
copy_to-zeros :
    (xs ys : List ℕ) (m : ℕ)
    → length ys ≤ m
    → copy_to (xs ++ replicate m 0) (length xs) ys ≡ xs ++ (ys ++ replicate (m - length ys) 0)
unfolding copy_to
copy_to-zeros xs [] m h = ap (λ (k : ℕ). xs ++ replicate k 0) (omega arith)
copy_to-zeros xs (y ∷ ys) zero h = absurd (omega arith)
copy_to-zeros xs (y ∷ ys) (suc m) h =
    let next : length xs + 1 ≡ length (xs ++ (y ∷ [])) =
      omega (arith, length-append {0} xs (y ∷ [])) in
    ap (λ (l : List ℕ). copy_to l (length xs + 1) ys) (set-append xs 0 y (replicate m 0))
    ∙ ap (λ (i : ℕ). copy_to ((xs ++ (y ∷ [])) ++ replicate m 0) i ys) next
    ∙ copy_to-zeros (xs ++ (y ∷ [])) ys m (omega arith)
    ∙ append_assoc xs (y ∷ []) (ys ++ replicate (m - length ys) 0)
    ∙ ap (λ (k : ℕ). xs ++ (y ∷ (ys ++ replicate k 0))) (omega arith)

-- A last piece, and a whole sector, in the buffer.
copied_last :
    (front sector rest : List ℕ) (size : ℕ)
    → size ≤ length sector
    → copy_to (front ++ replicate size 0) (length front) (take size sector)
      ≡ front ++ take size (sector ++ rest)
copied_last front sector rest size fits =
    let len : length (take size sector) ≡ size = length-take size sector ∙ ground (arith, fits) in
    let none_left : size - length (take size sector) ≡ 0 = omega (arith, len) in
    copy_to-zeros front (take size sector) size (omega (arith, len))
    ∙ ap (λ (m : ℕ). front ++ (take size sector ++ replicate m 0)) none_left
    ∙ ap (λ (l : List ℕ). front ++ l)
        (append-nil (take size sector) ∙ sym (take-within size sector rest fits))

copied_whole :
    (front sector : List ℕ) (size : ℕ)
    → length sector ≡ 512
    → 512 ≤ size
    → copy_to (front ++ replicate size 0) (length front) sector
      ≡ (front ++ sector) ++ replicate (size - 512) 0
copied_whole front sector size whole fits =
    let left : size - length sector ≡ size - 512 = omega (arith, whole) in
    copy_to-zeros front sector size (omega (arith, whole))
    ∙ sym (append_assoc front sector (replicate (size - length sector) 0))
    ∙ ap (λ (m : ℕ). (front ++ sector) ++ replicate m 0) left

content_whole :
    (front sector rest : List ℕ) (size : ℕ)
    → length sector ≡ 512
    → 512 ≤ size
    → (front ++ sector) ++ take (size - 512) rest ≡ front ++ take size (sector ++ rest)
content_whole front sector rest size whole fits =
    let left : size - 512 ≡ size - length sector = omega (arith, whole) in
    append_assoc front sector (take (size - 512) rest)
    ∙ ap (λ (m : ℕ). front ++ (sector ++ take m rest)) left
    ∙ ap (λ (l : List ℕ). front ++ l) (sym (take-past size sector rest (omega (arith, whole))))

-- The two ways of one round.
load_from-more :
    (k : ℕ) (disk : Disk) (v : Volume) (c offset size : ℕ) (buffer : List ℕ)
    → v.boot_record.bpb.bytes_per_sector ≡ 512
    → c < 2 ^ 31
    → 512 < size
    → size < 2 ^ 31
    → load_from (suc k) disk v c offset size buffer
      ≡ load_from k disk v
          (fat_entry disk v c)
          (offset + 512)
          (size - 512)
          (copy_to buffer offset (disk (cluster_sector v c)))
unfolding load_from
load_from-more k disk v c offset size buffer sectors small more top =
    let positive : greater size 0 ≡ true = ground arith in
    let larger : greater size v.boot_record.bpb.bytes_per_sector ≡ true = ground (arith, sectors) in
    rw (positive, larger, next_cluster-fat_entry disk v c sectors small, load_from)
      (ap
        (λ (n : ℕ).
          load_from k disk v (fat_entry disk v c) (offset + n) (size - n)
            (copy_to buffer offset (disk (cluster_sector v c))))
        sectors)

load_from-last :
    (k : ℕ) (disk : Disk) (v : Volume) (c offset size : ℕ) (buffer : List ℕ)
    → v.boot_record.bpb.bytes_per_sector ≡ 512
    → length (disk (cluster_sector v c)) ≡ 512
    → 0 < size
    → size ≤ 512
    → load_from (suc k) disk v c offset size buffer
      ≡ some (0, copy_to buffer offset (take size (disk (cluster_sector v c))))
unfolding load_from
load_from-last k disk v c offset size buffer sectors full positive less =
    let more : greater size 0 ≡ true = ground arith in
    let fits : greater size v.boot_record.bpb.bytes_per_sector ≡ false = ground (arith, sectors) in
    let room : ltb v.boot_record.bpb.bytes_per_sector 512 ≡ false = ground (arith, sectors) in
    let piece : slice (disk (cluster_sector v c)) 0 size
        ≡ some (take size (disk (cluster_sector v c))) =
      slice-within (disk (cluster_sector v c)) 0 size (omega arith) (omega (arith, full)) in
    rw (more, fits, room, piece, load_from) refl

load_from-reads :
    (n k : ℕ) (disk : Disk) (v : Volume) (c size : ℕ) (front : List ℕ)
    → v.boot_record.bpb.bytes_per_sector ≡ 512
    → IsDisk disk
    → IsChain disk v n c
    → 0 < size
    → size < 2 ^ 31
    → size ≤ 512 * n
    → size ≤ k
    → load_from k disk v c (length front) size (front ++ replicate size 0)
      ≡ some (0, front ++ take size (content disk v n c))
unfolding load_from
load_from-reads zero k disk v c size front sectors full chain positive top covers enough =
    absurd (omega arith)
load_from-reads (suc n) zero disk v c size front sectors full chain positive top covers enough =
    absurd (omega arith)
load_from-reads (suc n) (suc k) disk v c size front sectors full (small, chain) positive top covers
      enough =
    let sector = disk (cluster_sector v c) in
    let next = fat_entry disk v c in
    let whole : length sector ≡ 512 = full (cluster_sector v c) in
    elim (dec_lt 512 size) [
      | no last ↦
          load_from-last k disk v c (length front) size (front ++ replicate size 0) sectors whole
            positive (omega arith)
          ∙ ap (λ (l : List ℕ). some (0, l))
              (copied_last front sector (content disk v n next) size (omega (arith, whole)))
      | yes more ↦
          let len : length front + 512 ≡ length (front ++ sector) =
            omega (arith, length-append {0} front sector, whole) in
          load_from-more k disk v c (length front) size (front ++ replicate size 0) sectors small
            more top
          ∙ ap (λ (l : List ℕ). load_from k disk v next (length front + 512) (size - 512) l)
              (copied_whole front sector size whole (omega arith))
          ∙ ap
              (λ (i : ℕ).
                load_from k disk v next i (size - 512)
                  ((front ++ sector) ++ replicate (size - 512) 0))
              len
          ∙ load_from-reads n k disk v next (size - 512) (front ++ sector) sectors full chain
              (omega arith) (omega arith) (omega arith) (omega arith)
          ∙ ap (λ (l : List ℕ). some (0, l))
              (content_whole front sector (content disk v n next) size whole (omega arith))
    ]

-- From a volume and disk of sectors of 512 bytes, `load_file` reads a file that is neither empty nor
-- of 2^31 bytes or more: it returns 0, and the first bytes of what stands in the chain of clusters,
-- one sector for each cluster, as many as the size says, whenever the chain has enough clusters.
pub load_file-reads :
    (n : ℕ) (disk : Disk) (v : Volume) (entry : DirectoryEntry)
    → v.boot_record.bpb.bytes_per_sector ≡ 512
    → IsDisk disk
    → IsChain disk v n (first_cluster entry)
    → 0 < entry.filesize
    → entry.filesize < 2 ^ 31
    → entry.filesize ≤ 512 * n
    → load_file disk v entry
      ≡ some (0, take entry.filesize (content disk v n (first_cluster entry)))
unfolding load_file
load_file-reads n disk v entry sectors full chain positive top covers =
    load_from-reads n (suc entry.filesize) disk v (first_cluster entry) entry.filesize [] sectors
      full chain positive top covers (omega arith)

-- An empty file is no success: the code is -1.
pub load_file-empty :
    (disk : Disk) (v : Volume) (entry : DirectoryEntry)
    → entry.filesize ≡ 0
    → load_file disk v entry ≡ some (minus_one, [])
unfolding load_file load_from
load_file-empty disk v entry empty =
    rw (empty, load_file, load_from) (ap (λ (m : ℕ). some (minus_one, replicate m 0)) empty)
