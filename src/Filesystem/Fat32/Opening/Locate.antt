-- ===== src/Filesystem/Fat32/Opening/Locate.antt =====
-- What `locate` finds in a directory's sector.
use mathlib.Core.List.{List-discrete}
use mathlib.Core.Path.{subst}
use native.Mathlib.Decide.{dec_lt, ℕ_discrete}
use semester_5_coursework.Prelude.{
  replicate, length-set, ◌-◌, set, Option-cases, ◌⊎◌, drop, length-take, ◌*◌, ◌∙◌, sym, length-drop,
  ◌≤◌, ◌<◌, ◌+◌, arith, ap, ◌≢◌, ◌≡◌, length, Option, ℕ, List, refl, zero, suc, none, some, [], ◌∷◌,
  inl, inr,
}
use semester_5_coursework.Filesystem.Fat32.{copy_to, filename}
use semester_5_coursework.Filesystem.Fat32.Opening.{memcmp, scan, locate}
use semester_5_coursework.Filesystem.Fat32.Volume.{
  Disk, Volume, DirectoryEntry, entry_at, cluster_sector,
}

memcmp_self : (xs : List ℕ) → memcmp xs xs ≡ 0
unfolding memcmp
memcmp_self [] = refl
memcmp_self (x ∷ xs) = ground (arith, memcmp_self xs)

memcmp-zero : (xs ys : List ℕ) → length xs ≡ length ys → memcmp xs ys ≡ 0 → xs ≡ ys
unfolding memcmp
memcmp-zero [] [] h e = refl
memcmp-zero [] (y ∷ ys) h e = absurd (omega arith)
memcmp-zero (x ∷ xs) [] h e = absurd (omega arith)
memcmp-zero (x ∷ xs) (y ∷ ys) h e = elim (ℕ_discrete x y) [
  | yes same ↦
      let tails : memcmp xs ys ≡ 0 = ground arith in
      cc (same, memcmp-zero xs ys (omega arith) tails)
  | no differ ↦ absurd (ground arith)
]

-- The entry in a slot has the name, or the search goes past it.
abbrev pub IsNamed : List ℕ → ℕ → List ℕ → Type 0
IsNamed s index name = ((entry_at s index).creation_date ≢ 0) × ((entry_at s index).filename ≡ name)

abbrev pub IsPassed : List ℕ → ℕ → List ℕ → Type 0
IsPassed s index name =
    ((entry_at s index).creation_date ≢ 0) × ((entry_at s index).filename ≢ name)

-- What a search of a directory sector for a name from a slot on can end with.
pub data Located (s : List ℕ) (start : ℕ) (name : List ℕ) (r : Option (Option DirectoryEntry))
    : Type 0 where
  listed :
      (i : ℕ)
      → start ≤ i
      → i < 16
      → ((j : ℕ) → start ≤ j → j < i → IsPassed s j name)
      → IsNamed s i name
      → r ≡ some (some (entry_at s i))
      → Located s start name r
  absent :
      (i : ℕ)
      → start ≤ i
      → i < 16
      → ((j : ℕ) → start ≤ j → j < i → IsPassed s j name)
      → (entry_at s i).creation_date ≡ 0
      → r ≡ some none
      → Located s start name r
  behind : ((j : ℕ) → start ≤ j → j < 16 → IsPassed s j name) → r ≡ none → Located s start name r

entry-filename :
    (s : List ℕ) (i : ℕ) → length s ≡ 512 → i < 16 → length (entry_at s i).filename ≡ 11
entry-filename s i h less =
    let left = length-drop (32 * i) s in
    length-take 11 (drop (32 * i) s) ∙ ground (arith, left, h, less)

scan-passed :
    (k : ℕ) (s : List ℕ) (i : ℕ) (name : List ℕ)
    → length s ≡ 512
    → length name ≡ 11
    → i < 16
    → IsPassed s i name
    → scan (suc k) s i name ≡ scan k s (i + 1) name
unfolding scan
scan-passed k s i name h n less (dated, differ) =
    let code : memcmp (entry_at s i).filename name ≢ 0 = λ e.
      differ (memcmp-zero (entry_at s i).filename name (entry-filename s i h less ∙ sym n) e) in
    ground (arith, dated, code)

scan-named :
    (k : ℕ) (s : List ℕ) (i : ℕ) (name : List ℕ)
    → IsNamed s i name
    → scan (suc k) s i name ≡ some (some (entry_at s i))
unfolding scan
scan-named k s i name (dated, same) =
    let zero_code : memcmp (entry_at s i).filename name ≡ 0 =
      ap (memcmp (entry_at s i).filename) (sym same) ∙ memcmp_self (entry_at s i).filename in
    ground (arith, dated, zero_code)

scan-end :
    (k : ℕ) (s : List ℕ) (i : ℕ) (name : List ℕ)
    → (entry_at s i).creation_date ≡ 0
    → scan (suc k) s i name ≡ some none
unfolding scan
scan-end k s i name end = ground (arith, end)

-- One slot more in front.
IsPassed-before :
    (s : List ℕ) (start stop : ℕ) (name : List ℕ)
    → IsPassed s start name
    → ((j : ℕ) → start + 1 ≤ j → j < stop → IsPassed s j name)
    → (j : ℕ) → start ≤ j
    → j < stop
    → IsPassed s j name
IsPassed-before s start stop name passed before j a b = elim (ℕ_discrete start j) [
  | yes same ↦ subst (λ (x : ℕ). IsPassed s x name) same passed
  | no differ ↦ before j (omega arith) b
]

Located-passed :
    (s : List ℕ) (start : ℕ) (name : List ℕ) (r : Option (Option DirectoryEntry))
    → IsPassed s start name
    → Located s (start + 1) name r
    → Located s start name r
Located-passed s start name r passed (listed i lo hi before named e) =
    listed i (omega arith) hi (IsPassed-before s start i name passed before) named e
Located-passed s start name r passed (absent i lo hi before end e) =
    absent i (omega arith) hi (IsPassed-before s start i name passed before) end e
Located-passed s start name r passed (behind before e) =
    behind (IsPassed-before s start 16 name passed before) e

none_between : (s : List ℕ) (i : ℕ) (name : List ℕ) (j : ℕ) → i ≤ j → j < i → IsPassed s j name
none_between s i name j a b = absurd (omega arith)

scan-Located :
    (k i : ℕ) (s name : List ℕ)
    → length s ≡ 512
    → length name ≡ 11
    → i + k ≡ 16
    → Located s i name (scan k s i name)
unfolding scan
scan-Located zero i s name h n enough = behind (λ j a b. absurd (omega arith)) refl
scan-Located (suc k) i s name h n enough = elim (ℕ_discrete (entry_at s i).creation_date 0) [
  | yes end ↦
      absent i (omega arith) (omega arith) (none_between s i name) end (scan-end k s i name end)
  | no dated ↦ elim (List-discrete ℕ_discrete (entry_at s i).filename name) [
    | yes same ↦
        listed i (omega arith) (omega arith) (none_between s i name) (dated, same)
          (scan-named k s i name (dated, same))
    | no differ ↦
        subst (Located s i name) (sym (scan-passed k s i name h n (omega arith) (dated, differ))) (
          Located-passed s i name (scan k s (i + 1) name) (dated, differ)
            (scan-Located k (i + 1) s name h n (omega arith)))
  ]
]

length-copy_to : (dst : List ℕ) (i : ℕ) (xs : List ℕ) → length (copy_to dst i xs) ≡ length dst
unfolding copy_to
length-copy_to dst i [] = refl
length-copy_to dst i (x ∷ xs) = length-copy_to (set dst i x) (i + 1) xs ∙ length-set dst i x

filename-length : (name extension f : List ℕ) → filename name extension ≡ some f → length f ≡ 11
unfolding filename
filename-length name extension f e = elim (dec_lt 11 (length name + length extension)) [
  | yes long ↦ absurd (ground arith)
  | no fits ↦
      let at = 11 - length extension in
      let body = copy_to (replicate 11 32) 0 name in
      let same : copy_to body at extension ≡ f = ground arith in
      ap length (sym same)
      ∙ length-copy_to body at extension
      ∙ length-copy_to (replicate 11 32) 0 name
]

locate-scan :
    (disk : Disk) (v : Volume) (cluster : ℕ) (name extension f : List ℕ)
    → v.boot_record.bpb.bytes_per_sector ≡ 512
    → filename name extension ≡ some f
    → locate disk v cluster name extension ≡ scan 16 (disk (cluster_sector v cluster)) 0 f
unfolding locate
locate-scan disk v cluster name extension f size e = rw (e, locate) (ground (arith, size))

-- In a volume whose sectors have 512 bytes, `locate` returns the first entry of the directory's
-- sector that has the name, if none before it has an empty date; or it fails, when an entry with an
-- empty date comes first or the name is too long; or all 16 entries have other names and it reads
-- on behind them.
pub locate-Located :
    (disk : Disk) (v : Volume) (cluster : ℕ) (name extension : List ℕ)
    → v.boot_record.bpb.bytes_per_sector ≡ 512
    → length (disk (cluster_sector v cluster)) ≡ 512
    → ((filename name extension ≡ none) × (locate disk v cluster name extension ≡ some none))
      ⊎ ((f : List ℕ) × (filename name extension ≡ some f)
          × Located (disk (cluster_sector v cluster)) 0 f (locate disk v cluster name extension))
unfolding locate
locate-Located disk v cluster name extension size full =
    elim (Option-cases (filename name extension)) [
      | inl e ↦ inl (e, rw (e, locate) refl)
      | inr (f, e) ↦ inr (
        f,
        e,
        subst (Located (disk (cluster_sector v cluster)) 0 f)
            (sym (locate-scan disk v cluster name extension f size e))
            (scan-Located 16 0 (disk (cluster_sector v cluster)) f full
              (filename-length name extension f e) refl),
      )
    ]
