-- ===== src/Filesystem/Fat32/Opening/Resolve.antt =====
-- What the file of a path is, and that the loop of `open` finds it.
use mathlib.Core.Path.{subst}
use semester_5_coursework.Prelude.{
  drop-past, drop-drop, append-nil, sym, length-drop, length-append, ltb, take-all, take-within,
  ◌∙◌, arith, take, leb, ap, ◌≤◌, ◌<◌, ◌-◌, ◌⊎◌, ◌≢◌, ◌+◌, ◌++◌, length, ◌≡◌, drop, ℕ, List, refl,
  zero, suc, true, false, some, [], ◌∷◌, inl, inr,
}
use semester_5_coursework.Filesystem.Fat32.{split, run_length}
use semester_5_coursework.Filesystem.Fat32.Names.{
  IsFreeOf, run_length-append, run_length-all, IsFreeOf-append,
}
use semester_5_coursework.Filesystem.Fat32.Opening.{locate, part, find_file, walk}
use semester_5_coursework.Filesystem.Fat32.Volume.{
  Disk, Volume, DirectoryEntry, first_cluster, attribute_directory,
}

-- The last component of a path is a name and an extension, with a dot between them, or a name only.
pub record IsFilePath (path name extension : List ℕ) : Type 0 where
  pub form : ((path ≡ name) × (extension ≡ [])) ⊎ (path ≡ name ++ (46 ∷ extension))
  pub no_dot : IsFreeOf 46 name
  pub no_slash : IsFreeOf 47 name × IsFreeOf 47 extension
  pub short : (length name ≤ 8) × (length extension ≤ 3)

-- A path from the directory at a cluster leads to an entry: through the entries of directories, to
-- one that is no directory.
pub data Resolves (disk : Disk) (v : Volume) : List ℕ → ℕ → DirectoryEntry → Type 0 where
  file :
      (path : List ℕ) (cluster : ℕ) (entry : DirectoryEntry) (name extension : List ℕ)
      → IsFilePath path name extension
      → locate disk v cluster name extension ≡ some (some entry)
      → entry.attributes ≢ attribute_directory
      → Resolves disk v path cluster entry
  directory :
      (path : List ℕ) (cluster : ℕ) (entry : DirectoryEntry) (name rest : List ℕ)
      (sub : DirectoryEntry)
      → path ≡ name ++ (47 ∷ rest)
      → IsFreeOf 47 name
      → length name ≤ 8
      → locate disk v cluster name [] ≡ some (some sub)
      → Resolves disk v rest (first_cluster sub) entry
      → Resolves disk v path cluster entry

walk-file :
    (k : ℕ) (disk : Disk) (v : Volume) (path : List ℕ) (start cluster len : ℕ)
    → split path 47 start ≡ len
    → length path ≤ start + len
    → walk (suc k) disk v path start cluster ≡ find_file disk v path start len cluster
unfolding walk
walk-file k disk v path start cluster len e last =
    let at_end : leb (length path) (start + split path 47 start) ≡ true = ground (arith, e) in
    rw (at_end, walk) (ap (λ (n : ℕ). find_file disk v path start n cluster) e)

walk-directory :
    (k : ℕ) (disk : Disk) (v : Volume) (path name : List ℕ) (start cluster len : ℕ)
    (sub : DirectoryEntry)
    → split path 47 start ≡ len
    → start + len < length path
    → part 8 path start len ≡ some name
    → locate disk v cluster name [] ≡ some (some sub)
    → walk (suc k) disk v path start cluster
      ≡ walk k disk v path (start + len + 1) (first_cluster sub)
unfolding walk
walk-directory k disk v path name start cluster len sub e inside piece found =
    let before_end : leb (length path) (start + split path 47 start) ≡ false = ground (arith, e) in
    let piece' : part 8 path start (split path 47 start) ≡ some name =
      ap (part 8 path start) e ∙ piece in
    rw (before_end, piece', found, walk)
      (ap (λ (n : ℕ). walk k disk v path (start + n + 1) (first_cluster sub)) e)

find_file-found :
    (disk : Disk) (v : Volume) (path name extension : List ℕ) (start len cluster dot : ℕ)
    (entry : DirectoryEntry)
    → split path 46 start ≡ dot
    → part 8 path start dot ≡ some name
    → part 3 path (start + dot + 1) (len - dot - 1) ≡ some extension
    → locate disk v cluster name extension ≡ some (some entry)
    → entry.attributes ≢ attribute_directory
    → find_file disk v path start len cluster ≡ some (some entry)
unfolding find_file
find_file-found disk v path name extension start len cluster dot entry e a b found is_file =
    let a' : part 8 path start (split path 46 start) ≡ some name = ap (part 8 path start) e ∙ a in
    let b' : part 3 path (start + split path 46 start + 1) (len - split path 46 start - 1)
        ≡ some extension =
      ap (λ (n : ℕ). part 3 path (start + n + 1) (len - n - 1)) e ∙ b in
    rw (a', b', found, find_file) (ground (arith, is_file))

-- A piece in front, and one behind it.
part-front :
    (limit : ℕ) (path xs ys : List ℕ) (start : ℕ)
    → drop start path ≡ xs ++ ys
    → length xs ≤ limit
    → part limit path start (length xs) ≡ some xs
part-front limit path xs ys start e short =
    let piece : take (length xs) (drop start path) ≡ xs =
      ap (take (length xs)) e
      ∙ take-within (length xs) xs ys (omega arith)
      ∙ take-all (length xs) xs (omega arith) in
    let fits : ltb limit (length xs) ≡ false = ground arith in rw (fits, piece) refl

drop-behind :
    (path xs ys : List ℕ) (d start : ℕ)
    → drop start path ≡ xs ++ (d ∷ ys)
    → drop (start + length xs + 1) path ≡ ys
drop-behind path xs ys d start e =
    let at_ys : start + (length xs + 1) ≡ start + length xs + 1 = omega arith in
    let one_on : length xs + 1 - length xs ≡ 1 = omega arith in
    ap (λ (n : ℕ). drop n path) (sym at_ys)
    ∙ sym (drop-drop (length xs + 1) start path)
    ∙ ap (drop (length xs + 1)) e
    ∙ drop-past (length xs + 1) xs (d ∷ ys) (omega arith)
    ∙ ap (λ (n : ℕ). drop n (d ∷ ys)) one_on

part-behind :
    (limit : ℕ) (path xs ys : List ℕ) (d start len : ℕ)
    → drop start path ≡ xs ++ (d ∷ ys)
    → len ≡ length (xs ++ (d ∷ ys))
    → length ys ≤ limit
    → part limit path (start + length xs + 1) (len - length xs - 1) ≡ some ys
part-behind limit path xs ys d start len e same short =
    let len' : len - length xs - 1 ≡ length ys =
      omega (arith, length-append {0} xs (d ∷ ys), same) in
    subst (λ (n : ℕ). part limit path (start + length xs + 1) n ≡ some ys) (sym len')
      (part-front limit path ys [] (start + length xs + 1)
        (drop-behind path xs ys d start e ∙ sym (append-nil ys)) short)

-- What the calls of `split` find in the last component.
split-name :
    (path p name extension : List ℕ) (start : ℕ)
    → drop start path ≡ p
    → IsFilePath p name extension
    → split path 46 start ≡ length name
unfolding split
split-name path p name extension start e parts = elim parts.form [
  | inl (same, _) ↦
      ap (λ (l : List ℕ). run_length l 46) (e ∙ same) ∙ run_length-all 46 name parts.no_dot
  | inr same ↦
      ap (λ (l : List ℕ). run_length l 46) (e ∙ same)
      ∙ run_length-append 46 name extension parts.no_dot
]

split-path :
    (path p name extension : List ℕ) (start : ℕ)
    → drop start path ≡ p
    → IsFilePath p name extension
    → split path 47 start ≡ length p
unfolding split
split-path path p name extension start e parts = elim parts.form [
  | inl (same, _) ↦
      ap (λ (l : List ℕ). run_length l 47) (e ∙ same)
      ∙ run_length-all 47 name parts.no_slash.0
      ∙ ap length (sym same)
  | inr same ↦
      ap (λ (l : List ℕ). run_length l 47) (e ∙ same)
      ∙ run_length-all 47 (name ++ (46 ∷ extension)) (
          IsFreeOf-append 47 name (46 ∷ extension) parts.no_slash.0
            ((λ z. omega arith), parts.no_slash.1))
      ∙ ap length (sym same)
]

part-name :
    (path p name extension : List ℕ) (start : ℕ)
    → drop start path ≡ p
    → IsFilePath p name extension
    → part 8 path start (length name) ≡ some name
part-name path p name extension start e parts = elim parts.form [
  | inl (same, _) ↦ part-front 8 path name [] start (e ∙ same ∙ sym (append-nil name)) parts.short.0
  | inr same ↦ part-front 8 path name (46 ∷ extension) start (e ∙ same) parts.short.0
]

part-extension :
    (path p name extension : List ℕ) (start : ℕ)
    → drop start path ≡ p
    → IsFilePath p name extension
    → part 3 path (start + length name + 1) (length p - length name - 1) ≡ some extension
part-extension path p name extension start e parts = elim parts.form [
  | inl (same, none_there) ↦
      let nothing : length p - length name - 1 ≡ 0 = omega (arith, ap length same) in
      ap (part 3 path (start + length name + 1)) nothing ∙ ap some (sym none_there)
  | inr same ↦
      part-behind 3 path name extension 46 start (length p) (e ∙ same) (ap length same)
        parts.short.1
]

-- The loop finds what the path leads to, in as many rounds as the path is long and one.
pub walk-Resolves :
    (k : ℕ) (disk : Disk) (v : Volume) (path p : List ℕ) (start cluster : ℕ)
    (entry : DirectoryEntry)
    → drop start path ≡ p
    → length p < k
    → Resolves disk v p cluster entry
    → walk k disk v path start cluster ≡ some (some entry)
unfolding split
walk-Resolves zero disk v path p start cluster entry e enough r = absurd (omega arith)
walk-Resolves (suc k) disk v path p start cluster entry e enough
      (file _ _ _ name extension parts found is_file) =
    walk-file k disk v path start cluster (length p)
      (split-path path p name extension start e parts)
      (omega (arith, ap length e, length-drop start path))
    ∙ find_file-found disk v path name extension start (length p) cluster (length name) entry
        (split-name path p name extension start e parts)
        (part-name path p name extension start e parts)
        (part-extension path p name extension start e parts) found is_file
walk-Resolves (suc k) disk v path p start cluster entry e enough
      (directory _ _ _ name rest sub form no_slash short found r) =
    let total = length-append {0} name (47 ∷ rest) in
    let at_name : split path 47 start ≡ length name =
      ap (λ (l : List ℕ). run_length l 47) (e ∙ form) ∙ run_length-append 47 name rest no_slash in
    walk-directory k disk v path name start cluster (length name) sub at_name
      (omega (arith, ap length e, length-drop start path, ap length form, total))
      (part-front 8 path name (47 ∷ rest) start (e ∙ form) short) found
    ∙ walk-Resolves k disk v path rest (start + length name + 1) (first_cluster sub) entry
        (drop-behind path name rest 47 start (e ∙ form)) (omega (arith, ap length form, total)) r
