-- ===== src/Execution/MemoryDisk.antt =====
-- A disk in memory: the files with their contents. It meets the laws of the file system.
use aisdlc.Prelude.{
  ◌≡◌, refl, arith, true, false, not, List, [], ◌∷◌, Option, none, some, any, keep, if◌then◌else◌,
  ap,
}
use aisdlc.Text.{Text, codes}
use aisdlc.Execution.Disk.{FilePath, Disk, is_under, same_path}
use aisdlc.Execution.Atomic.{same_path→eq}

abbrev pub Files : Type 0
Files = List (FilePath × Text)

unfoldable pub look_up : Files → FilePath → Option Text
unfolding same_path
look_up [] path = none
look_up ((at, content) ∷ s) path = if same_path at path then some content else look_up s path

abbrev pub temp_root : FilePath
temp_root = codes "tmp" ∷ []

unfoldable pub make_temp : Files → Option (FilePath × Files)
unfolding any is_under
make_temp s = if any (λ e. is_under temp_root e.0) s then none else some (temp_root, s)

unfoldable pub remove : FilePath → Files → Files
unfolding keep is_under
remove root s = keep (λ e. not (is_under root e.0)) s

same_path-is_under :
    (root at path : FilePath) → same_path at path ≡ true → is_under root at ≡ is_under root path
same_path-is_under root at path h = ap (is_under root) (same_path→eq at path h)

pub make_temp-look_up :
    (s s' : Files) (root path : FilePath)
    → make_temp s ≡ some (root, s')
    → look_up s' path ≡ look_up s path
unfolding make_temp
make_temp-look_up s s' root path h = ground arith

fresh-none :
    (s : Files) (path : FilePath)
    → any (λ e. is_under temp_root e.0) s ≡ false
    → is_under temp_root path ≡ true
    → look_up s path ≡ none
unfolding any look_up
fresh-none [] path h under = refl
fresh-none ((at, content) ∷ s) path h under =
    let eq = same_path→eq at path in let rest = fresh-none s path in ground arith

pub make_temp-fresh :
    (s s' : Files) (root path : FilePath)
    → make_temp s ≡ some (root, s')
    → is_under root path ≡ true
    → look_up s path ≡ none
unfolding make_temp
make_temp-fresh s s' root path h under =
    let root_eq : root ≡ temp_root = ground arith in
    let free : any (λ e. is_under temp_root e.0) s ≡ false = ground arith in
    fresh-none s path free (rw root_eq at under)

pub remove-look_up :
    (root : FilePath) (s : Files) (path : FilePath)
    → look_up (remove root s) path ≡ (if is_under root path then none else look_up s path)
unfolding look_up remove keep
remove-look_up root [] path = ground arith
remove-look_up root ((at, content) ∷ s) path =
    let eq = same_path→eq at path in let rest = remove-look_up root s path in ground arith

pub write-look_up :
    (at : FilePath) (content : Text) (s s' : Files) (path : FilePath)
    → some ((at, content) ∷ s) ≡ some s'
    → look_up s' path ≡ (if same_path at path then some content else look_up s path)
unfolding look_up
write-look_up at content s s' path h = ground arith

unfoldable pub memory_disk : Disk
unfolding look_up make_temp remove
memory_disk = record {
  State = Files;
  read = look_up;
  make_temp = make_temp;
  write = λ at content s. some ((at, content) ∷ s);
  remove = remove;
  make_temp-read = make_temp-look_up;
  make_temp-fresh = make_temp-fresh;
  write-read = write-look_up;
  remove-read = remove-look_up;
}
