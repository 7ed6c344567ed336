-- ===== src/Execution/Disk.antt =====
-- The file system as local-apply.ts calls it (node:fs/promises): a parameter with the laws that Node
-- documents. A path is its segments from the root.
use aisdlc.Prelude.{◌≡◌, Bool, true, false, ◌&&◌, if◌then◌else◌, List, Option, some, none, ◌∷◌, []}
use aisdlc.Text.{same, Text}

abbrev pub FilePath : Type 0
FilePath = List Text

unfoldable pub same_path : FilePath → FilePath → Bool
unfolding same
same_path [] [] = true
same_path (s ∷ p) (t ∷ q) = same s t && same_path p q
same_path _ _ = false

-- `path` is `root` or lies under it.
unfoldable pub is_under : FilePath → FilePath → Bool
unfolding same
is_under [] path = true
is_under (s ∷ root) [] = false
is_under (s ∷ root) (t ∷ path) = same s t && is_under root path

pub record Disk : Type 1 where
  pub State : Type 0
  pub read : State → FilePath → Option Text
  -- mkdtemp: a new directory, or an error.
  pub make_temp : State → Option (FilePath × State)
  -- mkdir of the parent (recursive) and writeFile, or an error.
  pub write : FilePath → Text → State → Option State
  -- rm (recursive, force)
  pub remove : FilePath → State → State
  pub make_temp-read :
      (s s' : State) (root path : FilePath)
      → make_temp s ≡ some (root, s')
      → read s' path ≡ read s path
  pub make_temp-fresh :
      (s s' : State) (root path : FilePath)
      → make_temp s ≡ some (root, s')
      → is_under root path ≡ true
      → read s path ≡ none
  pub write-read :
      (at : FilePath) (content : Text) (s s' : State) (path : FilePath)
      → write at content s ≡ some s'
      → read s' path ≡ (if same_path at path then some content else read s path)
  pub remove-read :
      (root : FilePath) (s : State) (path : FilePath)
      → read (remove root s) path ≡ (if is_under root path then none else read s path)
