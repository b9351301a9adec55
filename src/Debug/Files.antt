-- ===== src/Debug/Files.antt =====
-- Making and removing the files: `wcn36xx_debugfs_init` and `wcn36xx_debugfs_exit`.
use wcn36xx.Common.{
  ℕ, ◌≡◌, refl, Bool, true, false, ◌==◌, ==_refl, if◌then◌else◌, Option, none, some, List, [], ◌∷◌,
  ◌++◌,
}

pub data FileName : Type 0 where
  bmps_switcher dump : FileName

-- An entry of the debug file system: the directory of the driver by a number, or a file in such a
-- directory, or at the top.
pub data Entry : Type 0 where
  dir : ℕ → Entry
  file : Option ℕ → FileName → Entry

-- `dfs->rootdir`, and the entries that exist.
pub record Dfs : Type 0 where
  pub rootdir : Option ℕ
  pub entries : List Entry

-- ADD_FILE: `created` is whether `debugfs_create_file` succeeds. A null parent is the top.
unfoldable pub add_file : FileName → Bool → Dfs → Dfs
add_file name created d =
    if created then record d { entries = file d.rootdir name ∷ d.entries } else d

-- What `debugfs_create_dir` gives: a directory, or an error, for which `rootdir` is null.
unfoldable pub create_dir : Option ℕ → Dfs → Dfs
create_dir none d = record d { rootdir = none }
create_dir (some r) d = record { rootdir = some r; entries = dir r ∷ d.entries }

unfoldable pub debugfs_init : Option ℕ → Bool → Bool → Dfs → Dfs
unfolding add_file create_dir
debugfs_init made first second d =
    add_file dump second (add_file bmps_switcher first (create_dir made d))

abbrev pub is_below : ℕ → Entry → Bool
is_below r (dir q) = q == r
is_below r (file none name) = false
is_below r (file (some q) name) = q == r

abbrev pub without : ℕ → List Entry → List Entry
without r [] = []
without r (e ∷ es) = if is_below r e then without r es else e ∷ without r es

-- `debugfs_remove_recursive`, which does nothing with a null pointer.
unfoldable pub remove_recursive : Option ℕ → List Entry → List Entry
remove_recursive none es = es
remove_recursive (some r) es = without r es

unfoldable pub debugfs_exit : Dfs → Dfs
unfolding remove_recursive
debugfs_exit d = record d { entries = remove_recursive d.rootdir d.entries }

-- No entry of the list is the directory or below it.
abbrev pub Unnamed : ℕ → List Entry → Type 0
Unnamed r [] = Unit {0}
Unnamed r (e ∷ es) = (is_below r e ≡ false) × Unnamed r es

without-Unnamed : (r : ℕ) (es : List Entry) → Unnamed r es → without r es ≡ es
without-Unnamed r [] u = refl
without-Unnamed r (e ∷ es) (here, u) = rw (here, without-Unnamed r es u) refl

abbrev pub files_at_top : Bool → Bool → List Entry
files_at_top first second =
    (if second then file none dump ∷ [] else [])
    ++ (if first then file none bmps_switcher ∷ [] else [])

removed :
    (r : ℕ) (first second : Bool) (d : Dfs)
    → Unnamed r d.entries
    → (debugfs_exit (debugfs_init (some r) first second d)).entries ≡ d.entries
unfolding debugfs_exit debugfs_init
removed r true true d u = rw (==_refl r, without-Unnamed r d.entries u) refl
removed r true false d u = rw (==_refl r, without-Unnamed r d.entries u) refl
removed r false true d u = rw (==_refl r, without-Unnamed r d.entries u) refl
removed r false false d u = rw (==_refl r, without-Unnamed r d.entries u) refl

kept :
    (first second : Bool) (d : Dfs)
    → (debugfs_exit (debugfs_init none first second d)).entries
      ≡ files_at_top first second ++ d.entries
unfolding debugfs_exit debugfs_init
kept true true d = refl
kept true false d = refl
kept false true d = refl
kept false false d = refl

-- When a new directory could be made, exit after init leaves the entries from before, whichever files
-- could be made. When it could not, the files that could be made stand at the top of the debug
-- file system, and exit leaves them there.
pub debugfs_init-debugfs_exit :
    (r : ℕ) (first second : Bool) (d : Dfs)
    → Unnamed r d.entries
    → ((debugfs_exit (debugfs_init (some r) first second d)).entries ≡ d.entries)
      × ((debugfs_exit (debugfs_init none first second d)).entries
          ≡ files_at_top first second ++ d.entries)
debugfs_init-debugfs_exit r first second d u = (removed r first second d u, kept first second d)
