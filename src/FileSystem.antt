-- ===== src/FileSystem.antt =====
-- The file operations that source/common/fileut.h takes from the operating system, as an interface:
-- what source/clogger/rollingfile.c relies on, for files in a directory that the process may write.
use libclogger.Prelude.{ℕ, ◌≡◌, ◌≢◌, Bool, Option, none, some, List, []}

abbrev pub FileName : Type 0
FileName = List ℕ

-- `open`, `close`, `write`, `unlink`, `rename` and the test for a file. A descriptor is a number.
pub record FileSystem : Type 1 where
  pub Files : Type 0
  -- the bytes under a name: what the laws speak of
  pub contents : Files → FileName → Option (List ℕ)
  -- `pathfile_exists`
  pub exists : Files → FileName → Bool
  -- `pathfile_remove`
  pub remove : Files → FileName → Files
  -- `pathfile_move`
  pub move : Files → FileName → FileName → Files
  -- `file_create`, with `O_CREAT | O_EXCL`: none for the invalid descriptor
  pub create : Files → FileName → Option ℕ × Files
  -- `close`
  pub close : Files → ℕ → Files
  -- `file_writebytes`: 0 or -1, as whether it succeeded
  pub write : Files → Option ℕ → List ℕ → Bool × Files

module _ (sys : FileSystem) where
  open sys use {Files, contents, exists, remove, move, create, close}

  -- What the calls are documented to do when they succeed.
  pub record Lawful : Type 0 where
    pub exists_some :
        (fs : Files) (n : FileName) (c : List ℕ) → contents fs n ≡ some c → exists fs n ≡ Bool.true
    pub exists_none : (fs : Files) (n : FileName) → contents fs n ≡ none → exists fs n ≡ Bool.false
    pub remove_self : (fs : Files) (n : FileName) → contents (remove fs n) n ≡ none
    pub remove_other :
        (fs : Files) (n k : FileName) → k ≢ n → contents (remove fs n) k ≡ contents fs k
    pub move_to : (fs : Files) (a b : FileName) → a ≢ b → contents (move fs a b) b ≡ contents fs a
    pub move_from : (fs : Files) (a b : FileName) → a ≢ b → contents (move fs a b) a ≡ none
    pub move_other :
        (fs : Files) (a b k : FileName) → k ≢ a → k ≢ b → contents (move fs a b) k ≡ contents fs k
    pub create_new :
        (fs : Files) (n : FileName)
        → contents fs n ≡ none
        → (fd : ℕ) × ((create fs n).0 ≡ some fd) × (contents (create fs n).1 n ≡ some [])
    pub create_old :
        (fs : Files) (n : FileName) (c : List ℕ) → contents fs n ≡ some c → create fs n ≡ (none, fs)
    pub create_other :
        (fs : Files) (n k : FileName) → k ≢ n → contents (create fs n).1 k ≡ contents fs k
    pub close_same : (fs : Files) (fd : ℕ) (k : FileName) → contents (close fs fd) k ≡ contents fs k
