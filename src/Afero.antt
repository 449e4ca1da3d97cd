-- ===== src/Afero.antt =====
-- The interfaces `afero.Fs` and `afero.File` (of github.com/spf13/afero), which the file systems of
-- fs/ implement or wrap. A call takes the state of the file system and returns it with its results;
-- a nil pointer is `none`.
use ftpserver.Base.{ℕ, Bool, false, Option, none, some, List, Text, Error, Run}
use ftpserver.Strings.{ℤ}

pub record AferoFs : Type 1 where
  pub State : Type 0
  pub File : Type 0
  pub FileInfo : Type 0
  pub name : Text
  pub chtimes : State → (name : Text) → (atime mtime : ℤ) → State × Option Error
  pub chmod : State → (name : Text) → (mode : ℕ) → State × Option Error
  pub chown : State → (name : Text) → (uid gid : ℤ) → State × Option Error
  pub stat : State → (name : Text) → State × Option FileInfo × Option Error
  pub rename : State → (oldname newname : Text) → State × Option Error
  pub remove_all : State → (name : Text) → State × Option Error
  pub remove : State → (name : Text) → State × Option Error
  pub open_file : State → (name : Text) → (flag mode : ℕ) → State × Option File × Option Error
  pub open_named : State → (name : Text) → State × Option File × Option Error
  pub mkdir : State → (name : Text) → (mode : ℕ) → State × Option Error
  pub mkdir_all : State → (name : Text) → (mode : ℕ) → State × Option Error
  pub create : State → (name : Text) → State × Option File × Option Error
  -- `afero.Lstater`, where the file system implements it
  pub lstat_if_possible :
      Option (State → (name : Text) → State × Option FileInfo × Bool × Option Error)
  pub file_name : State → File → Run Text

-- The calls of the interface as data.
pub data Request : Type 0 where
  chtimes : (name : Text) → (atime mtime : ℤ) → Request
  chmod : (name : Text) → (mode : ℕ) → Request
  chown : (name : Text) → (uid gid : ℤ) → Request
  stat : (name : Text) → Request
  rename : (oldname newname : Text) → Request
  remove_all : (name : Text) → Request
  remove : (name : Text) → Request
  open_file : (name : Text) → (flag mode : ℕ) → Request
  open_named : (name : Text) → Request
  mkdir : (name : Text) → (mode : ℕ) → Request
  mkdir_all : (name : Text) → (mode : ℕ) → Request
  create : (name : Text) → Request
  lstat : (name : Text) → Request

pub data Reply (File FileInfo : Type 0) : Type 0 where
  status : Option Error → Reply File FileInfo
  opened : Option File → Option Error → Reply File FileInfo
  info : Option FileInfo → Option Error → Reply File FileInfo
  linfo : Option FileInfo → Bool → Option Error → Reply File FileInfo

module _ (fs : AferoFs) where
  abbrev pub Answer : Type 0
  Answer = fs.State × Reply fs.File fs.FileInfo

  abbrev pub as_status : fs.State × Option Error → Answer
  as_status (s, e) = (s, status e)

  abbrev pub as_opened : fs.State × Option fs.File × Option Error → Answer
  as_opened (s, f, e) = (s, opened f e)

  abbrev pub as_info : fs.State × Option fs.FileInfo × Option Error → Answer
  as_info (s, i, e) = (s, info i e)

  abbrev pub as_linfo : fs.State × Option fs.FileInfo × Bool × Option Error → Answer
  as_linfo (s, i, lstat_called, e) = (s, linfo i lstat_called e)

  abbrev pub as_stat : fs.State × Option fs.FileInfo × Option Error → Answer
  as_stat (s, i, e) = (s, linfo i false e)

  -- `LstatIfPossible` of a file system that may not implement it: `Stat` then serves.
  abbrev pub lstat_or_stat :
      Option (fs.State → Text → fs.State × Option fs.FileInfo × Bool × Option Error)
      → fs.State
      → Text
      → Answer
  lstat_or_stat (some f) s name = as_linfo (f s name)
  lstat_or_stat none s name = as_stat (fs.stat s name)

  -- A call by its description.
  abbrev pub call : Request → fs.State → Answer
  call (chtimes name atime mtime) s = as_status (fs.chtimes s name atime mtime)
  call (chmod name mode) s = as_status (fs.chmod s name mode)
  call (chown name uid gid) s = as_status (fs.chown s name uid gid)
  call (stat name) s = as_info (fs.stat s name)
  call (rename oldname newname) s = as_status (fs.rename s oldname newname)
  call (remove_all name) s = as_status (fs.remove_all s name)
  call (remove name) s = as_status (fs.remove s name)
  call (open_file name flag mode) s = as_opened (fs.open_file s name flag mode)
  call (open_named name) s = as_opened (fs.open_named s name)
  call (mkdir name mode) s = as_status (fs.mkdir s name mode)
  call (mkdir_all name mode) s = as_status (fs.mkdir_all s name mode)
  call (create name) s = as_opened (fs.create s name)
  call (lstat name) s = lstat_or_stat fs.lstat_if_possible s name

-- The methods of `afero.File` over the state of its file system. A read gives the bytes that it has
-- put into the buffer of the caller, whose length it is told; what the buffer held is not modelled.
pub record FileOps (State File FileInfo : Type 0) : Type 0 where
  pub close : State → File → State × Option Error
  pub read : State → File → (len : ℕ) → State × Text × Option Error
  pub read_at : State → File → (len off : ℕ) → State × Text × Option Error
  pub seek : State → File → (offset : ℤ) → (whence : ℕ) → State × ℤ × Option Error
  pub write : State → File → Text → State × ℕ × Option Error
  pub write_at : State → File → Text → (off : ℕ) → State × ℕ × Option Error
  pub name : State → File → Text
  pub readdir : State → File → (count : ℤ) → State × List FileInfo × Option Error
  pub readdirnames : State → File → (n : ℤ) → State × List Text × Option Error
  pub stat : State → File → State × Option FileInfo × Option Error
  pub sync : State → File → State × Option Error
  pub truncate : State → File → (size : ℤ) → State × Option Error
  pub write_string : State → File → Text → State × ℕ × Option Error
