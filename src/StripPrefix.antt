-- ===== src/StripPrefix.antt =====
-- fs/stripprefix/stripslash.go: a file system that takes a prefix off every path.
pub mod Transparent
use ftpserver.Base.{
  ℕ, ◌≡◌, refl, Bool, true, false, Option, none, some, List, [], ◌∷◌, ◌++◌, Text, bytes, length,
  drop, ltb, if◌then◌else◌, Error, base_path_too_short, path_error, Result, ok, err, Run, done,
  panic, and_then,
}
use ftpserver.Strings.{ℤ}
use ftpserver.Afero.{AferoFs}

-- A file of the source, with the number of bytes to take off its name.
pub record StripFile (File : Type 0) : Type 0 where
  pub file : Option File
  pub start : ℕ

-- `name[start:]`, which panics beyond the end.
pub slice_from : ℕ → Text → Run Text
slice_from start name = if ltb (length name) start then panic else done (drop start name)

-- `realPath`.
unfoldable pub real_path : ℕ → Text → Result Text
real_path start name =
    if ltb (length name) start then err base_path_too_short else ok (drop start name)

module _ (source : AferoFs) (start : ℕ) where
  open source use {State, File, FileInfo}

  -- The path of the error is the empty one: `name` has been set to what `realPath` returned.
  pub fail_status : Text → Error → State → State × Option Error
  fail_status op e s = (s, some (path_error op [] e))

  -- The methods that return an error only: they differ in the operation named and the call made.
  pub with_path :
      Text → (State → Text → State × Option Error) → State → Result Text → State × Option Error
  unfolding fail_status
  with_path op f s (err e) = fail_status op e s
  with_path op f s (ok name) = f s name

  pub chtimes : State → Text → ℤ → ℤ → State × Option Error
  unfolding with_path
  chtimes s name atime mtime =
      with_path (bytes "chtimes") (λ s name. source.chtimes s name atime mtime) s
        (real_path start name)

  pub chmod : State → Text → ℕ → State × Option Error
  unfolding with_path
  chmod s name mode =
      with_path (bytes "chmod") (λ s name. source.chmod s name mode) s (real_path start name)

  pub chown : State → Text → ℤ → ℤ → State × Option Error
  unfolding with_path
  chown s name uid gid =
      with_path (bytes "chmod") (λ s name. source.chown s name uid gid) s (real_path start name)

  pub stat_at : State → Result Text → State × Option FileInfo × Option Error
  stat_at s (err e) = (s, none, some (path_error (bytes "stat") [] e))
  stat_at s (ok name) = source.stat s name

  pub stat : State → Text → State × Option FileInfo × Option Error
  unfolding stat_at
  stat s name = stat_at s (real_path start name)

  pub rename_to : State → Text → Result Text → State × Option Error
  unfolding fail_status
  rename_to s oldname (err e) = fail_status (bytes "rename") e s
  rename_to s oldname (ok newname) = source.rename s oldname newname

  pub rename_from : State → Result Text → Text → State × Option Error
  unfolding rename_to
  rename_from s (err e) newname = fail_status (bytes "rename") e s
  rename_from s (ok oldname) newname = rename_to s oldname (real_path start newname)

  pub rename : State → Text → Text → State × Option Error
  unfolding rename_from
  rename s oldname newname = rename_from s (real_path start oldname) newname

  pub remove_all : State → Text → State × Option Error
  unfolding with_path
  remove_all s name = with_path (bytes "remove_all") source.remove_all s (real_path start name)

  pub remove : State → Text → State × Option Error
  unfolding with_path
  remove s name = with_path (bytes "remove") source.remove s (real_path start name)

  -- What comes back from opening a file of the source.
  pub wrap_file :
      State × Option File × Option Error → State × Option (StripFile File) × Option Error
  wrap_file (s, f, some e) = (s, none, some e)
  wrap_file (s, f, none) = (s, some (record { file = f; start = start }), none)

  pub open_with :
      Text
      → (State → Text → State × Option File × Option Error)
      → State
      → Result Text
      → State × Option (StripFile File) × Option Error
  unfolding wrap_file
  open_with op f s (err e) = (s, none, some (path_error op [] e))
  open_with op f s (ok name) = wrap_file (f s name)

  pub open_file : State → Text → ℕ → ℕ → State × Option (StripFile File) × Option Error
  unfolding open_with
  open_file s name flag mode =
      open_with (bytes "openfile") (λ s name. source.open_file s name flag mode) s
        (real_path start name)

  pub open_named : State → Text → State × Option (StripFile File) × Option Error
  unfolding open_with
  open_named s name = open_with (bytes "open") source.open_named s (real_path start name)

  pub mkdir : State → Text → ℕ → State × Option Error
  unfolding with_path
  mkdir s name mode =
      with_path (bytes "mkdir") (λ s name. source.mkdir s name mode) s (real_path start name)

  pub mkdir_all : State → Text → ℕ → State × Option Error
  unfolding with_path
  mkdir_all s name mode =
      with_path (bytes "mkdir") (λ s name. source.mkdir_all s name mode) s (real_path start name)

  pub create : State → Text → State × Option (StripFile File) × Option Error
  unfolding open_with
  create s name = open_with (bytes "create") source.create s (real_path start name)

  pub not_called :
      State × Option FileInfo × Option Error → State × Option FileInfo × Bool × Option Error
  not_called (s, i, e) = (s, i, false, e)

  pub lstat_source :
      Option (State → Text → State × Option FileInfo × Bool × Option Error)
      → State
      → Text
      → State × Option FileInfo × Bool × Option Error
  unfolding not_called
  lstat_source (some lstat) s name = lstat s name
  lstat_source none s name = not_called (source.stat s name)

  pub lstat_at : State → Result Text → State × Option FileInfo × Bool × Option Error
  unfolding lstat_source
  lstat_at s (err e) = (s, none, false, some (path_error (bytes "lstat") [] e))
  lstat_at s (ok name) = lstat_source source.lstat_if_possible s name

  pub lstat_if_possible : State → Text → State × Option FileInfo × Bool × Option Error
  unfolding lstat_at
  lstat_if_possible s name = lstat_at s (real_path start name)

  pub name_of : State → Option File → Run Text
  name_of s none = panic
  name_of s (some f) = source.file_name s f

  -- `File.Name`.
  pub file_name : State → StripFile File → Run Text
  unfolding slice_from name_of
  file_name s f = and_then (name_of s f.file) (slice_from f.start)

  -- `NewStripPrefixFs`.
  abbrev pub new_strip_prefix_fs : AferoFs
  new_strip_prefix_fs = record {
    State = State;
    File = StripFile File;
    FileInfo = FileInfo;
    name = bytes "Fs";
    chtimes = chtimes;
    chmod = chmod;
    chown = chown;
    stat = stat;
    rename = rename;
    remove_all = remove_all;
    remove = remove;
    open_file = open_file;
    open_named = open_named;
    mkdir = mkdir;
    mkdir_all = mkdir_all;
    create = create;
    lstat_if_possible = some lstat_if_possible;
    file_name = file_name;
  }
