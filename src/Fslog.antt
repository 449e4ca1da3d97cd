-- ===== src/Fslog.antt =====
-- fs/fslog/fslog.go: a file system that logs the accesses to another one.
pub mod Files
pub mod Transparent
use ftpserver.Base.{
  ℕ, Bool, true, Option, none, some, List, [], ◌∷◌, ◌++◌, Text, bytes, Error, Run, panic, done,
}
use ftpserver.Strings.{ℤ}
use ftpserver.Afero.{AferoFs}

-- The values that are logged.
pub data Value : Type 0 where
  text : Text → Value
  number : ℕ → Value
  flag : Bool → Value
  error : Error → Value

-- A logger is what it adds to each entry (`With`); what it has written is in the state.
abbrev pub Logger : Type 0
Logger = List (Text × Value)

pub record Entry : Type 0 where
  pub message : Text
  pub fields : List (Text × Value)

-- `logErr`.
pub log_err : Logger → Option Error → Logger
log_err logger none = logger
log_err logger (some e) = logger ++ ((bytes "err", error e) ∷ (bytes "failed", flag true) ∷ [])

-- `Info`, at the end of the log.
abbrev pub info : List Entry → Logger → Text → List (Text × Value) → List Entry
info log logger message fields =
    log ++ (record { message = message; fields = logger ++ fields } ∷ [])

-- `File`: the source's file, nil where opening it failed.
pub record LogFile (File : Type 0) : Type 0 where
  pub src : Option File
  pub logger : Logger
  pub length_read : ℕ
  pub length_written : ℕ

module _ (src : AferoFs) (logger : Logger) where
  abbrev State : Type 0
  State = src.State × List Entry

  -- A call that is passed on and not logged.
  pub pass : {A : Type 0} → List Entry → src.State × A → State × A
  pass log (s, a) = ((s, log), a)

  pub pass_info :
      List Entry
      → src.State × Option src.FileInfo × Option Error
      → State × Option src.FileInfo × Option Error
  pass_info log (s, i, e) = ((s, log), i, e)

  pub pass_linfo :
      List Entry
      → src.State × Option src.FileInfo × Bool × Option Error
      → State × Option src.FileInfo × Bool × Option Error
  pass_linfo log (s, i, c, e) = ((s, log), i, c, e)

  pub new_file : Option src.File → Logger → LogFile src.File
  new_file f l = record { src = f; logger = l; length_read = 0; length_written = 0 }

  pub create_logged :
      List Entry
      → Text
      → src.State × Option src.File × Option Error
      → State × Option (LogFile src.File) × Option Error
  unfolding new_file
  create_logged log name (s, f, e) = (
    (s, info log (log_err logger e) (bytes "Created file") []),
    some (new_file f (logger ++ ((bytes "fileName", text name) ∷ []))),
    e,
  )

  -- `Create`.
  pub create : State → Text → State × Option (LogFile src.File) × Option Error
  unfolding create_logged
  create (s, log) name = create_logged log name (src.create s name)

  pub open_logged :
      List Entry
      → Logger
      → src.State × Option src.File × Option Error
      → State × Option (LogFile src.File) × Option Error
  unfolding new_file
  open_logged log l (s, f, e) =
      ((s, info log (log_err l e) (bytes "Opened file") []), some (new_file f l), e)

  -- `Open`.
  pub open_named : State → Text → State × Option (LogFile src.File) × Option Error
  unfolding open_logged
  open_named (s, log) name =
      open_logged log (logger ++ ((bytes "fileName", text name) ∷ [])) (src.open_named s name)

  -- `OpenFile`.
  pub open_file : State → Text → ℕ → ℕ → State × Option (LogFile src.File) × Option Error
  unfolding open_logged
  open_file (s, log) name file_flag perm =
      open_logged log
        (logger
          ++ ((bytes "fileName", text name)
              ∷ (bytes "fileFlag", number file_flag)
              ∷ (bytes "filePerm", number perm)
              ∷ []))
        (src.open_file s name file_flag perm)

  pub remove_logged : List Entry → Text → src.State × Option Error → State × Option Error
  remove_logged log name (s, e) = (
    (s, info log (log_err logger e) (bytes "Deleted file") ((bytes "fileName", text name) ∷ [])),
    e,
  )

  -- `Remove`.
  pub remove : State → Text → State × Option Error
  unfolding remove_logged
  remove (s, log) name = remove_logged log name (src.remove s name)

  -- `File.Name`, which a nil file panics in.
  pub file_name : State → Option src.File → Run Text
  file_name (s, log) none = panic
  file_name (s, log) (some f) = src.file_name s f

  -- `LoadFS`. The wrapper is no `Lstater`, whatever the source is.
  abbrev pub load_fs : AferoFs
  load_fs = record {
    State = src.State × List Entry;
    File = LogFile src.File;
    FileInfo = src.FileInfo;
    name = src.name;
    chtimes = λ st name atime mtime. pass st.1 (src.chtimes st.0 name atime mtime);
    chmod = λ st name mode. pass st.1 (src.chmod st.0 name mode);
    chown = λ st name uid gid. pass st.1 (src.chown st.0 name uid gid);
    stat = λ st name. pass_info st.1 (src.stat st.0 name);
    rename = λ st oldname newname. pass st.1 (src.rename st.0 oldname newname);
    remove_all = λ st name. pass st.1 (src.remove_all st.0 name);
    remove = remove;
    open_file = open_file;
    open_named = open_named;
    mkdir = λ st name mode. pass st.1 (src.mkdir st.0 name mode);
    mkdir_all = λ st name mode. pass st.1 (src.mkdir_all st.0 name mode);
    create = create;
    lstat_if_possible = none;
    file_name = λ st f. file_name st f.src;
  }
