-- ===== src/Fslog/Transparent.antt =====
-- The file system of fs/fslog/fslog.go against its source, over sequences of calls.
use mathlib.Core.List.{append_assoc, append-nil}
use ftpserver.Base.{◌≡◌, refl, Option, none, some, List, [], ◌∷◌, ◌++◌, bytes, Error}
use ftpserver.Afero.{
  AferoFs, Request, chtimes, chmod, chown, stat, rename, remove_all, remove, open_file, open_named,
  mkdir, mkdir_all, create, lstat, Reply, status, opened, info, linfo, call,
}
use ftpserver.Fslog.{Value, text, number, Logger, Entry, LogFile, log_err, load_fs}
use ftpserver.Fslog

-- The source without its `LstatIfPossible`, which the wrapper hides.
abbrev pub hide_lstat : AferoFs → AferoFs
hide_lstat src = record src { lstat_if_possible = none }

-- What a file opened by the request logs with each entry.
abbrev pub file_logger : Logger → Request → Logger
file_logger logger (create name) = logger ++ ((bytes "fileName", text name) ∷ [])
file_logger logger (open_named name) = logger ++ ((bytes "fileName", text name) ∷ [])
file_logger logger (open_file name flag mode) =
    logger
    ++ ((bytes "fileName", text name)
        ∷ (bytes "fileFlag", number flag)
        ∷ (bytes "filePerm", number mode)
        ∷ [])
file_logger logger _ = logger

-- The entries that the request leaves in the log, when the source answers with the given error.
abbrev pub entries : Logger → Request → Option Error → List Entry
entries logger (create name) e =
    record { message = bytes "Created file"; fields = log_err logger e ++ [] } ∷ []
entries logger (open_named name) e =
    record {
      message = bytes "Opened file";
      fields = log_err (file_logger logger (open_named name)) e ++ [];
    }
    ∷ []
entries logger (open_file name flag mode) e =
    record {
      message = bytes "Opened file";
      fields = log_err (file_logger logger (open_file name flag mode)) e ++ [];
    }
    ∷ []
entries logger (remove name) e =
    record {
      message = bytes "Deleted file";
      fields = log_err logger e ++ ((bytes "fileName", text name) ∷ []);
    }
    ∷ []
entries logger _ e = []

abbrev pub error_of : {File FileInfo : Type 0} → Reply File FileInfo → Option Error
error_of (status e) = e
error_of (opened f e) = e
error_of (info i e) = e
error_of (linfo i lstat_called e) = e

-- The source's reply, its file wrapped: also a nil file, where opening failed.
abbrev pub wrap_reply :
    {File FileInfo : Type 0}
    → Logger
    → Request
    → Reply File FileInfo
    → Reply (LogFile File) FileInfo
wrap_reply logger r (status e) = status e
wrap_reply logger r (opened f e) =
    opened
      (some
        (record { src = f; logger = file_logger logger r; length_read = 0; length_written = 0 }))
      e
wrap_reply logger r (info i e) = info i e
wrap_reply logger r (linfo i lstat_called e) = linfo i lstat_called e

-- A sequence of calls, with the replies.
pub calls : (fs : AferoFs) → List Request → fs.State → fs.State × List (Reply fs.File fs.FileInfo)
calls fs [] s = (s, [])
calls fs (r ∷ rs) s =
    let (s', reply) = call fs r s in let (s'', replies) = calls fs rs s' in (s'', reply ∷ replies)

module _ (src : AferoFs) (logger : Logger) where
  -- What the log gains and the client sees when the source answers the requests as it does.
  pub logged : List Request → List (Reply src.File src.FileInfo) → List Entry
  logged (r ∷ rs) (reply ∷ replies) = entries logger r (error_of reply) ++ logged rs replies
  logged _ _ = []

  pub wrapped :
      List Request
      → List (Reply src.File src.FileInfo)
      → List (Reply (LogFile src.File) src.FileInfo)
  wrapped (r ∷ rs) (reply ∷ replies) = wrap_reply logger r reply ∷ wrapped rs replies
  wrapped _ _ = []

  call-load_fs :
      (r : Request) (s : src.State) (log : List Entry)
      → let (s', reply) = call (hide_lstat src) r s in
        call (load_fs src logger) r (s, log)
        ≡ ((s', log ++ entries logger r (error_of reply)), wrap_reply logger r reply)
  unfolding Fslog.pass Fslog.pass_info Fslog.pass_linfo Fslog.create Fslog.open_named
      Fslog.open_file Fslog.remove Fslog.new_file
  call-load_fs (chtimes name atime mtime) s log = rw (append-nil log) refl
  call-load_fs (chmod name mode) s log = rw (append-nil log) refl
  call-load_fs (chown name uid gid) s log = rw (append-nil log) refl
  call-load_fs (stat name) s log = rw (append-nil log) refl
  call-load_fs (rename oldname newname) s log = rw (append-nil log) refl
  call-load_fs (remove_all name) s log = rw (append-nil log) refl
  call-load_fs (remove name) s log = refl
  call-load_fs (open_file name flag mode) s log = refl
  call-load_fs (open_named name) s log = refl
  call-load_fs (mkdir name mode) s log = rw (append-nil log) refl
  call-load_fs (mkdir_all name mode) s log = rw (append-nil log) refl
  call-load_fs (create name) s log = refl
  call-load_fs (lstat name) s log = rw (append-nil log) refl

  -- Over any sequence of calls the logging file system is its source (without `LstatIfPossible`):
  -- the source is left in the same state and its replies are passed on, the files wrapped; and the
  -- log grows, in the order of the calls, by one entry for each call that creates, opens or deletes
  -- a file, marked as failed where the source fails, and by nothing else.
  pub calls-load_fs :
      (rs : List Request) (s : src.State) (log : List Entry)
      → let (s', replies) = calls (hide_lstat src) rs s in
        calls (load_fs src logger) rs (s, log)
        ≡ ((s', log ++ logged rs replies), wrapped rs replies)
  unfolding calls logged wrapped
  calls-load_fs [] s log = rw (append-nil log) refl
  calls-load_fs (r ∷ rs) s log =
      rw (call-load_fs r s log, calls-load_fs rs _ (log ++ entries logger r _), append_assoc) refl
