-- ===== src/Fslog/Files.antt =====
-- fs/fslog/fslog.go: the methods of `File`, which count what is read and written.
pub mod Counting
use ftpserver.Base.{
  ℕ, ◌+◌, Bool, Option, none, some, List, [], ◌∷◌, ◌++◌, Text, bytes, length, ltb, if◌then◌else◌,
  Error, Run, done, panic,
}
use ftpserver.Strings.{ℤ}
use ftpserver.Afero.{FileOps}
use ftpserver.Fslog.{Logger, Entry, LogFile, Value, number, log_err, info}

module _ {State File FileInfo : Type 0} (ops : FileOps State File FileInfo) where
  abbrev St : Type 0
  St = State × List Entry

  pub with_count : Text → ℕ → Logger → Logger
  with_count key n logger = if ltb 0 n then logger ++ ((key, number n) ∷ []) else logger

  pub close_logger : LogFile File → Option Error → Logger
  unfolding with_count
  close_logger f e =
      with_count (bytes "lengthWritten") f.length_written
        (with_count (bytes "lengthRead") f.length_read (log_err f.logger e))

  pub close_logged : LogFile File → List Entry → State × Option Error → St × Option Error
  unfolding close_logger
  close_logged f log (s, e) = ((s, info log (close_logger f e) (bytes "Closed file") []), e)

  pub close_src : LogFile File → St → Option File → Run (St × Option Error)
  unfolding close_logged
  close_src f (s, log) none = panic
  close_src f (s, log) (some src) = done (close_logged f log (ops.close s src))

  -- `Close`.
  unfoldable pub close : LogFile File → St → Run (St × Option Error)
  unfolding close_src
  close f st = close_src f st f.src

  pub count_read : LogFile File → ℕ → Option Error → LogFile File
  count_read f n none = record f { length_read = f.length_read + n }
  count_read f n (some e) = f

  pub count_written : LogFile File → ℕ → Option Error → LogFile File
  count_written f n none = record f { length_written = f.length_written + n }
  count_written f n (some e) = f

  pub after_read :
      LogFile File
      → List Entry
      → State × Text × Option Error
      → LogFile File × St × Text × Option Error
  unfolding count_read
  after_read f log (s, b, e) = (count_read f (length b) e, (s, log), b, e)

  pub after_write :
      LogFile File → List Entry → State × ℕ × Option Error → LogFile File × St × ℕ × Option Error
  unfolding count_written
  after_write f log (s, n, e) = (count_written f n e, (s, log), n, e)

  -- The source's file, or the panic of a call on nil.
  pub on_src : {A : Type 0} → Option File → (File → A) → Run A
  on_src none k = panic
  on_src (some src) k = done (k src)

  -- `Read`.
  unfoldable pub read : LogFile File → St → ℕ → Run (LogFile File × St × Text × Option Error)
  unfolding on_src after_read
  read f st len = on_src f.src (λ src. after_read f st.1 (ops.read st.0 src len))

  -- `ReadAt`.
  unfoldable pub read_at : LogFile File → St → ℕ → ℕ → Run (LogFile File × St × Text × Option Error)
  unfolding on_src after_read
  read_at f st len off = on_src f.src (λ src. after_read f st.1 (ops.read_at st.0 src len off))

  -- `Write`.
  unfoldable pub write : LogFile File → St → Text → Run (LogFile File × St × ℕ × Option Error)
  unfolding on_src after_write
  write f st b = on_src f.src (λ src. after_write f st.1 (ops.write st.0 src b))

  -- `WriteAt`.
  unfoldable pub write_at :
      LogFile File → St → Text → ℕ → Run (LogFile File × St × ℕ × Option Error)
  unfolding on_src after_write
  write_at f st b off = on_src f.src (λ src. after_write f st.1 (ops.write_at st.0 src b off))

  -- `WriteString`.
  unfoldable pub write_string :
      LogFile File → St → Text → Run (LogFile File × St × ℕ × Option Error)
  unfolding on_src after_write
  write_string f st b = on_src f.src (λ src. after_write f st.1 (ops.write_string st.0 src b))

  -- The other methods pass the call on: their results are the source's, and the log stays.
  pub seek : LogFile File → St → ℤ → ℕ → Run (State × ℤ × Option Error)
  unfolding on_src
  seek f st offset whence = on_src f.src (λ src. ops.seek st.0 src offset whence)

  pub name : LogFile File → St → Run Text
  unfolding on_src
  name f st = on_src f.src (λ src. ops.name st.0 src)

  pub readdir : LogFile File → St → ℤ → Run (State × List FileInfo × Option Error)
  unfolding on_src
  readdir f st count = on_src f.src (λ src. ops.readdir st.0 src count)

  pub readdirnames : LogFile File → St → ℤ → Run (State × List Text × Option Error)
  unfolding on_src
  readdirnames f st n = on_src f.src (λ src. ops.readdirnames st.0 src n)

  pub stat : LogFile File → St → Run (State × Option FileInfo × Option Error)
  unfolding on_src
  stat f st = on_src f.src (λ src. ops.stat st.0 src)

  pub sync : LogFile File → St → Run (State × Option Error)
  unfolding on_src
  sync f st = on_src f.src (λ src. ops.sync st.0 src)

  pub truncate : LogFile File → St → ℤ → Run (State × Option Error)
  unfolding on_src
  truncate f st size = on_src f.src (λ src. ops.truncate st.0 src size)
