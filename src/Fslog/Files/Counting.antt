-- ===== src/Fslog/Files/Counting.antt =====
-- What the `File` of fs/fslog/fslog.go has counted when it is closed.
use mathlib.Core.List.{append_assoc, append-nil}
use native.Mathlib.Nat.{add-zero, zero-add, add_assoc}
use ftpserver.Base.{
  ℕ, ◌+◌, ◌≡◌, refl, ap, Option, none, some, List, [], ◌∷◌, ◌++◌, Text, bytes, length, ltb,
  if◌then◌else◌, Error, Run, done, and_then, Bool-cases, inl, inr,
}
use ftpserver.Afero.{FileOps}
use ftpserver.Fslog.{number, Logger, Entry, LogFile, log_err}
use ftpserver.Fslog.Files.{
  close, read, read_at, write, write_at, write_string, close_logged, close_logger, close_src,
}
use ftpserver.Fslog.Files

-- The calls that move bytes.
pub data Transfer : Type 0 where
  reads : (len : ℕ) → Transfer
  reads_at : (len off : ℕ) → Transfer
  writes : Text → Transfer
  writes_at : Text → (off : ℕ) → Transfer
  writes_string : Text → Transfer

-- The file and the state after a call, whatever else it returns.
abbrev pub drop_result : {A B C D : Type 0} → A × B × C × D → A × B
drop_result (f, st, n, e) = (f, st)

abbrev pub map_run : {A B : Type 0} → (A → B) → Run A → Run B
map_run f r = and_then r (λ a. done (f a))

-- The bytes that count: those of a call without an error.
abbrev pub counted : ℕ → Option Error → ℕ
counted n none = n
counted n (some e) = 0

module _ {State File FileInfo : Type 0} (ops : FileOps State File FileInfo) where
  pub transfer :
      Transfer → LogFile File → State × List Entry → Run (LogFile File × (State × List Entry))
  transfer (reads len) f st = map_run drop_result (read ops f st len)
  transfer (reads_at len off) f st = map_run drop_result (read_at ops f st len off)
  transfer (writes b) f st = map_run drop_result (write ops f st b)
  transfer (writes_at b off) f st = map_run drop_result (write_at ops f st b off)
  transfer (writes_string b) f st = map_run drop_result (write_string ops f st b)

  pub transfer_all :
      List Transfer → LogFile File → State × List Entry → Run (LogFile File × (State × List Entry))
  transfer_all [] f st = done (f, st)
  transfer_all (t ∷ ts) f st = and_then (transfer t f st) (λ (f', st'). transfer_all ts f' st')

  -- The same calls on the source: its state, and the bytes read and written without an error.
  pub tally_one : Transfer → State → File → State × ℕ × ℕ
  tally_one (reads len) s f = let (s', b, e) = ops.read s f len in (s', counted (length b) e, 0)
  tally_one (reads_at len off) s f =
      let (s', b, e) = ops.read_at s f len off in (s', counted (length b) e, 0)
  tally_one (writes b) s f = let (s', n, e) = ops.write s f b in (s', 0, counted n e)
  tally_one (writes_at b off) s f = let (s', n, e) = ops.write_at s f b off in (s', 0, counted n e)
  tally_one (writes_string b) s f = let (s', n, e) = ops.write_string s f b in (s', 0, counted n e)

  pub tally : List Transfer → State → File → State × ℕ × ℕ
  unfolding tally_one
  tally [] s f = (s, 0, 0)
  tally (t ∷ ts) s f =
      let (s', r, w) = tally_one t s f in let (s'', r', w') = tally ts s' f in (s'', r + r', w + w')

  abbrev pub opened_file : File → Logger → ℕ → ℕ → LogFile File
  opened_file f logger r w = record {
    src = some f;
    logger = logger;
    length_read = r;
    length_written = w;
  }

  module _ (f : File) (logger : Logger) (r w : ℕ) (log : List Entry) where
    after_read_lem :
        (a : State × Text × Option Error)
        → drop_result (Files.after_read ops (opened_file f logger r w) log a)
          ≡ (opened_file f logger (r + counted (length a.1) a.2) (w + 0), (a.0, log))
    unfolding Files.after_read Files.count_read
    after_read_lem (s, b, none) = rw (add-zero w) refl
    after_read_lem (s, b, some e) = rw (add-zero w, add-zero r) refl

    after_write_lem :
        (a : State × ℕ × Option Error)
        → drop_result (Files.after_write ops (opened_file f logger r w) log a)
          ≡ (opened_file f logger (r + 0) (w + counted a.1 a.2), (a.0, log))
    unfolding Files.after_write Files.count_written
    after_write_lem (s, n, none) = rw (add-zero r) refl
    after_write_lem (s, n, some e) = rw (add-zero w, add-zero r) refl

    transfer-tally_one :
        (t : Transfer) (s : State)
        → let (s', r', w') = tally_one t s f in
          transfer t (opened_file f logger r w) (s, log)
          ≡ done (opened_file f logger (r + r') (w + w'), (s', log))
    unfolding transfer tally_one read read_at write write_at write_string Files.on_src
    transfer-tally_one (reads len) s = ap done (after_read_lem (ops.read s f len))
    transfer-tally_one (reads_at len off) s = ap done (after_read_lem (ops.read_at s f len off))
    transfer-tally_one (writes b) s = ap done (after_write_lem (ops.write s f b))
    transfer-tally_one (writes_at b off) s = ap done (after_write_lem (ops.write_at s f b off))
    transfer-tally_one (writes_string b) s = ap done (after_write_lem (ops.write_string s f b))

  transfer_all-tally :
      (ts : List Transfer) (f : File) (logger : Logger) (r w : ℕ) (s : State) (log : List Entry)
      → let (s', r', w') = tally ts s f in
        transfer_all ts (opened_file f logger r w) (s, log)
        ≡ done (opened_file f logger (r + r') (w + w'), (s', log))
  unfolding transfer_all tally
  transfer_all-tally [] f logger r w s log = rw (add-zero r, add-zero w) refl
  transfer_all-tally (t ∷ ts) f logger r w s log =
      rw
        (
          transfer-tally_one f logger r w log t s,
          transfer_all-tally ts f logger _ _ _ log,
          add_assoc,
          add_assoc,
        )
        refl

  -- The entry of a file that is closed: its counts are left out where nothing was counted.
  pub summary : Logger → ℕ → ℕ → Option Error → Entry
  summary logger r w e = record {
    message = bytes "Closed file";
    fields =
        log_err logger e
        ++ (if ltb 0 r then (bytes "lengthRead", number r) ∷ [] else [])
        ++ (if ltb 0 w then (bytes "lengthWritten", number w) ∷ [] else []);
  }

  summary-close_logger :
      (f : File) (logger : Logger) (r w : ℕ) (e : Option Error)
      → close_logger ops (opened_file f logger r w) e ++ [] ≡ (summary logger r w e).fields
  unfolding close_logger summary Files.with_count
  summary-close_logger f logger r w e = elim (Bool-cases (ltb 0 r)) [
    | inl some_read ↦ elim (Bool-cases (ltb 0 w)) [
      | inl some_written ↦ rw (some_read, some_written) (simp (append_assoc, append-nil))
      | inr none_written ↦ rw (some_read, none_written) (simp (append_assoc, append-nil))
    ]
    | inr none_read ↦ elim (Bool-cases (ltb 0 w)) [
      | inl some_written ↦ rw (none_read, some_written) (simp (append_assoc, append-nil))
      | inr none_written ↦ rw (none_read, none_written) (simp (append_assoc, append-nil))
    ]
  ]

  close_lem :
      (f : File) (logger : Logger) (r w : ℕ) (s : State) (log : List Entry)
      → let (s', e) = ops.close s f in
        close ops (opened_file f logger r w) (s, log)
        ≡ done ((s', log ++ (summary logger r w e ∷ [])), e)
  unfolding close close_logged summary
  close_lem f logger r w s log =
      ap
        (λ fields. done (
          (
            (ops.close s f).0,
            log ++ (record { message = bytes "Closed file"; fields = fields } ∷ []),
          ),
          (ops.close s f).1,
        ))
        (summary-close_logger f logger r w (ops.close s f).1)

  -- A file that has just been opened, then read and written in any order, then closed: the source
  -- sees the same calls, and the log gains one entry, at the close, with the sums of the bytes read
  -- and written by the calls that returned no error, each left out where it is zero.
  pub close-transfer_all :
      (ts : List Transfer) (f : File) (logger : Logger) (s : State) (log : List Entry)
      → let (s', r, w) = tally ts s f in
        let (s'', e) = ops.close s' f in
        and_then
          (transfer_all ts (opened_file f logger 0 0) (s, log))
          (λ (f', st'). close ops f' st')
        ≡ done ((s'', log ++ (summary logger r w e ∷ [])), e)
  close-transfer_all ts f logger s log =
      rw (transfer_all-tally ts f logger 0 0 s log, zero-add, zero-add)
        (close_lem f logger _ _ _ log)
