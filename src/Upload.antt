-- ===== src/Upload.antt =====
-- The buffer of `File` in fs/mail/mail.go and fs/telegram/telegram.go, which declare it alike: what
-- is written is kept, and read when the file is closed and sent.
pub mod Calls
pub mod Roundtrip
use ftpserver.Base.{
  ℕ, zero, suc, ◌+◌, ◌-◌, ◌&&◌, Option, none, some, List, [], ◌∷◌, ◌++◌, Text, length, take, drop,
  ltb, leb, ◌==◌, if◌then◌else◌, Error, eof, not_implemented, Run, done, panic, and_then,
}
use ftpserver.Strings.{ℤ}

-- `Content` and `At`.
pub record Buffer : Type 0 where
  pub content : Text
  pub at : ℕ

abbrev pub empty_buffer : Buffer
empty_buffer = record { content = []; at = 0 }

-- `Write`.
unfoldable pub write : Buffer → Text → Buffer × ℕ × Option Error
write b p = (record b { content = b.content ++ p }, length p, none)

-- The slice expression of `Read` panics behind the end of the content.
unfoldable pub read_slice : Buffer → ℕ → Run (Buffer × Text × Option Error)
read_slice b n =
    if leb b.at (length b.content)
    then done (record b { at = b.at + n }, take n (drop b.at b.content), none)
    else panic

-- `Read` into a buffer of `len` bytes, with the bytes that it puts there.
unfoldable pub read : Buffer → ℕ → Run (Buffer × Text × Option Error)
unfolding read_slice
read b len =
    if ltb 0 len && b.at == length b.content
    then done (b, [], some eof)
    else if leb len (length b.content - b.at)
    then read_slice b len
    else read_slice b (length b.content - b.at)

-- The calls of a `File` that concern its buffer: all but `Name`, `Stat` and `Close`.
pub data FileCall : Type 0 where
  read_call : (len : ℕ) → FileCall
  read_at_call write_at_call : (len : ℕ) → (offset : ℤ) → FileCall
  write_call write_string_call : Text → FileCall
  truncate_call : (size : ℤ) → FileCall
  seek_call : (offset whence : ℤ) → FileCall
  readdir_call readdirnames_call : (count : ℤ) → FileCall
  sync_call : FileCall

-- What a call returns: a number, the bytes that were put into the caller's buffer (or, of the
-- directory calls, the empty list) and the error.
pub record Reply : Type 0 where
  pub count : ℕ
  pub chunk : Text
  pub failed : Option Error

abbrev pub refuse : Reply
refuse = record { count = 0; chunk = []; failed = some not_implemented }

abbrev pub ignore : Reply
ignore = record { count = 0; chunk = []; failed = none }

unfoldable pub call_buffer : FileCall → Buffer → Run (Buffer × Reply)
unfolding read write
call_buffer (read_call len) b =
    and_then (read b len)
      (λ r. done (r.0, record { count = length r.1; chunk = r.1; failed = r.2 }))
call_buffer (write_call p) b =
    let (b', n, failed) = write b p in done (b', record { count = n; chunk = []; failed = failed })
call_buffer (read_at_call len offset) b = done (b, refuse)
call_buffer (write_at_call len offset) b = done (b, refuse)
call_buffer (write_string_call s) b = done (b, refuse)
call_buffer (truncate_call size) b = done (b, ignore)
call_buffer (seek_call offset whence) b = done (b, ignore)
call_buffer (readdir_call count) b = done (b, ignore)
call_buffer (readdirnames_call count) b = done (b, ignore)
call_buffer sync_call b = done (b, ignore)

-- Calls in a row, with their replies.
unfoldable pub call_all : List FileCall → Buffer → Run (Buffer × List Reply)
unfolding call_buffer
call_all [] b = done (b, [])
call_all (c ∷ cs) b =
    and_then (call_buffer c b)
      (λ (b', r). and_then (call_all cs b') (λ (b'', rs). done (b'', r ∷ rs)))

-- What a reader of the file does: `Read` with a buffer of `len` bytes until it fails.
pub read_on :
    (Buffer → Run (Option (Buffer × Text)))
    → Buffer × Text × Option Error
    → Run (Option (Buffer × Text))
read_on next (b, chunk, some e) = done (some (b, []))
read_on next (b, chunk, none) =
    and_then (next b)
      (λ r. done (elim r [ none ↦ none | some (b', rest) ↦ some (b', chunk ++ rest) ]))

pub read_to_end : (fuel len : ℕ) → Buffer → Run (Option (Buffer × Text))
unfolding read_on
read_to_end zero len b = done none
read_to_end (suc fuel) len b = and_then (read b len) (read_on (read_to_end fuel len))

-- Several writes.
pub write_all : Buffer → List Text → Buffer
write_all b [] = b
write_all b (p ∷ ps) = write_all (write b p).0 ps

-- The reads of a sending, by the lengths of their buffers.
pub read_parts : List ℕ → Buffer → Run Buffer
read_parts [] b = done b
read_parts (len ∷ lens) b = and_then (read b len) (λ r. read_parts lens r.0)
