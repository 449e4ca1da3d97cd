-- ===== src/Upload/Calls.antt =====
-- The buffer of `File` in fs/mail/mail.go and fs/telegram/telegram.go is a queue of bytes, whatever
-- calls are made on it.
use mathlib.Core.List.{append_assoc, append-nil}
use ftpserver.Base.{
  ℕ, zero, suc, ◌+◌, ◌≤◌, ◌≡◌, refl, sym, ap, ◌∙◌, none, List, [], ◌∷◌, ◌++◌, Text, length,
  length-append, take, drop, take-append-drop, Run, done, arith, All,
}
use ftpserver.Upload.{
  Buffer, empty_buffer, write, FileCall, read_call, read_at_call, write_at_call, write_call,
  write_string_call, truncate_call, seek_call, readdir_call, readdirnames_call, sync_call, Reply,
  call_buffer, call_all, refuse, ignore,
}
use ftpserver.Upload.Roundtrip.{IsWithin, drop-add, read-moves}

-- The bytes that the calls write: only `Write` keeps any.
unfoldable pub written : List FileCall → Text
written [] = []
written (write_call p ∷ cs) = p ++ written cs
written (_ ∷ cs) = written cs

-- The bytes that the readers got.
unfoldable pub delivered : List Reply → Text
delivered [] = []
delivered (r ∷ rs) = r.chunk ++ delivered rs

unread : Buffer → Text
unread b = drop b.at b.content

-- A call takes bytes from the front of the queue and puts bytes behind it.
record IsQueued (b b' : Buffer) (put : Text) (r : Reply) : Type 0 where
  within : IsWithin b'
  content : b'.content ≡ b.content ++ put
  queue : r.chunk ++ unread b' ≡ unread b ++ put

take-drop-add : (n m : ℕ) (xs : Text) → take n (drop m xs) ++ drop (m + n) xs ≡ drop m xs
take-drop-add n m xs = rw (drop-add m n xs) (take-append-drop n (drop m xs))

drop-append : (n : ℕ) (xs ys : Text) → n ≤ length xs → drop n (xs ++ ys) ≡ drop n xs ++ ys
drop-append zero xs ys h = refl
drop-append (suc n) [] ys h = absurd (omega arith)
drop-append (suc n) (x ∷ xs) ys h = drop-append n xs ys (omega arith)

same-IsQueued : (b : Buffer) {r : Reply} → r.chunk ≡ [] → IsWithin b → IsQueued b b [] r
same-IsQueued b {r} empty v = record {
  within = v;
  content = sym (append-nil b.content);
  queue = ap (λ t. t ++ unread b) empty ∙ sym (append-nil (unread b));
}

-- One call, which puts these bytes behind the queue.
call_buffer-IsQueued :
    (c : FileCall) (b : Buffer)
    → IsWithin b
    → (b' : Buffer) × (r : Reply) × (call_buffer c b ≡ done (b', r))
      × IsQueued b b' (written (c ∷ [])) r
unfolding call_buffer write written unread
call_buffer-IsQueued (read_call len) b v =
    let (n, e, inside, ran) = read-moves b len v in
    (
      record b { at = b.at + n },
      record {
        count = length (take n (drop b.at b.content));
        chunk = take n (drop b.at b.content);
        failed = e;
      },
      rw ran refl,
      record {
        within = inside;
        content = sym (append-nil b.content);
        queue = take-drop-add n b.at b.content ∙ sym (append-nil (drop b.at b.content));
      },
    )
call_buffer-IsQueued (write_call p) b v = (
  record b { content = b.content ++ p },
  record { count = length p; chunk = []; failed = none },
  refl,
  record {
    within = omega (arith, length-append {0} b.content p);
    content = ap (λ t. b.content ++ t) (sym (append-nil p));
    queue =
        drop-append b.at b.content p v ∙ ap (λ t. drop b.at b.content ++ t) (sym (append-nil p));
  },
)
call_buffer-IsQueued (read_at_call len offset) b v = (b, refuse, refl, same-IsQueued b refl v)
call_buffer-IsQueued (write_at_call len offset) b v = (b, refuse, refl, same-IsQueued b refl v)
call_buffer-IsQueued (write_string_call s) b v = (b, refuse, refl, same-IsQueued b refl v)
call_buffer-IsQueued (truncate_call size) b v = (b, ignore, refl, same-IsQueued b refl v)
call_buffer-IsQueued (seek_call offset whence) b v = (b, ignore, refl, same-IsQueued b refl v)
call_buffer-IsQueued (readdir_call count) b v = (b, ignore, refl, same-IsQueued b refl v)
call_buffer-IsQueued (readdirnames_call count) b v = (b, ignore, refl, same-IsQueued b refl v)
call_buffer-IsQueued sync_call b v = (b, ignore, refl, same-IsQueued b refl v)

written-cons :
    (c : FileCall) (cs : List FileCall) → written (c ∷ cs) ≡ written (c ∷ []) ++ written cs
unfolding written
written-cons (write_call p) cs = ap (λ t. t ++ written cs) (sym (append-nil p))
written-cons (read_call len) cs = refl
written-cons (read_at_call len offset) cs = refl
written-cons (write_at_call len offset) cs = refl
written-cons (write_string_call s) cs = refl
written-cons (truncate_call size) cs = refl
written-cons (seek_call offset whence) cs = refl
written-cons (readdir_call count) cs = refl
written-cons (readdirnames_call count) cs = refl
written-cons sync_call cs = refl

call_all-queue :
    (cs : List FileCall) (b : Buffer)
    → IsWithin b
    → (b' : Buffer) × (rs : List Reply) × (call_all cs b ≡ done (b', rs))
      × IsWithin b'
      × (b'.content ≡ b.content ++ written cs)
      × (delivered rs ++ unread b' ≡ unread b ++ written cs)
unfolding call_all delivered written
call_all-queue [] b v = (b, [], refl, v, sym (append-nil b.content), sym (append-nil (unread b)))
call_all-queue (c ∷ cs) b v =
    let (b1, r, first, q) = call_buffer-IsQueued c b v in
    let (b2, rs, later, v2, content, queue) = call_all-queue cs b1 q.within in
    (
      b2,
      r ∷ rs,
      rw (first, later) refl,
      v2,
      content
          ∙ ap (λ t. t ++ written cs) q.content
          ∙ append_assoc b.content (written (c ∷ [])) (written cs)
          ∙ ap (λ t. b.content ++ t) (sym (written-cons c cs)),
      append_assoc r.chunk (delivered rs) (unread b2)
          ∙ ap (λ t. r.chunk ++ t) queue
          ∙ sym (append_assoc r.chunk (unread b1) (written cs))
          ∙ ap (λ t. t ++ written cs) q.queue
          ∙ append_assoc (unread b) (written (c ∷ [])) (written cs)
          ∙ ap (λ t. unread b ++ t) (sym (written-cons c cs)),
    )

-- Whatever calls are made on a new file of a mail or telegram file system, in any order: none
-- panics; the content is all that `Write` was given, in order, whatever `Seek`, `Truncate`,
-- `WriteAt` or `WriteString` were asked in between; and what the reads handed out and what is left
-- to read are together the content.
pub call_all_lem :
    (cs : List FileCall)
    → (b : Buffer) × (rs : List Reply) × (call_all cs empty_buffer ≡ done (b, rs))
      × (b.content ≡ written cs)
      × (delivered rs ++ drop b.at b.content ≡ written cs)
unfolding unread
call_all_lem cs =
    let (b, rs, ran, _, content, queue) = call_all-queue cs empty_buffer (omega arith) in
    (b, rs, ran, content, queue)

-- A call of an upload: no `Read`.
abbrev pub IsUpload : FileCall → Type 0
IsUpload (read_call len) = ⊥
IsUpload _ = Unit

kept :
    (b : Buffer) (r : Reply)
    → (r' : Reply) × (◌≡◌ {A = Run (Buffer × Reply)}
        (done (b, r))
        (done (record b { content = b.content ++ [] }, r')))
kept b r = (r, ap (λ t. done (record b { content = t }, r)) (sym (append-nil b.content)))

call_buffer-upload :
    (c : FileCall) (b : Buffer)
    → IsUpload c
    → (r : Reply) × (call_buffer c b
        ≡ done (record b { content = b.content ++ written (c ∷ []) }, r))
unfolding call_buffer write written
call_buffer-upload (read_call len) b u = absurd u
call_buffer-upload (write_call p) b u = (
  _,
  ap
      (λ t. done (
        record b { content = b.content ++ t },
        record { count = length p; chunk = []; failed = none },
      ))
      (sym (append-nil p)),
)
call_buffer-upload (read_at_call len offset) b u = kept b refuse
call_buffer-upload (write_at_call len offset) b u = kept b refuse
call_buffer-upload (write_string_call s) b u = kept b refuse
call_buffer-upload (truncate_call size) b u = kept b ignore
call_buffer-upload (seek_call offset whence) b u = kept b ignore
call_buffer-upload (readdir_call count) b u = kept b ignore
call_buffer-upload (readdirnames_call count) b u = kept b ignore
call_buffer-upload sync_call b u = kept b ignore

-- An upload leaves the position where it is.
pub call_all-upload :
    (cs : List FileCall) (b : Buffer)
    → All IsUpload cs
    → (rs : List Reply) × (call_all cs b
        ≡ done (record b { content = b.content ++ written cs }, rs))
unfolding call_all written
call_all-upload [] b u =
    ([], ap (λ t. done (record b { content = t }, [])) (sym (append-nil b.content)))
call_all-upload (c ∷ cs) b (here, u) =
    let (r, first) = call_buffer-upload c b here in
    let (rs, later) = call_all-upload cs (record b { content = b.content ++ written (c ∷ []) }) u in
    (
      r ∷ rs,
      rw (first, later)
          (ap (λ t. done (record b { content = t }, r ∷ rs))
            (append_assoc b.content (written (c ∷ [])) (written cs)
              ∙ ap (λ t. b.content ++ t) (sym (written-cons c cs)))),
    )
