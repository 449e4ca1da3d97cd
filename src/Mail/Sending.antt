-- ===== src/Mail/Sending.antt =====
-- What closing a file of fs/mail/mail.go does to it.
use mathlib.Core.Path.{subst}
use ftpserver.Base.{
  Text, ap, ◌∙◌, and_then, and_then-eq-done, arith, All, [], ◌∷◌, ℕ, ◌≡◌, refl, sym, Option, none,
  some, List, Error, done,
}
use ftpserver.Fs.{MailFs}
use ftpserver.Upload.{Buffer, empty_buffer, FileCall, Reply, call_buffer, call_all}
use ftpserver.Upload.Calls.{written, IsUpload, call_all-upload}
use ftpserver.Upload.Roundtrip.{IsWithin, read_parts-IsWithin}
use ftpserver.Mail.{
  File, Mailer, finish, send, make_message, close_with, close, call_files, new_file,
}

-- What is left of a file when a sending ended with the given error.
abbrev pub Left : File → File → Option Error → Type 0
Left f f' none = f'.buffer ≡ empty_buffer
Left f f' (some e) = (f'.buffer.content ≡ f.buffer.content) × IsWithin f'.buffer

send-Left :
    (f : File) (lens : List ℕ) (e : Option Error)
    → IsWithin f.buffer
    → (f' : File) × (send f (lens, e) ≡ done (f', e)) × Left f f' e
unfolding send finish
send-Left f lens none v =
    let (b', same, v', reads) = read_parts-IsWithin lens f.buffer v in
    (record f { buffer = empty_buffer }, rw reads refl, refl)
send-Left f lens (some e) v =
    let (b', same, v', reads) = read_parts-IsWithin lens f.buffer v in
    (record f { buffer = b' }, rw reads refl, (same, v'))

-- Closing a file of a mail file system sends one message, made of the settings, with the file as
-- its attachment, and returns the error of the sending, whatever reads the mail library makes, none
-- of which panics. If the message was sent the buffer is empty again; if not, the content is kept.
close-Left :
    (mailer : Mailer) (f : File) {m : MailFs}
    → f.fs ≡ some m
    → IsWithin f.buffer
    → let (lens, e) = mailer.dial_and_send m (make_message mailer m f.path) f.buffer in
      (f' : File) × (close mailer f ≡ done (f', e)) × Left f f' e
unfolding close close_with
close-Left mailer f {m} mounted v =
    let (lens, e) = mailer.dial_and_send m (make_message mailer m f.path) f.buffer in
    subst (λ o. (f' : File) × (close_with mailer f o ≡ done (f', e)) × Left f f' e) (sym mounted)
      (send-Left f lens e v)

call_files-buffer :
    (cs : List FileCall) (f : File) {b : Buffer} {rs : List Reply}
    → call_all cs f.buffer ≡ done (b, rs)
    → call_files cs f ≡ done (record f { buffer = b }, rs)
unfolding call_files call_all
call_files-buffer [] f e = ap (λ r. and_then r (λ (b, rs). done (record f { buffer = b }, rs))) e
call_files-buffer (c ∷ cs) f e =
    let ((b1, r), first, rest) = and_then-eq-done (call_buffer c f.buffer) _ e in
    let ((b2, rs), later, same) = and_then-eq-done (call_all cs b1) _ rest in
    rw (first, call_files-buffer cs (record f { buffer = b1 }) later)
      (ap (λ r. and_then r (λ (b, rs). done (record f { buffer = b }, rs))) same)

-- An upload to a mail file system: a file is opened, calls are made on it, any but `Read`, and it is
-- closed. No call panics, and the message, made of the settings, is sent once, its attachment being
-- exactly what `Write` was given, in order; `Close` returns the error of the sending, whatever reads
-- the mail library makes. If the message was sent the buffer is empty again; if not, the content is
-- kept.
pub upload-Left :
    (mailer : Mailer) (m : MailFs) (name : Text) (cs : List FileCall)
    → All IsUpload cs
    → let b : Buffer = record { content = written cs; at = 0 } in
      let (lens, e) = mailer.dial_and_send m (make_message mailer m name) b in
      (f' : File) × (and_then (call_files cs (new_file m name)) (λ r. close mailer r.0)
        ≡ done (f', e))
      × Left (record (new_file m name) { buffer = b }) f' e
upload-Left mailer m name cs upload =
    let (rs, ran) = call_all-upload cs empty_buffer upload in
    let b : Buffer = record { content = written cs; at = 0 } in
    let (f', closed, left) =
      close-Left mailer (record (new_file m name) { buffer = b }) refl (omega arith) in
    (
      f',
      ap (λ r. and_then r (λ r. close mailer r.0)) (call_files-buffer cs (new_file m name) ran)
          ∙ closed,
      left,
    )
