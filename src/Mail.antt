-- ===== src/Mail.antt =====
-- fs/mail/mail.go: `File`, which is sent as an attachment when it is closed, and the file system.
pub mod Sending
use ftpserver.Base.{
  ℕ, ◌+◌, false, Option, none, some, List, [], ◌∷◌, Text, bytes, length, Error, not_found,
  not_implemented, bare_path_error, Run, done, panic, and_then,
}
use ftpserver.Strings.{ℤ, pos}
use ftpserver.Fs.{MailFs}
use ftpserver.Upload.{Buffer, empty_buffer, read_parts, FileCall, Reply, call_buffer}
use ftpserver.Afero.{AferoFs, FileOps}

pub record File : Type 0 where
  pub path : Text
  pub buffer : Buffer
  pub fs : Option MailFs

pub record Message : Type 0 where
  pub from : Text
  pub to : Text
  pub subject : Text
  pub body : Text
  pub attachment : Text

-- `fmt.Sprintf` with one text, and the mail library. A sending reads the attachment by calls of
-- `Read`, of which it tells the buffers' lengths: it may fail before, between or behind them.
pub record Mailer : Type 0 where
  pub sprintf : Text → Text → Text
  pub dial_and_send : MailFs → Message → Buffer → List ℕ × Option Error

-- Behind the sending: the content is dropped only where it succeeds.
pub finish : File → Option Error → Buffer → File × Option Error
finish f (some e) b = (record f { buffer = b }, some e)
finish f none b = (record f { buffer = empty_buffer }, none)

pub send : File → List ℕ × Option Error → Run (File × Option Error)
unfolding finish
send f (lens, e) = and_then (read_parts lens f.buffer) (λ b. done (finish f e b))

pub make_message : Mailer → MailFs → Text → Message
make_message mailer m path = record {
  from = m.from;
  to = m.to;
  subject = m.subject;
  body = mailer.sprintf m.message path;
  attachment = path;
}

pub close_with : Mailer → File → Option MailFs → Run (File × Option Error)
unfolding send make_message
close_with mailer f none = done (f, some not_found)
close_with mailer f (some m) =
    send f (mailer.dial_and_send m (make_message mailer m f.path) f.buffer)

-- `Close`.
unfoldable pub close : Mailer → File → Run (File × Option Error)
unfolding close_with
close mailer f = close_with mailer f f.fs

abbrev pub new_file : MailFs → Text → File
new_file m name = record { path = name; buffer = empty_buffer; fs = some m }

-- The other methods of `File`.
unfoldable pub call_file : FileCall → File → Run (File × Reply)
unfolding call_buffer
call_file c f = and_then (call_buffer c f.buffer) (λ (b, r). done (record f { buffer = b }, r))

unfoldable pub call_files : List FileCall → File → Run (File × List Reply)
unfolding call_file
call_files [] f = done (f, [])
call_files (c ∷ cs) f =
    and_then (call_file c f)
      (λ (f', r). and_then (call_files cs f') (λ (f'', rs). done (f'', r ∷ rs)))

-- `File.Stat`: no information, and the error.
pub file_stat : File → Option ⊥ × Option Error
file_stat f = (none, some not_implemented)

-- The file system, which keeps nothing: a file that was sent can neither be seen nor removed, and
-- every call but those of `Stat` succeeds.
abbrev pub load_fs : MailFs → AferoFs
load_fs m = record {
  State = Unit {0};
  File = File;
  FileInfo = ⊥;
  name = bytes "mail";
  chtimes = λ s name atime mtime. (s, none);
  chmod = λ s name mode. (s, none);
  chown = λ s name uid gid. (s, none);
  stat = λ s name. (s, none, some (bare_path_error (bytes "stat") name));
  rename = λ s name newname. (s, none);
  remove_all = λ s name. (s, none);
  remove = λ s name. (s, none);
  open_file = λ s name flag mode. (s, some (new_file m name), none);
  open_named = λ s name. (s, some (new_file m name), none);
  mkdir = λ s name mode. (s, none);
  mkdir_all = λ s name mode. (s, none);
  create = λ s name. (s, some (new_file m name), none);
  lstat_if_possible =
      some (λ s name. (s, none, false, some (bare_path_error (bytes "lstat") name)));
  file_name = λ s f. done f.path;
}
