-- ===== src/Telegram/Chat.antt =====
-- fs/telegram/telegram.go: `File`, whose content is sent to the chat when it is closed.
pub mod Sending
use mathlib.Core.List.{reverse}
use ftpserver.Base.{
  ℕ, Bool, true, false, ◌&&◌, Option, none, some, List, [], ◌∷◌, ◌++◌, Text, bytes, text_eq, length,
  ltb, ◌==◌, if◌then◌else◌, Error, not_found, bare_path_error, Run, done, panic, and_then, ◌≡◌,
  refl,
}
use ftpserver.Strings.{ℤ}
use ftpserver.Afero.{AferoFs}
use ftpserver.Upload.{Buffer, empty_buffer, read_parts, FileCall, Reply, call_buffer}
use ftpserver.Telegram.{
  FileInfo, Dict, stat, mkdir, mkdir_all, ext, lower, create, set_size, is_extension,
  image_extensions, video_extensions, audio_extensions, text_extensions,
}

-- `fs` is the chat of the file system; its bot is a parameter, and its `fakeFs` a state.
pub record File : Type 0 where
  pub path : Text
  pub buffer : Buffer
  pub fs : Option ℤ

drop_slashes : Text → Text
drop_slashes [] = []
drop_slashes (c ∷ s) = if c == b'/' then drop_slashes s else c ∷ s

until_slash : Text → Text
until_slash [] = []
until_slash (c ∷ s) = if c == b'/' then [] else c ∷ until_slash s

or_root : Text → Text
or_root [] = bytes "/"
or_root (c ∷ s) = c ∷ s

-- `filepath.Base`, from the end of the path.
unfoldable pub base : Text → Text
unfolding drop_slashes until_slash or_root
base [] = bytes "."
base (c ∷ s) = or_root (reverse (until_slash (drop_slashes (reverse (c ∷ s)))))

-- What is sent: with the file as a reader and a caption, or as a text.
pub data Sent : Type 0 where
  photo video audio document : (caption : Text) → Sent
  message : (markdown : Bool) → Text → Sent

unfoldable pub text_or_document : Text → Text → Sent
unfolding is_extension base
text_or_document path content =
    if is_extension path text_extensions && ltb (length content) 4096
    then message (is_extension path (bytes ".md" ∷ [])) content
    else document (base path)

-- The choice in `Close`.
unfoldable pub choose : Text → Text → Sent
unfolding is_extension base text_or_document
choose path content =
    if is_extension path image_extensions
    then photo (base path)
    else if is_extension path video_extensions
    then video (base path)
    else if is_extension path audio_extensions
    then audio (base path)
    else text_or_document path content

-- `Bot.Send`: the lengths of the buffers with which it reads the file, and its error.
abbrev pub Bot : Type 0
Bot = ℤ → Sent → Buffer → List ℕ × Option Error

-- Behind the sending: the file is remembered only where it succeeds.
pub finish : Dict → File → Option Error → Buffer → File × Dict × Option Error
unfolding create set_size
finish d f (some e) b = (record f { buffer = b }, d, some e)
finish d f none b =
    (record f { buffer = empty_buffer }, set_size (create d f.path) f.path (length b.content), none)

pub send : Dict → File → List ℕ × Option Error → Run (File × Dict × Option Error)
unfolding finish
send d f (lens, e) = and_then (read_parts lens f.buffer) (λ b. done (finish d f e b))

pub close_with : Bot → Dict → File → Option ℤ → Run (File × Dict × Option Error)
unfolding send choose
close_with bot d f none = done (f, d, some not_found)
close_with bot d f (some chat) = send d f (bot chat (choose f.path f.buffer.content) f.buffer)

-- `Close`.
unfoldable pub close : Bot → Dict → File → Run (File × Dict × Option Error)
unfolding close_with
close bot d f = close_with bot d f f.fs

abbrev pub new_file : ℤ → Text → File
new_file chat name = record { path = name; buffer = empty_buffer; fs = some chat }

-- The other methods of `File`.
unfoldable pub call_file : FileCall → File → Run (File × Reply)
unfolding call_buffer
call_file c f = and_then (call_buffer c f.buffer) (λ (b, r). done (record f { buffer = b }, r))

unfoldable pub call_files : List FileCall → File → Run (File × List Reply)
unfolding call_file
call_files [] f = done (f, [])
call_files (c ∷ cs) f =
    and_then (call_file c f)
      (λ (f', r). and_then (call_files cs f') (λ (f'', rs). done (f'', r ∷ rs)))

pub file_info : Dict → Text → Option FileInfo → Dict × Option FileInfo × Option Error
file_info d name none = (d, none, some (bare_path_error (bytes "stat") name))
file_info d name (some i) = (d, some i, none)

pub stat_with : Dict → File → Option ℤ → Run (Option FileInfo × Option Error)
unfolding file_info
stat_with d f none = panic
stat_with d f (some chat) =
    let (d', info, failed) = file_info d f.path (stat d f.path) in done (info, failed)

-- `File.Stat`.
unfoldable pub file_stat : Dict → File → Run (Option FileInfo × Option Error)
unfolding stat_with
file_stat d f = stat_with d f f.fs

-- The file system. Only the calls that make something and `Stat` concern the state.
abbrev pub load_fs : ℤ → AferoFs
load_fs chat = record {
  State = Dict;
  File = File;
  FileInfo = FileInfo;
  name = bytes "telegram";
  chtimes = λ d name atime mtime. (d, none);
  chmod = λ d name mode. (d, none);
  chown = λ d name uid gid. (d, none);
  stat = λ d name. file_info d name (stat d name);
  rename = λ d name newname. (d, none);
  remove_all = λ d name. (d, none);
  remove = λ d name. (d, none);
  open_file = λ d name flag mode. (d, some (new_file chat name), none);
  open_named = λ d name. (d, some (new_file chat name), none);
  mkdir = λ d name mode. (mkdir d name mode, none);
  mkdir_all = λ d name mode. (mkdir_all d name mode, none);
  create = λ d name. (create d name, some (new_file chat name), none);
  lstat_if_possible =
      some (λ d name. (d, none, false, some (bare_path_error (bytes "lstat") name)));
  file_name = λ d f. done f.path;
}

base_tests :
    (base (bytes "/a/b.txt/") ≡ bytes "b.txt")
    × (base (bytes "//") ≡ bytes "/")
    × (choose (bytes "n.md") (bytes "x") ≡ message true (bytes "x"))
unfolding base choose is_extension text_or_document text_eq lower ext
base_tests = (refl, refl, refl)
