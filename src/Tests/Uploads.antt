-- ===== src/Tests/Uploads.antt =====
-- Samples for the file systems that send what is uploaded.
use ftpserver.Base.{
  ◌++◌, ◌≢◌, List, Text, drop, ok, and_then, ◌≡◌, refl, none, some, [], ◌∷◌, bytes, not_found, done,
  arith,
}
use ftpserver.Confpar.{Access}
use ftpserver.Fs.{Cloud, telegram_fs, param}
use ftpserver.Fs.Backends.{load_telegram}
use ftpserver.Telegram.Bot.{
  Context, markdown, help_message, start_handler, start_handler-load_telegram,
}
use ftpserver.Upload.Calls.{written, delivered, call_all_lem}
use ftpserver.Upload.{
  Buffer, FileCall, write_call, seek_call, write_string_call, truncate_call, read_call, Reply,
  call_all, empty_buffer,
}
use ftpserver.Mail.{File, Mailer, close, call_files, new_file}
use ftpserver.Mail.Sending.{Left, upload-Left}
use ftpserver.Strings.{pos, negsuc}
use ftpserver.Telegram.{ext, lower, Dict, stat, directory, mkdir_all}
use ftpserver.Telegram.Remembered.{stat-mkdir_all_self}
use ftpserver.Telegram.Chat.{Bot}
use ftpserver.Telegram.Chat
use ftpserver.Telegram.Chat.Sending.{IsForm, After, upload-After}
use ftpserver.Tests.Files.{post_fs}

-- A mail library that reads four bytes and then loses the connection.
abbrev mailer : Mailer
mailer = record {
  sprintf = λ format name. name;
  dial_and_send = λ m message b. (4 ∷ [], some not_found);
}

-- A bot that reads the file to its end.
abbrev bot : Bot
bot = λ chat message b. (4 ∷ 4 ∷ 4 ∷ [], none)

stat-mkdir_all_self_example :
    stat (mkdir_all [] (bytes "/a//b/") 493) (bytes "/a//b/")
    ≡ some (directory (bytes "/a//b/") 493)
stat-mkdir_all_self_example = stat-mkdir_all_self [] (bytes "/a//b/") 493

abbrev some_calls : List FileCall
some_calls =
    write_call (bytes "abc")
    ∷ seek_call (pos 0) (pos 0)
    ∷ write_string_call (bytes "x")
    ∷ truncate_call (pos 1)
    ∷ write_call (bytes "def")
    ∷ []

call_all_lem_example :
    (b : Buffer) × (rs : List Reply) × (call_all
        (write_call (bytes "abc") ∷ read_call 2 ∷ some_calls)
        empty_buffer
      ≡ done (b, rs))
    × (b.content ≡ written (write_call (bytes "abc") ∷ read_call 2 ∷ some_calls))
    × (delivered rs ++ drop b.at b.content
        ≡ written (write_call (bytes "abc") ∷ read_call 2 ∷ some_calls))
call_all_lem_example = call_all_lem (write_call (bytes "abc") ∷ read_call 2 ∷ some_calls)

upload-Left_example :
    let b : Buffer = record { content = written some_calls; at = 0 } in
    (f' : File) × (and_then
        (call_files some_calls (new_file post_fs (bytes "r.txt")))
        (λ r. close mailer r.0)
      ≡ done (f', some not_found))
    × Left (record (new_file post_fs (bytes "r.txt")) { buffer = b }) f' (some not_found)
upload-Left_example =
    upload-Left mailer post_fs (bytes "r.txt") some_calls (tt, (tt, (tt, (tt, (tt, tt)))))

upload-After_example :
    let b : Buffer = record { content = written some_calls; at = 0 } in
    (sent : Chat.Sent) × IsForm
      (bytes "/pics/A.JPG")
      (lower (ext (bytes "/pics/A.JPG")))
      (written some_calls)
      sent
    × (f' : Chat.File) × (d' : Dict) × (and_then
          (Chat.call_files some_calls (Chat.new_file (pos 7) (bytes "/pics/A.JPG")))
          (λ r. Chat.close bot [] r.0)
        ≡ done (f', d', none))
    × After [] d' (record (Chat.new_file (pos 7) (bytes "/pics/A.JPG")) { buffer = b }) f' none
upload-After_example =
    upload-After bot [] (pos 7) (bytes "/pics/A.JPG") some_calls (tt, (tt, (tt, (tt, (tt, tt)))))

-- A group chat; the connection never fails.
abbrev group : Context
group = record { sender = some (bytes "Ann"); chat = some (negsuc 41); send = λ earlier m. none }

start_handler-load_telegram_example :
    (shown : Text) × ((start_handler group).0
      ≡ help_message group ∷ markdown (bytes "Current `ChatID` is `" ++ (shown ++ bytes "`")) ∷ [])
    × ((cloud : Cloud) (a : Access)
        → param (bytes "Token") a.params ≢ []
        → param (bytes "ChatID") a.params ≡ shown
        → cloud.new_bot (param (bytes "Token") a.params) ≡ none
        → load_telegram cloud a ≡ ok (telegram_fs (param (bytes "Token") a.params) (negsuc 41)))
start_handler-load_telegram_example =
    start_handler-load_telegram group (negsuc 41) refl (omega arith) refl
