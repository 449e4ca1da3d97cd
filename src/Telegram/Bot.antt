-- ===== src/Telegram/Bot.antt =====
-- The commands of the bot in fs/telegram/telegram.go: `startHandler` and `helpHandler`.
use ftpserver.Base.{
  ◌≡◌, refl, ◌≢◌, Option, none, some, List, [], ◌∷◌, ◌++◌, Text, bytes, text_eq-false, Error, ok,
}
use ftpserver.Confpar.{Access}
use ftpserver.Strings.{ℤ, pos, sprint_int}
use ftpserver.Strings.Decimal.{IsInt64, parse_int-sprint_int}
use ftpserver.Fs.{telegram_fs, Cloud, param}
use ftpserver.Fs.Backends.{load_telegram}

-- A message of the bot, as plain text or in Markdown.
pub data Outgoing : Type 0 where
  plain markdown : Text → Outgoing

-- `tele.Context`: the first name of the sender and the chat, where they are known, and the error of
-- `Send`, which may depend on what was sent before.
pub record Context : Type 0 where
  pub sender : Option Text
  pub chat : Option ℤ
  pub send : (earlier : List Outgoing) → Outgoing → Option Error

abbrev pub readme_url : Text
readme_url = bytes "https://github.com/slayer/ftpserver"

pub first_name : Option Text → Text
first_name none = bytes "<unknown>"
first_name (some name) = name

pub help_message : Context → Outgoing
unfolding first_name
help_message c = plain (
    bytes "Hello "
    ++ (first_name c.sender ++ (bytes "!, you can read more about me at " ++ readme_url)))

-- `c.Send`: what has been sent, with this message.
pub send_message : Context → List Outgoing → Outgoing → List Outgoing × Option Error
send_message c earlier m = (earlier ++ (m ∷ []), c.send earlier m)

-- `helpHandler`.
unfoldable pub help_handler : Context → List Outgoing × Option Error
unfolding send_message help_message
help_handler c = send_message c [] (help_message c)

pub chat_id : Option ℤ → ℤ
chat_id none = pos 0
chat_id (some id) = id

pub chat_message : ℤ → Outgoing
chat_message id = markdown (bytes "Current `ChatID` is `" ++ (sprint_int id ++ bytes "`"))

pub tell_chat : Context → List Outgoing × Option Error → List Outgoing × Option Error
unfolding send_message chat_message chat_id
tell_chat c (earlier, some e) = (earlier, some e)
tell_chat c (earlier, none) = send_message c earlier (chat_message (chat_id c.chat))

-- `startHandler`.
unfoldable pub start_handler : Context → List Outgoing × Option Error
unfolding tell_chat help_handler
start_handler c = tell_chat c (help_handler c)

-- What the bot answers to `/start` sets up the file system: if the help could be sent, it shows
-- between backquotes a text that, as the `ChatID` of an access with a `Token` that the bot library
-- takes, makes the loader send to that very chat, whatever int64 its number is.
pub start_handler-load_telegram :
    (c : Context) (chat : ℤ)
    → c.chat ≡ some chat
    → IsInt64 chat
    → c.send [] (help_message c) ≡ none
    → (shown : Text) × ((start_handler c).0
        ≡ help_message c ∷ markdown (bytes "Current `ChatID` is `" ++ (shown ++ bytes "`")) ∷ [])
      × ((cloud : Cloud) (a : Access)
          → param (bytes "Token") a.params ≢ []
          → param (bytes "ChatID") a.params ≡ shown
          → cloud.new_bot (param (bytes "Token") a.params) ≡ none
          → load_telegram cloud a ≡ ok (telegram_fs (param (bytes "Token") a.params) chat))
unfolding start_handler help_handler tell_chat send_message chat_id chat_message load_telegram
start_handler-load_telegram c chat known fits sent = (
  sprint_int chat,
  rw (sent, known) refl,
  λ cloud a given same ready.
      rw (text_eq-false _ [] given, same, parse_int-sprint_int chat fits) (rw ready refl),
)
