-- ===== src/Telegram/Chat/Sending.antt =====
-- What closing a file of fs/telegram does to it and to the fake file system.
use mathlib.Core.Path.{subst}
use ftpserver.Base.{
  ap, ◌∙◌, and_then, and_then-eq-done, All, ℕ, ◌≡◌, refl, sym, Option, none, some, List, [], ◌∷◌,
  Text, text_eq, text_eq_iff, text_eq_refl, length, Error, done, arith, bytes, true, false, ◌⊎◌,
  ◌↔◌, inl, inr, ◌&&◌, ltb, ◌<◌, Bool-cases, if◌then◌else◌,
}
use ftpserver.Strings.{ℤ, one_of}
use ftpserver.Upload.{Buffer, empty_buffer, FileCall, Reply, call_buffer, call_all}
use ftpserver.Upload.Calls.{written, IsUpload, call_all-upload}
use ftpserver.Upload.Roundtrip.{IsWithin, read_parts-IsWithin}
use ftpserver.Telegram.{
  is_extension, ext, lower, image_extensions, video_extensions, audio_extensions, text_extensions,
  FileInfo, Dict, stat, create, set_size, empty_file,
}
use ftpserver.Telegram.Remembered.{stat-put}
use ftpserver.Telegram.Chat.{
  Sent, photo, video, audio, document, message, base, text_or_document, File, Bot, choose, finish,
  send, close_with, close, call_files, new_file,
}

stat-set_size :
    (d : Dict) (name other : Text) (size : ℕ) (i : FileInfo)
    → stat d name ≡ some i
    → stat (set_size d name size) other
      ≡ (if text_eq name other then some (record i { size = size }) else stat d other)
unfolding stat set_size
stat-set_size [] name other size i h = cc
stat-set_size ((n, old) ∷ d) name other size i h = ground (
  arith,
  text_eq_iff n name,
  text_eq_iff n other,
  text_eq_iff name other,
  stat-set_size d name other size i,
)

abbrev pub Among : Text → List Text → Type 0
Among e [] = ⊥
Among e (name ∷ names) = (e ≡ name) ⊎ Among e names

is_extension_iff :
    (path : Text) (names : List Text)
    → (is_extension path names ≡ true) ↔ Among (lower (ext path)) names
unfolding is_extension one_of
is_extension_iff path [] = ground arith
is_extension_iff path (name ∷ names) =
    ground (arith, text_eq_iff (lower (ext path)) name, is_extension_iff path names)

abbrev pub IsImage : Text → Type 0
IsImage e = Among e (
    bytes ".jpg"
    ∷ bytes ".jpeg"
    ∷ bytes ".png"
    ∷ bytes ".gif"
    ∷ bytes ".bmp"
    ∷ bytes ".tiff"
    ∷ bytes ".tif"
    ∷ [])

abbrev pub IsVideo : Text → Type 0
IsVideo e = Among e (
    bytes ".mp4"
    ∷ bytes ".avi"
    ∷ bytes ".mkv"
    ∷ bytes ".mov"
    ∷ bytes ".wmv"
    ∷ bytes ".flv"
    ∷ bytes ".webm"
    ∷ bytes ".mpeg"
    ∷ bytes ".mpg"
    ∷ bytes ".m4v"
    ∷ bytes ".3gp"
    ∷ bytes ".3g2"
    ∷ [])

abbrev pub IsAudio : Text → Type 0
IsAudio e =
    Among e (
      bytes ".mp3"
      ∷ bytes ".ogg"
      ∷ bytes ".flac"
      ∷ bytes ".wav"
      ∷ bytes ".m4a"
      ∷ bytes ".opus"
      ∷ [])

abbrev pub IsText : Text → Type 0
IsText e = Among e (bytes ".txt" ∷ bytes ".md" ∷ [])

-- The form in which a file is sent, by its extension `e` in lower case: pictures, films and sounds
-- as such, with the last part of the path as the caption; a text of less than 4096 bytes as a
-- message, in Markdown if it is named so; everything else as a document, with the same caption.
abbrev pub IsForm : (path e content : Text) → Sent → Type 0
IsForm path e content (photo caption) = IsImage e × (caption ≡ base path)
IsForm path e content (video caption) = IsVideo e × (caption ≡ base path)
IsForm path e content (audio caption) = IsAudio e × (caption ≡ base path)
IsForm path e content (message markdown text) =
    IsText e
    × (length content < 4096)
    × (text ≡ content)
    × ((markdown ≡ true) ↔ Among e (bytes ".md" ∷ []))
IsForm path e content (document caption) =
    (¬ IsImage e)
    × (¬ IsVideo e)
    × (¬ IsAudio e)
    × (¬ (IsText e × (length content < 4096)))
    × (caption ≡ base path)

no_extension :
    (path : Text) (names : List Text)
    → is_extension path names ≡ false
    → ¬ Among (lower (ext path)) names
no_extension path names off among =
    let on : is_extension path names ≡ true = (is_extension_iff path names).1 among in absurd cc

choose-IsForm : (path content : Text) → IsForm path (lower (ext path)) content (choose path content)
unfolding choose text_or_document
choose-IsForm path content = elim (Bool-cases (is_extension path image_extensions)) [
  | inl image ↦ rw image ((is_extension_iff path image_extensions).0 image, refl)
  | inr still ↦ elim (Bool-cases (is_extension path video_extensions)) [
    | inl film ↦ rw (still, film) ((is_extension_iff path video_extensions).0 film, refl)
    | inr other ↦ elim (Bool-cases (is_extension path audio_extensions)) [
      | inl sound ↦
          rw (still, other, sound) ((is_extension_iff path audio_extensions).0 sound, refl)
      | inr silent ↦
          elim (Bool-cases (is_extension path text_extensions && ltb (length content) 4096)) [
            | inl short ↦
                rw (still, other, silent, short)
                  (
                    (is_extension_iff path text_extensions).0 (ground arith),
                    ground (arith, short),
                    refl,
                    is_extension_iff path (bytes ".md" ∷ []),
                  )
            | inr long ↦
                rw (still, other, silent, long)
                  (
                    no_extension path image_extensions still,
                    no_extension path video_extensions other,
                    no_extension path audio_extensions silent,
                    λ (texts, few).
                        let named = (is_extension_iff path text_extensions).1 texts in
                        ground (arith, long),
                    refl,
                  )
          ]
    ]
  ]
]

-- What is left of the file and of the fake file system when a sending ended with the given error.
abbrev pub After : Dict → Dict → File → File → Option Error → Type 0
After d d' f f' none =
    (f'.buffer ≡ empty_buffer)
    × ((other : Text)
        → stat d' other ≡ (
            if text_eq f.path other
            then some (record (empty_file (f.path)) { size = length (f.buffer.content) })
            else stat d other))
After d d' f f' (some e) = (d' ≡ d) × (f'.buffer.content ≡ f.buffer.content) × IsWithin f'.buffer

remember_lem :
    (d : Dict) (name other : Text) (size : ℕ)
    → stat (set_size (create d name) name size) other ≡ (
        if text_eq name other
        then some (record (empty_file name) { size = size })
        else stat d other)
unfolding create
remember_lem d name other size =
    let made : stat (create d name) name ≡ some (empty_file name) =
      rw (stat-put d name name (empty_file name), text_eq_refl name) refl in
    ground (
      arith,
      stat-set_size (create d name) name other size (empty_file name) made,
      stat-put d name other (empty_file name),
    )

send-After :
    (d : Dict) (f : File) (lens : List ℕ) (e : Option Error)
    → IsWithin f.buffer
    → (f' : File) × (d' : Dict) × (send d f (lens, e) ≡ done (f', d', e)) × After d d' f f' e
unfolding send finish
send-After d f lens none v =
    let (b', same, v', reads) = read_parts-IsWithin lens f.buffer v in
    (
      record f { buffer = empty_buffer },
      set_size (create d f.path) f.path (length b'.content),
      rw reads refl,
      (refl, λ other. rw same (remember_lem d f.path other (length f.buffer.content))),
    )
send-After d f lens (some e) v =
    let (b', same, v', reads) = read_parts-IsWithin lens f.buffer v in
    (record f { buffer = b' }, d, rw reads refl, (refl, same, v'))

-- Closing a file of a telegram file system sends it once, in the form that its name and its length
-- choose, and returns the error of the sending, whatever reads the bot makes, none of which panics.
-- If it was sent the buffer is empty again, and the path, and no other, is remembered anew: as a
-- file of the size that was uploaded. If not, nothing is remembered and the content is kept.
close-After :
    (bot : Bot) (d : Dict) (f : File) {chat : ℤ}
    → f.fs ≡ some chat
    → IsWithin f.buffer
    → let (lens, e) = bot chat (choose f.path f.buffer.content) f.buffer in
      (f' : File) × (d' : Dict) × (close bot d f ≡ done (f', d', e)) × After d d' f f' e
unfolding close close_with
close-After bot d f {chat} mounted v =
    let (lens, e) = bot chat (choose f.path f.buffer.content) f.buffer in
    subst
      (λ o.
        (f' : File) × (d' : Dict) × (close_with bot d f o ≡ done (f', d', e)) × After d d' f f' e)
      (sym mounted) (send-After d f lens e v)

call_files-buffer :
    (cs : List FileCall) (f : File) {b : Buffer} {rs : List Reply}
    → call_all cs f.buffer ≡ done (b, rs)
    → call_files cs f ≡ done (record f { buffer = b }, rs)
unfolding call_files call_all
call_files-buffer [] f e = ap (λ r. and_then r (λ (b, rs). done (record f { buffer = b }, rs))) e
call_files-buffer (c ∷ cs) f e =
    let ((b1, r), first, rest) = and_then-eq-done (call_buffer c f.buffer) _ e in
    let ((b2, rs), later, same) = and_then-eq-done (call_all cs b1) _ rest in
    rw (first, call_files-buffer cs (record f { buffer = b1 }) later)
      (ap (λ r. and_then r (λ (b, rs). done (record f { buffer = b }, rs))) same)

-- An upload to a telegram file system: a file is opened, calls are made on it, any but `Read`, and
-- it is closed. No call panics, and what `Write` was given, in order, is sent once, in the form that
-- `IsForm` states of the name and this content; `Close` returns the error of the sending, whatever
-- reads the bot makes. If it was sent the buffer is empty again, and the path, and no other, is
-- remembered anew: as a file of the size that was uploaded. If not, nothing is remembered and the
-- content is kept.
pub upload-After :
    (bot : Bot) (d : Dict) (chat : ℤ) (name : Text) (cs : List FileCall)
    → All IsUpload cs
    → let b : Buffer = record { content = written cs; at = 0 } in
      (sent : Sent) × IsForm name (lower (ext name)) (written cs) sent
      × (f' : File) × (d' : Dict) × (and_then
            (call_files cs (new_file chat name))
            (λ r. close bot d r.0)
          ≡ done (f', d', (bot chat sent b).1))
      × After d d' (record (new_file chat name) { buffer = b }) f' (bot chat sent b).1
upload-After bot d chat name cs upload =
    let (rs, ran) = call_all-upload cs empty_buffer upload in
    let b : Buffer = record { content = written cs; at = 0 } in
    let (f', d', closed, after) =
      close-After bot d (record (new_file chat name) { buffer = b }) refl (omega arith) in
    (
      choose name (written cs),
      choose-IsForm name (written cs),
      f',
      d',
      ap (λ r. and_then r (λ r. close bot d r.0)) (call_files-buffer cs (new_file chat name) ran)
          ∙ closed,
      after,
    )
