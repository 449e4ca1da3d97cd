-- ===== src/Telegram.antt =====
-- fs/telegram: the fake file system of fake_fs.go and file_info.go, which remembers what was made,
-- and the `Fs` and `File` of telegram.go, which send each uploaded file to a chat.
pub mod Bot
pub mod Chat
pub mod Remembered
use ftpserver.Base.{
  ℕ, zero, suc, Bool, true, false, ◌&&◌, ◌||◌, ◌+◌, Option, none, some, List, [], ◌∷◌, ◌++◌, Text,
  bytes, text_eq, length, take, ltb, leb, ◌==◌, if◌then◌else◌, Error, not_found, Run, done, panic,
  and_then, ◌≡◌, refl,
}
use mathlib.Core.List.{reverse}
use ftpserver.Strings.{one_of, ℤ, split_slash, join_slash}
use ftpserver.Upload.{Buffer, empty_buffer, read}

-- `FileData`; the modification time is never set.
pub record FileInfo : Type 0 where
  pub name : Text
  pub dir : Bool
  pub mode : ℕ
  pub size : ℕ

last_of : List Text → Text
last_of [] = []
last_of (p ∷ []) = p
last_of (p ∷ q ∷ ps) = last_of (q ∷ ps)

-- `FileInfo.Name`: the path behind its last slash.
pub name_of : FileInfo → Text
unfolding last_of split_slash
name_of i = last_of (split_slash i.name)

-- `FileInfo.Size`.
unfoldable pub size_of : FileInfo → ℕ
size_of i = if i.dir then 42 else i.size

-- `fakeFilesystem.dict`.
abbrev pub Dict : Type 0
Dict = List (Text × FileInfo)

-- `stat`.
unfoldable pub stat : Dict → Text → Option FileInfo
stat [] name = none
stat ((n, i) ∷ d) name = if text_eq n name then some i else stat d name

unfoldable pub put : Dict → Text → FileInfo → Dict
put [] name i = (name, i) ∷ []
put ((n, old) ∷ d) name i = if text_eq n name then (name, i) ∷ d else (n, old) ∷ put d name i

abbrev pub directory : Text → ℕ → FileInfo
directory name mode = record { name = name; dir = true; mode = mode; size = 0 }

abbrev pub empty_file : Text → FileInfo
empty_file name = record { name = name; dir = false; mode = 0; size = 0 }

unfoldable pub mkdir : Dict → Text → ℕ → Dict
unfolding put
mkdir d name mode = put d name (directory name mode)

unfoldable pub create : Dict → Text → Dict
unfolding put
create d name = put d name (empty_file name)

-- `setSize`.
unfoldable pub set_size : Dict → Text → ℕ → Dict
set_size [] name size = []
set_size ((n, i) ∷ d) name size =
    if text_eq n name then (n, record i { size = size }) ∷ d else (n, i) ∷ set_size d name size

-- The loop of `MkdirAll`, from index `i` on, `k` rounds.
pub mkdir_from : Dict → ℕ → List Text → (i k : ℕ) → Dict
mkdir_from d mode path i zero = d
mkdir_from d mode path i (suc k) =
    mkdir_from (mkdir d (join_slash (take (suc i) path)) mode) mode path (suc i) k

-- `MkdirAll`.
unfoldable pub mkdir_all : Dict → Text → ℕ → Dict
unfolding mkdir_from
mkdir_all d name mode = mkdir_from d mode (split_slash name) 0 (length (split_slash name))

-- `filepath.Ext`, from the end of the path.
ext_of : Text → Text → Text
ext_of acc [] = []
ext_of acc (c ∷ before) =
    if c == b'/' then [] else if c == b'.' then c ∷ acc else ext_of (c ∷ acc) before

unfoldable pub ext : Text → Text
unfolding ext_of
ext path = ext_of [] (reverse path)

lower_byte : ℕ → ℕ
lower_byte c = if leb b'A' c && leb c b'Z' then c + 32 else c

-- `strings.ToLower`, as far as comparing with ASCII goes: of the other characters the Kelvin sign
-- and the dotted capital I have lower-case letters in ASCII.
unfoldable pub lower : Text → Text
unfolding lower_byte
lower [] = []
lower (c ∷ []) = lower_byte c ∷ []
lower (c ∷ d ∷ []) = if c == 196 && d == 176 then b'i' ∷ [] else lower_byte c ∷ lower_byte d ∷ []
lower (c ∷ d ∷ e ∷ s) =
    let dotted = b'i' ∷ lower (e ∷ s) in
    let kelvin = b'k' ∷ lower s in
    let copy = lower_byte c ∷ lower (d ∷ e ∷ s) in
    if c == 196 && d == 176
    then dotted
    else if c == 226 && d == 132 && e == 170
    then kelvin
    else copy

unfoldable pub is_extension : Text → List Text → Bool
unfolding one_of
is_extension path extensions = one_of (lower (ext path)) extensions

abbrev pub image_extensions : List Text
image_extensions =
    bytes ".jpg"
    ∷ bytes ".jpeg"
    ∷ bytes ".png"
    ∷ bytes ".gif"
    ∷ bytes ".bmp"
    ∷ bytes ".tiff"
    ∷ bytes ".tif"
    ∷ []

abbrev pub video_extensions : List Text
video_extensions =
    bytes ".mp4"
    ∷ bytes ".avi"
    ∷ bytes ".mkv"
    ∷ bytes ".mov"
    ∷ bytes ".wmv"
    ∷ bytes ".flv"
    ∷ bytes ".webm"
    ∷ bytes ".mpeg"
    ∷ bytes ".mpg"
    ∷ bytes ".m4v"
    ∷ bytes ".3gp"
    ∷ bytes ".3g2"
    ∷ []

abbrev pub text_extensions : List Text
text_extensions = bytes ".txt" ∷ bytes ".md" ∷ []

abbrev pub audio_extensions : List Text
audio_extensions =
    bytes ".mp3" ∷ bytes ".ogg" ∷ bytes ".flac" ∷ bytes ".wav" ∷ bytes ".m4a" ∷ bytes ".opus" ∷ []

name_tests :
    (name_of (directory (bytes "/a/b") 493) ≡ bytes "b")
    × (name_of (directory (bytes "/a/") 493) ≡ bytes "")
    × (size_of (directory (bytes "/a") 493) ≡ 42)
unfolding name_of size_of
name_tests = (refl, refl, refl)

extension_tests :
    (is_extension (bytes "/a.b/c.JPG") image_extensions ≡ true)
    × (is_extension (bytes "/a.mkv/c") video_extensions ≡ false)
    × (is_extension (b'.' ∷ b'm' ∷ 226 ∷ 132 ∷ 170 ∷ b'V' ∷ []) video_extensions ≡ true)
unfolding is_extension ext lower text_eq
extension_tests = (refl, refl, refl)
