-- ===== src/Strings.antt =====
-- Parts of Go's standard library that the loaders use: `strconv.ParseInt`, `strconv.ParseBool` and
-- `path.Join`, over bytes.
pub mod Decimal
use ftpserver.Base.{
  ℕ, ◌+◌, ◌-◌, ◌*◌, ◌^◌, ◌≡◌, refl, Bool, true, false, ◌&&◌, ◌||◌, Option, none, some, List, [],
  ◌∷◌, ◌++◌, Text, bytes, text_eq, ltb, leb, ◌==◌, if◌then◌else◌, sprint, Error, foreign, Result,
  ok, err,
}
use mathlib.Core.List.{reverse}

-- `negsuc n` is -(n + 1).
pub data ℤ : Type 0 where
  pos : ℕ → ℤ
  negsuc : ℕ → ℤ

abbrev pub err_syntax : Error
err_syntax = foreign (bytes "invalid syntax")

abbrev pub err_range : Error
err_range = foreign (bytes "value out of range")

pub is_digit : ℕ → Bool
is_digit c = leb b'0' c && leb c b'9'

pub digits_value : ℕ → Text → Option ℕ
unfolding is_digit
digits_value n [] = some n
digits_value n (c ∷ s) =
    let rest = digits_value (n * 10 + (c - b'0')) s in if is_digit c then rest else none

pub unsigned : Text → Option ℕ
unfolding digits_value
unsigned [] = none
unsigned (c ∷ s) = digits_value 0 (c ∷ s)

pub signed_result : Bool → Option ℕ → Result ℤ
signed_result minus none = err err_syntax
signed_result false (some n) = if ltb n (2 ^ 63) then ok (pos n) else err err_range
signed_result true (some n) =
    if n == 0 then ok (pos 0) else if leb n (2 ^ 63) then ok (negsuc (n - 1)) else err err_range

-- `strconv.ParseInt(s, 10, 64)`, which is also what `strconv.Atoi` does on a 64-bit machine. (Of a
-- text that is both too long and malformed it reports the syntax error.)
unfoldable pub parse_int : Text → Result ℤ
unfolding unsigned signed_result
parse_int [] = err err_syntax
parse_int (c ∷ s) =
    if c == b'-'
    then signed_result true (unsigned s)
    else if c == b'+'
    then signed_result false (unsigned s)
    else signed_result false (unsigned (c ∷ s))

-- `fmt.Sprintf("%d", n)`.
unfoldable pub sprint_int : ℤ → Text
sprint_int (pos n) = sprint n
sprint_int (negsuc n) = b'-' ∷ sprint (n + 1)

unfoldable pub one_of : Text → List Text → Bool
one_of s [] = false
one_of s (t ∷ ts) = text_eq s t || one_of s ts

-- `strconv.ParseBool`.
unfoldable pub parse_bool : Text → Result Bool
unfolding one_of text_eq
parse_bool s =
    if one_of s
      (bytes "1" ∷ bytes "t" ∷ bytes "T" ∷ bytes "true" ∷ bytes "TRUE" ∷ bytes "True" ∷ [])
    then ok true
    else if one_of s
        (bytes "0" ∷ bytes "f" ∷ bytes "F" ∷ bytes "false" ∷ bytes "FALSE" ∷ bytes "False" ∷ [])
    then ok false
    else err err_syntax

-- `strings.Split(s, "/")`; `part` is the part that is being read.
unfoldable pub split_from : Text → Text → List Text
split_from part [] = part ∷ []
split_from part (c ∷ s) =
    let closed = part ∷ split_from [] s in
    let longer = split_from (part ++ c ∷ []) s in if c == b'/' then closed else longer

unfoldable pub split_slash : Text → List Text
unfolding split_from
split_slash s = split_from [] s

-- `strings.Join(parts, "/")`.
unfoldable pub join_slash : List Text → Text
join_slash [] = []
join_slash (p ∷ []) = p
join_slash (p ∷ q ∷ ps) = p ++ (b'/' ∷ join_slash (q ∷ ps))

-- One element of a path under `path.Clean`; the stack has its last element at the head.
pub pop_dots : Bool → List Text → List Text
pop_dots rooted [] = if rooted then [] else bytes ".." ∷ []
pop_dots rooted (p ∷ stack) = if text_eq p (bytes "..") then bytes ".." ∷ p ∷ stack else stack

pub clean_part : Bool → List Text → Text → List Text
unfolding pop_dots
clean_part rooted stack part =
    if text_eq part [] || text_eq part (bytes ".")
    then stack
    else if text_eq part (bytes "..")
    then pop_dots rooted stack
    else part ∷ stack

pub clean_parts : Bool → List Text → List Text → List Text
unfolding clean_part
clean_parts rooted stack [] = reverse stack
clean_parts rooted stack (part ∷ parts) = clean_parts rooted (clean_part rooted stack part) parts

pub is_rooted : Text → Bool
is_rooted [] = false
is_rooted (c ∷ s) = c == b'/'

pub or_dot : Text → Text
or_dot [] = bytes "."
or_dot (c ∷ s) = c ∷ s

-- `path.Clean`.
unfoldable pub clean : Text → Text
unfolding is_rooted or_dot clean_parts split_slash join_slash text_eq
clean s =
    if is_rooted s
    then b'/' ∷ join_slash (clean_parts true [] (split_slash s))
    else or_dot (join_slash (clean_parts false [] (split_slash s)))

-- `path.Join(a, b)`.
unfoldable pub path_join : Text → Text → Text
unfolding clean
path_join a b =
    if text_eq a [] && text_eq b []
    then []
    else if text_eq a []
    then clean b
    else if text_eq b []
    then clean a
    else clean (a ++ (b'/' ∷ b))

join_tests :
    (path_join (bytes "/srv/ftp") (bytes "ann") ≡ bytes "/srv/ftp/ann")
    × (path_join (bytes "/srv/ftp/") (bytes "../x") ≡ bytes "/srv/x")
    × (path_join (bytes "a") (bytes "../../b/.") ≡ bytes "../b")
unfolding path_join
join_tests = (refl, refl, refl)

parse_tests :
    (parse_int (bytes "-12") ≡ ok (negsuc 11))
    × (parse_int (bytes "+7") ≡ ok (pos 7))
    × (parse_int (bytes "7a") ≡ err err_syntax)
    × (parse_int (bytes "9223372036854775808") ≡ err err_range)
    × (parse_bool (bytes "True") ≡ ok true)
unfolding parse_int parse_bool
parse_tests = (refl, refl, refl, refl, refl)
