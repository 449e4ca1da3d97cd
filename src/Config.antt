-- ===== src/Config.antt =====
-- config/config.go: the state of a `Config`, the libraries that it calls, and `GetAccess`.
pub mod Accesses
pub mod Hashing
pub mod Loading
pub mod Login
use ftpserver.Base.{
  ℕ, Bool, ◌&&◌, ◌||◌, true, false, Option, none, some, List, [], ◌∷◌, Text, bytes, text_eq,
  has_prefix, if◌then◌else◌, get_elem?, set, Error, unknown_user, Result, ok, err, ◌>>=◌,
}
use ftpserver.Confpar.{Access, Content}

-- What the package calls outside the repository and of the operating system. `hash` takes the salt
-- that is drawn as an argument. `sjson_set text path value` is `sjson.Set`.
pub record Env (Disk Digest : Type 0) : Type 0 where
  pub open_file : Disk → Text → Result Text
  pub read_file : Disk → Text → Result Text
  pub write_file : Disk → Text → Text → Disk × Option Error
  pub getenv : Text → Text
  pub json_decode : Text → Result (Content Access)
  pub sjson_set : Text → Text → Text → Result Text
  pub new_decoder_all : Option Error
  pub decode : Text → Result Digest
  pub match_advanced : Digest → Text → Result Bool
  pub new_bcrypt : Option Error
  pub hash : (salt : ℕ) → Text → Result Digest
  pub encode : Digest → Text

-- `heap` holds every `Access` that was ever made, for pointers into it outlive a reload.
pub record Config : Type 0 where
  pub file_name : Text
  pub content : Content ℕ
  pub heap : List Access

pub data HashScheme : Type 0 where
  md5crypt bcrypt bcrypt_a bcrypt_b bcrypt_x bcrypt_y sha256crypt sha512crypt : HashScheme

-- The cases of the two `switch` statements over a password's prefix.
unfoldable pub scheme_of : Text → Option HashScheme
scheme_of pass =
    if has_prefix pass (bytes "$1$")
    then some md5crypt
    else if has_prefix pass (bytes "$2$")
    then some bcrypt
    else if has_prefix pass (bytes "$2a$")
    then some bcrypt_a
    else if has_prefix pass (bytes "$2b$")
    then some bcrypt_b
    else if has_prefix pass (bytes "$2x$")
    then some bcrypt_x
    else if has_prefix pass (bytes "$2y$")
    then some bcrypt_y
    else if has_prefix pass (bytes "$5$")
    then some sha256crypt
    else if has_prefix pass (bytes "$6$")
    then some sha512crypt
    else none

unfoldable pub is_anonymous_any : Access → Bool
is_anonymous_any a = text_eq a.user (bytes "anonymous") && text_eq a.pass (bytes "*")

unfoldable pub is_keycloak : Access → Bool
is_keycloak a = text_eq a.fs (bytes "keycloak")

-- What one access that stands for the user answers: go on to the next, return it, or fail.
pub judge : ℕ → List Access → Result Bool → List Access × Result ℕ → List Access × Result ℕ
judge p heap (err e) rest = (heap, err e)
judge p heap (ok true) rest = (heap, ok p)
judge p heap (ok false) rest = rest

-- The early return when the password decoders cannot be set up.
pub unless_failed : Option Error → List Access → List Access × Result ℕ → List Access × Result ℕ
unless_failed (some e) heap found = (heap, err e)
unless_failed none heap found = found

module _ {Disk Digest : Type 0} (env : Env Disk Digest) where
  open env use {decode, match_advanced}

  -- The eight hashed cases run the same code.
  pub check_hashed : Option HashScheme → Access → Text → Result Bool
  check_hashed (some scheme) a pass = decode a.pass >>= λ digest. match_advanced digest pass
  check_hashed none a pass = ok (text_eq a.pass pass || is_anonymous_any a)

  pub check_pass : Access → Text → Result Bool
  unfolding check_hashed
  check_pass a pass = check_hashed (scheme_of a.pass) a pass

  -- One round of the loop of `GetAccess`; `rest` is what the later rounds give.
  pub visit :
      Text
      → Text
      → List Access
      → ℕ
      → Option Access
      → List Access × Result ℕ
      → List Access × Result ℕ
  unfolding check_pass judge
  visit user pass heap p none rest = rest
  visit user pass heap p (some a) rest =
      if is_keycloak a
      then (set heap p (record a { user = user; pass = pass }), ok p)
      else if text_eq a.user user
      then judge p heap (check_pass a pass) rest
      else rest

  pub find_access : Text → Text → List Access → List ℕ → List Access × Result ℕ
  unfolding visit
  find_access user pass heap [] = (heap, err unknown_user)
  find_access user pass heap (p ∷ ps) =
      visit user pass heap p (get_elem? heap p) (find_access user pass heap ps)

  -- `GetAccess`: the configuration afterwards, and the address of the access.
  unfoldable pub get_access : Config → Text → Text → Config × Result ℕ
  unfolding find_access unless_failed is_keycloak is_anonymous_any scheme_of text_eq has_prefix
  get_access c user pass =
      let (heap, found) =
        unless_failed env.new_decoder_all c.heap
          (find_access user pass c.heap c.content.accesses) in
      (record c { heap = heap }, found)
