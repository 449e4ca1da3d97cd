-- ===== src/Config/Hashing.antt =====
-- config/config.go: `HashPlaintextPasswords`, which replaces plain-text passwords by bcrypt digests
-- in memory and in the configuration file.
pub mod Again
pub mod Covers
pub mod File
pub mod Frame
pub mod Keeps
pub mod Step
pub mod Storage
use ftpserver.Base.{
  ℕ, suc, Bool, true, false, Option, none, some, List, [], ◌∷◌, ◌++◌, Text, bytes, sprint,
  if◌then◌else◌, get_elem?, set, Error, Result, ok, err,
}
use ftpserver.Confpar.{Access}
use ftpserver.Config.{Env, Config, HashScheme, scheme_of, is_anonymous_any}

-- The variables of the loop: the accesses, the text of the file and the flag `save`.
pub record HashLoop : Type 0 where
  pub heap : List Access
  pub json : Text
  pub save : Bool

pub json_path : ℕ → Text
json_path i = bytes "accesses." ++ (sprint i ++ bytes ".pass")

-- The file's text is replaced only where `sjson.Set` succeeds; the access is changed either way.
pub store_digest : HashLoop → ℕ → Access → Text → Result Text → HashLoop
store_digest l p a encoded (ok modified) = record {
  heap = set l.heap p (record a { pass = encoded });
  json = modified;
  save = true;
}
store_digest l p a encoded (err e) = record l { heap = set l.heap p (record a { pass = encoded }) }

pub continue_with :
    (HashLoop → HashLoop × Option Error) → HashLoop × Option Error → HashLoop × Option Error
continue_with next (l, none) = next l
continue_with next (l, some e) = (l, some e)

module _ {Disk Digest : Type 0} (env : Env Disk Digest) where
  open env use {hash, encode, sjson_set, new_bcrypt, read_file, write_file}

  pub hash_with : ℕ → HashLoop → ℕ → Access → Result Digest → HashLoop × Option Error
  unfolding store_digest json_path
  hash_with i l p a (err e) = (l, some e)
  hash_with i l p a (ok digest) =
      (store_digest l p a (encode digest) (sjson_set l.json (json_path i) (encode digest)), none)

  -- The default case of the `switch`.
  pub hash_plain : Option Error → ℕ → HashLoop → ℕ → Access → HashLoop × Option Error
  unfolding hash_with
  hash_plain (some e) i l p a = (l, some e)
  hash_plain none i l p a = hash_with i l p a (hash i a.pass)

  pub hash_unless : Option HashScheme → ℕ → HashLoop → ℕ → Access → HashLoop × Option Error
  unfolding hash_plain
  hash_unless (some scheme) i l p a = (l, none)
  hash_unless none i l p a = hash_plain new_bcrypt i l p a

  -- One round of the loop, at the `i`-th access, which is at address `p`.
  pub hash_access : ℕ → HashLoop → ℕ → Option Access → HashLoop × Option Error
  unfolding hash_unless
  hash_access i l p none = (l, none)
  hash_access i l p (some a) =
      if is_anonymous_any a then (l, none) else hash_unless (scheme_of a.pass) i l p a

  pub hash_accesses : ℕ → List ℕ → HashLoop → HashLoop × Option Error
  unfolding hash_access continue_with
  hash_accesses i [] l = (l, none)
  hash_accesses i (p ∷ ps) l =
      continue_with (hash_accesses (suc i) ps) (hash_access i l p (get_elem? l.heap p))

  -- Writes the file if some digest was put into its text.
  pub save_file : Config → Disk → HashLoop × Option Error → Config × Disk × Option Error
  save_file c d (l, some e) = (record c { heap = l.heap }, d, some e)
  save_file c d (l, none) =
      let (d', failed) = write_file d c.file_name l.json in
      if l.save
      then (record c { heap = l.heap }, d', failed)
      else (record c { heap = l.heap }, d, none)

  pub hash_file : Config → Disk → Result Text → Config × Disk × Option Error
  unfolding hash_accesses save_file
  hash_file c d (err e) = (c, d, some e)
  hash_file c d (ok json) =
      save_file c d
        (hash_accesses 0 c.content.accesses (record { heap = c.heap; json = json; save = false }))

  unfoldable pub hash_plaintext_passwords : Config → Disk → Config × Disk × Option Error
  unfolding hash_file is_anonymous_any scheme_of sprint
  hash_plaintext_passwords c d = hash_file c d (read_file d c.file_name)
