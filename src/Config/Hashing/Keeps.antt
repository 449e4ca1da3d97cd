-- ===== src/Config/Hashing/Keeps.antt =====
-- `HashPlaintextPasswords` of config/config.go changes nobody's login.
use mathlib.Core.Path.{subst}
use ftpserver.Base.{
  length, ◌≤◌, ℕ, ◌≡◌, refl, sym, ap, ◌∙◌, ◌≢◌, inl, inr, Bool, false, Option, none, some, List, [],
  ◌∷◌, Text, text_eq, get_elem?, Error, Result, ok, err, arith,
}
use ftpserver.Confpar.{Access}
use ftpserver.Config.{
  Env, Config, HashScheme, scheme_of, is_anonymous_any, is_keycloak, check_pass, check_hashed,
  visit, find_access, unless_failed, get_access,
}
use ftpserver.Config.Hashing.{HashLoop, save_file, hash_file, hash_plaintext_passwords}
use ftpserver.Config.Hashing.Step.{
  IsLawful, IsHashOf, Kept, Related, Related-refl, hash_accesses-Related,
}

module _ {Disk Digest : Type 0} (env : Env Disk Digest) (lawful : IsLawful env) where
  check_hashed-digest :
      (o : Option HashScheme) (b : Access) (pass : Text) {d : Digest} {v : Bool}
      → scheme_of b.pass ≡ o
      → scheme_of b.pass ≢ none
      → env.decode b.pass ≡ ok d
      → env.match_advanced d pass ≡ ok v
      → check_hashed env o b pass ≡ ok v
  unfolding check_hashed
  check_hashed-digest none b pass e known decoded matched = absurd (known e)
  check_hashed-digest (some scheme) b pass e known decoded matched = rw decoded matched

  check_pass-plain :
      (a : Access) (pass : Text)
      → scheme_of a.pass ≡ none
      → is_anonymous_any a ≡ false
      → check_pass env a pass ≡ ok (text_eq a.pass pass)
  unfolding check_pass check_hashed
  check_pass-plain a pass plain named = rw (plain, check_hashed, named) (ground arith)

  IsHashOf-check_pass :
      (a b : Access) (pass : Text)
      → length pass ≤ 72
      → IsHashOf env a b
      → check_pass env b pass ≡ check_pass env a pass
  unfolding check_pass
  IsHashOf-check_pass a b pass short h = rw h.replaced (
      check_hashed-digest _ (record a { pass = env.encode h.digest }) pass refl
        (lawful.prefixed h.digest) (lawful.decode-encode h.digest)
        (lawful.matches h.salt a.pass pass short h.hashed)
      ∙ sym (check_pass-plain a pass h.plain h.named))

  -- A round of `GetAccess` answers alike for the two accesses.
  visit-Kept :
      (user pass : Text) (h k : List Access) (p : ℕ) (o o' : Option Access)
      (rest rest' : List Access × Result ℕ)
      → length pass ≤ 72
      → Kept env o o'
      → rest'.1 ≡ rest.1
      → (visit env user pass k p o' rest').1 ≡ (visit env user pass h p o rest).1
  unfolding visit is_keycloak
  visit-Kept user pass h k p none none rest rest' short kept e = e
  visit-Kept user pass h k p none (some b) rest rest' short kept e = absurd kept
  visit-Kept user pass h k p (some a) none rest rest' short kept e = absurd kept
  visit-Kept user pass h k p (some a) (some b) rest rest' short (inl same) e =
      rw same (ground arith)
  visit-Kept user pass h k p (some a) (some b) rest rest' short (inr hashed) e =
      ground (arith, hashed.replaced, IsHashOf-check_pass a b pass short hashed)

  find_access-Related :
      (user pass : Text) (h k : List Access) (ps : List ℕ)
      → length pass ≤ 72
      → Related env h k
      → (find_access env user pass k ps).1 ≡ (find_access env user pass h ps).1
  unfolding find_access
  find_access-Related user pass h k [] short related = refl
  find_access-Related user pass h k (p ∷ ps) short related =
      visit-Kept user pass h k p (get_elem? h p) (get_elem? k p) _ _ short (related p)
        (find_access-Related user pass h k ps short related)

  unless_failed-snd :
      (o : Option Error) (h k : List Access) (found found' : List Access × Result ℕ)
      → found'.1 ≡ found.1
      → (unless_failed o k found').1 ≡ (unless_failed o h found).1
  unfolding unless_failed
  unless_failed-snd none h k found found' e = e
  unless_failed-snd (some e') h k found found' e = refl

  save_file-heap :
      (c : Config) (d : Disk) (r : HashLoop × Option Error)
      → (save_file env c d r).0 ≡ record c { heap = r.0.heap }
  unfolding save_file
  save_file-heap c d (l, some e) = refl
  save_file-heap c d (l, none) = ground arith

  -- The configuration afterwards is the old one with a related heap.
  hash_file-Related :
      (c : Config) (d : Disk) (r : Result Text)
      → (k : List Access) × ((hash_file env c d r).0 ≡ record c { heap = k }) × Related env c.heap k
  unfolding hash_file
  hash_file-Related c d (err e) = (c.heap, refl, Related-refl env c.heap)
  hash_file-Related c d (ok json) = (
    _,
    save_file-heap c d _,
    hash_accesses-Related env lawful 0 c.content.accesses
        (record { heap = c.heap; json = json; save = false }),
  )

  pub hash_plaintext_passwords-Related :
      (c : Config) (d : Disk) → Related env c.heap (hash_plaintext_passwords env c d).0.heap
  unfolding hash_plaintext_passwords
  hash_plaintext_passwords-Related c d =
      let (k, same, related) = hash_file-Related c d (env.read_file d c.file_name) in
      subst (λ c'. Related env c.heap c'.heap) (sym same) related

  -- Whatever `HashPlaintextPasswords` does to the accesses and however it ends, `GetAccess` answers
  -- every name and every password of at most 72 bytes as before: with the same access, or the same
  -- error. The bcrypt library is taken to be lawful.
  pub get_access-hash_plaintext_passwords :
      (c : Config) (d : Disk) (user pass : Text)
      → length pass ≤ 72
      → (get_access env (hash_plaintext_passwords env c d).0 user pass).1
        ≡ (get_access env c user pass).1
  unfolding get_access hash_plaintext_passwords
  get_access-hash_plaintext_passwords c d user pass short =
      let (k, same, related) = hash_file-Related c d (env.read_file d c.file_name) in
      ap (λ c'. (get_access env c' user pass).1) same
      ∙ unless_failed-snd env.new_decoder_all c.heap k _ _
          (find_access-Related user pass c.heap k c.content.accesses short related)
