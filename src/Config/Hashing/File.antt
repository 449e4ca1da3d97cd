-- ===== src/Config/Hashing/File.antt =====
-- The file that `HashPlaintextPasswords` of config/config.go edits, and the accesses in memory.
use mathlib.Core.Path.{subst}
use ftpserver.Base.{
  ℕ, suc, ◌≡◌, refl, sym, ap, ◌∙◌, inl, inr, false, Option, none, some, List, [], ◌∷◌, Text, bytes,
  sprint, ◌++◌, get_elem?, set, Error, Result, ok, err, Bool-cases, Option-cases,
}
use ftpserver.Confpar.{Access, Content}
use ftpserver.Config.{Env, Config, HashScheme, scheme_of, is_anonymous_any}
use ftpserver.Config.Hashing.{
  HashLoop, json_path, store_digest, continue_with, hash_with, hash_plain, hash_unless, hash_access,
  hash_accesses, save_file, hash_file, hash_plaintext_passwords,
}
use ftpserver.Config.Loading.{addresses}

module _ {Disk Digest : Type 0} (env : Env Disk Digest) where
  -- What the code relies on in the operating system and in the JSON libraries: both ways to read a
  -- file give its content, a file that was written has the content that was written, and setting
  -- the `pass` of the access number i of the list `accesses`, by the path that sjson documents, gives
  -- a text that decodes to the same but for that password. The last holds of a text in which no
  -- object names a member twice, in upper and lower case or not, since encoding/json would read the
  -- last of them and sjson sets the first; `Plain` stands for that, which the setting keeps.
  pub record IsFaithful (Plain : Text → Type 0) : Type 0 where
    pub reads : (d : Disk) (name : Text) → env.read_file d name ≡ env.open_file d name
    pub written :
        (d : Disk) (name t : Text) {d' : Disk}
        → env.write_file d name t ≡ (d', none)
        → env.open_file d' name ≡ ok t
    pub edited :
        (t : Text) (i : ℕ) (pass : Text) {ct : Content Access} {a : Access}
        → Plain t
        → env.json_decode t ≡ ok ct
        → get_elem? ct.accesses i ≡ some a
        → (t' : Text) × Plain t'
          × (env.sjson_set t (bytes "accesses." ++ (sprint i ++ bytes ".pass")) pass ≡ ok t')
          × (env.json_decode t'
              ≡ ok (record ct { accesses = set ct.accesses i (record a { pass = pass }) }))

  -- What a stored digest preserves holds after a round, and after the loop, over accesses that are on
  -- the heap in the order of the file.
  module _ (P : HashLoop → Type 0) where
    module _ (l : HashLoop) (i : ℕ) (p : ℕ) (a : Access)
        (keep : (encoded : Text)
          → P (store_digest l p a encoded (env.sjson_set l.json (json_path i) encoded)))
        (start : P l) where
      hash_with-keeps : (r : Result Digest) → P (hash_with env i l p a r).0
      unfolding hash_with
      hash_with-keeps (err e) = start
      hash_with-keeps (ok digest) = keep (env.encode digest)

      hash_plain-keeps : (o : Option Error) → P (hash_plain env o i l p a).0
      unfolding hash_plain
      hash_plain-keeps (some e) = start
      hash_plain-keeps none = hash_with-keeps (env.hash i a.pass)

      hash_unless-keeps : (o : Option HashScheme) → P (hash_unless env o i l p a).0
      unfolding hash_unless
      hash_unless-keeps (some scheme) = start
      hash_unless-keeps none = hash_plain-keeps env.new_bcrypt

    module _
        (keep : (l : HashLoop) (i : ℕ) (a : Access) (encoded : Text)
          → get_elem? l.heap i ≡ some a
          → P l
          → P (store_digest l i a encoded (env.sjson_set l.json (json_path i) encoded))) where
      hash_access-keeps :
          (i : ℕ) (l : HashLoop) → P l → P (hash_access env i l i (get_elem? l.heap i)).0
      unfolding hash_access
      hash_access-keeps i l start = elim (Option-cases (get_elem? l.heap i)) [
        | inl missing ↦ rw (missing, hash_access) start
        | inr (a, found) ↦ elim (Bool-cases (is_anonymous_any a)) [
          | inl named ↦ rw (found, hash_access, named) start
          | inr other ↦
              rw (found, hash_access, other)
                (hash_unless-keeps l i i a (λ encoded. keep l i a encoded found start) start
                  (scheme_of a.pass))
        ]
      ]

      continue_with-keeps :
          (next : HashLoop → HashLoop × Option Error) (r : HashLoop × Option Error)
          → ((l : HashLoop) → P l → P (next l).0)
          → P r.0
          → P (continue_with next r).0
      unfolding continue_with
      continue_with-keeps next (l, none) step h = step l h
      continue_with-keeps next (l, some e) step h = h

      pub hash_accesses-keeps :
          (i : ℕ) (as' : List Access) (l : HashLoop)
          → P l
          → P (hash_accesses env i (addresses i as') l).0
      unfolding hash_accesses addresses
      hash_accesses-keeps i [] l start = start
      hash_accesses-keeps i (a ∷ as') l start =
          continue_with-keeps (hash_accesses env (suc i) (addresses (suc i) as')) _
            (hash_accesses-keeps (suc i) as') (hash_access-keeps i l start)

  module _ {Plain : Text → Type 0} (faithful : IsFaithful Plain) (ct : Content Access)
      (json : Text) where
    -- The text of the loop holds the content with the accesses of the loop, and is the one that was
    -- read unless it is to be saved.
    pub record Tracks (l : HashLoop) : Type 0 where
      pub decoded : env.json_decode l.json ≡ ok (record ct { accesses = l.heap })
      pub unsaved : l.save ≡ false → l.json ≡ json
      pub plain : Plain l.json

    store_digest-Tracks :
        (l : HashLoop) (i : ℕ) (a : Access) (encoded : Text) (r : Result Text)
        → env.sjson_set l.json (json_path i) encoded ≡ r
        → get_elem? l.heap i ≡ some a
        → Tracks l
        → Tracks (store_digest l i a encoded r)
    unfolding store_digest json_path
    store_digest-Tracks l i a encoded (err e) set found t =
        let (t', _, done, _) = faithful.edited l.json i encoded t.plain t.decoded found in absurd cc
    store_digest-Tracks l i a encoded (ok modified) set found t =
        let (t', plain, done, decoded) = faithful.edited l.json i encoded t.plain t.decoded found in
        let same : t' ≡ modified = cc in
        record {
          decoded = ap env.json_decode (sym same) ∙ decoded;
          unsaved = λ e. cc;
          plain = subst Plain same plain;
        }

    pub hash_accesses-Tracks :
        (i : ℕ) (as' : List Access) (l : HashLoop)
        → Tracks l
        → Tracks (hash_accesses env i (addresses i as') l).0
    hash_accesses-Tracks = hash_accesses-keeps Tracks (λ l i a encoded found t.
        store_digest-Tracks l i a encoded (env.sjson_set l.json (json_path i) encoded) refl found t)

  save_file-holds :
      {Plain : Text → Type 0} (faithful : IsFaithful Plain) (ct : Content Access) (json : Text)
      (c : Config) (d : Disk) (r : HashLoop × Option Error)
      → env.open_file d c.file_name ≡ ok json
      → Tracks faithful ct json r.0
      → (save_file env c d r).2 ≡ none
      → (text : Text) × (env.open_file (save_file env c d r).1 c.file_name ≡ ok text)
        × (env.json_decode text ≡ ok (record ct { accesses = (save_file env c d r).0.heap }))
  unfolding save_file
  save_file-holds faithful ct json c d (l, some e) read t h = cc
  save_file-holds faithful ct json c d (l, none) read t h = elim (Bool-cases l.save) [
    | inl saved ↦
        let failed : (env.write_file d c.file_name l.json).1 ≡ none = rw saved at h in
        rw saved (
          l.json,
          faithful.written d c.file_name l.json
              (ap (λ e. ((env.write_file d c.file_name l.json).0, e)) failed),
          t.decoded,
        )
    | inr unsaved ↦ rw unsaved (l.json, read ∙ ap ok (sym (t.unsaved unsaved)), t.decoded)
  ]

  -- After a `HashPlaintextPasswords` without an error the file holds the accesses in memory.
  pub hash_plaintext_passwords-holds :
      {Plain : Text → Type 0} (faithful : IsFaithful Plain) (ct : Content Access) (json : Text)
      (c : Config) (d : Disk)
      → c.content.accesses ≡ addresses 0 c.heap
      → env.open_file d c.file_name ≡ ok json
      → Plain json
      → env.json_decode json ≡ ok (record ct { accesses = c.heap })
      → (hash_plaintext_passwords env c d).2 ≡ none
      → (text : Text) × (env.open_file (hash_plaintext_passwords env c d).1 c.file_name ≡ ok text)
        × (env.json_decode text
            ≡ ok (record ct { accesses = (hash_plaintext_passwords env c d).0.heap }))
  unfolding hash_plaintext_passwords hash_file
  hash_plaintext_passwords-holds faithful ct json c d listed read plain decoded h =
      let begun : HashLoop = record { heap = c.heap; json = json; save = false } in
      let tracked : Tracks faithful ct json (hash_accesses env 0 c.content.accesses begun).0 =
        subst (λ ps. Tracks faithful ct json (hash_accesses env 0 ps begun).0) (sym listed)
          (hash_accesses-Tracks faithful ct json 0 c.heap begun
            (record { decoded = decoded; unsaved = λ e. refl; plain = plain })) in
      let same = faithful.reads d c.file_name ∙ read in
      subst
        (λ r.
          (hash_file env c d r).2 ≡ none
          → (text : Text) × (env.open_file (hash_file env c d r).1 c.file_name ≡ ok text)
            × (env.json_decode text ≡ ok (record ct { accesses = (hash_file env c d r).0.heap })))
        (sym same)
        (save_file-holds faithful ct json c d (hash_accesses env 0 c.content.accesses begun) read
          tracked)
        h
