-- ===== src/StripPrefix/Transparent.antt =====
-- The file system of fs/stripprefix/stripslash.go against its source.
use ftpserver.Base.{
  ℕ, ◌<◌, ◌≡◌, refl, ◌⊎◌, inl, inr, Bool, Option, none, some, [], ◌∷◌, ◌++◌, Text, length,
  length-append, drop, ltb, lt→ltb, Error, base_path_too_short, path_error, ok, err, arith,
  Bool-cases,
}
use ftpserver.Afero.{
  AferoFs, Request, chtimes, chmod, chown, stat, rename, remove_all, remove, open_file, open_named,
  mkdir, mkdir_all, create, lstat, Reply, status, opened, info, linfo, call, lstat_or_stat,
}
use ftpserver.StripPrefix.{StripFile, real_path, new_strip_prefix_fs, slice_from}
use ftpserver.StripPrefix

-- The request with a text in front of each of its paths.
unfoldable pub prefixed : Text → Request → Request
prefixed p (chtimes name atime mtime) = chtimes (p ++ name) atime mtime
prefixed p (chmod name mode) = chmod (p ++ name) mode
prefixed p (chown name uid gid) = chown (p ++ name) uid gid
prefixed p (stat name) = stat (p ++ name)
prefixed p (rename oldname newname) = rename (p ++ oldname) (p ++ newname)
prefixed p (remove_all name) = remove_all (p ++ name)
prefixed p (remove name) = remove (p ++ name)
prefixed p (open_file name flag mode) = open_file (p ++ name) flag mode
prefixed p (open_named name) = open_named (p ++ name)
prefixed p (mkdir name mode) = mkdir (p ++ name) mode
prefixed p (mkdir_all name mode) = mkdir_all (p ++ name) mode
prefixed p (create name) = create (p ++ name)
prefixed p (lstat name) = lstat (p ++ name)

-- The source's reply, with its files wrapped.
abbrev pub wrap_reply :
    {File FileInfo : Type 0} → ℕ → Reply File FileInfo → Reply (StripFile File) FileInfo
wrap_reply start (status e) = status e
wrap_reply start (opened f (some e)) = opened none (some e)
wrap_reply start (opened f none) = opened (some (record { file = f; start = start })) none
wrap_reply start (info i e) = info i e
wrap_reply start (linfo i lstat_called e) = linfo i lstat_called e

-- Opens every method at once.
all_methods : Unit {0}
unfolding StripPrefix.chtimes StripPrefix.chmod StripPrefix.chown StripPrefix.stat
    StripPrefix.rename StripPrefix.remove_all StripPrefix.remove StripPrefix.open_file
    StripPrefix.open_named StripPrefix.mkdir StripPrefix.mkdir_all StripPrefix.create
    StripPrefix.lstat_if_possible
all_methods = tt

-- Some path of the request is shorter than the prefix.
abbrev pub IsShort : ℕ → Request → Type 0
IsShort start (chtimes name atime mtime) = length name < start
IsShort start (chmod name mode) = length name < start
IsShort start (chown name uid gid) = length name < start
IsShort start (stat name) = length name < start
IsShort start (rename oldname newname) = (length oldname < start) ⊎ (length newname < start)
IsShort start (remove_all name) = length name < start
IsShort start (remove name) = length name < start
IsShort start (open_file name flag mode) = length name < start
IsShort start (open_named name) = length name < start
IsShort start (mkdir name mode) = length name < start
IsShort start (mkdir_all name mode) = length name < start
IsShort start (create name) = length name < start
IsShort start (lstat name) = length name < start

-- The reply is nothing but the error, with an empty path.
abbrev pub Fails : {File FileInfo : Type 0} → Reply File FileInfo → Type 0
Fails (status e) = (op : Text) × (e ≡ some (path_error op [] base_path_too_short))
Fails (opened none e) = (op : Text) × (e ≡ some (path_error op [] base_path_too_short))
Fails (opened (some f) e) = ⊥
Fails (info none e) = (op : Text) × (e ≡ some (path_error op [] base_path_too_short))
Fails (info (some i) e) = ⊥
Fails (linfo none lstat_called e) = (op : Text) × (e ≡ some (path_error op [] base_path_too_short))
Fails (linfo (some i) lstat_called e) = ⊥

drop-length : (p name : Text) → drop (length p) (p ++ name) ≡ name
drop-length [] name = refl
drop-length (c ∷ p) name = drop-length p name

real_path-append : (p name : Text) → real_path (length p) (p ++ name) ≡ ok name
unfolding real_path
real_path-append p name = ground (arith, length-append {0} p name, drop-length p name)

real_path_short :
    (start : ℕ) (name : Text) → length name < start → real_path start name ≡ err base_path_too_short
unfolding real_path
real_path_short start name h = rw (lt→ltb (length name) start h)

real_path-cases :
    (start : ℕ) (name : Text)
    → (real_path start name ≡ err base_path_too_short)
      ⊎ ((kept : Text) × (real_path start name ≡ ok kept))
unfolding real_path
real_path-cases start name = elim (Bool-cases (ltb (length name) start)) [
  | inl short ↦ inl (rw short)
  | inr enough ↦ inr (drop start name, rw enough)
]

module _ (source : AferoFs) where
  wrap_file_lem :
      (start : ℕ) (r : source.State × Option source.File × Option Error)
      → let (s, f, e) = StripPrefix.wrap_file source start r in
        ◌≡◌ {A = source.State × Reply (StripFile source.File) source.FileInfo}
          (s, opened f e)
          (r.0, wrap_reply start (opened r.1 r.2))
  unfolding StripPrefix.wrap_file
  wrap_file_lem start (s, f, none) = refl
  wrap_file_lem start (s, f, some e) = refl

  lstat_source_lem :
      (start : ℕ)
      (o : Option
        (source.State → Text → source.State × Option source.FileInfo × Bool × Option Error))
      (s : source.State) (name : Text)
      → let (s', i, c, e) = StripPrefix.lstat_source source start o s name in
        ◌≡◌ {A = source.State × Reply (StripFile source.File) source.FileInfo}
          (s', linfo i c e)
          ((lstat_or_stat source o s name).0, wrap_reply start (lstat_or_stat source o s name).1)
  unfolding StripPrefix.lstat_source
  lstat_source_lem start (some f) s name = refl
  lstat_source_lem start none s name = refl

  -- A call with a path that begins with a text as long as the prefix does what the source does with
  -- the rest of the path: to its state, and in its reply, whose files are wrapped. So for every
  -- method; of a source that is no `Lstater`, `LstatIfPossible` is `Stat`.
  pub call-prefixed :
      (p : Text) (r : Request) (s : source.State)
      → call (new_strip_prefix_fs source (length p)) (prefixed p r) s
        ≡ ((call source r s).0, wrap_reply (length p) (call source r s).1)
  unfolding all_methods prefixed
  call-prefixed p (chtimes name atime mtime) s = rw (real_path-append p name)
  call-prefixed p (chmod name mode) s = rw (real_path-append p name)
  call-prefixed p (chown name uid gid) s = rw (real_path-append p name)
  call-prefixed p (stat name) s = rw (real_path-append p name)
  call-prefixed p (rename oldname newname) s =
      rw (real_path-append p oldname, StripPrefix.rename_from, real_path-append p newname)
  call-prefixed p (remove_all name) s = rw (real_path-append p name)
  call-prefixed p (remove name) s = rw (real_path-append p name)
  call-prefixed p (open_file name flag mode) s =
      rw (real_path-append p name) (wrap_file_lem (length p) (source.open_file s name flag mode))
  call-prefixed p (open_named name) s =
      rw (real_path-append p name) (wrap_file_lem (length p) (source.open_named s name))
  call-prefixed p (mkdir name mode) s = rw (real_path-append p name)
  call-prefixed p (mkdir_all name mode) s = rw (real_path-append p name)
  call-prefixed p (create name) s =
      rw (real_path-append p name) (wrap_file_lem (length p) (source.create s name))
  call-prefixed p (lstat name) s =
      rw (real_path-append p name) (lstat_source_lem (length p) source.lstat_if_possible s name)

  -- A call with a path that is shorter than the prefix, in `Rename` with either of the two, does not
  -- reach the source and fails with `ErrBasePathTooShort`. The path named in the error is empty,
  -- not the one that was given.
  pub call_short :
      (start : ℕ) (r : Request) (s : source.State)
      → IsShort start r
      → let (s', reply) = call (new_strip_prefix_fs source start) r s in (s' ≡ s) × Fails reply
  unfolding all_methods
  call_short start (chtimes name atime mtime) s h =
      rw (real_path_short start name h) (refl, (_, refl))
  call_short start (chmod name mode) s h = rw (real_path_short start name h) (refl, (_, refl))
  call_short start (chown name uid gid) s h = rw (real_path_short start name h) (refl, (_, refl))
  call_short start (stat name) s h = rw (real_path_short start name h) (refl, (_, refl))
  call_short start (rename oldname newname) s (inl h) =
      rw (real_path_short start oldname h) (refl, (_, refl))
  call_short start (rename oldname newname) s (inr h) = elim (real_path-cases start oldname) [
    | inl short ↦ rw short (refl, (_, refl))
    | inr (kept, e) ↦
        rw (e, StripPrefix.rename_from, real_path_short start newname h) (refl, (_, refl))
  ]
  call_short start (remove_all name) s h = rw (real_path_short start name h) (refl, (_, refl))
  call_short start (remove name) s h = rw (real_path_short start name h) (refl, (_, refl))
  call_short start (open_file name flag mode) s h =
      rw (real_path_short start name h) (refl, (_, refl))
  call_short start (open_named name) s h = rw (real_path_short start name h) (refl, (_, refl))
  call_short start (mkdir name mode) s h = rw (real_path_short start name h) (refl, (_, refl))
  call_short start (mkdir_all name mode) s h = rw (real_path_short start name h) (refl, (_, refl))
  call_short start (create name) s h = rw (real_path_short start name h) (refl, (_, refl))
  call_short start (lstat name) s h = rw (real_path_short start name h) (refl, (_, refl))
