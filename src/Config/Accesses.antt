-- ===== src/Config/Accesses.antt =====
-- config/config.go: `CheckAccesses`, which loads the file system of each access.
use ftpserver.Base.{
  ℕ, ◌≡◌, refl, ◌↔◌, Option, none, some, List, [], ◌∷◌, get_elem?, All, Error, Result, ok, err, Run,
  done, panic,
}
use ftpserver.Confpar.{Access}
use ftpserver.Config.{Config}
use ftpserver.Fs.{Fs, Cloud}
use ftpserver.Fs.Loader.{load_fs}

-- One round of the loop; `rest` is what the later rounds give. A nil pointer is read in `LoadFs`.
pub check_loaded : Result Fs → Run (Option Error) → Run (Option Error)
check_loaded (err e) rest = done (some e)
check_loaded (ok fs) rest = rest

module _ (cloud : Cloud) where
  pub check_one : Option Access → Run (Option Error) → Run (Option Error)
  unfolding check_loaded
  check_one none rest = panic
  check_one (some a) rest = check_loaded (load_fs cloud a) rest

  pub check_all : List Access → List ℕ → Run (Option Error)
  unfolding check_one
  check_all heap [] = done none
  check_all heap (p ∷ ps) = check_one (get_elem? heap p) (check_all heap ps)

  -- `CheckAccesses`.
  unfoldable pub check_accesses : Config → Run (Option Error)
  unfolding check_all
  check_accesses c = check_all c.heap c.content.accesses

  abbrev pub Loads : Option Access → Type 0
  Loads none = ⊥
  Loads (some a) = (fs : Fs) × (load_fs cloud a ≡ ok fs)

  check_loaded_iff :
      (r : Result Fs) (rest : Run (Option Error))
      → (check_loaded r rest ≡ done none) ↔ (((fs : Fs) × (r ≡ ok fs)) × (rest ≡ done none))
  unfolding check_loaded
  check_loaded_iff (ok fs) rest = (λ h. ((fs, refl), h), λ h. h.1)
  check_loaded_iff (err e) rest = (λ h. cc, λ h. cc)

  check_one_iff :
      (o : Option Access) (rest : Run (Option Error))
      → (check_one o rest ≡ done none) ↔ (Loads o × (rest ≡ done none))
  unfolding check_one
  check_one_iff none rest = (λ h. cc, λ h. absurd h.0)
  check_one_iff (some a) rest = check_loaded_iff (load_fs cloud a) rest

  check_all_iff :
      (heap : List Access) (ps : List ℕ)
      → (check_all heap ps ≡ done none) ↔ All (λ p. Loads (get_elem? heap p)) ps
  unfolding check_all
  check_all_iff heap [] = (λ h. tt, λ h. refl)
  check_all_iff heap (p ∷ ps) = (
    λ h.
        let (loads, rest) = (check_one_iff (get_elem? heap p) (check_all heap ps)).0 h in
        (loads, (check_all_iff heap ps).0 rest),
    λ (loads, rest).
        (check_one_iff (get_elem? heap p) (check_all heap ps)).1
          (loads, (check_all_iff heap ps).1 rest),
  )

  -- `CheckAccesses` returns no error exactly when each pointer of the configuration points to an
  -- access and `LoadFs` succeeds for all of them.
  check_accesses_iff :
      (c : Config)
      → (check_accesses c ≡ done none) ↔ All (λ p. Loads (get_elem? c.heap p)) c.content.accesses
  unfolding check_accesses
  check_accesses_iff c = check_all_iff c.heap c.content.accesses
