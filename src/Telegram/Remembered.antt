-- ===== src/Telegram/Remembered.antt =====
-- What the fake file system of fs/telegram remembers.
use ftpserver.Base.{
  ℕ, zero, suc, ◌+◌, ◌<◌, ◌≤◌, ◌≡◌, refl, sym, ap, ◌∙◌, ◌⊎◌, inl, inr, some, List, [], ◌∷◌, ◌++◌,
  Text, text_eq, text_eq_iff, length, take, arith, if◌then◌else◌, text_eq-cases, ℕ_discrete,
  Bool-cases, ==_iff, ◌==◌,
}
use mathlib.Core.List.{append_assoc, append-nil}
use mathlib.Core.Path.{subst}
use ftpserver.Strings.{split_from, split_slash, join_slash}
use ftpserver.Telegram.{FileInfo, Dict, stat, put, directory, mkdir, mkdir_from, mkdir_all}

pub stat-put :
    (d : Dict) (n name : Text) (i : FileInfo)
    → stat (put d n i) name ≡ (if text_eq n name then some i else stat d name)
unfolding stat put
stat-put [] n name i = refl
stat-put ((m, old) ∷ d) n name i =
    ground (arith, text_eq_iff n name, text_eq_iff m n, text_eq_iff m name, stat-put d n name i)

stat-mkdir :
    (d : Dict) (n name : Text) (mode : ℕ)
    → ((n ≡ name) ⊎ (stat d name ≡ some (directory name mode)))
    → stat (mkdir d n mode) name ≡ some (directory name mode)
unfolding mkdir
stat-mkdir d n name mode h = elim (text_eq-cases n name) [
  | inl (same, e) ↦ rw (stat-put d n name (directory n mode), same, e) refl
  | inr other ↦
      rw (stat-put d n name (directory n mode), other)
        (elim h [ inl e ↦ ground (arith, text_eq_iff n name) | inr kept ↦ kept ])
]

-- A directory stays one, whatever directories are made with the same mode.
mkdir_from-keeps :
    (mode : ℕ) (path : List Text) (name : Text) (k i : ℕ) (d : Dict)
    → stat d name ≡ some (directory name mode)
    → stat (mkdir_from d mode path i k) name ≡ some (directory name mode)
unfolding mkdir_from
mkdir_from-keeps mode path name zero i d h = h
mkdir_from-keeps mode path name (suc k) i d h =
    mkdir_from-keeps mode path name k (suc i) _ (stat-mkdir d _ name mode (inr h))

mkdir_from-made :
    (mode : ℕ) (path : List Text) (k i j : ℕ) (d : Dict)
    → i ≤ j
    → j < i + k
    → stat (mkdir_from d mode path i k) (join_slash (take (suc j) path))
      ≡ some (directory (join_slash (take (suc j) path)) mode)
unfolding mkdir_from
mkdir_from-made mode path zero i j d low high = absurd (omega arith)
mkdir_from-made mode path (suc k) i j d low high = elim (ℕ_discrete i j) [
  | yes e ↦ mkdir_from-keeps mode path (join_slash (take (suc j) path)) k (suc i) _ (
      stat-mkdir d (join_slash (take (suc i) path)) _ mode
        (inl (ap (λ m. join_slash (take (suc m) path)) e)))
  | no ne ↦ mkdir_from-made mode path k (suc i) j _ (omega arith) (omega arith)
]

-- After `MkdirAll` every directory on the way to the path is remembered with the mode of this call:
-- for each number of elements, the first ones of the path between its slashes.
stat-mkdir_all :
    (d : Dict) (name : Text) (mode j : ℕ)
    → j < length (split_slash name)
    → stat (mkdir_all d name mode) (join_slash (take (suc j) (split_slash name)))
      ≡ some (directory (join_slash (take (suc j) (split_slash name))) mode)
unfolding mkdir_all
stat-mkdir_all d name mode j h =
    mkdir_from-made mode (split_slash name) (length (split_slash name)) 0 j d (omega arith)
      (omega arith)

split_from-cons : (p s : Text) → (q : Text) × (qs : List Text) × (split_from p s ≡ q ∷ qs)
unfolding split_from
split_from-cons p [] = (p, [], refl)
split_from-cons p (c ∷ s) = elim (Bool-cases (c == b'/')) [
  | inl slash ↦ (p, split_from [] s, rw slash refl)
  | inr other ↦ rw other (split_from-cons (p ++ c ∷ []) s)
]

join_slash-cons :
    (p : Text) (ps : List Text) (q : Text) (qs : List Text)
    → ps ≡ q ∷ qs
    → join_slash (p ∷ ps) ≡ p ++ (b'/' ∷ join_slash ps)
unfolding join_slash
join_slash-cons p ps q qs e = rw e refl

join_slash-split_from : (p s : Text) → join_slash (split_from p s) ≡ p ++ s
unfolding split_from join_slash
join_slash-split_from p [] = sym (append-nil p)
join_slash-split_from p (c ∷ s) = elim (Bool-cases (c == b'/')) [
  | inl slash ↦
      let (q, qs, e) = split_from-cons [] s in
      rw slash (
        join_slash-cons p (split_from [] s) q qs e
        ∙ ap (λ rest. p ++ (b'/' ∷ rest)) (join_slash-split_from [] s)
        ∙ ap (λ k. p ++ (k ∷ s)) (sym ((==_iff c b'/').0 slash)))
  | inr other ↦ rw other (join_slash-split_from (p ++ c ∷ []) s ∙ append_assoc p (c ∷ []) s)
]

take-length : (xs : List Text) → take (length xs) xs ≡ xs
take-length [] = refl
take-length (x ∷ xs) = ap (λ ys. x ∷ ys) (take-length xs)

-- After `MkdirAll` a path, also one with doubled slashes or one at its end, is itself remembered as
-- a directory with the mode of the call, under the name that was given.
pub stat-mkdir_all_self :
    (d : Dict) (name : Text) (mode : ℕ)
    → stat (mkdir_all d name mode) name ≡ some (directory name mode)
unfolding split_slash
stat-mkdir_all_self d name mode =
    let (q, qs, e) = split_from-cons [] name in
    let whole : join_slash (take (suc (length qs)) (split_slash name)) ≡ name =
      ap (λ n. join_slash (take n (split_slash name))) (sym (ap length e))
      ∙ ap join_slash (take-length (split_slash name))
      ∙ join_slash-split_from [] name in
    subst (λ n. stat (mkdir_all d name mode) n ≡ some (directory n mode)) whole
      (stat-mkdir_all d name mode (length qs) (omega (arith, ap length e)))
