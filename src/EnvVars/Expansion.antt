-- ===== src/EnvVars/Expansion.antt =====
-- `ReplaceEnvVars` of fs/utils/env.go against a description by pieces.
use mathlib.Core.List.{append_assoc, append-nil}
use ftpserver.Base.{
  ℕ, ◌≡◌, refl, sym, ap, ◌∙◌, ◌≢◌, true, false, none, some, List, [], ◌∷◌, ◌++◌, Text, All, arith,
}
use ftpserver.EnvVars.{is_word, flush, replace_from, replace_env_vars}

-- The pieces of a text: a byte other than `$`, a `$` with no name behind it, and `$NAME`, the name
-- given by its first byte and the others.
pub data Piece : Type 0 where
  copied : ℕ → Piece
  dollar : Piece
  variable : ℕ → Text → Piece

pub print : List Piece → Text
print [] = []
print (copied c ∷ ps) = c ∷ print ps
print (dollar ∷ ps) = b'$' ∷ print ps
print (variable c name ∷ ps) = b'$' ∷ c ∷ (name ++ print ps)

pub expand : (Text → Text) → List Piece → Text
expand getenv [] = []
expand getenv (copied c ∷ ps) = c ∷ expand getenv ps
expand getenv (dollar ∷ ps) = b'$' ∷ expand getenv ps
expand getenv (variable c name ∷ ps) = getenv (c ∷ name) ++ expand getenv ps

-- The pieces do not begin with a word byte, which a name before them would take in.
abbrev pub EndsName : List Piece → Type 0
EndsName (copied c ∷ ps) = is_word c ≡ false
EndsName _ = Unit

-- The pieces are those that the text itself falls into.
abbrev pub IsSeparated : List Piece → Type 0
IsSeparated [] = Unit
IsSeparated (copied c ∷ ps) = (c ≢ b'$') × IsSeparated ps
IsSeparated (dollar ∷ ps) = EndsName ps × IsSeparated ps
IsSeparated (variable c name ∷ ps) =
    (is_word c ≡ true) × All (λ b. is_word b ≡ true) name × EndsName ps × IsSeparated ps

module _ (getenv : Text → Text) where
  replace_from-name :
      (acc name rest : Text)
      → All (λ b. is_word b ≡ true) name
      → replace_from getenv (some acc) (name ++ rest)
        ≡ replace_from getenv (some (acc ++ name)) rest
  unfolding replace_from
  replace_from-name acc [] rest h = rw append-nil
  replace_from-name acc (c ∷ name) rest (w, h) = rw w (
      replace_from-name (acc ++ c ∷ []) name rest h
      ∙ ap (λ s. replace_from getenv (some s) rest) (append_assoc acc (c ∷ []) name))

  replace_from-some :
      (name : Text) (ps : List Piece)
      → EndsName ps
      → IsSeparated ps
      → replace_from getenv (some name) (print ps)
        ≡ flush getenv name ++ replace_from getenv none (print ps)
  unfolding replace_from print
  replace_from-some name [] e h = sym (append-nil _)
  replace_from-some name (copied c ∷ ps) e h = ground arith
  replace_from-some name (dollar ∷ ps) e h = refl
  replace_from-some name (variable c more ∷ ps) e h = refl

  replace_from-expand :
      (ps : List Piece) → IsSeparated ps → replace_from getenv none (print ps) ≡ expand getenv ps
  unfolding replace_from print expand
  replace_from-expand [] h = refl
  replace_from-expand (copied c ∷ ps) (other, h) = ground (arith, replace_from-expand ps h)
  replace_from-expand (dollar ∷ ps) (e, h) =
      replace_from-some [] ps e h ∙ ap (λ s. b'$' ∷ s) (replace_from-expand ps h)
  replace_from-expand (variable c name ∷ ps) (w, ws, e, h) = rw w (
      replace_from-name (c ∷ []) name (print ps) ws
      ∙ (replace_from-some (c ∷ name) ps e h
          ∙ ap (λ s. getenv (c ∷ name) ++ s) (replace_from-expand ps h)))

  -- In a text made of separated pieces `ReplaceEnvVars` replaces every `$NAME` by the value of the
  -- variable and copies all else, a `$` with no name behind it too. What a value holds is not
  -- expanded again.
  pub replace_env_vars-print :
      (ps : List Piece) → IsSeparated ps → replace_env_vars getenv (print ps) ≡ expand getenv ps
  unfolding replace_env_vars
  replace_env_vars-print ps h = replace_from-expand ps h
