-- ===== src/EnvVars.antt =====
-- fs/utils/env.go: `ReplaceEnvVars`, which puts the values of environment variables in the place
-- of `$NAME`. The pattern is `\$[a-zA-Z0-9_]+`, matched from the left and as long as it can be.
pub mod Expansion
use ftpserver.Base.{
  ℕ, ◌≡◌, refl, Bool, ◌&&◌, ◌||◌, Option, none, some, List, [], ◌∷◌, ◌++◌, Text, bytes, leb, ◌==◌,
  text_eq, if◌then◌else◌,
}

-- `[a-zA-Z0-9_]`.
unfoldable pub is_word : ℕ → Bool
is_word c =
    (leb b'a' c && leb c b'z')
    || (leb b'A' c && leb c b'Z')
    || (leb b'0' c && leb c b'9')
    || c == b'_'

module _ (getenv : Text → Text) where
  -- What a `$` with the word bytes behind it becomes: no match without a word byte.
  pub flush : Text → Text
  flush [] = b'$' ∷ []
  flush (c ∷ name) = getenv (c ∷ name)

  -- The scan outside a match (`none`) and behind a `$`, with the name read so far.
  pub replace_from : Option Text → Text → Text
  unfolding flush is_word
  replace_from none [] = []
  replace_from (some name) [] = flush name
  replace_from none (c ∷ s) =
      let match = replace_from (some []) s in
      let copy = c ∷ replace_from none s in if c == b'$' then match else copy
  replace_from (some name) (c ∷ s) =
      let longer = replace_from (some (name ++ c ∷ [])) s in
      let match = flush name ++ replace_from (some []) s in
      let copy = flush name ++ (c ∷ replace_from none s) in
      if is_word c then longer else if c == b'$' then match else copy

  unfoldable pub replace_env_vars : Text → Text
  unfolding replace_from
  replace_env_vars s = replace_from none s

-- env_test.go: `TestEnvReplace`.
env_replace :
    replace_env_vars
      (λ name. if text_eq name (bytes "TEST") then bytes "abc" else [])
      (bytes "/tmp/$TEST/def")
    ≡ bytes "/tmp/abc/def"
unfolding replace_env_vars text_eq
env_replace = refl
