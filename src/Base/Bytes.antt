-- ===== src/Base/Bytes.antt =====
-- Go strings and byte slices: sequences of bytes. A literal is written `bytes "…"`.
use Prim.Native.Nat.{ℕ, zero, suc, ◌+◌, ◌/◌, ◌%◌}
use Prim.Native.Char.{code}
use Prim.Native.String.{String}
use mathlib.Core.Path.{◌≡◌, refl, ap, ◌∙◌}
use mathlib.Core.Logic.{◌↔◌, ◌⊎◌, inl, inr, ◌≢◌}
use mathlib.Core.Bool.{Bool, true, false, ◌&&◌}
use mathlib.Core.List.{List, [], ◌∷◌, ◌++◌}
use native.Mathlib.Omega.{arith}
use ftpserver.Base.Tests.{◌==◌, if◌then◌else◌}

abbrev pub Text : Type 0
Text = List ℕ

-- The bytes of an ASCII literal.
abbrev pub bytes : String → Text
bytes String.[] = []
bytes (String.◌∷◌ c s) = code c ∷ bytes s

-- `s == t` on strings.
unfoldable pub text_eq : Text → Text → Bool
text_eq [] [] = true
text_eq (a ∷ s) (b ∷ t) = a == b && text_eq s t
text_eq _ _ = false

pub text_eq_iff : (s t : Text) → (text_eq s t ≡ true) ↔ (s ≡ t)
unfolding text_eq
text_eq_iff [] [] = ground arith
text_eq_iff (a ∷ s) [] = ground arith
text_eq_iff [] (b ∷ t) = ground arith
text_eq_iff (a ∷ s) (b ∷ t) = ground (arith, text_eq_iff s t)

pub text_eq_refl : (s : Text) → text_eq s s ≡ true
text_eq_refl s = (text_eq_iff s s).1 refl

pub text_eq-false : (s t : Text) → s ≢ t → text_eq s t ≡ false
text_eq-false s t h = ground (arith, text_eq_iff s t)

-- To split on a comparison and keep what it shows.
pub text_eq-cases : (s t : Text) → ((text_eq s t ≡ true) × (s ≡ t)) ⊎ (text_eq s t ≡ false)
text_eq-cases s t = go (text_eq s t) refl
  where
    go : (b : Bool) → text_eq s t ≡ b → ((text_eq s t ≡ true) × (s ≡ t)) ⊎ (text_eq s t ≡ false)
    go true e = inl (e, (text_eq_iff s t).0 e)
    go false e = inr e

-- `bytes.HasPrefix(s, prefix)`.
unfoldable pub has_prefix : Text → Text → Bool
has_prefix s [] = true
has_prefix [] (p ∷ ps) = false
has_prefix (x ∷ s) (p ∷ ps) = x == p && has_prefix s ps

pub has_prefix-append : (p s : Text) → has_prefix (p ++ s) p ≡ true
unfolding has_prefix
has_prefix-append [] s = refl
has_prefix-append (x ∷ p) s = ground (arith, has_prefix-append p s)

has_prefix-split : (s p : Text) → has_prefix s p ≡ true → (rest : Text) × (s ≡ p ++ rest)
unfolding has_prefix
has_prefix-split s [] h = (s, refl)
has_prefix-split [] (x ∷ p) h = cc
has_prefix-split (y ∷ s) (x ∷ p) h =
    let (rest, e) = has_prefix-split s p (ground (arith, h)) in (rest, ground (arith, h, e))

pub has_prefix_iff : (s p : Text) → (has_prefix s p ≡ true) ↔ ((rest : Text) × (s ≡ p ++ rest))
has_prefix_iff s p =
    (has_prefix-split s p, λ (rest, e). ap (λ t. has_prefix t p) e ∙ has_prefix-append p rest)

-- `fmt.Sprint(n)` of a number: its decimal digits. Fuel above the number is enough.
unfoldable pub sprint_from : ℕ → ℕ → Text → Text
sprint_from zero n out = out
sprint_from (suc fuel) n out =
    let out' = (b'0' + n % 10) ∷ out in
    let rest = sprint_from fuel (n / 10) out' in if n / 10 == 0 then out' else rest

unfoldable pub sprint : ℕ → Text
unfolding sprint_from
sprint n = sprint_from (suc n) n []

sprint_207 : sprint 207 ≡ bytes "207"
unfolding sprint
sprint_207 = refl
