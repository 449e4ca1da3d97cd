-- ===== src/Strings/Decimal.antt =====
-- Decimal numbers, as `fmt.Sprintf("%d", n)` writes and `strconv.ParseInt` reads them.
use ftpserver.Base.{
  ℕ, zero, suc, ◌+◌, ◌*◌, ◌/◌, ◌%◌, ◌^◌, ◌≤◌, ◌<◌, ◌≡◌, refl, sym, ap, ◌∙◌, inl, inr, true, false,
  some, [], ◌∷◌, Text, ◌==◌, sprint, sprint_from, ok, arith, Bool-cases,
}
use ftpserver.Strings.{
  ℤ, pos, negsuc, is_digit, digits_value, unsigned, signed_result, parse_int, sprint_int,
}

is_digit-digit : (d : ℕ) → d < 10 → is_digit (b'0' + d) ≡ true
unfolding is_digit
is_digit-digit d small = ground arith

digits_value-digit :
    (n d : ℕ) (s : Text) → d < 10 → digits_value n ((b'0' + d) ∷ s) ≡ digits_value (n * 10 + d) s
unfolding digits_value
digits_value-digit n d s small =
    rw (is_digit-digit d small) (ap (λ k. digits_value (n * 10 + k) s) (omega arith))

-- Reading what was written gives the number.
digits_value-sprint_from :
    (fuel n : ℕ) (out : Text)
    → n < fuel
    → digits_value 0 (sprint_from fuel n out) ≡ digits_value n out
unfolding sprint_from
digits_value-sprint_from zero n out h = absurd (omega arith)
digits_value-sprint_from (suc fuel) n out h = elim (Bool-cases (n / 10 == 0)) [
  | inl last ↦ rw last (
      digits_value-digit 0 (n % 10) out (omega arith) ∙ ap (λ k. digits_value k out) (ground arith))
  | inr more ↦ rw more (
      digits_value-sprint_from fuel (n / 10) _ (ground arith)
      ∙ digits_value-digit (n / 10) (n % 10) out (omega arith)
      ∙ ap (λ k. digits_value k out) (omega arith))
]

-- The first byte is a digit.
sprint_from-cons :
    (fuel n : ℕ) (out : Text)
    → (c : ℕ) × (s : Text) × (sprint_from (suc fuel) n out ≡ c ∷ s) × (b'0' ≤ c) × (c ≤ b'9')
unfolding sprint_from
sprint_from-cons zero n out = (b'0' + n % 10, out, ground arith, omega arith, omega arith)
sprint_from-cons (suc fuel) n out = elim (Bool-cases (n / 10 == 0)) [
  | inl last ↦ (b'0' + n % 10, out, rw last refl, omega arith, omega arith)
  | inr more ↦ rw more (sprint_from-cons fuel (n / 10) _)
]

sprint-cons : (n : ℕ) → (c : ℕ) × (s : Text) × (sprint n ≡ c ∷ s) × (b'0' ≤ c) × (c ≤ b'9')
unfolding sprint
sprint-cons n = sprint_from-cons n n []

digits_value-sprint : (n : ℕ) → digits_value 0 (sprint n) ≡ some n
unfolding sprint digits_value
digits_value-sprint n = digits_value-sprint_from (suc n) n [] (omega arith)

unsigned-sprint : (n : ℕ) → unsigned (sprint n) ≡ some n
unfolding unsigned
unsigned-sprint n =
    let (c, s, e, low, high) = sprint-cons n in
    ap unsigned e ∙ ap (digits_value 0) (sym e) ∙ digits_value-sprint n

-- What an int64 holds.
abbrev pub IsInt64 : ℤ → Type 0
IsInt64 (pos n) = n < 2 ^ 63
IsInt64 (negsuc n) = n < 2 ^ 63

signed_result-unsigned :
    (n : ℕ)
    → n < 2 ^ 63
    → (signed_result false (some n) ≡ ok (pos n))
      × (signed_result true (some (n + 1)) ≡ ok (negsuc n))
unfolding signed_result
signed_result-unsigned n h = (ground arith, ground arith)

parse_int-digit :
    (c : ℕ) (s : Text)
    → b'0' ≤ c
    → c ≤ b'9'
    → parse_int (c ∷ s) ≡ signed_result false (unsigned (c ∷ s))
unfolding parse_int
parse_int-digit c s low high = ground arith

-- A number that is written in decimal and read again is the same, over all of an int64.
pub parse_int-sprint_int : (z : ℤ) → IsInt64 z → parse_int (sprint_int z) ≡ ok z
unfolding parse_int sprint_int
parse_int-sprint_int (pos n) h =
    let (c, s, e, low, high) = sprint-cons n in
    ap parse_int e
    ∙ parse_int-digit c s low high
    ∙ ap (λ t. signed_result false (unsigned t)) (sym e)
    ∙ rw (unsigned-sprint n) ((signed_result-unsigned n h).0)
parse_int-sprint_int (negsuc n) h = rw (unsigned-sprint (n + 1)) ((signed_result-unsigned n h).1)
