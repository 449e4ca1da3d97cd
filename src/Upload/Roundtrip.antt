-- ===== src/Upload/Roundtrip.antt =====
-- What is written to a `File` of fs/mail/mail.go or fs/telegram/telegram.go is what it sends.
use mathlib.Core.List.{append_assoc, append-nil}
use native.Mathlib.Nat.{zero-add}
use ftpserver.Base.{
  ℕ, zero, suc, ◌+◌, ◌-◌, ◌≤◌, ◌<◌, ◌≡◌, refl, sym, ap, ◌∙◌, ◌⊎◌, inl, inr, ◌&&◌, Option, none,
  some, List, [], ◌∷◌, ◌++◌, Text, length, take, drop, take-append-drop, ltb, leb, le→leb, ◌==◌,
  Error, eof, done, arith, Bool-cases,
}
use ftpserver.Upload.{
  Buffer, empty_buffer, write, read, read_slice, read_on, read_to_end, write_all, read_parts,
}

drop-nil : (n : ℕ) → drop {A = ℕ} n [] ≡ []
drop-nil zero = refl
drop-nil (suc n) = refl

pub drop-add : (m n : ℕ) (xs : Text) → drop (m + n) xs ≡ drop n (drop m xs)
drop-add zero n xs = rw (zero-add n) refl
drop-add (suc m) n [] = drop-nil (suc m + n) ∙ sym (drop-nil n)
drop-add (suc m) n (x ∷ xs) =
    let counted : suc m + n ≡ suc (m + n) = omega arith in
    ap (λ k. drop k (x ∷ xs)) counted ∙ drop-add m n xs

drop-length : (xs : Text) → drop (length xs) xs ≡ []
drop-length [] = refl
drop-length (x ∷ xs) = drop-length xs

-- A read that is not at the end takes a piece of what is left, at least one byte of it.
read-cases :
    (b : Buffer) (len : ℕ)
    → 0 < len
    → b.at ≤ length b.content
    → ((b.at ≡ length b.content) × (read b len ≡ done (b, [], some eof)))
      ⊎ ((n : ℕ) × (0 < n)
          × (b.at + n ≤ length b.content)
          × (read b len ≡ done (record b { at = b.at + n }, take n (drop b.at b.content), none)))
unfolding read
read-cases b len h v = elim (Bool-cases (b.at == length b.content)) [
  | inl ended ↦ inl (ground arith, ground arith)
  | inr more ↦ elim (Bool-cases (leb len (length b.content - b.at))) [
    | inl fits ↦ inr (len, h, ground arith, ground arith)
    | inr short ↦ inr (length b.content - b.at, ground arith, ground arith, ground arith)
  ]
]

read_to_end_lem :
    (fuel len : ℕ) (b : Buffer)
    → 0 < len
    → b.at ≤ length b.content
    → length b.content - b.at < fuel
    → read_to_end fuel len b ≡ done (some (record b { at = length b.content }, drop b.at b.content))
unfolding read_to_end read_on
read_to_end_lem zero len b h v enough = absurd (omega arith)
read_to_end_lem (suc fuel) len b h v enough = elim (read-cases b len h v) [
  | inl (ended, e) ↦
      rw (e, sym ended)
        (ap (λ rest. done (some (b, rest)))
          (sym (ap (λ k. drop k b.content) ended ∙ drop-length b.content)))
  | inr (n, some_read, inside, e) ↦
      rw
        (
          e,
          read_to_end_lem fuel len (record b { at = b.at + n }) h inside (omega arith),
          drop-add b.at n b.content,
          take-append-drop n (drop b.at b.content),
        )
        refl
]

-- All the chunks in one text.
unfoldable join : List Text → Text
join [] = []
join (p ∷ ps) = p ++ join ps

write_all-join :
    (b : Buffer) (ps : List Text) → write_all b ps ≡ record b { content = b.content ++ join ps }
unfolding write_all write join
write_all-join b [] = rw (append-nil b.content) refl
write_all-join b (p ∷ ps) =
    rw
      (
        write_all-join (record b { content = b.content ++ p }) ps,
        append_assoc b.content p (join ps),
      )
      refl

-- Whatever pieces a file of a mail or telegram file system is written in, a reader of the file gets
-- all of them in order and nothing else, whatever the size of its buffer, if it has any room: the
-- reads come to an end and none panics. As many reads as there are bytes, and one, are enough.
read_to_end-write_all :
    (ps : List Text) (fuel len : ℕ)
    → 0 < len
    → length (join ps) < fuel
    → read_to_end fuel len (write_all empty_buffer ps)
      ≡ done (some (record { content = join ps; at = length (join ps) }, join ps))
read_to_end-write_all ps fuel len h enough =
    rw (write_all-join empty_buffer ps) (
      read_to_end_lem fuel len (record { content = join ps; at = 0 }) h (omega arith) (omega arith))

-- The position is within the content.
abbrev pub IsWithin : Buffer → Type 0
IsWithin b = b.at ≤ length b.content

-- No read panics where the position is within the content: it moves over what it hands out.
pub read-moves :
    (b : Buffer) (len : ℕ)
    → IsWithin b
    → (n : ℕ) × (e : Option Error) × (b.at + n ≤ length b.content)
      × (read b len ≡ done (record b { at = b.at + n }, take n (drop b.at b.content), e))
unfolding read read_slice
read-moves b len v = elim (Bool-cases (ltb 0 len && b.at == length b.content)) [
  | inl ended ↦ (
    0,
    some eof,
    omega arith,
    rw ended (ap (λ k. done (record b { at = k }, [], some eof)) (omega arith)),
  )
  | inr more ↦ elim (Bool-cases (leb len (length b.content - b.at))) [
    | inl fits ↦ (len, none, ground arith, rw (more, fits, le→leb _ _ v) refl)
    | inr short ↦ (length b.content - b.at, none, ground arith, rw (more, short, le→leb _ _ v) refl)
  ]
]

pub read_parts-IsWithin :
    (lens : List ℕ) (b : Buffer)
    → IsWithin b
    → (b' : Buffer) × (b'.content ≡ b.content) × IsWithin b' × (read_parts lens b ≡ done b')
unfolding read_parts
read_parts-IsWithin [] b v = (b, refl, v, refl)
read_parts-IsWithin (len ∷ lens) b v =
    let (n, e, inside, first) = read-moves b len v in
    let (b', same, v', rest) = read_parts-IsWithin lens (record b { at = b.at + n }) inside in
    (b', same, v', rw first rest)
