-- ===== src/Server/Webhook/Headers.antt =====
-- The headers of the request in `getAccessFromWebhook` of server/server.go. The source sets them in
-- the order in which Go ranges over a map, which is any.
use mathlib.Core.List.{Perm, Memᴰ, Permᴰ, foldl}
use mathlib.Core.List.Memᴰ.{head, tail}
use mathlib.Core.List.Permᴰ.{nil, cons, swap, trans, symm}
use mathlib.Core.Logic.{∥∥₁_elim}
use ftpserver.Base.{
  ◌≡◌, refl, sym, ap, ◌∙◌, ◌≢◌, ◌⊎◌, inl, inr, false, Option, none, some, List, [], ◌∷◌, Text,
  bytes, text_eq, text_eq_iff, text_eq-false, if◌then◌else◌, All, arith, text_eq-cases, ℕ_discrete,
}
use ftpserver.Confpar.{AccessesWebhook}
use ftpserver.Server.Webhook.{canonical, put_header, set_header, request_headers}

abbrev pub Headers : Type 0
Headers = List (Text × Text)

-- `Header.Get` of a name in its canonical form.
pub header : Text → Headers → Option Text
header name [] = none
header name ((k, v) ∷ hs) = if text_eq k name then some v else header name hs

header-put_header :
    (name key value : Text) (hs : Headers)
    → header name (put_header key value hs)
      ≡ (if text_eq key name then some value else header name hs)
unfolding header put_header
header-put_header name key value [] = refl
header-put_header name key value ((k, v) ∷ hs) = ground (
  arith,
  text_eq_iff key name,
  text_eq_iff k key,
  text_eq_iff k name,
  header-put_header name key value hs,
)

-- An entry for this header.
abbrev Found : Text → Headers → Type 0
Found name hs = (e : Text × Text) × Memᴰ e hs × (canonical e.0 ≡ name)

abbrev Missing : Text → Headers → Type 0
Missing name hs = (e : Text × Text) → Memᴰ e hs → canonical e.0 ≢ name

Missing-cons :
    (name : Text) (h : Text × Text) (hs : Headers)
    → text_eq (canonical h.0) name ≡ false
    → Missing name hs
    → Missing name (h ∷ hs)
Missing-cons name h hs other missing e (head same) named =
    let same_name : canonical h.0 ≡ name = ap (λ k. canonical k.0) (sym same) ∙ named in
    ground (arith, other, text_eq_iff (canonical h.0) name)
Missing-cons name h hs other missing e (tail m) named = missing e m named

find : (name : Text) (hs : Headers) → Found name hs ⊎ Missing name hs
find name [] = inr (λ e m. elim m [ ])
find name (h ∷ hs) = elim (text_eq-cases (canonical h.0) name) [
  | inl (_, same) ↦ inl (h, head refl, same)
  | inr other ↦ elim (find name hs) [
    | inl (e, m, same) ↦ inl (e, tail m, same)
    | inr missing ↦ inr (Missing-cons name h hs other missing)
  ]
]

-- No two entries set the same header to different values.
abbrev pub IsConsistent : Headers → Type 0
IsConsistent hs =
    (e e' : Text × Text) → Memᴰ e hs → Memᴰ e' hs → canonical e.0 ≡ canonical e'.0 → e.1 ≡ e'.1

foldl-Missing :
    (name : Text) (hs init : Headers)
    → Missing name hs
    → header name (foldl set_header init hs) ≡ header name init
unfolding set_header
foldl-Missing name [] init missing = refl
foldl-Missing name ((k, v) ∷ hs) init missing =
    foldl-Missing name hs (put_header (canonical k) v init) (λ e m. missing e (tail m))
    ∙ header-put_header name (canonical k) v init
    ∙ ap (λ b. if b then some v else header name init)
        (text_eq-false (canonical k) name (missing (k, v) (head refl)))

set_header-Found :
    (name : Text) (h e : Text × Text) (hs init : Headers)
    → Missing name hs
    → Memᴰ e (h ∷ hs)
    → canonical e.0 ≡ name
    → header name (set_header init h) ≡ some e.1
unfolding set_header
set_header-Found name (k, v) e hs init missing (head same) named =
    header-put_header name (canonical k) v init
    ∙ ap (λ b. if b then some v else header name init)
        ((text_eq_iff (canonical k) name).1 (ap (λ t. canonical t.0) (sym same) ∙ named))
    ∙ ap (λ t. some t.1) (sym same)
set_header-Found name (k, v) e hs init missing (tail m) named = absurd (missing e m named)

foldl-Found :
    (name : Text) (hs init : Headers) (e : Text × Text)
    → IsConsistent hs
    → Memᴰ e hs
    → canonical e.0 ≡ name
    → header name (foldl set_header init hs) ≡ some e.1
foldl-Found name [] init e c m named = elim m [ ]
foldl-Found name (h ∷ hs) init e c m named = elim (find name hs) [
  | inl (e', m', named') ↦
      foldl-Found name hs (set_header init h) e' (λ x y p q. c x y (tail p) (tail q)) m' named'
      ∙ ap some (c e' e (tail m') m (named' ∙ sym named))
  | inr missing ↦
      foldl-Missing name hs (set_header init h) missing
      ∙ set_header-Found name h e hs init missing m named
]

permute : {l l' : Headers} {e : Text × Text} → Permᴰ l l' → Memᴰ e l → Memᴰ e l'
permute nil m = m
permute (cons same p) (head e) = head (e ∙ same)
permute (cons same p) (tail m) = tail (permute p m)
permute (swap same same') (head e) = tail (head (e ∙ same))
permute (swap same same') (tail (head e)) = head (e ∙ same')
permute (swap same same') (tail (tail m)) = tail (tail m)
permute (trans p q) m = permute q (permute p m)

foldl-permuted :
    (name : Text) (hs hs' init : Headers)
    → IsConsistent hs
    → Permᴰ hs hs'
    → header name (foldl set_header init hs) ≡ header name (foldl set_header init hs')
foldl-permuted name hs hs' init c p = elim (find name hs) [
  | inl (e, m, named) ↦
      foldl-Found name hs init e c m named
      ∙ sym (
          foldl-Found name hs' init e (λ x y m m'. c x y (permute (symm p) m) (permute (symm p) m'))
            (permute p m) named)
  | inr missing ↦
      foldl-Missing name hs init missing
      ∙ sym (foldl-Missing name hs' init (λ e m. missing e (permute (symm p) m)))
]

All-of :
    {P : Text × Text → Type 0} (hs : Headers) → ((e : Text × Text) → Memᴰ e hs → P e) → All P hs
All-of [] h = tt
All-of (e ∷ hs) h = (h e (head refl), All-of hs (λ e' m. h e' (tail m)))

-- If no two names of the configuration that differ in upper and lower case only have different
-- values, each configured header is in the request with its value, and the request has the same
-- headers in whatever order the map of the configured headers is run through.
pub request_headers-permuted :
    (w : AccessesWebhook) (headers : Headers) (name : Text)
    → IsConsistent w.headers
    → Perm w.headers headers
    → (All (λ e. header (canonical e.0) (request_headers w) ≡ some e.1) w.headers)
      × (header name (request_headers w)
          ≡ header name (request_headers (record w { headers = headers })))
unfolding request_headers
request_headers-permuted w headers name c p =
    let init = set_header [] (bytes "Content-Type", bytes "application/json") in
    (
      All-of w.headers (λ e m. foldl-Found (canonical e.0) w.headers init e c m refl),
      ∥∥₁_elim
          {P = header name (foldl set_header init w.headers)
            ≡ header name (foldl set_header init headers)}
          p (hlevel ℕ_discrete) (λ d. foldl-permuted name w.headers headers init c d),
    )
