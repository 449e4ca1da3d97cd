-- ===== src/Tests/Requests.antt =====
-- Samples for the webhook's request of server/server.go.
use mathlib.Core.List.Perm
use mathlib.Core.List.Memᴰ.{head, tail}
use ftpserver.Base.{◌≡◌, ◌≢◌, sym, ap, ◌∙◌, some, All, [], ◌∷◌, Text, bytes}
use ftpserver.Confpar.{AccessesWebhook}
use ftpserver.Server.Webhook.{canonical, request_headers}
use ftpserver.Server.Webhook.Headers.{header, IsConsistent, request_headers-permuted}

abbrev token : Text × Text
token = (bytes "x-token", bytes "t")

abbrev accept : Text × Text
accept = (bytes "Accept", bytes "application/json")

abbrev webhook : AccessesWebhook
webhook = record { url = bytes "http://auth"; headers = token ∷ accept ∷ []; timeout = 5 }

token-ne-accept : canonical token.0 ≢ canonical accept.0
unfolding canonical
token-ne-accept e = cc

two-IsConsistent : IsConsistent (token ∷ accept ∷ [])
two-IsConsistent e e' (head p) (head q) same = ap (λ t. t.1) (p ∙ sym q)
two-IsConsistent e e' (head p) (tail (head q)) same =
    absurd (token-ne-accept (sym (ap (λ t. canonical t.0) p) ∙ same ∙ ap (λ t. canonical t.0) q))
two-IsConsistent e e' (tail (head p)) (head q) same =
    absurd
      (token-ne-accept (sym (ap (λ t. canonical t.0) q) ∙ sym same ∙ ap (λ t. canonical t.0) p))
two-IsConsistent e e' (tail (head p)) (tail (head q)) same = ap (λ t. t.1) (p ∙ sym q)
two-IsConsistent e e' (tail (tail p)) q same = elim p [ ]
two-IsConsistent e e' (head p) (tail (tail q)) same = elim q [ ]
two-IsConsistent e e' (tail (head p)) (tail (tail q)) same = elim q [ ]

request_headers-permuted_example :
    (All (λ e. header (canonical e.0) (request_headers webhook) ≡ some e.1) webhook.headers)
    × (header (bytes "X-Token") (request_headers webhook)
        ≡ header
            (bytes "X-Token")
            (request_headers (record webhook { headers = accept ∷ token ∷ [] })))
request_headers-permuted_example =
    request_headers-permuted webhook (accept ∷ token ∷ []) (bytes "X-Token") two-IsConsistent
      (Perm.swap accept token [])
