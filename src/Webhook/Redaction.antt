-- ===== src/Webhook/Redaction.antt =====
-- internal/webhookdelivery/dispatcher.go: redacted headers tell nothing of the Secrets.
use kubetest_alt.Base.{◌≡◌, sym, ap, ◌∙◌, refl, true, Option, none, some, List, [], ◌∷◌, Str, arith}
use kubetest_alt.Webhook.Headers.{
  WebhookHeader, SecretRef, ResolvedHeader, SecretResolver, resolve_header, resolve_secret,
  resolve_headers, add_header, redact_headers,
}

-- What is left of a list of headers that may not have resolved.
abbrev pub Same : Option (List ResolvedHeader) → Option (List ResolvedHeader) → Type 0
Same (some a) (some b) = redact_headers a ≡ redact_headers b
Same _ _ = Unit

abbrev pub SameHeader : Option ResolvedHeader → Option ResolvedHeader → Type 0
SameHeader (some a) (some b) = (redact_headers (a ∷ []) ≡ redact_headers (b ∷ []))
SameHeader _ _ = Unit

resolve_secret-SameHeader :
    (r s : SecretResolver) (ns name : Str) (k : SecretRef)
    → SameHeader (resolve_secret (some r) ns name k) (resolve_secret (some s) ns name k)
unfolding resolve_secret redact_headers
resolve_secret-SameHeader r s ns name k = go (r ns k.name k.key) (s ns k.name k.key)
  where
    go :
        (x y : Option Str)
        → SameHeader
            (elim x [
              | none ↦ none
              | some v ↦ some (record { name = name; value = v; secret = true })
            ])
            (elim y [
              | none ↦ none
              | some v ↦ some (record { name = name; value = v; secret = true })
            ])
    go none y = tt
    go (some v) none = tt
    go (some v) (some w) = refl

resolve_header-SameHeader :
    (r s : SecretResolver) (ns : Str) (h : WebhookHeader)
    → SameHeader (resolve_header (some r) ns h) (resolve_header (some s) ns h)
unfolding resolve_header redact_headers
resolve_header-SameHeader r s ns h = go h.secret_ref
  where
    go :
        (o : Option SecretRef)
        → SameHeader
            (resolve_header (some r) ns (record h { secret_ref = o }))
            (resolve_header (some s) ns (record h { secret_ref = o }))
    go none = refl
    go (some k) = resolve_secret-SameHeader r s ns h.name k

add_header-Same :
    (a b : Option ResolvedHeader) (xs ys : Option (List ResolvedHeader))
    → SameHeader a b
    → Same xs ys
    → Same (add_header a xs) (add_header b ys)
unfolding add_header redact_headers
add_header-Same none b xs ys h k = tt
add_header-Same (some a) none none ys h k = tt
add_header-Same (some a) none (some xs) ys h k = tt
add_header-Same (some a) (some b) none ys h k = tt
add_header-Same (some a) (some b) (some xs) none h k = tt
add_header-Same (some a) (some b) (some xs) (some ys) h k = ground (arith, h, k)

resolve_headers-Same :
    (r s : SecretResolver) (ns : Str) (hs : List WebhookHeader)
    → Same (resolve_headers (some r) ns hs) (resolve_headers (some s) ns hs)
unfolding resolve_headers redact_headers
resolve_headers-Same r s ns [] = refl
resolve_headers-Same r s ns (h ∷ hs) =
    add_header-Same (resolve_header (some r) ns h) (resolve_header (some s) ns h)
      (resolve_headers (some r) ns hs) (resolve_headers (some s) ns hs)
      (resolve_header-SameHeader r s ns h) (resolve_headers-Same r s ns hs)

Same-redacted :
    (x y : Option (List ResolvedHeader)) (a b : List ResolvedHeader)
    → Same x y
    → x ≡ some a
    → y ≡ some b
    → redact_headers a ≡ redact_headers b
Same-redacted none y a b s p q = ground (arith, p)
Same-redacted (some c) none a b s p q = ground (arith, q)
Same-redacted (some c) (some d) a b s p q =
    let left : c ≡ a = cc in
    let right : d ≡ b = cc in ap redact_headers (sym left) ∙ s ∙ ap redact_headers right

-- Whatever two Secret stores hold, the headers that a webhook resolves to with each of them are the same
-- once they are redacted.
pub redact_headers-resolve_headers :
    (r s : SecretResolver) (namespace : Str) (hs : List WebhookHeader) (a b : List ResolvedHeader)
    → resolve_headers (some r) namespace hs ≡ some a
    → resolve_headers (some s) namespace hs ≡ some b
    → redact_headers a ≡ redact_headers b
redact_headers-resolve_headers r s namespace hs a b p q =
    Same-redacted (resolve_headers (some r) namespace hs) (resolve_headers (some s) namespace hs) a
      b (resolve_headers-Same r s namespace hs) p q
