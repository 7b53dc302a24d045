-- ===== src/Webhook/Headers.antt =====
-- internal/webhookdelivery/dispatcher.go: the spec of a webhook, its headers and their redaction.
use kubetest_alt.Base.{
  ℕ, Bool, true, false, Option, none, some, List, [], ◌∷◌, Str, codes, if◌then◌else◌,
}

-- An int32 of a spec.
pub data ℤ : Type 0 where
  pos negsuc : ℕ → ℤ

-- `corev1.SecretKeySelector`.
pub record SecretRef : Type 0 where
  pub name : Str
  pub key : Str

-- `WebhookHeader`: its value is its own, or that of a Secret.
pub record WebhookHeader : Type 0 where
  pub name : Str
  pub value : Str
  pub secret_ref : Option SecretRef

pub record WebhookSpec : Type 0 where
  pub url : Str
  pub events : List Str
  pub headers : List WebhookHeader
  pub timeout_seconds : ℤ
  pub max_retries : ℤ

-- `NamespacedKey`.
pub record WebhookKey : Type 0 where
  pub namespace : Str
  pub name : Str

-- `Job`: `body` is the payload as JSON, where it can be written so.
pub record DeliveryJob : Type 0 where
  pub key : WebhookKey
  pub spec : WebhookSpec
  pub namespace : Str
  pub body : Option Str

-- `SecretResolver`: namespace, name and key to a value, or an error.
abbrev pub SecretResolver : Type 0
SecretResolver = Str → Str → Str → Option Str

pub record ResolvedHeader : Type 0 where
  pub name : Str
  pub value : Str
  pub secret : Bool

-- One header in front of the others, where all of them resolve.
unfoldable pub add_header :
    Option ResolvedHeader → Option (List ResolvedHeader) → Option (List ResolvedHeader)
add_header none rest = none
add_header (some h) none = none
add_header (some h) (some hs) = some (h ∷ hs)

-- The value of a Secret, which no resolver and a failing one do not give.
unfoldable pub resolve_secret :
    Option SecretResolver → Str → Str → SecretRef → Option ResolvedHeader
resolve_secret none namespace name r = none
resolve_secret (some secrets) namespace name r = elim (secrets namespace r.name r.key) [
  | none ↦ none
  | some v ↦ some (record { name = name; value = v; secret = true })
]

unfoldable pub resolve_header : Option SecretResolver → Str → WebhookHeader → Option ResolvedHeader
unfolding resolve_secret
resolve_header secrets namespace h = elim h.secret_ref [
  | none ↦ some (record { name = h.name; value = h.value; secret = false })
  | some r ↦ resolve_secret secrets namespace h.name r
]

-- `resolveHeaders`.
unfoldable pub resolve_headers :
    Option SecretResolver → Str → List WebhookHeader → Option (List ResolvedHeader)
unfolding add_header resolve_header
resolve_headers secrets namespace [] = some []
resolve_headers secrets namespace (h ∷ hs) =
    add_header (resolve_header secrets namespace h) (resolve_headers secrets namespace hs)

-- `RedactedHeaderPlaceholder`.
abbrev pub redacted_header_placeholder : Str
redacted_header_placeholder = codes "<redacted:secret>"

-- `redactHeaders`.
unfoldable pub redact_headers : List ResolvedHeader → List ResolvedHeader
redact_headers [] = []
redact_headers (h ∷ hs) =
    let rest = redact_headers hs in
    (if h.secret then record h { value = redacted_header_placeholder; secret = true } else h) ∷ rest
