-- ===== src/Tests/Building.antt =====
-- The builders of apply configurations at concrete inputs.
use mathlib.Core.List.{Pairwise, not-mem-nil, mem-cons}
use mathlib.Core.List.Perm
use mathlib.Core.Logic.Or
use mathlib.Core.HLevel.{¬_prop}
use Prim.Native.Char.{code}
use text.Mathlib.TextLemmas.{nil-append, cons-append}
use agentic_platform.Prelude.{
  false, not, Bool-cases, inl, inr, slash-append, all, ◌≡◌, ◌≢◌, refl, ap, ◌∙◌, ℕ, String, true,
  none, some, List, [], ◌∷◌, ◌++◌, All, concat, str_eq, str_eq_iff, codes, ◌==◌, if◌then◌else◌,
  arith,
}
use agentic_platform.Kubernetes.{GroupVersion, GroupVersionKind}
use agentic_platform.ApplyConfiguration.{panicked}
use agentic_platform.ApplyConfiguration.Maps.Order.{DistinctKeys}
use agentic_platform.ApplyConfiguration.Root.{
  Types, Root, ensured, with_meta, with_labels, with_owner_references, agentgateway_backend,
}
use agentic_platform.ApplyConfiguration.Root.Metadata.{with_labels-perm, with_owner_references-nil}
use agentic_platform.ApplyConfiguration.Root.Chain.{
  Call, labels, owner_references, finalizers, spec, chain, gather, owners_of, finalizers_of, Adds,
  chain-Adds,
}
use agentic_platform.ApplyConfiguration.Root.Chain.Identity.{identity, chain-identity}
use agentic_platform.ApplyConfiguration.Builder.{state}
use agentic_platform.ApplyConfiguration.Kinds.{for_kind}
use agentic_platform.ApplyConfiguration.Kinds.Named.{configuration_of, for_kind-named}
use agentic_platform.ApplyConfiguration.Kinds.Versions.{Parses, gvk_of, built, built-unregistered}

abbrev types : Types
types = record { Time = ℕ; Owner = String; Spec = String; Status = String }

abbrev backend : Root types
backend = agentgateway_backend types "llm" "team"

abbrev two_labels : List (String × String)
two_labels = ("app", "mycelium") ∷ ("tier", "edge") ∷ []

abbrev swapped_labels : List (String × String)
swapped_labels = ("tier", "edge") ∷ ("app", "mycelium") ∷ []

differ : (a b : String) → str_eq a b ≡ false → a ≢ b
differ a b h e = cc (h, (str_eq_iff a b).1 e)

two_labels-DistinctKeys : DistinctKeys two_labels
two_labels-DistinctKeys =
    Pairwise.cons
      (λ a m.
        Or.elim ¬_prop (mem-cons.0 m) (λ e q. differ "app" "tier" refl (q ∙ ap (λ p. p.0) e))
          (λ r. absurd (not-mem-nil r)))
      (Pairwise.cons (λ a m. absurd (not-mem-nil m)) Pairwise.nil)

with_labels-perm_example :
    with_labels types two_labels backend ≡ with_labels types swapped_labels backend
with_labels-perm_example =
    with_labels-perm types two_labels swapped_labels backend two_labels-DistinctKeys
      (Perm.swap ("tier", "edge") ("app", "mycelium") [])

with_owner_references-nil_example :
    with_owner_references types (some "a" ∷ some "b" ∷ none ∷ some "c" ∷ []) backend
    ≡ panicked "nil value passed to WithOwnerReferences" (
        with_meta types backend (record (ensured types backend) {
          owner_references = (ensured types backend).owner_references ++ "a" ∷ "b" ∷ [];
        }))
with_owner_references-nil_example =
    with_owner_references-nil types ("a" ∷ "b" ∷ []) (some "c" ∷ []) backend

abbrev calls : List (Call types)
calls =
    owner_references (some "a" ∷ [])
    ∷ labels two_labels
    ∷ finalizers ("f" ∷ "g" ∷ [])
    ∷ spec (some "s")
    ∷ owner_references (some "b" ∷ some "c" ∷ [])
    ∷ []

chain-Adds_example :
    Adds types
      (chain types calls backend)
      backend
      (gather types (owners_of types) calls)
      (gather types (finalizers_of types) calls)
chain-Adds_example =
    chain-Adds types calls backend ((cc, tt), (tt, (tt, (tt, ((cc, (cc, tt)), tt)))))

chain-identity_example :
    identity types (state (chain types calls (agentgateway_backend types "llm" "team"))) ≡ record {
      kind = some "AgentgatewayBackend";
      api_version = some "agentgateway.dev/agentgateway";
      name = some "llm";
      namespace = some "team";
    }
chain-identity_example = chain-identity types calls "llm" "team" (tt, (tt, (tt, (tt, (tt, tt)))))

abbrev scheme : GroupVersion
scheme = record { group = "agentgateway.dev"; version = "v1alpha1" }

abbrev webhook : GroupVersionKind
webhook = record { group_version = scheme; kind = "Webhook" }

for_kind-webhook : for_kind scheme webhook ≡ some "WebhookApplyConfiguration"
unfolding for_kind
for_kind-webhook = refl

for_kind-named_example :
    (webhook.group_version ≡ scheme) × ("WebhookApplyConfiguration" ≡ configuration_of webhook.kind)
for_kind-named_example = for_kind-named scheme webhook "WebhookApplyConfiguration" for_kind-webhook

-- The text in front of the first `/`, and the text behind it.
abbrev split : String → String × String
split String.[] = ("", "")
split (String.◌∷◌ c s) =
    let rest = split s in if code c == b'/' then ("", s) else (String.◌∷◌ c rest.0, rest.1)

split-append :
    (g v : String)
    → all (λ c. not (c == b'/')) (codes g) ≡ true
    → split (concat g (concat "/" v)) ≡ (g, v)
split-append String.[] v h = rw (nil-append (concat "/" v), slash-append v) refl
split-append (String.◌∷◌ c g) v h = elim (Bool-cases (code c == b'/')) [
  | inl e ↦ absurd (ground (arith, e))
  | inr e ↦
      rw (cons-append c g (concat "/" v), e)
        (ap (λ (r : String × String). (String.◌∷◌ c r.0, r.1))
          (split-append g v (ground (arith, e))))
]

abbrev parse : String → GroupVersion
parse s = record { group = (split s).0; version = (split s).1 }

parse-Parses : Parses parse
parse-Parses g v hg hv =
    ap (λ (r : String × String). record { group = r.0; version = r.1 }) (split-append g v hg)

version_ne : scheme.version ≢ "agentgateway"
version_ne = differ "v1alpha1" "agentgateway" refl

built-unregistered_example :
    All (λ b. for_kind scheme (gvk_of types parse b) ≡ none) (built types "llm" "team")
built-unregistered_example =
    built-unregistered types parse scheme "llm" "team" parse-Parses version_ne
