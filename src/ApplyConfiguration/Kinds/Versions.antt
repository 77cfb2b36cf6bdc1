-- ===== src/ApplyConfiguration/Kinds/Versions.antt =====
-- The versions of the configurations that the three constructors of root kinds make, for `ForKind`.
use agentic_platform.Prelude.{
  ◌≡◌, ◌≢◌, refl, ap, sym, ◌∙◌, String, true, not, Option, none, some, List, [], ◌∷◌, All, all,
  Option-cases, inl, inr, codes, ◌==◌, concat,
}
use agentic_platform.Kubernetes.{GroupVersion, GroupVersionKind}
use agentic_platform.ApplyConfiguration.Root.{
  Types, Root, agentgateway_backend, agentgateway_policy, agentgateway_parameters, get_kind,
  get_api_version,
}
use agentic_platform.ApplyConfiguration.Kinds.{for_kind}
use agentic_platform.ApplyConfiguration.Kinds.Named.{for_kind-named}

-- A text without `/`.
abbrev pub IsSegment : String → Type 0
IsSegment s = all (λ c. not (c == b'/')) (codes s) ≡ true

-- What schema.ParseGroupVersion is documented to do with a text `group/version`.
abbrev pub Parses : (String → GroupVersion) → Type 0
Parses parse =
    (g v : String)
    → IsSegment g
    → IsSegment v
    → parse (concat g (concat "/" v)) ≡ record { group = g; version = v }

module _ (t : Types) where
  abbrev pub text_of : Option String → String
  text_of none = ""
  text_of (some s) = s

  -- The kind of an object, as its fields `APIVersion` and `Kind` give it.
  abbrev pub gvk_of : (String → GroupVersion) → Root t → GroupVersionKind
  gvk_of parse b = record {
    group_version = parse (text_of (get_api_version t b));
    kind = text_of (get_kind t b);
  }

  -- What the constructors of the three root kinds return.
  abbrev pub built : String → String → List (Root t)
  built n ns =
      agentgateway_backend t n ns ∷ agentgateway_policy t n ns ∷ agentgateway_parameters t n ns ∷ []

  unregistered :
      (parse : String → GroupVersion) (scheme : GroupVersion) (b : Root t)
      → Parses parse
      → scheme.version ≢ "agentgateway"
      → get_api_version t b ≡ some "agentgateway.dev/agentgateway"
      → for_kind scheme (gvk_of parse b) ≡ none
  unregistered parse scheme b p ne e = elim (Option-cases (for_kind scheme (gvk_of parse b))) [
    | inl unset ↦ unset
    | inr (u, set) ↦
        let version : scheme ≡ record { group = "agentgateway.dev"; version = "agentgateway" } =
          sym (for_kind-named scheme (gvk_of parse b) u set).0
          ∙ ap (λ a. parse (text_of a)) e
          ∙ p "agentgateway.dev" "agentgateway" refl refl in
        absurd (ne (ap (λ g. g.version) version))
  ]

  -- If the version of agentgateway's API is not `agentgateway`, then what the constructors of the
  -- three root kinds return is, by its own `APIVersion` and `Kind`, of no kind that `ForKind` knows.
  pub built-unregistered :
      (parse : String → GroupVersion) (scheme : GroupVersion) (n ns : String)
      → Parses parse
      → scheme.version ≢ "agentgateway"
      → All (λ b. for_kind scheme (gvk_of parse b) ≡ none) (built n ns)
  built-unregistered parse scheme n ns p ne = (
    unregistered parse scheme (agentgateway_backend t n ns) p ne refl,
    (
      unregistered parse scheme (agentgateway_policy t n ns) p ne refl,
      (unregistered parse scheme (agentgateway_parameters t n ns) p ne refl, tt),
    ),
  )
