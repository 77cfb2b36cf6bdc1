-- ===== src/Controller/Register/Resources.antt =====
-- Which kinds and resources the informers resolve to, and the permissions of the generated role.
use agentic_platform.Prelude.{
  ℕ, ◌+◌, ◌≡◌, refl, ap, ◌∙◌, String, Bool, true, false, not, ◌&&◌, ◌||◌, List, [], ◌∷◌, ◌++◌, map,
  all, All, leb, ◌==◌, codes, str_eq, str_eq_iff, Bool-cases, inl, inr, if◌then◌else◌, arith,
}
use agentic_platform.Kubernetes.{GroupVersionKind, GroupVersionResource}
use agentic_platform.Controller.Register.{go_type_name, register_krt, init}

-- Lower case, for the ASCII letters of the kinds.
abbrev pub to_lower : ℕ → ℕ
to_lower c = if leb b'A' c && leb c b'Z' then c + 32 else c

-- What meta.UnsafeGuessKindToResource is documented to return for a kind that ends neither in `s`
-- nor in `y` nor in an irregular suffix: the kind in lower case, with an `s`.
abbrev pub IsPlural : (GroupVersionKind → GroupVersionResource) → GroupVersionKind → Type 0
IsPlural guess gvk = codes (guess gvk).resource ≡ map to_lower (codes gvk.kind) ++ codes "s"

-- A rule of a role of Kubernetes.
pub record Rule : Type 0 where
  pub groups : List String
  pub resources : List String
  pub verbs : List String

abbrev pub all_verbs : List String
all_verbs = "create" ∷ "delete" ∷ "get" ∷ "list" ∷ "patch" ∷ "update" ∷ "watch" ∷ []

-- The rules of mycelium/config/rbac/role.yaml.
abbrev pub role_rules : List Rule
role_rules =
    record {
      groups = "" ∷ [];
      resources = "namespaces" ∷ "serviceaccounts" ∷ [];
      verbs = all_verbs;
    }
    ∷ record {
      groups = "agentgateway.dev" ∷ [];
      resources = "agentgatewaybackends" ∷ "agentgatewaypolicies" ∷ [];
      verbs = all_verbs;
    }
    ∷ record {
      groups = "gateway.networking.k8s.io" ∷ [];
      resources = "httproutes" ∷ [];
      verbs = all_verbs;
    }
    ∷ record {
      groups = "mycelium.io" ∷ [];
      resources = "agents" ∷ "credentialproviders" ∷ "projects" ∷ "tools" ∷ [];
      verbs = "get" ∷ "list" ∷ "patch" ∷ "update" ∷ "watch" ∷ [];
    }
    ∷ record {
      groups = "mycelium.io" ∷ [];
      resources =
          "agents/finalizers" ∷ "credentialproviders/finalizers" ∷ "projects/finalizers"
          ∷ "tools/finalizers" ∷ [];
      verbs = "update" ∷ [];
    }
    ∷ record {
      groups = "mycelium.io" ∷ [];
      resources =
          "agents/status" ∷ "credentialproviders/status" ∷ "projects/status" ∷ "tools/status" ∷ [];
      verbs = "get" ∷ "patch" ∷ "update" ∷ [];
    }
    ∷ record { groups = "serving.knative.dev" ∷ []; resources = "services" ∷ []; verbs = all_verbs }
    ∷ []

abbrev pub listed : String → List String → Bool
listed x [] = false
listed x (y ∷ ys) = str_eq x y || listed x ys

-- What Kubernetes documents of a role: it allows what one of its rules does.
abbrev pub allows : List Rule → String → String → String → Bool
allows [] group resource verb = false
allows (r ∷ rs) group resource verb =
    (listed group r.groups && listed resource r.resources && listed verb r.verbs)
    || allows rs group resource verb

-- The first code point of a text, and 0 for the empty one.
abbrev first : List ℕ → ℕ
first [] = 0
first (c ∷ cs) = c

begins_with_m : String → Bool
begins_with_m s = first (codes s) == b'm'

str_eq-first :
    (s y : String) → begins_with_m s ≡ true → begins_with_m y ≡ false → str_eq s y ≡ false
str_eq-first s y h k = elim (Bool-cases (str_eq s y)) [
  | inr other ↦ other
  | inl same ↦
      let equal : begins_with_m s ≡ begins_with_m y = ap begins_with_m ((str_eq_iff s y).0 same) in
      cc
]

listed-first :
    (s : String) (ys : List String)
    → begins_with_m s ≡ true
    → all (λ y. not (begins_with_m y)) ys ≡ true
    → listed s ys ≡ false
listed-first s [] h k = refl
listed-first s (y ∷ ys) h k = ground (arith, str_eq-first s y, listed-first s ys)

allows-first :
    (rs : List Rule) (group s verb : String)
    → begins_with_m s ≡ true
    → all (λ r. all (λ y. not (begins_with_m y)) r.resources) rs ≡ true
    → allows rs group s verb ≡ false
allows-first [] group s verb h k = refl
allows-first (r ∷ rs) group s verb h k =
    ground (arith, listed-first s r.resources, allows-first rs group s verb)

module _ (guess : GroupVersionKind → GroupVersionResource) (group verb : String) where
  IsPlural-allows :
      (gvk : GroupVersionKind)
      → first (map to_lower (codes gvk.kind) ++ codes "s") ≡ b'm'
      → IsPlural guess gvk
      → allows role_rules group (guess gvk).resource verb ≡ false
  unfolding begins_with_m
  IsPlural-allows gvk begins p =
      allows-first role_rules group (guess gvk).resource verb (rw (ap first p ∙ begins) refl) refl

  -- Each registration of `init` has the name of its Go type as its kind, and, where the guessed plural
  -- of each kind is the kind in lower case with an `s`, the generated role allows no verb on its
  -- resource, in whatever group the resource is taken to be.
  pub init-not_allowed :
      All (λ r. IsPlural guess r.gvk) (init guess [])
      → All
          (λ r.
            (r.gvk.kind ≡ go_type_name r.obj)
            × (allows role_rules group r.gvr.resource verb ≡ false))
          (init guess [])
  unfolding init register_krt
  init-not_allowed (p, (q, (r, (s, (t, _))))) = (
    (refl, IsPlural-allows _ refl p),
    (
      (refl, IsPlural-allows _ refl q),
      (
        (refl, IsPlural-allows _ refl r),
        ((refl, IsPlural-allows _ refl s), ((refl, IsPlural-allows _ refl t), tt)),
      ),
    ),
  )
