-- ===== src/ApplyConfiguration/Kinds/Named.antt =====
-- Which configurations `ForKind` gives.
use agentic_platform.Prelude.{
  ◌≡◌, refl, ap₂, sym, ◌∙◌, String, Bool, true, false, Option, none, some, List, [], ◌∷◌, All, all,
  str_eq, str_eq_iff, &&-true, Bool-cases, some-eq-some, inl, inr, concat,
}
use agentic_platform.Kubernetes.{GroupVersion, GroupVersionKind}
use agentic_platform.ApplyConfiguration.Kinds.{cases, find, same_version, for_kind}

-- The name of the Go type that applyconfiguration-gen makes for a kind.
abbrev pub configuration_of : String → String
configuration_of kind = concat kind "ApplyConfiguration"

abbrev is_named : String × String → Bool
is_named c = str_eq c.1 (configuration_of c.0)

abbrev finds : Option String → String → Bool
finds none t = false
finds (some u) t = str_eq u t

finds→some : (o : Option String) (t : String) → finds o t ≡ true → o ≡ some t
finds→some none t h = cc
finds→some (some u) t h = rw ((str_eq_iff u t).0 h) refl

pub all→All :
    {A : Type 0} (p : A → Bool) (P : A → Type 0) (xs : List A)
    → ((x : A) → p x ≡ true → P x)
    → all p xs ≡ true
    → All P xs
all→All p P [] f h = tt
all→All p P (x ∷ xs) f h =
    let parts = &&-true (p x) (all p xs) h in (f x parts.0, all→All p P xs f parts.1)

find-named :
    (cs : List (String × String)) (k t : String)
    → All (λ c. c.1 ≡ configuration_of c.0) cs
    → find cs k ≡ some t
    → t ≡ configuration_of k
find-named [] k t h e = cc
find-named ((l, u) ∷ cs) k t h e = elim (Bool-cases (str_eq k l)) [
  | inl same ↦
      let here : some u ≡ some t = sym (rw same refl) ∙ e in
      rw ((str_eq_iff k l).0 same) (sym (some-eq-some here) ∙ h.0)
  | inr other ↦ find-named cs k t h.1 (sym (rw other refl) ∙ e)
]

cases-named : All (λ c. c.1 ≡ configuration_of c.0) cases
cases-named = all→All is_named _ cases (λ c h. (str_eq_iff c.1 (configuration_of c.0)).0 h) refl

same_version→eq : (a b : GroupVersion) → same_version a b ≡ true → a ≡ b
same_version→eq a b h =
    let parts = &&-true (str_eq a.group b.group) (str_eq a.version b.version) h in
    ap₂ (λ g v. record { group = g; version = v }) ((str_eq_iff a.group b.group).0 parts.0)
      ((str_eq_iff a.version b.version).0 parts.1)

-- `ForKind` gives a configuration only for kinds of agentgateway's group and version, and the one
-- whose name is the kind with `ApplyConfiguration` behind it.
pub for_kind-named :
    (scheme : GroupVersion) (k : GroupVersionKind) (t : String)
    → for_kind scheme k ≡ some t
    → (k.group_version ≡ scheme) × (t ≡ configuration_of k.kind)
unfolding for_kind
for_kind-named scheme k t e = elim (Bool-cases (same_version k.group_version scheme)) [
  | inl same ↦ (
    same_version→eq k.group_version scheme same,
    find-named cases k.kind t cases-named (sym (rw same refl) ∙ e),
  )
  | inr other ↦ let unset : none ≡ some t = sym (rw other refl) ∙ e in cc
]

-- For each kind that `ForKind` lists, in agentgateway's group and version, it gives the configuration
-- that it lists with the kind: no case hides a later one.
for_kind-cases :
    (scheme : GroupVersion)
    → All (λ c. for_kind scheme (record { group_version = scheme; kind = c.0 }) ≡ some c.1) cases
unfolding for_kind
for_kind-cases scheme =
    all→All (λ c. finds (find cases c.0) c.1)
      (λ c. for_kind scheme (record { group_version = scheme; kind = c.0 }) ≡ some c.1) cases
      (λ c h.
        rw
          (
            (str_eq_iff scheme.group scheme.group).1 refl,
            (str_eq_iff scheme.version scheme.version).1 refl,
          )
          (finds→some (find cases c.0) c.1 h))
      refl
