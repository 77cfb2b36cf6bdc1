-- ===== src/Admission/Tool/Names.antt =====
-- The names of credential providers in an admitted tool, as `CredentialProviderName` reads them, and
-- the bounds of its worker pool.
use agentic_platform.Prelude.{
  suc, ◌≤◌, ◌≡◌, refl, ap, ap₂, &&-true, sym, String, true, false, some, List, [], ◌∷◌, map, length,
  ==_iff, str_eq, str_eq_iff, size, all, arith, Option-cases, inl, inr, ◌∙◌,
}
use agentic_platform.Api.CredentialProvider.{
  credential_provider_type_oauth, credential_provider_type_api_key,
}
use agentic_platform.Api.Tool.{CredentialProviderBinding, credential_provider_name}
use agentic_platform.Admission.Format.{has, count, Distinct, distinct-Distinct}
use agentic_platform.Admission.Tool.{
  admits_ref, admits_oauth_binding, admits_api_key_binding, admits_binding, rule_name, map_cons,
  rule_names, names_distinct, admits_bindings,
}

oauth_is_not_api_key :
    str_eq credential_provider_type_oauth credential_provider_type_api_key ≡ false
oauth_is_not_api_key = refl

-- For an admitted binding, `CredentialProviderName` returns a name of at least one character: it
-- does not read through a nil pointer, and does not fall to its default branch.
pub admits_binding-credential_provider_name :
    (b : CredentialProviderBinding)
    → admits_binding b ≡ true
    → (name : String) × (credential_provider_name b ≡ some name) × (1 ≤ size name)
unfolding admits_binding credential_provider_name admits_oauth_binding admits_api_key_binding
    admits_ref
admits_binding-credential_provider_name b h = elim (Option-cases (credential_provider_name b)) [
  | inl e ↦ absurd (ground (arith, str_eq_iff b.type "OAuth", str_eq_iff b.type "APIKey"))
  | inr (name, e) ↦ (name, e, ground (arith, str_eq_iff b.type "OAuth", str_eq_iff b.type "APIKey"))
]

pub rule_name-eq-credential_provider_name :
    (b : CredentialProviderBinding)
    → admits_binding b ≡ true
    → rule_name b ≡ credential_provider_name b
unfolding admits_binding credential_provider_name
rule_name-eq-credential_provider_name b h =
    ground (arith, str_eq_iff b.type "OAuth", str_eq_iff b.type "APIKey")

-- The names that the CEL rule collects from admitted bindings are those that the code reads.
record Names (bs : List CredentialProviderBinding) : Type 0 where
  names : List String
  collected : rule_names bs ≡ some names
  read : map credential_provider_name bs ≡ map some names
  counted : length names ≡ length bs

Names-of_cons :
    (b : CredentialProviderBinding) (bs : List CredentialProviderBinding) (name : String)
    → rule_name b ≡ some name
    → credential_provider_name b ≡ some name
    → Names bs
    → Names (b ∷ bs)
Names-of_cons b bs name p q n = record {
  names = name ∷ n.names;
  collected = ap₂ map_cons p n.collected;
  read = ap₂ (λ x xs. x ∷ xs) q n.read;
  counted = ap suc n.counted;
}

Names-of : (bs : List CredentialProviderBinding) → all admits_binding bs ≡ true → Names bs
Names-of [] h = record { names = []; collected = refl; read = refl; counted = refl }
Names-of (b ∷ bs) h =
    let (p, q) = &&-true (admits_binding b) (all admits_binding bs) h in
    let n = admits_binding-credential_provider_name b p in
    Names-of_cons b bs n.0 (rule_name-eq-credential_provider_name b p ∙ n.1) n.1 (Names-of bs q)

admits_bindings-parts :
    (bs : List CredentialProviderBinding)
    → admits_bindings bs ≡ true
    → (all admits_binding bs ≡ true) × (names_distinct (rule_names bs) (length bs) ≡ true)
unfolding admits_bindings
admits_bindings-parts bs h = ground arith

names_distinct-Distinct :
    (bs : List CredentialProviderBinding) (n : Names bs)
    → names_distinct (rule_names bs) (length bs) ≡ true
    → Distinct n.names
names_distinct-Distinct bs n h =
    distinct-Distinct n.names ((==_iff _ _).0 (rw n.collected at h) ∙ sym n.counted)

-- In an admitted list of bindings every binding names a credential provider, and no two name the
-- same one.
pub admits_bindings-Distinct :
    (bs : List CredentialProviderBinding)
    → admits_bindings bs ≡ true
    → (names : List String) × (map credential_provider_name bs ≡ map some names) × Distinct names
admits_bindings-Distinct bs h =
    let (each, distinct_names) = admits_bindings-parts bs h in
    let n = Names-of bs each in (n.names, n.read, names_distinct-Distinct bs n distinct_names)

count_type-eq-count-has :
    (bs : List CredentialProviderBinding)
    → all admits_binding bs ≡ true
    → count (λ b. str_eq b.type credential_provider_type_oauth) bs ≡ count (λ b. has b.oauth) bs
unfolding admits_binding
count_type-eq-count-has [] h = refl
count_type-eq-count-has (b ∷ bs) h =
    ground (arith, str_eq_iff b.type "OAuth", count_type-eq-count-has bs)

-- An admitted list of bindings has at most one of type OAuth.
pub admits_bindings-one_oauth :
    (bs : List CredentialProviderBinding)
    → admits_bindings bs ≡ true
    → count (λ b. str_eq b.type credential_provider_type_oauth) bs ≤ 1
unfolding admits_bindings
admits_bindings-one_oauth bs h = ground (arith, count_type-eq-count-has bs)
