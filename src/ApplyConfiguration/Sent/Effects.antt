-- ===== src/ApplyConfiguration/Sent/Effects.antt =====
-- What a chain of calls on the empty struct of a configuration sends, for every type, and what `ForKind`
-- gives. For a root kind the empty struct is not what its constructor returns, which is what its calls of
-- four builders make of the empty struct.
use std.Path.{fun_ext}
use agentic_platform.Prelude.{
  ◌≡◌, ◌≢◌, refl, ap, sym, ◌∙◌, String, true, Option, none, some, List, [], ◌∷◌, All, str_eq,
  Bool-cases, inl, inr, some-eq-some, subst, ◌++◌, Bool, false,
}
use agentic_platform.Kubernetes.{GroupVersion, GroupVersionKind}
use agentic_platform.ApplyConfiguration.{map_outcome}
use agentic_platform.ApplyConfiguration.Json.{Json, Items}
use agentic_platform.ApplyConfiguration.Foreign.{Foreign}
use agentic_platform.ApplyConfiguration.Builder.{
  Document, document, document-is_unset, state, error_of, Configuration, IsSound,
}
use agentic_platform.ApplyConfiguration.Builder.Chain.{
  Call, member_of, effect_of, panic_of, chain, edit, document_of, chain-edit, edit-untouched,
  edit-last, first_panic, edit-first_panic, state-map_outcome, error_of-map_outcome,
}
use agentic_platform.ApplyConfiguration.Builder.Kinds.{extend}
use agentic_platform.ApplyConfiguration.Builder.Gathered.{Appends, gathered, edit-gathered}
use agentic_platform.ApplyConfiguration.Kinds.{find, cases, same_version, for_kind}
use agentic_platform.ApplyConfiguration.Kinds.Named.{all→All}
use agentic_platform.ApplyConfiguration.Sent.{configurations, configuration_named}
use agentic_platform.ApplyConfiguration.Sent.Sound.{configurations-IsSound}

-- An object without a member.
abbrev pub nothing : Document
nothing name = none

find-All {ℓ κ} :
    {A : Type ℓ} (P : A → Type κ) (ps : List (String × A)) (k : String) (a : A)
    → All (λ p. P p.1) ps
    → find ps k ≡ some a
    → P a
find-All P [] k a h e = cc
find-All P ((l, b) ∷ ps) k a h e = elim (Bool-cases (str_eq k l)) [
  | inl same ↦
      let here : some b ≡ some a = sym (rw same refl) ∙ e in subst P (some-eq-some here) h.0
  | inr other ↦ find-All P ps k a h.1 (sym (rw other refl) ∙ e)
]

named-IsSound :
    (x : Foreign) (name : String) (c : Configuration)
    → configuration_named x name ≡ some c
    → IsSound c
named-IsSound x name c = find-All IsSound (configurations x) name c (configurations-IsSound x)

empty-nothing : (c : Configuration) → IsSound c → document (c.fields c.empty) ≡ nothing
empty-nothing c s = fun_ext (document-is_unset (c.fields c.empty) s.unset)

-- For each configuration of the package, a chain of calls of its `With` methods on the empty struct ends
-- with what the edits of the calls, one after the other, make of an object without a member, and panics
-- where one of them is to.
pub sent-edit :
    (x : Foreign) (name : String) (c : Configuration) (cs : List (Call c.builders))
    → configuration_named x name ≡ some c
    → map_outcome (document_of c.fields) (chain cs c.empty) ≡ edit cs nothing
sent-edit x name c cs e =
    let sound = named-IsSound x name c e in
    chain-edit c.builders cs c.empty sound.faithful ∙ ap (edit cs) (empty-nothing c sound)

-- The object that a chain of calls on the empty struct leaves, also where one panics.
abbrev pub sent : (c : Configuration) → List (Call c.builders) → Document
sent c cs = document_of c.fields (state (chain cs c.empty))

sent_lem :
    (x : Foreign) (name : String) (c : Configuration) (cs : List (Call c.builders))
    → configuration_named x name ≡ some c
    → sent c cs ≡ state (edit cs nothing)
sent_lem x name c cs e =
    sym (state-map_outcome (document_of c.fields) (chain cs c.empty))
    ∙ ap state (sent-edit x name c cs e)

-- For each configuration, a member that none of the calls of a chain on the empty struct is about is not
-- in the object that is sent.
pub sent-untouched :
    (x : Foreign) (name : String) (c : Configuration) (cs : List (Call c.builders)) (n : String)
    → configuration_named x name ≡ some c
    → All (λ a. member_of a ≢ n) cs
    → sent c cs n ≡ none
sent-untouched x name c cs n e h =
    ap (λ d. d n) (sent_lem x name c cs e) ∙ edit-untouched cs nothing n h

-- For each configuration and each chain of calls on the empty struct, a member is sent as the last call
-- about it has set it, if what that call sets does not depend on what is there and no call in front of it
-- panics.
pub sent-last :
    (x : Foreign) (name : String) (c : Configuration) (cs : List (Call c.builders))
    (a : Call c.builders) (ds : List (Call c.builders)) (content : Option Json)
    → configuration_named x name ≡ some c
    → All (λ b. panic_of b ≡ none) cs
    → ((old : Option Json) → effect_of a old ≡ content)
    → All (λ b. member_of b ≢ member_of a) ds
    → sent c (cs ++ a ∷ ds) (member_of a) ≡ content
sent-last x name c cs a ds content e quiet sets others =
    ap (λ d. d (member_of a)) (sent_lem x name c (cs ++ a ∷ ds) e)
    ∙ edit-last cs a ds nothing content quiet sets others

-- For each configuration and each chain of calls on the empty struct, the array of a member holds what the
-- calls about it have appended, all of it in the order of the calls, and is not there if that is nothing,
-- if each call about it appends and no call panics.
pub sent-gathered :
    (x : Foreign) (name : String) (c : Configuration) (cs : List (Call c.builders))
    (items : Call c.builders → Items) (n : String)
    → configuration_named x name ≡ some c
    → All (λ a. panic_of a ≡ none) cs
    → All (Appends items n) cs
    → sent c cs n ≡ extend (gathered items n cs) none
sent-gathered x name c cs items n e quiet h =
    ap (λ d. d n) (sent_lem x name c cs e) ∙ edit-gathered items n cs nothing quiet h

-- For each configuration, a chain of calls on the empty struct panics exactly where one of them is given a
-- nil pointer for one of several values, with the text of the first such call.
pub sent-panics :
    (x : Foreign) (name : String) (c : Configuration) (cs : List (Call c.builders))
    → configuration_named x name ≡ some c
    → error_of (chain cs c.empty) ≡ first_panic cs
sent-panics x name c cs e =
    sym (error_of-map_outcome (document_of c.fields) (chain cs c.empty))
    ∙ ap error_of (sent-edit x name c cs e)
    ∙ edit-first_panic cs nothing

abbrev is_some {ℓ} : {A : Type ℓ} → Option A → Bool
is_some none = false
is_some (some a) = true

is_some-value {ℓ} : {A : Type ℓ} (o : Option A) → is_some o ≡ true → (a : A) × (o ≡ some a)
is_some-value none h = cc
is_some-value (some a) h = (a, refl)

cases-is_some : (x : Foreign) → All (λ k. is_some (configuration_named x k.1) ≡ true) cases
cases-is_some x = all→All (λ k. is_some (configuration_named x k.1)) _ cases (λ k h. h) refl

-- Where `ForKind` gives a configuration, it is one of those of the package, and its empty struct is sent
-- as an object without a member.
pub for_kind-nothing :
    (x : Foreign) (scheme : GroupVersion) (k : GroupVersionKind) (t : String)
    → for_kind scheme k ≡ some t
    → (c : Configuration) × ((configuration_named x t ≡ some c) × (sent c [] ≡ nothing))
unfolding for_kind
for_kind-nothing x scheme k t e = elim (Bool-cases (same_version k.group_version scheme)) [
  | inl same ↦
      let listed : is_some (configuration_named x t) ≡ true =
        find-All (λ u. is_some (configuration_named x u) ≡ true) cases k.kind t (cases-is_some x)
          (sym (rw same refl) ∙ e) in
      let (c, named) = is_some-value (configuration_named x t) listed in
      (c, (named, empty-nothing c (named-IsSound x t c named)))
  | inr other ↦ let unset : none ≡ some t = sym (rw other refl) ∙ e in cc
]
