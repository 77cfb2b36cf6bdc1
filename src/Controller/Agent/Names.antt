-- ===== src/Controller/Agent/Names.antt =====
-- The keys of the agents' collection (`ResourceName` of agent.go).
use Prim.Native.Char.{Char, code}
use text.Mathlib.TextLemmas.{nil-append, cons-append, append-nil}
use agentic_platform.Prelude.{
  ◌≡◌, ◌≢◌, refl, ap, ap₂, sym, ◌∙◌, String, concat, All, codes, slash, slash-append,
}
use agentic_platform.Controller.Agent.{AgentServiceAccount, resource_name}

-- A namespace is a DNS label, and holds no `/`.
abbrev pub NoSlash : String → Type 0
NoSlash s = All (λ c. c ≢ 47) (codes s)

cons_inj : (c d : Char) (a b : String) → String.◌∷◌ c a ≡ String.◌∷◌ d b → (c ≡ d) × (a ≡ b)
cons_inj c d a b e = (cc, cc)

split_at_slash :
    (a b x y : String)
    → NoSlash a
    → NoSlash b
    → concat a (String.◌∷◌ slash x) ≡ concat b (String.◌∷◌ slash y)
    → (a ≡ b) × (x ≡ y)
split_at_slash String.[] String.[] x y ha hb e =
    (refl, (cons_inj slash slash x y (sym (nil-append _) ∙ e ∙ nil-append _)).1)
split_at_slash String.[] (String.◌∷◌ d b) x y ha hb e =
    let p = cons_inj slash d x _ (sym (nil-append _) ∙ e ∙ cons-append d b _) in
    absurd (hb.0 (ap code (sym p.0)))
split_at_slash (String.◌∷◌ c a) String.[] x y ha hb e =
    let p = cons_inj c slash _ y (sym (cons-append c a _) ∙ e ∙ nil-append _) in
    absurd (ha.0 (ap code p.0))
split_at_slash (String.◌∷◌ c a) (String.◌∷◌ d b) x y ha hb e =
    let p = cons_inj c d _ _ (sym (cons-append c a _) ∙ e ∙ cons-append d b _) in
    let r = split_at_slash a b x y ha.1 hb.1 p.1 in (ap₂ (λ t u. String.◌∷◌ t u) p.0 r.0, r.1)

name-append_nil :
    (a : AgentServiceAccount)
    → resource_name a ≡ concat a.agent_namespace (String.◌∷◌ slash a.agent_name)
unfolding resource_name
name-append_nil a =
    ap (concat a.agent_namespace) (
      slash-append (concat a.agent_name "")
      ∙ ap (λ t. String.◌∷◌ slash t) (append-nil a.agent_name))

-- Two service accounts with the same key in the collection have the same namespace and the same
-- name, for namespaces without `/`.
pub resource_name-injective :
    (a b : AgentServiceAccount)
    → NoSlash a.agent_namespace
    → NoSlash b.agent_namespace
    → resource_name a ≡ resource_name b
    → (a.agent_namespace ≡ b.agent_namespace) × (a.agent_name ≡ b.agent_name)
resource_name-injective a b ha hb e =
    split_at_slash a.agent_namespace b.agent_namespace a.agent_name b.agent_name ha hb
      (sym (name-append_nil a) ∙ e ∙ name-append_nil b)
