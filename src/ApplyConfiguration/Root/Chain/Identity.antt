-- ===== src/ApplyConfiguration/Root/Chain/Identity.antt =====
-- What chains of `With` calls leave alone.
use agentic_platform.Prelude.{◌≡◌, refl, ◌∙◌, String, Option, some, List, [], ◌∷◌, All}
use agentic_platform.ApplyConfiguration.{Outcome, returned, panicked, map_outcome, and_then}
use agentic_platform.ApplyConfiguration.Builder.{state}
use agentic_platform.ApplyConfiguration.Root.{
  Types, Root, agentgateway_backend, get_kind, get_api_version, get_name, get_namespace,
}
use agentic_platform.ApplyConfiguration.Root.Chain.{
  Call, kind, api_version, name, generate_name, namespace, uid, resource_version, generation,
  deletion_grace_period_seconds, creation_timestamp, deletion_timestamp, labels, annotations,
  owner_references, finalizers, spec, status, call, chain,
}

module _ (t : Types) where
  -- What identifies the object: what the four getters return.
  pub record Identity : Type 0 where
    pub kind : Option String
    pub api_version : Option String
    pub name : Option String
    pub namespace : Option String

  abbrev pub identity : Root t → Identity
  identity b = record {
    kind = get_kind t b;
    api_version = get_api_version t b;
    name = (get_name t b).0;
    namespace = (get_namespace t b).0;
  }

  -- A call of another builder than `WithKind`, `WithAPIVersion`, `WithName` and `WithNamespace`.
  abbrev pub IsOther : Call t → Type 0
  IsOther (kind v) = ⊥
  IsOther (api_version v) = ⊥
  IsOther (name v) = ⊥
  IsOther (namespace v) = ⊥
  IsOther _ = Unit

  and_then-identity :
      (o : Outcome (Root t)) (f : Root t → Outcome (Root t))
      → ((b : Root t) → identity (state (f b)) ≡ identity b)
      → identity (state (and_then o f)) ≡ identity (state o)
  and_then-identity (returned b) f h = h b
  and_then-identity (panicked e b) f h = refl

  map_outcome-identity :
      {A : Type 0} (o : Outcome A) (f : A → Root t) (i : Identity)
      → ((a : A) → identity (f a) ≡ i)
      → identity (state (map_outcome f o)) ≡ i
  map_outcome-identity (returned a) f i h = h a
  map_outcome-identity (panicked e a) f i h = h a

  call-identity : (c : Call t) (b : Root t) → IsOther c → identity (state (call t c b)) ≡ identity b
  unfolding call
  call-identity (kind v) b h = absurd h
  call-identity (api_version v) b h = absurd h
  call-identity (name v) b h = absurd h
  call-identity (namespace v) b h = absurd h
  call-identity (labels es) b h = map_outcome-identity _ _ _ (λ a. refl)
  call-identity (annotations es) b h = map_outcome-identity _ _ _ (λ a. refl)
  call-identity (owner_references os) b h = map_outcome-identity _ _ _ (λ a. refl)
  call-identity (generate_name v) b h = refl
  call-identity (uid v) b h = refl
  call-identity (resource_version v) b h = refl
  call-identity (generation v) b h = refl
  call-identity (creation_timestamp v) b h = refl
  call-identity (deletion_timestamp v) b h = refl
  call-identity (deletion_grace_period_seconds v) b h = refl
  call-identity (finalizers fs) b h = refl
  call-identity (spec v) b h = refl
  call-identity (status v) b h = refl

  chain-keeps :
      (cs : List (Call t)) (b : Root t)
      → All IsOther cs
      → identity (state (chain t cs b)) ≡ identity b
  unfolding chain
  chain-keeps [] b h = refl
  chain-keeps (c ∷ cs) b h =
      and_then-identity (call t c b) (chain t cs) (λ a. chain-keeps cs a h.1)
      ∙ call-identity c b h.0

  -- Behind every chain of other calls on what `AgentgatewayBackend` returns, and where a call panics,
  -- the getters return the name and the namespace that it was given, its kind and its version.
  pub chain-identity :
      (cs : List (Call t)) (n ns : String)
      → All IsOther cs
      → identity (state (chain t cs (agentgateway_backend t n ns))) ≡ record {
        kind = some "AgentgatewayBackend";
        api_version = some "agentgateway.dev/agentgateway";
        name = some n;
        namespace = some ns;
      }
  chain-identity cs n ns h = chain-keeps cs (agentgateway_backend t n ns) h ∙ refl
