-- ===== src/ApplyConfiguration/Agentgateway/AgentgatewayPolicy.antt =====
-- mycelium/internal/applyconfiguration/v1alpha1/agentgateway/agentgatewaypolicy.go: the builders of
-- ApplyConfiguration/Root at the types of this kind.
use agentic_platform.Prelude.{refl, String, Option, List, ◌∷◌, []}
use agentic_platform.Prelude.Int.{ℤ}
use agentic_platform.ApplyConfiguration.{Outcome}
use agentic_platform.ApplyConfiguration.Json.{Fields, text, number}
use agentic_platform.ApplyConfiguration.Foreign.{Foreign}
use agentic_platform.ApplyConfiguration.Builder.{Builder, Configuration, IsSound, ◌▸◌}
use agentic_platform.ApplyConfiguration.Builder.Kinds.{
  value_builder, value_IsFaithful, pointer_builder, pointer_IsFaithful, values_builder,
  values_IsFaithful, pointers_builder, pointers_IsFaithful, entries_builder, entries_IsFaithful,
}
use agentic_platform.ApplyConfiguration.Root
use agentic_platform.ApplyConfiguration.Root.{Types, ensured, no_root, with_meta}
use agentic_platform.ApplyConfiguration.Root.Sent.{root_fields}
use agentic_platform.ApplyConfiguration.Agentgateway.AgentgatewayPolicySpec.{
  AgentgatewayPolicySpec, encode_agentgateway_policy_spec,
}

module _ (x : Foreign) where
  abbrev pub agentgateway_policy_types : Types
  agentgateway_policy_types = record {
    Time = x.time.Carrier;
    Owner = x.owner_reference.Carrier;
    Spec = AgentgatewayPolicySpec x;
    Status = x.policy_status.Carrier;
  }

  abbrev pub AgentgatewayPolicy : Type 0
  AgentgatewayPolicy = Root.Root agentgateway_policy_types

  abbrev pub agentgateway_policy : String → String → AgentgatewayPolicy
  agentgateway_policy = Root.agentgateway_policy agentgateway_policy_types

  abbrev pub with_kind : String → AgentgatewayPolicy → AgentgatewayPolicy
  with_kind = Root.with_kind agentgateway_policy_types

  abbrev pub with_api_version : String → AgentgatewayPolicy → AgentgatewayPolicy
  with_api_version = Root.with_api_version agentgateway_policy_types

  abbrev pub with_name : String → AgentgatewayPolicy → AgentgatewayPolicy
  with_name = Root.with_name agentgateway_policy_types

  abbrev pub with_generate_name : String → AgentgatewayPolicy → AgentgatewayPolicy
  with_generate_name = Root.with_generate_name agentgateway_policy_types

  abbrev pub with_namespace : String → AgentgatewayPolicy → AgentgatewayPolicy
  with_namespace = Root.with_namespace agentgateway_policy_types

  abbrev pub with_uid : String → AgentgatewayPolicy → AgentgatewayPolicy
  with_uid = Root.with_uid agentgateway_policy_types

  abbrev pub with_resource_version : String → AgentgatewayPolicy → AgentgatewayPolicy
  with_resource_version = Root.with_resource_version agentgateway_policy_types

  abbrev pub with_generation : ℤ → AgentgatewayPolicy → AgentgatewayPolicy
  with_generation = Root.with_generation agentgateway_policy_types

  abbrev pub with_creation_timestamp : x.time.Carrier → AgentgatewayPolicy → AgentgatewayPolicy
  with_creation_timestamp = Root.with_creation_timestamp agentgateway_policy_types

  abbrev pub with_deletion_timestamp : x.time.Carrier → AgentgatewayPolicy → AgentgatewayPolicy
  with_deletion_timestamp = Root.with_deletion_timestamp agentgateway_policy_types

  abbrev pub with_deletion_grace_period_seconds : ℤ → AgentgatewayPolicy → AgentgatewayPolicy
  with_deletion_grace_period_seconds =
      Root.with_deletion_grace_period_seconds agentgateway_policy_types

  abbrev pub with_labels : List (String × String) → AgentgatewayPolicy → Outcome AgentgatewayPolicy
  with_labels = Root.with_labels agentgateway_policy_types

  abbrev pub with_annotations :
      List (String × String) → AgentgatewayPolicy → Outcome AgentgatewayPolicy
  with_annotations = Root.with_annotations agentgateway_policy_types

  abbrev pub with_owner_references :
      List (Option x.owner_reference.Carrier) → AgentgatewayPolicy → Outcome AgentgatewayPolicy
  with_owner_references = Root.with_owner_references agentgateway_policy_types

  abbrev pub with_finalizers : List String → AgentgatewayPolicy → AgentgatewayPolicy
  with_finalizers = Root.with_finalizers agentgateway_policy_types

  abbrev pub with_spec : Option (AgentgatewayPolicySpec x) → AgentgatewayPolicy → AgentgatewayPolicy
  with_spec = Root.with_spec agentgateway_policy_types

  abbrev pub with_status : x.policy_status.Carrier → AgentgatewayPolicy → AgentgatewayPolicy
  with_status = Root.with_status_value agentgateway_policy_types

  abbrev pub get_kind : AgentgatewayPolicy → Option String
  get_kind = Root.get_kind agentgateway_policy_types

  abbrev pub get_api_version : AgentgatewayPolicy → Option String
  get_api_version = Root.get_api_version agentgateway_policy_types

  abbrev pub get_name : AgentgatewayPolicy → Option String × AgentgatewayPolicy
  get_name = Root.get_name agentgateway_policy_types

  abbrev pub get_namespace : AgentgatewayPolicy → Option String × AgentgatewayPolicy
  get_namespace = Root.get_namespace agentgateway_policy_types

  abbrev pub agentgateway_policy_fields : AgentgatewayPolicy → Fields
  agentgateway_policy_fields =
      root_fields agentgateway_policy_types x.time.encode x.owner_reference.encode
        (encode_agentgateway_policy_spec x) x.policy_status.encode

  abbrev pub builders : List (Builder agentgateway_policy_fields)
  builders =
      value_builder agentgateway_policy_fields "kind" text with_kind
      ∷ value_builder agentgateway_policy_fields "apiVersion" text with_api_version
      ∷ value_builder agentgateway_policy_fields "metadata.name" text with_name
      ∷ value_builder agentgateway_policy_fields "metadata.generateName" text with_generate_name
      ∷ value_builder agentgateway_policy_fields "metadata.namespace" text with_namespace
      ∷ value_builder agentgateway_policy_fields "metadata.uid" text with_uid
      ∷ value_builder agentgateway_policy_fields "metadata.resourceVersion" text
          with_resource_version
      ∷ value_builder agentgateway_policy_fields "metadata.generation" number with_generation
      ∷ value_builder agentgateway_policy_fields "metadata.creationTimestamp" x.time.encode
          with_creation_timestamp
      ∷ value_builder agentgateway_policy_fields "metadata.deletionTimestamp" x.time.encode
          with_deletion_timestamp
      ∷ value_builder agentgateway_policy_fields "metadata.deletionGracePeriodSeconds" number
          with_deletion_grace_period_seconds
      ∷ entries_builder agentgateway_policy_fields "metadata.labels" text with_labels
      ∷ entries_builder agentgateway_policy_fields "metadata.annotations" text with_annotations
      ∷ pointers_builder agentgateway_policy_fields "metadata.ownerReferences"
          x.owner_reference.encode "WithOwnerReferences" with_owner_references
      ∷ values_builder agentgateway_policy_fields "metadata.finalizers" text with_finalizers
      ∷ pointer_builder agentgateway_policy_fields "spec" (encode_agentgateway_policy_spec x)
          with_spec
      ∷ value_builder agentgateway_policy_fields "status" x.policy_status.encode with_status
      ∷ []

  abbrev pub configuration : Configuration
  configuration = record {
    Self = AgentgatewayPolicy;
    fields = agentgateway_policy_fields;
    empty = no_root agentgateway_policy_types;
    builders = builders;
  }

  pub configuration-IsSound : IsSound configuration
  configuration-IsSound = record {
    unset = refl;
    faithful =
        value_IsFaithful 0 (λ b. refl) (λ a b. refl)
        ▸ value_IsFaithful 1 (λ b. refl) (λ a b. refl)
        ▸ value_IsFaithful 4 (λ b. refl) (λ a b. refl)
        ▸ value_IsFaithful 5 (λ b. refl) (λ a b. refl)
        ▸ value_IsFaithful 6 (λ b. refl) (λ a b. refl)
        ▸ value_IsFaithful 7 (λ b. refl) (λ a b. refl)
        ▸ value_IsFaithful 8 (λ b. refl) (λ a b. refl)
        ▸ value_IsFaithful 9 (λ b. refl) (λ a b. refl)
        ▸ value_IsFaithful 10 (λ b. refl) (λ a b. refl)
        ▸ value_IsFaithful 11 (λ b. refl) (λ a b. refl)
        ▸ value_IsFaithful 12 (λ b. refl) (λ a b. refl)
        ▸ entries_IsFaithful 13 (λ b. refl) (λ b. (ensured agentgateway_policy_types b).labels)
            (λ m b.
              with_meta agentgateway_policy_types b
                (record (ensured agentgateway_policy_types b) { labels = m }))
            (λ m b. refl) (λ b. refl) (λ a b. refl)
        ▸ entries_IsFaithful 14 (λ b. refl) (λ b. (ensured agentgateway_policy_types b).annotations)
            (λ m b.
              with_meta agentgateway_policy_types b
                (record (ensured agentgateway_policy_types b) { annotations = m }))
            (λ m b. refl) (λ b. refl) (λ a b. refl)
        ▸ pointers_IsFaithful 15 (λ b. refl)
            (λ b. (ensured agentgateway_policy_types b).owner_references)
            (λ xs b.
              with_meta agentgateway_policy_types b
                (record (ensured agentgateway_policy_types b) { owner_references = xs }))
            (λ xs b. refl) (λ b. refl) "WithOwnerReferences" (λ a b. refl)
        ▸ values_IsFaithful 16 (λ b. refl) (λ b. (ensured agentgateway_policy_types b).finalizers)
            (λ xs b.
              with_meta agentgateway_policy_types b
                (record (ensured agentgateway_policy_types b) { finalizers = xs }))
            (λ xs b. refl) (λ b. refl) (λ a b. refl)
        ▸ pointer_IsFaithful 2 (λ b. refl) (λ a b. refl)
        ▸ value_IsFaithful 3 (λ b. refl) (λ a b. refl)
        ▸ tt;
  }
