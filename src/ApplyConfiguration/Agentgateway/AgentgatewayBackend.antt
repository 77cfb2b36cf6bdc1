-- ===== src/ApplyConfiguration/Agentgateway/AgentgatewayBackend.antt =====
-- mycelium/internal/applyconfiguration/v1alpha1/agentgateway/agentgatewaybackend.go: the builders of
-- ApplyConfiguration/Root at the types of this kind.
use agentic_platform.Prelude.{refl, String, Option, List, ◌∷◌, []}
use agentic_platform.Prelude.Int.{ℤ}
use agentic_platform.ApplyConfiguration.{Outcome}
use agentic_platform.ApplyConfiguration.Json.{Fields, text, number}
use agentic_platform.ApplyConfiguration.Foreign.{Foreign}
use agentic_platform.ApplyConfiguration.Builder.{Builder, Configuration, IsSound, ◌▸◌}
use agentic_platform.ApplyConfiguration.Builder.Kinds.{
  value_builder, value_IsFaithful, pointer_builder, pointer_IsFaithful, values_builder,
  values_IsFaithful, pointers_builder, pointers_IsFaithful, entries_builder, entries_IsFaithful,
}
use agentic_platform.ApplyConfiguration.Root
use agentic_platform.ApplyConfiguration.Root.{Types, ensured, no_root, with_meta}
use agentic_platform.ApplyConfiguration.Root.Sent.{root_fields}
use agentic_platform.ApplyConfiguration.Agentgateway.AgentgatewayBackendSpec.{
  AgentgatewayBackendSpec, encode_agentgateway_backend_spec,
}
use agentic_platform.ApplyConfiguration.Agentgateway.AgentgatewayBackendStatus.{
  AgentgatewayBackendStatus, encode_agentgateway_backend_status,
}

module _ (x : Foreign) where
  abbrev pub agentgateway_backend_types : Types
  agentgateway_backend_types = record {
    Time = x.time.Carrier;
    Owner = x.owner_reference.Carrier;
    Spec = AgentgatewayBackendSpec x;
    Status = AgentgatewayBackendStatus x;
  }

  abbrev pub AgentgatewayBackend : Type 0
  AgentgatewayBackend = Root.Root agentgateway_backend_types

  abbrev pub agentgateway_backend : String → String → AgentgatewayBackend
  agentgateway_backend = Root.agentgateway_backend agentgateway_backend_types

  abbrev pub with_kind : String → AgentgatewayBackend → AgentgatewayBackend
  with_kind = Root.with_kind agentgateway_backend_types

  abbrev pub with_api_version : String → AgentgatewayBackend → AgentgatewayBackend
  with_api_version = Root.with_api_version agentgateway_backend_types

  abbrev pub with_name : String → AgentgatewayBackend → AgentgatewayBackend
  with_name = Root.with_name agentgateway_backend_types

  abbrev pub with_generate_name : String → AgentgatewayBackend → AgentgatewayBackend
  with_generate_name = Root.with_generate_name agentgateway_backend_types

  abbrev pub with_namespace : String → AgentgatewayBackend → AgentgatewayBackend
  with_namespace = Root.with_namespace agentgateway_backend_types

  abbrev pub with_uid : String → AgentgatewayBackend → AgentgatewayBackend
  with_uid = Root.with_uid agentgateway_backend_types

  abbrev pub with_resource_version : String → AgentgatewayBackend → AgentgatewayBackend
  with_resource_version = Root.with_resource_version agentgateway_backend_types

  abbrev pub with_generation : ℤ → AgentgatewayBackend → AgentgatewayBackend
  with_generation = Root.with_generation agentgateway_backend_types

  abbrev pub with_creation_timestamp : x.time.Carrier → AgentgatewayBackend → AgentgatewayBackend
  with_creation_timestamp = Root.with_creation_timestamp agentgateway_backend_types

  abbrev pub with_deletion_timestamp : x.time.Carrier → AgentgatewayBackend → AgentgatewayBackend
  with_deletion_timestamp = Root.with_deletion_timestamp agentgateway_backend_types

  abbrev pub with_deletion_grace_period_seconds : ℤ → AgentgatewayBackend → AgentgatewayBackend
  with_deletion_grace_period_seconds =
      Root.with_deletion_grace_period_seconds agentgateway_backend_types

  abbrev pub with_labels :
      List (String × String) → AgentgatewayBackend → Outcome AgentgatewayBackend
  with_labels = Root.with_labels agentgateway_backend_types

  abbrev pub with_annotations :
      List (String × String) → AgentgatewayBackend → Outcome AgentgatewayBackend
  with_annotations = Root.with_annotations agentgateway_backend_types

  abbrev pub with_owner_references :
      List (Option x.owner_reference.Carrier) → AgentgatewayBackend → Outcome AgentgatewayBackend
  with_owner_references = Root.with_owner_references agentgateway_backend_types

  abbrev pub with_finalizers : List String → AgentgatewayBackend → AgentgatewayBackend
  with_finalizers = Root.with_finalizers agentgateway_backend_types

  abbrev pub with_spec :
      Option (AgentgatewayBackendSpec x) → AgentgatewayBackend → AgentgatewayBackend
  with_spec = Root.with_spec agentgateway_backend_types

  abbrev pub with_status :
      Option (AgentgatewayBackendStatus x) → AgentgatewayBackend → AgentgatewayBackend
  with_status = Root.with_status agentgateway_backend_types

  abbrev pub get_kind : AgentgatewayBackend → Option String
  get_kind = Root.get_kind agentgateway_backend_types

  abbrev pub get_api_version : AgentgatewayBackend → Option String
  get_api_version = Root.get_api_version agentgateway_backend_types

  abbrev pub get_name : AgentgatewayBackend → Option String × AgentgatewayBackend
  get_name = Root.get_name agentgateway_backend_types

  abbrev pub get_namespace : AgentgatewayBackend → Option String × AgentgatewayBackend
  get_namespace = Root.get_namespace agentgateway_backend_types

  abbrev pub agentgateway_backend_fields : AgentgatewayBackend → Fields
  agentgateway_backend_fields =
      root_fields agentgateway_backend_types x.time.encode x.owner_reference.encode
        (encode_agentgateway_backend_spec x) (encode_agentgateway_backend_status x)

  abbrev pub builders : List (Builder agentgateway_backend_fields)
  builders =
      value_builder agentgateway_backend_fields "kind" text with_kind
      ∷ value_builder agentgateway_backend_fields "apiVersion" text with_api_version
      ∷ value_builder agentgateway_backend_fields "metadata.name" text with_name
      ∷ value_builder agentgateway_backend_fields "metadata.generateName" text with_generate_name
      ∷ value_builder agentgateway_backend_fields "metadata.namespace" text with_namespace
      ∷ value_builder agentgateway_backend_fields "metadata.uid" text with_uid
      ∷ value_builder agentgateway_backend_fields "metadata.resourceVersion" text
          with_resource_version
      ∷ value_builder agentgateway_backend_fields "metadata.generation" number with_generation
      ∷ value_builder agentgateway_backend_fields "metadata.creationTimestamp" x.time.encode
          with_creation_timestamp
      ∷ value_builder agentgateway_backend_fields "metadata.deletionTimestamp" x.time.encode
          with_deletion_timestamp
      ∷ value_builder agentgateway_backend_fields "metadata.deletionGracePeriodSeconds" number
          with_deletion_grace_period_seconds
      ∷ entries_builder agentgateway_backend_fields "metadata.labels" text with_labels
      ∷ entries_builder agentgateway_backend_fields "metadata.annotations" text with_annotations
      ∷ pointers_builder agentgateway_backend_fields "metadata.ownerReferences"
          x.owner_reference.encode "WithOwnerReferences" with_owner_references
      ∷ values_builder agentgateway_backend_fields "metadata.finalizers" text with_finalizers
      ∷ pointer_builder agentgateway_backend_fields "spec" (encode_agentgateway_backend_spec x)
          with_spec
      ∷ pointer_builder agentgateway_backend_fields "status" (encode_agentgateway_backend_status x)
          with_status
      ∷ []

  abbrev pub configuration : Configuration
  configuration = record {
    Self = AgentgatewayBackend;
    fields = agentgateway_backend_fields;
    empty = no_root agentgateway_backend_types;
    builders = builders;
  }

  pub configuration-IsSound : IsSound configuration
  configuration-IsSound = record {
    unset = refl;
    faithful =
        value_IsFaithful 0 (λ b. refl) (λ a b. refl)
        ▸ value_IsFaithful 1 (λ b. refl) (λ a b. refl)
        ▸ value_IsFaithful 4 (λ b. refl) (λ a b. refl)
        ▸ value_IsFaithful 5 (λ b. refl) (λ a b. refl)
        ▸ value_IsFaithful 6 (λ b. refl) (λ a b. refl)
        ▸ value_IsFaithful 7 (λ b. refl) (λ a b. refl)
        ▸ value_IsFaithful 8 (λ b. refl) (λ a b. refl)
        ▸ value_IsFaithful 9 (λ b. refl) (λ a b. refl)
        ▸ value_IsFaithful 10 (λ b. refl) (λ a b. refl)
        ▸ value_IsFaithful 11 (λ b. refl) (λ a b. refl)
        ▸ value_IsFaithful 12 (λ b. refl) (λ a b. refl)
        ▸ entries_IsFaithful 13 (λ b. refl) (λ b. (ensured agentgateway_backend_types b).labels)
            (λ m b.
              with_meta agentgateway_backend_types b
                (record (ensured agentgateway_backend_types b) { labels = m }))
            (λ m b. refl) (λ b. refl) (λ a b. refl)
        ▸ entries_IsFaithful 14 (λ b. refl)
            (λ b. (ensured agentgateway_backend_types b).annotations)
            (λ m b.
              with_meta agentgateway_backend_types b
                (record (ensured agentgateway_backend_types b) { annotations = m }))
            (λ m b. refl) (λ b. refl) (λ a b. refl)
        ▸ pointers_IsFaithful 15 (λ b. refl)
            (λ b. (ensured agentgateway_backend_types b).owner_references)
            (λ xs b.
              with_meta agentgateway_backend_types b
                (record (ensured agentgateway_backend_types b) { owner_references = xs }))
            (λ xs b. refl) (λ b. refl) "WithOwnerReferences" (λ a b. refl)
        ▸ values_IsFaithful 16 (λ b. refl) (λ b. (ensured agentgateway_backend_types b).finalizers)
            (λ xs b.
              with_meta agentgateway_backend_types b
                (record (ensured agentgateway_backend_types b) { finalizers = xs }))
            (λ xs b. refl) (λ b. refl) (λ a b. refl)
        ▸ pointer_IsFaithful 2 (λ b. refl) (λ a b. refl)
        ▸ pointer_IsFaithful 3 (λ b. refl) (λ a b. refl)
        ▸ tt;
  }
