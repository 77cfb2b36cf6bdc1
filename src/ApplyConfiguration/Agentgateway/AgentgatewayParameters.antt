-- ===== src/ApplyConfiguration/Agentgateway/AgentgatewayParameters.antt =====
-- mycelium/internal/applyconfiguration/v1alpha1/agentgateway/agentgatewayparameters.go: the builders of
-- ApplyConfiguration/Root at the types of this kind.
use agentic_platform.Prelude.{refl, String, Option, List, ◌∷◌, []}
use agentic_platform.Prelude.Int.{ℤ}
use agentic_platform.ApplyConfiguration.{Outcome}
use agentic_platform.ApplyConfiguration.Json.{Fields, text, number}
use agentic_platform.ApplyConfiguration.Foreign.{Foreign}
use agentic_platform.ApplyConfiguration.Builder.{Builder, Configuration, IsSound, ◌▸◌}
use agentic_platform.ApplyConfiguration.Builder.Kinds.{
  value_builder, value_IsFaithful, pointer_builder, pointer_IsFaithful, values_builder,
  values_IsFaithful, pointers_builder, pointers_IsFaithful, entries_builder, entries_IsFaithful,
}
use agentic_platform.ApplyConfiguration.Root
use agentic_platform.ApplyConfiguration.Root.{Types, ensured, no_root, with_meta}
use agentic_platform.ApplyConfiguration.Root.Sent.{root_fields}
use agentic_platform.ApplyConfiguration.Agentgateway.AgentgatewayParametersSpec.{
  AgentgatewayParametersSpec, encode_agentgateway_parameters_spec,
}

module _ (x : Foreign) where
  abbrev pub agentgateway_parameters_types : Types
  agentgateway_parameters_types = record {
    Time = x.time.Carrier;
    Owner = x.owner_reference.Carrier;
    Spec = AgentgatewayParametersSpec x;
    Status = x.agentgateway_parameters_status.Carrier;
  }

  abbrev pub AgentgatewayParameters : Type 0
  AgentgatewayParameters = Root.Root agentgateway_parameters_types

  abbrev pub agentgateway_parameters : String → String → AgentgatewayParameters
  agentgateway_parameters = Root.agentgateway_parameters agentgateway_parameters_types

  abbrev pub with_kind : String → AgentgatewayParameters → AgentgatewayParameters
  with_kind = Root.with_kind agentgateway_parameters_types

  abbrev pub with_api_version : String → AgentgatewayParameters → AgentgatewayParameters
  with_api_version = Root.with_api_version agentgateway_parameters_types

  abbrev pub with_name : String → AgentgatewayParameters → AgentgatewayParameters
  with_name = Root.with_name agentgateway_parameters_types

  abbrev pub with_generate_name : String → AgentgatewayParameters → AgentgatewayParameters
  with_generate_name = Root.with_generate_name agentgateway_parameters_types

  abbrev pub with_namespace : String → AgentgatewayParameters → AgentgatewayParameters
  with_namespace = Root.with_namespace agentgateway_parameters_types

  abbrev pub with_uid : String → AgentgatewayParameters → AgentgatewayParameters
  with_uid = Root.with_uid agentgateway_parameters_types

  abbrev pub with_resource_version : String → AgentgatewayParameters → AgentgatewayParameters
  with_resource_version = Root.with_resource_version agentgateway_parameters_types

  abbrev pub with_generation : ℤ → AgentgatewayParameters → AgentgatewayParameters
  with_generation = Root.with_generation agentgateway_parameters_types

  abbrev pub with_creation_timestamp :
      x.time.Carrier → AgentgatewayParameters → AgentgatewayParameters
  with_creation_timestamp = Root.with_creation_timestamp agentgateway_parameters_types

  abbrev pub with_deletion_timestamp :
      x.time.Carrier → AgentgatewayParameters → AgentgatewayParameters
  with_deletion_timestamp = Root.with_deletion_timestamp agentgateway_parameters_types

  abbrev pub with_deletion_grace_period_seconds :
      ℤ → AgentgatewayParameters → AgentgatewayParameters
  with_deletion_grace_period_seconds =
      Root.with_deletion_grace_period_seconds agentgateway_parameters_types

  abbrev pub with_labels :
      List (String × String) → AgentgatewayParameters → Outcome AgentgatewayParameters
  with_labels = Root.with_labels agentgateway_parameters_types

  abbrev pub with_annotations :
      List (String × String) → AgentgatewayParameters → Outcome AgentgatewayParameters
  with_annotations = Root.with_annotations agentgateway_parameters_types

  abbrev pub with_owner_references :
      List (Option x.owner_reference.Carrier)
      → AgentgatewayParameters
      → Outcome AgentgatewayParameters
  with_owner_references = Root.with_owner_references agentgateway_parameters_types

  abbrev pub with_finalizers : List String → AgentgatewayParameters → AgentgatewayParameters
  with_finalizers = Root.with_finalizers agentgateway_parameters_types

  abbrev pub with_spec :
      Option (AgentgatewayParametersSpec x) → AgentgatewayParameters → AgentgatewayParameters
  with_spec = Root.with_spec agentgateway_parameters_types

  abbrev pub with_status :
      x.agentgateway_parameters_status.Carrier → AgentgatewayParameters → AgentgatewayParameters
  with_status = Root.with_status_value agentgateway_parameters_types

  abbrev pub get_kind : AgentgatewayParameters → Option String
  get_kind = Root.get_kind agentgateway_parameters_types

  abbrev pub get_api_version : AgentgatewayParameters → Option String
  get_api_version = Root.get_api_version agentgateway_parameters_types

  abbrev pub get_name : AgentgatewayParameters → Option String × AgentgatewayParameters
  get_name = Root.get_name agentgateway_parameters_types

  abbrev pub get_namespace : AgentgatewayParameters → Option String × AgentgatewayParameters
  get_namespace = Root.get_namespace agentgateway_parameters_types

  abbrev pub agentgateway_parameters_fields : AgentgatewayParameters → Fields
  agentgateway_parameters_fields =
      root_fields agentgateway_parameters_types x.time.encode x.owner_reference.encode
        (encode_agentgateway_parameters_spec x) x.agentgateway_parameters_status.encode

  abbrev pub builders : List (Builder agentgateway_parameters_fields)
  builders =
      value_builder agentgateway_parameters_fields "kind" text with_kind
      ∷ value_builder agentgateway_parameters_fields "apiVersion" text with_api_version
      ∷ value_builder agentgateway_parameters_fields "metadata.name" text with_name
      ∷ value_builder agentgateway_parameters_fields "metadata.generateName" text with_generate_name
      ∷ value_builder agentgateway_parameters_fields "metadata.namespace" text with_namespace
      ∷ value_builder agentgateway_parameters_fields "metadata.uid" text with_uid
      ∷ value_builder agentgateway_parameters_fields "metadata.resourceVersion" text
          with_resource_version
      ∷ value_builder agentgateway_parameters_fields "metadata.generation" number with_generation
      ∷ value_builder agentgateway_parameters_fields "metadata.creationTimestamp" x.time.encode
          with_creation_timestamp
      ∷ value_builder agentgateway_parameters_fields "metadata.deletionTimestamp" x.time.encode
          with_deletion_timestamp
      ∷ value_builder agentgateway_parameters_fields "metadata.deletionGracePeriodSeconds" number
          with_deletion_grace_period_seconds
      ∷ entries_builder agentgateway_parameters_fields "metadata.labels" text with_labels
      ∷ entries_builder agentgateway_parameters_fields "metadata.annotations" text with_annotations
      ∷ pointers_builder agentgateway_parameters_fields "metadata.ownerReferences"
          x.owner_reference.encode "WithOwnerReferences" with_owner_references
      ∷ values_builder agentgateway_parameters_fields "metadata.finalizers" text with_finalizers
      ∷ pointer_builder agentgateway_parameters_fields "spec"
          (encode_agentgateway_parameters_spec x) with_spec
      ∷ value_builder agentgateway_parameters_fields "status"
          x.agentgateway_parameters_status.encode with_status
      ∷ []

  abbrev pub configuration : Configuration
  configuration = record {
    Self = AgentgatewayParameters;
    fields = agentgateway_parameters_fields;
    empty = no_root agentgateway_parameters_types;
    builders = builders;
  }

  pub configuration-IsSound : IsSound configuration
  configuration-IsSound = record {
    unset = refl;
    faithful =
        value_IsFaithful 0 (λ b. refl) (λ a b. refl)
        ▸ value_IsFaithful 1 (λ b. refl) (λ a b. refl)
        ▸ value_IsFaithful 4 (λ b. refl) (λ a b. refl)
        ▸ value_IsFaithful 5 (λ b. refl) (λ a b. refl)
        ▸ value_IsFaithful 6 (λ b. refl) (λ a b. refl)
        ▸ value_IsFaithful 7 (λ b. refl) (λ a b. refl)
        ▸ value_IsFaithful 8 (λ b. refl) (λ a b. refl)
        ▸ value_IsFaithful 9 (λ b. refl) (λ a b. refl)
        ▸ value_IsFaithful 10 (λ b. refl) (λ a b. refl)
        ▸ value_IsFaithful 11 (λ b. refl) (λ a b. refl)
        ▸ value_IsFaithful 12 (λ b. refl) (λ a b. refl)
        ▸ entries_IsFaithful 13 (λ b. refl) (λ b. (ensured agentgateway_parameters_types b).labels)
            (λ m b.
              with_meta agentgateway_parameters_types b
                (record (ensured agentgateway_parameters_types b) { labels = m }))
            (λ m b. refl) (λ b. refl) (λ a b. refl)
        ▸ entries_IsFaithful 14 (λ b. refl)
            (λ b. (ensured agentgateway_parameters_types b).annotations)
            (λ m b.
              with_meta agentgateway_parameters_types b
                (record (ensured agentgateway_parameters_types b) { annotations = m }))
            (λ m b. refl) (λ b. refl) (λ a b. refl)
        ▸ pointers_IsFaithful 15 (λ b. refl)
            (λ b. (ensured agentgateway_parameters_types b).owner_references)
            (λ xs b.
              with_meta agentgateway_parameters_types b
                (record (ensured agentgateway_parameters_types b) { owner_references = xs }))
            (λ xs b. refl) (λ b. refl) "WithOwnerReferences" (λ a b. refl)
        ▸ values_IsFaithful 16 (λ b. refl)
            (λ b. (ensured agentgateway_parameters_types b).finalizers)
            (λ xs b.
              with_meta agentgateway_parameters_types b
                (record (ensured agentgateway_parameters_types b) { finalizers = xs }))
            (λ xs b. refl) (λ b. refl) (λ a b. refl)
        ▸ pointer_IsFaithful 2 (λ b. refl) (λ a b. refl)
        ▸ value_IsFaithful 3 (λ b. refl) (λ a b. refl)
        ▸ tt;
  }
