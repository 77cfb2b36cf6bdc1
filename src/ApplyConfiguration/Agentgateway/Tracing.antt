-- ===== src/ApplyConfiguration/Agentgateway/Tracing.antt =====
-- mycelium/internal/applyconfiguration/v1alpha1/agentgateway/tracing.go
use agentic_platform.Prelude.{List, Option, String, [], none, refl, some, ◌∷◌}
use agentic_platform.ApplyConfiguration.{Outcome, map_outcome}
use agentic_platform.ApplyConfiguration.Appends.{append_pointers}
use agentic_platform.ApplyConfiguration.Json.{
  Fields, Json, object_of, pointer_field, slice_field, text,
}
use agentic_platform.ApplyConfiguration.Foreign.{Foreign}
use agentic_platform.ApplyConfiguration.Builder.{Builder, Configuration, IsSound, ◌▸◌}
use agentic_platform.ApplyConfiguration.Builder.Kinds.{
  pointer_builder, pointer_IsFaithful, pointers_builder, pointers_IsFaithful, value_builder,
  value_IsFaithful,
}
use agentic_platform.ApplyConfiguration.Agentgateway.LogTracingAttributes.{
  LogTracingAttributes, encode_log_tracing_attributes,
}
use agentic_platform.ApplyConfiguration.Agentgateway.ResourceAdd.{ResourceAdd, encode_resource_add}

module _ (x : Foreign) where
  pub record Tracing : Type 0 where
    pub backend_ref : Option x.backend_object_reference.Carrier
    pub protocol : Option x.otlp_protocol.Carrier
    pub path : Option String
    pub attributes : Option (LogTracingAttributes x)
    pub resources : List (ResourceAdd x)
    pub random_sampling : Option x.cel_expression.Carrier
    pub client_sampling : Option x.cel_expression.Carrier

  abbrev pub tracing : Tracing
  tracing = record {
    backend_ref = none;
    protocol = none;
    path = none;
    attributes = none;
    resources = [];
    random_sampling = none;
    client_sampling = none;
  }

  abbrev pub with_backend_ref : x.backend_object_reference.Carrier → Tracing → Tracing
  with_backend_ref v b = record b { backend_ref = some v }

  abbrev pub with_protocol : x.otlp_protocol.Carrier → Tracing → Tracing
  with_protocol v b = record b { protocol = some v }

  abbrev pub with_path : String → Tracing → Tracing
  with_path v b = record b { path = some v }

  abbrev pub with_attributes : Option (LogTracingAttributes x) → Tracing → Tracing
  with_attributes v b = record b { attributes = v }

  abbrev pub with_resources : List (Option (ResourceAdd x)) → Tracing → Outcome Tracing
  with_resources values b =
      map_outcome (λ xs. record b { resources = xs })
        (append_pointers "WithResources" values b.resources)

  abbrev pub with_random_sampling : x.cel_expression.Carrier → Tracing → Tracing
  with_random_sampling v b = record b { random_sampling = some v }

  abbrev pub with_client_sampling : x.cel_expression.Carrier → Tracing → Tracing
  with_client_sampling v b = record b { client_sampling = some v }

  abbrev pub tracing_fields : Tracing → Fields
  tracing_fields b =
      ("backendRef", pointer_field x.backend_object_reference.encode b.backend_ref)
      ∷ ("protocol", pointer_field x.otlp_protocol.encode b.protocol)
      ∷ ("path", pointer_field text b.path)
      ∷ ("attributes", pointer_field (encode_log_tracing_attributes x) b.attributes)
      ∷ ("resources", slice_field (encode_resource_add x) b.resources)
      ∷ ("randomSampling", pointer_field x.cel_expression.encode b.random_sampling)
      ∷ ("clientSampling", pointer_field x.cel_expression.encode b.client_sampling)
      ∷ []

  abbrev pub encode_tracing : Tracing → Json
  encode_tracing b = object_of (tracing_fields b)

  abbrev pub builders : List (Builder tracing_fields)
  builders =
      value_builder tracing_fields "backendRef" x.backend_object_reference.encode with_backend_ref
      ∷ value_builder tracing_fields "protocol" x.otlp_protocol.encode with_protocol
      ∷ value_builder tracing_fields "path" text with_path
      ∷ pointer_builder tracing_fields "attributes" (encode_log_tracing_attributes x)
          with_attributes
      ∷ pointers_builder tracing_fields "resources" (encode_resource_add x) "WithResources"
          with_resources
      ∷ value_builder tracing_fields "randomSampling" x.cel_expression.encode with_random_sampling
      ∷ value_builder tracing_fields "clientSampling" x.cel_expression.encode with_client_sampling
      ∷ []

  abbrev pub configuration : Configuration
  configuration = record {
    Self = Tracing;
    fields = tracing_fields;
    empty = tracing;
    builders = builders;
  }

  pub configuration-IsSound : IsSound configuration
  configuration-IsSound = record {
    unset = refl;
    faithful =
        value_IsFaithful 0 (λ b. refl) (λ a b. refl)
        ▸ value_IsFaithful 1 (λ b. refl) (λ a b. refl)
        ▸ value_IsFaithful 2 (λ b. refl) (λ a b. refl)
        ▸ pointer_IsFaithful 3 (λ b. refl) (λ a b. refl)
        ▸ pointers_IsFaithful 4 (λ b. refl) (λ b. b.resources) (λ xs b. record b { resources = xs })
            (λ xs b. refl) (λ b. refl) "WithResources" (λ a b. refl)
        ▸ value_IsFaithful 5 (λ b. refl) (λ a b. refl)
        ▸ value_IsFaithful 6 (λ b. refl) (λ a b. refl)
        ▸ tt;
  }
