-- ===== src/ApplyConfiguration/Agentgateway/Webhook.antt =====
-- mycelium/internal/applyconfiguration/v1alpha1/agentgateway/webhook.go
use agentic_platform.Prelude.{List, Option, [], none, refl, some, ◌∷◌}
use agentic_platform.ApplyConfiguration.Appends.{append_values}
use agentic_platform.ApplyConfiguration.Json.{Fields, Json, object_of, pointer_field, slice_field}
use agentic_platform.ApplyConfiguration.Foreign.{Foreign}
use agentic_platform.ApplyConfiguration.Builder.{Builder, Configuration, IsSound, ◌▸◌}
use agentic_platform.ApplyConfiguration.Builder.Kinds.{
  value_builder, value_IsFaithful, values_builder, values_IsFaithful,
}

module _ (x : Foreign) where
  pub record Webhook : Type 0 where
    pub backend_ref : Option x.backend_object_reference.Carrier
    pub forward_header_matches : List x.http_header_match.Carrier

  abbrev pub webhook : Webhook
  webhook = record { backend_ref = none; forward_header_matches = [] }

  abbrev pub with_backend_ref : x.backend_object_reference.Carrier → Webhook → Webhook
  with_backend_ref v b = record b { backend_ref = some v }

  abbrev pub with_forward_header_matches : List x.http_header_match.Carrier → Webhook → Webhook
  with_forward_header_matches values b = record b {
    forward_header_matches = append_values values b.forward_header_matches;
  }

  abbrev pub webhook_fields : Webhook → Fields
  webhook_fields b =
      ("backendRef", pointer_field x.backend_object_reference.encode b.backend_ref)
      ∷ ("forwardHeaderMatches", slice_field x.http_header_match.encode b.forward_header_matches)
      ∷ []

  abbrev pub encode_webhook : Webhook → Json
  encode_webhook b = object_of (webhook_fields b)

  abbrev pub builders : List (Builder webhook_fields)
  builders =
      value_builder webhook_fields "backendRef" x.backend_object_reference.encode with_backend_ref
      ∷ values_builder webhook_fields "forwardHeaderMatches" x.http_header_match.encode
          with_forward_header_matches
      ∷ []

  abbrev pub configuration : Configuration
  configuration = record {
    Self = Webhook;
    fields = webhook_fields;
    empty = webhook;
    builders = builders;
  }

  pub configuration-IsSound : IsSound configuration
  configuration-IsSound = record {
    unset = refl;
    faithful =
        value_IsFaithful 0 (λ b. refl) (λ a b. refl)
        ▸ values_IsFaithful 1 (λ b. refl) (λ b. b.forward_header_matches)
            (λ xs b. record b { forward_header_matches = xs }) (λ xs b. refl) (λ b. refl)
            (λ a b. refl)
        ▸ tt;
  }
