-- ===== src/ApplyConfiguration/Agentgateway/AzureManagedIdentity.antt =====
-- mycelium/internal/applyconfiguration/v1alpha1/agentgateway/azuremanagedidentity.go
use agentic_platform.Prelude.{List, Option, String, [], none, refl, some, ◌∷◌}
use agentic_platform.ApplyConfiguration.Json.{Fields, Json, object_of, pointer_field, text}
use agentic_platform.ApplyConfiguration.Foreign.{Foreign}
use agentic_platform.ApplyConfiguration.Builder.{Builder, Configuration, IsSound, ◌▸◌}
use agentic_platform.ApplyConfiguration.Builder.Kinds.{value_builder, value_IsFaithful}

module _ (x : Foreign) where
  pub record AzureManagedIdentity : Type 0 where
    pub client_id : Option String
    pub object_id : Option String
    pub resource_id : Option String

  abbrev pub azure_managed_identity : AzureManagedIdentity
  azure_managed_identity = record { client_id = none; object_id = none; resource_id = none }

  abbrev pub with_client_id : String → AzureManagedIdentity → AzureManagedIdentity
  with_client_id v b = record b { client_id = some v }

  abbrev pub with_object_id : String → AzureManagedIdentity → AzureManagedIdentity
  with_object_id v b = record b { object_id = some v }

  abbrev pub with_resource_id : String → AzureManagedIdentity → AzureManagedIdentity
  with_resource_id v b = record b { resource_id = some v }

  abbrev pub azure_managed_identity_fields : AzureManagedIdentity → Fields
  azure_managed_identity_fields b =
      ("clientId", pointer_field text b.client_id)
      ∷ ("objectId", pointer_field text b.object_id)
      ∷ ("resourceId", pointer_field text b.resource_id)
      ∷ []

  abbrev pub encode_azure_managed_identity : AzureManagedIdentity → Json
  encode_azure_managed_identity b = object_of (azure_managed_identity_fields b)

  abbrev pub builders : List (Builder azure_managed_identity_fields)
  builders =
      value_builder azure_managed_identity_fields "clientId" text with_client_id
      ∷ value_builder azure_managed_identity_fields "objectId" text with_object_id
      ∷ value_builder azure_managed_identity_fields "resourceId" text with_resource_id
      ∷ []

  abbrev pub configuration : Configuration
  configuration = record {
    Self = AzureManagedIdentity;
    fields = azure_managed_identity_fields;
    empty = azure_managed_identity;
    builders = builders;
  }

  pub configuration-IsSound : IsSound configuration
  configuration-IsSound = record {
    unset = refl;
    faithful =
        value_IsFaithful 0 (λ b. refl) (λ a b. refl)
        ▸ value_IsFaithful 1 (λ b. refl) (λ a b. refl)
        ▸ value_IsFaithful 2 (λ b. refl) (λ a b. refl)
        ▸ tt;
  }
