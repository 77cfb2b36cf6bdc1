-- ===== src/ApplyConfiguration/Agentgateway/AzureAuth.antt =====
-- mycelium/internal/applyconfiguration/v1alpha1/agentgateway/azureauth.go
use agentic_platform.Prelude.{List, Option, [], none, refl, some, ◌∷◌}
use agentic_platform.ApplyConfiguration.Json.{Fields, Json, object_of, pointer_field}
use agentic_platform.ApplyConfiguration.Foreign.{Foreign}
use agentic_platform.ApplyConfiguration.Builder.{Builder, Configuration, IsSound, ◌▸◌}
use agentic_platform.ApplyConfiguration.Builder.Kinds.{
  pointer_builder, pointer_IsFaithful, value_builder, value_IsFaithful,
}
use agentic_platform.ApplyConfiguration.Agentgateway.AzureManagedIdentity.{
  AzureManagedIdentity, encode_azure_managed_identity,
}

module _ (x : Foreign) where
  pub record AzureAuth : Type 0 where
    pub secret_ref : Option x.local_object_reference.Carrier
    pub managed_identity : Option (AzureManagedIdentity x)

  abbrev pub azure_auth : AzureAuth
  azure_auth = record { secret_ref = none; managed_identity = none }

  abbrev pub with_secret_ref : x.local_object_reference.Carrier → AzureAuth → AzureAuth
  with_secret_ref v b = record b { secret_ref = some v }

  abbrev pub with_managed_identity : Option (AzureManagedIdentity x) → AzureAuth → AzureAuth
  with_managed_identity v b = record b { managed_identity = v }

  abbrev pub azure_auth_fields : AzureAuth → Fields
  azure_auth_fields b =
      ("secretRef", pointer_field x.local_object_reference.encode b.secret_ref)
      ∷ ("managedIdentity", pointer_field (encode_azure_managed_identity x) b.managed_identity)
      ∷ []

  abbrev pub encode_azure_auth : AzureAuth → Json
  encode_azure_auth b = object_of (azure_auth_fields b)

  abbrev pub builders : List (Builder azure_auth_fields)
  builders =
      value_builder azure_auth_fields "secretRef" x.local_object_reference.encode with_secret_ref
      ∷ pointer_builder azure_auth_fields "managedIdentity" (encode_azure_managed_identity x)
          with_managed_identity
      ∷ []

  abbrev pub configuration : Configuration
  configuration = record {
    Self = AzureAuth;
    fields = azure_auth_fields;
    empty = azure_auth;
    builders = builders;
  }

  pub configuration-IsSound : IsSound configuration
  configuration-IsSound = record {
    unset = refl;
    faithful =
        value_IsFaithful 0 (λ b. refl) (λ a b. refl)
        ▸ pointer_IsFaithful 1 (λ b. refl) (λ a b. refl)
        ▸ tt;
  }
