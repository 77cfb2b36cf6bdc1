-- ===== src/ApplyConfiguration/Agentgateway/BackendAuth.antt =====
-- mycelium/internal/applyconfiguration/v1alpha1/agentgateway/backendauth.go
use agentic_platform.Prelude.{List, Option, String, [], none, refl, some, ◌∷◌}
use agentic_platform.ApplyConfiguration.Json.{Fields, Json, object_of, pointer_field, text}
use agentic_platform.ApplyConfiguration.Foreign.{Foreign}
use agentic_platform.ApplyConfiguration.Builder.{Builder, Configuration, IsSound, ◌▸◌}
use agentic_platform.ApplyConfiguration.Builder.Kinds.{
  pointer_builder, pointer_IsFaithful, value_builder, value_IsFaithful,
}
use agentic_platform.ApplyConfiguration.Agentgateway.AwsAuth.{AwsAuth, encode_aws_auth}
use agentic_platform.ApplyConfiguration.Agentgateway.AzureAuth.{AzureAuth, encode_azure_auth}
use agentic_platform.ApplyConfiguration.Agentgateway.GcpAuth.{GcpAuth, encode_gcp_auth}

module _ (x : Foreign) where
  pub record BackendAuth : Type 0 where
    pub inline_key : Option String
    pub secret_ref : Option x.local_object_reference.Carrier
    pub passthrough : Option x.backend_auth_passthrough.Carrier
    pub aws : Option (AwsAuth x)
    pub azure : Option (AzureAuth x)
    pub gcp : Option (GcpAuth x)

  abbrev pub backend_auth : BackendAuth
  backend_auth = record {
    inline_key = none;
    secret_ref = none;
    passthrough = none;
    aws = none;
    azure = none;
    gcp = none;
  }

  abbrev pub with_inline_key : String → BackendAuth → BackendAuth
  with_inline_key v b = record b { inline_key = some v }

  abbrev pub with_secret_ref : x.local_object_reference.Carrier → BackendAuth → BackendAuth
  with_secret_ref v b = record b { secret_ref = some v }

  abbrev pub with_passthrough : x.backend_auth_passthrough.Carrier → BackendAuth → BackendAuth
  with_passthrough v b = record b { passthrough = some v }

  abbrev pub with_aws : Option (AwsAuth x) → BackendAuth → BackendAuth
  with_aws v b = record b { aws = v }

  abbrev pub with_azure : Option (AzureAuth x) → BackendAuth → BackendAuth
  with_azure v b = record b { azure = v }

  abbrev pub with_gcp : Option (GcpAuth x) → BackendAuth → BackendAuth
  with_gcp v b = record b { gcp = v }

  abbrev pub backend_auth_fields : BackendAuth → Fields
  backend_auth_fields b =
      ("key", pointer_field text b.inline_key)
      ∷ ("secretRef", pointer_field x.local_object_reference.encode b.secret_ref)
      ∷ ("passthrough", pointer_field x.backend_auth_passthrough.encode b.passthrough)
      ∷ ("aws", pointer_field (encode_aws_auth x) b.aws)
      ∷ ("azure", pointer_field (encode_azure_auth x) b.azure)
      ∷ ("gcp", pointer_field (encode_gcp_auth x) b.gcp)
      ∷ []

  abbrev pub encode_backend_auth : BackendAuth → Json
  encode_backend_auth b = object_of (backend_auth_fields b)

  abbrev pub builders : List (Builder backend_auth_fields)
  builders =
      value_builder backend_auth_fields "key" text with_inline_key
      ∷ value_builder backend_auth_fields "secretRef" x.local_object_reference.encode
          with_secret_ref
      ∷ value_builder backend_auth_fields "passthrough" x.backend_auth_passthrough.encode
          with_passthrough
      ∷ pointer_builder backend_auth_fields "aws" (encode_aws_auth x) with_aws
      ∷ pointer_builder backend_auth_fields "azure" (encode_azure_auth x) with_azure
      ∷ pointer_builder backend_auth_fields "gcp" (encode_gcp_auth x) with_gcp
      ∷ []

  abbrev pub configuration : Configuration
  configuration = record {
    Self = BackendAuth;
    fields = backend_auth_fields;
    empty = backend_auth;
    builders = builders;
  }

  pub configuration-IsSound : IsSound configuration
  configuration-IsSound = record {
    unset = refl;
    faithful =
        value_IsFaithful 0 (λ b. refl) (λ a b. refl)
        ▸ value_IsFaithful 1 (λ b. refl) (λ a b. refl)
        ▸ value_IsFaithful 2 (λ b. refl) (λ a b. refl)
        ▸ pointer_IsFaithful 3 (λ b. refl) (λ a b. refl)
        ▸ pointer_IsFaithful 4 (λ b. refl) (λ a b. refl)
        ▸ pointer_IsFaithful 5 (λ b. refl) (λ a b. refl)
        ▸ tt;
  }
