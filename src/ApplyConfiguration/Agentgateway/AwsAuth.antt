-- ===== src/ApplyConfiguration/Agentgateway/AwsAuth.antt =====
-- mycelium/internal/applyconfiguration/v1alpha1/agentgateway/awsauth.go
use agentic_platform.Prelude.{List, Option, [], none, refl, some, ◌∷◌}
use agentic_platform.ApplyConfiguration.Json.{Fields, Json, object_of, pointer_field}
use agentic_platform.ApplyConfiguration.Foreign.{Foreign}
use agentic_platform.ApplyConfiguration.Builder.{Builder, Configuration, IsSound, ◌▸◌}
use agentic_platform.ApplyConfiguration.Builder.Kinds.{value_builder, value_IsFaithful}

module _ (x : Foreign) where
  pub record AwsAuth : Type 0 where
    pub secret_ref : Option x.local_object_reference.Carrier

  abbrev pub aws_auth : AwsAuth
  aws_auth = record { secret_ref = none }

  abbrev pub with_secret_ref : x.local_object_reference.Carrier → AwsAuth → AwsAuth
  with_secret_ref v b = record b { secret_ref = some v }

  abbrev pub aws_auth_fields : AwsAuth → Fields
  aws_auth_fields b = ("secretRef", pointer_field x.local_object_reference.encode b.secret_ref) ∷ []

  abbrev pub encode_aws_auth : AwsAuth → Json
  encode_aws_auth b = object_of (aws_auth_fields b)

  abbrev pub builders : List (Builder aws_auth_fields)
  builders =
      value_builder aws_auth_fields "secretRef" x.local_object_reference.encode with_secret_ref ∷ []

  abbrev pub configuration : Configuration
  configuration = record {
    Self = AwsAuth;
    fields = aws_auth_fields;
    empty = aws_auth;
    builders = builders;
  }

  pub configuration-IsSound : IsSound configuration
  configuration-IsSound = record {
    unset = refl;
    faithful = value_IsFaithful 0 (λ b. refl) (λ a b. refl) ▸ tt;
  }
