-- ===== src/ApplyConfiguration/Agentgateway/DirectResponse.antt =====
-- mycelium/internal/applyconfiguration/v1alpha1/agentgateway/directresponse.go
use agentic_platform.Prelude.{List, Option, String, [], none, refl, some, ◌∷◌}
use agentic_platform.Prelude.Int.{ℤ}
use agentic_platform.ApplyConfiguration.Json.{Fields, Json, number, object_of, pointer_field, text}
use agentic_platform.ApplyConfiguration.Foreign.{Foreign}
use agentic_platform.ApplyConfiguration.Builder.{Builder, Configuration, IsSound, ◌▸◌}
use agentic_platform.ApplyConfiguration.Builder.Kinds.{value_builder, value_IsFaithful}

module _ (x : Foreign) where
  pub record DirectResponse : Type 0 where
    pub status_code : Option ℤ
    pub body : Option String

  abbrev pub direct_response : DirectResponse
  direct_response = record { status_code = none; body = none }

  abbrev pub with_status_code : ℤ → DirectResponse → DirectResponse
  with_status_code v b = record b { status_code = some v }

  abbrev pub with_body : String → DirectResponse → DirectResponse
  with_body v b = record b { body = some v }

  abbrev pub direct_response_fields : DirectResponse → Fields
  direct_response_fields b =
      ("status", pointer_field number b.status_code) ∷ ("body", pointer_field text b.body) ∷ []

  abbrev pub encode_direct_response : DirectResponse → Json
  encode_direct_response b = object_of (direct_response_fields b)

  abbrev pub builders : List (Builder direct_response_fields)
  builders =
      value_builder direct_response_fields "status" number with_status_code
      ∷ value_builder direct_response_fields "body" text with_body
      ∷ []

  abbrev pub configuration : Configuration
  configuration = record {
    Self = DirectResponse;
    fields = direct_response_fields;
    empty = direct_response;
    builders = builders;
  }

  pub configuration-IsSound : IsSound configuration
  configuration-IsSound = record {
    unset = refl;
    faithful =
        value_IsFaithful 0 (λ b. refl) (λ a b. refl)
        ▸ value_IsFaithful 1 (λ b. refl) (λ a b. refl)
        ▸ tt;
  }
