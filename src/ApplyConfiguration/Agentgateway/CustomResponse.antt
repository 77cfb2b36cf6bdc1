-- ===== src/ApplyConfiguration/Agentgateway/CustomResponse.antt =====
-- mycelium/internal/applyconfiguration/v1alpha1/agentgateway/customresponse.go
use agentic_platform.Prelude.{List, Option, String, [], none, refl, some, ◌∷◌}
use agentic_platform.Prelude.Int.{ℤ}
use agentic_platform.ApplyConfiguration.Json.{Fields, Json, number, object_of, pointer_field, text}
use agentic_platform.ApplyConfiguration.Foreign.{Foreign}
use agentic_platform.ApplyConfiguration.Builder.{Builder, Configuration, IsSound, ◌▸◌}
use agentic_platform.ApplyConfiguration.Builder.Kinds.{value_builder, value_IsFaithful}

module _ (x : Foreign) where
  pub record CustomResponse : Type 0 where
    pub message : Option String
    pub status_code : Option ℤ

  abbrev pub custom_response : CustomResponse
  custom_response = record { message = none; status_code = none }

  abbrev pub with_message : String → CustomResponse → CustomResponse
  with_message v b = record b { message = some v }

  abbrev pub with_status_code : ℤ → CustomResponse → CustomResponse
  with_status_code v b = record b { status_code = some v }

  abbrev pub custom_response_fields : CustomResponse → Fields
  custom_response_fields b =
      ("message", pointer_field text b.message)
      ∷ ("statusCode", pointer_field number b.status_code)
      ∷ []

  abbrev pub encode_custom_response : CustomResponse → Json
  encode_custom_response b = object_of (custom_response_fields b)

  abbrev pub builders : List (Builder custom_response_fields)
  builders =
      value_builder custom_response_fields "message" text with_message
      ∷ value_builder custom_response_fields "statusCode" number with_status_code
      ∷ []

  abbrev pub configuration : Configuration
  configuration = record {
    Self = CustomResponse;
    fields = custom_response_fields;
    empty = custom_response;
    builders = builders;
  }

  pub configuration-IsSound : IsSound configuration
  configuration-IsSound = record {
    unset = refl;
    faithful =
        value_IsFaithful 0 (λ b. refl) (λ a b. refl)
        ▸ value_IsFaithful 1 (λ b. refl) (λ a b. refl)
        ▸ tt;
  }
