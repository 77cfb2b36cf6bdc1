-- ===== src/ApplyConfiguration/Agentgateway/Message.antt =====
-- mycelium/internal/applyconfiguration/v1alpha1/agentgateway/message.go
use agentic_platform.Prelude.{List, Option, String, [], none, refl, some, ◌∷◌}
use agentic_platform.ApplyConfiguration.Json.{Fields, Json, object_of, pointer_field, text}
use agentic_platform.ApplyConfiguration.Foreign.{Foreign}
use agentic_platform.ApplyConfiguration.Builder.{Builder, Configuration, IsSound, ◌▸◌}
use agentic_platform.ApplyConfiguration.Builder.Kinds.{value_builder, value_IsFaithful}

module _ (x : Foreign) where
  pub record Message : Type 0 where
    pub role : Option String
    pub content : Option String

  abbrev pub message : Message
  message = record { role = none; content = none }

  abbrev pub with_role : String → Message → Message
  with_role v b = record b { role = some v }

  abbrev pub with_content : String → Message → Message
  with_content v b = record b { content = some v }

  abbrev pub message_fields : Message → Fields
  message_fields b =
      ("role", pointer_field text b.role) ∷ ("content", pointer_field text b.content) ∷ []

  abbrev pub encode_message : Message → Json
  encode_message b = object_of (message_fields b)

  abbrev pub builders : List (Builder message_fields)
  builders =
      value_builder message_fields "role" text with_role
      ∷ value_builder message_fields "content" text with_content
      ∷ []

  abbrev pub configuration : Configuration
  configuration = record {
    Self = Message;
    fields = message_fields;
    empty = message;
    builders = builders;
  }

  pub configuration-IsSound : IsSound configuration
  configuration-IsSound = record {
    unset = refl;
    faithful =
        value_IsFaithful 0 (λ b. refl) (λ a b. refl)
        ▸ value_IsFaithful 1 (λ b. refl) (λ a b. refl)
        ▸ tt;
  }
