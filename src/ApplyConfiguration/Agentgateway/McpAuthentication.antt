-- ===== src/ApplyConfiguration/Agentgateway/McpAuthentication.antt =====
-- mycelium/internal/applyconfiguration/v1alpha1/agentgateway/mcpauthentication.go
use agentic_platform.Prelude.{List, Option, String, [], none, refl, some, ◌∷◌}
use agentic_platform.ApplyConfiguration.{Outcome, map_outcome}
use agentic_platform.ApplyConfiguration.Maps.{GoMap, put_entries}
use agentic_platform.ApplyConfiguration.Appends.{append_values}
use agentic_platform.ApplyConfiguration.Json.{
  Fields, Json, map_field, object_of, pointer_field, slice_field, text,
}
use agentic_platform.ApplyConfiguration.Foreign.{Foreign}
use agentic_platform.ApplyConfiguration.Builder.{Builder, Configuration, IsSound, ◌▸◌}
use agentic_platform.ApplyConfiguration.Builder.Kinds.{
  entries_builder, entries_IsFaithful, pointer_builder, pointer_IsFaithful, value_builder,
  value_IsFaithful, values_builder, values_IsFaithful,
}
use agentic_platform.ApplyConfiguration.Agentgateway.RemoteJwks.{RemoteJwks, encode_remote_jwks}

module _ (x : Foreign) where
  pub record McpAuthentication : Type 0 where
    pub resource_metadata : GoMap x.json.Carrier
    pub mcp_idp : Option x.mcp_idp.Carrier
    pub issuer : Option String
    pub audiences : List String
    pub jwks : Option (RemoteJwks x)
    pub mode : Option x.jwt_authentication_mode.Carrier

  abbrev pub mcp_authentication : McpAuthentication
  mcp_authentication = record {
    resource_metadata = none;
    mcp_idp = none;
    issuer = none;
    audiences = [];
    jwks = none;
    mode = none;
  }

  abbrev pub with_resource_metadata :
      List (String × x.json.Carrier) → McpAuthentication → Outcome McpAuthentication
  with_resource_metadata entries b =
      map_outcome (λ m. record b { resource_metadata = m })
        (put_entries entries b.resource_metadata)

  abbrev pub with_mcp_idp : x.mcp_idp.Carrier → McpAuthentication → McpAuthentication
  with_mcp_idp v b = record b { mcp_idp = some v }

  abbrev pub with_issuer : String → McpAuthentication → McpAuthentication
  with_issuer v b = record b { issuer = some v }

  abbrev pub with_audiences : List String → McpAuthentication → McpAuthentication
  with_audiences values b = record b { audiences = append_values values b.audiences }

  abbrev pub with_jwks : Option (RemoteJwks x) → McpAuthentication → McpAuthentication
  with_jwks v b = record b { jwks = v }

  abbrev pub with_mode : x.jwt_authentication_mode.Carrier → McpAuthentication → McpAuthentication
  with_mode v b = record b { mode = some v }

  abbrev pub mcp_authentication_fields : McpAuthentication → Fields
  mcp_authentication_fields b =
      ("resourceMetadata", map_field x.json.encode b.resource_metadata)
      ∷ ("provider", pointer_field x.mcp_idp.encode b.mcp_idp)
      ∷ ("issuer", pointer_field text b.issuer)
      ∷ ("audiences", slice_field text b.audiences)
      ∷ ("jwks", pointer_field (encode_remote_jwks x) b.jwks)
      ∷ ("mode", pointer_field x.jwt_authentication_mode.encode b.mode)
      ∷ []

  abbrev pub encode_mcp_authentication : McpAuthentication → Json
  encode_mcp_authentication b = object_of (mcp_authentication_fields b)

  abbrev pub builders : List (Builder mcp_authentication_fields)
  builders =
      entries_builder mcp_authentication_fields "resourceMetadata" x.json.encode
        with_resource_metadata
      ∷ value_builder mcp_authentication_fields "provider" x.mcp_idp.encode with_mcp_idp
      ∷ value_builder mcp_authentication_fields "issuer" text with_issuer
      ∷ values_builder mcp_authentication_fields "audiences" text with_audiences
      ∷ pointer_builder mcp_authentication_fields "jwks" (encode_remote_jwks x) with_jwks
      ∷ value_builder mcp_authentication_fields "mode" x.jwt_authentication_mode.encode with_mode
      ∷ []

  abbrev pub configuration : Configuration
  configuration = record {
    Self = McpAuthentication;
    fields = mcp_authentication_fields;
    empty = mcp_authentication;
    builders = builders;
  }

  pub configuration-IsSound : IsSound configuration
  configuration-IsSound = record {
    unset = refl;
    faithful =
        entries_IsFaithful 0 (λ b. refl) (λ b. b.resource_metadata)
          (λ m b. record b { resource_metadata = m }) (λ m b. refl) (λ b. refl) (λ a b. refl)
        ▸ value_IsFaithful 1 (λ b. refl) (λ a b. refl)
        ▸ value_IsFaithful 2 (λ b. refl) (λ a b. refl)
        ▸ values_IsFaithful 3 (λ b. refl) (λ b. b.audiences) (λ xs b. record b { audiences = xs })
            (λ xs b. refl) (λ b. refl) (λ a b. refl)
        ▸ pointer_IsFaithful 4 (λ b. refl) (λ a b. refl)
        ▸ value_IsFaithful 5 (λ b. refl) (λ a b. refl)
        ▸ tt;
  }
