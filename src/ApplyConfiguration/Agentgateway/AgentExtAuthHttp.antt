-- ===== src/ApplyConfiguration/Agentgateway/AgentExtAuthHttp.antt =====
-- mycelium/internal/applyconfiguration/v1alpha1/agentgateway/agentextauthhttp.go
use agentic_platform.Prelude.{List, Option, String, [], none, refl, some, ◌∷◌}
use agentic_platform.ApplyConfiguration.{Outcome, map_outcome}
use agentic_platform.ApplyConfiguration.Maps.{GoMap, put_entries}
use agentic_platform.ApplyConfiguration.Appends.{append_values}
use agentic_platform.ApplyConfiguration.Json.{
  Fields, Json, map_field, object_of, pointer_field, slice_field, text,
}
use agentic_platform.ApplyConfiguration.Foreign.{Foreign}
use agentic_platform.ApplyConfiguration.Builder.{Builder, Configuration, IsSound, ◌▸◌}
use agentic_platform.ApplyConfiguration.Builder.Kinds.{
  entries_builder, entries_IsFaithful, value_builder, value_IsFaithful, values_builder,
  values_IsFaithful,
}

module _ (x : Foreign) where
  pub record AgentExtAuthHttp : Type 0 where
    pub path : Option x.cel_expression.Carrier
    pub redirect : Option x.cel_expression.Carrier
    pub allowed_request_headers : List String
    pub add_request_headers : GoMap x.cel_expression.Carrier
    pub allowed_response_headers : List String
    pub response_metadata : GoMap x.cel_expression.Carrier

  abbrev pub agent_ext_auth_http : AgentExtAuthHttp
  agent_ext_auth_http = record {
    path = none;
    redirect = none;
    allowed_request_headers = [];
    add_request_headers = none;
    allowed_response_headers = [];
    response_metadata = none;
  }

  abbrev pub with_path : x.cel_expression.Carrier → AgentExtAuthHttp → AgentExtAuthHttp
  with_path v b = record b { path = some v }

  abbrev pub with_redirect : x.cel_expression.Carrier → AgentExtAuthHttp → AgentExtAuthHttp
  with_redirect v b = record b { redirect = some v }

  abbrev pub with_allowed_request_headers : List String → AgentExtAuthHttp → AgentExtAuthHttp
  with_allowed_request_headers values b = record b {
    allowed_request_headers = append_values values b.allowed_request_headers;
  }

  abbrev pub with_add_request_headers :
      List (String × x.cel_expression.Carrier) → AgentExtAuthHttp → Outcome AgentExtAuthHttp
  with_add_request_headers entries b =
      map_outcome (λ m. record b { add_request_headers = m })
        (put_entries entries b.add_request_headers)

  abbrev pub with_allowed_response_headers : List String → AgentExtAuthHttp → AgentExtAuthHttp
  with_allowed_response_headers values b = record b {
    allowed_response_headers = append_values values b.allowed_response_headers;
  }

  abbrev pub with_response_metadata :
      List (String × x.cel_expression.Carrier) → AgentExtAuthHttp → Outcome AgentExtAuthHttp
  with_response_metadata entries b =
      map_outcome (λ m. record b { response_metadata = m })
        (put_entries entries b.response_metadata)

  abbrev pub agent_ext_auth_http_fields : AgentExtAuthHttp → Fields
  agent_ext_auth_http_fields b =
      ("path", pointer_field x.cel_expression.encode b.path)
      ∷ ("redirect", pointer_field x.cel_expression.encode b.redirect)
      ∷ ("allowedRequestHeaders", slice_field text b.allowed_request_headers)
      ∷ ("addRequestHeaders", map_field x.cel_expression.encode b.add_request_headers)
      ∷ ("allowedResponseHeaders", slice_field text b.allowed_response_headers)
      ∷ ("responseMetadata", map_field x.cel_expression.encode b.response_metadata)
      ∷ []

  abbrev pub encode_agent_ext_auth_http : AgentExtAuthHttp → Json
  encode_agent_ext_auth_http b = object_of (agent_ext_auth_http_fields b)

  abbrev pub builders : List (Builder agent_ext_auth_http_fields)
  builders =
      value_builder agent_ext_auth_http_fields "path" x.cel_expression.encode with_path
      ∷ value_builder agent_ext_auth_http_fields "redirect" x.cel_expression.encode with_redirect
      ∷ values_builder agent_ext_auth_http_fields "allowedRequestHeaders" text
          with_allowed_request_headers
      ∷ entries_builder agent_ext_auth_http_fields "addRequestHeaders" x.cel_expression.encode
          with_add_request_headers
      ∷ values_builder agent_ext_auth_http_fields "allowedResponseHeaders" text
          with_allowed_response_headers
      ∷ entries_builder agent_ext_auth_http_fields "responseMetadata" x.cel_expression.encode
          with_response_metadata
      ∷ []

  abbrev pub configuration : Configuration
  configuration = record {
    Self = AgentExtAuthHttp;
    fields = agent_ext_auth_http_fields;
    empty = agent_ext_auth_http;
    builders = builders;
  }

  pub configuration-IsSound : IsSound configuration
  configuration-IsSound = record {
    unset = refl;
    faithful =
        value_IsFaithful 0 (λ b. refl) (λ a b. refl)
        ▸ value_IsFaithful 1 (λ b. refl) (λ a b. refl)
        ▸ values_IsFaithful 2 (λ b. refl) (λ b. b.allowed_request_headers)
            (λ xs b. record b { allowed_request_headers = xs }) (λ xs b. refl) (λ b. refl)
            (λ a b. refl)
        ▸ entries_IsFaithful 3 (λ b. refl) (λ b. b.add_request_headers)
            (λ m b. record b { add_request_headers = m }) (λ m b. refl) (λ b. refl) (λ a b. refl)
        ▸ values_IsFaithful 4 (λ b. refl) (λ b. b.allowed_response_headers)
            (λ xs b. record b { allowed_response_headers = xs }) (λ xs b. refl) (λ b. refl)
            (λ a b. refl)
        ▸ entries_IsFaithful 5 (λ b. refl) (λ b. b.response_metadata)
            (λ m b. record b { response_metadata = m }) (λ m b. refl) (λ b. refl) (λ a b. refl)
        ▸ tt;
  }
