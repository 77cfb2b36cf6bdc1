-- ===== src/ApplyConfiguration/Foreign.antt =====
-- What the configurations take from other packages: the types of agentgateway, gateway-api and
-- Kubernetes that they hold, with what encoding/json makes of a value.
use agentic_platform.Prelude.{◌≡◌, true}
use agentic_platform.ApplyConfiguration.Json.{Encoded, Fields}
use agentic_platform.ApplyConfiguration.Builder.{is_unset}

-- A struct that a configuration embeds with the tag `inline`: its members stand among those of the
-- configuration, and all of them have `omitempty`.
pub record Inlined : Type 1 where
  pub Carrier : Type 0
  pub fields : Carrier → Fields
  pub zero : Carrier
  pub zero-unset : is_unset (fields zero) ≡ true

pub record Foreign : Type 1 where
  pub api_key_authentication_mode : Encoded
  pub action : Encoded
  pub agentgateway_parameters_logging_format : Encoded
  pub agentgateway_parameters_status : Encoded
  pub authorization : Encoded
  pub azure_resource_type : Encoded
  pub backend_auth_passthrough : Encoded
  pub backend_object_reference : Encoded
  pub basic_authentication_mode : Encoded
  pub built_in : Encoded
  pub cel_expression : Encoded
  pub cipher_suite : Encoded
  pub condition : Encoded
  pub duration : Encoded
  pub dynamic_forward_proxy_backend : Encoded
  pub env_var : Encoded
  pub failure_mode : Encoded
  pub gcp_auth_type : Encoded
  pub http_header_match : Encoded
  pub http_version : Encoded
  pub header_modifiers : Encoded
  pub header_name : Encoded
  pub hostname_rewrite_mode : Encoded
  pub insecure_tls_mode : Encoded
  pub json : Encoded
  pub jwt_authentication_mode : Encoded
  pub kubernetes_resource_overlay : Encoded
  pub label_selector : Encoded
  pub local_object_reference : Encoded
  pub local_policy_target_reference_with_section_name : Encoded
  pub local_policy_target_selector_with_section_name : Encoded
  pub local_rate_limit_unit : Encoded
  pub mcp_protocol : Encoded
  pub mcp_idp : Encoded
  pub otlp_protocol : Encoded
  pub owner_reference : Encoded
  pub policy_phase : Encoded
  pub policy_status : Encoded
  pub pull_policy : Encoded
  pub rate_limit_unit : Encoded
  pub resource_requirements : Encoded
  pub route_type : Encoded
  pub section_name : Encoded
  pub session_routing : Encoded
  pub tls_version : Encoded
  pub time : Encoded
  pub httpcors_filter : Inlined
  pub http_route_retry : Inlined
