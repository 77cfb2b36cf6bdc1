-- ===== src/Tests/Sending.antt =====
-- Chains of calls on the configurations of agentgateway's types, at concrete inputs.
use agentic_platform.Prelude.{
  ◌≡◌, ◌≢◌, refl, String, Option, none, some, List, [], ◌∷◌, false, str_eq, str_eq_iff,
}
use agentic_platform.Kubernetes.{GroupVersion, GroupVersionKind}
use agentic_platform.ApplyConfiguration.{map_outcome}
use agentic_platform.ApplyConfiguration.Json.{Json, text, Encoded, Items, no_items, items_of}
use agentic_platform.ApplyConfiguration.Appends.{in_front, append_pointers}
use agentic_platform.ApplyConfiguration.Foreign.{Foreign, Inlined}
use agentic_platform.ApplyConfiguration.Builder.{Configuration, error_of}
use agentic_platform.ApplyConfiguration.Builder.Kinds.{extend}
use agentic_platform.ApplyConfiguration.Builder.Chain.{
  Call, call, other, chain, edit, document_of, first_panic,
}
use agentic_platform.ApplyConfiguration.Builder.Gathered.{gathered}
use agentic_platform.ApplyConfiguration.Agentgateway.Message.{
  Message, encode_message, message, with_role, with_content,
}
use agentic_platform.ApplyConfiguration.Agentgateway
use agentic_platform.ApplyConfiguration.Kinds.{for_kind}
use agentic_platform.ApplyConfiguration.Sent.{configuration_named}
use agentic_platform.ApplyConfiguration.Sent.Effects.{
  nothing, sent, sent-edit, sent-untouched, sent-last, sent-gathered, sent-panics, for_kind-nothing,
}

-- Types of texts, and embedded structs of one member.
abbrev texts : Encoded
texts = record { Carrier = String; encode = text }

abbrev one_member : Inlined
one_member = record {
  Carrier = Option Json;
  fields = λ o. ("member", o) ∷ [];
  zero = none;
  zero-unset = refl;
}

abbrev foreign : Foreign
foreign = record {
  api_key_authentication_mode = texts;
  action = texts;
  agentgateway_parameters_logging_format = texts;
  agentgateway_parameters_status = texts;
  authorization = texts;
  azure_resource_type = texts;
  backend_auth_passthrough = texts;
  backend_object_reference = texts;
  basic_authentication_mode = texts;
  built_in = texts;
  cel_expression = texts;
  cipher_suite = texts;
  condition = texts;
  duration = texts;
  dynamic_forward_proxy_backend = texts;
  env_var = texts;
  failure_mode = texts;
  gcp_auth_type = texts;
  http_header_match = texts;
  http_version = texts;
  header_modifiers = texts;
  header_name = texts;
  hostname_rewrite_mode = texts;
  insecure_tls_mode = texts;
  json = texts;
  jwt_authentication_mode = texts;
  kubernetes_resource_overlay = texts;
  label_selector = texts;
  local_object_reference = texts;
  local_policy_target_reference_with_section_name = texts;
  local_policy_target_selector_with_section_name = texts;
  local_rate_limit_unit = texts;
  mcp_protocol = texts;
  mcp_idp = texts;
  otlp_protocol = texts;
  owner_reference = texts;
  policy_phase = texts;
  policy_status = texts;
  pull_policy = texts;
  rate_limit_unit = texts;
  resource_requirements = texts;
  route_type = texts;
  section_name = texts;
  session_routing = texts;
  tls_version = texts;
  time = texts;
  httpcors_filter = one_member;
  http_route_retry = one_member;
}

abbrev enrichment : Configuration
enrichment = Agentgateway.AiPromptEnrichment.configuration foreign

abbrev system_message : Message foreign
system_message = with_content foreign "be brief" (with_role foreign "system" (message foreign))

abbrev user_message : Message foreign
user_message = with_role foreign "user" (message foreign)

abbrev prepend : List (Option (Message foreign)) → Call enrichment.builders
prepend values = call values

abbrev append : List (Option (Message foreign)) → Call enrichment.builders
append values = other (call values)

-- The last call is given a nil.
abbrev some_calls : List (Call enrichment.builders)
some_calls =
    prepend (some system_message ∷ some user_message ∷ [])
    ∷ prepend (some user_message ∷ [])
    ∷ append (some user_message ∷ none ∷ some system_message ∷ [])
    ∷ []

some_calls-panic :
    error_of (chain some_calls enrichment.empty) ≡ some "nil value passed to WithAppend"
unfolding append_pointers
some_calls-panic = refl

sent-edit_example :
    map_outcome (document_of enrichment.fields) (chain some_calls enrichment.empty)
    ≡ edit some_calls nothing
sent-edit_example =
    sent-edit foreign "AIPromptEnrichmentApplyConfiguration" enrichment some_calls refl

sent-panics_example : error_of (chain some_calls enrichment.empty) ≡ first_panic some_calls
sent-panics_example =
    sent-panics foreign "AIPromptEnrichmentApplyConfiguration" enrichment some_calls refl

abbrev prepends : List (Call enrichment.builders)
prepends =
    prepend (some system_message ∷ []) ∷ prepend (some user_message ∷ some user_message ∷ []) ∷ []

differ : (a b : String) → str_eq a b ≡ false → a ≢ b
differ a b h e = cc (h, (str_eq_iff a b).1 e)

sent-untouched_example : sent enrichment prepends "append" ≡ none
sent-untouched_example =
    sent-untouched foreign "AIPromptEnrichmentApplyConfiguration" enrichment prepends "append" refl
      (differ "prepend" "append" refl, (differ "prepend" "append" refl, tt))

-- What `WithPrepend` is given.
abbrev prepended : Call enrichment.builders → Items
prepended (call values) = items_of (encode_message foreign) (in_front values)
prepended (other c) = no_items

sent-gathered_example :
    sent enrichment prepends "prepend" ≡ extend (gathered prepended "prepend" prepends) none
sent-gathered_example =
    sent-gathered foreign "AIPromptEnrichmentApplyConfiguration" enrichment prepends prepended
      "prepend" refl (refl, (refl, tt)) ((λ e old. refl), ((λ e old. refl), tt))

abbrev messages : Configuration
messages = Agentgateway.Message.configuration foreign

abbrev role : String → Call messages.builders
role v = call v

abbrev content : String → Call messages.builders
content v = other (call v)

sent-last_example :
    sent messages (role "user" ∷ content "hello" ∷ role "system" ∷ content "be brief" ∷ []) "role"
    ≡ some (text "system")
sent-last_example =
    sent-last foreign "MessageApplyConfiguration" messages (role "user" ∷ content "hello" ∷ [])
      (role "system") (content "be brief" ∷ []) (some (text "system")) refl (refl, (refl, tt))
      (λ old. refl) (differ "content" "role" refl, tt)

abbrev scheme : GroupVersion
scheme = record { group = "agentgateway.dev"; version = "v1alpha1" }

abbrev message_kind : GroupVersionKind
message_kind = record { group_version = scheme; kind = "Message" }

for_kind-message : for_kind scheme message_kind ≡ some "MessageApplyConfiguration"
unfolding for_kind
for_kind-message = refl

for_kind-nothing_example :
    (c : Configuration) × ((configuration_named foreign "MessageApplyConfiguration" ≡ some c)
      × (sent c [] ≡ nothing))
for_kind-nothing_example =
    for_kind-nothing foreign scheme message_kind "MessageApplyConfiguration" for_kind-message
