-- ===== src/ApplyConfiguration/Kinds.antt =====
-- utils.go: `ForKind`. A configuration is known by the name of its Go type, and nil is `none`.
pub mod Named
pub mod Versions
use agentic_platform.Prelude.{
  String, Bool, ◌&&◌, Option, none, some, List, [], ◌∷◌, str_eq, if◌then◌else◌,
}
use agentic_platform.Kubernetes.{GroupVersion, GroupVersionKind}

-- The cases of the switch, in their order.
abbrev pub cases : List (String × String)
cases =
    ("AccessLog", "AccessLogApplyConfiguration")
    ∷ ("AgentExtAuthGRPC", "AgentExtAuthGRPCApplyConfiguration")
    ∷ ("AgentExtAuthHTTP", "AgentExtAuthHTTPApplyConfiguration")
    ∷ ("AgentgatewayBackend", "AgentgatewayBackendApplyConfiguration")
    ∷ ("AgentgatewayBackendSpec", "AgentgatewayBackendSpecApplyConfiguration")
    ∷ ("AgentgatewayBackendStatus", "AgentgatewayBackendStatusApplyConfiguration")
    ∷ ("AgentgatewayParameters", "AgentgatewayParametersApplyConfiguration")
    ∷ ("AgentgatewayParametersConfigs", "AgentgatewayParametersConfigsApplyConfiguration")
    ∷ ("AgentgatewayParametersLogging", "AgentgatewayParametersLoggingApplyConfiguration")
    ∷ ("AgentgatewayParametersOverlays", "AgentgatewayParametersOverlaysApplyConfiguration")
    ∷ ("AgentgatewayParametersSpec", "AgentgatewayParametersSpecApplyConfiguration")
    ∷ ("AgentgatewayPolicy", "AgentgatewayPolicyApplyConfiguration")
    ∷ ("AgentgatewayPolicySpec", "AgentgatewayPolicySpecApplyConfiguration")
    ∷ ("AIBackend", "AIBackendApplyConfiguration")
    ∷ ("AIPromptEnrichment", "AIPromptEnrichmentApplyConfiguration")
    ∷ ("AIPromptGuard", "AIPromptGuardApplyConfiguration")
    ∷ ("AnthropicConfig", "AnthropicConfigApplyConfiguration")
    ∷ ("APIKeyAuthentication", "APIKeyAuthenticationApplyConfiguration")
    ∷ ("AttributeAdd", "AttributeAddApplyConfiguration")
    ∷ ("AwsAgentCoreBackend", "AwsAgentCoreBackendApplyConfiguration")
    ∷ ("AwsAuth", "AwsAuthApplyConfiguration")
    ∷ ("AwsBackend", "AwsBackendApplyConfiguration")
    ∷ ("AWSGuardrailConfig", "AWSGuardrailConfigApplyConfiguration")
    ∷ ("AzureAuth", "AzureAuthApplyConfiguration")
    ∷ ("AzureConfig", "AzureConfigApplyConfiguration")
    ∷ ("AzureManagedIdentity", "AzureManagedIdentityApplyConfiguration")
    ∷ ("AzureOpenAIConfig", "AzureOpenAIConfigApplyConfiguration")
    ∷ ("BackendAI", "BackendAIApplyConfiguration")
    ∷ ("BackendAuth", "BackendAuthApplyConfiguration")
    ∷ ("BackendEviction", "BackendEvictionApplyConfiguration")
    ∷ ("BackendFull", "BackendFullApplyConfiguration")
    ∷ ("BackendHTTP", "BackendHTTPApplyConfiguration")
    ∷ ("BackendMCP", "BackendMCPApplyConfiguration")
    ∷ ("BackendSimple", "BackendSimpleApplyConfiguration")
    ∷ ("BackendTCP", "BackendTCPApplyConfiguration")
    ∷ ("BackendTLS", "BackendTLSApplyConfiguration")
    ∷ ("BackendTunnel", "BackendTunnelApplyConfiguration")
    ∷ ("BackendWithAI", "BackendWithAIApplyConfiguration")
    ∷ ("BasicAuthentication", "BasicAuthenticationApplyConfiguration")
    ∷ ("BedrockConfig", "BedrockConfigApplyConfiguration")
    ∷ ("BedrockGuardrails", "BedrockGuardrailsApplyConfiguration")
    ∷ ("CORS", "CORSApplyConfiguration")
    ∷ ("CSRF", "CSRFApplyConfiguration")
    ∷ ("CustomResponse", "CustomResponseApplyConfiguration")
    ∷ ("DirectResponse", "DirectResponseApplyConfiguration")
    ∷ ("ExtAuth", "ExtAuthApplyConfiguration")
    ∷ ("ExtAuthBody", "ExtAuthBodyApplyConfiguration")
    ∷ ("ExtProc", "ExtProcApplyConfiguration")
    ∷ ("FieldDefault", "FieldDefaultApplyConfiguration")
    ∷ ("FieldTransformation", "FieldTransformationApplyConfiguration")
    ∷ ("Frontend", "FrontendApplyConfiguration")
    ∷ ("FrontendHTTP", "FrontendHTTPApplyConfiguration")
    ∷ ("FrontendTCP", "FrontendTCPApplyConfiguration")
    ∷ ("FrontendTLS", "FrontendTLSApplyConfiguration")
    ∷ ("GcpAuth", "GcpAuthApplyConfiguration")
    ∷ ("GeminiConfig", "GeminiConfigApplyConfiguration")
    ∷ ("GlobalRateLimit", "GlobalRateLimitApplyConfiguration")
    ∷ ("GoogleModelArmor", "GoogleModelArmorApplyConfiguration")
    ∷ ("HeaderTransformation", "HeaderTransformationApplyConfiguration")
    ∷ ("Health", "HealthApplyConfiguration")
    ∷ ("HostnameRewrite", "HostnameRewriteApplyConfiguration")
    ∷ ("Image", "ImageApplyConfiguration")
    ∷ ("IstioSpec", "IstioSpecApplyConfiguration")
    ∷ ("JWKS", "JWKSApplyConfiguration")
    ∷ ("JWTAuthentication", "JWTAuthenticationApplyConfiguration")
    ∷ ("JWTMCPConfig", "JWTMCPConfigApplyConfiguration")
    ∷ ("JWTProvider", "JWTProviderApplyConfiguration")
    ∷ ("Keepalive", "KeepaliveApplyConfiguration")
    ∷ ("LLMProvider", "LLMProviderApplyConfiguration")
    ∷ ("LocalRateLimit", "LocalRateLimitApplyConfiguration")
    ∷ ("LogTracingAttributes", "LogTracingAttributesApplyConfiguration")
    ∷ ("MCPAuthentication", "MCPAuthenticationApplyConfiguration")
    ∷ ("MCPBackend", "MCPBackendApplyConfiguration")
    ∷ ("McpSelector", "McpSelectorApplyConfiguration")
    ∷ ("McpTarget", "McpTargetApplyConfiguration")
    ∷ ("McpTargetSelector", "McpTargetSelectorApplyConfiguration")
    ∷ ("Message", "MessageApplyConfiguration")
    ∷ ("NamedLLMProvider", "NamedLLMProviderApplyConfiguration")
    ∷ ("OpenAIConfig", "OpenAIConfigApplyConfiguration")
    ∷ ("OpenAIModeration", "OpenAIModerationApplyConfiguration")
    ∷ ("OtlpAccessLog", "OtlpAccessLogApplyConfiguration")
    ∷ ("PriorityGroup", "PriorityGroupApplyConfiguration")
    ∷ ("PromptCachingConfig", "PromptCachingConfigApplyConfiguration")
    ∷ ("PromptguardRequest", "PromptguardRequestApplyConfiguration")
    ∷ ("PromptguardResponse", "PromptguardResponseApplyConfiguration")
    ∷ ("RateLimitDescriptor", "RateLimitDescriptorApplyConfiguration")
    ∷ ("RateLimitDescriptorEntry", "RateLimitDescriptorEntryApplyConfiguration")
    ∷ ("RateLimits", "RateLimitsApplyConfiguration")
    ∷ ("Regex", "RegexApplyConfiguration")
    ∷ ("RemoteJWKS", "RemoteJWKSApplyConfiguration")
    ∷ ("ResourceAdd", "ResourceAddApplyConfiguration")
    ∷ ("Retry", "RetryApplyConfiguration")
    ∷ ("SecretSelector", "SecretSelectorApplyConfiguration")
    ∷ ("ShutdownSpec", "ShutdownSpecApplyConfiguration")
    ∷ ("StaticBackend", "StaticBackendApplyConfiguration")
    ∷ ("Timeouts", "TimeoutsApplyConfiguration")
    ∷ ("Tracing", "TracingApplyConfiguration")
    ∷ ("Traffic", "TrafficApplyConfiguration")
    ∷ ("Transform", "TransformApplyConfiguration")
    ∷ ("Transformation", "TransformationApplyConfiguration")
    ∷ ("VertexAIConfig", "VertexAIConfigApplyConfiguration")
    ∷ ("Webhook", "WebhookApplyConfiguration")
    ∷ []

-- The first case for a kind.
abbrev pub find {ℓ} : {A : Type ℓ} → List (String × A) → String → Option A
find [] kind = none
find ((k, t) ∷ cs) kind = if str_eq kind k then some t else find cs kind

abbrev pub same_version : GroupVersion → GroupVersion → Bool
same_version a b = str_eq a.group b.group && str_eq a.version b.version

-- The first argument is `agentgateway.SchemeGroupVersion`.
unfoldable pub for_kind : GroupVersion → GroupVersionKind → Option String
for_kind scheme k = if same_version k.group_version scheme then find cases k.kind else none
