-- ===== src/ApplyConfiguration/Agentgateway.antt =====
-- mycelium/internal/applyconfiguration/v1alpha1/agentgateway: a module for each file. A type is a record
-- of its fields, the function that makes an empty one has its name in snake_case, `With…` is `with_…`,
-- and `…_fields` are the fields by the names of their tags. `builders` lists the methods, each with the
-- member that it edits and how.
pub mod AccessLog
pub mod AgentExtAuthGrpc
pub mod AgentExtAuthHttp
pub mod AgentgatewayBackend
pub mod AgentgatewayBackendSpec
pub mod AgentgatewayBackendStatus
pub mod AgentgatewayParameters
pub mod AgentgatewayParametersConfigs
pub mod AgentgatewayParametersLogging
pub mod AgentgatewayParametersOverlays
pub mod AgentgatewayParametersSpec
pub mod AgentgatewayPolicy
pub mod AgentgatewayPolicySpec
pub mod AiBackend
pub mod AiPromptEnrichment
pub mod AiPromptGuard
pub mod AnthropicConfig
pub mod ApiKeyAuthentication
pub mod AttributeAdd
pub mod AwsAgentCoreBackend
pub mod AwsAuth
pub mod AwsBackend
pub mod AwsGuardrailConfig
pub mod AzureAuth
pub mod AzureConfig
pub mod AzureManagedIdentity
pub mod AzureOpenAiConfig
pub mod BackendAi
pub mod BackendAuth
pub mod BackendEviction
pub mod BackendFull
pub mod BackendHttp
pub mod BackendMcp
pub mod BackendSimple
pub mod BackendTcp
pub mod BackendTls
pub mod BackendTunnel
pub mod BackendWithAi
pub mod BasicAuthentication
pub mod BedrockConfig
pub mod BedrockGuardrails
pub mod Cors
pub mod Csrf
pub mod CustomResponse
pub mod DirectResponse
pub mod ExtAuth
pub mod ExtAuthBody
pub mod ExtProc
pub mod FieldDefault
pub mod FieldTransformation
pub mod Frontend
pub mod FrontendHttp
pub mod FrontendTcp
pub mod FrontendTls
pub mod GcpAuth
pub mod GeminiConfig
pub mod GlobalRateLimit
pub mod GoogleModelArmor
pub mod HeaderTransformation
pub mod Health
pub mod HostnameRewrite
pub mod Image
pub mod IstioSpec
pub mod Jwks
pub mod JwtAuthentication
pub mod JwtMcpConfig
pub mod JwtProvider
pub mod Keepalive
pub mod LlmProvider
pub mod LocalRateLimit
pub mod LogTracingAttributes
pub mod McpAuthentication
pub mod McpBackend
pub mod McpSelector
pub mod McpTarget
pub mod McpTargetSelector
pub mod Message
pub mod NamedLlmProvider
pub mod OpenAiConfig
pub mod OpenAiModeration
pub mod OtlpAccessLog
pub mod PriorityGroup
pub mod PromptCachingConfig
pub mod PromptguardRequest
pub mod PromptguardResponse
pub mod RateLimitDescriptor
pub mod RateLimitDescriptorEntry
pub mod RateLimits
pub mod Regex
pub mod RemoteJwks
pub mod ResourceAdd
pub mod Retry
pub mod SecretSelector
pub mod ShutdownSpec
pub mod StaticBackend
pub mod Timeouts
pub mod Tracing
pub mod Traffic
pub mod Transform
pub mod Transformation
pub mod VertexAiConfig
pub mod Webhook
