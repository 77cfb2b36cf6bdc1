-- ===== src/Admission/Agent.antt =====
-- The markers of agent_types.go.
use agentic_platform.Prelude.{
  ℕ, Bool, true, false, ◌&&◌, ◌||◌, List, [], ◌∷◌, leb, ◌==◌, codes, size, sized, all,
  if◌then◌else◌,
}
use agentic_platform.Prelude.Int.{pos, leb_ℤ}
use agentic_platform.Api.Agent.{
  ToolRef, RateLimitConfig, ToolBinding, SandboxPoolConfig, MyceliumAgentSpec,
}
use agentic_platform.Admission.Format.{optional, items}
use agentic_platform.Admission.Tool.{within}

pub admits_tool_ref : ToolRef → Bool
admits_tool_ref r = leb 1 (size r.name)

pub admits_rate_limit : RateLimitConfig → Bool
admits_rate_limit r = leb_ℤ (pos 1) r.requests_per_unit

pub admits_tool_binding : ToolBinding → Bool
admits_tool_binding b = admits_tool_ref b.tool_ref && optional admits_rate_limit b.rate_limit

abbrev pub is_digit : ℕ → Bool
is_digit c = leb b'0' c && leb c b'9'

abbrev pub is_unit : ℕ → Bool
is_unit c = c == b's' || c == b'm' || c == b'h'

abbrev pub is_nil : List ℕ → Bool
is_nil [] = true
is_nil (x ∷ xs) = false

-- The pattern `^[0-9]+(s|m|h)$`; `seen` tells whether a digit stands in front.
pub is_timeout_from : Bool → List ℕ → Bool
is_timeout_from seen [] = false
is_timeout_from seen (c ∷ cs) =
    let rest = is_timeout_from true cs in
    if is_digit c then rest else seen && is_unit c && is_nil cs

unfoldable pub is_timeout : List ℕ → Bool
unfolding is_timeout_from
is_timeout = is_timeout_from false

pub admits_sandbox_pool : SandboxPoolConfig → Bool
admits_sandbox_pool s =
    sized 1 1024 s.image
    && sized 1 32 s.shutdown_timeout
    && is_timeout (codes s.shutdown_timeout)
    && optional (within (pos 0) (pos 100)) s.replicas

pub admits_agent_spec : MyceliumAgentSpec → Bool
admits_agent_spec s =
    sized 1 1024 s.description
    && all admits_tool_binding (items s.tool_bindings)
    && admits_sandbox_pool s.sandbox_pool
