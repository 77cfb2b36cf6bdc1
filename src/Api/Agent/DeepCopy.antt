-- ===== src/Api/Agent/DeepCopy.antt =====
-- zz_generated.deepcopy.go: the types of agent_types.go. The copy of `MyceliumAgentStatus` leaves
-- out the field `ServiceAccount`, as the generated code does.
use agentic_platform.Prelude.{refl}
use agentic_platform.Memory.{Alloc, pure, ◌>>=◌, Pointer, flat, copy_pointer, copy_slice}
use agentic_platform.Memory.Copies.{
  IsDeepCopy, pure-IsDeepCopy, copy_pointer-IsDeepCopy, copy_slice-IsDeepCopy, CopyOf-append,
}
use agentic_platform.Kubernetes.{Machinery}
use agentic_platform.Api.Status.DeepCopy.{
  copy_conditions, copy_conditions-IsDeepCopy, deep_copy_into_base,
}
use agentic_platform.Api.Agent.{
  ToolRef, RateLimitConfig, ToolBinding, tool_binding_located, SandboxPoolConfig,
  sandbox_pool_located, MyceliumAgentSpec, agent_spec_located, ToolBindingStatus,
  tool_binding_status_located, MyceliumAgentStatus, MyceliumAgent, MyceliumAgentList,
}

pub deep_copy_into_tool_ref : ToolRef → Alloc ToolRef
deep_copy_into_tool_ref r = pure r

pub deep_copy_tool_ref : Pointer ToolRef → Alloc (Pointer ToolRef)
deep_copy_tool_ref = copy_pointer deep_copy_into_tool_ref

pub deep_copy_into_rate_limit : RateLimitConfig → Alloc RateLimitConfig
deep_copy_into_rate_limit r = pure r

pub deep_copy_rate_limit : Pointer RateLimitConfig → Alloc (Pointer RateLimitConfig)
deep_copy_rate_limit = copy_pointer deep_copy_into_rate_limit

pub deep_copy_into_tool_binding : ToolBinding → Alloc ToolBinding
deep_copy_into_tool_binding b = do
  rate_limit ← copy_pointer pure b.rate_limit
  pure (record b { rate_limit = rate_limit })

pub deep_copy_tool_binding : Pointer ToolBinding → Alloc (Pointer ToolBinding)
deep_copy_tool_binding = copy_pointer deep_copy_into_tool_binding

pub deep_copy_into_sandbox_pool : SandboxPoolConfig → Alloc SandboxPoolConfig
deep_copy_into_sandbox_pool s = do
  replicas ← copy_pointer pure s.replicas
  pure (record s { replicas = replicas })

pub deep_copy_sandbox_pool : Pointer SandboxPoolConfig → Alloc (Pointer SandboxPoolConfig)
deep_copy_sandbox_pool = copy_pointer deep_copy_into_sandbox_pool

pub deep_copy_into_agent_spec : MyceliumAgentSpec → Alloc MyceliumAgentSpec
deep_copy_into_agent_spec s = do
  tool_bindings ← copy_slice deep_copy_into_tool_binding s.tool_bindings
  sandbox_pool ← deep_copy_into_sandbox_pool s.sandbox_pool
  pure (record s { tool_bindings = tool_bindings; sandbox_pool = sandbox_pool })

pub deep_copy_agent_spec : Pointer MyceliumAgentSpec → Alloc (Pointer MyceliumAgentSpec)
deep_copy_agent_spec = copy_pointer deep_copy_into_agent_spec

module _ (k : Machinery) where
  pub deep_copy_into_tool_binding_status : ToolBindingStatus k → Alloc (ToolBindingStatus k)
  deep_copy_into_tool_binding_status s = do
    conditions ← copy_conditions k s.conditions
    pure (record s { conditions = conditions })

  pub deep_copy_tool_binding_status :
      Pointer (ToolBindingStatus k) → Alloc (Pointer (ToolBindingStatus k))
  deep_copy_tool_binding_status = copy_pointer deep_copy_into_tool_binding_status

  unfoldable pub deep_copy_into_agent_status : MyceliumAgentStatus k → Alloc (MyceliumAgentStatus k)
  deep_copy_into_agent_status s = do
    base ← deep_copy_into_base k s.base
    tool_bindings ← copy_slice deep_copy_into_tool_binding_status s.tool_bindings
    pure (record s { base = base; tool_bindings = tool_bindings })

  pub deep_copy_agent_status :
      Pointer (MyceliumAgentStatus k) → Alloc (Pointer (MyceliumAgentStatus k))
  deep_copy_agent_status = copy_pointer deep_copy_into_agent_status

  unfoldable pub deep_copy_into_agent : MyceliumAgent k → Alloc (MyceliumAgent k)
  deep_copy_into_agent a = do
    object_meta ← k.object_meta.deep_copy_into a.object_meta
    spec ← deep_copy_into_agent_spec a.spec
    status ← deep_copy_into_agent_status a.status
    pure (record a { object_meta = object_meta; spec = spec; status = status })

  -- `DeepCopy`; `DeepCopyObject` returns it as an interface, nil for nil.
  pub deep_copy_agent : Pointer (MyceliumAgent k) → Alloc (Pointer (MyceliumAgent k))
  deep_copy_agent = copy_pointer deep_copy_into_agent

  unfoldable pub deep_copy_into_agent_list : MyceliumAgentList k → Alloc (MyceliumAgentList k)
  deep_copy_into_agent_list l = do
    list_meta ← k.list_meta.deep_copy_into l.list_meta
    items ← copy_slice deep_copy_into_agent l.items
    pure (record l { list_meta = list_meta; items = items })

  unfoldable pub deep_copy_agent_list :
      Pointer (MyceliumAgentList k) → Alloc (Pointer (MyceliumAgentList k))
  deep_copy_agent_list = copy_pointer deep_copy_into_agent_list

pub deep_copy_into_tool_binding-IsDeepCopy :
    IsDeepCopy tool_binding_located deep_copy_into_tool_binding
unfolding deep_copy_into_tool_binding
deep_copy_into_tool_binding-IsDeepCopy b n =
    let c = copy_pointer-IsDeepCopy flat pure pure-IsDeepCopy b.rate_limit n in
    record { same = rw c.same refl; fresh = c.fresh }

pub deep_copy_into_sandbox_pool-IsDeepCopy :
    IsDeepCopy sandbox_pool_located deep_copy_into_sandbox_pool
unfolding deep_copy_into_sandbox_pool
deep_copy_into_sandbox_pool-IsDeepCopy s n =
    let c = copy_pointer-IsDeepCopy flat pure pure-IsDeepCopy s.replicas n in
    record { same = rw c.same refl; fresh = c.fresh }

-- The copy of an agent's specification is a deep copy.
pub deep_copy_into_agent_spec-IsDeepCopy : IsDeepCopy agent_spec_located deep_copy_into_agent_spec
unfolding deep_copy_into_agent_spec
deep_copy_into_agent_spec-IsDeepCopy s n =
    let b =
      copy_slice-IsDeepCopy tool_binding_located deep_copy_into_tool_binding
        deep_copy_into_tool_binding-IsDeepCopy s.tool_bindings n in
    let p = deep_copy_into_sandbox_pool-IsDeepCopy s.sandbox_pool _ in
    record { same = rw (b.same, p.same) refl; fresh = CopyOf-append b _ _ p.fresh }

pub deep_copy_into_tool_binding_status-IsDeepCopy :
    (k : Machinery)
    → IsDeepCopy (tool_binding_status_located k) (deep_copy_into_tool_binding_status k)
unfolding deep_copy_into_tool_binding_status
deep_copy_into_tool_binding_status-IsDeepCopy k s n =
    let c = copy_conditions-IsDeepCopy k s.conditions n in
    record { same = rw c.same refl; fresh = c.fresh }
