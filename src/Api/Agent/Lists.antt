-- ===== src/Api/Agent/Lists.antt =====
-- The copies of lists of agents, as far as the field `Status.ServiceAccount` of the agents is left out.
use agentic_platform.Prelude.{ℕ, refl, ◌++◌}
use agentic_platform.Memory.{Located, Pointer, pointer, slice}
use agentic_platform.Memory.Copies.{
  IsDeepCopy, copy_pointer-IsDeepCopy, copy_slice-IsDeepCopy, CopyOf-append, Below, Isolated,
  IsDeepCopy-Isolated,
}
use agentic_platform.Kubernetes.{Machinery}
use agentic_platform.Api.Agent.{MyceliumAgent, MyceliumAgentList, agent_located}
use agentic_platform.Api.Agent.DeepCopy.{
  deep_copy_into_agent, deep_copy_into_agent_list, deep_copy_agent_list,
}
use agentic_platform.Api.Agent.Sharing.{agent_locs, deep_copy_into_agent-AgentCopy}

module _ (k : Machinery) where
  -- An agent with all that can be read from it, and its storage outside `Status.ServiceAccount`.
  abbrev pub own_located : Located (MyceliumAgent k)
  own_located = record { locs = agent_locs k; plain = (agent_located k).plain }

  abbrev pub own_list_located : Located (MyceliumAgentList k)
  own_list_located = record {
    locs = λ l. k.list_meta.located.locs l.list_meta ++ (slice own_located).locs l.items;
    plain = λ l. record l {
      list_meta = k.list_meta.located.plain l.list_meta;
      items = (slice own_located).plain l.items;
    };
  }

  deep_copy_into_agent-IsDeepCopy : IsDeepCopy own_located (deep_copy_into_agent k)
  deep_copy_into_agent-IsDeepCopy a n =
      let c = deep_copy_into_agent-AgentCopy k a n in record { same = c.same; fresh = c.fresh }

  deep_copy_into_agent_list-IsDeepCopy : IsDeepCopy own_list_located (deep_copy_into_agent_list k)
  unfolding deep_copy_into_agent_list
  deep_copy_into_agent_list-IsDeepCopy x n =
      let c0 = k.list_meta.deep_copy_into-IsDeepCopy x.list_meta n in
      let c1 =
        copy_slice-IsDeepCopy own_located (deep_copy_into_agent k) deep_copy_into_agent-IsDeepCopy
          x.items _ in
      record { same = rw (c0.same, c1.same) refl; fresh = CopyOf-append c0 _ _ c1.fresh }

  -- Where all storage of a list of agents outside `Status.ServiceAccount` lies below the first free
  -- address `n`, its `DeepCopy` reads as the list does, and the two have no storage outside that
  -- field in common.
  pub deep_copy_agent_list-Isolated :
      (n : ℕ) (x : Pointer (MyceliumAgentList k))
      → Below (pointer own_list_located) n x
      → Isolated (pointer own_list_located) x (deep_copy_agent_list k x n).0
  unfolding deep_copy_agent_list
  deep_copy_agent_list-Isolated n x h =
      IsDeepCopy-Isolated (pointer own_list_located) (deep_copy_agent_list k) x n
        (copy_pointer-IsDeepCopy own_list_located (deep_copy_into_agent_list k)
          deep_copy_into_agent_list-IsDeepCopy)
        h
