-- ===== src/Api/Isolation.antt =====
-- The deep copies of the resource lists (zz_generated.deepcopy.go) as their callers see them. The list
-- of agents is in Agent/Lists.
use agentic_platform.Prelude.{ℕ}
use agentic_platform.Memory.{Pointer, pointer}
use agentic_platform.Memory.Copies.{Below, Isolated, IsDeepCopy-Isolated}
use agentic_platform.Kubernetes.{Machinery}
use agentic_platform.Api.Tool.{MyceliumToolList, tool_list_located}
use agentic_platform.Api.Tool.DeepCopy.{deep_copy_tool_list, deep_copy_tool_list-IsDeepCopy}
use agentic_platform.Api.Ecosystem.{MyceliumEcosystemList, ecosystem_list_located}
use agentic_platform.Api.Ecosystem.DeepCopy.{
  deep_copy_ecosystem_list, deep_copy_ecosystem_list-IsDeepCopy,
}
use agentic_platform.Api.Authorizer.{MyceliumAuthorizerList, authorizer_list_located}
use agentic_platform.Api.Authorizer.DeepCopy.{
  deep_copy_authorizer_list, deep_copy_authorizer_list-IsDeepCopy,
}
use agentic_platform.Api.CredentialProvider.{
  MyceliumCredentialProviderList, credential_provider_list_located,
}
use agentic_platform.Api.CredentialProvider.DeepCopy.{
  deep_copy_credential_provider_list, deep_copy_credential_provider_list-IsDeepCopy,
}

module _ (k : Machinery) (n : ℕ) where
  -- Where all storage of a list of tools lies below the first free address `n`, its
  -- `DeepCopy` reads as the list does and shares no storage with it.
  pub deep_copy_tool_list-Isolated :
      (x : Pointer (MyceliumToolList k))
      → Below (pointer (tool_list_located k)) n x
      → Isolated (pointer (tool_list_located k)) x (deep_copy_tool_list k x n).0
  deep_copy_tool_list-Isolated x h =
      IsDeepCopy-Isolated (pointer (tool_list_located k)) (deep_copy_tool_list k) x n
        (deep_copy_tool_list-IsDeepCopy k) h

  -- Where all storage of a list of ecosystems lies below the first free address `n`, its
  -- `DeepCopy` reads as the list does and shares no storage with it.
  deep_copy_ecosystem_list-Isolated :
      (x : Pointer (MyceliumEcosystemList k))
      → Below (pointer (ecosystem_list_located k)) n x
      → Isolated (pointer (ecosystem_list_located k)) x (deep_copy_ecosystem_list k x n).0
  deep_copy_ecosystem_list-Isolated x h =
      IsDeepCopy-Isolated (pointer (ecosystem_list_located k)) (deep_copy_ecosystem_list k) x n
        (deep_copy_ecosystem_list-IsDeepCopy k) h

  -- Where all storage of a list of authorizers lies below the first free address `n`, its
  -- `DeepCopy` reads as the list does and shares no storage with it.
  deep_copy_authorizer_list-Isolated :
      (x : Pointer (MyceliumAuthorizerList k))
      → Below (pointer (authorizer_list_located k)) n x
      → Isolated (pointer (authorizer_list_located k)) x (deep_copy_authorizer_list k x n).0
  deep_copy_authorizer_list-Isolated x h =
      IsDeepCopy-Isolated (pointer (authorizer_list_located k)) (deep_copy_authorizer_list k) x n
        (deep_copy_authorizer_list-IsDeepCopy k) h

  -- Where all storage of a list of credential providers lies below the first free address `n`, its
  -- `DeepCopy` reads as the list does and shares no storage with it.
  deep_copy_credential_provider_list-Isolated :
      (x : Pointer (MyceliumCredentialProviderList k))
      → Below (pointer (credential_provider_list_located k)) n x
      → Isolated
          (pointer (credential_provider_list_located k))
          x
          (deep_copy_credential_provider_list k x n).0
  deep_copy_credential_provider_list-Isolated x h =
      IsDeepCopy-Isolated (pointer (credential_provider_list_located k))
        (deep_copy_credential_provider_list k) x n (deep_copy_credential_provider_list-IsDeepCopy k)
        h
