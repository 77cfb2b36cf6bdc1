-- ===== src/Api/CredentialProvider/DeepCopy.antt =====
-- zz_generated.deepcopy.go: the types of credentialprovider_types.go.
use agentic_platform.Prelude.{refl}
use agentic_platform.Memory.{Alloc, pure, ◌>>=◌, Pointer, flat, pointer, copy_pointer, copy_slice}
use agentic_platform.Memory.Copies.{
  IsDeepCopy, pure-IsDeepCopy, copy_pointer-IsDeepCopy, copy_slice-IsDeepCopy, CopyOf-append,
}
use agentic_platform.Kubernetes.{Machinery}
use agentic_platform.Api.Status.DeepCopy.{deep_copy_into_base, deep_copy_into_base-IsDeepCopy}
use agentic_platform.Api.CredentialProvider.{
  OauthAuthorizationServerMetadata, server_metadata_located, OauthDiscoveryConfig,
  discovery_located, OauthCredentialProviderConfig, oauth_config_located,
  ApiKeyCredentialProviderConfig, api_key_config_located, MyceliumCredentialProviderSpec,
  credential_provider_spec_located, MyceliumCredentialProviderStatus, MyceliumCredentialProvider,
  MyceliumCredentialProviderList, credential_provider_status_located, credential_provider_located,
  credential_provider_list_located,
}

pub deep_copy_into_server_metadata :
    OauthAuthorizationServerMetadata → Alloc OauthAuthorizationServerMetadata
deep_copy_into_server_metadata x = do
  response_types ← copy_slice pure x.response_types
  token_endpoint_auth_methods ← copy_slice pure x.token_endpoint_auth_methods
  pure (record x {
    response_types = response_types;
    token_endpoint_auth_methods = token_endpoint_auth_methods;
  })

pub deep_copy_server_metadata :
    Pointer OauthAuthorizationServerMetadata → Alloc (Pointer OauthAuthorizationServerMetadata)
deep_copy_server_metadata = copy_pointer deep_copy_into_server_metadata

pub deep_copy_into_server_metadata-IsDeepCopy :
    IsDeepCopy server_metadata_located deep_copy_into_server_metadata
unfolding deep_copy_into_server_metadata
deep_copy_into_server_metadata-IsDeepCopy x n =
    let c0 = copy_slice-IsDeepCopy flat pure pure-IsDeepCopy x.response_types n in
    let c1 = copy_slice-IsDeepCopy flat pure pure-IsDeepCopy x.token_endpoint_auth_methods _ in
    record { same = rw (c0.same, c1.same) refl; fresh = CopyOf-append c0 _ _ c1.fresh }

pub deep_copy_into_discovery : OauthDiscoveryConfig → Alloc OauthDiscoveryConfig
deep_copy_into_discovery x = do
  discovery_url ← copy_pointer pure x.discovery_url
  authorization_server_metadata ←
      copy_pointer deep_copy_into_server_metadata x.authorization_server_metadata
  pure (record x {
    discovery_url = discovery_url;
    authorization_server_metadata = authorization_server_metadata;
  })

pub deep_copy_discovery : Pointer OauthDiscoveryConfig → Alloc (Pointer OauthDiscoveryConfig)
deep_copy_discovery = copy_pointer deep_copy_into_discovery

pub deep_copy_into_discovery-IsDeepCopy : IsDeepCopy discovery_located deep_copy_into_discovery
unfolding deep_copy_into_discovery
deep_copy_into_discovery-IsDeepCopy x n =
    let c0 = copy_pointer-IsDeepCopy flat pure pure-IsDeepCopy x.discovery_url n in
    let c1 =
      copy_pointer-IsDeepCopy server_metadata_located deep_copy_into_server_metadata
        deep_copy_into_server_metadata-IsDeepCopy x.authorization_server_metadata _ in
    record { same = rw (c0.same, c1.same) refl; fresh = CopyOf-append c0 _ _ c1.fresh }

module _ (k : Machinery) where
  pub deep_copy_into_oauth_config :
      OauthCredentialProviderConfig k → Alloc (OauthCredentialProviderConfig k)
  deep_copy_into_oauth_config x = do
    client_secret_ref ← k.secret_key_selector.deep_copy_into x.client_secret_ref
    discovery ← deep_copy_into_discovery x.discovery
    pure (record x { client_secret_ref = client_secret_ref; discovery = discovery })

  pub deep_copy_oauth_config :
      Pointer (OauthCredentialProviderConfig k) → Alloc (Pointer (OauthCredentialProviderConfig k))
  deep_copy_oauth_config = copy_pointer deep_copy_into_oauth_config

  pub deep_copy_into_oauth_config-IsDeepCopy :
      IsDeepCopy (oauth_config_located k) deep_copy_into_oauth_config
  unfolding deep_copy_into_oauth_config
  deep_copy_into_oauth_config-IsDeepCopy x n =
      let c0 = k.secret_key_selector.deep_copy_into-IsDeepCopy x.client_secret_ref n in
      let c1 = deep_copy_into_discovery-IsDeepCopy x.discovery _ in
      record { same = rw (c0.same, c1.same) refl; fresh = CopyOf-append c0 _ _ c1.fresh }

  pub deep_copy_into_api_key_config :
      ApiKeyCredentialProviderConfig k → Alloc (ApiKeyCredentialProviderConfig k)
  deep_copy_into_api_key_config x = do
    secret_ref ← k.secret_key_selector.deep_copy_into x.secret_ref
    pure (record x { secret_ref = secret_ref })

  pub deep_copy_api_key_config :
      Pointer (ApiKeyCredentialProviderConfig k)
      → Alloc (Pointer (ApiKeyCredentialProviderConfig k))
  deep_copy_api_key_config = copy_pointer deep_copy_into_api_key_config

  pub deep_copy_into_api_key_config-IsDeepCopy :
      IsDeepCopy (api_key_config_located k) deep_copy_into_api_key_config
  unfolding deep_copy_into_api_key_config
  deep_copy_into_api_key_config-IsDeepCopy x n =
      let c0 = k.secret_key_selector.deep_copy_into-IsDeepCopy x.secret_ref n in
      record { same = rw c0.same refl; fresh = c0.fresh }

  pub deep_copy_into_credential_provider_spec :
      MyceliumCredentialProviderSpec k → Alloc (MyceliumCredentialProviderSpec k)
  deep_copy_into_credential_provider_spec x = do
    oauth ← copy_pointer deep_copy_into_oauth_config x.oauth
    api_key ← copy_pointer deep_copy_into_api_key_config x.api_key
    pure (record x { oauth = oauth; api_key = api_key })

  pub deep_copy_credential_provider_spec :
      Pointer (MyceliumCredentialProviderSpec k)
      → Alloc (Pointer (MyceliumCredentialProviderSpec k))
  deep_copy_credential_provider_spec = copy_pointer deep_copy_into_credential_provider_spec

  pub deep_copy_into_credential_provider_spec-IsDeepCopy :
      IsDeepCopy (credential_provider_spec_located k) deep_copy_into_credential_provider_spec
  unfolding deep_copy_into_credential_provider_spec
  deep_copy_into_credential_provider_spec-IsDeepCopy x n =
      let c0 =
        copy_pointer-IsDeepCopy (oauth_config_located k) deep_copy_into_oauth_config
          deep_copy_into_oauth_config-IsDeepCopy x.oauth n in
      let c1 =
        copy_pointer-IsDeepCopy (api_key_config_located k) deep_copy_into_api_key_config
          deep_copy_into_api_key_config-IsDeepCopy x.api_key _ in
      record { same = rw (c0.same, c1.same) refl; fresh = CopyOf-append c0 _ _ c1.fresh }

  pub deep_copy_into_credential_provider_status :
      MyceliumCredentialProviderStatus k → Alloc (MyceliumCredentialProviderStatus k)
  deep_copy_into_credential_provider_status x = do
    base ← deep_copy_into_base k x.base
    pure (record x { base = base })

  pub deep_copy_credential_provider_status :
      Pointer (MyceliumCredentialProviderStatus k)
      → Alloc (Pointer (MyceliumCredentialProviderStatus k))
  deep_copy_credential_provider_status = copy_pointer deep_copy_into_credential_provider_status

  pub deep_copy_into_credential_provider_status-IsDeepCopy :
      IsDeepCopy (credential_provider_status_located k) deep_copy_into_credential_provider_status
  unfolding deep_copy_into_credential_provider_status
  deep_copy_into_credential_provider_status-IsDeepCopy x n =
      let c0 = deep_copy_into_base-IsDeepCopy k x.base n in
      record { same = rw c0.same refl; fresh = c0.fresh }

  pub deep_copy_into_credential_provider :
      MyceliumCredentialProvider k → Alloc (MyceliumCredentialProvider k)
  deep_copy_into_credential_provider x = do
    object_meta ← k.object_meta.deep_copy_into x.object_meta
    spec ← deep_copy_into_credential_provider_spec x.spec
    status ← deep_copy_into_credential_provider_status x.status
    pure (record x { object_meta = object_meta; spec = spec; status = status })

  -- `DeepCopy`; `DeepCopyObject` returns it as an interface, nil for nil.
  pub deep_copy_credential_provider :
      Pointer (MyceliumCredentialProvider k) → Alloc (Pointer (MyceliumCredentialProvider k))
  deep_copy_credential_provider = copy_pointer deep_copy_into_credential_provider

  pub deep_copy_into_credential_provider-IsDeepCopy :
      IsDeepCopy (credential_provider_located k) deep_copy_into_credential_provider
  unfolding deep_copy_into_credential_provider
  deep_copy_into_credential_provider-IsDeepCopy x n =
      let c0 = k.object_meta.deep_copy_into-IsDeepCopy x.object_meta n in
      let c1 = deep_copy_into_credential_provider_spec-IsDeepCopy x.spec _ in
      let c2 = deep_copy_into_credential_provider_status-IsDeepCopy x.status _ in
      record {
        same = rw (c0.same, c1.same, c2.same) refl;
        fresh = CopyOf-append c0 _ _ (CopyOf-append c1 _ _ c2.fresh);
      }

  pub deep_copy_credential_provider-IsDeepCopy :
      IsDeepCopy (pointer (credential_provider_located k)) deep_copy_credential_provider
  unfolding deep_copy_credential_provider
  deep_copy_credential_provider-IsDeepCopy =
      copy_pointer-IsDeepCopy (credential_provider_located k) deep_copy_into_credential_provider
        deep_copy_into_credential_provider-IsDeepCopy

  pub deep_copy_into_credential_provider_list :
      MyceliumCredentialProviderList k → Alloc (MyceliumCredentialProviderList k)
  deep_copy_into_credential_provider_list x = do
    list_meta ← k.list_meta.deep_copy_into x.list_meta
    items ← copy_slice deep_copy_into_credential_provider x.items
    pure (record x { list_meta = list_meta; items = items })

  -- `DeepCopy`; `DeepCopyObject` returns it as an interface, nil for nil.
  pub deep_copy_credential_provider_list :
      Pointer (MyceliumCredentialProviderList k)
      → Alloc (Pointer (MyceliumCredentialProviderList k))
  deep_copy_credential_provider_list = copy_pointer deep_copy_into_credential_provider_list

  pub deep_copy_into_credential_provider_list-IsDeepCopy :
      IsDeepCopy (credential_provider_list_located k) deep_copy_into_credential_provider_list
  unfolding deep_copy_into_credential_provider_list
  deep_copy_into_credential_provider_list-IsDeepCopy x n =
      let c0 = k.list_meta.deep_copy_into-IsDeepCopy x.list_meta n in
      let c1 =
        copy_slice-IsDeepCopy (credential_provider_located k) deep_copy_into_credential_provider
          deep_copy_into_credential_provider-IsDeepCopy x.items _ in
      record { same = rw (c0.same, c1.same) refl; fresh = CopyOf-append c0 _ _ c1.fresh }

  pub deep_copy_credential_provider_list-IsDeepCopy :
      IsDeepCopy (pointer (credential_provider_list_located k)) deep_copy_credential_provider_list
  unfolding deep_copy_credential_provider_list
  deep_copy_credential_provider_list-IsDeepCopy =
      copy_pointer-IsDeepCopy (credential_provider_list_located k)
        deep_copy_into_credential_provider_list deep_copy_into_credential_provider_list-IsDeepCopy
