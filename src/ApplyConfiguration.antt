-- ===== src/ApplyConfiguration.antt =====
-- mycelium/internal/applyconfiguration: the builders that applyconfiguration-gen wrote for the types
-- of agentgateway, and the table from kinds to them.
pub mod Maps
pub mod Appends
pub mod Json
pub mod Builder
pub mod Foreign
pub mod Agentgateway
pub mod Root
pub mod Kinds
pub mod Sent
pub mod Parser
use agentic_platform.Prelude.{String}

-- How a method ends that may panic: with its receiver, and the panic's text where there is one.
pub data Outcome (A : Type 0) : Type 0 where
  returned : A → Outcome A
  panicked : String → A → Outcome A

abbrev pub map_outcome : {A B : Type 0} → (A → B) → Outcome A → Outcome B
map_outcome f (returned a) = returned (f a)
map_outcome f (panicked e a) = panicked e (f a)

abbrev pub and_then : {A : Type 0} → Outcome A → (A → Outcome A) → Outcome A
and_then (returned a) f = f a
and_then (panicked e a) f = panicked e a
