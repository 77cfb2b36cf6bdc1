-- ===== src/Controller/WellKnown.antt =====
-- mycelium/pkg/wellknown/controller.go
use agentic_platform.Prelude.{String}

abbrev pub default_mycelium_controller_name : String
default_mycelium_controller_name = "mycelium.io/mycelium"

abbrev pub leader_election_id : String
leader_election_id = "mycelium-leader"
