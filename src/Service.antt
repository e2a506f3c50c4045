-- ===== src/Service.antt =====
-- The Windows service and the entry point of the program, service/windows_service.py and pcdiag.py. What
-- pywin32 does is left out: a status that is reported and a line of the system's log are kept in order.
use pc_diagnostic_agent.Prelude.{
  ℕ, String, Bool, true, false, Option, none, some, List, [], ◌∷◌, ◌++◌, ◌&&◌, leb, if◌then◌else◌,
  ◌≡◌, refl,
}

pub data Message : Type 0 where
  service_started service_stopped stop_pending : Message
  failed : String → Message

pub record AgentService : Type 0 where
  pub stop_event : Bool
  pub messages : List Message

-- `__init__`.
abbrev pub new_service : AgentService
new_service = record { stop_event = false; messages = [] }

-- `SvcStop`.
unfoldable pub svc_stop : AgentService → AgentService
svc_stop s = record { stop_event = true; messages = s.messages ++ Message.stop_pending ∷ [] }

-- What an exception of the agent leaves in the log.
abbrev failure : Option String → List Message
failure none = []
failure (some error) = Message.failed error ∷ []

-- `SvcDoRun`, where the agent runs until the stop event is set, or raises; `meanwhile` is what other
-- calls, as that of `SvcStop`, make of the service while it runs.
unfoldable pub svc_do_run :
    (AgentService → AgentService) → Option String → AgentService → AgentService
svc_do_run meanwhile error s =
    let ran = meanwhile (record s { messages = s.messages ++ Message.service_started ∷ [] }) in
    record ran { messages = ran.messages ++ failure error ++ Message.service_stopped ∷ [] }

-- A service that is stopped in the usual way.
svc_do_run_test :
    (svc_do_run svc_stop none new_service).messages
    ≡ Message.service_started ∷ Message.stop_pending ∷ Message.service_stopped ∷ []
unfolding svc_do_run svc_stop
svc_do_run_test = refl

-- What a start of the program does.
pub data Start : Type 0 where
  host_service handle_command_line cli : Start

-- `run_service_command_line`, by whether the program is frozen and the number of its arguments, its name
-- among them.
unfoldable pub run_service_command_line : Bool → ℕ → Start
run_service_command_line frozen arguments =
    if frozen && leb arguments 1 then Start.host_service else Start.handle_command_line

-- `main` of pcdiag.py: the exit code is 0, or that of the command line.
unfoldable pub pcdiag : Bool → ℕ → ℕ → Start × ℕ
unfolding run_service_command_line
pcdiag frozen arguments exit =
    if leb arguments 1 then (run_service_command_line frozen arguments, 0) else (Start.cli, exit)
