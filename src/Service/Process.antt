-- ===== src/Service/Process.antt =====
-- `wmain` of apps/host_agent/src/main.cpp up to the service, and `ConsoleCtrlHandler`. What is printed is left
-- out.
use capacity_agent.Base.{ℕ, Bool, true, false, Option, List, [], Text, if◌then◌else◌}
use capacity_agent.Base.Int.{ℤ}
use capacity_agent.CommandLine.{
  ServiceConfig, Outcome, start, usage, missing_value, unknown_argument, exception, read_arguments,
}
use capacity_agent.Service.Lifecycle.{Act, service_stop, end_of_run}

-- What comes of the arguments: a result of `wmain`, `std::terminate`, or a service with these settings.
pub data Exit : Type 0 where
  result : ℕ → Exit
  terminated : Exit
  service : ServiceConfig → Exit

-- An event of the console, by its name in windows.h; `other_event` is any that the handler does not name.
pub data CtrlType : Type 0 where
  ctrl_c_event ctrl_break_event ctrl_close_event other_event : CtrlType

-- `ConsoleCtrlHandler`: its result and what it does, where `g_service` points to a service or not.
unfoldable pub console_ctrl_handler : CtrlType → Bool → Bool × List Act
console_ctrl_handler other_event g_service = (false, [])
console_ctrl_handler ctrl_c_event g_service = (true, if g_service then service_stop else [])
console_ctrl_handler ctrl_break_event g_service = (true, if g_service then service_stop else [])
console_ctrl_handler ctrl_close_event g_service = (true, if g_service then service_stop else [])

-- An exception that leaves `wmain` ends the process.
abbrev pub finish_arguments : Outcome → Exit
finish_arguments (start config) = service config
finish_arguments usage = result 0
finish_arguments (missing_value arg) = result 1
finish_arguments (unknown_argument arg) = result 1
finish_arguments exception = terminated

unfoldable pub wmain : (Text → Option Text) → (Text → Option ℤ) → List Text → Exit
unfolding read_arguments
wmain convert stoi arguments = finish_arguments (read_arguments convert stoi arguments)

-- `Service::Run`, with the answer of `EnsureSchema`: its result, and what it does behind the start.
abbrev pub run_service : Bool → Bool × List Act
run_service true = (true, end_of_run)
run_service false = (false, [])

-- The result of `wmain` from that of `Run`.
abbrev pub result_of_run : Bool → Exit
result_of_run ran = result (if ran then 0 else 1)
