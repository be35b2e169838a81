-- ===== src/Startup.antt =====
-- InterfaceFunction.cpp, ISingleton.h, DokeviServer::Init and Run, NetworkUtils::StaticInit and
-- CleanUp, and Connect, Bind and Listen of TCPSocket: how the program comes up and goes down. What
-- the operating system and the configuration answer are arguments. The lines of the log are results.
pub mod Release
pub mod Instance
use dokevi_network.Prelude.{
  ℕ, ◌+◌, List, [], ◌∷◌, ◌++◌, Bool, true, false, Option, none, some, Result, ok, err, ◌>>=◌, ◌>>◌,
  ◌==◌, if◌then◌else◌,
}
use dokevi_network.Log
use dokevi_network.Log.{
  LogManager, new_log_manager, Level, info, error, LogSettings, log, log_critical,
}
use dokevi_network.Packet.{Packet, PacketSelector, init_packet_selector}
use dokevi_network.Threads
use dokevi_network.Threads.{ThreadManager, task_run, wait_for_all_thread}

-- GetInstance, where `none` is the null pointer that _inst starts as.
unfoldable pub get_instance {ℓ} : {T : Type ℓ} → T → Option T → T × Option T
get_instance new inst = elim inst [ none ↦ (new, some new) | some t ↦ (t, some t) ]

-- What the managers keep that the start and the end change.
pub record Managers : Type 0 where
  pub seeded : Option ℕ
  pub config_file : List ℕ
  pub config_released : Bool
  pub log_manager : LogManager
  pub threads : ThreadManager
  pub packets : Option PacketSelector
  -- SetUnhandledExceptionFilter has been called.
  pub minidump_event : Bool

-- The answers: std::time, the calling thread, the settings, and what a new packet of a size holds.
pub record Setup : Type 0 where
  pub time : ℕ
  pub thread_id : ℕ
  pub log_settings : LogSettings
  pub use_minidump : ℕ
  pub fresh : ℕ → Packet

-- The Initialize of LogManager logs before it is initialised; those of ThreadManager, LockStackTracer
-- and StackTracer log a line each.
unfoldable pub initialize_managers : Setup → List ℕ → Managers → Managers × List Level
initialize_managers a info_ini s =
    let logger = Log.initialize a.log_settings s.log_manager in
    (
      record {
        seeded = some a.time;
        config_file = info_ini;
        config_released = s.config_released;
        log_manager = logger;
        threads = Threads.initialize a.thread_id s.threads;
        packets = some (init_packet_selector a.fresh);
        minidump_event = if a.use_minidump == 0 then s.minidump_event else true;
      },
      log s.log_manager info ++ log logger info ++ log logger info ++ log logger info,
    )

-- The Finalize of StackTracer and LockStackTracer does nothing.
unfoldable pub release_managers : Managers → Result (Managers × List Level)
release_managers s = do
  waited ← wait_for_all_thread s.threads
  ended ← Threads.finalize waited
  ok (record s { threads = ended; config_released = true }, log s.log_manager info)

-- DokeviServer::Init, for the handle of CreateIoCompletionPort: _shutDown, _iocpHandle.
unfoldable pub init : LogManager → Option ℕ → Result (Bool × Option ℕ)
init log handle = elim handle [
  | none ↦ log_critical log >> ok (false, none)
  | some h ↦ ok (false, some h)
]

-- DokeviServer::Run, for the addresses of the thread objects that it makes. `ends` says whether
-- ThreadTask returns in them: its loop goes on until _shutDown, which nothing in the source sets.
unfoldable pub run_all : Bool → List ℕ → ThreadManager → ThreadManager
run_all ends [] s = s
run_all ends (address ∷ addresses) s = run_all ends addresses (task_run ends address s)

unfoldable pub run : Bool → List ℕ → Managers → Managers × List Level
run ends addresses s =
    (record s { threads = run_all ends addresses s.threads }, log s.log_manager info)

-- For the result of WSAStartup.
unfoldable pub static_init : LogManager → ℕ → Result Bool
static_init log answer = if answer == 0 then ok true else log_critical log >> ok false

-- A call of Winsock: it succeeds, or fails with what WSAGetLastError then gives.
pub data Answer : Type 0 where
  fine : Answer
  socket_error : (last_error : ℕ) → Answer

-- NO_ERROR, or a line and the error.
unfoldable pub report : LogManager → Answer → ℕ × List Level
report log_manager fine = (0, [])
report log_manager (socket_error e) = (e, log log_manager error)

abbrev pub connect : LogManager → Answer → ℕ × List Level
connect = report

abbrev pub bind : LogManager → Answer → ℕ × List Level
bind = report

-- For the answers of setsockopt, which is only called with `use_iocp`, and of listen.
unfoldable pub listen : LogManager → Bool → Answer → Answer → ℕ × List Level
listen log_manager true (socket_error e) answer = report log_manager (socket_error e)
listen log_manager true fine answer = report log_manager answer
listen log_manager false option answer = report log_manager answer
