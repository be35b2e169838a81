-- ===== src/Log.antt =====
-- LogManager.cpp and LogManager.h. The logger itself is the vendored spdlog: here a line that is
-- handed to it is its level, and the sinks that spdlog builds are arguments.
-- `_ASSERT` is a no-op in a release build, which is what is modelled everywhere.
use dokevi_network.Prelude.{
  ℕ, List, [], ◌∷◌, Bool, true, false, not, Result, ok, err, crash, ◌==◌, if◌then◌else◌, ◌≡◌, ◌↔◌,
  arith,
}

pub data Level : Type 0 where
  trace debug info warn error critical : Level

pub record LogManager : Type 0 where
  pub is_init : Bool
  pub use_spdlog : Bool

-- The members' initialisers.
abbrev pub new_log_manager : LogManager
new_log_manager = record { is_init = false; use_spdlog = false }

-- LOG_TRACE to LOG_ERROR: the lines that reach the logger.
unfoldable pub log : LogManager → Level → List Level
log m level = if not m.is_init then [] else if not m.use_spdlog then [] else level ∷ []

-- LOG_CRITICAL: behind the line stands a division by zero, which ends the program.
unfoldable pub log_critical : LogManager → Result (Unit {0})
log_critical m = if not m.is_init then ok tt else if not m.use_spdlog then ok tt else err crash

-- What Initialize reads from the configuration, and whether building the sinks throws.
pub record LogSettings : Type 0 where
  pub enable_daily_log : ℕ
  pub use_log : ℕ
  pub sinks_throw : Bool

-- With an exception the rest of the `try` block is left out.
unfoldable pub initialize : LogSettings → LogManager → LogManager
initialize s m =
    let configured =
      if s.sinks_throw then m else if s.use_log == 0 then record m { use_spdlog = true } else m in
    record configured { is_init = true }

-- Initialize turns logging on exactly when building the sinks does not throw and `UseLog` is 0.
pub log-initialize_iff :
    (s : LogSettings) (level : Level)
    → (log (initialize s new_log_manager) level ≡ level ∷ [])
      ↔ ((s.use_log ≡ 0) × (s.sinks_throw ≡ false))
unfolding log initialize
log-initialize_iff s level = ground arith
