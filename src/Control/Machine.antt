-- ===== src/Control/Machine.antt =====
-- What the control commands (src/rss_ctrl_cmds.c) read and change: the configuration, the operating
-- system, the logger and the flags of the daemon.
use raptor_common.Base.Int.{ℤ}
use raptor_common.Base.{ℕ, Bool, Option, Bytes}
use raptor_common.Config.Types.{Config}
use raptor_common.Daemon.{Flags}
use raptor_common.Log.{Log}

-- The result of sched_getaffinity: the text of the error, or the set.
pub data Affinity : Type 0 where
  no_affinity : Bytes → Affinity
  allowed : (ℕ → Bool) → Affinity

pub data Policy : Type 0 where
  sched_fifo sched_rr sched_other : Policy

-- sysconf(_SC_NPROCESSORS_ONLN) and the scheduling calls for the process itself; the result of
-- sched_setaffinity is the text of the error, if there is one.
pub record Scheduler (State : Type 0) : Type 0 where
  pub num_cpus : ℤ
  pub sched_setaffinity : ℕ → State → Option Bytes × State
  pub sched_getaffinity : State → Affinity
  pub policy : State → Policy
  pub priority : State → ℤ

pub record Machine (State : Type 0) : Type 0 where
  pub config : Config
  pub os : State
  pub log : Log
  pub flags : Flags
