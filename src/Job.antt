-- ===== src/Job.antt =====
-- src/fsmjob.cc: the job control that runs on every computer. It starts the processes of its part of a
-- configuration and kills them. The operating system and the network are given, as `World`.
pub mod Processes
pub mod Status
pub mod Handlers
pub mod Requests
pub mod Machine
pub mod Idle
pub mod Keeping
pub mod Sound
pub mod Requested
pub mod Thrown
pub mod Interrupted
pub mod Reach
use zdaq.Base.{ℕ, Bool, Option, List, [], ◌≡◌}
use zdaq.Base.Memory.{Bytes}
use zdaq.Base.Map.{Map}

-- `forked` is what the n-th `fork` returns to the parent, the bit pattern of a pid_t that is not 0.
-- `is_local` is `checkIP`; `file_text` and `page_text` are what a file and a page hold, the latter
-- with a login; `download` is the file that `mgjob` leaves for a name and a version; `proc_status` is
-- `processStatus`; `log` is what a log file holds, if it can be opened, and `stack` what stands in an
-- array of so many bytes that nobody has written.
pub record World : Type 0 where
  pub forked : ℕ → ℕ
  pub is_local : Bytes → Bool
  pub file_text : Bytes → Bytes
  pub page_text : Bytes → Bytes → Bytes
  pub download : Bytes → Bytes → Bytes
  pub proc_status : ℕ → Bytes
  pub log : Bytes → Option Bytes
  pub stack : ℕ → Bytes

pub data JobStatus : Type 0 where
  not_created running killed : JobStatus

-- `processData`.
pub record Process (J : Type 0) : Type 0 where
  pub info : J
  pub pid : ℕ
  pub status : JobStatus
  pub string : Bytes

-- `signals` is what was sent, the latest first, and `forks` how often the job has forked.
pub record Job (J : Type 0) : Type 0 where
  pub file : J
  pub conf : J
  pub config : J
  pub hostname : Bytes
  pub login : Bytes
  pub processes : Map ℕ (Process J)
  pub forks : ℕ
  pub signals : List (ℕ × ℕ)
