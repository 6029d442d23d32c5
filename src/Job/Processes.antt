-- ===== src/Job/Processes.antt =====
-- fsmjob.cc: `processData`, `startProcess` and `killProcess`.
use zdaq.Base.{ℕ, suc, List, [], ◌∷◌, none, some, Result, ok, ◌>>=◌, or_fault, thrown}
use zdaq.Base.Memory.{Bytes}
use zdaq.Base.Order.{nat_ord}
use zdaq.Base.Text.{codes}
use zdaq.Base.Map
use zdaq.Base.Map.{Map}
use zdaq.Json.{Json, get, parsed}
use zdaq.Configs.{member_text}
use zdaq.Job.{World, not_created, running, killed, Process, Job}

module _ {J : Type 0} (json : Json J) where
  unfoldable pub make_process : Bytes → Process J
  make_process s = record { info = parsed json s; pid = 0; status = not_created; string = s }

  unfoldable pub texts : List J → Result (List Bytes)
  texts [] = ok []
  texts (v ∷ vs) = do s ← or_fault (json.as_string v) thrown; rest ← texts vs; ok (s ∷ rest)

  abbrev pub member_texts : Bytes → J → Result (List Bytes)
  member_texts k o = do v ← get json k o; texts (json.elements v)

  -- What is read of the process before the fork.
  abbrev pub described : J → Result (Bytes × Bytes × List Bytes × List Bytes)
  described o = do
    program ← member_text json (codes "PROGRAM") o
    name ← member_text json (codes "NAME") o
    arguments ← member_texts (codes "ARGS") o
    environment ← member_texts (codes "ENV") o
    ok (program, name, arguments, environment)

  -- The parent's side, where a fork that fails counts as one that succeeded.
  unfoldable pub start_process : World → Process J → Job J → Result (Process J × Job J)
  start_process world p job = elim p.status [
    | not_created ↦ do
      (program, name, arguments, environment) ← described p.info
      ok (
        record p { pid = world.forked job.forks; status = running },
        record job { forks = suc job.forks },
      )
    | running ↦ ok (p, job)
    | killed ↦ ok (p, job)
  ]

  -- Start a process and note it under its number; a note that is there already stays.
  unfoldable pub launch : World → Bytes → Job J → Result (Job J)
  launch world s job = do
    (p, job₁) ← start_process world (make_process s) job
    ok (record job₁ { processes = Map.insert p.pid p job₁.processes })

module _ {J : Type 0} where
  -- The entry whose process is running under the number is sent the signal and forgotten.
  unfoldable pub kill_process : ℕ → ℕ → Job J → Job J
  kill_process pid sig job = elim (Map.find pid job.processes) [
    | none ↦ job
    | some p ↦ elim p.status [
      | running ↦ record job {
        processes = Map.erase pid job.processes;
        signals = (pid, sig) ∷ job.signals;
      }
      | not_created ↦ job
      | killed ↦ job
    ]
  ]
