-- ===== src/Job/Status.antt =====
-- fsmjob.cc, `jsonStatus`: the processes as JSON.
use zdaq.Base.{ℕ, List, [], ◌∷◌, Result, ok, ◌>>=◌, or_fault, thrown, if◌then◌else◌}
use zdaq.Base.Memory.{Bytes}
use zdaq.Base.Text.{codes, bytes_eq, first_chars, chars_from}
use zdaq.Base.Map.{Map}
use zdaq.Json.{Json, get, assign}
use zdaq.Job.{World, Process, Job}

module _ {J : Type 0} (json : Json J) where
  -- The port is the one of the last variable that gives one.
  unfoldable pub port_from : List J → J → Result J
  port_from [] pinf = ok pinf
  port_from (v ∷ vs) pinf = do
    svar ← or_fault (json.as_string v) thrown
    pinf' ←
        if bytes_eq (first_chars 7 svar) (codes "WEBPORT")
        then (do port ← chars_from 8 svar; assign json (codes "PORT") (json.text port) pinf)
        else ok pinf
    port_from vs pinf'

  unfoldable pub process_status : World → Bytes → ℕ → Process J → Result J
  process_status world hostname pid p = do
    let a = json.put (codes "HOST") (json.text hostname) json.null
    let b = json.put (codes "PID") (json.number pid) a
    name ← get json (codes "NAME") p.info
    let c = json.put (codes "NAME") name b
    let d = json.put (codes "STATUS") (json.text (world.proc_status pid)) c
    env ← get json (codes "ENV") p.info
    port_from (json.elements env) d

  unfoldable pub status_from : World → Bytes → Map ℕ (Process J) → J → Result J
  status_from world hostname [] array = ok array
  status_from world hostname ((pid, p) ∷ rest) array = do
    pinf ← process_status world hostname pid p
    status_from world hostname rest (json.append pinf array)

  unfoldable pub json_status : World → Job J → Result J
  json_status world job = status_from world job.hostname job.processes json.null
