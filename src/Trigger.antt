-- ===== src/Trigger.antt =====
-- example/src/softTrigger.cxx: the application that publishes triggers. A trigger is a number of events
-- from `event` on. The servers that it asks are given by the event numbers that they report.
pub mod Halted
use zdaq.Base.{
  ℕ, suc, ◌+◌, ◌*◌, ◌-◌, ◌%◌, ◌^◌, Bool, true, false, not, ◌||◌, ◌&&◌, ltb, ◌==◌, if◌then◌else◌,
  none, some, List, [], ◌∷◌, ◌++◌, Result, ok, err, ◌>>=◌, or_fault, thrown, indeterminate, u32,
}
use zdaq.Base.Memory.{Bytes}
use zdaq.Base.Text.{codes}
use zdaq.Json.{Json, get, has}
use zdaq.Configs.{number_of, member_text}
use zdaq.Fsm.{Message}
use zdaq.Fsm.Messages.{content}
use zdaq.Web.{Request, param}
use zdaq.Application.{App}
use zdaq.Collector.{taken_over}
use zdaq.Monitor
use zdaq.Monitor.{Publisher}

-- `_triggerPublisher`: NULL, made, or deleted.
pub data Held : Type 0 where
  absent : Held
  live : Publisher → Held
  deleted : Held

pub record Trigger (J : Type 0) : Type 0 where
  pub app : App J
  pub running : Bool
  pub paused : Bool
  pub throttled : Bool
  pub event : ℕ
  pub bx : ℕ
  pub microsleep : ℕ
  pub datasize : ℕ
  pub ntrg : ℕ
  pub port : ℕ
  pub hardware : Bytes
  pub location : Bytes
  pub publisher : Held

module _ {J : Type 0} (json : Json J) where
  abbrev pub number_at : Bytes → J → Result ℕ
  number_at k o = or_fault (json.as_uint (json.member k o)) thrown

  abbrev pub text_or : Bytes → J → Bytes → Result Bytes
  text_or k o fallback = do
    given ← has json k o
    if given then member_text json k o else ok fallback

  -- A publisher is made only where there was none.
  abbrev pub held_by : Bytes → Bytes → Held → Held
  held_by hardware location absent = live (record { hardware = hardware; location = location })
  held_by hardware location (live p) = live p
  held_by hardware location deleted = deleted

  -- `findClients` is left out.
  unfoldable pub set_up : J → Trigger J → Result (Trigger J)
  set_up p t = do
    microsleep ← number_at (codes "microsleep") p
    port ← number_at (codes "tcpPort") p
    datasize ← number_at (codes "datasize") p
    ntrg ← number_at (codes "ntrg") p
    location ← text_or (codes "location") p t.location
    hardware ← text_or (codes "hardware") p t.hardware
    ok (record t {
      microsleep = microsleep;
      port = port;
      datasize = datasize;
      ntrg = ntrg;
      location = location;
      hardware = hardware;
      publisher = held_by hardware location t.publisher;
    })

  -- All four parameters are there.
  abbrev pub are_given : J → Result Bool
  are_given p = do
    a ← has json (codes "microsleep") p
    b ← has json (codes "tcpPort") p
    c ← has json (codes "datasize") p
    d ← has json (codes "ntrg") p
    ok (a && b && c && d)

  unfoldable pub configure : Message J → Trigger J → Result (Message J × Trigger J)
  configure m t = do
    jc ← content json m
    p₁ ← taken_over json (codes "microsleep") jc t.app.param
    p₂ ← taken_over json (codes "datasize") jc p₁
    p₃ ← taken_over json (codes "tcpPort") jc p₂
    p₄ ← taken_over json (codes "ntrg") jc p₃
    let t' : Trigger J = record t { app = record t.app { param = p₄ } }
    given ← are_given p₄
    if given then (do t'' ← set_up p₄ t'; ok (m, t'')) else ok (m, t')

  unfoldable pub status : Trigger J → J
  status t =
      let a = json.put (codes "event") (json.number t.event) json.null in
      let b = json.put (codes "bxid") (json.number t.bx) a in
      let c = json.put (codes "size") (json.number t.datasize) b in
      let d = json.put (codes "period") (json.number t.microsleep) c in
      json.put (codes "ntrg") (json.number t.ntrg) d

  -- `(_event-(ns-ns0))>2*_ntrg`, on 32 bits, for one of the sources.
  abbrev pub lags : ℕ → Trigger J → ℕ → Bool
  lags ns0 t ns =
      ltb (2 * t.ntrg % 2 ^ 32) ((t.event + (2 ^ 32 - (ns + (2 ^ 32 - ns0)) % 2 ^ 32)) % 2 ^ 32)

  unfoldable pub any_lags : ℕ → Trigger J → List ℕ → Bool
  any_lags ns0 t [] = false
  any_lags ns0 t (ns ∷ rest) = lags ns0 t ns || any_lags ns0 t rest

  abbrev pub advanced : Trigger J → Trigger J
  advanced t = record t { event = u32 (t.event + t.ntrg); bx = (t.bx + t.ntrg) % 2 ^ 64 }

  -- What `post` is called on. A deleted publisher is used all the same.
  abbrev pub posted : ℕ → Trigger J → Held → Result (List (Bytes × Bytes))
  posted time t absent = err indeterminate
  posted time t (live p) = ok (Monitor.post json time (status t) p ∷ [])
  posted time t deleted = err indeterminate

  -- One round of `publishingThread`: `reported` is what the servers answer, `time` the clock.
  unfoldable pub round : ℕ → List ℕ → ℕ → Trigger J → Result (Trigger J × List (Bytes × Bytes))
  round ns0 reported time t =
      if not t.running || (any_lags ns0 t reported || (t.paused || t.throttled))
      then ok (t, [])
      else (do out ← posted time t t.publisher; ok (advanced t, out))

  -- `start`, and `_event=0` with which the thread begins.
  unfoldable pub start : Message J → Trigger J → Result (Message J × Trigger J)
  start m t = ok (m, record t { event = 0; running = true; paused = false; throttled = false })

  abbrev pub stopped : Trigger J → Trigger J
  stopped t = record t { running = false; paused = true }

  unfoldable pub stop : Message J → Trigger J → Result (Message J × Trigger J)
  stop m t = ok (m, stopped t)

  -- Deleting twice is undefined.
  abbrev pub freed : Held → Result Held
  freed absent = ok absent
  freed (live p) = ok deleted
  freed deleted = err indeterminate

  unfoldable pub halt : Message J → Trigger J → Result (Message J × Trigger J)
  halt m t = do
    let t' = if t.running then stopped t else t
    publisher ← freed t'.publisher
    ok (m, record t' { bx = 0; publisher = publisher })

  abbrev pub told : Trigger J → J × Trigger J
  told t = (json.put (codes "answer") (status t) json.null, t)

  unfoldable pub c_status : Request → Trigger J → J × Trigger J
  c_status request t = told t

  unfoldable pub c_period : Request → Trigger J → J × Trigger J
  c_period request t =
      told (record t { microsleep = number_of (param request (codes "value") (codes "1000000")) })

  unfoldable pub c_size : Request → Trigger J → J × Trigger J
  c_size request t =
      told (record t { datasize = number_of (param request (codes "value") (codes "32")) })

  unfoldable pub c_ntrg : Request → Trigger J → J × Trigger J
  c_ntrg request t =
      told (record t { ntrg = number_of (param request (codes "value") (codes "100")) })

  unfoldable pub c_pause : Request → Trigger J → J × Trigger J
  c_pause request t =
      told (record t { paused = number_of (param request (codes "value") (codes "1")) == 1 })
