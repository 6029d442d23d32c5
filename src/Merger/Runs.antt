-- ===== src/Merger/Runs.antt =====
-- A merger over time: the messages that arrive and the calls of the application, in any order.
use zdaq.Base.{
  ℕ, ◌≡◌, refl, ap, ◌∙◌, sym, subst, Bool, true, false, not, ◌&&◌, ◌||◌, List, [], arith, ok, err,
  Fault, Result-cases, inl, inr,
}
use zdaq.Base.Map.{Map}
use zdaq.Base.Memory.{Bytes}
use zdaq.Zlib.{Zlib}
use zdaq.Puller.{Zmq, Arrival}
use zdaq.Processor.{Processor}
use zdaq.Merger
use zdaq.Merger.{Merger}
use zdaq.Merger.Data.{poll_step}
use zdaq.Merger.Events.{Events}
use zdaq.Merger.Invariant.{IsWell, is_processed, poll_step-IsWell}

module _ {J P : Type 0} (ops : Processor J P) (z : Zlib) (q : Zmq) where
  -- A message whose processing throws ends the thread that polls, and the program with it.
  pub data Step (m m' : Merger P) : Type 0 where
    arrive :
        (a : Arrival) (out : List (Bytes × Bytes))
        → poll_step ops z q a m ≡ ok (m', out)
        → Step m m'
    polls : m' ≡ Merger.scan_memory ops m → Step m m'
    starts : (nr : ℕ) → m' ≡ Merger.start ops nr m → Step m m'
    stops : m' ≡ Merger.stop ops m → Step m m'
    loads : (params : J) → Merger.load_parameters ops params m ≡ ok m' → Step m m'
    -- The plugins before the one that throws have their parameters.
    loading_throws :
        (params : J) (ps : Map Bytes P) {e : Fault}
        → Merger.load_parameters ops params m ≡ err e
        → m' ≡ record m { processors = ps }
        → Step m m'
    asks_header : m' ≡ Merger.process_run_header m → Step m m'
    sets_header : (n : ℕ) → m' ≡ Merger.set_run_header_event n m → Step m m'
    registers : (name : Bytes) (p : P) → m' ≡ Merger.register_processor name p m → Step m m'
    unregisters : (name : Bytes) → m' ≡ Merger.unregister_processor name m → Step m m'
    adds_source : (url : Bytes) → m' ≡ Merger.register_data_source url m → Step m m'
    clears : m' ≡ Merger.clear m → Step m m'
    sets_number : (k : ℕ) → m' ≡ Merger.set_number_of_data_source k m → Step m m'
    sets_purge : (on : Bool) → m' ≡ Merger.set_purge on m → Step m m'

  -- Whether the merger is settled: the number of sources was not set, and purging not switched on,
  -- since the last message that was processed or, if later, the last start or clear.
  unfoldable pub settles : {m m' : Merger P} → Step m m' → Bool → Bool
  settles {m} (arrive a out e) settled = is_processed ops q a m || settled
  settles (polls e) settled = settled
  settles (starts nr e) settled = true
  settles (stops e) settled = settled
  settles (loads params e) settled = settled
  settles (loading_throws params ps h e) settled = settled
  settles (asks_header e) settled = settled
  settles (sets_header n e) settled = settled
  settles (registers name p e) settled = settled
  settles (unregisters name e) settled = settled
  settles (adds_source url e) settled = settled
  settles (clears e) settled = true
  settles (sets_number k e) settled = false
  settles (sets_purge on e) settled = not on && settled

  -- From the constructor on.
  pub data Reach : Bool → Merger P → Type 0 where
    here : Reach true Merger.make
    next :
        {settled : Bool} {m m' : Merger P}
        → Reach settled m
        → (s : Step m m') → Reach (settles s settled) m'

  -- What the invariant is about.
  abbrev watched : Merger P → Events × ℕ × Bool
  watched m = (m.events, m.difs, m.purge)

  watched-IsWell :
      {settled : Bool} (m : Merger P) {m' : Merger P}
      → watched m' ≡ watched m
      → IsWell settled m
      → IsWell settled m'
  watched-IsWell m e w = record {
    sorted = rw (ap (λ v. v.0) e) w.sorted;
    small = rw (ap (λ v. v.0) e) w.small;
    none_full = λ s. rw (ap (λ v. v.0) e, ap (λ v. v.1) e) (w.none_full s);
    bounded = λ s on. rw (ap (λ v. v.0) e) (w.bounded s (sym (ap (λ v. v.2) e) ∙ on));
  }

  empty_IsWell : {settled : Bool} (m : Merger P) → m.events ≡ [] → IsWell settled m
  empty_IsWell m none_left = record {
    sorted = rw none_left tt;
    small = rw none_left tt;
    none_full = λ _. rw none_left tt;
    bounded = λ _ on. rw none_left (omega arith);
  }

  set_number_IsWell :
      (k : ℕ) {settled : Bool} (m : Merger P)
      → IsWell settled m
      → IsWell false (record m { difs = k })
  set_number_IsWell k m w = record {
    sorted = w.sorted;
    small = w.small;
    none_full = λ s. absurd (cc s);
    bounded = λ s on. absurd (cc s);
  }

  set_purge_IsWell :
      (on settled : Bool) (m : Merger P)
      → IsWell settled m
      → IsWell (not on && settled) (record m { purge = on })
  set_purge_IsWell true settled m w = record {
    sorted = w.sorted;
    small = w.small;
    none_full = λ s. absurd (cc s);
    bounded = λ s on. absurd (cc s);
  }
  set_purge_IsWell false settled m w = record {
    sorted = w.sorted;
    small = w.small;
    none_full = w.none_full;
    bounded = λ s on. absurd (cc on);
  }

  Step-IsWell :
      {m m' : Merger P} (s : Step m m') (settled : Bool)
      → IsWell settled m
      → IsWell (settles s settled) m'
  unfolding settles Merger.scan_memory Merger.start Merger.stop Merger.load_parameters
      Merger.process_run_header Merger.set_run_header_event Merger.register_processor
      Merger.unregister_processor Merger.register_data_source Merger.clear
      Merger.set_number_of_data_source Merger.set_purge
  Step-IsWell {m} (arrive a out h) settled w = poll_step-IsWell ops z q settled a m w h
  Step-IsWell {m} (polls e) settled w = watched-IsWell m (ap watched e) w
  Step-IsWell {m} {m'} (starts nr e) settled w = empty_IsWell m' (ap (λ n. n.events) e)
  Step-IsWell {m} (stops e) settled w = watched-IsWell m (ap watched e) w
  Step-IsWell {m} {m'} (loads params e) settled w =
      elim (Result-cases (Merger.load_each ops params m.processors)) [
        | inr (e', bad) ↦ absurd (cc (rw (bad, Merger.load_parameters) at e))
        | inl (ps, done) ↦
            let loaded : record m { processors = ps } ≡ m' =
              cc (rw (done, Merger.load_parameters) at e) in
            watched-IsWell m (ap watched (sym loaded)) w
      ]
  Step-IsWell {m} (loading_throws params ps h e) settled w = watched-IsWell m (ap watched e) w
  Step-IsWell {m} (asks_header e) settled w = watched-IsWell m (ap watched e) w
  Step-IsWell {m} (sets_header n e) settled w = watched-IsWell m (ap watched e) w
  Step-IsWell {m} (registers name p e) settled w = watched-IsWell m (ap watched e) w
  Step-IsWell {m} (unregisters name e) settled w = watched-IsWell m (ap watched e) w
  Step-IsWell {m} (adds_source url e) settled w = watched-IsWell m (ap watched e) w
  Step-IsWell {m} {m'} (clears e) settled w = empty_IsWell m' (ap (λ n. n.events) e)
  Step-IsWell {m} (sets_number k e) settled w =
      subst (IsWell false) (sym e) (set_number_IsWell k m w)
  Step-IsWell {m} (sets_purge on e) settled w =
      subst (IsWell (not on && settled)) (sym e) (set_purge_IsWell on settled m w)

  -- In every state that a merger can reach, the event map is in order and its numbers are 32 bits
  -- wide. It holds no complete event, and no more than 200 events while purging is on, unless the
  -- number of sources was set or purging switched on since the last message that was processed or, if
  -- later, the last start or clear.
  pub Reach-IsWell : {settled : Bool} {m : Merger P} → Reach settled m → IsWell settled m
  unfolding Merger.make
  Reach-IsWell here = empty_IsWell Merger.make refl
  Reach-IsWell (next {settled} r s) = Step-IsWell s settled (Reach-IsWell r)
