-- ===== src/Fsm/Runs.antt =====
-- A machine over time: commands, and steps of its object that no command makes.
use zdaq.Base.{◌≡◌, ok}
use zdaq.Base.Memory.{Bytes}
use zdaq.Json.{Json}
use zdaq.Fsm.{Message, Fsm}
use zdaq.Fsm.Commands.{process_command}
use zdaq.Fsm.Invariants.{AllSound, process_command-IsGood}

module _ {J W : Type 0} (json : Json J) (Other : W → W → Type 0) where
  pub data Run (f : Fsm J W) (w : W) : Fsm J W → W → Type 0 where
    here : Run f w f w
    commands :
        {f' f'' : Fsm J W} {w' w'' : W} (m m' : Message J) (r : Bytes)
        → Run f w f' w'
        → process_command json m f' w' ≡ ok (r, m', f'', w'')
        → Run f w f'' w''
    moves : {f' : Fsm J W} {w' w'' : W} → Run f w f' w' → Other w' w'' → Run f w f' w''

  -- What sound transitions keep, and the other steps in any state, is kept by a run.
  pub Run-Inv :
      (Inv : Bytes → W → Type 0) {f : Fsm J W} {w : W} {f' : Fsm J W} {w' : W}
      → ((s : Bytes) (v v' : W) → Inv s v → Other v v' → Inv s v')
      → AllSound json Inv f
      → Inv f.state w
      → Run f w f' w'
      → AllSound json Inv f' × Inv f'.state w'
  Run-Inv Inv keeps sound i here = (sound, i)
  Run-Inv Inv keeps sound i (commands {f'} {f''} {w'} {w''} m m' r run h) =
      let (sound', i') = Run-Inv Inv keeps sound i run in
      process_command-IsGood json Inv m f' w' sound' i' h
  Run-Inv Inv keeps sound i (moves {f'} run step) =
      let (sound', i') = Run-Inv Inv keeps sound i run in (sound', keeps f'.state _ _ i' step)
