-- ===== src/Configs.antt =====
-- What src/fsmjob.cc and src/baseApplication.cc both write out where they read a configuration.
use zdaq.Base.{
  ℕ, ◌==◌, none, some, [], ◌∷◌, Result, ok, or_fault, thrown, ◌>>=◌, if◌then◌else◌, u32,
}
use zdaq.Base.Memory.{Bytes}
use zdaq.Base.Text.{codes}
use zdaq.Wire.{scan_long}
use zdaq.Json.{Json, get, has, parsed}

-- `(uint32_t) atol(…)`.
abbrev pub number_of : Bytes → ℕ
number_of s = elim (scan_long s) [ none ↦ 0 | some found ↦ u32 found.0 ]

-- The text before the first `c`, and the text behind it: all of the text, twice, if there is none.
abbrev pub before : ℕ → Bytes → Bytes
before c [] = []
before c (d ∷ s) = if c == d then [] else d ∷ before c s

abbrev behind_or : ℕ → Bytes → Bytes → Bytes
behind_or c whole [] = whole
behind_or c whole (d ∷ s) = if c == d then s else behind_or c whole s

abbrev pub behind : ℕ → Bytes → Bytes
behind c s = behind_or c s s

module _ {J : Type 0} (json : Json J) where
  -- `o[k].asString()`.
  abbrev pub member_text : Bytes → J → Result Bytes
  member_text k o = do v ← get json k o; or_fault (json.as_string v) thrown

  -- A page or a downloaded file may wrap the configuration in its content.
  abbrev pub unwrapped : Bytes → Result J
  unwrapped s = do
    wrapped ← has json (codes "content") (parsed json s)
    ok (if wrapped then json.member (codes "content") (parsed json s) else parsed json s)
