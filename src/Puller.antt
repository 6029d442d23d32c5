-- ===== src/Puller.antt =====
-- src/zmPuller.cc: the polling loop that a merger inherits. What ZeroMQ hands over at a socket that is
-- ready is an `Arrival`; which sockets are ready, and when, is the environment's choice.
use zdaq.Base.{
  ℕ, ◌+◌, ◌≡◌, refl, Bool, true, false, Option, none, some, List, [], ◌∷◌, ◌++◌, if◌then◌else◌, u32,
}
use zdaq.Base.Memory.{Bytes}
use zdaq.Wire.{is_registering}

-- What a message holds after `send`. The manual of `zmq_msg_send` documents that the message is
-- nullified by a successful call.
pub record Zmq : Type 0 where
  pub after_send : Bytes → Bytes
  pub nullified : (body : Bytes) → after_send body ≡ []

abbrev pub emptying : Zmq
emptying = record { after_send = λ body. []; nullified = λ body. refl }

pub record Puller : Type 0 where
  pub connect_stream : List Bytes
  pub bind_stream : List Bytes
  pub outputs : List Bytes
  pub running : Bool
  pub nregistered : ℕ

unfoldable pub make : Puller
make = record {
  connect_stream = [];
  bind_stream = [];
  outputs = [];
  running = false;
  nregistered = 0;
}

unfoldable pub add_input_stream : Bytes → Bool → Puller → Puller
add_input_stream fn server p =
    if server
    then record p { bind_stream = p.bind_stream ++ fn ∷ [] }
    else record p { connect_stream = p.connect_stream ++ fn ∷ [] }

-- The publisher is made by the first output stream.
unfoldable pub add_output_stream : Bytes → Puller → Puller
add_output_stream fn p = record p { outputs = p.outputs ++ fn ∷ [] }

abbrev pub has_publisher : Puller → Bool
has_publisher p = elim p.outputs [ [] ↦ false | fn ∷ rest ↦ true ]

unfoldable pub enable_polling : Puller → Puller
enable_polling p = record p { running = true }

unfoldable pub disable_polling : Puller → Puller
disable_polling p = record p { running = false }

-- `poll` forgets the sources that registered before it.
unfoldable pub begin_poll : Puller → Puller
begin_poll p = record p { nregistered = 0 }

-- `lost`: `s_recv` threw. `headed`: the text came, and `recv` threw. `message`: both parts came, and
-- the flag says whether a forward of them goes through.
pub data Arrival : Type 0 where
  lost : Arrival
  headed : Bytes → Arrival
  message : Bytes → Bytes → Bool → Arrival

-- What one arrival leads to: the new state, what is forwarded, and what `processData` is called with.
pub record Handled : Type 0 where
  pub puller : Puller
  pub forwarded : List (Bytes × Bytes)
  pub processed : Option (Bytes × Bytes)

unfoldable pub note_identity : Bytes → Puller → Puller
note_identity identity p =
    if is_registering identity then record p { nregistered = u32 (p.nregistered + 1) } else p

unfoldable pub handle : Zmq → Arrival → Puller → Handled
unfolding note_identity
handle q lost p = record { puller = p; forwarded = []; processed = none }
handle q (headed identity) p = record {
  puller = note_identity identity p;
  forwarded = [];
  processed = none;
}
handle q (message identity body sent) p =
    let p' = note_identity identity p in
    if has_publisher p
    then if sent
      then record {
        puller = p';
        forwarded = (identity, body) ∷ [];
        processed = if is_registering identity then none else some (identity, q.after_send body);
      }
      else record { puller = p'; forwarded = []; processed = none }
    else record {
      puller = p';
      forwarded = [];
      processed = if is_registering identity then none else some (identity, body);
    }
