-- ===== src/Monitor/RoundTrip.antt =====
-- src/zPublisher.cc, `post`, against src/zSubscriber.cc, `processData`.
use zdaq.Base.{
  ℕ, zero, suc, ◌+◌, ◌/◌, ◌%◌, ◌<◌, ◌^◌, ◌≡◌, ◌≢◌, refl, ap, ◌∙◌, sym, Bool-cases, inl, inr, [],
  ◌∷◌, ◌++◌, ltb, ok, err, overrun, arith, All, some,
}
use mathlib.Core.List.{append-nil}
use zdaq.Base.Memory.{Bytes}
use zdaq.Base.Text.{codes, decimal, digits}
use zdaq.Wire.{scan_long}
use zdaq.Wire.RoundTrip.{scan_long-decimal}
use zdaq.Json.{Json}
use zdaq.Monitor.{Publisher, Item, split, post, process_data, head_text, time_in, status_in}

abbrev pub IsPlain : Bytes → Type 0
IsPlain s = All (λ c. c ≢ b'@') s

split_one : (s : Bytes) → IsPlain s → split s ≡ s ∷ []
unfolding split
split_one [] plain = refl
split_one (c ∷ s) plain = ground (arith, split_one s plain.1, plain.0)

split-append : (s rest : Bytes) → IsPlain s → split (s ++ b'@' ∷ rest) ≡ s ∷ split rest
unfolding split
split-append [] rest plain = refl
split-append (c ∷ s) rest plain = ground (arith, split-append s rest plain.1, plain.0)

digits-IsPlain : (f n : ℕ) (out : Bytes) → IsPlain out → IsPlain (digits f n out)
unfolding digits
digits-IsPlain zero n out plain = plain
digits-IsPlain (suc f) n out plain = elim (Bool-cases (ltb n 10)) [
  | inl small ↦ rw (small, digits) (ground (arith, small), plain)
  | inr large ↦
      rw (large, digits) (digits-IsPlain f (n / 10) ((b'0' + n % 10) ∷ out) (omega arith, plain))
]

decimal-IsPlain : (n : ℕ) → IsPlain (decimal n)
unfolding decimal
decimal-IsPlain n = digits-IsPlain (suc n) n [] tt

split-head_text :
    (t : ℕ) (p : Publisher)
    → IsPlain p.hardware
    → IsPlain p.location
    → split (head_text t p) ≡ p.hardware ∷ p.location ∷ decimal t ∷ []
split-head_text t p hardware location =
    rw
      (
        split-append p.hardware (p.location ++ (b'@' ∷ decimal t)) hardware,
        split-append p.location (decimal t) location,
        split_one (decimal t) (decimal-IsPlain t),
      )
      refl

time_in-decimal : (before t : ℕ) → t < 2 ^ 63 → time_in before (decimal t) ≡ t
time_in-decimal before t fits =
    let read : scan_long (decimal t) ≡ some (t, []) =
      ap scan_long (sym (append-nil (decimal t))) ∙ scan_long-decimal t [] fits tt in
    rw (read, time_in) refl

-- A subscriber takes from a message what the publisher was made with, the status that was posted and
-- the time of the clock, whatever its item held before, as long as the name of the hardware and of the
-- location hold no '@' and the time is no negative number of 64 bits. The address of the item stays.
pub process_data-post :
    {J : Type 0} (json : Json J) (t : ℕ) (status : J) (p : Publisher) (item : Item J)
    → IsPlain p.hardware
    → IsPlain p.location
    → t < 2 ^ 63
    → let message = post json t status p in
      process_data json message.0 message.1 item
      ≡ ok (record {
        address = item.address;
        hardware = p.hardware;
        location = p.location;
        time = t;
        status = status;
      })
unfolding post process_data
process_data-post json t status p item hardware location fits =
    rw
      (
        split-head_text t p hardware location,
        time_in-decimal item.time t fits,
        json.parse-write status,
        status_in,
      )
      refl

-- An identification that has a hardware and a location but no time, with no second '@', is read past
-- the end of its parts, whatever the contents and the item are.
pub process_data-overrun :
    {J : Type 0} (json : Json J) (hardware location contents : Bytes) (item : Item J)
    → IsPlain hardware
    → IsPlain location
    → process_data json (hardware ++ (codes "@" ++ location)) contents item ≡ err overrun
unfolding process_data
process_data-overrun json hardware location contents item h l =
    rw (split-append hardware location h, split_one location l) refl
