-- ===== src/Pairing/Progress.antt =====
-- The goroutines of the pairing stream neither deadlock nor run for ever.
use wachat.Prelude.{
  ℕ, suc, ◌+◌, ◌*◌, ◌≤◌, ◌<◌, ◌≡◌, refl, ap, ◌⊎◌, inl, inr, Bool, true, false, Option, none, some,
  List, [], ◌∷◌, length, length-append, arith, Bool-cases, Option-cases,
}
use wachat.Ui.Pairing.{QrItem}
use wachat.Pairing.{
  QrChannelItem, Channel, offer, FanOut, receiving, to_terminal, to_window, finished, Net,
  start_net, Step, bridge_receive, bridge_send, bridge_close, fan_receive, fan_terminal, fan_window,
  fan_finish, terminal_receive, window_receive,
}

-- How many steps an item takes from where the fan-out holds it.
abbrev fan_left : FanOut → ℕ
fan_left receiving = 1
fan_left (to_terminal item) = 5
fan_left (to_window item) = 3
fan_left finished = 0

abbrev held_left : Option QrItem → ℕ
held_left none = 0
held_left (some item) = 6

abbrev open_left : Bool → ℕ
open_left true = 0
open_left false = 1

-- No run from here has more steps than this.
unfoldable pub steps_left : Net → ℕ
steps_left s =
    7 * length s.raw
    + held_left s.held
    + 5 * length s.bridge.buffer
    + open_left s.bridge.closed
    + fan_left s.fan
    + length s.terminal.buffer
    + length s.window.buffer

length-offer : (item : QrItem) (c : Channel) → length (offer item c).buffer ≤ length c.buffer + 1
unfolding offer
length-offer item c = ground (arith, length-append c.buffer (item ∷ []))

-- Every step of a goroutine leaves fewer steps to take, so that each run ends.
steps_left-Step : {s t : Net} → Step s t → steps_left t < steps_left s
unfolding steps_left
steps_left-Step {s} (bridge_receive {item} {rest} free next) =
    omega (arith, ap length next, ap held_left free)
steps_left-Step {s} (bridge_send {item} full room) =
    omega (arith, ap held_left full, length-append s.bridge.buffer (item ∷ []))
steps_left-Step {s} (bridge_close free done o) = omega (arith, ap open_left o)
steps_left-Step {s} (fan_receive free next) = omega (arith, ap fan_left free, ap length next)
steps_left-Step {s} (fan_terminal {item} due) =
    omega (arith, ap fan_left due, length-offer item s.terminal)
steps_left-Step {s} (fan_window {item} due) =
    omega (arith, ap fan_left due, length-offer item s.window)
steps_left-Step {s} (fan_finish free done c) = omega (arith, ap fan_left free)
steps_left-Step {s} (terminal_receive p next) = omega (arith, ap length next)
steps_left-Step {s} (window_receive next) = omega (arith, ap length next)

List-cases {ℓ} :
    {A : Type ℓ} (xs : List A) → (xs ≡ []) ⊎ ((x : A) × (rest : List A) × (xs ≡ x ∷ rest))
List-cases [] = inl refl
List-cases (x ∷ rest) = inr (x, rest, refl)

Fan-cases :
    (f : FanOut)
    → (f ≡ receiving)
      ⊎ (f ≡ finished)
      ⊎ ((item : QrItem) × (f ≡ to_terminal item))
      ⊎ ((item : QrItem) × (f ≡ to_window item))
Fan-cases receiving = inl refl
Fan-cases finished = inr (inl refl)
Fan-cases (to_terminal item) = inr (inr (inl (item, refl)))
Fan-cases (to_window item) = inr (inr (inr (item, refl)))

-- What goes on before the fan-out while it waits.
feeds : (s : Net) → s.fan ≡ receiving → (t : Net) × Step s t
feeds s free = elim (List-cases s.bridge.buffer) [
  | inr (item, rest, next) ↦ (_, fan_receive free next)
  | inl empty ↦ elim (Option-cases s.held) [
    | inr (item, full) ↦ (_, bridge_send full (omega (arith, ap length empty)))
    | inl none_held ↦ elim (List-cases s.raw) [
      | inr (item, rest, next) ↦ (_, bridge_receive none_held next)
      | inl done ↦ elim (Bool-cases s.bridge.closed) [
        | inl c ↦ (_, fan_finish free empty c)
        | inr o ↦ (_, bridge_close none_held done o)
      ]
    ]
  ]
]

Step-progress : (s : Net) → ((s.fan ≡ finished) × (s.window.buffer ≡ [])) ⊎ ((t : Net) × Step s t)
Step-progress s = elim (Fan-cases s.fan) [
  | inl free ↦ inr (feeds s free)
  | inr (inl done) ↦ elim (List-cases s.window.buffer) [
    | inl empty ↦ inl (done, empty)
    | inr (item, rest, next) ↦ inr (_, window_receive next)
  ]
  | inr (inr (inl (item, due))) ↦ inr (_, fan_terminal due)
  | inr (inr (inr (item, due))) ↦ inr (_, fan_window due)
]

-- A run of that many steps.
pub data Run : ℕ → Net → Net → Type 0 where
  stay : {s : Net} → Run 0 s s
  step : {n : ℕ} {s t u : Net} → Run n s t → Step t u → Run (suc n) s u

Run-steps_left : {n : ℕ} {s t : Net} → Run n s t → n + steps_left t ≤ steps_left s
Run-steps_left stay = omega arith
Run-steps_left (step r st) = omega (arith, Run-steps_left r, steps_left-Step st)

-- The goroutines neither run for ever nor deadlock, also after the terminal's reader has returned:
-- a run from the start has at most seven steps for each item of the stream and two more, and where
-- it stands, either some goroutine can take a step, or the fan-out is past its loop and the window
-- has received all that was buffered for it.
pub Run-ends :
    {items : List QrChannelItem} {n : ℕ} {t : Net}
    → Run n (start_net items) t
    → (n ≤ 7 * length items + 2)
      × (((t.fan ≡ finished) × (t.window.buffer ≡ [])) ⊎ ((u : Net) × Step t u))
unfolding steps_left
Run-ends {items} {n} {t} r = (omega (arith, Run-steps_left r), Step-progress t)
