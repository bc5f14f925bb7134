-- ===== src/Tests/Pairing.antt =====
-- A code and its success, through the bridge and the fan-out.
use wachat.Prelude.{
  ◌≡◌, ◌≤◌, ◌+◌, ◌*◌, ◌⊎◌, refl, true, false, none, some, List, [], ◌∷◌, ◌++◌, map, length, arith,
}
use mathlib.Core.List.{Sublistᴰ}
use wachat.Ui.Pairing.{new_pairing_view, handle_qr, set_phase, ready}
use wachat.Pairing.{
  QrChannelItem, adapt_item, capacity, Net, start_net, Step, finished, offer, bridge_receive,
  bridge_send, bridge_close, fan_receive, fan_terminal, fan_window, fan_finish, window_receive,
  Reach, start, later, Screen, ScreenReach, stream, handled, connected, opened, next,
}
use wachat.Pairing.Split.{handle_all}
use wachat.Pairing.Order.{Reach-IsWhole}
use wachat.Pairing.Linking.{IsShown, ScreenReach-IsInOrder}
use wachat.Pairing.Progress.{stay, step, Run-ends}

abbrev a_code : QrChannelItem
a_code = record { event = "code"; code = "2@x" }

abbrev one_code : List QrChannelItem
one_code = a_code ∷ []

abbrev at_end : Net
at_end = record {
  raw = [];
  held = none;
  bridge = record { buffer = []; closed = true };
  fan = finished;
  terminal = record { buffer = map adapt_item one_code; closed = true };
  window = record { buffer = []; closed = true };
  printing = true;
  shown = [];
  seen = map adapt_item one_code;
  view = handle_qr (adapt_item a_code) new_pairing_view;
}

reaches : Reach one_code at_end
unfolding offer
reaches =
    later
      (later
        (later
          (later
            (later
              (later
                (later (later start (bridge_receive refl refl)) (bridge_send refl (omega arith)))
                (fan_receive refl refl))
              (fan_terminal refl))
            (fan_window refl))
          (window_receive refl))
        (bridge_close refl refl refl))
      (fan_finish refl refl refl)

-- The code is shown, and then the connection is reported.
abbrev linked : Screen
linked = record {
  net = at_end;
  view = set_phase ready (handle_qr (adapt_item a_code) new_pairing_view);
  needs_pairing = false;
}

links : ScreenReach one_code linked
unfolding offer
links =
    next
      (next
        (next
          (next
            (next
              (next
                (next
                  (next (next opened (stream (bridge_receive refl refl) refl))
                    (stream (bridge_send refl (omega arith)) refl))
                  (stream (fan_receive refl refl) refl))
                (stream (fan_terminal refl) refl))
              (stream (fan_window refl) refl))
            (handled (adapt_item a_code) (window_receive refl) refl))
          (connected refl))
        (stream (bridge_close refl refl refl) refl))
      (stream (fan_finish refl refl refl) refl)

ScreenReach-IsInOrder_example :
    (length at_end.bridge.buffer ≤ capacity)
    × (length at_end.terminal.buffer ≤ capacity)
    × (length at_end.window.buffer ≤ capacity)
    × Sublistᴰ (at_end.shown ++ at_end.terminal.buffer) (map adapt_item one_code)
    × Sublistᴰ (at_end.seen ++ at_end.window.buffer) (map adapt_item one_code)
    × IsShown linked
ScreenReach-IsInOrder_example = ScreenReach-IsInOrder links

Reach-IsWhole_example :
    (at_end.seen ≡ map adapt_item one_code)
    × (at_end.view ≡ handle_all (map adapt_item one_code) new_pairing_view)
Reach-IsWhole_example = Reach-IsWhole reaches (omega arith) refl refl

abbrev one_step : Net
one_step = record (start_net one_code) { raw = []; held = some (adapt_item a_code) }

Run-ends_example :
    (1 ≤ 7 * length one_code + 2)
    × (((one_step.fan ≡ finished) × (one_step.window.buffer ≡ [])) ⊎ ((u : Net) × Step one_step u))
Run-ends_example = Run-ends (step stay (bridge_receive refl refl))
