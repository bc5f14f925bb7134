-- ===== src/Pairing/Split.antt =====
-- Who owns which part of the stream, and that every step keeps it.
use wachat.Prelude.{
  ◌≤◌, ◌≡◌, refl, sym, ap, ◌∙◌, ◌⊎◌, inl, inr, true, false, Option, none, some, List, [], ◌∷◌, ◌++◌,
  map, length, length-append, arith,
}
use mathlib.Core.List.{append-nil, append_assoc, Sublistᴰ}
use wachat.Ui.Pairing.{QrItem, PairingView, new_pairing_view, handle_qr}
use wachat.Pairing.{
  QrChannelItem, adapt_item, capacity, FanOut, receiving, to_terminal, to_window, finished, Net,
  start_net, Step, bridge_receive, bridge_send, bridge_close, fan_receive, fan_terminal, fan_window,
  fan_finish, terminal_receive, window_receive, Reach, start, later,
}
use wachat.Pairing.Fed.{IsFed, IsFed-offer, IsFed-receive, IsFed-close, offer-closed}

abbrev pub to_list : Option QrItem → List QrItem
to_list none = []
to_list (some item) = item ∷ []

-- The item that the fan-out has received, and not sent to the terminal or to the window yet.
abbrev pub terminal_due : FanOut → List QrItem
terminal_due receiving = []
terminal_due (to_terminal item) = item ∷ []
terminal_due (to_window item) = []
terminal_due finished = []

abbrev pub window_due : FanOut → List QrItem
window_due receiving = []
window_due (to_terminal item) = item ∷ []
window_due (to_window item) = item ∷ []
window_due finished = []

unfoldable pub handle_all : List QrItem → PairingView → PairingView
handle_all [] p = p
handle_all (item ∷ items) p = handle_all items (handle_qr item p)

pub handle_all-append :
    (xs : List QrItem) (item : QrItem) (p : PairingView)
    → handle_all (xs ++ item ∷ []) p ≡ handle_qr item (handle_all xs p)
unfolding handle_all
handle_all-append [] item p = refl
handle_all-append (x ∷ xs) item p = handle_all-append xs item (handle_qr x p)

-- The stream is split in order between its owners, and both readers are fed from what was sent.
pub record IsOrdered (items : List QrChannelItem) (s : Net) : Type 0 where
  pub taken : List QrItem
  pub whole :
      taken ++ (s.bridge.buffer ++ (to_list s.held ++ map adapt_item s.raw)) ≡ map adapt_item items
  pub bridge_small : length s.bridge.buffer ≤ capacity
  pub bridge_open : (s.bridge.closed ≡ false) ⊎ ((s.raw ≡ []) × (s.held ≡ none))
  pub window_open :
      (s.window.closed ≡ false)
      ⊎ ((s.fan ≡ finished) × (s.bridge.buffer ≡ []) × (s.bridge.closed ≡ true))
  pub to_shown : List QrItem
  pub to_seen : List QrItem
  pub shown_taken : to_shown ++ terminal_due s.fan ≡ taken
  pub seen_taken : to_seen ++ window_due s.fan ≡ taken
  pub shown_fed : IsFed s.shown s.terminal to_shown
  pub seen_fed : IsFed s.seen s.window to_seen
  pub handled : s.view ≡ handle_all s.seen new_pairing_view

start-IsOrdered : (items : List QrChannelItem) → IsOrdered items (start_net items)
unfolding handle_all
start-IsOrdered items = record {
  taken = [];
  whole = refl;
  bridge_small = omega arith;
  bridge_open = inl refl;
  window_open = inl refl;
  to_shown = [];
  to_seen = [];
  shown_taken = refl;
  seen_taken = refl;
  shown_fed = record { small = omega arith; in_order = Sublistᴰ.slnil; few = inl refl };
  seen_fed = record { small = omega arith; in_order = Sublistᴰ.slnil; few = inl refl };
  handled = refl;
}

Step-IsOrdered :
    {items : List QrChannelItem} {s t : Net} → Step s t → IsOrdered items s → IsOrdered items t
Step-IsOrdered {items} {s} (bridge_receive {item} {rest} free next) h = record {
  whole = rw (free, next) at h.whole;
  bridge_open = elim h.bridge_open [ inl o ↦ inl o | inr (done, none_held) ↦ absurd cc ];
  taken = h.taken;
  bridge_small = h.bridge_small;
  window_open = h.window_open;
  to_shown = h.to_shown;
  to_seen = h.to_seen;
  shown_taken = h.shown_taken;
  seen_taken = h.seen_taken;
  shown_fed = h.shown_fed;
  seen_fed = h.seen_fed;
  handled = h.handled;
}
Step-IsOrdered {items} {s} (bridge_send {item} full room) h = record {
  whole = rw (append_assoc s.bridge.buffer (item ∷ []) (map adapt_item s.raw)) (rw full at h.whole);
  bridge_small = rw (length-append s.bridge.buffer (item ∷ [])) (omega arith);
  bridge_open = elim h.bridge_open [ inl o ↦ inl o | inr (done, none_held) ↦ absurd cc ];
  window_open = elim h.window_open [
    | inl o ↦ inl o
    | inr (f, b, c) ↦ elim h.bridge_open [ inl o ↦ absurd cc | inr (done, none_held) ↦ absurd cc ]
  ];
  taken = h.taken;
  to_shown = h.to_shown;
  to_seen = h.to_seen;
  shown_taken = h.shown_taken;
  seen_taken = h.seen_taken;
  shown_fed = h.shown_fed;
  seen_fed = h.seen_fed;
  handled = h.handled;
}
Step-IsOrdered {items} {s} (bridge_close free done o) h = record {
  bridge_open = inr (done, free);
  window_open = elim h.window_open [ inl o' ↦ inl o' | inr (f, b, c) ↦ inr (f, b, refl) ];
  taken = h.taken;
  whole = h.whole;
  bridge_small = h.bridge_small;
  to_shown = h.to_shown;
  to_seen = h.to_seen;
  shown_taken = h.shown_taken;
  seen_taken = h.seen_taken;
  shown_fed = h.shown_fed;
  seen_fed = h.seen_fed;
  handled = h.handled;
}
Step-IsOrdered {items} {s} (fan_receive {item} {rest} free next) h = record {
  taken = h.taken ++ item ∷ [];
  whole =
      rw (append_assoc h.taken (item ∷ []) (rest ++ (to_list s.held ++ map adapt_item s.raw)))
        (rw next at h.whole);
  bridge_small = omega (arith, ap length next, h.bridge_small);
  window_open = elim h.window_open [ inl o ↦ inl o | inr (f, b, c) ↦ absurd cc ];
  shown_taken = ap (λ l. l ++ item ∷ []) (sym (append-nil h.to_shown) ∙ (rw free at h.shown_taken));
  seen_taken = ap (λ l. l ++ item ∷ []) (sym (append-nil h.to_seen) ∙ (rw free at h.seen_taken));
  bridge_open = h.bridge_open;
  to_shown = h.to_shown;
  to_seen = h.to_seen;
  shown_fed = h.shown_fed;
  seen_fed = h.seen_fed;
  handled = h.handled;
}
Step-IsOrdered {items} {s} (fan_terminal {item} due) h = record {
  to_shown = h.to_shown ++ item ∷ [];
  shown_taken = append-nil (h.to_shown ++ item ∷ []) ∙ (rw due at h.shown_taken);
  seen_taken = rw due at h.seen_taken;
  shown_fed = IsFed-offer item h.shown_fed;
  window_open = elim h.window_open [ inl o ↦ inl o | inr (f, b, c) ↦ absurd cc ];
  taken = h.taken;
  whole = h.whole;
  bridge_small = h.bridge_small;
  bridge_open = h.bridge_open;
  to_seen = h.to_seen;
  seen_fed = h.seen_fed;
  handled = h.handled;
}
Step-IsOrdered {items} {s} (fan_window {item} due) h = record {
  to_seen = h.to_seen ++ item ∷ [];
  shown_taken = rw due at h.shown_taken;
  seen_taken = append-nil (h.to_seen ++ item ∷ []) ∙ (rw due at h.seen_taken);
  seen_fed = IsFed-offer item h.seen_fed;
  window_open = elim h.window_open [
    | inl o ↦ inl (offer-closed item s.window ∙ o)
    | inr (f, b, c) ↦ absurd cc
  ];
  taken = h.taken;
  whole = h.whole;
  bridge_small = h.bridge_small;
  bridge_open = h.bridge_open;
  to_shown = h.to_shown;
  shown_fed = h.shown_fed;
  handled = h.handled;
}
Step-IsOrdered {items} {s} (fan_finish free done c) h = record {
  window_open = inr (refl, done, c);
  shown_taken = rw free at h.shown_taken;
  seen_taken = rw free at h.seen_taken;
  shown_fed = IsFed-close h.shown_fed;
  seen_fed = IsFed-close h.seen_fed;
  taken = h.taken;
  whole = h.whole;
  bridge_small = h.bridge_small;
  bridge_open = h.bridge_open;
  to_shown = h.to_shown;
  to_seen = h.to_seen;
  handled = h.handled;
}
Step-IsOrdered {items} {s} (terminal_receive {item} {rest} p next) h = record {
  shown_fed = IsFed-receive next h.shown_fed;
  taken = h.taken;
  whole = h.whole;
  bridge_small = h.bridge_small;
  bridge_open = h.bridge_open;
  window_open = h.window_open;
  to_shown = h.to_shown;
  to_seen = h.to_seen;
  shown_taken = h.shown_taken;
  seen_taken = h.seen_taken;
  seen_fed = h.seen_fed;
  handled = h.handled;
}
Step-IsOrdered {items} {s} (window_receive {item} {rest} next) h = record {
  seen_fed = IsFed-receive next h.seen_fed;
  handled = ap (handle_qr item) h.handled ∙ sym (handle_all-append s.seen item new_pairing_view);
  taken = h.taken;
  whole = h.whole;
  bridge_small = h.bridge_small;
  bridge_open = h.bridge_open;
  window_open = h.window_open;
  to_shown = h.to_shown;
  to_seen = h.to_seen;
  shown_taken = h.shown_taken;
  seen_taken = h.seen_taken;
  shown_fed = h.shown_fed;
}

pub Reach-IsOrdered : {items : List QrChannelItem} {s : Net} → Reach items s → IsOrdered items s
Reach-IsOrdered {items} start = start-IsOrdered items
Reach-IsOrdered (later r st) = Step-IsOrdered st (Reach-IsOrdered r)
