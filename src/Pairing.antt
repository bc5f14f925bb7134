-- ===== src/Pairing.antt =====
-- The stream of pairing codes: wa/client.go's bridge, and the fan-out and the two readers of main.go.
pub mod Fed
pub mod Split
pub mod Order
pub mod Progress
pub mod Linking
use wachat.Prelude.{
  ℕ, ◌<◌, ◌≡◌, String, Bool, true, false, Option, none, some, List, [], ◌∷◌, ◌++◌, ◌==◌, text_eq,
  ltb, length, if◌then◌else◌, Runes, runes,
}
use wachat.Ui.Pairing.{QrItem, PairingView, new_pairing_view, handle_qr, set_phase, ready}

-- What the program reads of whatsmeow's QRChannelItem.
pub record QrChannelItem : Type 0 where
  pub event : String
  pub code : String

abbrev pub adapt_item : QrChannelItem → QrItem
adapt_item item = record { event = item.event; code = item.code }

-- The room of each of the three channels.
abbrev pub capacity : ℕ
capacity = 4

pub record Channel : Type 0 where
  pub buffer : List QrItem
  pub closed : Bool

abbrev pub open_channel : Channel
open_channel = record { buffer = []; closed = false }

abbrev pub close : Channel → Channel
close c = record c { closed = true }

-- `select { case c <- item: default: }`
unfoldable pub offer : QrItem → Channel → Channel
offer item c =
    if ltb (length c.buffer) capacity then record c { buffer = c.buffer ++ item ∷ [] } else c

-- Where the fan-out stands: at its receive, before the send to the terminal or to the window with
-- the item that it received, or past its loop.
pub data FanOut : Type 0 where
  receiving : FanOut
  to_terminal : QrItem → FanOut
  to_window : QrItem → FanOut
  finished : FanOut

-- What renderQRs prints.
pub data Printed : Type 0 where
  qr_block : String → Printed
  line : Runes → Printed

-- One round of renderQRs, and whether it goes on.
unfoldable pub render_qr : QrItem → Printed × Bool
render_qr item =
    if item.event == "code"
    then (qr_block item.code, true)
    else if item.event == "success"
    then (line (runes "wachat: paired successfully"), false)
    else if item.event == "timeout"
    then (line (runes "wachat: QR pairing timed out — restart wachat to try again"), false)
    else (line (runes "wachat: QR pairing event: " ++ runes item.event), true)

-- `raw` is what whatsmeow will still send before it closes its channel, `held` the item that the
-- bridge has received and not sent yet. `shown` and `seen` are the items that the terminal and the
-- window have received; `printing` is that renderQRs has not returned. `view` is what HandleQR alone
-- makes of a new linking screen; the record `Screen` has the other writer too.
pub record Net : Type 0 where
  pub raw : List QrChannelItem
  pub held : Option QrItem
  pub bridge : Channel
  pub fan : FanOut
  pub terminal : Channel
  pub window : Channel
  pub printing : Bool
  pub shown : List QrItem
  pub seen : List QrItem
  pub view : PairingView

abbrev pub start_net : List QrChannelItem → Net
start_net items = record {
  raw = items;
  held = none;
  bridge = open_channel;
  fan = receiving;
  terminal = open_channel;
  window = open_channel;
  printing = true;
  shown = [];
  seen = [];
  view = new_pairing_view;
}

-- One step of one of the four goroutines.
pub data Step (s : Net) : Net → Type 0 where
  bridge_receive :
      {item : QrChannelItem} {rest : List QrChannelItem}
      → s.held ≡ none
      → s.raw ≡ item ∷ rest
      → Step s (record s { raw = rest; held = some (adapt_item item) })
  bridge_send :
      {item : QrItem}
      → s.held ≡ some item
      → length s.bridge.buffer < capacity
      → Step s (record s {
        held = none;
        bridge = record (s.bridge) { buffer = s.bridge.buffer ++ item ∷ [] };
      })
  bridge_close :
      s.held ≡ none
      → s.raw ≡ []
      → s.bridge.closed ≡ false
      → Step s (record s { bridge = close s.bridge })
  fan_receive :
      {item : QrItem} {rest : List QrItem}
      → s.fan ≡ receiving
      → s.bridge.buffer ≡ item ∷ rest
      → Step s (record s { bridge = record (s.bridge) { buffer = rest }; fan = to_terminal item })
  fan_terminal :
      {item : QrItem}
      → s.fan ≡ to_terminal item
      → Step s (record s { terminal = offer item s.terminal; fan = to_window item })
  fan_window :
      {item : QrItem}
      → s.fan ≡ to_window item
      → Step s (record s { window = offer item s.window; fan = receiving })
  fan_finish :
      s.fan ≡ receiving
      → s.bridge.buffer ≡ []
      → s.bridge.closed ≡ true
      → Step s (record s { fan = finished; terminal = close s.terminal; window = close s.window })
  terminal_receive :
      {item : QrItem} {rest : List QrItem}
      → s.printing ≡ true
      → s.terminal.buffer ≡ item ∷ rest
      → Step s (record s {
        terminal = record (s.terminal) { buffer = rest };
        printing = (render_qr item).1;
        shown = s.shown ++ item ∷ [];
      })
  window_receive :
      {item : QrItem} {rest : List QrItem}
      → s.window.buffer ≡ item ∷ rest
      → Step s (record s {
        window = record (s.window) { buffer = rest };
        seen = s.seen ++ item ∷ [];
        view = handle_qr item s.view;
      })

pub data Reach (items : List QrChannelItem) : Net → Type 0 where
  start : Reach items (start_net items)
  later : {s t : Net} → Reach items s → Step s t → Reach items t

-- The linking screen with both of its writers, and the variable needsPairing.
pub record Screen : Type 0 where
  pub net : Net
  pub view : PairingView
  pub needs_pairing : Bool

abbrev pub start_screen : List QrChannelItem → Screen
start_screen items = record { net = start_net items; view = new_pairing_view; needs_pairing = true }

-- A step of the stream in which the window receives nothing; one in which it receives an item, which
-- HandleQR takes; the report of a connection in OnConnState; and a frame of renderRoot that finds
-- the linking done.
pub data ScreenStep (s : Screen) : Screen → Type 0 where
  stream : {n : Net} → Step s.net n → n.seen ≡ s.net.seen → ScreenStep s (record s { net = n })
  handled :
      {n : Net} (item : QrItem)
      → Step s.net n
      → n.seen ≡ s.net.seen ++ item ∷ []
      → ScreenStep s (record s { net = n; view = handle_qr item s.view })
  connected :
      s.needs_pairing ≡ true
      → ScreenStep s (record s { view = set_phase ready s.view; needs_pairing = false })
  drawn : s.view.phase ≡ ready → ScreenStep s (record s { needs_pairing = false })

pub data ScreenReach (items : List QrChannelItem) : Screen → Type 0 where
  opened : ScreenReach items (start_screen items)
  next : {s t : Screen} → ScreenReach items s → ScreenStep s t → ScreenReach items t
