-- ===== src/Tests/Wa.antt =====
-- The handler at a received message, on the memory driver, with a channel for one event.
use wachat.Prelude.{
  ℕ, ◌==◌, nat_eq, if◌then◌else◌, ◌≡◌, refl, String, true, false, not, none, some, List, [], ◌∷◌,
  All,
}
use wachat.Store.Messages.{insert}
use wachat.Store.Schema.{Sqlite, commit_tx, exec}
use wachat.Wa.Extract.{MessageEvent}
use wachat.Wa.Proto.{Proto, HistorySync, WebMessage}
use wachat.Wa.Handler.{Handler, World, to_message, on_message}
use wachat.Wa.Pipeline.{IsPipeline, on_message-IsPipeline}
use wachat.Wa.History.{from_wm_history_sync}
use wachat.Wa.Synced.{IsNamed, IsListed, from_wm_history_sync-IsNamed}
use wachat.Wa.Proto.{read}
use wachat.Store.Messages.Updates.{IsSound}
use wachat.Wa.Dispatch.{Event, Delivery, history_sync, push_name, receipt, pin, adapt_all}
use wachat.Wa.Sound.{adapt_all-IsSound}
use wachat.Tests.Data.{memory, empty, empty-IsSound}

abbrev pub greeting : MessageEvent
greeting = record {
  wa_id = "g1";
  chat_jid = "alice";
  sender_jid = "alice";
  ts = 5;
  body = "good morning";
  from_me = false;
  quoted_waid = "";
  quoted_body = "";
  quoted_sender = "";
  media_path = "";
  media_type = "";
  duration_secs = 0;
  file_size = 0;
  file_name = "";
  link_url = "";
  link_title = "";
  link_desc = "";
}

abbrev all_set : Handler
all_set = record {
  has_store = true;
  out = some 1;
  has_notify = true;
  has_logger = true;
  has_conn_state = true;
  has_typing = true;
}

abbrev quiet : World
quiet = record { db = empty; queue = []; trace = [] }

on_message-IsPipeline_example :
    ((on_message memory all_set greeting quiet).1.db
      ≡ (insert memory (to_message greeting) (not greeting.from_me) empty).1)
    × IsPipeline all_set greeting quiet
        (insert memory (to_message greeting) (not greeting.from_me) empty).0
        (on_message memory all_set greeting quiet)
on_message-IsPipeline_example = on_message-IsPipeline all_set greeting memory quiet refl

-- Messages that are their own text.
abbrev plain : Proto
plain = record {
  Message = String;
  ExtendedText = Unit;
  ContextInfo = Unit;
  conversation = λ s. s;
  extended_text = λ s. none;
  text = λ e. "";
  matched_text = λ e. "";
  link_title = λ e. "";
  description = λ e. "";
  context_info = λ e. none;
  quoted_message = λ c. none;
  stanza_id = λ c. "";
  participant = λ c. "";
  image = λ s. none;
  video = λ s. none;
  audio = λ s. none;
  document = λ s. none;
  sticker = λ s. none;
}

abbrev web : String → WebMessage plain
web w = record {
  key = some (record { id = w; from_me = false; participant = "" });
  message = some "hi";
  timestamp = 3;
}

abbrev sync : HistorySync plain
sync = record {
  pushnames = record { id = "alice"; pushname = "Alice" } ∷ [];
  conversations =
      record { id = "alice"; name = ""; messages = none ∷ some (web "") ∷ some (web "h1") ∷ [] }
      ∷ record { id = ""; name = "x"; messages = some (web "h2") ∷ [] }
      ∷ [];
}

from_wm_history_sync-IsNamed_example :
    All IsNamed (from_wm_history_sync plain (some sync) "me").messages
    × All
        (IsListed (from_wm_history_sync plain (some sync) "me").chats)
        (from_wm_history_sync plain (some sync) "me").messages
from_wm_history_sync-IsNamed_example = from_wm_history_sync-IsNamed plain "me" (some sync)

-- A driver that neither commits nor writes during the first method, and works after it.
abbrev fails_then : ℕ → Sqlite
fails_then n =
    if n == 0
    then record memory { succeeds = λ c. elim c [ commit_tx ↦ false | exec ↦ false | _ ↦ true ] }
    else memory

abbrev delivered : (ℕ → Sqlite) → String → Event plain → Delivery plain
delivered ds jid e = record { drivers = ds; write = λ s b. none; own_jid = jid; event = e }

-- The history sync first cannot be committed, and then comes again and is.
abbrev deliveries : List (Delivery plain)
deliveries =
    delivered fails_then "" (history_sync (some sync))
    ∷ delivered (λ n. memory) "me" (history_sync (some sync))
    ∷ delivered (λ n. memory) "me" (push_name "alice" "Alice")
    ∷ delivered fails_then "me" (receipt ("h1" ∷ "h2" ∷ []) read)
    ∷ delivered fails_then "me" (pin "bob" (some true))
    ∷ []

adapt_all-IsSound_example : IsSound (adapt_all plain all_set deliveries quiet).db
adapt_all-IsSound_example = adapt_all-IsSound plain all_set deliveries quiet empty-IsSound
