-- ===== src/Ui/State/Incoming.antt =====
-- OnIncoming: one bubble for each message, and the chat list in order of time.
use wachat.Prelude.{
  ◌+◌, ◌≤◌, ◌≡◌, refl, ◌↔◌, Pairs, Pairs-map, String, Bool, true, false, not, ◌&&◌, Option, none,
  some, List, [], ◌∷◌, ◌==◌, text_eq, text_iff, nat_eq, max, any, find?, inl, inr, arith,
  if◌then◌else◌, Bool-cases,
}
use wachat.Prelude.Sort.{IsSorted, IsOrder, sort_by-IsSorted}
use wachat.Prelude.Tables.{at_key}
use wachat.Store.Schema.{Message}
use wachat.Wa.Extract.{MessageEvent}
use wachat.Ui.State.{
  State, ChatSummary, on_incoming, bubble, fold_message, replace_message, upsert_chat_summary,
  newer_first,
}
use wachat.Ui.State.ChatList.{
  find_summary, distinct_jids, unread_in, last_ts_in, upsert_chat_summary-IsCounted,
  distinct_jids-upsert_chat_summary, find_summary-sort_by, distinct_jids-sort_by,
}

abbrev pub find_bubble : String → List Message → Option Message
find_bubble w = find? (at_key (λ m. m.wa_id) w)

-- No two messages of the window have the same id.
unfoldable pub distinct_ids : List Message → Bool
distinct_ids [] = true
distinct_ids (m ∷ ms) = not (any (at_key (λ x. x.wa_id) m.wa_id) ms) && distinct_ids ms

abbrev replaced_or : List Message → Option (List Message) → List Message
replaced_or old none = old
replaced_or old (some ys) = ys

-- What is in the window after a replacement.
replace_message_lem :
    (m : Message) (xs : List Message) (w : String)
    → (any (at_key (λ x. x.wa_id) w) (replaced_or xs (replace_message m xs))
        ≡ any (at_key (λ x. x.wa_id) w) xs)
      × (find_bubble w (replaced_or xs (replace_message m xs))
          ≡ (if m.wa_id == w && any (at_key (λ x. x.wa_id) w) xs then some m else find_bubble w xs))
      × ((any (at_key (λ x. x.wa_id) m.wa_id) xs ≡ false) ↔ (replace_message m xs ≡ none))
unfolding any find? replace_message
replace_message_lem m [] w = ground arith
replace_message_lem m (x ∷ xs) w = ground (
  arith,
  replace_message_lem m xs w,
  text_iff x.wa_id m.wa_id,
  text_iff x.wa_id w,
  text_iff m.wa_id w,
)

distinct_ids-replace_message :
    (m : Message) (xs : List Message)
    → distinct_ids xs ≡ true
    → distinct_ids (replaced_or xs (replace_message m xs)) ≡ true
unfolding distinct_ids replace_message any
distinct_ids-replace_message m [] h = refl
distinct_ids-replace_message m (x ∷ xs) h = ground (
  arith,
  distinct_ids-replace_message m xs,
  (replace_message_lem m xs x.wa_id).0,
  (replace_message_lem m xs m.wa_id).0,
  text_iff x.wa_id m.wa_id,
)

find_bubble-fold_message :
    (m : Message) (xs : List Message) (w : String)
    → find_bubble w (fold_message m xs) ≡ (if m.wa_id == w then some m else find_bubble w xs)
unfolding fold_message find?
find_bubble-fold_message m xs w = ground (arith, replace_message_lem m xs w, text_iff m.wa_id w)

distinct_ids-fold_message :
    (m : Message) (xs : List Message)
    → distinct_ids xs ≡ true
    → distinct_ids (fold_message m xs) ≡ true
unfolding fold_message distinct_ids
distinct_ids-fold_message m xs h =
    ground (arith, distinct_ids-replace_message m xs h, replace_message_lem m xs m.wa_id)

-- The message of an event in the window: its id, chat, sender, time and text, and nothing else.
abbrev pub shown_as : MessageEvent → Message
shown_as ev = record {
  id = 0;
  wa_id = ev.wa_id;
  chat_jid = ev.chat_jid;
  sender_jid = ev.sender_jid;
  ts = ev.ts;
  body = ev.body;
  media_path = "";
  media_type = "";
  status = "";
  quoted_waid = "";
  quoted_body = "";
  quoted_sender = "";
  edited = false;
  revoked = false;
  link_url = "";
  link_title = "";
  link_desc = "";
  starred = false;
}

-- No chat of the list is older than a later one.
abbrev pub NewestFirst : List ChatSummary → Type 0
NewestFirst = Pairs (λ x y. y.last_ts ≤ x.last_ts)

NewestFirst-newer_first : (cs : List ChatSummary) → IsSorted newer_first cs → NewestFirst cs
unfolding newer_first
NewestFirst-newer_first cs h = Pairs-map _ _ (λ x y k. ground (arith, k)) cs h

newer_first-IsOrder : IsOrder newer_first
unfolding newer_first
newer_first-IsOrder = record { asym = λ a b. ground arith; trans = λ a b c. ground arith }

-- The window has each message once, and the chat list each chat once.
pub record IsView (st : State) : Type 0 where
  pub messages_once : distinct_ids st.messages ≡ true
  pub chats_once : distinct_jids st.chats ≡ true

module _ (ev : MessageEvent) (st : State) where
  -- If before each message stood once in the window and each chat once in the list, this still
  -- holds after OnIncoming, redeliveries included, and the chat list is then sorted by time, the
  -- newest first.
  pub on_incoming-IsView :
      IsView st → IsView (on_incoming ev st) × NewestFirst (on_incoming ev st).chats
  unfolding on_incoming
  on_incoming-IsView h =
      let up = upsert_chat_summary ev st.chats in
      let once =
        distinct_jids-sort_by up (distinct_jids-upsert_chat_summary ev st.chats h.chats_once) in
      let sorted = NewestFirst-newer_first _ (sort_by-IsSorted newer_first-IsOrder up) in
      elim (Bool-cases (ev.chat_jid == st.selected_chat)) [
        | inl e ↦ rw e (
          record {
            messages_once = distinct_ids-fold_message (bubble ev) st.messages h.messages_once;
            chats_once = once;
          },
          sorted,
        )
        | inr e ↦ rw e (record { messages_once = h.messages_once; chats_once = once }, sorted)
      ]

  wa_id-bubble :
      (w : String)
      → (if (bubble ev).wa_id == w then some (bubble ev) else find_bubble w st.messages)
        ≡ (if ev.wa_id == w then some (shown_as ev) else find_bubble w st.messages)
  unfolding bubble
  wa_id-bubble w = refl

  -- An event of the open chat makes the bubble of its id the one with the id, chat, sender, time
  -- and text of the event and nothing else, whether it was there or not, and leaves every other
  -- bubble; an event of another chat leaves them all.
  pub find_bubble-on_incoming :
      (w : String)
      → find_bubble w (on_incoming ev st).messages ≡ (
          if ev.chat_jid == st.selected_chat && ev.wa_id == w
          then some (shown_as ev)
          else find_bubble w st.messages)
  unfolding on_incoming
  find_bubble-on_incoming w =
      let folded = find_bubble-fold_message (bubble ev) st.messages w in
      elim (Bool-cases (ev.chat_jid == st.selected_chat)) [
        | inl e ↦ rw (e, folded) (wa_id-bubble w)
        | inr e ↦ rw e refl
      ]

  -- Where each chat stood once in the list, OnIncoming adds one unread message to the chat of an
  -- event that is not from the user, each time that it comes, and to no other chat; it takes the
  -- time of that chat forward to the event's if that is later, and no other time.
  pub find_summary-on_incoming :
      distinct_jids st.chats ≡ true
      → (j : String)
      → (unread_in (find_summary j (on_incoming ev st).chats)
          ≡ unread_in (find_summary j st.chats)
            + (if ev.chat_jid == j && not ev.from_me then 1 else 0))
        × (last_ts_in (find_summary j (on_incoming ev st).chats) ≡ (
            if ev.chat_jid == j
            then max (last_ts_in (find_summary j st.chats)) ev.ts
            else last_ts_in (find_summary j st.chats)))
  unfolding on_incoming
  find_summary-on_incoming h j =
      let up = upsert_chat_summary ev st.chats in
      let found = find_summary-sort_by up j (distinct_jids-upsert_chat_summary ev st.chats h) in
      elim (Bool-cases (ev.chat_jid == st.selected_chat)) [
        | inl e ↦ rw (e, found) (upsert_chat_summary-IsCounted ev st.chats j)
        | inr e ↦ rw (e, found) (upsert_chat_summary-IsCounted ev st.chats j)
      ]
