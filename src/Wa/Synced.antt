-- ===== src/Wa/Synced.antt =====
-- What a history sync hands to the store.
use wachat.Prelude.{
  ◌≡◌, refl, String, true, false, Option, none, some, List, [], ◌∷◌, ◌++◌, ◌==◌, text_eq, text_iff,
  any, All, All-map, arith, Bool-cases, inl, inr, Option-cases,
}
use wachat.Prelude.Tables.{at_key}
use wachat.Store.Schema.{Message}
use wachat.Wa.Proto.{Proto, WebMessage, Conversation, HistorySync}
use wachat.Wa.History.{
  HistoryChat, convert_message, convert_messages, convert_conversations, from_wm_history_sync,
}

All-append {ℓ κ} :
    {A : Type ℓ} (P : A → Type κ) (xs ys : List A) → All P xs → All P ys → All P (xs ++ ys)
All-append P [] ys h k = k
All-append P (x ∷ xs) ys h k = (h.0, All-append P xs ys h.1 k)

-- A message that InsertBatch does not skip.
abbrev pub IsNamed : Message → Type 0
IsNamed m = ((m.wa_id == "") ≡ false) × ((m.chat_jid == "") ≡ false)

-- Each message belongs to a chat of the result.
abbrev pub IsListed : List HistoryChat → Message → Type 0
IsListed chats m = any (at_key (λ c. c.jid) m.chat_jid) chats ≡ true

module _ (p : Proto) (own_jid : String) where
  convert_message-IsNamed :
      (jid : String) (m : Option (WebMessage p))
      → (jid == "") ≡ false
      → All IsNamed (convert_message p jid own_jid m)
  unfolding convert_message
  convert_message-IsNamed jid none h = tt
  convert_message-IsNamed jid (some wmi) h = elim (Option-cases wmi.key) [
    | inl e ↦ rw (e, convert_message) tt
    | inr (key, e) ↦ elim (Bool-cases (key.id == "")) [
      | inl b ↦ rw (e, convert_message, b) tt
      | inr b ↦ rw (e, convert_message, b) ((b, h), tt)
    ]
  ]

  convert_messages-IsNamed :
      (jid : String) (ms : List (Option (WebMessage p)))
      → (jid == "") ≡ false
      → All IsNamed (convert_messages p jid own_jid ms)
  unfolding convert_messages
  convert_messages-IsNamed jid [] h = tt
  convert_messages-IsNamed jid (m ∷ ms) h =
      All-append IsNamed (convert_message p jid own_jid m) (convert_messages p jid own_jid ms)
        (convert_message-IsNamed jid m h) (convert_messages-IsNamed jid ms h)

  in_chat_message :
      (jid : String) (m : Option (WebMessage p))
      → All (λ x. x.chat_jid ≡ jid) (convert_message p jid own_jid m)
  unfolding convert_message
  in_chat_message jid none = tt
  in_chat_message jid (some wmi) = elim (Option-cases wmi.key) [
    | inl e ↦ rw (e, convert_message) tt
    | inr (key, e) ↦ elim (Bool-cases (key.id == "")) [
      | inl b ↦ rw (e, convert_message, b) tt
      | inr b ↦ rw (e, convert_message, b) (refl, tt)
    ]
  ]

  in_chat_messages :
      (jid : String) (ms : List (Option (WebMessage p)))
      → All (λ x. x.chat_jid ≡ jid) (convert_messages p jid own_jid ms)
  unfolding convert_messages
  in_chat_messages jid [] = tt
  in_chat_messages jid (m ∷ ms) =
      All-append (λ x. x.chat_jid ≡ jid) (convert_message p jid own_jid m)
        (convert_messages p jid own_jid ms) (in_chat_message jid m) (in_chat_messages jid ms)

  convert_conversations-IsNamed :
      (cs : List (Conversation p)) → All IsNamed (convert_conversations p own_jid cs).1
  unfolding convert_conversations
  convert_conversations-IsNamed [] = tt
  convert_conversations-IsNamed (c ∷ cs) = elim (Bool-cases (c.id == "")) [
    | inl e ↦ rw e (convert_conversations-IsNamed cs)
    | inr e ↦ rw e (
        All-append IsNamed (convert_messages p c.id own_jid c.messages)
          (convert_conversations p own_jid cs).1 (convert_messages-IsNamed c.id c.messages e)
          (convert_conversations-IsNamed cs))
  ]

  first_chat :
      (c : HistoryChat) (chats : List HistoryChat) (m : Message)
      → m.chat_jid ≡ c.jid
      → IsListed (c ∷ chats) m
  unfolding any
  first_chat c chats m e = ground (arith, e, text_iff c.jid m.chat_jid)

  later_chat :
      (c : HistoryChat) (chats : List HistoryChat) (m : Message)
      → IsListed chats m
      → IsListed (c ∷ chats) m
  unfolding any
  later_chat c chats m h = ground (arith, h)

  convert_conversations-IsListed :
      (cs : List (Conversation p))
      → All (IsListed (convert_conversations p own_jid cs).0) (convert_conversations p own_jid cs).1
  unfolding convert_conversations
  convert_conversations-IsListed [] = tt
  convert_conversations-IsListed (c ∷ cs) = elim (Bool-cases (c.id == "")) [
    | inl e ↦ rw e (convert_conversations-IsListed cs)
    | inr e ↦
        let rest = convert_conversations p own_jid cs in
        let chat : HistoryChat = record { jid = c.id; name = c.name } in
        rw e (
          All-append (IsListed (chat ∷ rest.0)) (convert_messages p c.id own_jid c.messages) rest.1
            (All-map (λ x. x.chat_jid ≡ c.id) _ (first_chat chat rest.0) _
              (in_chat_messages c.id c.messages))
            (All-map (IsListed rest.0) _ (later_chat chat rest.0) rest.1
              (convert_conversations-IsListed cs)))
  ]

  -- Every message that a history sync yields has an id and a chat, so that InsertBatch skips none
  -- of them, and its chat is one of the chats that the sync yields.
  pub from_wm_history_sync-IsNamed :
      (data' : Option (HistorySync p))
      → All IsNamed (from_wm_history_sync p data' own_jid).messages
        × All
            (IsListed (from_wm_history_sync p data' own_jid).chats)
            (from_wm_history_sync p data' own_jid).messages
  unfolding from_wm_history_sync
  from_wm_history_sync-IsNamed none = (tt, tt)
  from_wm_history_sync-IsNamed (some data') = (
    convert_conversations-IsNamed data'.conversations,
    convert_conversations-IsListed data'.conversations,
  )
