-- ===== src/Ui/State/Typing.antt =====
-- Who is typing: what a transition changes, at every later time.
use wachat.Prelude.{
  ℕ, ◌+◌, ◌≤◌, ◌≡◌, ◌≢◌, refl, String, Bool, not, ◌&&◌, ◌||◌, List, [], ◌∷◌, ◌++◌, ◌==◌, text_eq,
  text_iff, nat_eq, ltb, any, filter, beq_ne, arith, if◌then◌else◌,
}
use wachat.Prelude.Tables.{find?-upsert_where, find?-filter}
use wachat.Ui.State.{
  State, TypingEntry, TypingChat, entries_of, put_entries, keep_others, typed_until, set_typing,
  active_typers, typing_ttl,
}

abbrev pub is_from : String → TypingEntry → Bool
is_from sender e = e.sender_jid == sender

-- A sender is among the active typers of a chat.
abbrev pub is_typing : String → String → ℕ → State → Bool
is_typing chat sender now_ms st = any (is_from sender) (active_typers chat now_ms st)

abbrev live : ℕ → List TypingEntry → List TypingEntry
live now_ms = filter (λ e. ltb now_ms e.until_ms)

entries_of-put_entries :
    (chat : String) (es : List TypingEntry) (j : String) (ts : List TypingChat)
    → entries_of j (put_entries chat es ts) ≡ (if chat == j then es else entries_of j ts)
entries_of-put_entries chat [] j ts = ground (arith, find?-filter (λ t. t.chat_jid) chat j ts)
entries_of-put_entries chat (e ∷ es) j ts = ground (
  arith,
  find?-upsert_where (λ t. t.chat_jid) (λ t. record t { entries = e ∷ es }) (λ t. refl)
      (record { chat_jid = chat; entries = e ∷ es }) chat refl j ts,
)

live-append :
    (s : String) (now : ℕ) (xs ys : List TypingEntry)
    → any (is_from s) (live now (xs ++ ys))
      ≡ (any (is_from s) (live now xs) || any (is_from s) (live now ys))
unfolding any filter
live-append s now [] ys = refl
live-append s now (x ∷ xs) ys = ground (arith, live-append s now xs ys)

live-keep_others :
    (sender s : String) (then' now : ℕ) (xs : List TypingEntry)
    → then' ≤ now
    → any (is_from s) (live now (keep_others sender then' xs))
      ≡ (not (sender == s) && any (is_from s) (live now xs))
unfolding any filter keep_others
live-keep_others sender s then' now [] le = ground arith
live-keep_others sender s then' now (x ∷ xs) le = ground (
  arith,
  live-keep_others sender s then' now xs le,
  text_iff x.sender_jid sender,
  text_iff x.sender_jid s,
  text_iff sender s,
)

live-typed_until :
    (sender s : String) (composing : Bool) (then' now : ℕ)
    → any (is_from s) (live now (typed_until sender composing then'))
      ≡ (sender == s && composing && ltb now (then' + typing_ttl))
unfolding any filter
live-typed_until sender s composing then' now = ground arith

-- After a transition of a sender in a chat, both with an id: at every time from then on that sender
-- is an active typer of that chat exactly if the transition was "composing" and less than the ten
-- seconds of TypingTTL have passed; for any other sender or chat nothing has changed.
pub set_typing_lem :
    (chat sender : String)
    → chat ≢ ""
    → sender ≢ ""
    → (composing : Bool) (then' now : ℕ) → then' ≤ now
    → (st : State) (j s : String)
    → is_typing j s now (set_typing chat sender composing then' st) ≡ (
        if chat == j && sender == s
        then composing && ltb now (then' + typing_ttl)
        else is_typing j s now st)
unfolding set_typing active_typers
set_typing_lem chat sender c_named s_named composing then' now le st j s =
    let old = entries_of chat st.typing in
    rw
      (
        beq_ne chat "" c_named,
        beq_ne sender "" s_named,
        entries_of-put_entries chat
            (keep_others sender then' old ++ typed_until sender composing then') j st.typing,
      )
      (ground (
        arith,
        live-append s now (keep_others sender then' old) (typed_until sender composing then'),
        live-keep_others sender s then' now old le,
        live-typed_until sender s composing then' now,
        text_iff chat j,
        text_iff sender s,
      ))
