-- ===== src/Ui/State/Reads.antt =====
-- The methods of the view-model that only read the store, whatever fails.
use wachat.Prelude.{
  ℕ, String, ◌≡◌, true, inl, inr, ◌++◌, not, List, ◌==◌, text_eq, map, filter, arith, Runes,
  trim_space,
}
use wachat.Prelude.Int.{pos}
use wachat.Store.Schema.{FtsRow, Sqlite, Db}
use wachat.Store.Paging.{zero_cursor, page_older, page_around, Cursor}
use wachat.Store.Search.{Match}
use wachat.Store.Exec.{Result-cases}
use wachat.Store.Reads.{
  Reads, page_older-Reads, page_around-Reads, reactions_for_chat-Reads, search-Reads,
}
use wachat.Ui.State.{
  State, page_size, reload_reactions, show_page, select_chat, load_older, jump_to_message,
}
use wachat.Ui.State.Search.{search_results, search_limit}

module _ (d : Sqlite) where
  pub reload_reactions-Reads : (st : State) → Reads (reload_reactions d st)
  unfolding reload_reactions
  reload_reactions-Reads st db = ground (
    arith,
    reactions_for_chat-Reads d (filter (λ w. not (w == "")) (map (λ m. m.wa_id) st.messages)) db,
  )

  pub select_chat-Reads : (jid : String) (st : State) → Reads (select_chat d jid st)
  unfolding select_chat
  select_chat-Reads jid st db =
      elim (Result-cases (page_older d jid zero_cursor (pos page_size) db).0) [
        | inr (e, failed) ↦
            ground (arith, failed, page_older-Reads d jid zero_cursor (pos page_size) db)
        | inl (page, found) ↦ ground (
          arith,
          found,
          page_older-Reads d jid zero_cursor (pos page_size) db,
          reload_reactions-Reads (show_page jid page st)
              (page_older d jid zero_cursor (pos page_size) db).1,
        )
      ]

  page_first-Reads :
      (jid : String) (cursor : Cursor) (db : Db)
      → (page_older d jid cursor (pos page_size) db).1 ≡ db
  page_first-Reads jid cursor db = page_older-Reads d jid cursor (pos page_size) db

  pub load_older-Reads : (st : State) → Reads (load_older d st)
  unfolding load_older
  load_older-Reads st db =
      elim (Result-cases (page_older d st.selected_chat st.cursor (pos page_size) db).0) [
        | inr (e, failed) ↦ ground (
          arith,
          failed,
          page_first-Reads st.selected_chat st.cursor db,
          page_first-Reads st.selected_chat zero_cursor db,
        )
        | inl (page, found) ↦ ground (
          arith,
          found,
          page_first-Reads st.selected_chat st.cursor db,
          page_first-Reads st.selected_chat zero_cursor db,
          reload_reactions-Reads
              (record st { loaded = true; messages = st.messages ++ page.0; cursor = page.1 })
              (page_older d st.selected_chat st.cursor (pos page_size) db).1,
        )
      ]

  pub jump_to_message-Reads :
      (chat : String) (i : ℕ) (st : State) → Reads (jump_to_message d chat i st)
  unfolding jump_to_message
  jump_to_message-Reads chat i st db =
      elim (Result-cases (page_around d chat i (pos 25) (pos 25) db).0) [
        | inr (e, failed) ↦ ground (arith, failed, page_around-Reads d chat i (pos 25) (pos 25) db)
        | inl (page, found) ↦ ground (
          arith,
          found,
          page_around-Reads d chat i (pos 25) (pos 25) db,
          reload_reactions-Reads (show_page chat page st)
              (page_around d chat i (pos 25) (pos 25) db).1,
        )
      ]

  pub search_results-Reads :
      (matches : Runes → List FtsRow → List Match) (query : Runes)
      → Reads (search_results matches d query)
  unfolding search_results
  search_results-Reads matches query db =
      ground (arith, search-Reads d matches (trim_space query) (pos search_limit) db)
