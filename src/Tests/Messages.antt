-- ===== src/Tests/Messages.antt =====
-- The theorems about single messages at the small database.
use wachat.Prelude.{
  ◌+◌, String, ◌≡◌, ◌≢◌, refl, ◌⊎◌, true, false, not, ◌&&◌, ◌==◌, text_eq, arith, text_iff, max,
  if◌then◌else◌,
}
use wachat.Prelude.Tables.{map_option}
use wachat.Store.Schema.{MessageRow, find_message}
use wachat.Store.Exec.{ok}
use wachat.Store.Messages.{insert, insert_row, update_status, status_delivered}
use wachat.Store.Messages.Insert.{insert_all_or_nothing, after_insert, IsErr}
use wachat.Store.Messages.Effect.{
  insert_counts, insert_redelivered, unread_of, last_ts_of, is_stored,
}
use wachat.Store.Messages.Updates.{find_message-update_status}
use wachat.Tests.Data.{memory, memory-Succeeds, empty, one, three, hello, writes}

named : ◌≢◌ {A = String} "w1" ""
named = ground (arith, text_iff "w1" "")

placed : ◌≢◌ {A = String} "alice" ""
placed = ground (arith, text_iff "alice" "")

delivered_given : status_delivered ≢ ""
delivered_given = ground (arith, text_iff "delivered" "")

insert_all_or_nothing_example :
    (IsErr (insert memory hello true three).0 × ((insert memory hello true three).1 ≡ three))
    ⊎ (insert memory hello true three
        ≡ (ok (insert_row memory hello three).0, after_insert memory hello true three))
insert_all_or_nothing_example = insert_all_or_nothing memory hello true three

insert_counts_example :
    ((insert memory hello true three).0 ≡ ok (not (is_stored "w1" three)))
    × ((j : String)
        → unread_of j (insert memory hello true three).1
          ≡ unread_of j three
            + (if "alice" == j && not (is_stored "w1" three) && true then 1 else 0))
    × ((j : String)
        → last_ts_of j (insert memory hello true three).1
          ≡ (if "alice" == j then max (last_ts_of j three) 100 else last_ts_of j three))
insert_counts_example = insert_counts memory memory-Succeeds hello named placed true three

first_insert : insert memory hello true empty ≡ (ok true, one)
unfolding writes
first_insert = refl

insert_redelivered_example :
    ((insert memory hello true one).0 ≡ ok false)
    × ((insert memory hello true one).1.messages ≡ one.messages)
    × ((insert memory hello true one).1.messages_fts ≡ one.messages_fts)
    × ((j : String) → unread_of j (insert memory hello true one).1 ≡ unread_of j one)
insert_redelivered_example =
    insert_redelivered memory hello true empty first_insert memory memory-Succeeds hello refl named
      placed true

find_message-update_status_example :
    find_message "w1" (update_status memory "w1" status_delivered three).1.messages ≡ (
      if hello.wa_id == hello.wa_id
      then map_option {A = MessageRow}
          (λ r. record r { status = status_delivered })
          (find_message "w1" three.messages)
      else find_message "w1" three.messages)
find_message-update_status_example =
    find_message-update_status memory memory-Succeeds "w1" named three "w1" status_delivered
      delivered_given
