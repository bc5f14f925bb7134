-- ===== src/Tests/Batch.antt =====
-- A batch with a message that is stored already, one without an id, and two of one chat.
use wachat.Prelude.{◌≡◌, ◌⊎◌, [], ◌∷◌, List}
use wachat.Store.Schema.{Message}
use wachat.Store.Exec.{ok}
use wachat.Store.WellFormed.{WellFormed}
use wachat.Store.Batch.{insert_batch}
use wachat.Store.Batch.Run.{created_by}
use wachat.Store.Batch.Each.{insert_each, IsSameStore, insert_batch-eq-insert_each}
use wachat.Store.Batch.Atomic.{insert_batch_atomic}
use wachat.Store.Messages.Insert.{IsErr}
use wachat.Tests.Data.{memory, memory-Succeeds, text, hello, three, three-IsSound}

abbrev batch : List Message
batch =
    hello
    ∷ text "" "alice" 900 "no id"
    ∷ text "w8" "dave" 30 "late"
    ∷ text "w9" "dave" 70 "new"
    ∷ []

insert_batch-eq-insert_each_example :
    ((insert_batch memory batch three).0 ≡ (insert_each memory batch three).0)
    × IsSameStore (insert_each memory batch three).1 (insert_batch memory batch three).1
insert_batch-eq-insert_each_example = insert_batch-eq-insert_each memory batch three memory-Succeeds

insert_batch_atomic_example :
    (IsErr (insert_batch memory batch three).0 × ((insert_batch memory batch three).1 ≡ three))
    ⊎ (((insert_batch memory batch three).0 ≡ ok (created_by memory batch three))
        × WellFormed (insert_batch memory batch three).1)
insert_batch_atomic_example = insert_batch_atomic memory batch three three-IsSound.well_formed
