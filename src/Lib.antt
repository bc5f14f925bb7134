-- ===== src/Lib.antt =====
-- wachat, a desktop WhatsApp client in Go: its local store of messages and chats.
--
-- Parts. Store models internal/store: Store/Schema the tables of schema.sql and the rows,
-- Store/Exec a method as an action that may fail, Store/Messages messages.go (insert is
-- Store.Insert, upsert_chat UpsertChat, apply_edit ApplyEdit, apply_revoke ApplyRevoke,
-- update_status UpdateStatus, set_starred SetStarred, mark_read MarkRead), Store/Paging paging.go
-- (page_older, page_around), Store/Batch batch.go, Store/ChatState chatstate.go, Store/Reactions
-- reactions.go, Store/Settings settings.go, Store/Migrations store.go (open_store is Open without
-- the connection); Store/Search search.go and ListStarred; Store/WellFormed is the invariant of the
-- database. Media models internal/media: Media/Cache cache.go (decode is Cache.Decode, release
-- Cache.Release, evict_if_over evictIfOver) and Media/Tracker tracker.go (set_visible, clear). Wa
-- models internal/wa: Wa/Extract the texts and attachments of a message, Wa/Handler OnMessage and
-- its pipeline, Wa/Updates the receipts, reactions, edits and chat settings, Wa/History the history
-- sync, Wa/Dispatch the adapter, Wa/Format the durations and sizes of media.go. Ui models
-- internal/ui: Ui/State state.go (on_incoming is State.OnIncoming, set_typing SetTyping, load_older
-- LoadOlder), Ui/Grouping grouping.go, Ui/Bubble bubble.go (bubble_sections is layoutBubble without
-- its drawing), Ui/View view.go, Ui/Rows chatrow.go, Ui/Pairing pairing.go and banner.go,
-- Ui/Composer composer.go, Ui/Theme theme.go and the two palettes, Ui/Draw the trees that the
-- layout functions hand to Gio, Ui/Layout View.Layout with its clicks and panes, Ui/View/Images the
-- thumbnails of a frame. Wa/Client is client.go and send.go with SendReaction and DownloadImage.
-- Main models main.go: the drain of the channel (drain_incoming_notify), the send path (on_send,
-- and send_and_mark for its goroutine), the connection state and the persisted theme. Pairing is
-- the stream of pairing codes: adaptQRChannel of client.go, and the fan-out of main.go with its two
-- readers. Main/Frame is the frame loop: the callbacks over the store, renderRoot, and a round with
-- its drain. An event goes from Wa to writes of Store, then through a channel to Ui, which reads
-- pages back from Store. The child modules hold the proofs, Prelude the shared lists, sorting and
-- keyed tables, Tests the concrete inputs.
--
-- State. A database is a record of tables, each a list of rows, newest row first. SQL statements
-- are read as operations on these lists: WHERE as a filter, ORDER BY as a stable sort, LIMIT as a
-- prefix, ON CONFLICT as an upsert by the key, the full-text triggers as writes to the index table.
-- What the SQLite driver decides is the parameter Sqlite: which of a method's calls fail, and the
-- rowid of a new row, which SQLite documents to be positive and above every rowid of the table. Each
-- method of the store that an event leads to, and each call of a callback in a frame, has a driver of
-- its own. A failed statement writes nothing, and an error within a transaction takes back what it
-- wrote.
--
-- The cache's map is a list with one entry for a path; its image decoder and the order in which Go
-- walks a map are parameters. Its eviction loop is a recursion on the list of released paths.
--
-- A handler works on a world: the database, the events in the buffer of its channel, and the
-- effects (notify, log, callbacks) in order. The protobuf messages of whatsmeow are a parameter,
-- Wa/Proto: the getters that the code calls; so is the file system that takes a thumbnail. A method
-- of the view-model is an action on the database that yields the next state; on an error the state
-- stays.
--
-- The goroutines of the pairing stream are a step relation on their channels and program points
-- (Pairing.Step); a run is a sequence of steps in any order. The linking screen has a second writer,
-- the report of a connection in OnConnState, and Pairing.ScreenStep has both. A hand-over to a
-- waiting receiver is a send followed by a receive; an item counts as received by the window when
-- HandleQR takes it. What whatsmeow answers to a call is a parameter, Wa.Client.Whatsmeow, with a
-- state of its own; the methods of Client are given that state, or none for a missing client.
--
-- A frame reads the caller's state through its callbacks, in the order of the code: clicks on chats
-- and the header, then the search bar, the results and the composer, then the messages, since Gio
-- lays out the rigid children of a flex before the flexed ones, and the pagination trigger last.
-- The theme of a frame and the variable that the toggles set may be one object or two. The texts of
-- the editors are those at the start of a frame.
--
-- Numbers. Times are unix milliseconds and rowids, both natural numbers here; a limit, a window
-- side and a mute deadline are signed. The time of a history message is taken modulo 2^64;
-- otherwise times stay below 2^63, and negative times are outside the model.
--
-- Texts that are built of digits or compared are lists of code points. A buffer of bytes with a
-- fixed size is the number of bytes left in it.
--
-- Fuel. The client that walks all pages of a chat runs on fuel, one unit for a page; more than the
-- number of messages in the chat is enough. The drain of the channel runs on fuel, one unit for a
-- round; more than the number of events in the channel and yet to arrive is enough. Every other
-- loop is a recursion on a list or on the room left in a buffer.
--
-- Not modelled: where Gio draws the nodes of a tree and the bubbles in it, text shaping and fonts;
-- the wiring of run and its command line; the tools under cmd; pragmas and SQL indexes, which
-- change no result; contexts and cancellation; the texts of error messages; desktop notifications,
-- and whatsmeow itself. What a lookup by rowid in the full-text table finds is a parameter of
-- open_store, and what it answers to MATCH one of search.
pub mod Main
pub mod Media
pub mod Pairing
pub mod Prelude
pub mod Store
pub mod Ui
pub mod Wa
mod Tests
