-- ===== src/EventListener.antt =====
-- LibraryNet/TCPEventListener.h: the handlers of messages by the message's number, and the choice of
-- an event context. A handler is a value that knows its number; std::unordered_map is an association
-- list, whose order no operation shows.
pub mod Handlers
pub mod Contexts
use dklibrary.Common.Word.{add64}
use dklibrary.Common.Integer.{ℤ}
use dklibrary.Event.{EventContext}
use dklibrary.Message.Types.{FlatBuffers}
use dklibrary.Common.{
  M, returns, throws, undefined, zero, suc, ℕ, ◌+◌, ◌%◌, ◌==◌, if◌then◌else◌, Bool, true, false,
  List, [], ◌∷◌, Option, none, some, length,
}

pub record Handler (H : Type 0) : Type 0 where
  pub message_no : ℕ
  pub callback : H

pub record Entry (H : Type 0) : Type 0 where
  pub key : ℕ
  pub value : Handler H

module _ {H : Type 0} where
  -- find, erase and the assignment to operator[] of m_MessageHandlers
  pub find : ℕ → List (Entry H) → Option (Handler H)
  find number [] = none
  find number (e ∷ handlers) = if e.key == number then some e.value else find number handlers

  pub erase : ℕ → List (Entry H) → List (Entry H)
  erase number [] = []
  erase number (e ∷ handlers) =
      let rest = erase number handlers in if e.key == number then rest else e ∷ rest

  pub assign : ℕ → Handler H → List (Entry H) → List (Entry H)
  assign number h [] = record { key = number; value = h } ∷ []
  assign number h (e ∷ handlers) =
      let rest = assign number h handlers in
      if e.key == number then record e { value = h } ∷ handlers else e ∷ rest

  -- addMessageHandler
  unfoldable pub add_message_handler : Handler H → List (Entry H) → List (Entry H)
  unfolding assign
  add_message_handler h handlers = assign h.message_no h handlers

  -- removeMessageHandler and messageHandler
  unfoldable pub remove_message_handler : ℕ → List (Entry H) → List (Entry H)
  unfolding erase
  remove_message_handler number handlers = erase number handlers

  unfoldable pub message_handler : ℕ → List (Entry H) → Bool
  unfolding find
  message_handler number handlers = elim (find number handlers) [ none ↦ false | some h ↦ true ]

-- EVENTQUEUE_SHRINK_MIN, HEARTBEAT_CHECK_INTERVAL_MSECS, HEARTBEAT_PING_MSECS and
-- HEARTBEAT_TIMEOUT_MSECS
abbrev pub eventqueue_shrink_min : ℕ
eventqueue_shrink_min = 30000

abbrev pub heartbeat_check_interval_msecs : ℕ
heartbeat_check_interval_msecs = 10000

abbrev pub heartbeat_ping_msecs : ℕ
heartbeat_ping_msecs = 45000

abbrev pub heartbeat_timeout_msecs : ℕ
heartbeat_timeout_msecs = 60000

-- The members of TCPEventListener; a callback is a value of `H`, none where it is empty. The
-- handler of message names is static.
pub record Listener (H : Type 0) : Type 0 where
  pub message_handlers : List (Entry H)
  pub last_checked_time : ℤ
  pub closed_handler : Option H
  pub accepted_handler : Option H
  pub connected_handler : Option H

pub record Statics (H : Type 0) : Type 0 where
  pub message_name_handler : Option H

module _ {H : Type 0} where
  abbrev pub set_message_name_handler : Option H → Statics H → Statics H
  set_message_name_handler h s = record s { message_name_handler = h }

  abbrev pub set_closed_handler : Option H → Listener H → Listener H
  set_closed_handler h l = record l { closed_handler = h }

  abbrev pub set_accepted_handler : Option H → Listener H → Listener H
  set_accepted_handler h l = record l { accepted_handler = h }

  abbrev pub set_connected_handler : Option H → Listener H → Listener H
  set_connected_handler h l = record l { connected_handler = h }

-- FBMESSAGE_UNPACK and FBMESSAGE_UNPACK_PTR: the object of the table that a handler gets.
abbrev pub fbmessage_unpack : {A R : Type 0} → FlatBuffers A R → R → A
fbmessage_unpack fb message = fb.unpack message

-- TCPAsyncEventListener, without its threads: their contexts, whether they are to stop, the interval
-- of their dispatches, and the counter that goes round the contexts.
pub record AsyncListener : Type 0 where
  pub contexts : List EventContext
  pub stop : Bool
  pub dispatch_interval : ℤ
  pub pos : ℕ

-- getContext: the index of the context that is returned. `%` by the size of an empty vector is
-- undefined; the counter is a size_t.
unfoldable pub next_context : M AsyncListener ℕ
next_context l = elim (length l.contexts) [
  | zero ↦ throws undefined (record l { pos = add64 l.pos 1 })
  | suc n ↦ returns (l.pos % suc n) (record l { pos = add64 l.pos 1 })
]

-- dispatch() and isAsync() of the two kinds of listeners; the dispatch of a context has no body in
-- the repository.
abbrev pub dispatch_async : AsyncListener → Bool
dispatch_async l = true

abbrev pub is_async_async : AsyncListener → Bool
is_async_async l = true

-- TCPSyncEventListener
pub record SyncListener : Type 0 where
  pub context : EventContext

abbrev pub dispatch_sync : (EventContext → Bool) → SyncListener → Bool
dispatch_sync dispatch l = dispatch l.context

abbrev pub is_async_sync : SyncListener → Bool
is_async_sync l = false

abbrev pub sync_context : SyncListener → EventContext
sync_context l = l.context
