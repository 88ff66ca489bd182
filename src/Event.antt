-- ===== src/Event.antt =====
-- LibraryNet/TCPEvent.h: what a session tells a listener, and the queue that it goes through. A
-- session is named by a number, its address; an error is the value of its code.
use dklibrary.Common.{ℕ, List, [], Option, none}
use dklibrary.StreamBuf.{Memory}
use dklibrary.Stream.{Stream, create_stream}
use dklibrary.FlippableQueue.{FlippableQueue, create}

pub data EventType : Type 0 where
  closed : EventType
  accepted : EventType
  connected : EventType
  received : EventType
  sent : EventType
  finalized : EventType

-- none is a null session.
pub record Event : Type 0 where
  pub type : EventType
  pub session : Option ℕ
  pub stream : Stream
  pub error : ℕ

-- TCPEvent(type, session, stream, error), and its default arguments: no session, a stream that is
-- empty, and no error. The copy of the stream that it keeps has the bytes of its origin.
unfoldable pub event_of : EventType → Option ℕ → Stream → ℕ → Event
event_of type session stream error = record {
  type = type;
  session = session;
  stream = stream;
  error = error;
}

unfoldable pub plain_event : ⦃memory : Memory⦄ → EventType → Event
unfolding event_of
plain_event type = event_of type none (create_stream 0) 0

abbrev pub EventQueue : Type 0
EventQueue = FlippableQueue Event

-- m_Sessions is a set.
pub record EventContext : Type 0 where
  pub event_queue : EventQueue
  pub sessions : List ℕ

abbrev pub no_events : EventContext
no_events = record { event_queue = create; sessions = [] }
