-- ===== src/MessageHandler.antt =====
-- LibraryNet/TCPMessageHandler.h: a handler reads a message of its type from the stream and hands it
-- to its callback. A callback is not modelled; `handle` returns what it is called with, and throws
-- where it is not called.
pub mod Handling
pub mod Delivery
use dklibrary.Common.{ℕ, M, ret, ◌>>=◌}
use dklibrary.Stream.{Stream}
use dklibrary.Message.Types.{MessageType, get_serializable, FlatBuffers, deserialize_fb}

-- TCPMessageHandlerT<TCPMessageT>, with m_Callback, which is named by a number.
pub record TypedHandler (A : Type 0) : Type 0 where
  pub type : MessageType A
  pub callback : ℕ

-- TCPMessageHandlerT<FBMessageAdaptorT<FBMessageT>>
pub record FbHandler (A R : Type 0) : Type 0 where
  pub type : FlatBuffers A R
  pub callback : ℕ

-- A call of a callback with a session, by its address, and a message.
pub record Call (A : Type 0) : Type 0 where
  pub callback : ℕ
  pub session : ℕ
  pub message : A

-- getMessageNo and handle
unfoldable pub get_message_no : {A : Type 0} → TypedHandler A → ℕ
get_message_no h = h.type.number

unfoldable pub handle : {A : Type 0} → TypedHandler A → ℕ → M Stream (Call A)
handle h session = do
  message ← get_serializable h.type.serializable
  ret (record { callback = h.callback; session = session; message = message })

unfoldable pub get_fb_message_no : {A R : Type 0} → FbHandler A R → ℕ
get_fb_message_no h = h.type.table_number

unfoldable pub handle_fb : {A R : Type 0} → FbHandler A R → ℕ → M Stream (Call R)
handle_fb h session = do
  message ← deserialize_fb h.type
  ret (record { callback = h.callback; session = session; message = message })
