-- ===== src/Session/Members.antt =====
-- The members of TCPSession of LibraryNet/TCPSession.h, with the methods that read and set them. The
-- sockets and strands of boost::asio and the mutex are not among them.
use dklibrary.Common.{ℕ, Bool, Option}
use dklibrary.Common.Integer.{ℤ}
use dklibrary.SendQueue.{SendQueue}
use dklibrary.RecvQueue.{RecvQueue}
use dklibrary.Session.EndPoints.{EndPoint}

-- INVALID_SESSION_NO and INVALID_NODE_NO
abbrev pub invalid_session_no : ℕ
invalid_session_no = 0

abbrev pub invalid_node_no : ℕ
invalid_node_no = 0

-- The event queue and the encoder are named by their addresses.
pub record Members : Type 0 where
  pub event_queue : ℕ
  pub send_queue : SendQueue
  pub recv_queue : RecvQueue
  pub encoder : Option ℕ
  pub end_point : EndPoint
  pub inbound : Bool
  pub connecting : Bool
  pub connected : Bool
  pub lazy_close : Bool
  pub no : ℕ
  pub persistent : Bool
  pub last_received_time : ℤ

abbrev pub is_inbound : Members → Bool
is_inbound s = s.inbound

abbrev pub is_connected : Members → Bool
is_connected s = s.connected

unfoldable pub set_no : ℕ → Members → Members
set_no number s = record s { no = number }

abbrev pub get_no : Members → ℕ
get_no s = s.no

abbrev pub get_end_point : Members → EndPoint
get_end_point s = s.end_point

abbrev pub is_persistent : Members → Bool
is_persistent s = s.persistent

abbrev pub get_last_received_time : Members → ℤ
get_last_received_time s = s.last_received_time
