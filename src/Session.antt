-- ===== src/Session.antt =====
-- LibraryNet/TCPSession.h. Here, what a send to several targets is to do: the trace of its calls of
-- encode, sendBytes and the send of one message. Session/Methods has the code.
pub mod Targets
pub mod EndPoints
pub mod Members
pub mod Methods
pub mod Performing
use dklibrary.Common.{ℕ, if◌then◌else◌, Bool, true, false, List, [], ◌∷◌, Option, none, some}
use dklibrary.Options.{Send, Flag, multi, is_set}

pub data Call (Session Message Stream : Type 0) : Type 0 where
  encodes : Message → Send → Call Session Message Stream
  sends_bytes : Session → Stream → Call Session Message Stream
  sends : Session → Message → Send → Call Session Message Stream

module _ {Session Message Stream : Type 0} (encode : Message → Send → Stream) where
  -- The two loops over the targets.
  pub send_bytes_loop : Stream → List Session → List (Call Session Message Stream)
  send_bytes_loop stream [] = []
  send_bytes_loop stream (t ∷ targets) = sends_bytes t stream ∷ send_bytes_loop stream targets

  pub send_loop : Message → Send → List Session → List (Call Session Message Stream)
  send_loop message opts [] = []
  send_loop message opts (t ∷ targets) = sends t message opts ∷ send_loop message opts targets

  -- send with targets, by the session `this`; none is a null pointer.
  unfoldable pub send_to :
      Session → Message → Send → Option (List Session) → List (Call Session Message Stream)
  unfolding send_bytes_loop send_loop
  send_to this message opts none = sends this message opts ∷ []
  send_to this message opts (some targets) =
      if is_set multi opts
      then encodes message opts ∷ send_bytes_loop (encode message opts) targets
      else send_loop message opts targets
