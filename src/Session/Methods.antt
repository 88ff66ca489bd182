-- ===== src/Session/Methods.antt =====
-- The methods of TCPSession of LibraryNet/TCPSession.h that are declared and have no body in the
-- repository, as a parameter: what each does to the state `S` of the program. The first argument of
-- each is the session, by its address; an error is the value of its code.
use dklibrary.Common.{
  ℕ, Bool, true, List, [], ◌∷◌, Option, none, some, M, ret, if◌then◌else◌, ◌>>=◌, ◌>>◌,
}
use dklibrary.Common.Integer.{ℤ}
use dklibrary.StreamBuf.{Memory}
use dklibrary.Stream.{Stream}
use dklibrary.Options.{Send, multi, is_set, set}
use dklibrary.Message.{Message}
use dklibrary.Message.Types.{FlatBuffers, adapt}
use dklibrary.Session.EndPoints.{EndPoint}

-- SessionList, of addresses, and SenderCallback
abbrev pub SessionList : Type 0
SessionList = List ℕ

abbrev pub SenderCallback : Type 0 → Type 0
SenderCallback S = Stream → M S (Unit {0})

pub record Methods (S : Type 0) : Type 0 where
  pub close : ℕ → M S (Unit {0})
  pub lazy_close : ℕ → M S (Unit {0})
  pub connect : ℕ → List ℕ → ℕ → M S (Unit {0})
  pub reconnect : ℕ → M S (Unit {0})
  pub send : ℕ → Message → Send → M S (Unit {0})
  pub send_bytes : ℕ → Stream → M S (Unit {0})
  pub encode : ℕ → Message → Send → M S Stream
  pub flush : ℕ → M S (Unit {0})
  pub set_no_delay : ℕ → Bool → M S (Unit {0})
  pub decr_num_of_pending_messages : ℕ → M S (Unit {0})
  pub set_persistent : ℕ → Bool → M S (Unit {0})
  pub set_last_received_time : ℕ → ℤ → M S (Unit {0})
  pub clear : ℕ → M S (Unit {0})
  pub async_send : ℕ → M S (Unit {0})
  pub async_receive : ℕ → M S (Unit {0})
  pub on_accepted : ℕ → M S (Unit {0})
  pub on_resolved : ℕ → ℕ → List EndPoint → M S (Unit {0})
  pub on_connected : ℕ → ℕ → M S (Unit {0})
  pub on_closed : ℕ → M S (Unit {0})
  pub on_sent : ℕ → ℕ → ℕ → M S (Unit {0})
  pub on_received : ℕ → ℕ → ℕ → M S (Unit {0})
  pub send_stream : ℕ → Stream → M S (Unit {0})
  pub send_if : ℕ → Message → Send → M S Bool → M S (Unit {0})
  pub send_bytes_if : ℕ → Stream → M S Bool → M S (Unit {0})
  pub post_send : ℕ → M S (Unit {0})
  pub fetch : ℕ → M S (Unit {0})
  pub set_connected : ℕ → M S (Unit {0})
  pub fire_accepted : ℕ → M S (Unit {0})
  pub fire_connected : ℕ → ℕ → M S (Unit {0})
  pub fire_closed : ℕ → M S (Unit {0})
  pub incr_num_of_pending_messages : ℕ → M S (Unit {0})

module _ {S : Type 0} (methods : Methods S) where
  -- The loops of send with targets, and send itself.
  unfoldable pub bytes_to_all : Stream → SessionList → M S (Unit {0})
  bytes_to_all stream [] = ret tt
  bytes_to_all stream (t ∷ targets) = do methods.send_bytes t stream; bytes_to_all stream targets

  unfoldable pub message_to_all : Message → Send → SessionList → M S (Unit {0})
  message_to_all message opts [] = ret tt
  message_to_all message opts (t ∷ targets) = do
    methods.send t message opts
    message_to_all message opts targets

  unfoldable pub send_to_targets : ℕ → Message → Send → Option SessionList → M S (Unit {0})
  unfolding bytes_to_all message_to_all
  send_to_targets this message opts none = methods.send this message opts
  send_to_targets this message opts (some targets) =
      if is_set multi opts
      then (do stream ← methods.encode this message opts; bytes_to_all stream targets)
      else message_to_all message opts targets

  -- sendMulticast, with the callback
  unfoldable pub send_multicast : ℕ → Message → SenderCallback S → Send → M S (Unit {0})
  send_multicast this message callback opts = do
    stream ← methods.encode this message (set multi true opts)
    callback stream

  -- send and sendMulticast of a FlatBuffers object
  module _ ⦃memory : Memory⦄ {A R : Type 0} (fb : FlatBuffers A R) where
    unfoldable pub send_fb : ℕ → A → Send → Option SessionList → M S (Unit {0})
    unfolding send_to_targets adapt
    send_fb this a opts targets = send_to_targets this (adapt fb a) opts targets

    unfoldable pub send_multicast_fb : ℕ → A → SenderCallback S → Send → M S (Unit {0})
    unfolding send_multicast adapt
    send_multicast_fb this a callback opts = send_multicast this (adapt fb a) callback opts
