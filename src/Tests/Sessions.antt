-- ===== src/Tests/Sessions.antt =====
-- LibraryNet/TCPEventListener.h and TCPSession.h.
use dklibrary.Common.{
  ℕ, ◌≡◌, refl, if◌then◌else◌, List, [], ◌∷◌, some, true, M, ret, returns, throws, tcp_exception,
  ◌==◌,
}
use dklibrary.EventListener.{Handler, Entry, find, message_handler}
use dklibrary.EventListener.Handlers.{Op, add, remove, apply_all, IsOf, handlers_lem}
use dklibrary.Options.{Send, multi, is_set}
use dklibrary.Session.{Call, send_to}
use dklibrary.Session.Targets.{receivers, encodings, AllCarry}
use dklibrary.Session.Methods.{Methods, send_to_targets}
use dklibrary.Session.Performing.{perform_all, send_to_targets-performs}
use dklibrary.Stream.{Stream}
use dklibrary.Message.{Message}

abbrev old_handler : Handler ℕ
old_handler = record { message_no = 7; callback = 100 }

abbrev new_handler : Handler ℕ
new_handler = record { message_no = 7; callback = 200 }

abbrev other_handler : Handler ℕ
other_handler = record { message_no = 3; callback = 300 }

abbrev history : List (Op ℕ)
history = add old_handler ∷ add other_handler ∷ add new_handler ∷ remove 3 ∷ []

abbrev registered : List (Entry ℕ)
registered = apply_all history []

handlers_lem_example :
    (find 7 registered ≡ some new_handler)
    × (message_handler 7 registered ≡ true)
    × IsOf 7 (find 7 registered)
handlers_lem_example = handlers_lem history 7

abbrev all_at_once : Send
all_at_once = record { options = 4 }

-- The bytes of a message here are its number and the options.
abbrev two_bytes : Message → Send → Stream
two_bytes message opts = record {
  read = 0;
  written = 2;
  buf = record { size = 2; bytes = message.no ∷ opts.options ∷ [] };
}

-- The sessions that have been reached are counted; a call on session 9 throws.
abbrev reach : ℕ → M (List ℕ) (Unit {0})
reach session reached =
    if session == 9 then throws (tcp_exception "closed") reached else returns tt (session ∷ reached)

abbrev some_methods : Methods (List ℕ)
some_methods = record {
  close = λ a. ret tt;
  lazy_close = λ a. ret tt;
  connect = λ a b c. ret tt;
  reconnect = λ a. ret tt;
  send = λ t m o. reach t;
  send_bytes = λ t s. reach t;
  encode = λ a m o log. returns (two_bytes m o) log;
  flush = λ a. ret tt;
  set_no_delay = λ a b. ret tt;
  decr_num_of_pending_messages = λ a. ret tt;
  set_persistent = λ a b. ret tt;
  set_last_received_time = λ a b. ret tt;
  clear = λ a. ret tt;
  async_send = λ a. ret tt;
  async_receive = λ a. ret tt;
  on_accepted = λ a. ret tt;
  on_resolved = λ a b c. ret tt;
  on_connected = λ a b. ret tt;
  on_closed = λ a. ret tt;
  on_sent = λ a b c. ret tt;
  on_received = λ a b c. ret tt;
  send_stream = λ a b. ret tt;
  send_if = λ a b c d. ret tt;
  send_bytes_if = λ a b c. ret tt;
  post_send = λ a. ret tt;
  fetch = λ a. ret tt;
  set_connected = λ a. ret tt;
  fire_accepted = λ a. ret tt;
  fire_connected = λ a b. ret tt;
  fire_closed = λ a. ret tt;
  incr_num_of_pending_messages = λ a. ret tt;
}

abbrev greeting : Message
greeting = record { no = 7; reserved = 0; serialize = ret tt }

abbrev receiving : List ℕ
receiving = 2 ∷ 9 ∷ 3 ∷ []

abbrev made : List (Call ℕ Message Stream)
made = send_to two_bytes 1 greeting all_at_once (some receiving)

-- The second of three targets throws.
send_to_targets-performs_example :
    (send_to_targets some_methods 1 greeting all_at_once (some receiving) []
      ≡ perform_all some_methods 1 made [])
    × (receivers made ≡ receiving)
    × (encodings made ≡ (if is_set multi all_at_once then 1 else 0))
    × AllCarry (two_bytes greeting all_at_once) greeting all_at_once made
send_to_targets-performs_example =
    send_to_targets-performs some_methods 1 two_bytes greeting all_at_once receiving [] [] refl

stops_at_the_second :
    send_to_targets some_methods 1 greeting all_at_once (some receiving) []
    ≡ throws (tcp_exception "closed") (2 ∷ [])
unfolding send_to_targets is_set
stops_at_the_second = refl
