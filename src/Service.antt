-- ===== src/Service.antt =====
-- LibraryNet/TCPAcceptor.h and the class TCPService of LibraryNet/TCPService.h: how servers are started
-- and sessions made. The methods that have no body in the repository are parameters: what each does
-- to the state `S` of the program. Listeners and sessions are named by their addresses.
use dklibrary.Common.{
  ℕ, Bool, true, false, List, [], ◌∷◌, ◌++◌, M, Outcome, returns, throws, ret, modify, ◌>>=◌, ◌>>◌,
}
use dklibrary.Event.{EventContext}
use dklibrary.Stream.{Stream}
use dklibrary.Session.Methods.{Methods}

-- The virtual methods of TCPEventListener, its dispatch of one context, and handleMessage.
pub record ListenerMethods (S : Type 0) : Type 0 where
  pub dispatch : ℕ → M S Bool
  pub is_async : ℕ → Bool
  pub get_context : ℕ → M S ℕ
  pub handle_message : ℕ → ℕ → Stream → M S (Unit {0})
  pub dispatch_context : ℕ → EventContext → M S Bool

-- The members of TCPAcceptor without those of boost::asio, and its methods.
pub record Acceptor : Type 0 where
  pub address : List ℕ
  pub port : ℕ
  pub event_listener : ℕ

pub record AcceptorMethods (S : Type 0) : Type 0 where
  pub start : Acceptor → M S (Unit {0})
  pub async_accept : Acceptor → M S (Unit {0})
  pub on_accepted : Acceptor → ℕ → ℕ → M S (Unit {0})

-- TCPAcceptorT()
abbrev pub new_acceptor : List ℕ → ℕ → ℕ → Acceptor
new_acceptor address port listener = record {
  address = address;
  port = port;
  event_listener = listener;
}

-- make_shared<TCPSession>(m_IoContext, queue, new EncoderT, inbound): the constructor of this shape
-- is not declared.
abbrev pub MakeSession : Type 0 → Type 0
MakeSession S = ℕ → Bool → M S ℕ

-- createSession of TCPAcceptorT
unfoldable pub create_session : {S : Type 0} → ListenerMethods S → MakeSession S → Acceptor → M S ℕ
create_session listeners make_session a = do
  queue ← listeners.get_context a.event_listener
  make_session queue true

-- m_Acceptors, with the rest of the program.
pub record Service (S : Type 0) : Type 0 where
  pub acceptors : List Acceptor
  pub program : S

pub record ServiceMethods (S : Type 0) : Type 0 where
  pub open_with : ℕ → M S (Unit {0})
  pub close : M S (Unit {0})
  pub run : M S (Unit {0})
  pub add_event_listener : ℕ → M S (Unit {0})

abbrev pub put_program : {S A : Type 0} → Service S → Outcome S A → Outcome (Service S) A
put_program s (returns a p) = returns a (record s { program = p })
put_program s (throws e p) = throws e (record s { program = p })

-- A method that leaves m_Acceptors as they are.
abbrev pub in_program : {S A : Type 0} → M S A → M (Service S) A
in_program method s = put_program s (method s.program)

module _ {S : Type 0} (service : ServiceMethods S) where
  -- startServer
  unfoldable pub start_server : AcceptorMethods S → List ℕ → ℕ → ℕ → M (Service S) (Unit {0})
  start_server acceptors address port listener =
      let acceptor = new_acceptor address port listener in
      do
        in_program (acceptors.start acceptor)
        modify (λ s. record s { acceptors = s.acceptors ++ (acceptor ∷ []) })
        in_program (service.add_event_listener listener)

  -- connectServer
  unfoldable pub connect_server :
      ListenerMethods S → Methods S → MakeSession S → List ℕ → ℕ → ℕ → M (Service S) ℕ
  connect_server listeners sessions make_session address port listener = do
    queue ← in_program (listeners.get_context listener)
    session ← in_program (make_session queue false)
    in_program (sessions.connect session address port)
    in_program (service.add_event_listener listener)
    ret session
