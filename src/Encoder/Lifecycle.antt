-- ===== src/Encoder/Lifecycle.antt =====
-- The virtual methods of the base Encoder of LibraryNet/Encoder.h and .cpp that follow the life of a
-- session, over the methods of the session.
use dklibrary.Common.{ℕ, Bool, true, false, Option, none, some, M, ret}
use dklibrary.Stream.{Stream}
use dklibrary.Session.Methods.{Methods}

-- m_Session, by its address; none for nullptr.
pub record BaseEncoder : Type 0 where
  pub session : Option ℕ

-- Encoder()
abbrev pub new_encoder : BaseEncoder
new_encoder = record { session = none }

-- OnCreated
unfoldable pub on_created : Option ℕ → BaseEncoder → BaseEncoder
on_created session e = record e { session = session }

module _ {S : Type 0} (methods : Methods S) where
  -- if (m_Session)
  abbrev pub with_session : Option ℕ → (ℕ → M S (Unit {0})) → M S (Unit {0})
  with_session none method = ret tt
  with_session (some session) method = method session

  unfoldable pub finish_accepting : BaseEncoder → M S (Unit {0})
  finish_accepting e = with_session e.session methods.fire_accepted

  unfoldable pub finish_connecting : ℕ → BaseEncoder → M S (Unit {0})
  finish_connecting error e = with_session e.session (λ s. methods.fire_connected s error)

  unfoldable pub finish_closing : BaseEncoder → M S (Unit {0})
  finish_closing e = with_session e.session methods.fire_closed

  -- startAccepting, startConnecting and startClosing, as the base class has them
  unfoldable pub start_accepting : BaseEncoder → M S (Unit {0})
  unfolding finish_accepting
  start_accepting e = finish_accepting e

  unfoldable pub start_connecting : ℕ → BaseEncoder → M S (Unit {0})
  unfolding finish_connecting
  start_connecting error e = finish_connecting error e

  unfoldable pub start_closing : BaseEncoder → M S (Unit {0})
  unfolding finish_closing
  start_closing e = finish_closing e

-- clear, incrNumOfPendingMessages and decrNumOfPendingMessages do nothing.
abbrev pub clear : BaseEncoder → BaseEncoder
clear e = e

abbrev pub incr_num_of_pending_messages : BaseEncoder → BaseEncoder
incr_num_of_pending_messages e = e

abbrev pub decr_num_of_pending_messages : BaseEncoder → BaseEncoder
decr_num_of_pending_messages e = e

-- handleMessage, limitOutgoingNum and established
abbrev pub handle_message : Stream → BaseEncoder → Bool
handle_message stream e = false

abbrev pub limit_outgoing_num : ℕ → BaseEncoder → Bool
limit_outgoing_num n e = false

abbrev pub established : BaseEncoder → Bool
established e = true
