-- ===== src/Session/Performing.antt =====
-- The calls of send of LibraryNet/TCPSession.h, made on the sessions of a program.
use dklibrary.Common.{
  ℕ, ◌≡◌, refl, ap, Bool, true, false, List, [], ◌∷◌, some, M, returns, ret, if◌then◌else◌, ◌>>=◌,
  ◌>>◌,
}
use dklibrary.Stream.{Stream}
use dklibrary.Options.{Send, multi, is_set}
use dklibrary.Message.{Message}
use dklibrary.Session.{Call, encodes, sends_bytes, sends, send_bytes_loop, send_loop, send_to}
use dklibrary.Session.Methods.{Methods, SessionList, bytes_to_all, message_to_all, send_to_targets}
use dklibrary.Session.Targets.{receivers, encodings, AllCarry, send_to-targets}

module _ {S : Type 0} (methods : Methods S) (this : ℕ) where
  -- One call, and a trace of them up to the first that throws.
  abbrev pub perform : Call ℕ Message Stream → M S (Unit {0})
  perform (encodes message opts) = methods.encode this message opts >>= λ stream. ret tt
  perform (sends_bytes target stream) = methods.send_bytes target stream
  perform (sends target message opts) = methods.send target message opts

  unfoldable pub perform_all : List (Call ℕ Message Stream) → M S (Unit {0})
  perform_all [] = ret tt
  perform_all (call ∷ calls) = perform call >> perform_all calls

  module _ (encode : Message → Send → Stream) (message : Message) (opts : Send) where
    bytes_same :
        (stream : Stream) (targets : SessionList)
        → bytes_to_all methods stream targets ≡ perform_all (send_bytes_loop encode stream targets)
    unfolding bytes_to_all send_bytes_loop perform_all
    bytes_same stream [] = refl
    bytes_same stream (t ∷ targets) =
        ap (λ rest. methods.send_bytes t stream >> rest) (bytes_same stream targets)

    messages_same :
        (targets : SessionList)
        → message_to_all methods message opts targets
          ≡ perform_all (send_loop encode message opts targets)
    unfolding message_to_all send_loop perform_all
    messages_same [] = refl
    messages_same (t ∷ targets) =
        ap (λ rest. methods.send t message opts >> rest) (messages_same targets)

    to_all_same :
        (at_once : Bool) (targets : SessionList) (s s' : S)
        → methods.encode this message opts s ≡ returns (encode message opts) s'
        → (if at_once
              then (do
                stream ← methods.encode this message opts
                bytes_to_all methods stream targets)
              else message_to_all methods message opts targets)
            s
          ≡ perform_all
              (if at_once
                then encodes message opts ∷ send_bytes_loop encode (encode message opts) targets
                else send_loop encode message opts targets)
              s
    unfolding perform_all
    to_all_same true targets s s' h =
        rw (◌>>◌, ◌>>=◌, h) (ap (λ run. run s') (bytes_same (encode message opts) targets))
    to_all_same false targets s s' h = ap (λ run. run s) (messages_same targets)

    -- send to targets makes, whatever the methods that it calls do, the calls of a trace, one after
    -- another, up to the first that throws, and throws what that throws: one call on each of the
    -- targets, in their order, and on no other session, each with the message. With the multi option
    -- the message is encoded once for all, otherwise it is not encoded before the calls. The
    -- encoding of the message succeeds, with the stream `encode message opts`.
    pub send_to_targets-performs :
        (targets : SessionList) (s s' : S)
        → methods.encode this message opts s ≡ returns (encode message opts) s'
        → (send_to_targets methods this message opts (some targets) s
            ≡ perform_all (send_to encode this message opts (some targets)) s)
          × (receivers (send_to encode this message opts (some targets)) ≡ targets)
          × (encodings (send_to encode this message opts (some targets))
              ≡ (if is_set multi opts then 1 else 0))
          × AllCarry
              (encode message opts)
              message
              opts
              (send_to encode this message opts (some targets))
    unfolding send_to_targets send_to
    send_to_targets-performs targets s s' h =
        let (each, once, carry) = send_to-targets encode this message opts targets in
        (to_all_same (is_set multi opts) targets s s' h, each, once, carry)
