-- ===== src/MessageHandler/Handling.antt =====
-- What reaches the callback of a handler.
use dklibrary.Common.{ℕ, ◌≡◌, List, [], ◌++◌, true, ret}
use dklibrary.Stream.{Stream}
use dklibrary.Stream.Valid.{IsValid, contents}
use dklibrary.Stream.Codec.Laws.{IsCodec, Gets, Gets-then, Gets-ret}
use dklibrary.Message.Types.{get_serializable, deserialize_fb}
use dklibrary.Message.Types.Adapting.{deserialize_accepts}
use dklibrary.MessageHandler.{TypedHandler, FbHandler, handle, handle_fb}

-- The callback gets the session and the message that the bytes at the front of the stream stand
-- for, and exactly those bytes are read, for every type whose << and >> are a codec.
pub handle_lem :
    {A : Type 0} (h : TypedHandler A) (P : A → Type 0) (wire : A → List ℕ)
    → IsCodec h.type.serializable P wire
    → (session : ℕ) (a : A) (rest : List ℕ) (s : Stream) → P a
    → IsValid s
    → contents s ≡ wire a ++ rest
    → Gets
        (handle h session)
        s
        (record { callback = h.callback; session = session; message = a })
        rest
unfolding handle get_serializable
handle_lem h P wire codec session a rest s p v e =
    Gets-then h.type.serializable.get
      (λ m. ret (record { callback = h.callback; session = session; message = m })) s a rest
      (record { callback = h.callback; session = session; message = a }) rest
      (codec.get_lem a rest s p v e)
      (λ t valid left.
        Gets-ret (record { callback = h.callback; session = session; message = a }) t rest valid
          left)

pub handle_fb_lem :
    {A R : Type 0} (h : FbHandler A R) (session : ℕ) (s : Stream)
    → IsValid s
    → h.type.verify (contents s) ≡ true
    → Gets
        (handle_fb h session)
        s
        (record {
          callback = h.callback;
          session = session;
          message = h.type.get_root (contents s);
        })
        []
unfolding handle_fb
handle_fb_lem h session s v ok =
    Gets-then (deserialize_fb h.type)
      (λ m. ret (record { callback = h.callback; session = session; message = m })) s
      (h.type.get_root (contents s)) []
      (record { callback = h.callback; session = session; message = h.type.get_root (contents s) })
      [] (deserialize_accepts h.type s v ok)
      (λ t valid left.
        Gets-ret
          (record {
            callback = h.callback;
            session = session;
            message = h.type.get_root (contents s);
          })
          t [] valid left)
