-- ===== src/Session/Targets.antt =====
-- What the trace of a send to several targets has for each of them.
use dklibrary.Common.{
  ℕ, suc, ◌≡◌, refl, sym, ap, subst, if◌then◌else◌, Bool, true, false, List, [], ◌∷◌, some,
}
use dklibrary.Options.{Send, multi, is_set}
use dklibrary.Session.{Call, encodes, sends_bytes, sends, send_bytes_loop, send_loop, send_to}

module _ {Session Message Stream : Type 0} where
  -- The sessions that the calls of a trace are made on, and how often a message is encoded.
  abbrev pub receivers : List (Call Session Message Stream) → List Session
  receivers [] = []
  receivers (encodes m o ∷ calls) = receivers calls
  receivers (sends_bytes t s ∷ calls) = t ∷ receivers calls
  receivers (sends t m o ∷ calls) = t ∷ receivers calls

  abbrev pub encodings : List (Call Session Message Stream) → ℕ
  encodings [] = 0
  encodings (encodes m o ∷ calls) = suc (encodings calls)
  encodings (sends_bytes t s ∷ calls) = encodings calls
  encodings (sends t m o ∷ calls) = encodings calls

  -- The calls that carry one message: as the bytes of a stream, or as itself.
  abbrev pub AllCarry : Stream → Message → Send → List (Call Session Message Stream) → Type 0
  AllCarry stream message opts [] = Unit
  AllCarry stream message opts (encodes m o ∷ calls) =
      (m ≡ message) × (o ≡ opts) × AllCarry stream message opts calls
  AllCarry stream message opts (sends_bytes t s ∷ calls) =
      (s ≡ stream) × AllCarry stream message opts calls
  AllCarry stream message opts (sends t m o ∷ calls) =
      (m ≡ message) × (o ≡ opts) × AllCarry stream message opts calls

  module _ (encode : Message → Send → Stream) (message : Message) (opts : Send) where
    bytes_lem :
        (targets : List Session)
        → (receivers (send_bytes_loop encode (encode message opts) targets) ≡ targets)
          × (encodings (send_bytes_loop encode (encode message opts) targets) ≡ 0)
          × AllCarry
              (encode message opts)
              message
              opts
              (send_bytes_loop encode (encode message opts) targets)
    unfolding send_bytes_loop
    bytes_lem [] = (refl, refl, tt)
    bytes_lem (t ∷ targets) =
        let (each, none_encoded, carry) = bytes_lem targets in
        (ap (λ ts. t ∷ ts) each, none_encoded, (refl, carry))

    messages_lem :
        (targets : List Session)
        → (receivers (send_loop encode message opts targets) ≡ targets)
          × (encodings (send_loop encode message opts targets) ≡ 0)
          × AllCarry (encode message opts) message opts (send_loop encode message opts targets)
    unfolding send_loop
    messages_lem [] = (refl, refl, tt)
    messages_lem (t ∷ targets) =
        let (each, none_encoded, carry) = messages_lem targets in
        (ap (λ ts. t ∷ ts) each, none_encoded, (refl, refl, carry))

    -- The calls of send, by whether the option is set.
    abbrev calls : Bool → List Session → List (Call Session Message Stream)
    calls true targets = encodes message opts ∷ send_bytes_loop encode (encode message opts) targets
    calls false targets = send_loop encode message opts targets

    calls_eq :
        (at_once : Bool) (targets : List Session)
        → (if at_once
            then encodes message opts ∷ send_bytes_loop encode (encode message opts) targets
            else send_loop encode message opts targets)
          ≡ calls at_once targets
    calls_eq true targets = refl
    calls_eq false targets = refl

    calls_lem :
        (at_once : Bool) (targets : List Session)
        → (receivers (calls at_once targets) ≡ targets)
          × (encodings (calls at_once targets) ≡ (if at_once then 1 else 0))
          × AllCarry (encode message opts) message opts (calls at_once targets)
    calls_lem true targets =
        let (each, none_encoded, carry) = bytes_lem targets in
        (each, ap suc none_encoded, (refl, refl, carry))
    calls_lem false targets = messages_lem targets

  pub send_to-targets :
      (encode : Message → Send → Stream) (this : Session) (message : Message) (opts : Send)
      (targets : List Session)
      → (receivers (send_to encode this message opts (some targets)) ≡ targets)
        × (encodings (send_to encode this message opts (some targets))
            ≡ (if is_set multi opts then 1 else 0))
        × AllCarry
            (encode message opts)
            message
            opts
            (send_to encode this message opts (some targets))
  unfolding send_to
  send_to-targets encode this message opts targets =
      subst
        (λ made.
          (receivers made ≡ targets)
          × (encodings made ≡ (if is_set multi opts then 1 else 0))
          × AllCarry (encode message opts) message opts made)
        (sym (calls_eq encode message opts (is_set multi opts) targets))
        (calls_lem encode message opts (is_set multi opts) targets)
