-- ===== src/Tcpros/Data/Received.antt =====
-- The loop that reads messages, against the frames that stand in the stream: _subscribe_task of
-- aioros/_node/_tcpros/_topic_subscriber.py.
use aioros.Common.{◌≡◌, ◌⊎◌, List, [], ◌∷◌, ◌++◌, length, Exc, Result, ok, err}
use aioros.Tcpros.Words.{Bytes, unpack_u32}

-- A stream begins with four bytes that say how long the body is, and the body.
pub record IsFramed (stream body rest : Bytes) : Type 0 where
  pub word : Bytes
  pub size : unpack_u32 word ≡ ok (length body)
  pub whole : stream ≡ word ++ (body ++ rest)

module _ {M : Type 0} (deserialize : Bytes → Result M) where
  -- The messages of a stream and how reading it ends: with the stream, where no whole frame stands at
  -- its front, or with what deserialize raises on a body; any other body is the next message.
  abbrev pub AreReceived : Bytes → List M → Result (Unit {0}) → Type 0
  AreReceived stream [] outcome =
      (((body rest : Bytes) → IsFramed stream body rest → ⊥) × (outcome ≡ ok tt))
      ⊎ ((body : Bytes) × (rest : Bytes) × (e : Exc) × IsFramed stream body rest
          × (deserialize body ≡ err e)
          × (outcome ≡ err e))
  AreReceived stream (msg ∷ msgs) outcome =
      (body : Bytes) × (rest : Bytes) × IsFramed stream body rest
      × (deserialize body ≡ ok msg)
      × AreReceived rest msgs outcome
