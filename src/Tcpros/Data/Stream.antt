-- ===== src/Tcpros/Data/Stream.antt =====
-- The messages that a subscriber reads one after another: the loop of _subscribe_task,
-- aioros/_node/_tcpros/_topic_subscriber.py.
use aioros.Common.{
  ℕ, zero, suc, ◌+◌, ◌<◌, ◌≤◌, ◌≡◌, refl, sym, ap, List, [], ◌∷◌, true, ◌++◌, Option, none, some,
  length, length-append, Exc, end_of_stream, Result, ok, err, ok_path, >>=-eq-ok, Bool-cases, inl,
  inr, ◌>>=◌, arith, drop, leb,
}
use aioros.Tcpros.{receive_exactly}
use aioros.Tcpros.Words.{Bytes, unpack_u32, pack_u32, pack_u32-IsWord}
use aioros.Tcpros.Data.{serialize, read_data, read_data-serialize}

-- the end of a stream ends the task, any other exception leaves it
abbrev pub ended_by : Exc → Result (Unit {0})
ended_by end_of_stream = ok tt
ended_by e = err e

module _ {M : Type 0} (deserialize : Bytes → Result M) where
  abbrev pub with_message :
      M → Option (List M × Result (Unit {0})) → Option (List M × Result (Unit {0}))
  with_message msg none = none
  with_message msg (some (msgs, outcome)) = some (msg ∷ msgs, outcome)

  -- The messages that are handed on and how the loop ends; `none` means that the fuel ran out.
  unfoldable pub receive_loop : ℕ → Bytes → Option (List M × Result (Unit {0}))
  unfolding read_data
  receive_loop zero stream = none
  receive_loop (suc fuel) stream = elim (read_data stream) [
    | err e ↦ some ([], ended_by e)
    | ok (bytes, rest) ↦ elim (deserialize bytes) [
      | err e ↦ some ([], err e)
      | ok msg ↦ with_message msg (receive_loop fuel rest)
    ]
  ]

  unfoldable pub receive_messages : Bytes → Option (List M × Result (Unit {0}))
  unfolding receive_loop
  receive_messages stream = receive_loop (suc (length stream)) stream

-- the bytes of messages one after another
unfoldable pub serialize_all : List Bytes → Result Bytes
serialize_all [] = ok []
serialize_all (body ∷ bodies) = do
  bytes ← serialize body
  rest ← serialize_all bodies
  ok (bytes ++ rest)

length-drop : (n : ℕ) (l : Bytes) → leb n (length l) ≡ true → n + length (drop n l) ≡ length l
length-drop zero l h = omega arith
length-drop (suc n) [] h = ground arith
length-drop (suc n) (b ∷ l) h = ground (arith, length-drop n l)

length-serialize : (body bytes : Bytes) → serialize body ≡ ok bytes → 4 ≤ length bytes
unfolding serialize
length-serialize body bytes h =
    let (p, e, h1) = >>=-eq-ok (pack_u32 (length body)) _ h in
    let w = pack_u32-IsWord (length body) p e in
    let whole : bytes ≡ p ++ body = sym (ok_path h1) in rw (whole, w.form) (omega arith)

receive_exactly_shorter :
    (size : ℕ) (stream bytes rest : Bytes)
    → receive_exactly size stream ≡ ok (bytes, rest)
    → size + length rest ≤ length stream
unfolding receive_exactly
receive_exactly_shorter size stream bytes rest h = elim (Bool-cases (leb size (length stream))) [
  | inl fits ↦
      let same : drop size stream ≡ rest = ap (λ x. x.1) (ok_path (rw fits at h)) in
      rw (← same) (ground (arith, length-drop size stream))
  | inr short ↦ absurd (cc (rw short at h))
]

pub read_data_shorter :
    (stream bytes rest : Bytes) → read_data stream ≡ ok (bytes, rest) → length rest < length stream
unfolding read_data
read_data_shorter stream bytes rest h =
    let ((size_bytes, stream'), e, h1) = >>=-eq-ok (receive_exactly 4 stream) _ h in
    let (size, e1, h2) = >>=-eq-ok (unpack_u32 size_bytes) _ h1 in
    omega (
      arith,
      receive_exactly_shorter 4 stream size_bytes stream' e,
      receive_exactly_shorter size stream' bytes rest h2,
    )

module _ {M : Type 0} (deserialize : Bytes → Result M) where
  -- the messages that a list of bodies is read as
  abbrev pub AreRead : List Bytes → List M → Type 0
  AreRead [] [] = Unit
  AreRead (body ∷ bodies) (msg ∷ msgs) = (deserialize body ≡ ok msg) × AreRead bodies msgs
  AreRead _ _ = ⊥

  receive_loop_nothing : (fuel : ℕ) → receive_loop deserialize (suc fuel) [] ≡ some ([], ok tt)
  unfolding receive_loop read_data receive_exactly
  receive_loop_nothing fuel = refl

  receive_loop_all :
      (fuel : ℕ) (bodies : List Bytes) (msgs : List M) (stream : Bytes)
      → serialize_all bodies ≡ ok stream
      → AreRead bodies msgs
      → length stream < fuel
      → receive_loop deserialize fuel stream ≡ some (msgs, ok tt)
  unfolding serialize_all receive_loop
  receive_loop_all zero bodies msgs stream h r lt = absurd (omega arith)
  receive_loop_all (suc fuel) [] [] stream h r lt = rw (← ok_path h) (receive_loop_nothing fuel)
  receive_loop_all (suc fuel) [] (msg ∷ msgs) stream h r lt = absurd r
  receive_loop_all (suc fuel) (body ∷ bodies) [] stream h r lt = absurd r
  receive_loop_all (suc fuel) (body ∷ bodies) (msg ∷ msgs) stream h r lt =
      let (bytes, e, h1) = >>=-eq-ok (serialize body) _ h in
      let (rest, e1, h2) = >>=-eq-ok (serialize_all bodies) _ h1 in
      let whole : stream ≡ bytes ++ rest = sym (ok_path h2) in
      let read = read_data-serialize body bytes rest e in
      let later =
        receive_loop_all fuel bodies msgs rest e1 r.1
          (ground (arith, whole, length-append bytes rest, length-serialize body bytes e)) in
      rw whole (rw (read, r.0, later, receive_loop) refl)

  -- A subscriber that reads what was serialized of a list of messages hands on these messages in
  -- their order, and ends with the stream.
  pub receive_messages-serialize_all :
      (bodies : List Bytes) (msgs : List M) (stream : Bytes)
      → serialize_all bodies ≡ ok stream
      → AreRead bodies msgs
      → receive_messages deserialize stream ≡ some (msgs, ok tt)
  unfolding receive_messages
  receive_messages-serialize_all bodies msgs stream h r =
      receive_loop_all (suc (length stream)) bodies msgs stream h r (omega arith)
