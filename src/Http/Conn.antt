-- ===== src/Http/Conn.antt =====
-- `send_all` and `read_request` of src/http_sse.cpp, over what poll, send and recv return.
pub mod Laws
use ratehub.Prelude.{
  ℕ, zero, suc, ◌+◌, ◌-◌, Bool, true, false, List, [], ◌∷◌, ◌++◌, length, take, drop, ltb, ◌==◌,
  if◌then◌else◌,
}
use ratehub.Prelude.Text.{codes, c_string, contains}

-- One round of the loop of `send_all`: the poll fails or finds an error; the send is to be tried again,
-- fails, or takes some bytes, never more than it is offered.
pub data SendTurn : Type 0 where
  poll_failed again broken : SendTurn
  took : ℕ → SendTurn

-- One round of the loop of `read_request`: no bytes are the end of the stream.
pub data RecvTurn : Type 0 where
  poll_failed again broken : RecvTurn
  arrived : List ℕ → RecvTurn

-- `wire` holds the bytes that the peer has been sent.
pub record Conn : Type 0 where
  pub wire : List ℕ
  pub sends : List SendTurn
  pub receives : List RecvTurn

-- The loop, with the bytes left to send.
unfoldable pub send_loop : List SendTurn → List ℕ → List ℕ → Bool × List ℕ × List SendTurn
send_loop turns [] wire = (true, wire, turns)
send_loop [] (c ∷ rest) wire = (false, wire, [])
send_loop (SendTurn.poll_failed ∷ turns) (c ∷ rest) wire = (false, wire, turns)
send_loop (SendTurn.again ∷ turns) (c ∷ rest) wire = send_loop turns (c ∷ rest) wire
send_loop (SendTurn.broken ∷ turns) (c ∷ rest) wire = (false, wire, turns)
send_loop (SendTurn.took zero ∷ turns) (c ∷ rest) wire = (false, wire, turns)
send_loop (SendTurn.took (suc n) ∷ turns) (c ∷ rest) wire =
    send_loop turns (drop n rest) (wire ++ (c ∷ take n rest))

unfoldable pub send_all : Conn → List ℕ → Bool × Conn
unfolding send_loop
send_all conn bytes =
    let (sent, wire, turns) = send_loop conn.sends bytes conn.wire in
    (sent, record conn { wire = wire; sends = turns })

abbrev pub blank_line : List ℕ
blank_line = 13 ∷ 10 ∷ 13 ∷ 10 ∷ []

-- The loop, with the bytes got so far: the result, and the buffer up to its closing zero. `room` is
-- `cap - 1`.
unfoldable pub read_loop : ℕ → List RecvTurn → List ℕ → Bool × List ℕ
read_loop room [] buf = (false, buf)
read_loop room (RecvTurn.poll_failed ∷ turns) buf = (false, buf)
read_loop room (RecvTurn.again ∷ turns) buf =
    let rest = read_loop room turns buf in if ltb (length buf) room then rest else (false, buf)
read_loop room (RecvTurn.broken ∷ turns) buf = (false, buf)
read_loop room (RecvTurn.arrived bytes ∷ turns) buf =
    let got = take (room - length buf) bytes in
    let buf' = buf ++ got in
    let rest = read_loop room turns buf' in
    if ltb (length buf) room
    then (if length got == 0
        then (false, buf)
        else if contains blank_line (c_string buf')
        then (true, buf')
        else rest)
    else (false, buf)

unfoldable pub read_request : Conn → ℕ → Bool × List ℕ
unfolding read_loop
read_request conn cap = read_loop (cap - 1) conn.receives []
