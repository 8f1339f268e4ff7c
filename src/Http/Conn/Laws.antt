-- ===== src/Http/Conn/Laws.antt =====
-- What reaches the peer, and which requests are read, however the kernel cuts the stream.
use ratehub.Prelude.{
  ℕ, zero, suc, ◌-◌, ◌≤◌, ◌≡◌, ◌↔◌, refl, sym, ap, ◌∙◌, subst, inl, inr, true, false, Bool-cases,
  List, [], ◌∷◌, ◌++◌, append_assoc, append-nil, length, take, drop, take-append-drop, ltb→lt,
  arith, ltb,
}
use ratehub.Prelude.Cuts.{take_short, take_full, take_room, take-take_append, length-take-le}
use ratehub.Prelude.Text.{c_string, contains, starts_with, contains-append, c_string-append}
use ratehub.Http.Conn.{
  SendTurn, RecvTurn, Conn, send_loop, send_all, blank_line, read_loop, read_request,
}

send_loop-wire :
    (turns : List SendTurn) (bytes wire : List ℕ)
    → (rest : List ℕ) × ((send_loop turns bytes wire).1 ++ rest ≡ wire ++ bytes)
      × (((send_loop turns bytes wire).0 ≡ true) ↔ (rest ≡ []))
unfolding send_loop
send_loop-wire turns [] wire = ([], refl, (λ h. refl, λ h. refl))
send_loop-wire [] (c ∷ bytes) wire = (c ∷ bytes, refl, (λ h. cc, λ h. cc))
send_loop-wire (SendTurn.poll_failed ∷ turns) (c ∷ bytes) wire =
    (c ∷ bytes, refl, (λ h. cc, λ h. cc))
send_loop-wire (SendTurn.again ∷ turns) (c ∷ bytes) wire = send_loop-wire turns (c ∷ bytes) wire
send_loop-wire (SendTurn.broken ∷ turns) (c ∷ bytes) wire = (c ∷ bytes, refl, (λ h. cc, λ h. cc))
send_loop-wire (SendTurn.took zero ∷ turns) (c ∷ bytes) wire = (c ∷ bytes, refl, (λ h. cc, λ h. cc))
send_loop-wire (SendTurn.took (suc n) ∷ turns) (c ∷ bytes) wire =
    let (rest, same, all) = send_loop-wire turns (drop n bytes) (wire ++ (c ∷ take n bytes)) in
    (
      rest,
      same
          ∙ append_assoc wire (c ∷ take n bytes) (drop n bytes)
          ∙ ap (λ t. wire ++ (c ∷ t)) (take-append-drop n bytes),
      all,
    )

-- Whatever poll and send return, the peer has been sent a first part of the bytes, in order and after
-- what it had; `send_all` reports success exactly if that is all of them.
pub send_all-wire :
    (conn : Conn) (bytes : List ℕ)
    → (rest : List ℕ) × ((send_all conn bytes).1.wire ++ rest ≡ conn.wire ++ bytes)
      × (((send_all conn bytes).0 ≡ true) ↔ (rest ≡ []))
unfolding send_all
send_all-wire conn bytes = send_loop-wire conn.sends bytes conn.wire

-- The bytes that arrive before the first failure or the end of the stream.
unfoldable pub stream : List RecvTurn → List ℕ
stream [] = []
stream (RecvTurn.poll_failed ∷ turns) = []
stream (RecvTurn.again ∷ turns) = stream turns
stream (RecvTurn.broken ∷ turns) = []
stream (RecvTurn.arrived [] ∷ turns) = []
stream (RecvTurn.arrived (c ∷ bytes) ∷ turns) = c ∷ (bytes ++ stream turns)

same_buffer : (room : ℕ) (buf more : List ℕ) → length buf ≡ room → take room (buf ++ more) ≡ buf
same_buffer room buf more h =
    take_full room buf more (omega arith) ∙ take_short room buf (omega arith)

no_more : (room : ℕ) (buf : List ℕ) → length buf ≤ room → take room (buf ++ []) ≡ buf
no_more room buf h = ap (take room) (append-nil buf) ∙ take_short room buf h

-- A blank line found in the buffer is there whatever comes after it.
contains_still :
    (room : ℕ) (buf more : List ℕ)
    → length buf ≤ room
    → contains blank_line (c_string buf) ≡ true
    → contains blank_line (c_string (take room (buf ++ more))) ≡ true
contains_still room buf more h found =
    let (rest, same) = c_string-append buf (take (room - length buf) more) in
    rw (← take_room room buf more h, same) (contains-append blank_line (c_string buf) rest found)

read_loop-contains :
    (room : ℕ) (turns : List RecvTurn) (buf : List ℕ)
    → length buf ≤ room
    → contains blank_line (c_string buf) ≡ false
    → (read_loop room turns buf).0
      ≡ contains blank_line (c_string (take room (buf ++ stream turns)))
unfolding read_loop stream
read_loop-contains room [] buf h none = rw (no_more room buf h) (sym none)
read_loop-contains room (RecvTurn.poll_failed ∷ turns) buf h none =
    rw (no_more room buf h) (sym none)
read_loop-contains room (RecvTurn.broken ∷ turns) buf h none = rw (no_more room buf h) (sym none)
read_loop-contains room (RecvTurn.again ∷ turns) buf h none =
    elim (Bool-cases (ltb (length buf) room)) [
      | inl e ↦ rw e (read_loop-contains room turns buf h none)
      | inr e ↦
          let full : length buf ≡ room = ground arith in
          rw (e, same_buffer room buf (stream turns) full) (sym none)
    ]
read_loop-contains room (RecvTurn.arrived [] ∷ turns) buf h none =
    let none_got = take_short {A = ℕ} (room - length buf) [] (omega arith) in
    elim (Bool-cases (ltb (length buf) room)) [
      | inl e ↦ rw (e, none_got, no_more room buf h) (sym none)
      | inr e ↦ rw (e, no_more room buf h) (sym none)
    ]
read_loop-contains room (RecvTurn.arrived (c ∷ bytes) ∷ turns) buf h none =
    elim (Bool-cases (ltb (length buf) room)) [
      | inl e ↦
          let buf' = buf ++ take (room - length buf) (c ∷ bytes) in
          let d : room - length buf ≡ suc (room - length buf - 1) =
            omega (arith, ltb→lt (length buf) room e) in
          let same_buf : buf' ≡ take room (buf ++ (c ∷ bytes)) = take_room room buf (c ∷ bytes) h in
          let fits : length buf' ≤ room =
            subst (λ b. length b ≤ room) (sym same_buf)
              (length-take-le room (buf ++ (c ∷ bytes))) in
          let target : take room (buf ++ (c ∷ (bytes ++ stream turns)))
              ≡ take room (buf' ++ stream turns) =
            ap (take room) (sym (append_assoc buf (c ∷ bytes) (stream turns)))
            ∙ sym (take-take_append room (buf ++ (c ∷ bytes)) (stream turns))
            ∙ ap (λ b. take room (b ++ stream turns)) (sym same_buf) in
          elim (Bool-cases (contains blank_line (c_string buf'))) [
            | inl found ↦
                rw (e, found, target)
                  (ground (arith, d, contains_still room buf' (stream turns) fits found))
            | inr absent ↦
                rw (e, absent, target)
                  (ground (arith, d, read_loop-contains room turns buf' fits absent))
          ]
      | inr e ↦
          let full : length buf ≡ room = ground arith in
          rw (e, same_buffer room buf (c ∷ (bytes ++ stream turns)) full) (sym none)
    ]

-- A request is read exactly if the bytes that arrive before a failure or the end of the stream, cut at
-- the buffer's size less one, hold a blank line before the first zero byte: however the stream is cut
-- into pieces, and however often a call is tried again.
pub read_request_iff :
    (conn : Conn) (cap : ℕ)
    → (read_request conn cap).0
      ≡ contains blank_line (c_string (take (cap - 1) (stream conn.receives)))
unfolding read_request contains starts_with c_string
read_request_iff conn cap = read_loop-contains (cap - 1) conn.receives [] (omega arith) refl
