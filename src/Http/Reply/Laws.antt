-- ===== src/Http/Reply/Laws.antt =====
-- What the peer receives of the page of src/http_sse.cpp, and when the header fits its array.
use ratehub.Prelude.{
  ℕ, zero, suc, ◌+◌, ◌^◌, ◌≤◌, ◌<◌, ◌≡◌, refl, sym, ap, ◌∙◌, inl, inr, Bool, true, false,
  Bool-cases, ◌≢◌, Option, none, some, List, [], ◌∷◌, ◌++◌, append_assoc, append-nil, length,
  length-append, take, arith, leb,
}
use ratehub.Prelude.Text.{codes, decimal, decimal-le, decimal-ge}
use ratehub.Prelude.Cuts.{take_short, take_full}
use ratehub.Http.Conn.{Conn, send_all}
use ratehub.Http.Conn.Laws.{send_all-wire}
use ratehub.Http.Reply.{
  WebFile, header_rest, header_text, header_bytes, send_chunks, send_page, send_opened,
  send_dashboard,
}

send_all-sent :
    (conn : Conn) (bytes : List ℕ)
    → (send_all conn bytes).0 ≡ true
    → (send_all conn bytes).1.wire ≡ conn.wire ++ bytes
send_all-sent conn bytes sent =
    let (rest, same, all) = send_all-wire conn bytes in
    sym (append-nil (send_all conn bytes).1.wire)
    ∙ ap (λ r. (send_all conn bytes).1.wire ++ r) (sym (all.0 sent))
    ∙ same

-- The chunks put together.
unfoldable pub all_bytes : List (List ℕ) → List ℕ
all_bytes [] = []
all_bytes (chunk ∷ chunks) = chunk ++ all_bytes chunks

send_chunks-sent :
    (conn : Conn) (opened : List ℕ) (fd : ℕ) (chunks : List (List ℕ)) (read_error : Bool)
    → (send_chunks conn opened fd chunks read_error).0 ≡ true
    → (send_chunks conn opened fd chunks read_error).1.wire ≡ conn.wire ++ all_bytes chunks
unfolding send_chunks all_bytes
send_chunks-sent conn opened fd [] true sent = absurd cc
send_chunks-sent conn opened fd [] false sent = sym (append-nil conn.wire)
send_chunks-sent conn opened fd (chunk ∷ chunks) read_error sent =
    elim (Bool-cases (send_all conn chunk).0) [
      | inl e ↦
          let (done, conn') = send_all conn chunk in
          let later : (send_chunks conn' opened fd chunks read_error).0 ≡ true =
            sym (rw e refl) ∙ sent in
          rw e (
            send_chunks-sent conn' opened fd chunks read_error later
            ∙ ap (λ w. w ++ all_bytes chunks) (send_all-sent conn chunk e)
            ∙ append_assoc conn.wire chunk (all_bytes chunks))
      | inr e ↦ absurd (ground arith)
    ]

length-header_text : (size : ℕ) → length (header_text size) ≡ 121 + length (decimal size)
length-header_text size = omega (arith, length-append (decimal size) header_rest)

header_bytes-fits :
    (beyond : List ℕ) (size : ℕ) → size < 10 ^ 6 → header_bytes beyond size ≡ header_text size
unfolding header_bytes
header_bytes-fits beyond size small =
    let text = header_text size in
    let fits : length text ≤ 127 =
      omega (arith, length-header_text size, decimal-le 6 size (omega arith) small) in
    ap (λ t. take (length text) (t ++ (0 ∷ beyond))) (take_short 127 text fits)
    ∙ take_full (length text) text (0 ∷ beyond) (omega arith)
    ∙ take_short (length text) text (omega arith)

length-take_full : (n : ℕ) (xs : List ℕ) → n ≤ length xs → length (take n xs) ≡ n
length-take_full zero xs h = refl
length-take_full (suc n) [] h = absurd (omega arith)
length-take_full (suc n) (x ∷ xs) h = ap suc (length-take_full n xs (omega arith))

take-append_past : (n : ℕ) (xs ys : List ℕ) → take (length xs + n) (xs ++ ys) ≡ xs ++ take n ys
take-append_past n [] ys = let e : 0 + n ≡ n = omega arith in ap (λ k. take k ys) e
take-append_past n (x ∷ xs) ys =
    let e : suc (length xs) + n ≡ suc (length xs + n) = omega arith in
    ap (λ k. take k (x ∷ (xs ++ ys))) e ∙ ap (λ t. x ∷ t) (take-append_past n xs ys)

-- A page whose size has `7 + k` decimal digits, at most 19: the header that is sent has lost its last
-- `k + 1` bytes, and holds in their place a zero and the `k` bytes behind the array `char header[128]`.
pub header_bytes-overrun :
    (beyond : List ℕ) (size k : ℕ)
    → k ≤ 12
    → 10 ^ (6 + k) ≤ size
    → size < 10 ^ (7 + k)
    → header_bytes beyond size ≡ take 127 (header_text size) ++ (0 ∷ take k beyond)
unfolding header_bytes
header_bytes-overrun beyond size k h large small =
    let text = header_text size in
    let exact : length text ≡ 128 + k = omega (
      arith,
      length-header_text size,
      decimal-le (7 + k) size (omega arith) small,
      decimal-ge (6 + k) size (omega arith) large,
    ) in
    let cut : length (take 127 text) ≡ 127 = length-take_full 127 text (omega arith) in
    let e : length text ≡ length (take 127 text) + suc k = omega arith in
    ap (λ n. take n (take 127 text ++ (0 ∷ beyond))) e
    ∙ take-append_past (suc k) (take 127 text) (0 ∷ beyond)

send_page-sent :
    (conn : Conn) (opened : List ℕ) (fd : ℕ) (file : WebFile) (beyond : List ℕ)
    → file.size < 10 ^ 6
    → (send_page conn opened fd file beyond).0 ≡ true
    → (send_page conn opened fd file beyond).1.wire
      ≡ conn.wire ++ (header_text file.size ++ all_bytes file.chunks)
unfolding send_page
send_page-sent conn opened fd file beyond small sent =
    let text = header_bytes beyond file.size in
    let (done, conn') = send_all conn text in
    let chunks = send_chunks conn' opened fd file.chunks file.read_error in
    elim (Bool-cases file.stats) [
      | inr lost ↦ absurd (ground arith)
      | inl stats ↦ elim (Bool-cases (send_all conn text).0) [
        | inl e ↦
            let later : chunks.0 ≡ true = sym (rw (stats, e) refl) ∙ sent in
            rw (stats, e)
              (send_chunks-sent conn' opened fd file.chunks file.read_error later
                ∙ ap (λ w. w ++ all_bytes file.chunks)
                    (send_all-sent conn text e
                      ∙ ap (λ t. conn.wire ++ t) (header_bytes-fits beyond file.size small))
                ∙ append_assoc conn.wire (header_text file.size) (all_bytes file.chunks))
        | inr e ↦ absurd (ground arith)
      ]
    ]

send_opened-sent :
    (conn : Conn) (opened : List ℕ) (file : WebFile) (beyond : List ℕ) (fd : Option ℕ)
    → fd ≢ none
    → file.size < 10 ^ 6
    → (send_opened conn opened file beyond fd).0 ≡ true
    → (send_opened conn opened file beyond fd).1.wire
      ≡ conn.wire ++ (header_text file.size ++ all_bytes file.chunks)
unfolding send_opened
send_opened-sent conn opened file beyond none ne small sent = absurd (ne refl)
send_opened-sent conn opened file beyond (some fd) ne small sent =
    send_page-sent conn (fd ∷ opened) fd file beyond small sent

-- When `send_dashboard` succeeds on a page below a million bytes, the peer has been sent the whole
-- header, which states the size, and after it every byte that was read, in order.
pub send_dashboard-page :
    (conn : Conn) (opened root : List ℕ) (file : WebFile) (beyond : List ℕ)
    → file.descriptor ≢ none
    → file.size < 10 ^ 6
    → (send_dashboard conn opened root file beyond).0 ≡ true
    → (send_dashboard conn opened root file beyond).1.wire
      ≡ conn.wire ++ (header_text file.size ++ all_bytes file.chunks)
unfolding send_dashboard
send_dashboard-page conn opened root file beyond opens small sent =
    elim (Bool-cases (leb 512 (length (root ++ codes "/dashboard.html")))) [
      | inl long ↦ absurd (ground arith)
      | inr short ↦
          let later : (send_opened conn opened file beyond file.descriptor).0 ≡ true =
            sym (rw short refl) ∙ sent in
          rw short (send_opened-sent conn opened file beyond file.descriptor opens small later)
    ]
