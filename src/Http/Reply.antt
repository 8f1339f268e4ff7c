-- ===== src/Http/Reply.antt =====
-- The replies of src/http_sse.cpp: the dashboard's page, the event stream, and the answer to a reset.
pub mod Laws
pub mod Closes
use ratehub.Prelude.{
  ℕ, zero, suc, ◌+◌, ◌-◌, Bool, true, false, not, ◌&&◌, ◌||◌, Option, none, some, List, [], ◌∷◌,
  ◌++◌, length, take, ltb, leb, ◌==◌, if◌then◌else◌,
}
use ratehub.Prelude.Text.{codes, c_string, decimal}
use ratehub.Prelude.Cuts.{drop_one}
use ratehub.Http.Conn.{Conn, send_all}

abbrev crlf : List ℕ
crlf = 13 ∷ 10 ∷ []

abbrev pub not_found_text : List ℕ
not_found_text =
    codes "HTTP/1.1 404 Not Found"
    ++ (crlf
        ++ (codes "Content-Length: 0" ++ (crlf ++ (codes "Connection: close" ++ (crlf ++ crlf)))))

abbrev pub reset_text : List ℕ
reset_text =
    codes "HTTP/1.1 200 OK"
    ++ (crlf
        ++ (codes "Content-Type: application/json"
            ++ (crlf
                ++ (codes "Content-Length: 8"
                    ++ (crlf
                        ++ (codes "Cache-Control: no-cache"
                            ++ (crlf
                                ++ (codes "Connection: close"
                                    ++ (crlf
                                        ++ (crlf
                                            ++ (b'{' ∷ b'"' ∷ b'o' ∷ b'k' ∷ b'"' ∷ b':' ∷ b'1'
                                                ∷ b'}' ∷ [])))))))))))

abbrev pub stream_text : List ℕ
stream_text =
    codes "HTTP/1.1 200 OK"
    ++ (crlf
        ++ (codes "Content-Type: text/event-stream"
            ++ (crlf
                ++ (codes "Cache-Control: no-cache"
                    ++ (crlf
                        ++ (codes "Connection: keep-alive"
                            ++ (crlf
                                ++ (codes "Access-Control-Allow-Origin: *" ++ (crlf ++ crlf)))))))))

unfoldable pub send_reset_ok : Conn → Bool × Conn
send_reset_ok conn = send_all conn reset_text

unfoldable pub send_not_found : Conn → Bool × Conn
send_not_found conn = send_all conn not_found_text

unfoldable pub send_sse_headers : Conn → Bool × Conn
send_sse_headers conn = send_all conn stream_text

-- The bytes that `%.*s` writes between the prefix and the two line ends.
abbrev pub event_text : List ℕ → ℕ → List ℕ
event_text payload len = codes "data: " ++ (c_string (take len payload) ++ (10 ∷ 10 ∷ []))

unfoldable pub send_sse_data : Conn → List ℕ → ℕ → Bool × Conn
send_sse_data conn payload len =
    if leb 8000 len then (false, conn) else send_all conn (event_text payload len)

-- The page's file, as the calls on it return: the descriptor of the open, whether the fstat succeeds,
-- the size, and the chunks that the reads return up to the end, or up to an error.
pub record WebFile : Type 0 where
  pub descriptor : Option ℕ
  pub stats : Bool
  pub size : ℕ
  pub chunks : List (List ℕ)
  pub read_error : Bool

abbrev pub header_rest : List ℕ
header_rest =
    crlf
    ++ (codes "Cache-Control: no-cache" ++ (crlf ++ (codes "Connection: close" ++ (crlf ++ crlf))))

-- What `snprintf` would write, had the buffer room.
abbrev pub header_text : ℕ → List ℕ
header_text size =
    codes "HTTP/1.1 200 OK"
    ++ (crlf
        ++ (codes "Content-Type: text/html; charset=utf-8"
            ++ (crlf ++ (codes "Content-Length: " ++ (decimal size ++ header_rest)))))

-- The first `length (header_text size)` bytes from the start of `char header[128]`, which holds the
-- text up to its last place, and there a zero. `beyond` stands in memory behind the array.
unfoldable pub header_bytes : List ℕ → ℕ → List ℕ
header_bytes beyond size =
    take (length (header_text size)) (take 127 (header_text size) ++ (0 ∷ beyond))

-- The reads and the sends, with the page's file open on `fd` among `opened`: whether all is sent, the
-- connection, and the descriptors that are open afterwards.
unfoldable pub send_chunks : Conn → List ℕ → ℕ → List (List ℕ) → Bool → Bool × Conn × List ℕ
send_chunks conn opened fd [] read_error =
    if read_error then (false, conn, drop_one fd opened) else (true, conn, drop_one fd opened)
send_chunks conn opened fd (chunk ∷ chunks) read_error =
    let (sent, conn') = send_all conn chunk in
    let rest = send_chunks conn' opened fd chunks read_error in
    if sent then rest else (false, conn', drop_one fd opened)

-- From the `fstat` on.
unfoldable pub send_page : Conn → List ℕ → ℕ → WebFile → List ℕ → Bool × Conn × List ℕ
unfolding send_chunks
send_page conn opened fd file beyond =
    let (sent, conn') = send_all conn (header_bytes beyond file.size) in
    if not file.stats
    then (false, conn, drop_one fd opened)
    else if sent
    then send_chunks conn' opened fd file.chunks file.read_error
    else (false, conn', drop_one fd opened)

unfoldable pub send_opened : Conn → List ℕ → WebFile → List ℕ → Option ℕ → Bool × Conn × List ℕ
unfolding send_page send_not_found
send_opened conn opened file beyond none =
    let (sent, conn') = send_not_found conn in (sent, conn', opened)
send_opened conn opened file beyond (some fd) = send_page conn (fd ∷ opened) fd file beyond

-- The reply: whether it is sent, the connection, and the descriptors that are open afterwards, of which
-- `opened` are open before. `root` is the C string of the folder.
unfoldable pub send_dashboard : Conn → List ℕ → List ℕ → WebFile → List ℕ → Bool × Conn × List ℕ
unfolding send_opened
send_dashboard conn opened root file beyond =
    if leb 512 (length (root ++ codes "/dashboard.html"))
    then (false, conn, opened)
    else send_opened conn opened file beyond file.descriptor
