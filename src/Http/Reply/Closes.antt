-- ===== src/Http/Reply/Closes.antt =====
-- The descriptor of the page's file in `send_dashboard` of src/http_sse.cpp.
use ratehub.Prelude.{
  ℕ, ◌≡◌, refl, inl, inr, Bool, true, false, Bool-cases, Option, none, some, List, [], ◌∷◌, ◌++◌,
  leb, length,
}
use ratehub.Prelude.Cuts.{drop_one_self}
use ratehub.Prelude.Text.{codes}
use ratehub.Http.Conn.{Conn, send_all}
use ratehub.Http.Reply.{WebFile, header_bytes, send_chunks, send_page, send_opened, send_dashboard}

send_chunks-opened :
    (conn : Conn) (opened : List ℕ) (fd : ℕ) (chunks : List (List ℕ)) (read_error : Bool)
    → (send_chunks conn (fd ∷ opened) fd chunks read_error).2 ≡ opened
unfolding send_chunks
send_chunks-opened conn opened fd [] true = drop_one_self fd opened
send_chunks-opened conn opened fd [] false = drop_one_self fd opened
send_chunks-opened conn opened fd (chunk ∷ chunks) read_error =
    elim (Bool-cases (send_all conn chunk).0) [
      | inl e ↦ rw e (send_chunks-opened (send_all conn chunk).1 opened fd chunks read_error)
      | inr e ↦ rw e (drop_one_self fd opened)
    ]

send_page-opened :
    (conn : Conn) (opened : List ℕ) (fd : ℕ) (file : WebFile) (beyond : List ℕ)
    → (send_page conn (fd ∷ opened) fd file beyond).2 ≡ opened
unfolding send_page
send_page-opened conn opened fd file beyond =
    let (sent, conn') = send_all conn (header_bytes beyond file.size) in
    elim (Bool-cases file.stats) [
      | inr e ↦ rw e (drop_one_self fd opened)
      | inl e ↦ elim (Bool-cases (send_all conn (header_bytes beyond file.size)).0) [
        | inl all ↦ rw (e, all) (send_chunks-opened conn' opened fd file.chunks file.read_error)
        | inr cut ↦ rw (e, cut) (drop_one_self fd opened)
      ]
    ]

send_opened-opened :
    (conn : Conn) (opened : List ℕ) (file : WebFile) (beyond : List ℕ) (fd : Option ℕ)
    → (send_opened conn opened file beyond fd).2 ≡ opened
unfolding send_opened
send_opened-opened conn opened file beyond none = refl
send_opened-opened conn opened file beyond (some fd) = send_page-opened conn opened fd file beyond

-- The page's file is closed on every branch.
pub send_dashboard-opened :
    (conn : Conn) (opened root : List ℕ) (file : WebFile) (beyond : List ℕ)
    → (send_dashboard conn opened root file beyond).2 ≡ opened
unfolding send_dashboard
send_dashboard-opened conn opened root file beyond =
    elim (Bool-cases (leb 512 (length (root ++ codes "/dashboard.html")))) [
      | inl e ↦ rw e refl
      | inr e ↦ rw e (send_opened-opened conn opened file beyond file.descriptor)
    ]
