-- ===== src/Http/Request/Laws.antt =====
-- What src/http_sse.cpp reads off a well-formed request line, and that the two entry points reply alike.
use ratehub.Prelude.{
  ℕ, suc, ◌+◌, ◌≡◌, refl, sym, ap, subst, inl, inr, Bool, true, false, not, ◌&&◌, Bool-cases,
  Option, none, some, List, [], ◌∷◌, ◌++◌, length, set, arith, ◌==◌,
}
use ratehub.Prelude.Text.{codes, c_string, bytes_eq, starts_with, index_of, bytes_eq-eq}
use ratehub.Http.Request.{path_end, path_from, request_path, is_post, serve_route, pump_route}

events_alike :
    (post : Bool)
    → serve_route (some (codes "/events")) post ≡ pump_route (some (codes "/events")) post
unfolding serve_route pump_route bytes_eq
events_alike true = refl
events_alike false = refl

-- `http_sse_serve_once` and `http_sse_pump` test for the paths in different orders, and choose the same
-- reply for every request.
serve_pump_route :
    (path : Option (List ℕ)) (post : Bool) → serve_route path post ≡ pump_route path post
unfolding serve_route pump_route
serve_pump_route none post = refl
serve_pump_route (some path) post = elim (Bool-cases (bytes_eq path (codes "/events"))) [
  | inl e ↦
      subst (λ p. serve_route (some p) post ≡ pump_route (some p) post)
        (sym (bytes_eq-eq path (codes "/events") e)) (events_alike post)
  | inr e ↦ rw e refl
]

-- A path that can stand in a request line.
unfoldable pub is_clean : List ℕ → Bool
is_clean [] = true
is_clean (c ∷ s) = not (c == 0) && not (c == b' ') && is_clean s

c_string-clean : (s t : List ℕ) → is_clean s ≡ true → c_string (s ++ t) ≡ s ++ c_string t
unfolding c_string is_clean
c_string-clean [] t h = refl
c_string-clean (c ∷ s) t h = ground (arith, c_string-clean s t)

index_of-clean :
    (s t : List ℕ) → is_clean s ≡ true → index_of b' ' (s ++ (b' ' ∷ t)) ≡ some (length s)
unfolding index_of is_clean
index_of-clean [] t h = refl
index_of-clean (c ∷ s) t h = ground (arith, index_of-clean s t)

set-append : (s t : List ℕ) (c : ℕ) → set (s ++ (b' ' ∷ t)) (length s) c ≡ s ++ (c ∷ t)
set-append [] t c = refl
set-append (d ∷ s) t c = ap (λ r. d ∷ r) (set-append s t c)

c_string-cut : (s t : List ℕ) → is_clean s ≡ true → c_string (s ++ (0 ∷ t)) ≡ s
unfolding c_string is_clean
c_string-cut [] t h = refl
c_string-cut (c ∷ s) t h = ground (arith, c_string-cut s t)

pub data Method : Type 0 where
  get post : Method

abbrev pub method_name : Method → List ℕ
method_name Method.get = codes "GET"
method_name Method.post = codes "POST"

-- The bytes of a request line and what follows it.
abbrev pub request : Method → List ℕ → List ℕ → List ℕ
request m path rest = method_name m ++ (b' ' ∷ (path ++ (b' ' ∷ rest)))

-- Of a request with the method GET or POST, whose path has no space and no zero, exactly the path is
-- read, and the buffer still tells a POST from a GET.
pub request_path-request :
    (m : Method) (path rest : List ℕ)
    → is_clean path ≡ true
    → ((request_path (request m path rest)).0 ≡ some path)
      × (is_post (request_path (request m path rest)).1
          ≡ (elim m [ Method.get ↦ false | Method.post ↦ true ]))
unfolding request_path path_from path_end is_post c_string index_of bytes_eq starts_with
request_path-request Method.get path rest clean =
    let at : 4 + length path ≡ suc (suc (suc (suc (length path)))) = omega arith in
    rw
      (
        request_path,
        path_from,
        path_end,
        c_string-clean path (b' ' ∷ rest) clean,
        index_of-clean path (c_string rest) clean,
        at,
        set-append path rest 0,
        c_string-cut path rest clean,
      )
      (refl, refl)
request_path-request Method.post path rest clean =
    let at : 5 + length path ≡ suc (suc (suc (suc (suc (length path))))) = omega arith in
    rw
      (
        request_path,
        path_from,
        path_end,
        c_string-clean path (b' ' ∷ rest) clean,
        index_of-clean path (c_string rest) clean,
        at,
        set-append path rest 0,
        c_string-cut path rest clean,
      )
      (refl, refl)
