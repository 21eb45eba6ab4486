-- ===== src/Tests/Middleware.antt =====
-- The middleware over a writer that keeps the first final status.
use block_storage_api.Prelude.{ℕ, ◌≡◌, refl, Option, none, some, [], ◌∷◌, ltb, if◌then◌else◌, arith}
use block_storage_api.Http.{Response, empty}
use block_storage_api.Http.Middleware.{
  NetHttp, IsFinal, Line, behaviour_of, recoverer, panicked, recoverer_answer,
}

-- An informational status leaves the final one open.
abbrev keep : ℕ → Option ℕ → Option ℕ
keep code none = if ltb code 200 then none else some code
keep code (some first) = some first

first-kept : (code : ℕ) (w : Option ℕ) → IsFinal code → w ≡ none → keep code w ≡ some code
first-kept code w f h = ground (arith, f.0)

abbrev net : NetHttp (Option ℕ)
net = record {
  write_header = keep;
  http_error = keep;
  sent = λ w. w;
  first_header = λ code w f h. first-kept code w f h;
  later_header = λ code first w h. rw h refl;
  first_error = λ code w f h. first-kept code w f h;
  later_error = λ code first w h. rw h refl;
}

abbrev deleted : Response
deleted = record { status = 202; body = empty }

recoverer_answer_example :
    let x = recoverer net (behaviour_of deleted) none [] in
    let y = recoverer net (record { statuses = 201 ∷ []; end = panicked }) none [] in
    ((x.0 ≡ some 202) × (x.1 ≡ Line.http_request 202 ∷ []))
    × ((y.0 ≡ some 201) × (y.1 ≡ Line.panic_recovered ∷ []))
recoverer_answer_example =
    recoverer_answer net deleted (201 ∷ []) none [] (omega arith, omega arith)
      ((omega arith, omega arith), tt) refl
