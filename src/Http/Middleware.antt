-- ===== src/Http/Middleware.antt =====
-- The middleware of volume/controller_http.go around a handler: `recoverer`, and inside it
-- `requestLogger` with its `responseWriter`. What is enriched with a trace id is left out.
use block_storage_api.Prelude.{
  ℕ, ◌≤◌, ◌≡◌, refl, Option, none, some, List, [], ◌∷◌, ◌++◌, All, arith,
}
use block_storage_api.Http.{Response}

-- A status that ends the header; one of 1xx only informs, and another status follows it.
abbrev pub IsFinal : ℕ → Type 0
IsFinal code = (200 ≤ code) × (code ≤ 999)

-- What the program relies on of net/http, a writer being of type `W`: the first final status that is
-- written is the one that the client is sent, and `http.Error` writes a status like any other.
pub record NetHttp (W : Type 0) : Type 0 where
  pub write_header : ℕ → W → W
  pub http_error : ℕ → W → W
  pub sent : W → Option ℕ
  pub first_header :
      (code : ℕ) (w : W) → IsFinal code → sent w ≡ none → sent (write_header code w) ≡ some code
  pub later_header :
      (code first : ℕ) (w : W) → sent w ≡ some first → sent (write_header code w) ≡ some first
  pub first_error :
      (code : ℕ) (w : W) → IsFinal code → sent w ≡ none → sent (http_error code w) ≡ some code
  pub later_error :
      (code first : ℕ) (w : W) → sent w ≡ some first → sent (http_error code w) ≡ some first

-- `responseWriter`
pub record ResponseWriter (W : Type 0) : Type 0 where
  pub writer : W
  pub status : ℕ

-- How a handler ends.
pub data End : Type 0 where
  returned panicked : End

-- The lines that the middleware logs.
pub data Line : Type 0 where
  http_request : ℕ → Line
  panic_recovered : Line

-- What a handler does with the writer: it writes some statuses, one after the other, and ends.
pub record Behaviour : Type 0 where
  pub statuses : List ℕ
  pub end : End

-- The handlers of the controller write one status and return.
abbrev pub behaviour_of : Response → Behaviour
behaviour_of r = record { statuses = r.status ∷ []; end = returned }

module _ {W : Type 0} (net : NetHttp W) where
  abbrev pub write_header : ℕ → ResponseWriter W → ResponseWriter W
  write_header code rw = record { writer = net.write_header code rw.writer; status = code }

  unfoldable pub write_all : List ℕ → ResponseWriter W → ResponseWriter W
  write_all [] rw = rw
  write_all (code ∷ codes) rw = write_all codes (write_header code rw)

  -- The line is not logged if the handler panics.
  abbrev pub logged : End → ResponseWriter W → List Line → End × (W × List Line)
  logged returned rw log = (returned, (rw.writer, log ++ http_request rw.status ∷ []))
  logged panicked rw log = (panicked, (rw.writer, log))

  unfoldable pub request_logger : Behaviour → W → List Line → End × (W × List Line)
  unfolding write_all
  request_logger next w log =
      logged next.end (write_all next.statuses (record { writer = w; status = 200 })) log

  abbrev pub recovered : End × (W × List Line) → W × List Line
  recovered (returned, x) = x
  recovered (panicked, (w, log)) = (net.http_error 500 w, log ++ panic_recovered ∷ [])

  unfoldable pub recoverer : Behaviour → W → List Line → W × List Line
  unfolding request_logger
  recoverer next w log = recovered (request_logger next w log)

  -- The first of the statuses, and a default.
  abbrev pub first : List ℕ → ℕ → ℕ
  first [] default = default
  first (code ∷ _) default = code

  write_all-later :
      (codes : List ℕ) (code : ℕ) (rw : ResponseWriter W)
      → net.sent rw.writer ≡ some code
      → net.sent (write_all codes rw).writer ≡ some code
  unfolding write_all
  write_all-later [] code rw h = h
  write_all-later (c ∷ codes) code rw h =
      write_all-later codes code (write_header c rw) (net.later_header c code rw.writer h)

  write_all-first :
      (code : ℕ) (codes : List ℕ) (rw : ResponseWriter W)
      → IsFinal code
      → net.sent rw.writer ≡ none
      → net.sent (write_all (code ∷ codes) rw).writer ≡ some code
  unfolding write_all
  write_all-first code codes rw f h =
      write_all-later codes code (write_header code rw) (net.first_header code rw.writer f h)

  panicked-sent :
      (statuses : List ℕ) (w : W)
      → All IsFinal statuses
      → net.sent w ≡ none
      → net.sent
          (net.http_error 500 (write_all statuses (record { writer = w; status = 200 })).writer)
        ≡ some (first statuses 500)
  unfolding write_all
  panicked-sent [] w f h = net.first_error 500 w (omega arith, omega arith) h
  panicked-sent (code ∷ codes) w f h =
      net.later_error 500 code
        (write_all (code ∷ codes) (record { writer = w; status = 200 })).writer
        (write_all-first code codes (record { writer = w; status = 200 }) f.0 h)

  -- Where every status that is written is final: a handler of the controller that returns its response: the
  -- client is sent the status of the response, and the request is logged with this status. A handler
  -- that panics: the client is sent the first status that it had written, or 500 if it had written
  -- none, and the panic is logged in the place of the request.
  pub recoverer_answer :
      (r : Response) (statuses : List ℕ) (w : W) (log : List Line)
      → IsFinal r.status
      → All IsFinal statuses
      → net.sent w ≡ none
      → let x = recoverer (behaviour_of r) w log in
        let y = recoverer (record { statuses = statuses; end = panicked }) w log in
        ((net.sent x.0 ≡ some r.status) × (x.1 ≡ log ++ http_request r.status ∷ []))
        × ((net.sent y.0 ≡ some (first statuses 500)) × (y.1 ≡ log ++ panic_recovered ∷ []))
  unfolding recoverer request_logger
  recoverer_answer r statuses w log f fs h = (
    (write_all-first r.status [] (record { writer = w; status = 200 }) f h, refl),
    (panicked-sent statuses w fs h, refl),
  )
