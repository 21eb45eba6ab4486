-- ===== src/Http.antt =====
-- volume/controller_http.go: the handlers. A request comes with its body as encoding/json has decoded
-- it, `none` if that failed; a response is a status and what is encoded. Times stay instants.
pub mod Stream
pub mod Middleware
pub mod Statuses
pub mod Routes
pub mod Controller
use block_storage_api.Prelude.{
  ℕ, String, Bool, true, false, Option, none, some, List, [], ◌∷◌, ℤ, ite, ◌==◌, is_not_positive,
  if◌then◌else◌, length, map,
}
use block_storage_api.Errors.{
  Error, Result, ok, err, Outcome, Sentinel, Sentinel-discrete, sentinel, external, wrap, detail,
  annotate, volume_not_found, volume_exists, invalid_transition, invalid_size, backend_unavailable,
}
use block_storage_api.Storage.{State, Volume}
use block_storage_api.Application.World.{Application, World, Action, ◌>>=◌, ◌>>◌}
use block_storage_api.Application.Operations

pub record CreateVolumeRequest : Type 0 where
  pub name : String
  pub size_mb : ℤ

pub record AttachVolumeRequest : Type 0 where
  pub node_id : String

pub record VolumeResponse : Type 0 where
  pub id : String
  pub name : String
  pub size_mb : ℤ
  pub state : State
  pub backend : String
  pub node_id : String
  pub created_at : ℕ
  pub updated_at : ℕ

-- `errResponse` is the text of a literal or that of an error.
pub data Body : Type 0 where
  empty : Body
  volume : VolumeResponse → Body
  list_response : List VolumeResponse → ℕ → Body
  health_response : String → String → Body
  literal : String → Body
  err_response : Error → Body

pub record Response : Type 0 where
  pub status : ℕ
  pub body : Body

abbrev pub write_json : ℕ → Body → Response
write_json status body = record { status = status; body = body }

abbrev pub to_response : Volume → VolumeResponse
to_response v = record {
  id = v.id;
  name = v.name;
  size_mb = v.size_mb;
  state = v.state;
  backend = v.backend;
  node_id = v.node_id;
  created_at = v.created_at;
  updated_at = v.updated_at;
}

-- `errors.Is(err, target)` for a sentinel: what `%w` has wrapped is looked through.
unfoldable pub errors_is : Error → Sentinel → Bool
unfolding Sentinel-discrete
errors_is (sentinel s) t = ite (Sentinel-discrete s t) true false
errors_is (external _) t = false
errors_is (wrap _ e) t = errors_is e t
errors_is (detail e _) t = errors_is e t
errors_is (annotate e _) t = errors_is e t

unfoldable pub map_app_error : Error → ℕ
unfolding errors_is
map_app_error e =
    if errors_is e volume_not_found
    then 404
    else if errors_is e volume_exists
    then 409
    else if errors_is e invalid_transition
    then 409
    else if errors_is e invalid_size
    then 400
    else if errors_is e backend_unavailable
    then 503
    else 500

abbrev pub respond : {A : Type 0} → (A → Response) → Result A → Response
respond f (ok a) = f a
respond f (err e) = write_json (map_app_error e) (err_response e)

module _ {D B M : Type 0} (app : Application D B M) where
  abbrev pub Handler : Type 0
  Handler = World D B → Response × World D B

  abbrev pub handle : {A : Type 0} → Action D B A → (A → Response) → Handler
  handle m f w = let (r, w') = m w in (respond f r, w')

  unfoldable pub create_volume : Option CreateVolumeRequest → Handler
  create_volume none w = (write_json 400 (literal "invalid JSON body"), w)
  create_volume (some req) w =
      if req.name == ""
      then (write_json 400 (literal "name is required"), w)
      else if is_not_positive req.size_mb
      then (write_json 400 (literal "size_mb must be > 0"), w)
      else handle (Operations.create_volume app req.name req.size_mb)
          (λ v. write_json 201 (volume (to_response v))) w

  -- Every error of the list is a 500.
  abbrev listed : Result (List Volume) → Response
  listed (ok vs) = write_json 200 (list_response (map to_response vs) (length vs))
  listed (err e) = write_json 500 (err_response e)

  unfoldable pub list_volumes : Handler
  list_volumes w = let (r, w') = Operations.list_volumes app w in (listed r, w')

  unfoldable pub get_volume : String → Handler
  get_volume name =
      handle (Operations.get_volume app name) (λ v. write_json 200 (volume (to_response v)))

  unfoldable pub attach_volume : String → Option AttachVolumeRequest → Handler
  attach_volume name none w = (write_json 400 (literal "invalid JSON body"), w)
  attach_volume name (some req) w =
      if req.node_id == ""
      then (write_json 400 (literal "node_id is required"), w)
      else handle (Operations.attach_volume app name req.node_id >> Operations.get_volume app name)
          (λ v. write_json 202 (volume (to_response v))) w

  unfoldable pub detach_volume : String → Handler
  detach_volume name =
      handle (Operations.detach_volume app name >> Operations.get_volume app name)
        (λ v. write_json 202 (volume (to_response v)))

  unfoldable pub delete_volume : String → Handler
  delete_volume name = handle (Operations.delete_volume app name) (λ _. write_json 202 empty)

  unfoldable pub reconcile_volume : String → Handler
  reconcile_volume name =
      handle (Operations.reconcile_volume app name) (λ v. write_json 200 (volume (to_response v)))

  abbrev health : Outcome → Response
  health (ok _) = write_json 200 (health_response "ok" app.backend.backend_name)
  health (err _) = write_json 503 (health_response "degraded" app.backend.backend_name)

  unfoldable pub healthz : Handler
  healthz w = let (r, w') = Operations.health_check app w in (health r, w')
