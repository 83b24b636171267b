-- ===== src/Web.antt =====
-- net/http and encoding/json as the clients of the repository use them, as an interface. A body is of
-- a type `B`, and a call takes the state `W` of the outside world and may answer anything.
use game_server_orchestrator.Prelude.{String, Bool, Option, none, some, if◌then◌else◌}
use game_server_orchestrator.Prelude.Int.{ℤ, pos, eqb_ℤ}
use game_server_orchestrator.Prelude.Result.{Result, ok, err}

pub record Response (B : Type 0) : Type 0 where
  pub status_code : ℤ
  pub body : B

pub record Web (B W : Type 0) : Type 0 where
  -- Whether NewRequestWithContext accepts the address.
  pub builds : String → Bool
  -- `Client.Do` of the two methods; `none` is an error.
  pub get : String → W → Option (Response B) × W
  pub post : String → B → W → Option (Response B) × W

pub data FetchError : Type 0 where
  not_built not_sent : FetchError
  unexpected_status : ℤ → FetchError
  not_decoded : FetchError

abbrev pub status_ok : ℤ
status_ok = pos 200

-- What is made of a response: the check of the status and the decoding.
unfoldable pub read_response :
    {B T : Type 0} → (B → Option T) → Option (Response B) → Result FetchError T
read_response decode none = err not_sent
read_response decode (some resp) =
    if eqb_ℤ resp.status_code status_ok
    then elim (decode resp.body) [ none ↦ err not_decoded | some value ↦ ok value ]
    else err (unexpected_status resp.status_code)

-- The steps that the clients of the game servers and of the Node Health Watcher share.
unfoldable pub get_json :
    {B T W : Type 0} → Web B W → (B → Option T) → String → W → Result FetchError T × W
get_json web decode url w =
    if web.builds url
    then (let (resp, w') = web.get url w in (read_response decode resp, w'))
    else (err not_built, w)
