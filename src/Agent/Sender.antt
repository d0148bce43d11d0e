-- ===== src/Agent/Sender.antt =====
-- agent/sender/: when a send is taken for delivered.
use bangmod_monitor.Prelude.{
  ℕ, String, Bool, true, false, not, ◌&&◌, Option, none, some, ◌==◌, if◌then◌else◌, List, [], ◌∷◌,
}
use bangmod_monitor.Prelude.Text.{concat}

-- The answer to one HTTP exchange; `none` is a transport error.
abbrev HttpReply : Type 0
HttpReply = Option ℕ

-- A request of `Sender.Send`, body apart: `json.Marshal` is the log's codec.
pub record HttpRequest (B : Type 0) : Type 0 where
  pub url : String
  pub headers : List (String × String)
  pub body : B

unfoldable pub request : {B : Type 0} → String → String → B → HttpRequest B
request api_url token body = record {
  url = concat api_url "/api/v1/ingest";
  headers = ("Content-Type", "application/json") ∷ ("Authorization", concat "Bearer " token) ∷ [];
  body = body;
}

-- Whether `Sender.Send` returns nil.
unfoldable pub send_http : HttpReply → Bool
send_http none = false
send_http (some code) = not (not (code == 200) && not (code == 201))

-- The answer of IngestMetrics: an error, or a response with its field `Ok`.
unfoldable pub send_grpc : Option Bool → Bool
send_grpc none = false
send_grpc (some accepted) = if not accepted then false else true
