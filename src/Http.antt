-- ===== src/Http.antt =====
-- asio/http/beasthttp.cpp: `http_connection`. Whole texts are strings, and a body is the list of the pieces
-- that are written to it.
pub mod Answers
pub mod Connection
pub mod Silent
pub mod Tests
use Prim.Native.String.{String}
use text.Mathlib.Text.{◌==◌}
use c_study.Prelude.{
  ℕ, ◌+◌, ◌≡◌, List, [], ◌∷◌, ◌++◌, Option, none, some, Bool, true, false, if◌then◌else◌,
}

pub data Verb : Type 0 where
  get : Verb
  post : Verb
  other : String → Verb

pub record Request : Type 0 where
  pub method : Verb
  pub target : String
  pub body : String

pub record Response : Type 0 where
  pub result : ℕ
  pub keep_alive : Bool
  pub server : Option String
  pub content_type : Option String
  pub body : List String

abbrev pub new_response : Response
new_response = record {
  result = 200;
  keep_alive = true;
  server = none;
  content_type = none;
  body = [];
}

-- The JSON library, the clock and `<<` of a number: `parse` fails with `none`, and `as_string` throws with
-- `none`.
pub record Outside : Type 1 where
  pub Value : Type 0
  pub parse : String → Option Value
  pub email : Value → Option Value
  pub as_string : Value → Option String
  pub parse_error : String
  pub success : Value → String
  pub now : String
  pub show : ℕ → String

-- `File not found`
unfoldable pub not_found : Response → Response
not_found r = record r {
  result = 404;
  content_type = some "text/plain";
  body = r.body ++ "File not found\r\n" ∷ [];
}

module _ (o : Outside) where
  -- `create_response`: the response, and `request_count` after it.
  unfoldable pub create_response : String → ℕ → Response → Response × ℕ
  create_response target count r =
      if target == "/count"
      then (
        record r {
          content_type = some "text/html";
          body =
              r.body
              ++ "<html>\n<head><title>Request Count</title></head>\n<body>\n<h1>Request Count</h1>\n"
                ∷ "<p>The number of requests received is: "
                ∷ o.show (count + 1)
                ∷ "</p>\n</body>\n</html>\n"
                ∷ [];
        },
        count + 1,
      )
      else if target == "/time"
      then (
        record r {
          content_type = some "text/html";
          body =
              r.body
              ++ "<html>\n<head><title>Current Time</title></head>\n<body>\n<h1>Current Time</h1>\n"
                ∷ "<p>The current time is: " ∷ o.now ∷ "</p>\n</body>\n</html>\n" ∷ [];
        },
        count,
      )
      else (not_found r, count)

  -- The end of `create_post_response`, with the value of `email` as a string.
  unfoldable pub email_response : Response → o.Value → Option String → Option Response
  email_response r v none = none
  email_response r v (some _) = some (record r { body = r.body ++ o.success v ∷ [] })

  -- `src_root["email"].asString()`; `none` is an exception.
  unfoldable pub read_email : Response → Option o.Value → Option Response
  read_email r none = none
  read_email r (some v) = email_response r v (o.as_string v)

  unfoldable pub post_body : Response → Option o.Value → Option Response
  post_body r none = some (record r { body = r.body ++ o.parse_error ∷ [] })
  post_body r (some root) = read_email r (o.email root)

  unfoldable pub create_post_response : Request → Response → Option Response
  create_post_response q r =
      if q.target == "/email"
      then post_body (record r { content_type = some "text/json" }) (o.parse q.body)
      else some (not_found r)

  unfoldable pub with_count : ℕ → Option Response → Option (Response × ℕ)
  with_count count none = none
  with_count count (some r) = some (r, count)

  unfoldable pub respond : Verb → Request → ℕ → Response → Option (Response × ℕ)
  respond get q count r =
      some (create_response q.target count (record r { result = 200; server = some "Beast" }))
  respond post q count r =
      with_count count (create_post_response q (record r { result = 200; server = some "Beast" }))
  respond (other m) q count r = some (
    record r {
      result = 400;
      content_type = some "text/plain";
      body = r.body ++ "Invalid requset-method '" ∷ m ∷ "'" ∷ [];
    },
    count,
  )

  -- `process_request`; `none` is an exception that leaves the call back.
  unfoldable pub process_request : Request → ℕ → Response → Option (Response × ℕ)
  process_request q count r = respond q.method q count (record r { keep_alive = false })
