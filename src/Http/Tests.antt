-- ===== src/Http/Tests.antt =====
-- asio/http/beasthttp.cpp: a request for the counter, and a post that throws.
use Prim.Native.String.{String}
use c_study.Prelude.{◌≡◌, refl, [], ◌∷◌, none, some, true, false}
use c_study.Http.{
  get, Request, Response, new_response, Outside, create_response, respond, process_request,
}
use c_study.Http.Connection.{HttpConnection, start, answered, on_read, Reaches, begin, read}
use c_study.Http.Answers.{expected, counted, process_request-Answered}
use c_study.Http.Silent.{IsSilent, Reaches-IsSilent}

-- Every text is JSON, and no value is a string.
abbrev outside : Outside
outside = record {
  Value = String;
  parse = λ s. some s;
  email = λ s. some s;
  as_string = λ s. none;
  parse_error = "{}";
  success = λ s. s;
  now = "0";
  show = λ n. "n";
}

abbrev ask_count : Request
ask_count = record { method = get; target = "/count"; body = "" }

abbrev page : Response
page = record {
  result = 200;
  keep_alive = false;
  server = some "Beast";
  content_type = some "text/html";
  body =
      "<html>\n<head><title>Request Count</title></head>\n<body>\n<h1>Request Count</h1>\n"
      ∷ "<p>The number of requests received is: " ∷ "n" ∷ "</p>\n</body>\n</html>\n" ∷ [];
}

ask_count-page : process_request outside ask_count 6 new_response ≡ some (page, 7)
unfolding process_request respond create_response
ask_count-page = refl

process_request-Answered_example :
    (page.result ≡ expected ask_count.method ask_count.target)
    × (page.keep_alive ≡ false)
    × (7 ≡ counted ask_count.method ask_count.target 6)
process_request-Answered_example =
    process_request-Answered outside ask_count 6 new_response page 7 ask_count-page

abbrev read_once : HttpConnection
read_once = record {
  response = page;
  writes = [];
  is_open = true;
  reading = false;
  deadline = true;
}

read_once-Reaches : Reaches outside read_once
unfolding start on_read answered process_request respond create_response
read_once-Reaches = read false ask_count 6 7 begin refl refl

Reaches-IsSilent_example : IsSilent read_once
Reaches-IsSilent_example = Reaches-IsSilent outside read_once read_once-Reaches
