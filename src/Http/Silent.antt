-- ===== src/Http/Silent.antt =====
-- asio/http/beasthttp.cpp: no response is written.
use text.Mathlib.Text.{◌==◌}
use c_study.Prelude.{
  ℕ, ◌≡◌, refl, ap, subst, [], Option, none, some, Bool, true, false, if◌then◌else◌,
}
use c_study.Http.{
  post, Request, Response, Outside, email_response, read_email, post_body, create_post_response,
  with_count, respond, process_request,
}
use c_study.Http.Connection.{
  HttpConnection, start, answered, on_read, on_deadline, Reaches, begin, read, expire,
}

-- Nothing was written, and the socket is open until the deadline.
pub record IsSilent (c : HttpConnection) : Type 0 where
  pub unwritten : c.writes ≡ []
  pub until_deadline : c.deadline ≡ c.is_open

answered-IsSilent :
    (c d : HttpConnection) (p : Option (Response × ℕ)) (n : ℕ)
    → IsSilent c
    → answered c p ≡ some (d, n)
    → IsSilent d
unfolding answered
answered-IsSilent c d none n v e = cc
answered-IsSilent c d (some (r, m)) n v e =
    subst IsSilent (ap (λ p. p.0) (some-injective e))
      (record { unwritten = v.unwritten; until_deadline = v.until_deadline })
  where
    some-injective : {x y : HttpConnection × ℕ} → some x ≡ some y → x ≡ y
    some-injective e = cc

on_read-IsSilent :
    (o : Outside) (error : Bool) (q : Request) (count : ℕ) (c d : HttpConnection) (n : ℕ)
    → IsSilent c
    → on_read o error q count c ≡ some (d, n)
    → IsSilent d
unfolding on_read answered
on_read-IsSilent o true q count c d n v e = answered-IsSilent c d (some (c.response, count)) n v e
on_read-IsSilent o false q count c d n v e =
    answered-IsSilent c d (process_request o q count c.response) n v e

-- In every state that a connection reaches, whatever request it reads: no response was given to `async_write`,
-- and the socket stays open exactly until the deadline of 60 seconds closes it. So no client gets
-- an answer.
pub Reaches-IsSilent : (o : Outside) (c : HttpConnection) → Reaches o c → IsSilent c
unfolding start on_deadline
Reaches-IsSilent o _ begin = record { unwritten = refl; until_deadline = refl }
Reaches-IsSilent o d (read {c} error q count n r due e) =
    on_read-IsSilent o error q count c d n (Reaches-IsSilent o c r) e
Reaches-IsSilent o _ (expire {c} r due) = record {
  unwritten = (Reaches-IsSilent o c r).unwritten;
  until_deadline = refl;
}

-- A post to `/email` of JSON whose `email` the library does not turn into a string, since it is a list for
-- example, ends in an exception that leaves `process_request`.
process_request-throws :
    (o : Outside) (q : Request) (count : ℕ) (r : Response) (root v : o.Value)
    → q.method ≡ post
    → (q.target == "/email") ≡ true
    → o.parse q.body ≡ some root
    → o.email root ≡ some v
    → o.as_string v ≡ none
    → process_request o q count r ≡ none
unfolding process_request respond with_count create_post_response post_body read_email
    email_response
process_request-throws o q count r root v m t p e s =
    rw (m, respond, t, if◌then◌else◌, p, post_body, e, read_email, s, email_response, with_count)
      refl
