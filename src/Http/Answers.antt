-- ===== src/Http/Answers.antt =====
-- asio/http/beasthttp.cpp: the status of the response to a request.
use Prim.Native.String.{String}
use text.Mathlib.Text.{◌==◌}
use c_study.Prelude.{
  ℕ, ◌+◌, ◌≡◌, refl, sym, ap, ◌∙◌, subst, Option, none, some, false, ◌||◌, if◌then◌else◌,
  Bool-cases, inl, inr,
}
use c_study.Http.{
  Verb, get, post, other, Request, Response, Outside, not_found, create_response, email_response,
  read_email, post_body, create_post_response, with_count, respond, process_request,
}

-- 200 for the two pages and the address that takes a post, 404 for any other address, and 400 for any
-- other method.
unfoldable pub expected : Verb → String → ℕ
expected get target = if target == "/count" || target == "/time" then 200 else 404
expected post target = if target == "/email" then 200 else 404
expected (other m) target = 400

-- Only a `GET` of the counter counts.
unfoldable pub counted : Verb → String → ℕ → ℕ
counted get target count = if target == "/count" then count + 1 else count
counted post target count = count
counted (other m) target count = count

some-injective {ℓ} : {A : Type ℓ} {x y : A} → some x ≡ some y → x ≡ y
some-injective e = cc

module _ (o : Outside) where
  Answered : Verb → String → ℕ → Response × ℕ → Type 0
  Answered m target count (r, n) =
      (r.result ≡ expected m target) × (r.keep_alive ≡ false) × (n ≡ counted m target count)

  get-Answered :
      (target : String) (count : ℕ) (r : Response)
      → r.result ≡ 200
      → r.keep_alive ≡ false
      → Answered get target count (create_response o target count r)
  unfolding Answered expected counted create_response not_found
  get-Answered target count r ok once = elim (Bool-cases (target == "/count")) [
    | inl e ↦ rw (e, if◌then◌else◌) (ok, once, refl)
    | inr e ↦ elim (Bool-cases (target == "/time")) [
      | inl e' ↦ rw (e, e', if◌then◌else◌) (ok, once, refl)
      | inr e' ↦ rw (e, e', if◌then◌else◌) (refl, once, refl)
    ]
  ]

  -- The posted value, in whatever way the JSON library reads it.
  Kept : Response → Option Response → Type 0
  Kept r none = Unit
  Kept r (some r') = (r'.result ≡ r.result) × (r'.keep_alive ≡ r.keep_alive)

  email-Kept : (r : Response) (v : o.Value) (s : Option String) → Kept r (email_response o r v s)
  unfolding Kept email_response
  email-Kept r v none = tt
  email-Kept r v (some s) = (refl, refl)

  read-Kept : (r : Response) (v : Option o.Value) → Kept r (read_email o r v)
  unfolding Kept read_email
  read-Kept r none = tt
  read-Kept r (some v) = email-Kept r v (o.as_string v)

  post-Kept : (r : Response) (v : Option o.Value) → Kept r (post_body o r v)
  unfolding Kept post_body
  post-Kept r none = (refl, refl)
  post-Kept r (some v) = read-Kept r (o.email v)

  with_count-Kept :
      (count : ℕ) (r : Response) (p : Option Response) (r' : Response) (n : ℕ)
      → Kept r p
      → with_count o count p ≡ some (r', n)
      → (r'.result ≡ r.result) × (r'.keep_alive ≡ r.keep_alive) × (n ≡ count)
  unfolding Kept with_count
  with_count-Kept count r none r' n k e = cc
  with_count-Kept count r (some r'') r' n k e =
      let same = some-injective e in
      (
        ap (λ p. p.0.result) (sym same) ∙ k.0,
        ap (λ p. p.0.keep_alive) (sym same) ∙ k.1,
        ap (λ p. p.1) (sym same),
      )

  post-Answered :
      (q : Request) (count : ℕ) (r r' : Response) (n : ℕ)
      → r.result ≡ 200
      → r.keep_alive ≡ false
      → with_count o count (create_post_response o q r) ≡ some (r', n)
      → Answered post q.target count (r', n)
  unfolding Answered expected counted create_post_response not_found with_count
  post-Answered q count r r' n ok once e = elim (Bool-cases (q.target == "/email")) [
    | inl hit ↦
        let r₁ : Response = record r { content_type = some "text/json" } in
        let (res, keep, same) =
          with_count-Kept count r₁ (post_body o r₁ (o.parse q.body)) r' n
            (post-Kept r₁ (o.parse q.body)) (rw (hit, if◌then◌else◌) at e) in
        rw (hit, if◌then◌else◌) (res ∙ ok, keep ∙ once, same)
    | inr miss ↦
        let found = some-injective (rw (miss, if◌then◌else◌) at e) in
        rw (miss, if◌then◌else◌)
          (
            ap (λ p. p.0.result) (sym found),
            ap (λ p. p.0.keep_alive) (sym found) ∙ once,
            ap (λ p. p.1) (sym found),
          )
  ]

  respond-Answered :
      (m : Verb) (q : Request) (count : ℕ) (r r' : Response) (n : ℕ)
      → r.keep_alive ≡ false
      → respond o m q count r ≡ some (r', n)
      → Answered m q.target count (r', n)
  unfolding respond
  respond-Answered get q count r r' n once e =
      subst (Answered get q.target count) (some-injective e)
        (get-Answered q.target count (record r { result = 200; server = some "Beast" }) refl once)
  respond-Answered post q count r r' n once e =
      post-Answered q count (record r { result = 200; server = some "Beast" }) r' n refl once e
  respond-Answered (other m) q count r r' n once e =
      subst (Answered (other m) q.target count) (some-injective e)
        (unfold Answered expected counted in (refl, once, refl))

  -- Where no exception leaves `process_request`, the response has the status that the method and the address
  -- ask for, and the connection is not kept; and `request_count` goes up by one for a `GET` of the
  -- counter and stays else.
  pub process_request-Answered :
      (q : Request) (count : ℕ) (r r' : Response) (n : ℕ)
      → process_request o q count r ≡ some (r', n)
      → (r'.result ≡ expected q.method q.target)
        × (r'.keep_alive ≡ false)
        × (n ≡ counted q.method q.target count)
  unfolding process_request Answered
  process_request-Answered q count r r' n e =
      respond-Answered q.method q count (record r { keep_alive = false }) r' n refl e
