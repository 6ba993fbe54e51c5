-- ===== src/Subjecttoken/Laws.antt =====
-- Where a token of internal/subjecttoken/githubactions.go comes from.
use oidc_token_cli.Base.{
  String, ◌<>◌, ◌≡◌, ◌≢◌, refl, ap, ◌∙◌, eq_iff, is_empty, if◌then◌else◌, wrap, Result, ok, err, M,
  >>=-ok, map_err, map_err-ok, arith,
}
use oidc_token_cli.Subjecttoken.{HttpAnswer, read_value, read_answer, ask, fetch_github_actions}

module _ {W U : Type 0} (getenv : String → String) (parse : String → Result U)
    (with_audience : String → U → U) (get : U → String → M W HttpAnswer)
    (decode : String → Result String) where
  -- The endpoint answered with status 200, and with a body that holds the token, which is not
  -- empty.
  abbrev pub Answered : HttpAnswer → String → Type 0
  Answered answer token =
      (body : String) × (answer.status ≡ 200)
      × (answer.body ≡ ok body)
      × (decode body ≡ ok token)
      × (token ≢ "")

  read_value-ok :
      (body token : String)
      → read_value getenv parse with_audience get decode body ≡ ok token
      → (decode body ≡ ok token) × (token ≢ "")
  read_value-ok body token h = go (decode body) refl
    where
      go : (x : Result String) → decode body ≡ x → (decode body ≡ ok token) × (token ≢ "")
      go (err e) p = absurd (ground arith)
      go (ok value) p =
          (ground (arith, eq_iff value ""), ground (arith, eq_iff value "", eq_iff token ""))

  read_answer-Answered :
      (answer : HttpAnswer) (token : String)
      → read_answer getenv parse with_audience get decode answer ≡ ok token
      → Answered answer token
  read_answer-Answered answer token h = go answer.body refl
    where
      go : (x : Result String) → answer.body ≡ x → Answered answer token
      go (err e) p = absurd (ground arith)
      go (ok body) p =
          let (decoded, present) = read_value-ok body token (ground arith) in
          (body, ground arith, p, decoded, present)

  ask-Answered :
      (job_token token : String) (url : U) (w v : W)
      → ask getenv parse with_audience get decode job_token url w ≡ (ok token, v)
      → (answer : HttpAnswer) × (get url ("bearer " <> job_token) w ≡ (ok answer, v))
        × Answered answer token
  ask-Answered job_token token url w v h =
      let class = wrap "subjecttoken: fetch github-actions token" in
      let send = get url ("bearer " <> job_token) in
      let read : HttpAnswer → M W String =
        λ answer u. (read_answer getenv parse with_audience get decode answer, u) in
      let (answer, u, sent, done) = >>=-ok (map_err class send) read w h in
      (
        answer,
        map_err-ok class send w sent ∙ ap (λ x. (ok answer, x)) (ap (λ x. x.1) done),
        read_answer-Answered answer token (ap (λ x. x.0) done),
      )

  -- Both variables of the job are set, and one request to their URL, with the audience in its query
  -- if there is one, and with the token of the job, was answered with the token.
  abbrev pub Fetched : String → String → W → W → Type 0
  Fetched audience token w v =
      (u : U) × (answer : HttpAnswer) × (getenv "ACTIONS_ID_TOKEN_REQUEST_URL" ≢ "")
      × (getenv "ACTIONS_ID_TOKEN_REQUEST_TOKEN" ≢ "")
      × (parse (getenv "ACTIONS_ID_TOKEN_REQUEST_URL") ≡ ok u)
      × (get (if is_empty audience then u else with_audience audience u)
            ("bearer " <> getenv "ACTIONS_ID_TOKEN_REQUEST_TOKEN") w
          ≡ (ok answer, v))
      × Answered answer token

  -- A token is fetched only with both variables of the job set, from their URL, with the audience
  -- in its query if there is one, by one request that bears the token of the job, and out of an
  -- answer with status 200; it is not empty.
  pub fetch_github_actions-Fetched :
      (audience token : String) (w v : W)
      → fetch_github_actions getenv parse with_audience get decode audience w ≡ (ok token, v)
      → Fetched audience token w v
  unfolding fetch_github_actions
  fetch_github_actions-Fetched audience token w v h =
      go (parse (getenv "ACTIONS_ID_TOKEN_REQUEST_URL")) refl
    where
      go :
          (x : Result U)
          → parse (getenv "ACTIONS_ID_TOKEN_REQUEST_URL") ≡ x
          → Fetched audience token w v
      go (err e) p = absurd (ground arith)
      go (ok u) p =
          let url = if is_empty audience then u else with_audience audience u in
          let (answer, sent, answered) =
            ask-Answered (getenv "ACTIONS_ID_TOKEN_REQUEST_TOKEN") token url w v (ground arith) in
          (
            u,
            answer,
            ground (arith, eq_iff (getenv "ACTIONS_ID_TOKEN_REQUEST_URL") ""),
            ground (arith, eq_iff (getenv "ACTIONS_ID_TOKEN_REQUEST_TOKEN") ""),
            p,
            sent,
            answered,
          )
