-- ===== src/Frontend/Session/Retries.antt =====
-- How often a request of the client is sent.
use db_backup_tool.Base.{
  ℕ, suc, ◌+◌, ◌≤◌, String, ◌<>◌, Bool, true, false, Option, none, some, List, [], ◌∷◌, Bool-cases,
  Option-cases, ◌≡◌, refl, ap, ◌∙◌, inl, inr, arith,
}
use db_backup_tool.Frontend.Session.{
  Sent, to_api, to_refresh, Client, Server, Answer, Config, Outcome, resolved, rejected,
  refresh_access_token, authorized, needs_refresh, to_login, after_refresh, api, is_fine,
  set_access_token, clear, filled,
}

-- How many requests and how many renewals a client has sent.
abbrev pub requests : List Sent → ℕ
requests [] = 0
requests (to_api url authorization ∷ log) = suc (requests log)
requests (to_refresh ∷ log) = requests log

abbrev pub renewals : List Sent → ℕ
renewals [] = 0
renewals (to_api url authorization ∷ log) = renewals log
renewals (to_refresh ∷ log) = suc (renewals log)

module _ (server : Server) (on_login : Bool) where
  refresh-log : (c : Client) → (refresh_access_token server c).1.log ≡ to_refresh ∷ c.log
  unfolding refresh_access_token set_access_token clear
  refresh-log c = elim (Bool-cases (is_fine (server c.log to_refresh).status)) [
    | inl fine ↦ rw fine refl
    | inr failed ↦ rw failed refl
  ]

  -- A request that was sent before is not sent again.
  needs_refresh-retry :
      (status : Option ℕ) (config : Config)
      → config.retry ≡ true
      → needs_refresh status config ≡ false
  unfolding needs_refresh
  needs_refresh-retry status config e = rw e (ground arith)

  authorized-retry : (c : Client) (config : Config) → (authorized c config).retry ≡ config.retry
  unfolding authorized
  authorized-retry c config = elim (Option-cases (filled c.access_token)) [
    | inl missing ↦ rw missing refl
    | inr (token, held) ↦ rw held refl
  ]

  -- The client behind the first request.
  abbrev sent_once : Config → Client → Client
  sent_once config c =
      let original = authorized c config in
      record c { log = to_api original.url original.authorization ∷ c.log }

  abbrev answer_of : Config → Client → Answer
  answer_of config c =
      let original = authorized c config in
      server c.log (to_api original.url original.authorization)

  abbrev Sends : ℕ → Config → Client → ℕ → ℕ → Type 0
  Sends fuel config c most renewed =
      (o : Outcome) × (d : Client) × (api server on_login fuel config c ≡ some (o, d))
      × (requests d.log ≤ requests c.log + most)
      × (renewals d.log ≤ renewals c.log + renewed)

  api-fine :
      (fuel : ℕ) (config : Config) (c : Client)
      → is_fine (answer_of config c).status ≡ true
      → api server on_login (suc fuel) config c
        ≡ some (resolved (answer_of config c), sent_once config c)
  unfolding api
  api-fine fuel config c fine = rw fine refl

  api-refused :
      (fuel : ℕ) (config : Config) (c : Client)
      → is_fine (answer_of config c).status ≡ false
      → needs_refresh (answer_of config c).status (authorized c config) ≡ false
      → api server on_login (suc fuel) config c
        ≡ some (rejected (answer_of config c), sent_once config c)
  unfolding api
  api-refused fuel config c failed final = rw (failed, final) refl

  api-again :
      (fuel : ℕ) (config : Config) (c : Client)
      → is_fine (answer_of config c).status ≡ false
      → needs_refresh (answer_of config c).status (authorized c config) ≡ true
      → api server on_login (suc fuel) config c ≡ (
          let (token, renewed) = refresh_access_token server (sent_once config c) in
          after_refresh
            (λ new d.
              api server on_login fuel
                (record (authorized c config) {
                  retry = true;
                  authorization = some ("Bearer " <> new);
                })
                d)
            on_login
            (answer_of config c)
            (filled token)
            renewed)
  unfolding api
  api-again fuel config c failed again = rw (failed, again) refl

  api_retried :
      (fuel : ℕ) (config : Config) (c : Client)
      → config.retry ≡ true
      → Sends (suc fuel) config c 1 0
  api_retried fuel config c e = elim (Bool-cases (is_fine (answer_of config c).status)) [
    | inl fine ↦ (_, sent_once config c, api-fine fuel config c fine, omega arith, omega arith)
    | inr failed ↦ (
      _,
      sent_once config c,
      api-refused fuel config c failed
          (needs_refresh-retry _ (authorized c config) (authorized-retry c config ∙ e)),
      omega arith,
      omega arith,
    )
  ]

  requests-to_login : (c : Client) → requests (to_login on_login c).log ≡ requests c.log
  unfolding to_login
  requests-to_login c = elim (Bool-cases on_login) [
    | inl there ↦ rw there refl
    | inr away ↦ rw away refl
  ]

  renewals-to_login : (c : Client) → renewals (to_login on_login c).log ≡ renewals c.log
  unfolding to_login
  renewals-to_login c = elim (Bool-cases on_login) [
    | inl there ↦ rw there refl
    | inr away ↦ rw away refl
  ]

  -- The request behind a renewal, with its configuration.
  after_refresh-Sends :
      (fuel : ℕ) (config : Config) (c d : Client) (token : Option String) (answer : Answer)
      → d.log ≡ to_refresh ∷ (sent_once config c).log
      → (o : Outcome) × (e : Client) × (after_refresh
            (λ new d'.
              api server on_login
                (suc fuel)
                (record (authorized c config) {
                  retry = true;
                  authorization = some ("Bearer " <> new);
                })
                d')
            on_login
            answer
            token
            d
          ≡ some (o, e))
        × (requests e.log ≤ requests c.log + 2)
        × (renewals e.log ≤ renewals c.log + 1)
  after_refresh-Sends fuel config c d none answer l = (
    rejected answer,
    to_login on_login d,
    refl,
    omega (arith, requests-to_login d, ap requests l),
    omega (arith, renewals-to_login d, ap renewals l),
  )
  after_refresh-Sends fuel config c d (some new) answer l =
      let (o, e, run, sent, renewed) = api_retried fuel _ d refl in
      (o, e, run, omega (arith, ap requests l), omega (arith, ap renewals l))

-- However a server answers, a request of the client comes to an end: it is sent at most twice, with at
-- most one renewal of the session, and the fuel 2 is enough.
pub api_total :
    (server : Server) (on_login : Bool) (fuel : ℕ) (config : Config) (c : Client)
    → (o : Outcome) × (d : Client) × (api server on_login (suc (suc fuel)) config c ≡ some (o, d))
      × (requests d.log ≤ requests c.log + 2)
      × (renewals d.log ≤ renewals c.log + 1)
api_total server on_login fuel config c =
    elim (Bool-cases (is_fine (answer_of server on_login config c).status)) [
      | inl fine ↦ (
        _,
        sent_once server on_login config c,
        api-fine server on_login (suc fuel) config c fine,
        omega arith,
        omega arith,
      )
      | inr failed ↦
          elim (Bool-cases
            (needs_refresh (answer_of server on_login config c).status (authorized c config))) [
              | inl again ↦
                  let (token, renewed) =
                    refresh_access_token server (sent_once server on_login config c) in
                  let (o, d, run, sent, made) =
                    after_refresh-Sends server on_login fuel config c renewed (filled token)
                      (answer_of server on_login config c)
                      (refresh-log server on_login (sent_once server on_login config c)) in
                  (
                    o,
                    d,
                    api-again server on_login (suc fuel) config c failed again ∙ run,
                    sent,
                    made,
                  )
              | inr final ↦ (
                _,
                sent_once server on_login config c,
                api-refused server on_login (suc fuel) config c failed final,
                omega arith,
                omega arith,
              )
            ]
    ]
