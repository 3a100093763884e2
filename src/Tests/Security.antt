-- ===== src/Tests/Security.antt =====
-- A request of the dashboard with its token, and one that lacks it.
use agent_host.Common.{◌≡◌, refl, String, Option, codes, some, none, [], ◌∷◌, ◌=?◌, if◌then◌else◌}
use agent_host.Common.Results.{ok, err}
use agent_host.Http.Security.{
  Host, Url, Security, default_hosts, authentication_required, invalid_token, authenticate, admit,
  Request, handles, answers,
}
use agent_host.Http.Security.Admission.{Reaches, Comes, Shows, admit-Shows}

abbrev page : Url
page = record {
  protocol = "http:";
  hostname = "localhost";
  port = "4317";
  origin = "http://localhost:4317";
}

abbrev host : Host
host = record {
  parse_url = λ s. if s =? "http://localhost:4317" then some page else none;
  with_scheme = λ s. if s =? "localhost:4317" then "http://localhost:4317" else s;
  utf8 = λ codes. codes;
  media_type = λ s. s;
  upper = λ s. s;
  names = λ s. s ∷ [];
}

abbrev security : Security
security = record { api_token = "secret"; allowed_origins = []; allowed_hosts = default_hosts }

-- A request for the agents, behind the prefix of the program.
abbrev asks_agents : Request
asks_agents = record {
  method = "GET";
  path = codes "/agent-host/v1/agents";
  host = some "localhost:4317";
  origin = some "http://localhost:4317";
  authorization = some "BEARER secret";
  requested_method = none;
  requested_headers = none;
}

admitted : admit host security asks_agents "4317" ≡ ok (handles (some "http://localhost:4317"))
unfolding admit
admitted = refl

without_token :
    admit host security (record asks_agents { authorization = none }) "4317"
    ≡ err authentication_required
unfolding admit
without_token = refl

health_without_token :
    admit host security
      (record asks_agents { path = codes "/agent-host/health"; authorization = none })
      "4317"
    ≡ ok (handles (some "http://localhost:4317"))
unfolding admit
health_without_token = refl

preflight_without_token :
    admit host security
      (record asks_agents {
        method = "OPTIONS";
        requested_method = some "GET";
        authorization = none;
      })
      "4317"
    ≡ ok (answers "http://localhost:4317")
unfolding admit
preflight_without_token = refl

unknown : authenticate host security none ≡ err authentication_required
unfolding authenticate
unknown = refl

forged : authenticate host security (some "Bearer secret ") ≡ err invalid_token
unfolding authenticate
forged = refl

admit-Shows_example :
    (request_origin : String) × (origin : Option String) × (Reaches host security
      (some "localhost:4317")
      "4317"
      request_origin)
    × (Comes host security (some "http://localhost:4317") request_origin origin)
    × (Shows host security asks_agents (handles (some "http://localhost:4317")) origin)
admit-Shows_example =
    admit-Shows host security asks_agents "4317" (handles (some "http://localhost:4317")) admitted
