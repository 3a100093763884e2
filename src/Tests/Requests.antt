-- ===== src/Tests/Requests.antt =====
-- A launch request of a small catalog, and a repository context that an adapter got wrong.
use agent_host.Common.{◌≡◌, refl, true, false, Option, none, some, List, [], ◌∷◌, safe_id}
use agent_host.Common.Json.{
  Value, object, string, boolean, array, nil, cons, end, field, member, only_keys,
}
use agent_host.Common.Results.{ok}
use agent_host.Launch.Contracts.{Request, Risk}
use agent_host.Launch.Catalog.{Provider, normalize_launch_request, capabilities_for}
use agent_host.Launch.Catalog.Consent.{
  Confirms, offers, normalize_launch_request-Confirms, normalize_launch_request-capabilities_for,
}
use agent_host.Associations.{Host}
use agent_host.Associations.Context.{normalize_repository_context}
use agent_host.Associations.Justified.{is_publishable, normalize_repository_context-is_publishable}

abbrev risk : Risk
risk = record { local_mutation = true; external_billable = false }

abbrev pub providers : List Provider
providers =
    record {
      provider = "codex";
      capability_version = "1";
      targets =
          record {
            id = "local";
            profiles = "default" ∷ [];
            modes = record { id = "safe"; enabled = true; risk = risk } ∷ [];
          }
          ∷ [];
    }
    ∷ []

abbrev pub payload : Value
payload = object (
    field "provider" (string "codex") (
      field "target" (string "local") (
        field "profile" (string "default") (
          field "mode" (string "safe") (
            field "confirmations"
              (object (
                field "localMutation" (boolean true)
                  (field "externalBillable" (boolean false) end)))
              end)))))

abbrev pub request : Request
request = record {
  provider = "codex";
  target = "local";
  profile = "default";
  mode = "safe";
  risk = risk;
  capability_version = "1";
}

accepts : normalize_launch_request payload providers ≡ ok request
unfolding normalize_launch_request only_keys member safe_id
accepts = refl

normalize_launch_request-Confirms_example :
    Confirms payload request × (offers request providers ≡ true)
normalize_launch_request-Confirms_example =
    normalize_launch_request-Confirms payload providers request accepts

normalize_launch_request-capabilities_for_example :
    normalize_launch_request payload (capabilities_for request) ≡ ok request
normalize_launch_request-capabilities_for_example =
    normalize_launch_request-capabilities_for payload providers request accepts

abbrev host : Host
host = record {
  lower = λ s. s;
  parse_url = λ s. none;
  is_iso = λ s. true;
  safe_integer = λ s. none;
  stringify = λ a. a.kind;
  key_before = λ a b. false;
}

abbrev context : Option Value
context = some (
    object
      (field "state" (string "ready") (field "associations" (array (cons (string "x") nil)) end)))

normalize_repository_context-is_publishable_example :
    is_publishable (normalize_repository_context host context) ≡ true
normalize_repository_context-is_publishable_example =
    normalize_repository_context-is_publishable host context
