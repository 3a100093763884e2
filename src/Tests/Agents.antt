-- ===== src/Tests/Agents.antt =====
-- A bare process, the agent that is known to run it, and an agent without a process.
use agent_host.Common.{
  String, ◌≡◌, refl, true, false, ◌&&◌, not, none, some, List, [], ◌∷◌, map, all,
}
use agent_host.Discovery.{Agent, Host, compare_agents, reconcile_agents, is_raw}
use agent_host.Discovery.Shown.{reconcile_agents-id, reconcile_agents-is_twin, is_twin}
use agent_host.Discovery.Ranking.{flip, compare_agents-flip}

abbrev bare : Agent
bare = record {
  id = "process:7";
  provider = "codex";
  status = "unknown";
  pid = some "7";
  discovery = some record { kind = "process"; visibility = none; duplicate_of = none };
  capabilities = [];
  last_activity_at = none;
}

abbrev thread : Agent
thread = record bare {
  id = "codex:1";
  status = "working";
  discovery = none;
  capabilities = true ∷ [];
}

abbrev agents : List Agent
agents = bare ∷ thread ∷ record thread { id = "codex:2"; pid = none } ∷ []

reconcile_agents-id_example :
    map (λ b. b.id) (reconcile_agents agents true) ≡ map (λ b. b.id) agents
reconcile_agents-id_example = reconcile_agents-id agents

reconcile_agents-is_twin_example :
    all (λ b. not (is_raw b) && not (is_twin agents b)) (reconcile_agents agents false) ≡ true
reconcile_agents-is_twin_example = reconcile_agents-is_twin agents refl

abbrev host : Host
host = record { date_parse = λ s. none; text_before = λ s t. false }

one_way : (s t : String) → host.text_before s t ≡ true → host.text_before t s ≡ false
one_way s t e = refl

compare_agents-flip_example :
    compare_agents host thread bare ≡ flip (compare_agents host bare thread)
compare_agents-flip_example = compare_agents-flip host one_way bare thread
