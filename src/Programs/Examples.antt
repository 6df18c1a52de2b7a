-- ===== src/Programs/Examples.antt =====
-- The webhook listener's program with concrete variables.
use cloud_agent.Common.{pos, decimal, String, ok, ◌≡◌, refl, ◌==◌, if◌then◌else◌}
use cloud_agent.GitHub.App.{new_app_client}
use cloud_agent.Programs.Listener.{
  Platform, app, redis_at, Listening, github_client, new_redis_token_store, token_store, set_up,
}
use cloud_agent.Programs.Configured.{GitHubConfigured, StoreConfigured, set_up-Configured}

abbrev variables : String → String
variables key =
    if key == "GITHUB_APP_ID"
    then "12"
    else if key == "GITHUB_APP_PRIVATE_KEY_PATH"
    then "/etc/key.pem"
    else if key == "REDIS_URL"
    then "redis://store"
    else ""

abbrev platform : Platform
platform = record {
  in_cluster_config = ok tt;
  kubernetes = ok tt;
  dynamic = ok tt;
  getenv = variables;
  parse_int = λ s. ok (pos 12);
  parse_redis_url = λ url. ok tt;
  quote = λ url. url;
}

abbrev listening : Listening
listening = record {
  github = app (record { app_id = pos 12; private_key_path = "/etc/key.pem"; base_url = "" });
  store = redis_at "redis://store";
  namespace = "agents";
  webhook_secret = "";
  addr = ":8080";
}

sets_up : set_up platform (pos 8080) "agents" ≡ ok listening
unfolding set_up github_client new_app_client token_store new_redis_token_store decimal
sets_up = refl

set_up-Configured_example :
    GitHubConfigured platform listening.github × StoreConfigured platform listening.store
set_up-Configured_example = set_up-Configured platform (pos 8080) "agents" listening sets_up
