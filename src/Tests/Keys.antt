-- ===== src/Tests/Keys.antt =====
-- Requests with keys, and addresses behind proxies.
use lang_graph_uas.Prelude.{true, [], ◌∷◌, none, some, concat}
use lang_graph_uas.Api.Security.{Settings, Digests, require_api_key}
use lang_graph_uas.Api.Security.Laws.{Justified, require_api_key-Justified}

abbrev digests : Digests
digests = record {
  key_hash = λ key. key;
  session_key = λ secret session. concat ("session." ∷ session ∷ "." ∷ secret ∷ []);
  session_digest = λ session. session;
  session_id = λ presented. none;
  canonical = λ text. some text;
}

abbrev settings : Settings
settings = record {
  auth_enabled = true;
  operator_keys = ("alice", "new-key") ∷ [];
  retired_keys = record { operator_id = "alice"; key = "old-key"; expires_at = 100 } ∷ [];
  session_key_secret = "";
}

require_api_key-Justified_example :
    Justified digests settings 50
      (some "10.0.0.7")
      (("old-key", "10.0.0.7") ∷ [])
      (some "old-key")
      (require_api_key digests
        (some "old-key")
        settings
        50
        (some "10.0.0.7")
        (("old-key", "10.0.0.7") ∷ []))
require_api_key-Justified_example =
    require_api_key-Justified digests settings 50 (some "10.0.0.7") (("old-key", "10.0.0.7") ∷ [])
      (some "old-key")
