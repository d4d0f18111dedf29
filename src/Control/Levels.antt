-- ===== src/Control/Levels.antt =====
-- A client (src/rss_ctrl_client.c) that sets the log level and asks for it (src/rss_ctrl_cmds.c).
use raptor_common.Base.{List, [], ◌∷◌, some, codes, Bytes, ◌≡◌}
use raptor_common.Control.Machine.{Machine}
use raptor_common.Json.{JsonLib, JsonLaws}

-- The names of the six levels, by their number.
abbrev pub names : List Bytes
names =
    codes "fatal" ∷ codes "error" ∷ codes "warn" ∷ codes "info" ∷ codes "debug" ∷ codes "trace" ∷ []

-- What a client hands to the socket.
abbrev pub sent : Bytes → Bytes → Bytes
sent sock_path msg = msg

module _ (J : JsonLib) (K : JsonLaws J) where
  -- The two fields of a request with a value.
  module _ (o : J.Json) (name : Bytes) (made : J.create ≡ some o) where
    abbrev started : J.Json
    started = J.add_string o (codes "cmd") (codes "set-log-level")
