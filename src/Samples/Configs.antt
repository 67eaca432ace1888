-- ===== src/Samples/Configs.antt =====
-- A configuration.
use corsget.Prelude.{[], ◌∷◌, false}
use corsget.Text.{text}
use corsget.Config.{Config}

abbrev pub small_config : Config
small_config = record {
  application = record {
    host = text "127.0.0.1" ∷ [];
    port = 8080;
    hostname = text "localhost";
    real_ip_header = text "X-Real-IP";
  };
  connection = record {
    target = record { blacklist = []; whitelist = [] };
    origin = record { blacklist = []; whitelist = [] };
    rate_limit = record { window = 60; max = 100 } ∷ [];
    bandwidth_limit = record { connection = []; result = record { max = 0 } };
  };
  proxy = record {
    max_redirects = 5;
    timeout = 0;
    response_headers_overrides =
        record {
          site = text "a";
          remove_headers = text "server" ∷ [];
          add_headers = [];
          set_headers = [];
        }
        ∷ [];
  };
  cache = record { enabled = false; max_age = 0; max_size = 0; location = []; whitelist = [] };
}
