-- ===== src/Tests/Start.antt =====
-- A process of sqelf/src/main.rs that starts where its address cannot be bound, and the end of its
-- standard input.
use Prim.Native.String.{String}
use seq_input_gelf.Common.{◌≡◌, refl, List, [], ◌∷◌, none, some, if◌then◌else◌}
use seq_input_gelf.Config.{Var, not_present}
use seq_input_gelf.Diagnostics.Events.{Failure, root}
use seq_input_gelf.Receive.Message.{single}
use seq_input_gelf.Receive.Outcome as Outcome
use seq_input_gelf.Server.Config as Configured
use seq_input_gelf.Server.Config.{Certificate, tcp}
use seq_input_gelf.Server.Build.{Library, connections, incoming, tls_of, tls_config, first_key}
use seq_input_gelf.Server.Build.Listens.{Follows, incoming-Follows}
use seq_input_gelf.Server.Received.{Received, complete, error}
use seq_input_gelf.Server.Loop
use seq_input_gelf.Server.Loop.{close}
use seq_input_gelf.Server.Loop.Counted.{started}
use seq_input_gelf.Application.Start.{Error, World, exits, main}
use seq_input_gelf.Application.Start.Exits.{refusals, accepts, main-exits}
use seq_input_gelf.Tests.Server.{metrics, process}
use seq_input_gelf.Tests.Diagnostics.{fresh}

-- A library in which every address has the form of one; a file gives its own path as its certificate and
-- its key.
abbrev library : Library
library = record {
  Addr = String;
  Socket = String;
  File = String;
  Cert = String;
  Key = String;
  Tls = String × String;
  parse = λ s. some s;
  bind_udp = λ addr. none;
  bind_tcp = λ addr. some addr;
  open_file = λ path. some path;
  certs = λ file. some (file ∷ []);
  pkcs8_private_keys = λ file. some (file ∷ "unused" ∷ []);
  with_single_cert = λ certs key. some ("cert", key);
}

abbrev config : Configured.Config
config = record {
  bind = record { addr = "localhost:12201"; protocol = tcp };
  tcp_keep_alive_secs = 120;
  tcp_max_size_bytes = 1024;
  certificate = some (record { path = "cert.pem"; private_key_path = "key.pem" });
}

incoming-Follows_example :
    Follows library config (connections "localhost:12201" 120 1024 (some ("cert", "key.pem")))
unfolding incoming tls_of tls_config first_key
incoming-Follows_example =
    incoming-Follows library config "localhost:12201"
      (connections "localhost:12201" 120 1024 (some ("cert", "key.pem"))) refl

abbrev items : List Received
items = complete (single none (1 ∷ [])) ∷ error Outcome.too_small ∷ []

abbrev nothing_set : String → Var
nothing_set name = not_present

abbrev world : World
world = record { diagnostics = fresh; log = [] }

abbrev display : Error → Failure
display e = root "failed"

-- The address cannot be bound, and the process exits all the same with what `accepts` says.
main-exits_example :
    ((main library display nothing_set process (close ∷ []) (started metrics []) world).1
      ≡ exits (if accepts library nothing_set then 0 else 1))
    × ((main library display nothing_set process (close ∷ []) (started metrics []) world).0.log
        ≡ refusals library display nothing_set)
unfolding Loop.run Loop.turn
main-exits_example =
    main-exits library display nothing_set process (close ∷ []) (started metrics []) world refl refl
