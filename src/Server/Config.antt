-- ===== src/Server/Config.antt =====
-- The configuration of sqelf/src/server/mod.rs, and `Bind::from_str`.
use Prim.Native.String.{String}
use Prim.Native.Char.{code}
use seq_input_gelf.Common.{ℕ, ◌*◌, ◌==◌, Option, none, some, if◌then◌else◌}

pub data Protocol : Type 0 where
  udp tcp : Protocol

pub record Bind : Type 0 where
  pub addr : String
  pub protocol : Protocol

pub record Certificate : Type 0 where
  pub path : String
  pub private_key_path : String

pub record Config : Type 0 where
  pub bind : Bind
  pub tcp_keep_alive_secs : ℕ
  pub tcp_max_size_bytes : ℕ
  pub certificate : Option Certificate

-- `Config::default`.
abbrev pub default_config : Config
default_config = record {
  bind = record { addr = "0.0.0.0:12201"; protocol = udp };
  tcp_keep_alive_secs = 2 * 60;
  tcp_max_size_bytes = 1024 * 256;
  certificate = none;
}

-- What follows a prefix. `s.get(0..6)` is the prefix exactly if the text starts with its characters,
-- which are ASCII.
unfoldable pub after : String → String → Option String
after String.[] s = some s
after (String.◌∷◌ c p) String.[] = none
after (String.◌∷◌ c p) (String.◌∷◌ d s) = if code c == code d then after p s else none

-- `Bind::from_str`, which always succeeds.
unfoldable pub from_str : String → Bind
unfolding after
from_str s = elim (after "tcp://" s) [
  | some addr ↦ record { addr = addr; protocol = tcp }
  | none ↦ elim (after "udp://" s) [
    | some addr ↦ record { addr = addr; protocol = udp }
    | none ↦ record { addr = s; protocol = udp }
  ]
]
