-- ===== src/Mesh/Config.antt =====
-- src/adn_server/domain/mesh_session.py: what a session is built from, `_peer_from_config` and
-- `dns_host_from_config`. A SYSTEMS block is a record of the keys that are read, each `none` where
-- it is missing; a block that is no mapping is `none` itself. `ipaddress.ip_address`, as the test
-- whether a text is an address, is a parameter.
use Prim.Native.Char.{Char, code}
use adn_dmr_peer_server.Prelude.{
  ℕ, Bool, ◌&&◌, ◌||◌, Option, none, some, or_else, String, within, if◌then◌else◌, ◌==◌, nat_eq,
  string_eq,
}
use adn_dmr_peer_server.Mesh.Session.{Peer}

-- A configured port: `bad_port` is what `int()` refuses.
pub data PortValue : Type 0 where
  port : ℕ → PortValue
  bad_port : PortValue

-- MODE is empty where it is missing, TARGET_SOCK is `none` unless it is a pair, and `_TARGET_IP` is
-- `original_ip`.
pub record SysCfg : Type 0 where
  pub mode : String
  pub enabled : Option Bool
  pub target_sock : Option (Option String × PortValue)
  pub target_ip : Option String
  pub target_port : Option PortValue
  pub original_ip : Option String

abbrev pub default_port : ℕ
default_port = 62044

abbrev port_number : PortValue → ℕ
port_number (port n) = n
port_number bad_port = default_port

-- `str(host) if host else None`
abbrev host_value : Option String → Option String
host_value none = none
host_value (some host) = if host == "" then none else some host

-- the host and port before conversion
abbrev target : Option (Option String × PortValue) → SysCfg → Option String × PortValue
target (some sock) cfg = sock
target none cfg = (cfg.target_ip, or_else cfg.target_port (port default_port))

unfoldable pub peer_from_config : Option SysCfg → Peer
peer_from_config none = (none, default_port)
peer_from_config (some cfg) =
    let (host, p) = target cfg.target_sock cfg in (host_value host, port_number p)

-- `str.isspace` of one character
is_space : Char → Bool
is_space ch =
    let c = code ch in
    within 9 13 c
    || within 28 32 c
    || c == 133
    || c == 160
    || c == 5760
    || within 8192 8202 c
    || within 8232 8233 c
    || c == 8239
    || c == 8287
    || c == 12288

lstrip : String → String
lstrip String.[] = String.[]
lstrip (String.◌∷◌ c s) = let rest = lstrip s in if is_space c then rest else String.◌∷◌ c s

rstrip : String → String
rstrip String.[] = String.[]
rstrip (String.◌∷◌ c s) =
    let rest = rstrip s in if is_space c && rest == "" then String.[] else String.◌∷◌ c rest

unfoldable pub strip : String → String
unfolding is_space lstrip rstrip
strip s = rstrip (lstrip s)

module _ (is_ip_address : String → Bool) where
  abbrev name_of : String → Option String
  name_of text = if is_ip_address text then none else if text == "" then none else some text

  abbrev original_host : Option String → Option String
  original_host none = none
  original_host (some ip) = if ip == "" then none else name_of (strip ip)

  unfoldable pub dns_host_from_config : Option SysCfg → Option String
  dns_host_from_config none = none
  dns_host_from_config (some cfg) = original_host cfg.original_ip
