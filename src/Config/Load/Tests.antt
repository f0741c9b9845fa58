-- ===== src/Config/Load/Tests.antt =====
-- The configuration at concrete inputs.
use mathlib.Core.List.{reverse, reverse_perm}
use mhp.Prelude.{◌≡◌, ◌↔◌, refl, [], Bytes, bytes_eq, false, codes, if◌then◌else◌}
use mhp.Errors.{Result, ok, err, sentinel, not_exist}
use mhp.Config.{mode_proxy, mode_eq}
use mhp.Config.Space.{trim_space}
use mhp.Config.Load.{
  Config, ParsedFlags, loaded, failed, validation, both_required, proxy_config, Order, load,
}
use mhp.Config.Load.Accepts.{Accepts, load_iff}

abbrev parsed : ParsedFlags
parsed = record {
  mode = mode_proxy;
  listen = codes "127.0.0.1:1080";
  relay = codes "relay:443";
  tls_name = [];
  ca_path = codes "ca.pem";
  tls_cert = [];
  tls_key = [];
  token_file = codes "t";
  exit_token_file = [];
  proxy_token_file = [];
  username = [];
  password = [];
  debug = false;
}

abbrev read_file : Bytes → Result Bytes
read_file path = if bytes_eq path (codes "t") then ok (codes "key\n") else err (sentinel not_exist)

abbrev expected : Config
expected = record (proxy_config parsed) { token = record { content = codes "key" } }

abbrev order : Order
order fields = reverse fields

proxy_loads : load order read_file parsed ≡ loaded expected
unfolding load bytes_eq trim_space mode_eq
proxy_loads = refl

half_credentials :
    load order read_file (record parsed { username = codes "u" })
    ≡ failed (validation "-username/-password" both_required)
unfolding load mode_eq
half_credentials = refl

load_iff_example :
    (load order read_file parsed ≡ loaded expected) ↔ Accepts read_file mode_proxy parsed expected
load_iff_example = load_iff order read_file parsed expected (λ fields. reverse_perm fields)
