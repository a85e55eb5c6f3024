-- ===== src/Hub/Proxies/Examples.antt =====
-- Published ports and hosts at concrete inputs.
use llmbox.Prelude.{
  ◌≡◌, ◌≢◌, ◌↔◌, refl, true, none, some, [], ◌∷◌, pos, codes, str_beq, to_lower, put, ok,
}
use llmbox.Hub.Records.{Session, box_state_running}
use llmbox.Hub.Proxies
use llmbox.Hub.Proxies.{ProxyRecord, Proxies, Wanted, record_of, create_proxy}
use llmbox.Hub.Proxies.Repeating.{create_proxy_again}
use llmbox.Hub.Proxies.Hosts.{
  portless, trim_suffix, Names, proxy_slug_from_host, proxy_slug_from_host_iff,
}

abbrev web : Session
web = record {
  token = codes "t1";
  generation = codes "i1";
  created_at = pos 7;
  hook_state = [];
  box_id = codes "web";
  description = [];
  spoke_name = codes "alpha";
  phase = codes "ready";
  init_error = [];
  box_state = box_state_running;
  last_seen = pos 7;
  name = [];
  image = [];
  instance_state = [];
}

abbrev wanted : Wanted
wanted = record { box_id = codes "web"; port = 8080; created_by = []; description = [] }

abbrev no_proxies : Proxies
no_proxies = record {
  rows = [];
  faults = [];
  drawn = ok (codes "ab12") ∷ [];
  now = pos 9;
  enabled = true;
}

abbrev published : ProxyRecord
published = record_of wanted web (codes "ab12") (pos 9)

create_proxy_again_example :
    ((create_proxy wanted (some web) (create_proxy wanted (some web) no_proxies).0).1
      ≡ ok published)
    × ((create_proxy wanted (some web) (create_proxy wanted (some web) no_proxies).0).0.rows
        ≡ (create_proxy wanted (some web) no_proxies).0.rows)
unfolding Proxies.create_proxy Proxies.find_proxy Proxies.first_fit Proxies.save put str_beq
create_proxy_again_example = create_proxy_again wanted web no_proxies published (tt, tt) refl refl

proxy_slug_from_host_iff_example :
    (proxy_slug_from_host (λ h. none) (codes "proxy.test") (codes "AB12.proxy.test.")
      ≡ some (codes "ab12"))
    ↔ ((codes "proxy.test" ≢ [])
        × Names
            (codes "proxy.test")
            (to_lower (trim_suffix (portless (λ h. none) (codes "AB12.proxy.test.")) (b'.' ∷ [])))
            (codes "ab12"))
proxy_slug_from_host_iff_example =
    proxy_slug_from_host_iff (λ h. none) (codes "proxy.test") (codes "AB12.proxy.test.")
      (codes "ab12")
