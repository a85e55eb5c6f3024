-- ===== src/Hub/Proxies.antt =====
-- internal/hub/proxy.go: the records of the ports that are published over HTTP, and the resolution
-- of the host of a request to one. Splitting a port off a host is a parameter.
pub mod Pairs
pub mod Repeating
pub mod Hosts
mod Examples
use llmbox.Prelude.{
  ℕ, Bool, true, false, not, ◌&&◌, ◌||◌, Option, none, some, List, [], ◌∷◌, ◌++◌, ℤ, pos, negsuc,
  ltb, leb, nat_beq, if◌then◌else◌, Str, codes, str_eq, str_beq, ◌==◌, to_lower, decimal, contains,
  Table, put, del, Result, ok, failed,
}
use llmbox.Netfw.Firewall.{Error}
use llmbox.Box.Identifiers.{equal_fold}
use llmbox.Hub.Records.{Session, terminated}

-- `store.ProxyRecord`.
pub record ProxyRecord : Type 0 where
  pub slug : Str
  pub box_id : Str
  pub instance_id : Str
  pub port : ℕ
  pub spoke : Str
  pub created_at : ℤ
  pub owner : Str
  pub description : Str

-- The table of the database, with how its next statements end, the slugs that are drawn next, the
-- clock, and whether a base domain is set.
pub record Proxies : Type 0 where
  pub rows : Table Str ProxyRecord
  pub faults : List Error
  pub drawn : List (Result Str Str)
  pub now : ℤ
  pub enabled : Bool

abbrev pub later : Proxies → Proxies
later p = record p { faults = elim p.faults [ [] ↦ [] | _ ∷ es ↦ es ] }

abbrev pub fault : Proxies → Error
fault p = elim p.faults [ [] ↦ none | e ∷ _ ↦ e ]

-- The row of a box and a port, the first in the order of the listing.
abbrev pub fits : Str → ℕ → ProxyRecord → Bool
fits box_id port r = equal_fold r.box_id box_id && nat_beq r.port port

pub first_fit : Str → ℕ → Table Str ProxyRecord → Option ProxyRecord
first_fit box_id port [] = none
first_fit box_id port ((k, r) ∷ m) = if fits box_id port r then some r else first_fit box_id port m

-- `findProxy`.
abbrev pub find_ended : Str → ℕ → Proxies → Error → Proxies × Result Str (Option ProxyRecord)
find_ended box_id port p (some e) = (later p, failed e)
find_ended box_id port p none = (later p, ok (first_fit box_id port p.rows))

pub find_proxy : Str → ℕ → Proxies → Proxies × Result Str (Option ProxyRecord)
unfolding first_fit
find_proxy box_id port p = find_ended box_id port p (fault p)

-- `store.SaveProxy` and `store.DeleteProxy`.
abbrev pub save_ended : ProxyRecord → Proxies → Error → Proxies × Error
save_ended r p (some e) = (later p, some e)
save_ended r p none = (record (later p) { rows = put r.slug r p.rows }, none)

pub save : ProxyRecord → Proxies → Proxies × Error
save r p = save_ended r p (fault p)

abbrev pub remove_ended : Str → Proxies → Error → Proxies × Error
remove_ended slug p (some e) = (later p, some e)
remove_ended slug p none = (record (later p) { rows = del slug p.rows }, none)

unfoldable pub remove : Str → Proxies → Proxies × Error
remove slug p = remove_ended slug p (fault p)

abbrev pub undrawn : Proxies → Proxies
undrawn p = record p { drawn = elim p.drawn [ [] ↦ [] | _ ∷ ss ↦ ss ] }

abbrev pub draw : Proxies → Result Str Str
draw p = elim p.drawn [ [] ↦ failed (codes "no entropy") | s ∷ _ ↦ s ]

-- The request that a creation serves. A port below zero is left out: it is refused as zero is.
pub record Wanted : Type 0 where
  pub box_id : Str
  pub port : ℕ
  pub created_by : Str
  pub description : Str

abbrev pub record_of : Wanted → Session → Str → ℤ → ProxyRecord
record_of w s slug now = record {
  slug = slug;
  box_id = w.box_id;
  instance_id = s.generation;
  port = w.port;
  spoke = s.spoke_name;
  created_at = now;
  owner = w.created_by;
  description = w.description;
}

abbrev pub saved : ProxyRecord → Proxies × Error → Proxies × Result Str ProxyRecord
saved r (p, none) = (p, ok r)
saved r (p, some e) = (p, failed (codes "saving proxy: " ++ e))

abbrev pub with_slug :
    Wanted → Session → Proxies → Result Str Str → Proxies × Result Str ProxyRecord
with_slug w s p (failed e) = (p, failed (codes "generating proxy slug: " ++ e))
with_slug w s p (ok slug) = let r = record_of w s slug p.now in saved r (save r p)

abbrev pub mint : Wanted → Session → Proxies → Proxies × Result Str ProxyRecord
mint w s p = with_slug w s (undrawn p) (draw p)

abbrev pub replaced : Wanted → Session → Proxies × Error → Proxies × Result Str ProxyRecord
replaced w s (p, some e) = (p, failed (codes "replacing stale proxy: " ++ e))
replaced w s (p, none) = mint w s p

abbrev pub on_existing :
    Wanted → Session → Proxies × Result Str (Option ProxyRecord) → Proxies × Result Str ProxyRecord
on_existing w s (p, failed e) = (p, failed e)
on_existing w s (p, ok none) = mint w s p
on_existing w s (p, ok (some r)) =
    if r.instance_id == s.generation then (p, ok r) else replaced w s (remove r.slug p)

abbrev quoted : Str → Str
quoted s = b'"' ∷ s ++ b'"' ∷ []

abbrev on_session : Wanted → Proxies → Option Session → Proxies × Result Str ProxyRecord
on_session w p none = (
  p,
  failed (
      codes "no box found with box ID "
      ++ quoted w.box_id
      ++ codes " (it may have expired, or was created without a box ID)"),
)
on_session w p (some s) =
    if terminated s
    then (
      p,
      failed (
          codes "box "
          ++ quoted w.box_id
          ++ codes
              " is terminated (it no longer exists on its spoke); recreate the box before enabling a proxy"),
    )
    else on_existing w s (find_proxy w.box_id w.port p)

-- `createProxy`, where `found` is the record that the lookup of the box ID gives.
pub create_proxy : Wanted → Option Session → Proxies → Proxies × Result Str ProxyRecord
unfolding find_proxy save remove
create_proxy w found p =
    if not p.enabled
    then (p, failed (codes "proxying is not enabled on this server"))
    else (if ltb w.port 1 || ltb 65535 w.port
        then (
          p,
          failed (codes "invalid port " ++ decimal w.port ++ codes ": must be between 1 and 65535"),
        )
        else on_session w p found)

abbrev pub removed : Str → Proxies × Error → Proxies × Result Str Str
removed slug (p, none) = (p, ok slug)
removed slug (p, some e) = (p, failed (codes "deleting proxy: " ++ e))

abbrev delete_found : Str → ℕ → Proxies × Result Str (Option ProxyRecord) → Proxies × Result Str Str
delete_found box_id port (p, failed e) = (p, failed e)
delete_found box_id port (p, ok none) =
    (p, failed (codes "no proxy found for box " ++ quoted box_id ++ codes " port " ++ decimal port))
delete_found box_id port (p, ok (some r)) = removed r.slug (remove r.slug p)

-- `deleteProxy`.
delete_proxy : Str → ℕ → Proxies → Proxies × Result Str Str
unfolding find_proxy remove
delete_proxy box_id port p = delete_found box_id port (find_proxy box_id port p)

-- `deleteProxiesForBox`, after the listing, where an error of a deletion is only logged.
delete_rows : Str → Table Str ProxyRecord → Proxies → Proxies
unfolding remove
delete_rows box_id [] p = p
delete_rows box_id ((k, r) ∷ m) p =
    delete_rows box_id m (if equal_fold r.box_id box_id then (remove r.slug p).0 else p)

pub delete_proxies_for_box : Str → Proxies → Proxies
unfolding delete_rows
delete_proxies_for_box box_id p =
    if box_id == [] || not p.enabled
    then p
    else elim (fault p) [ some e ↦ later p | none ↦ delete_rows box_id p.rows (later p) ]
