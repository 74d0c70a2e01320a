-- ===== src/Examples/Changes.antt =====
-- Changes of the network, of the configuration and of the routes at concrete inputs.
use cherry_waf.Base.{
  ◌≡◌, refl, sym, subst, inl, inr, true, false, Option, some, [], ◌∷◌, In, ◌==◌, Text, codes,
  nat_eq, string_eq, text_eq, trim_space, strip_prefix, strip_suffix, to_lower,
}
use cherry_waf.Base.Assoc.{get}
use cherry_waf.Network.{Files, System, apply, rollback, valid_token}
use cherry_waf.Network.Undo.{apply_undone}
use cherry_waf.Network.Plan.{
  NetworkPlan, Parser, valid_interface_name, validate_network_plan, digits, itoa, write_plan,
  render_netplan,
}
use cherry_waf.Network.Plan.Lines.{lines, Plain, plan_lines}
use cherry_waf.Network.Plan.Rendered.{rendered_lines}
use cherry_waf.Control.Bundle.{contains_text, Disk, Steps, apply_bundle}
use cherry_waf.Control.Bundle.Restored.{Whole, wanted, apply_bundle-Whole}
use cherry_waf.Config.Types.{VirtualHost}
use cherry_waf.Config.Validate.{normalize, normalize_host, enabled_virtual_hosts}
use cherry_waf.Edge.Route.{route, hostname, trim_dot}
use cherry_waf.App.Build.Table.{tables}
use cherry_waf.App.Build.Reached.{domain_reaches_host}
use cherry_waf.Examples.Settings.{shop, shop_host, library, shop_accepted}

abbrev token : Text
token = codes "0123456789abcdef0123456789abcdef"

-- Everything succeeds but for applying the new file.
abbrev refuses : System
refuses = record {
  dry_run = false;
  listed = true;
  prepared = true;
  read = true;
  backed_up = true;
  written = true;
  noted = true;
  generated = true;
  scheduled = true;
  applied = false;
  restored = true;
  generated_again = true;
  applied_again = true;
  note_removed = true;
  backup_removed = true;
}

abbrev works : System
works = record refuses { applied = true }

abbrev files : Files
files = record { plan = some (codes "old"); pending = []; backups = []; timers = [] }

apply_undone_example :
    ((apply works token (some (codes "new")) files).1 ≡ false
      → (apply works token (some (codes "new")) files).0.plan ≡ files.plan)
    × ((apply works token (some (codes "new")) files).1 ≡ true
        → ((apply works token (some (codes "new")) files).0.plan ≡ some (codes "new"))
          × ((rollback refuses token (apply works token (some (codes "new")) files).0).0.plan
              ≡ files.plan))
unfolding valid_token
apply_undone_example = apply_undone works refuses token (codes "new") files refl refl refl

-- The change succeeds, and a change whose last command fails is undone at once.
change_applied : (apply works token (some (codes "new")) files).1 ≡ true
unfolding apply get
change_applied = refl

change_refused : (apply refuses token (some (codes "new")) files).0 ≡ files
unfolding apply get
change_refused = refl

abbrev disk : Disk
disk = record { config = codes "old"; rules = some (codes "rules"); revisions = [] }

-- The service refuses to load what was validated.
abbrev not_loaded : Steps
not_loaded = record {
  config_read = true;
  rules_read = true;
  revision_saved = true;
  rules_removed = true;
  rules_valid = true;
  rules_written = true;
  config_written = true;
  validated = true;
  has_runtime = true;
  reload = some (codes "bad certificate");
  config_restored = true;
  rules_restored = true;
}

apply_bundle-Whole_example :
    Whole disk
      (codes "new")
      (wanted disk.rules (some []))
      (apply_bundle (λ c. c) not_loaded (codes "new") (some []) disk)
apply_bundle-Whole_example =
    apply_bundle-Whole (λ c. c) not_loaded (codes "new") (some []) disk refl refl

-- A route is the host that it belongs to.
abbrev host_route : VirtualHost → VirtualHost
host_route v = v

-- The library's parse of a host that has no port.
abbrev parse_hostname : Text → Option Text
parse_hostname host = some host

domain_reaches_host_example :
    route
      (tables host_route (normalize library shop)).exact
      (tables host_route (normalize library shop)).wildcard
      (hostname parse_hostname (λ c. c) (codes "Shop.Example.org."))
    ≡ some (normalize_host library shop_host)
unfolding normalize normalize_host enabled_virtual_hosts trim_space to_lower strip_prefix hostname
    trim_dot strip_suffix
domain_reaches_host_example =
    domain_reaches_host library host_route shop shop_accepted parse_hostname (λ c. c)
      (codes "Shop.Example.org.") (normalize_host library shop_host) (inl refl) (inl refl) refl

abbrev parser : Parser
parser = record {
  cidr = λ x. x == codes "10.0.0.2/24";
  ip = λ x. x == codes "10.0.0.1";
  ip4 = λ x. true;
}

abbrev static_plan : NetworkPlan
static_plan = record {
  version = 1;
  interface = codes "eth0";
  dhcp4 = false;
  addresses = codes "10.0.0.2/24" ∷ [];
  gateway4 = codes "10.0.0.1";
  nameservers = codes "10.0.0.1" ∷ [];
  mtu = 1500;
}

same-Plain : (known x : Text) → Plain known → (x == known) ≡ true → Plain x
same-Plain known x h e = subst Plain (sym ((text_eq.same_iff x known).0 e)) h

rendered_lines_example : lines (write_plan static_plan) ≡ plan_lines static_plan
unfolding render_netplan validate_network_plan valid_interface_name contains_text strip_prefix
rendered_lines_example =
    rendered_lines parser static_plan (λ x e. same-Plain (codes "10.0.0.2/24") x refl e)
      (λ x e. same-Plain (codes "10.0.0.1") x refl e) (write_plan static_plan) refl

mtu_line : In (codes "      mtu: 1500") (plan_lines static_plan)
unfolding itoa digits
mtu_line = inr (inr (inr (inr (inr (inr (inr (inl refl)))))))
