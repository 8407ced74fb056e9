-- ===== src/Proxies.antt =====
-- internal/proxypool and internal/api/egress_resolve.go: the pool of proxies, and the egress of an account.
-- `strings.ToLower` is a parameter. The backend is the list that was saved last with, for each call, whether it
-- succeeds; `encoding/json` gives back what it was given. A Go map is an association list, so that an order
-- that Go leaves open is here the one of the list.
pub mod Default
pub mod Rejects
use chatgpt_prism2api.Base.{
  ℕ, Bool, true, false, not, ◌&&◌, ◌||◌, Option, none, some, List, [], ◌∷◌, ◌==◌, if◌then◌else◌,
  map,
}
use mathlib.Core.List.{reverse}
use chatgpt_prism2api.Base.Int.{ℤ, pos}
use chatgpt_prism2api.Base.Text.{Text, codes, text_eq, text_lt, is_empty, trim_space}
use chatgpt_prism2api.Base.Dict.{lookup, insert, erase, text_key}

pub record Proxy : Type 0 where
  pub id : Text
  pub name : Text
  pub kind : Text
  pub enabled : Bool
  pub is_default : Bool
  pub notes : Text
  pub http_proxy : Text
  pub resin_url : Text
  pub resin_plat : Text
  pub last_probe_ip : Text
  pub last_probe_at : ℕ
  pub last_error : Text
  pub created_at : ℕ
  pub updated_at : ℕ

pub record ProxyRequest : Type 0 where
  pub name : Text
  pub kind : Text
  pub enabled : Option Bool
  pub is_default : Bool
  pub notes : Text
  pub http_proxy : Text
  pub resin_url : Text
  pub resin_plat : Text

pub record PatchRequest : Type 0 where
  pub name : Option Text
  pub kind : Option Text
  pub enabled : Option Bool
  pub is_default : Option Bool
  pub notes : Option Text
  pub http_proxy : Option Text
  pub resin_url : Option Text
  pub resin_plat : Option Text

-- `Store` with its document.
pub record ProxyPool : Type 0 where
  pub items : List (Text × Proxy)
  pub saved : List Proxy

pub data Refusal : Type 0 where
  name_required kind_unknown resin_url_required http_proxy_required : Refusal
  proxy_not_found not_saved : Refusal

pub data ProxyAnswer : Type 0 where
  ok : Proxy → ProxyAnswer
  refused : Refusal → ProxyAnswer

-- `egress.Settings`.
pub record EgressSettings : Type 0 where
  pub kind : Text
  pub http_proxy_url : Text
  pub resin_url : Text
  pub resin_platform : Text
  pub account : Text

abbrev pub kind_resin : Text
kind_resin = codes "resin"

abbrev pub kind_http : Text
kind_http = codes "http"

abbrev pub kind_direct : Text
kind_direct = codes "direct"

abbrev default_platform : Text
default_platform = codes "Default"

-- `strings.TrimRight(s, "/")`.
unfoldable drop_slashes : Text → Text
drop_slashes [] = []
drop_slashes (c ∷ s) = let rest = drop_slashes s in if c == 47 then rest else c ∷ s

unfoldable trim_slashes : Text → Text
unfolding drop_slashes
trim_slashes s = reverse (drop_slashes (reverse s))

abbrev or_default_platform : Text → Text
or_default_platform s = if is_empty s then default_platform else s

-- `normalizeKind`, on the text in lower case.
unfoldable known_kind : Text → Text
known_kind k =
    if text_eq k kind_resin || text_eq k (codes "reverse") || text_eq k (codes "reverse-proxy")
    then kind_resin
    else if text_eq k kind_http || text_eq k (codes "https") || text_eq k (codes "http-proxy")
    then kind_http
    else if text_eq k kind_direct || text_eq k (codes "none") || text_eq k (codes "off")
    then kind_direct
    else []

unfoldable pub normalize_kind : (Text → Text) → Text → Text
unfolding known_kind
normalize_kind to_lower k = known_kind (to_lower (trim_space k))

-- `Open`, of the document: a later proxy of the same identifier counts.
unfoldable open_from : List Proxy → List (Text × Proxy) → List (Text × Proxy)
open_from [] m = m
open_from (p ∷ ps) m = open_from ps (if is_empty p.id then m else insert p.id p m)

unfoldable pub open_pool : List Proxy → ProxyPool
unfolding open_from
open_pool list = record { items = open_from list []; saved = list }

-- The order of `listLocked`: the default first, then by name.
unfoldable before : Proxy → Proxy → Bool
before p q =
    if p.is_default
    then not q.is_default || text_lt p.name q.name
    else not q.is_default && text_lt p.name q.name

unfoldable insert_listed : Proxy → List Proxy → List Proxy
unfolding before
insert_listed p [] = p ∷ []
insert_listed p (q ∷ qs) =
    let rest = insert_listed p qs in if before q p then q ∷ rest else p ∷ q ∷ qs

unfoldable pub list_locked : List (Text × Proxy) → List Proxy
unfolding insert_listed
list_locked [] = []
list_locked ((id, p) ∷ m) = insert_listed p (list_locked m)

-- `saveLocked`.
unfoldable pub save_proxies : ProxyPool → Bool → ProxyPool
unfolding list_locked
save_proxies s saves = if saves then record s { saved = list_locked s.items } else s

-- `clearDefaultLocked`.
unfoldable pub clear_default : List (Text × Proxy) → List (Text × Proxy)
clear_default [] = []
clear_default ((id, p) ∷ m) = (id, record p { is_default = false }) ∷ clear_default m

abbrev answer_saved : Proxy → Bool → ProxyAnswer
answer_saved p saves = if saves then ok p else refused not_saved

-- `s.items[id] = p` and `saveLocked`, with what is answered.
unfoldable pub put_proxy : ProxyPool → Proxy → Bool → ProxyPool × ProxyAnswer
unfolding save_proxies
put_proxy s p saves =
    (save_proxies (record s { items = insert p.id p s.items }) saves, answer_saved p saves)

abbrev cleared_if : Bool → ProxyPool → ProxyPool
cleared_if b s = if b then record s { items = clear_default s.items } else s

abbrev or_value : {A : Type 0} → Option A → A → A
or_value none x = x
or_value (some y) x = y

module _ (to_lower : Text → Text) where
  -- What `Create` refuses.
  unfoldable pub create_refusal : ProxyRequest → Option Refusal
  unfolding normalize_kind
  create_refusal req =
      let kind = normalize_kind to_lower req.kind in
      if is_empty (trim_space req.name)
      then some name_required
      else if is_empty kind
      then some kind_unknown
      else if text_eq kind kind_resin && is_empty (trim_space req.resin_url)
      then some resin_url_required
      else if text_eq kind kind_http && is_empty (trim_space req.http_proxy)
      then some http_proxy_required
      else none

  -- The proxy that `Create` makes.
  unfoldable pub new_proxy : ProxyRequest → Text → ℕ → Proxy
  unfolding normalize_kind trim_slashes
  new_proxy req id now = record {
    id = id;
    name = trim_space req.name;
    kind = normalize_kind to_lower req.kind;
    enabled = or_value req.enabled true;
    is_default = req.is_default;
    notes = trim_space req.notes;
    http_proxy = trim_space req.http_proxy;
    resin_url = trim_slashes (trim_space req.resin_url);
    resin_plat = or_default_platform (trim_space req.resin_plat);
    last_probe_ip = [];
    last_probe_at = 0;
    last_error = [];
    created_at = now;
    updated_at = now;
  }

  abbrev create_unless : Option Refusal → ProxyPool → Proxy → Bool → ProxyPool × ProxyAnswer
  create_unless (some r) s p saves = (s, refused r)
  create_unless none s p saves = put_proxy (cleared_if p.is_default s) p saves

  -- `Create`; `newID` draws the identifier.
  unfoldable pub create : ProxyPool → ProxyRequest → Text → ℕ → Bool → ProxyPool × ProxyAnswer
  unfolding create_refusal new_proxy put_proxy
  create s req id now saves = create_unless (create_refusal req) s (new_proxy req id now) saves

  -- What `Patch` refuses: a blank name, then an unknown kind.
  abbrev blank_name : Option Text → Bool
  blank_name none = false
  blank_name (some n) = is_empty (trim_space n)

  abbrev bad_kind : Option Text → Bool
  bad_kind none = false
  bad_kind (some k) = is_empty (normalize_kind to_lower k)

  abbrev patched_text : (Text → Text) → Option Text → Text → Text
  patched_text f none old = old
  patched_text f (some new) old = f new

  -- The proxy that `Patch` writes.
  unfoldable pub patched : Proxy → PatchRequest → ℕ → Proxy
  unfolding normalize_kind trim_slashes
  patched p req now = record p {
    name = patched_text trim_space req.name p.name;
    kind = patched_text (normalize_kind to_lower) req.kind p.kind;
    enabled = or_value req.enabled p.enabled;
    is_default = or_value req.is_default p.is_default;
    notes = patched_text trim_space req.notes p.notes;
    http_proxy = patched_text trim_space req.http_proxy p.http_proxy;
    resin_url = patched_text (λ u. trim_slashes (trim_space u)) req.resin_url p.resin_url;
    resin_plat = patched_text (λ u. or_default_platform (trim_space u)) req.resin_plat p.resin_plat;
    updated_at = now;
  }

  abbrev patch_found : ProxyPool → Option Proxy → PatchRequest → ℕ → Bool → ProxyPool × ProxyAnswer
  patch_found s none req now saves = (s, refused proxy_not_found)
  patch_found s (some p) req now saves =
      if blank_name req.name
      then (s, refused name_required)
      else if bad_kind req.kind
      then (s, refused kind_unknown)
      else put_proxy (cleared_if (or_value req.is_default false) s) (patched p req now) saves

  -- `Patch`. An item stands under its own identifier.
  unfoldable pub patch : ProxyPool → Text → PatchRequest → ℕ → Bool → ProxyPool × ProxyAnswer
  unfolding patched put_proxy
  patch s id req now saves = patch_found s (lookup id s.items) req now saves

abbrev delete_found : ProxyPool → Option Proxy → Text → Bool → ProxyPool × Option Refusal
delete_found s none id saves = (s, some proxy_not_found)
delete_found s (some p) id saves = (
  save_proxies (record s { items = erase id s.items }) saves,
  if saves then none else some not_saved,
)

-- `Delete`.
unfoldable pub delete_proxy : ProxyPool → Text → Bool → ProxyPool × Option Refusal
unfolding save_proxies
delete_proxy s id saves = delete_found s (lookup id s.items) id saves

abbrev probe_found : ProxyPool → Option Proxy → Text → Text → ℕ → ℕ → Bool → ProxyPool × ProxyAnswer
probe_found s none ip err unix now saves = (s, refused proxy_not_found)
probe_found s (some p) ip err unix now saves =
    put_proxy s
      (record p { last_probe_ip = ip; last_error = err; last_probe_at = unix; updated_at = now })
      saves

-- `RememberProbe`.
unfoldable pub remember_probe :
    ProxyPool → Text → Text → Text → ℕ → ℕ → Bool → ProxyPool × ProxyAnswer
unfolding put_proxy
remember_probe s id ip err unix now saves = probe_found s (lookup id s.items) ip err unix now saves

-- `Default`.
unfoldable pub default_of : List (Text × Proxy) → Option Proxy
default_of [] = none
default_of ((id, p) ∷ m) =
    let rest = default_of m in if p.is_default && p.enabled then some p else rest

-- `SettingsFor`.
unfoldable pub settings_for : Proxy → Text → EgressSettings
settings_for p account =
    if text_eq p.kind kind_http
    then record {
      kind = p.kind;
      http_proxy_url = p.http_proxy;
      resin_url = [];
      resin_platform = [];
      account = account;
    }
    else if text_eq p.kind kind_resin
    then record {
      kind = p.kind;
      http_proxy_url = [];
      resin_url = p.resin_url;
      resin_platform = or_default_platform p.resin_plat;
      account = account;
    }
    else record {
      kind = p.kind;
      http_proxy_url = [];
      resin_url = [];
      resin_platform = [];
      account = account;
    }
