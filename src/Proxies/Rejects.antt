-- ===== src/Proxies/Rejects.antt =====
-- What the pool of proxies refuses, and what its refusals leave behind.
use chatgpt_prism2api.Base.{ℕ, ◌≡◌, refl, Bool, true, false, none, some, [], arith, if◌then◌else◌}
use chatgpt_prism2api.Base.Text.{Text, text_eq, text_eq_refl, is_empty, trim_space}
use chatgpt_prism2api.Base.Dict.{lookup, insert, lookup-insert, text_key}
use chatgpt_prism2api.Proxies.{
  Proxy, ProxyPool, ProxyRequest, PatchRequest, ProxyAnswer, Refusal, cleared_if, put_proxy,
  save_proxies, create, create_refusal, new_proxy, patch, patched, normalize_kind, kind_http,
  settings_for,
}

-- A creation whose save fails answers an error, and the proxy is in the pool for all that.
pub create_unsaved :
    (to_lower : Text → Text) (s : ProxyPool) (req : ProxyRequest) (id : Text) (now : ℕ)
    → create_refusal to_lower req ≡ none
    → let (z, answer) = create to_lower s req id now false in
      (answer ≡ ProxyAnswer.refused Refusal.not_saved)
      × (lookup id z.items ≡ some (new_proxy to_lower req id now))
      × (z.saved ≡ s.saved)
unfolding create put_proxy save_proxies new_proxy
create_unsaved to_lower s req id now h =
    let p = new_proxy to_lower req id now in
    rw h (refl, written (cleared_if p.is_default s), kept p.is_default)
  where
    written :
        (z : ProxyPool)
        → lookup id (insert id (new_proxy to_lower req id now) z.items)
          ≡ some (new_proxy to_lower req id now)
    written z =
        rw (lookup-insert id id (new_proxy to_lower req id now) z.items, text_eq_refl id) refl

    kept : (b : Bool) → (cleared_if b s).saved ≡ s.saved
    kept true = refl
    kept false = refl

-- A patch turns an item without an HTTP proxy into one of the kind http, which a creation refuses; the egress
-- of the item then is an HTTP proxy without an address.
pub patch_unchecked :
    (to_lower : Text → Text) (s : ProxyPool) (id k : Text) (p : Proxy) (req : PatchRequest)
    (now : ℕ)
    → lookup id s.items ≡ some p
    → p.http_proxy ≡ []
    → req.name ≡ none
    → req.http_proxy ≡ none
    → req.kind ≡ some k
    → normalize_kind to_lower k ≡ kind_http
    → (account : Text)
    → let q = patched to_lower p req now in
      ((patch to_lower s id req now true).1 ≡ ProxyAnswer.ok q)
      × ((settings_for q account).kind ≡ kind_http)
      × ((settings_for q account).http_proxy_url ≡ [])
unfolding patch put_proxy patched settings_for text_eq
patch_unchecked to_lower s id k p req now e hp hn hh hk same account =
    rw (e, hn, hk, same, hh, hp) (refl, refl, refl)

-- A creation of the kind http without an address is refused.
pub create_checks :
    (to_lower : Text → Text) (req : ProxyRequest)
    → normalize_kind to_lower req.kind ≡ kind_http
    → trim_space req.http_proxy ≡ []
    → create_refusal to_lower req
      ≡ some (
          if is_empty (trim_space req.name)
          then Refusal.name_required
          else Refusal.http_proxy_required)
unfolding create_refusal text_eq
create_checks to_lower req h e = rw (h, e) (ground arith)
