-- ===== src/Scheduler/Cache.antt =====
-- internal/scheduler/cache.go: which account a session is bound to, with a time to live and aliases.
-- The mutex makes each method one step; the clock is an argument.
pub mod Laws
pub mod Binding
pub mod Invalidate
use chatgpt_prism2api.Base.{
  ℕ, ◌+◌, ◌≡◌, refl, Bool, true, false, not, ◌&&◌, ◌||◌, Option, none, some, List, [], ◌∷◌, ◌++◌,
  ltb, leb, ◌==◌, if◌then◌else◌,
}
use chatgpt_prism2api.Base.Int.{ℤ, pos, negsuc}
use chatgpt_prism2api.Base.Text.{Text, codes, text_eq, is_empty}
use chatgpt_prism2api.Base.Dict.{lookup, insert, erase, text_key}
use chatgpt_prism2api.GroupNames.{has_name}
use chatgpt_prism2api.Scheduler.Config.{hour}

-- `sessionEntry`.
pub record Entry : Type 0 where
  pub auth_id : Text
  pub expires_at : ℕ
  pub aliases : List Text

abbrev pub Entries : Type 0
Entries = List (Text × Entry)

-- `sessionCache`; the time to live is positive.
pub record Cache : Type 0 where
  pub entries : Entries
  pub ttl : ℕ

-- `newSessionCache`.
unfoldable pub new_cache : ℤ → Cache
new_cache (pos n) = record { entries = []; ttl = if n == 0 then hour else n }
new_cache (negsuc n) = record { entries = []; ttl = hour }

-- `setTTL`: a time to live of zero or less changes nothing.
unfoldable pub set_ttl : Cache → ℤ → Cache
set_ttl c (pos n) = record c { ttl = if n == 0 then c.ttl else n }
set_ttl c (negsuc n) = c

-- The loop of `mergeAliases`; `seen` holds the names written so far.
unfoldable pub merge_from : List Text → List Text → List Text
merge_from seen [] = []
merge_from seen (id ∷ ids) =
    let skipped = merge_from seen ids in
    let kept = id ∷ merge_from (id ∷ seen) ids in
    if is_empty id || has_name id seen then skipped else kept

-- `mergeAliases`.
unfoldable pub merge_aliases : List Text → List Text → List Text
unfolding merge_from has_name
merge_aliases existing candidates = merge_from [] (existing ++ candidates)

abbrev pub no_names : List Text → Bool
no_names [] = true
no_names (id ∷ ids) = false

abbrev pub has_time : ℕ → List ℕ → Bool
has_time t [] = false
has_time t (u ∷ us) = u == t || has_time t us

-- The test of `removeGroupLocked` on one alias.
abbrev pub belongs : Text → Option Entry → Bool
belongs auth none = false
belongs auth (some cur) = text_eq cur.auth_id auth

-- The loop of `removeGroupLocked`.
unfoldable pub remove_aliases : Text → List Text → Entries → Entries
remove_aliases auth [] m = m
remove_aliases auth (alias ∷ aliases) m =
    remove_aliases auth aliases (if belongs auth (lookup alias m) then erase alias m else m)

-- `removeGroupLocked`.
unfoldable pub remove_group : Entries → Entry → Entries
remove_group m entry = remove_aliases entry.auth_id entry.aliases m

unfoldable pub remove_groups : Entries → List Entry → Entries
remove_groups m [] = m
remove_groups m (p ∷ ps) = remove_groups (remove_group m p) ps

-- The last loop of `replaceLocked`: the entry under each of the aliases.
unfoldable pub write_all : Entry → List Text → Entries → Entries
write_all entry [] m = m
write_all entry (alias ∷ aliases) m = write_all entry aliases (insert alias entry m)

-- `replaceLocked`.
unfoldable pub replace : Entries → Entry → List Entry → Entries
replace m entry previous = write_all entry entry.aliases (remove_groups m previous)

-- `Get` behind its lookup: the cache, and the account if one is bound.
unfoldable pub get_entry : Cache → ℕ → Option Entry → Cache × Option Text
get_entry c now none = (c, none)
get_entry c now (some entry) =
    if ltb now entry.expires_at
    then (c, some entry.auth_id)
    else (record c { entries = remove_group c.entries entry }, none)

-- `Get`.
unfoldable pub get : Cache → Text → ℕ → Cache × Option Text
unfolding get_entry
get c session_id now =
    if is_empty session_id then (c, none) else get_entry c now (lookup session_id c.entries)

-- `GetAndRefresh` behind its lookup: a binding that has not expired lives on for the time to live.
unfoldable pub refresh_entry : Cache → Text → ℕ → Option Entry → Cache × Option Text
refresh_entry c session_id now none = (c, none)
refresh_entry c session_id now (some entry) =
    let renewed = record entry {
      expires_at = now + c.ttl;
      aliases = merge_aliases (session_id ∷ []) entry.aliases;
    } in
    if ltb now entry.expires_at
    then (record c { entries = replace c.entries renewed (entry ∷ []) }, some entry.auth_id)
    else (record c { entries = remove_group c.entries entry }, none)

-- `GetAndRefresh`.
unfoldable pub get_and_refresh : Cache → Text → ℕ → Cache × Option Text
unfolding refresh_entry
get_and_refresh c session_id now =
    if is_empty session_id
    then (c, none)
    else refresh_entry c session_id now (lookup session_id c.entries)

-- The variables of the loop of `SetAliases`.
pub record Gather : Type 0 where
  pub entries : Entries
  pub previous : List Entry
  pub aliases : List Text

unfoldable pub gather_entry : ℕ → Gather → Option Entry → Gather
gather_entry now g none = g
gather_entry now g (some entry) =
    if ltb now entry.expires_at
    then record g {
      previous = g.previous ++ entry ∷ [];
      aliases = merge_aliases g.aliases entry.aliases;
    }
    else record g { entries = remove_group g.entries entry }

unfoldable pub gather : ℕ → Gather → List Text → Gather
unfolding gather_entry
gather now g [] = g
gather now g (id ∷ ids) = gather now (gather_entry now g (lookup id g.entries)) ids

-- `SetAliases`: bind the sessions, with all that their bindings were known by, to one account.
unfoldable pub set_aliases : Cache → Text → List Text → ℕ → Cache
unfolding gather
set_aliases c auth_id session_ids now =
    let g =
      gather now
        (record { entries = c.entries; previous = []; aliases = merge_aliases [] session_ids })
        session_ids in
    let entry : Entry = record {
      auth_id = auth_id;
      expires_at = now + c.ttl;
      aliases = g.aliases;
    } in
    if is_empty auth_id
    then c
    else if no_names g.aliases
    then record c { entries = g.entries }
    else record c { entries = replace g.entries entry g.previous }

-- The loop of `InvalidateAuth`. Entries of the account with equal expiry count as one group: `seen`
-- holds the expiries of the groups so far.
unfoldable pub groups_of : Text → List ℕ → Entries → List Entry
groups_of auth seen [] = []
groups_of auth seen ((k, entry) ∷ m) =
    let skipped = groups_of auth seen m in
    let kept = entry ∷ groups_of auth (entry.expires_at ∷ seen) m in
    if not (text_eq entry.auth_id auth) || has_time entry.expires_at seen then skipped else kept

-- `InvalidateAuth`.
unfoldable pub invalidate_auth : Cache → Text → Cache
invalidate_auth c auth_id =
    if is_empty auth_id
    then c
    else record c { entries = remove_groups c.entries (groups_of auth_id [] c.entries) }
