-- ===== src/Scheduler/Cache/Binding.antt =====
-- A binding holds for its time to live under every name that it is known by.
use chatgpt_prism2api.Base.{
  ℕ, ◌+◌, ◌<◌, ◌≡◌, refl, ◌∙◌, true, false, not, ◌&&◌, ◌||◌, Option, none, some, List, [], ◌∷◌,
  arith, ltb, if◌then◌else◌, All, if_both,
}
use chatgpt_prism2api.Base.Text.{Text, text_eq, text_eq_refl, is_empty}
use chatgpt_prism2api.Base.Dict.{lookup, text_key}
use chatgpt_prism2api.GroupNames.{has_name}
use chatgpt_prism2api.Scheduler.Cache.{
  Entry, Entries, Cache, Gather, merge_aliases, remove_groups, replace, get, get_entry,
  get_and_refresh, refresh_entry, gather, gather_entry, set_aliases, invalidate_auth, groups_of,
  no_names,
}
use chatgpt_prism2api.Scheduler.Cache.Laws.{
  has_name-merge, lookup-write_all, All-remove_group, All-remove_groups, All-write_all,
}

lookup-replace :
    (k : Text) (m : Entries) (entry : Entry) (ps : List Entry)
    → has_name k entry.aliases ≡ true
    → lookup k (replace m entry ps) ≡ some entry
unfolding replace
lookup-replace k m entry ps h =
    lookup-write_all k entry entry.aliases (remove_groups m ps) ∙ ground arith

gather-aliases :
    (now : ℕ) (g : Gather) (ids : List Text) (k : Text)
    → is_empty k ≡ false
    → has_name k g.aliases ≡ true
    → has_name k (gather now g ids).aliases ≡ true
unfolding gather
gather-aliases now g [] k e h = h
gather-aliases now g (id ∷ ids) k e h =
    gather-aliases now (gather_entry now g (lookup id g.entries)) ids k e
      (step (lookup id g.entries))
  where
    step : (o : Option Entry) → has_name k (gather_entry now g o).aliases ≡ true
    step none = h
    step (some entry) = ground (arith, has_name-merge k g.aliases entry.aliases)

has_name-some : (k : Text) (ids : List Text) → has_name k ids ≡ true → no_names ids ≡ false
unfolding has_name
has_name-some k [] h = cc
has_name-some k (id ∷ ids) h = refl

-- The entry that a session is bound to by `set_aliases`: the account, until the time to live is over.
bound_by_set :
    (c : Cache) (auth : Text) (ids : List Text) (now : ℕ) (k : Text)
    → is_empty auth ≡ false
    → has_name k ids ≡ true
    → is_empty k ≡ false
    → (e : Entry) × (lookup k (set_aliases c auth ids now).entries ≡ some e)
      × (e.auth_id ≡ auth)
      × (e.expires_at ≡ now + c.ttl)
unfolding set_aliases
bound_by_set c auth ids now k given h e =
    let start : Gather = record {
      entries = c.entries;
      previous = [];
      aliases = merge_aliases [] ids;
    } in
    let named = gather-aliases now start ids k e (ground (arith, has_name-merge k [] ids)) in
    let entry : Entry = record {
      auth_id = auth;
      expires_at = now + c.ttl;
      aliases = (gather now start ids).aliases;
    } in
    (
      entry,
      rw (given, has_name-some k (gather now start ids).aliases named)
          (lookup-replace k (gather now start ids).entries entry (gather now start ids).previous
            named),
      refl,
      refl,
    )

get_bound :
    (c : Cache) (k : Text) (later : ℕ) (entry : Entry)
    → lookup k c.entries ≡ some entry
    → is_empty k ≡ false
    → (get c k later).1 ≡ (if ltb later entry.expires_at then some entry.auth_id else none)
unfolding get
get_bound c k later entry bound e = ground arith

-- Sessions bound to an account answer it at every time before the time to live is over, and answer
-- nothing from then on.
pub get-set_aliases :
    (c : Cache) (auth : Text) (ids : List Text) (now later : ℕ) (k : Text)
    → is_empty auth ≡ false
    → has_name k ids ≡ true
    → is_empty k ≡ false
    → (get (set_aliases c auth ids now) k later).1
      ≡ (if ltb later (now + c.ttl) then some auth else none)
get-set_aliases c auth ids now later k given h e =
    let (entry, bound, owner, until) = bound_by_set c auth ids now k given h e in
    get_bound (set_aliases c auth ids now) k later entry bound e ∙ rw (owner, until)

refresh_entries :
    (c : Cache) (id : Text) (now : ℕ) (entry : Entry)
    → lookup id c.entries ≡ some entry
    → is_empty id ≡ false
    → now < entry.expires_at
    → (get_and_refresh c id now).0.entries
      ≡ replace c.entries
          (record entry {
            expires_at = now + c.ttl;
            aliases = merge_aliases (id ∷ []) entry.aliases;
          })
          (entry ∷ [])
unfolding get_and_refresh
refresh_entries c id now entry bound e live = ground arith

refresh_bound :
    (c : Cache) (id k : Text) (now later : ℕ) (entry : Entry)
    → lookup id c.entries ≡ some entry
    → is_empty id ≡ false
    → now < entry.expires_at
    → (text_eq id k || has_name k entry.aliases) && not (is_empty k) ≡ true
    → (get (get_and_refresh c id now).0 k later).1
      ≡ (if ltb later (now + c.ttl) then some entry.auth_id else none)
unfolding has_name
refresh_bound c id k now later entry bound e live named =
    let renewed : Entry = record entry {
      expires_at = now + c.ttl;
      aliases = merge_aliases (id ∷ []) entry.aliases;
    } in
    get_bound (get_and_refresh c id now).0 k later renewed
      (rw (refresh_entries c id now entry bound e live) (
        lookup-replace k c.entries renewed (entry ∷ [])
          (ground (arith, has_name-merge k (id ∷ []) entry.aliases))))
      (ground arith)

refresh_entry-get_entry :
    (c : Cache) (id : Text) (now : ℕ) (o : Option Entry)
    → (refresh_entry c id now o).1 ≡ (get_entry c now o).1
unfolding refresh_entry get_entry
refresh_entry-get_entry c id now none = refl
refresh_entry-get_entry c id now (some entry) = ground arith

refresh_answers :
    (c : Cache) (id : Text) (now : ℕ) → (get_and_refresh c id now).1 ≡ (get c id now).1
unfolding get_and_refresh get
refresh_answers c id now = ground (arith, refresh_entry-get_entry c id now (lookup id c.entries))

-- A lookup that refreshes answers what a plain lookup answers, of any session at any time. A live binding
-- that it finds is then answered under the session's name, and under every other name of that binding,
-- until a full time to live from now.
pub get_and_refresh_lem :
    (c : Cache) (id k : Text) (now later : ℕ) (entry : Entry)
    → lookup id c.entries ≡ some entry
    → is_empty id ≡ false
    → now < entry.expires_at
    → (text_eq id k || has_name k entry.aliases) && not (is_empty k) ≡ true
    → ((session : Text) (t : ℕ) → (get_and_refresh c session t).1 ≡ (get c session t).1)
      × ((get_and_refresh c id now).1 ≡ some entry.auth_id)
      × ((get (get_and_refresh c id now).0 k later).1
          ≡ (if ltb later (now + c.ttl) then some entry.auth_id else none))
unfolding get_and_refresh
get_and_refresh_lem c id k now later entry bound e live named =
    (refresh_answers c, ground arith, refresh_bound c id k now later entry bound e live named)

-- Every session is among the aliases of its binding.
abbrev pub IsWellKeyed : Entries → Type 0
IsWellKeyed m = All (λ p. has_name p.0 p.1.aliases ≡ true) m

widen :
    (xs ys : List Text)
    → ((k : Text) → has_name k xs ≡ true → has_name k ys ≡ true)
    → All (λ k. has_name k ys ≡ true) xs
unfolding has_name
widen [] ys sub = tt
widen (x ∷ xs) ys sub =
    (sub x (rw (text_eq_refl x)), widen xs ys (λ k h. sub k (ground (arith, h))))

replace-IsWellKeyed :
    (m : Entries) (entry : Entry) (ps : List Entry)
    → IsWellKeyed m
    → IsWellKeyed (replace m entry ps)
unfolding replace
replace-IsWellKeyed m entry ps v =
    All-write_all _ entry entry.aliases (remove_groups m ps) (All-remove_groups _ m ps v)
      (widen entry.aliases entry.aliases (λ k h. h))

get_entry-IsWellKeyed :
    (c : Cache) (now : ℕ) (o : Option Entry)
    → IsWellKeyed c.entries
    → IsWellKeyed (get_entry c now o).0.entries
unfolding get_entry
get_entry-IsWellKeyed c now none v = v
get_entry-IsWellKeyed c now (some entry) v =
    if_both (λ (r : Cache × Option Text). IsWellKeyed r.0.entries) (ltb now entry.expires_at) v
      (All-remove_group _ c.entries entry v)

refresh_entry-IsWellKeyed :
    (c : Cache) (id : Text) (now : ℕ) (o : Option Entry)
    → IsWellKeyed c.entries
    → IsWellKeyed (refresh_entry c id now o).0.entries
unfolding refresh_entry
refresh_entry-IsWellKeyed c id now none v = v
refresh_entry-IsWellKeyed c id now (some entry) v =
    if_both (λ (r : Cache × Option Text). IsWellKeyed r.0.entries) (ltb now entry.expires_at)
      (replace-IsWellKeyed c.entries _ (entry ∷ []) v) (All-remove_group _ c.entries entry v)

gather_entry-IsWellKeyed :
    (now : ℕ) (g : Gather) (o : Option Entry)
    → IsWellKeyed g.entries
    → IsWellKeyed (gather_entry now g o).entries
unfolding gather_entry
gather_entry-IsWellKeyed now g none v = v
gather_entry-IsWellKeyed now g (some entry) v =
    if_both (λ (r : Gather). IsWellKeyed r.entries) (ltb now entry.expires_at) v
      (All-remove_group _ g.entries entry v)

gather-IsWellKeyed :
    (now : ℕ) (g : Gather) (ids : List Text)
    → IsWellKeyed g.entries
    → IsWellKeyed (gather now g ids).entries
unfolding gather
gather-IsWellKeyed now g [] v = v
gather-IsWellKeyed now g (id ∷ ids) v =
    gather-IsWellKeyed now (gather_entry now g (lookup id g.entries)) ids
      (gather_entry-IsWellKeyed now g (lookup id g.entries) v)

-- Every method of the cache keeps each session among the aliases of its binding.
pub methods-IsWellKeyed :
    (c : Cache) (auth id : Text) (ids : List Text) (now : ℕ)
    → IsWellKeyed c.entries
    → IsWellKeyed (get c id now).0.entries
      × IsWellKeyed (get_and_refresh c id now).0.entries
      × IsWellKeyed (set_aliases c auth ids now).entries
      × IsWellKeyed (invalidate_auth c auth).entries
unfolding get get_and_refresh set_aliases invalidate_auth
methods-IsWellKeyed c auth id ids now v =
    let start : Gather = record {
      entries = c.entries;
      previous = [];
      aliases = merge_aliases [] ids;
    } in
    let gathered = gather-IsWellKeyed now start ids v in
    let P = λ (r : Cache × Option Text). IsWellKeyed r.0.entries in
    let Q = λ (d : Cache). IsWellKeyed d.entries in
    (
      if_both P (is_empty id) v (get_entry-IsWellKeyed c now (lookup id c.entries) v),
      if_both P (is_empty id) v (refresh_entry-IsWellKeyed c id now (lookup id c.entries) v),
      if_both Q (is_empty auth) v (
          if_both Q (no_names (gather now start ids).aliases) gathered (
            replace-IsWellKeyed (gather now start ids).entries _ (gather now start ids).previous
              gathered)),
      if_both Q (is_empty auth) v (All-remove_groups _ c.entries (groups_of auth [] c.entries) v),
    )
