-- ===== src/Proxies/Default.antt =====
-- At most one proxy is the default.
use chatgpt_prism2api.Base.{
  ◌≡◌, ℕ, refl, subst, Bool, true, false, Option, none, some, List, [], ◌∷◌, arith, Bool-cases, inl,
  inr,
}
use chatgpt_prism2api.Base.Text.{Text, text_eq, text_eq_iff}
use chatgpt_prism2api.Base.Dict.{lookup, insert, erase, lookup-insert, lookup-erase, text_key}
use chatgpt_prism2api.Proxies.{
  Proxy, ProxyPool, ProxyRequest, PatchRequest, Refusal, clear_default, cleared_if, put_proxy,
  save_proxies, create, create_unless, create_refusal, new_proxy, patch, patch_found, patched,
  delete_proxy, delete_found, remember_probe, probe_found, or_value, blank_name, bad_kind,
}

abbrev is_marked : Option Proxy → Bool
is_marked none = false
is_marked (some p) = p.is_default

-- Each proxy stands under its identifier, and no two are marked as the default.
abbrev StandsAt : Text → Option Proxy → Type 0
StandsAt id none = Unit
StandsAt id (some p) = p.id ≡ id

pub record IsSingle (m : List (Text × Proxy)) : Type 0 where
  pub placed : (id : Text) → StandsAt id (lookup id m)
  pub one :
      (i j : Text)
      → is_marked (lookup i m) ≡ true
      → is_marked (lookup j m) ≡ true
      → text_eq i j ≡ true

abbrev unmarked : Option Proxy → Option Proxy
unmarked none = none
unmarked (some p) = some (record p { is_default = false })

lookup-clear_default :
    (id : Text) (m : List (Text × Proxy)) → lookup id (clear_default m) ≡ unmarked (lookup id m)
unfolding lookup clear_default
lookup-clear_default id [] = refl
lookup-clear_default id ((j, p) ∷ m) = elim (Bool-cases (text_eq j id)) [
  | inl q ↦ rw q refl
  | inr q ↦ rw q (lookup-clear_default id m)
]

unmarked_stands : (id : Text) (o : Option Proxy) → StandsAt id o → StandsAt id (unmarked o)
unmarked_stands id none h = tt
unmarked_stands id (some p) h = h

is_marked-unmarked : (o : Option Proxy) → is_marked (unmarked o) ≡ false
is_marked-unmarked none = refl
is_marked-unmarked (some p) = refl

-- Writing a proxy: it is not marked, or no other one is.
insert-IsSingle :
    (m : List (Text × Proxy)) (p : Proxy)
    → IsSingle m
    → ((j : Text) → p.is_default ≡ true → is_marked (lookup j m) ≡ true → text_eq p.id j ≡ true)
    → IsSingle (insert p.id p m)
insert-IsSingle m p h f = record {
  placed = λ id. elim (Bool-cases (text_eq p.id id)) [
    | inl q ↦ rw (lookup-insert p.id id p m, q) ((text_eq_iff p.id id).0 q)
    | inr q ↦ rw (lookup-insert p.id id p m, q) (h.placed id)
  ];
  one = λ i j a b. ground (
    arith,
    lookup-insert p.id i p m,
    lookup-insert p.id j p m,
    text_eq_iff p.id i,
    text_eq_iff p.id j,
    text_eq_iff i j,
    f i,
    f j,
    h.one i j,
  );
}

clear-IsSingle : (m : List (Text × Proxy)) → IsSingle m → IsSingle (clear_default m)
clear-IsSingle m h = record {
  placed = λ id. rw (lookup-clear_default id m) (unmarked_stands id (lookup id m) (h.placed id));
  one = λ i j a b. ground (arith, lookup-clear_default i m, is_marked-unmarked (lookup i m));
}

none_marked : (m : List (Text × Proxy)) (j : Text) → is_marked (lookup j (clear_default m)) ≡ false
none_marked m j = rw (lookup-clear_default j m) (is_marked-unmarked (lookup j m))

erase-IsSingle : (id : Text) (m : List (Text × Proxy)) → IsSingle m → IsSingle (erase id m)
erase-IsSingle id m h = record {
  placed = λ j. elim (Bool-cases (text_eq id j)) [
    | inl q ↦ rw (lookup-erase id j m, q) tt
    | inr q ↦ rw (lookup-erase id j m, q) (h.placed j)
  ];
  one = λ i j a b. ground (arith, lookup-erase id i m, lookup-erase id j m, h.one i j);
}

save_keeps :
    (s : ProxyPool) (saves : Bool) → IsSingle s.items → IsSingle (save_proxies s saves).items
unfolding save_proxies
save_keeps s true h = h
save_keeps s false h = h

put_proxy-IsSingle :
    (s : ProxyPool) (p : Proxy) (saves : Bool)
    → IsSingle s.items
    → ((j : Text)
        → p.is_default ≡ true
        → is_marked (lookup j s.items) ≡ true
        → text_eq p.id j ≡ true)
    → IsSingle (put_proxy s p saves).0.items
unfolding put_proxy
put_proxy-IsSingle s p saves h f =
    save_keeps (record s { items = insert p.id p s.items }) saves (insert-IsSingle s.items p h f)

-- A proxy that is written behind the clearing that its mark asks for.
cleared_put :
    (s : ProxyPool) (p : Proxy) (saves b : Bool)
    → IsSingle s.items
    → ((j : Text)
        → b ≡ false
        → p.is_default ≡ true
        → is_marked (lookup j s.items) ≡ true
        → text_eq p.id j ≡ true)
    → IsSingle (put_proxy (cleared_if b s) p saves).0.items
cleared_put s p saves true h f =
    put_proxy-IsSingle (record s { items = clear_default s.items }) p saves
      (clear-IsSingle s.items h) (λ j a m. ground (arith, none_marked s.items j))
cleared_put s p saves false h f = put_proxy-IsSingle s p saves h (λ j a m. f j refl a m)

module _ (to_lower : Text → Text) where
  create-IsSingle :
      (s : ProxyPool) (req : ProxyRequest) (id : Text) (now : ℕ) (saves : Bool)
      → IsSingle s.items
      → IsSingle (create to_lower s req id now saves).0.items
  unfolding create
  create-IsSingle s req id now saves h = unless (create_refusal to_lower req)
    where
      unless :
          (r : Option Refusal)
          → IsSingle (create_unless to_lower r s (new_proxy to_lower req id now) saves).0.items
      unless (some r) = h
      unless none =
          cleared_put s (new_proxy to_lower req id now) saves
            (new_proxy to_lower req id now).is_default h (λ j b a m. ground arith)

  patch-IsSingle :
      (s : ProxyPool) (id : Text) (req : PatchRequest) (now : ℕ) (saves : Bool)
      → IsSingle s.items
      → IsSingle (patch to_lower s id req now saves).0.items
  unfolding patch
  patch-IsSingle s id req now saves h = found (lookup id s.items) refl
    where
      keeps_mark :
          (p : Proxy) (d : Option Bool)
          → lookup id s.items ≡ some p
          → (j : Text) → or_value d false ≡ false
          → or_value d p.is_default ≡ true
          → is_marked (lookup j s.items) ≡ true
          → text_eq p.id j ≡ true
      keeps_mark p none e j b a m =
          let same : p.id ≡ id = subst (StandsAt id) e (h.placed id) in
          rw same (h.one id j (rw e a) m)
      keeps_mark p (some d) e j b a m = ground arith

      found :
          (o : Option Proxy)
          → lookup id s.items ≡ o
          → IsSingle (patch_found to_lower s o req now saves).0.items
      found none e = h
      found (some p) e = elim (Bool-cases (blank_name to_lower req.name)) [
        | inl q ↦ rw q h
        | inr q ↦ elim (Bool-cases (bad_kind to_lower req.kind)) [
          | inl r ↦ rw (q, r) h
          | inr r ↦
              rw (q, r)
                (cleared_put s (patched to_lower p req now) saves (or_value req.is_default false) h
                  (λ j b a m. keeps_mark p req.is_default e j b a m))
        ]
      ]

probe-IsSingle :
    (s : ProxyPool) (id ip err : Text) (unix now : ℕ) (saves : Bool)
    → IsSingle s.items
    → IsSingle (remember_probe s id ip err unix now saves).0.items
unfolding remember_probe
probe-IsSingle s id ip err unix now saves h = found (lookup id s.items) refl
  where
    found :
        (o : Option Proxy)
        → lookup id s.items ≡ o
        → IsSingle (probe_found s o ip err unix now saves).0.items
    found none e = h
    found (some p) e =
        let same : p.id ≡ id = subst (StandsAt id) e (h.placed id) in
        put_proxy-IsSingle s
          (record p {
            last_probe_ip = ip;
            last_error = err;
            last_probe_at = unix;
            updated_at = now;
          })
          saves h (λ j a m. rw same (h.one id j (rw e a) m))

delete_proxy-IsSingle :
    (s : ProxyPool) (id : Text) (saves : Bool)
    → IsSingle s.items
    → IsSingle (delete_proxy s id saves).0.items
unfolding delete_proxy
delete_proxy-IsSingle s id saves h = found (lookup id s.items)
  where
    found : (o : Option Proxy) → IsSingle (delete_found s o id saves).0.items
    found none = h
    found (some p) =
        save_keeps (record s { items = erase id s.items }) saves (erase-IsSingle id s.items h)

-- The calls that change the pool.
pub data ProxyCall : Type 0 where
  creates : ProxyRequest → Text → ℕ → Bool → ProxyCall
  patches : Text → PatchRequest → ℕ → Bool → ProxyCall
  deletes : Text → Bool → ProxyCall
  probes : Text → Text → Text → ℕ → ℕ → Bool → ProxyCall

unfoldable pub run_calls : (Text → Text) → ProxyPool → List ProxyCall → ProxyPool
run_calls to_lower s [] = s
run_calls to_lower s (creates req id now saves ∷ cs) =
    run_calls to_lower (create to_lower s req id now saves).0 cs
run_calls to_lower s (patches id req now saves ∷ cs) =
    run_calls to_lower (patch to_lower s id req now saves).0 cs
run_calls to_lower s (deletes id saves ∷ cs) = run_calls to_lower (delete_proxy s id saves).0 cs
run_calls to_lower s (probes id ip err unix now saves ∷ cs) =
    run_calls to_lower (remember_probe s id ip err unix now saves).0 cs

-- From a pool where at most one proxy is marked as the default, and each stands under its identifier, any
-- sequence of creations, patches, deletions and probes, saved or not, leads to such a pool.
pub run_calls-IsSingle :
    (to_lower : Text → Text) (s : ProxyPool) (cs : List ProxyCall)
    → IsSingle s.items
    → IsSingle (run_calls to_lower s cs).items
unfolding run_calls
run_calls-IsSingle to_lower s [] h = h
run_calls-IsSingle to_lower s (creates req id now saves ∷ cs) h =
    run_calls-IsSingle to_lower (create to_lower s req id now saves).0 cs
      (create-IsSingle to_lower s req id now saves h)
run_calls-IsSingle to_lower s (patches id req now saves ∷ cs) h =
    run_calls-IsSingle to_lower (patch to_lower s id req now saves).0 cs
      (patch-IsSingle to_lower s id req now saves h)
run_calls-IsSingle to_lower s (deletes id saves ∷ cs) h =
    run_calls-IsSingle to_lower (delete_proxy s id saves).0 cs (delete_proxy-IsSingle s id saves h)
run_calls-IsSingle to_lower s (probes id ip err unix now saves ∷ cs) h =
    run_calls-IsSingle to_lower (remember_probe s id ip err unix now saves).0 cs
      (probe-IsSingle s id ip err unix now saves h)
