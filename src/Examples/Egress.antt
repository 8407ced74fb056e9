-- ===== src/Examples/Egress.antt =====
-- Runs of the pool of proxies.
use chatgpt_prism2api.Base.{◌≡◌, refl, true, false, none, some, List, [], ◌∷◌, arith}
use chatgpt_prism2api.Base.Text.{codes, text_eq, trim_space}
use chatgpt_prism2api.Base.Dict.{lookup, text_key}
use chatgpt_prism2api.Proxies.{
  ProxyPool, ProxyRequest, ProxyAnswer, Refusal, create, create_refusal, new_proxy, normalize_kind,
}
use chatgpt_prism2api.Proxies.Default.{IsSingle, ProxyCall, run_calls, run_calls-IsSingle}
use chatgpt_prism2api.Proxies.Rejects.{create_unsaved}

abbrev no_proxies : ProxyPool
no_proxies = record { items = []; saved = [] }

abbrev direct : ProxyRequest
direct = record {
  name = codes "home";
  kind = codes "direct";
  enabled = none;
  is_default = true;
  notes = [];
  http_proxy = [];
  resin_url = [];
  resin_plat = [];
}

abbrev two_creations : List ProxyCall
two_creations =
    ProxyCall.creates direct (codes "p1") 1 true
    ∷ ProxyCall.creates direct (codes "p2") 2 false
    ∷ []

no_proxies-IsSingle : IsSingle []
unfolding lookup
no_proxies-IsSingle = record { placed = λ id. tt; one = λ i j a b. ground arith }

run_calls-IsSingle_example : IsSingle (run_calls (λ t. t) no_proxies two_creations).items
run_calls-IsSingle_example =
    run_calls-IsSingle (λ t. t) no_proxies two_creations no_proxies-IsSingle

create_unsaved_example :
    let (z, answer) = create (λ t. t) no_proxies direct (codes "p1") 1 false in
    (answer ≡ ProxyAnswer.refused Refusal.not_saved)
    × (lookup (codes "p1") z.items ≡ some (new_proxy (λ t. t) direct (codes "p1") 1))
    × (z.saved ≡ no_proxies.saved)
unfolding create_refusal normalize_kind text_eq trim_space
create_unsaved_example = create_unsaved (λ t. t) no_proxies direct (codes "p1") 1 refl
