-- ===== src/Ledger/Server/Tests.antt =====
-- A small web framework, and the theorems of the router and of `main` at it.
use thundercrab.Ledger.Store.Open.{init_store, open_store}
use thundercrab.Prelude.{
  ℕ, ◌<◌, ◌≡◌, refl, true, ltb, Text, codes, Option, none, some, List, [], ◌∷◌, ok, err, Bool-cases,
  inl, inr, arith, if◌then◌else◌,
}
use thundercrab.Prelude.Eq.{same, same_iff, same_refl, text_same}
use thundercrab.Signing.Samples.{crypto}
use thundercrab.Ledger.Api.{new_state}
use thundercrab.Ledger.Api.Samples.{State, governor, serde, encoder, fresh}
use thundercrab.Ledger.Server.{Method, Service, Tower, Host, default_bind, router, main}
use thundercrab.Ledger.Server.Guard.{IsTower, router-IsTower}

abbrev Headers : Type 0
Headers = List (Text × Text)

abbrev lookup : Text → Headers → Option Text
lookup name [] = none
lookup name ((n, v) ∷ hs) = if same n name then some v else lookup name hs

-- A request is its path and the length of its body, a reply its status and its headers.
abbrev Reply : Type 0
Reply = ℕ × Headers

abbrev Inner : Type 0
Inner = Service (Text × ℕ) Reply State

abbrev routed : List (Text × (Method × Inner)) → Inner
routed [] request s = ((404, []), s)
routed ((path, (m, service)) ∷ rs) request s =
    if same path request.0 then service request s else routed rs request s

abbrev tower : Tower State ℕ
tower = record {
  Request = Text × ℕ;
  Reply = Reply;
  content_length = λ r. r.1;
  status = λ r. r.0;
  header = λ name r. lookup name r.1;
  routes = routed;
  json_envelope = λ h r s. ((400, []), s);
  query = λ h r s. ((200, []), s);
  plain = λ h r s. ((200, []), s);
  body_limit = λ n inner r s. if ltb n r.1 then ((413, []), s) else inner r s;
  overriding = λ name value inner r s.
      let ((status, headers), t) = inner r s in ((status, (name, value) ∷ headers), t);
}

tower-IsTower : IsTower tower
tower-IsTower = record {
  sets = λ name value inner r s. rw (same_refl name) refl;
  keeps_others = λ name value other inner r s h. elim (Bool-cases (same name other)) [
    | inl t ↦ absurd (h ((same_iff name other).0 t))
    | inr f ↦ rw f refl
  ];
  keeps_status = λ name value inner r s. refl;
  keeps_state = λ name value inner r s. refl;
  too_large = λ n inner r s h. let t : ltb n r.1 ≡ true = ground arith in (rw t refl, rw t refl);
}

abbrev request : Text × ℕ
request = (codes "/v1/submit", 20000)

router-IsTower_example :
    (let (reply, t) = router governor crypto serde encoder tower request fresh in
      (lookup (codes "x-robots-tag") reply.1 ≡ some (codes "noindex, nofollow"))
      × (lookup (codes "referrer-policy") reply.1 ≡ some (codes "no-referrer"))
      × (16384 < 20000 → (reply.0 ≡ 413) × (t ≡ fresh)))
router-IsTower_example =
    router-IsTower governor crypto serde encoder tower request fresh tower-IsTower

-- Nothing is set, and the default file opens empty.
abbrev host : Host
host = record {
  Address = Text;
  Listener = Text;
  env = λ name. err (codes "not present");
  parse = λ s. ok s;
  connection = λ path. ok none;
  batch_fault = none;
  bind = λ a. ok a;
}

started :
    main governor crypto serde encoder host
    ≡ ok (default_bind, new_state governor crypto serde encoder (record { corroborations = [] }))
unfolding main open_store init_store
started = refl
