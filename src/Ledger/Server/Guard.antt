-- ===== src/Ledger/Server/Guard.antt =====
-- What the layers of the router promise of every reply.
use thundercrab.Prelude.{ℕ, ◌<◌, ◌≡◌, ◌≢◌, ◌∙◌, Text, codes, some, arith}
use thundercrab.Signing.Wire.{Crypto, Serde}
use thundercrab.Ledger.Api.{AppState}
use thundercrab.Ledger.Api.State.{Governor, Encoder}
use thundercrab.Ledger.Server.{Service, Tower, router}

-- What tower-http says of its layers: an overriding layer sets its header on every reply, and leaves
-- the other headers, the status and the state; a body limit answers a request that announces a longer
-- body itself, with 413.
pub record IsTower {S Instant : Type 0} (tower : Tower S Instant) : Type 0 where
  pub sets :
      (name value : Text) (inner : Service tower.Request tower.Reply S) (request : tower.Request)
      (s : S)
      → tower.header name (tower.overriding name value inner request s).0 ≡ some value
  pub keeps_others :
      (name value other : Text) (inner : Service tower.Request tower.Reply S)
      (request : tower.Request) (s : S)
      → name ≢ other
      → tower.header other (tower.overriding name value inner request s).0
        ≡ tower.header other (inner request s).0
  pub keeps_status :
      (name value : Text) (inner : Service tower.Request tower.Reply S) (request : tower.Request)
      (s : S)
      → tower.status (tower.overriding name value inner request s).0
        ≡ tower.status (inner request s).0
  pub keeps_state :
      (name value : Text) (inner : Service tower.Request tower.Reply S) (request : tower.Request)
      (s : S)
      → (tower.overriding name value inner request s).1 ≡ (inner request s).1
  pub too_large :
      (n : ℕ) (inner : Service tower.Request tower.Reply S) (request : tower.Request) (s : S)
      → n < tower.content_length request
      → (tower.status (tower.body_limit n inner request s).0 ≡ 413)
        × ((tower.body_limit n inner request s).1 ≡ s)

module _ (g : Governor) (c : Crypto) (e : Serde) (enc : Encoder)
    (tower : Tower (AppState g c e enc) g.Instant) where
  -- Every reply of the router, whatever the request, keeps search engines and referrers out; and a
  -- request that announces a body of more than 16 KiB is answered 413 and changes nothing.
  pub router-IsTower :
      (request : tower.Request) (s : AppState g c e enc)
      → IsTower tower
      → (let (reply, t) = router g c e enc tower request s in
          (tower.header (codes "x-robots-tag") reply ≡ some (codes "noindex, nofollow"))
          × (tower.header (codes "referrer-policy") reply ≡ some (codes "no-referrer"))
          × (16384 < tower.content_length request → (tower.status reply ≡ 413) × (t ≡ s)))
  unfolding router
  router-IsTower request s h = (
    h.keeps_others _ _ (codes "x-robots-tag") _ request s (λ p. ground arith)
        ∙ h.sets (codes "x-robots-tag") _ _ request s,
    h.sets (codes "referrer-policy") _ _ request s,
    λ large.
        let (status, state) = h.too_large 16384 _ request s large in
        (
          h.keeps_status _ _ _ request s ∙ h.keeps_status _ _ _ request s ∙ status,
          h.keeps_state _ _ _ request s ∙ h.keeps_state _ _ _ request s ∙ state,
        ),
  )
