-- ===== src/Gui/View/Secrecy.antt =====
-- What the window shows of the password.
use thundercrab.Prelude.{
  ◌≡◌, refl, ap, Bool, true, false, Text, codes, List, [], ◌∷◌, ◌++◌, length, ok, err, Bool-cases,
  inl, inr, arith, map,
}
use thundercrab.Gui.{
  App, new, Message, host_changed, user_changed, password_changed, connect_pressed, connected,
  update,
}
use thundercrab.Gui.View.{
  Element, text, text_input, button, column, row, scrollable, container, Elements, end, push, view,
}

-- A bullet for each character.
abbrev pub mask : Text → Text
mask s = map (λ x. 8226) s

-- What a text input shows: its placeholder if it is empty, a bullet for each character if it is
-- secure, and its value otherwise.
abbrev pub drawn : Text → Text → Bool → Text
drawn placeholder [] secure = placeholder
drawn placeholder (c ∷ s) true = mask (c ∷ s)
drawn placeholder (c ∷ s) false = c ∷ s

-- The texts on the screen, in their order.
unfoldable mutual
  pub shown : Element → List Text
  shown (text s) = s ∷ []
  shown (text_input placeholder value secure on_input) = drawn placeholder value secure ∷ []
  shown (button s on_press) = s ∷ []
  shown (column es) = all_shown es
  shown (row es) = all_shown es
  shown (scrollable e) = shown e
  shown (container e) = shown e

  pub all_shown : Elements → List Text
  all_shown end = []
  all_shown (push e es) = shown e ++ all_shown es

-- Two messages that are equal, or are passwords of the same length.
pub data Alike : Message → Message → Type 0 where
  equal : (m : Message) → Alike m m
  secret : (p q : Text) → length p ≡ length q → Alike (password_changed p) (password_changed q)

pub data AllAlike : List Message → List Message → Type 0 where
  done : AllAlike [] []
  more :
      (m m' : Message) (ms ms' : List Message)
      → Alike m m'
      → AllAlike ms ms'
      → AllAlike (m ∷ ms) (m' ∷ ms')

-- The window after some messages.
abbrev pub after : App → List Message → App
after app [] = app
after app (m ∷ ms) = after (update app m).0 ms

-- All but the password is the same, and its length is.
abbrev IsTwin : App → App → Type 0
IsTwin a b =
    (a.host ≡ b.host)
    × (a.user ≡ b.user)
    × (length a.password ≡ length b.password)
    × (a.folders ≡ b.folders)
    × (a.status ≡ b.status)
    × (a.connecting ≡ b.connecting)

bullets : (p q : Text) → length p ≡ length q → mask p ≡ mask q
bullets [] [] h = refl
bullets [] (d ∷ q) h = absurd (omega arith)
bullets (c ∷ p) [] h = absurd (omega arith)
bullets (c ∷ p) (d ∷ q) h = ap (λ s. 8226 ∷ s) (bullets p q (omega arith))

drawn-secret :
    (placeholder p q : Text)
    → length p ≡ length q
    → drawn placeholder p true ≡ drawn placeholder q true
drawn-secret placeholder [] [] h = refl
drawn-secret placeholder [] (d ∷ q) h = absurd (omega arith)
drawn-secret placeholder (c ∷ p) [] h = absurd (omega arith)
drawn-secret placeholder (c ∷ p) (d ∷ q) h = bullets (c ∷ p) (d ∷ q) h

update-equal : (m : Message) (a b : App) → IsTwin a b → IsTwin (update a m).0 (update b m).0
unfolding update
update-equal (host_changed s) a b (h, u, p, f, s', c) = (refl, u, p, f, s', c)
update-equal (user_changed s) a b (h, u, p, f, s', c) = (h, refl, p, f, s', c)
update-equal (password_changed s) a b (h, u, p, f, s', c) = (h, u, refl, f, s', c)
update-equal (connected (ok folders)) a b (h, u, p, f, s', c) = (h, u, p, refl, refl, refl)
update-equal (connected (err e)) a b (h, u, p, f, s', c) = (h, u, p, refl, refl, refl)
update-equal connect_pressed a b (h, u, p, f, s', c) = elim (Bool-cases b.connecting) [
  | inl busy ↦ rw (c, busy) (h, u, p, f, s', refl)
  | inr idle ↦ rw (c, idle) (h, u, refl, f, refl, refl)
]

update-Alike :
    (m m' : Message) (a b : App) → Alike m m' → IsTwin a b → IsTwin (update a m).0 (update b m').0
unfolding update
update-Alike _ _ a b (equal m) h = update-equal m a b h
update-Alike _ _ a b (secret p q e) (h, u, p', f, s, c) = (h, u, e, f, s, c)

after-Alike :
    (ms ms' : List Message) (a b : App)
    → AllAlike ms ms'
    → IsTwin a b
    → IsTwin (after a ms) (after b ms')
after-Alike _ _ a b done h = h
after-Alike _ _ a b (more m m' ms ms' x xs) h =
    after-Alike ms ms' (update a m).0 (update b m').0 xs (update-Alike m m' a b x h)

view-twins : (a b : App) → IsTwin a b → shown (view a) ≡ shown (view b)
unfolding view shown
view-twins a b (h, u, p, f, s, c) =
    rw (h, u, drawn-secret (codes "…") a.password b.password p, f, s, c) refl

-- Whatever the user does and the server answers, the texts on the screen say nothing of the passwords
-- that were typed but their lengths.
pub after-shown :
    (ms ms' : List Message)
    → AllAlike ms ms'
    → shown (view (after new ms)) ≡ shown (view (after new ms'))
after-shown ms ms' h =
    view-twins (after new ms) (after new ms')
      (after-Alike ms ms' new new h (refl, refl, refl, refl, refl, refl))
