-- ===== src/Gui/Tests.antt =====
-- A run of the window, and its theorem at it.
use thundercrab.Prelude.{◌≡◌, refl, true, Text, List, codes, [], ◌∷◌, err}
use thundercrab.Gui.View.{view}
use thundercrab.Gui.View.Offers.{typing, senders, view-senders}
use thundercrab.Gui.View.Secrecy.{
  shown, drawn, after, equal, secret, AllAlike, done, more, after-shown,
}
use thundercrab.Gui.{
  App, new, Message, host_changed, user_changed, password_changed, connect_pressed, connected, Job,
  update,
}
use thundercrab.Gui.Flight.{Reach, boot, input, finish, InFlight, Reach-InFlight}

runs : Unit {0}
unfolding update
runs = tt

abbrev typed : App
typed = (update new (password_changed (codes "p"))).0

abbrev pressed : App
pressed = (update typed connect_pressed).0

abbrev job : Job
job = record {
  config = record {
    imap_host = [];
    imap_port = 993;
    smtp_host = [];
    smtp_port = 587;
    sieve_port = 4190;
    username = [];
  };
  password = codes "p";
}

pressed_once : Reach pressed (job ∷ [])
unfolding runs
pressed_once =
    input typed [] connect_pressed tt (input new [] (password_changed (codes "p")) tt boot)

-- A second press while the task runs, which then fails.
failed_after_two : Reach (update pressed (connected (err (codes "x")))).0 []
unfolding runs
failed_after_two =
    finish pressed [] [] job (err (codes "x"))
      (input pressed (job ∷ []) connect_pressed tt pressed_once)

Reach-InFlight_example : InFlight (update pressed (connected (err (codes "x")))).0 []
Reach-InFlight_example =
    Reach-InFlight (update pressed (connected (err (codes "x")))).0 [] failed_after_two

view-senders_example :
    senders (view pressed)
    ≡ typing host_changed ∷ typing user_changed ∷ typing password_changed ∷ []
view-senders_example = view-senders pressed (job ∷ []) pressed_once

-- Two users with different passwords, who connect and are answered alike.
abbrev session : Text → List Message
session p =
    password_changed p ∷ connect_pressed ∷ password_changed p ∷ connected (err (codes "x")) ∷ []

sessions : AllAlike (session (codes "abc")) (session (codes "xyz"))
sessions = more _ _ _ _ (secret (codes "abc") (codes "xyz") refl) (
    more _ _ _ _ (equal connect_pressed) (
      more _ _ _ _ (secret (codes "abc") (codes "xyz") refl)
        (more _ _ _ _ (equal (connected (err (codes "x")))) done)))

after-shown_example :
    shown (view (after new (session (codes "abc"))))
    ≡ shown (view (after new (session (codes "xyz"))))
after-shown_example = after-shown (session (codes "abc")) (session (codes "xyz")) sessions

bullets_shown :
    drawn (codes "…") (after new (session (codes "abc"))).password true ≡ 8226 ∷ 8226 ∷ 8226 ∷ []
unfolding runs
bullets_shown = refl
