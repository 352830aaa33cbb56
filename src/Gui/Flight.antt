-- ===== src/Gui/Flight.antt =====
-- The window of thundercrab-gui/src/main.rs as it runs: messages of the user, and tasks that finish.
use thundercrab.Prelude.{
  ◌≡◌, refl, true, false, Text, Option, none, some, List, [], ◌∷◌, ◌++◌, Result, ok, err, ◌⊎◌, inl,
  inr, arith,
}
use thundercrab.Backend.{FolderSummary}
use thundercrab.Gui.{
  App, new, Message, host_changed, user_changed, password_changed, connect_pressed, connected, Job,
  update,
}

-- What the user can send; the answer of a task is not among it.
abbrev pub IsInput : Message → Type 0
IsInput (connected r) = ⊥
IsInput m = Unit

abbrev pub started : Option Job → List Job → List Job
started none jobs = jobs
started (some job) jobs = jobs ++ (job ∷ [])

-- The states that the window can reach, with the tasks in flight; any of these may finish next, with
-- any answer.
pub data Reach : App → List Job → Type 0 where
  boot : Reach new []
  input :
      (app : App) (jobs : List Job) (m : Message)
      → IsInput m
      → Reach app jobs
      → Reach (update app m).0 (started (update app m).1 jobs)
  finish :
      (app : App) (before after : List Job) (job : Job) (r : Result (List FolderSummary) Text)
      → Reach app (before ++ (job ∷ after))
      → Reach (update app (connected r)).0 (before ++ after)

-- No task is in flight and the window is not connecting, or one is and it is.
abbrev pub InFlight : App → List Job → Type 0
InFlight app jobs =
    ((app.connecting ≡ false) × (jobs ≡ []))
    ⊎ ((app.connecting ≡ true) × ((job : Job) × (jobs ≡ job ∷ [])))

input-InFlight :
    (app : App) (jobs : List Job) (m : Message)
    → IsInput m
    → InFlight app jobs
    → InFlight (update app m).0 (started (update app m).1 jobs)
unfolding update
input-InFlight app jobs (host_changed s) i h = h
input-InFlight app jobs (user_changed s) i h = h
input-InFlight app jobs (password_changed s) i h = h
input-InFlight app jobs (connected r) i h = absurd i
input-InFlight app jobs connect_pressed i (inl (idle, e)) = rw (idle, e) (inr (refl, (_, refl)))
input-InFlight app jobs connect_pressed i (inr (busy, e)) = rw (busy) (inr (refl, e))

one_task :
    (before after : List Job) (job other : Job)
    → before ++ (job ∷ after) ≡ other ∷ []
    → before ++ after ≡ []
one_task [] after job other e = ground arith
one_task (x ∷ []) after job other e = absurd (ground arith)
one_task (x ∷ y ∷ before) after job other e = absurd (ground arith)

no_task :
    (before after : List Job) (job : Job) → before ++ (job ∷ after) ≡ [] → before ++ after ≡ []
no_task [] after job e = absurd (ground arith)
no_task (x ∷ before) after job e = absurd (ground arith)

idle_after :
    (app : App) (r : Result (List FolderSummary) Text)
    → (update app (connected r)).0.connecting ≡ false
unfolding update
idle_after app (ok folders) = refl
idle_after app (err e) = refl

finish-InFlight :
    (app : App) (before after : List Job) (job : Job) (r : Result (List FolderSummary) Text)
    → InFlight app (before ++ (job ∷ after))
    → InFlight (update app (connected r)).0 (before ++ after)
finish-InFlight app before after job r (inl (idle, e)) =
    inl (idle_after app r, no_task before after job e)
finish-InFlight app before after job r (inr (busy, (other, e))) =
    inl (idle_after app r, one_task before after job other e)

-- However the user presses and types while tasks run, and whatever these answer: at every moment the
-- window is connecting with exactly one connection in flight, or it is not and none is.
pub Reach-InFlight : (app : App) (jobs : List Job) → Reach app jobs → InFlight app jobs
Reach-InFlight app jobs boot = inl (refl, refl)
Reach-InFlight app jobs (input a js m i h) = input-InFlight a js m i (Reach-InFlight a js h)
Reach-InFlight app jobs (finish a before after job r h) =
    finish-InFlight a before after job r (Reach-InFlight a (before ++ (job ∷ after)) h)
