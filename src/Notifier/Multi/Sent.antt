-- ===== src/Notifier/Multi/Sent.antt =====
-- notifier.go: which services get a message that is sent to all of them.
use opsy_ami_operator.Prelude.{String, List, [], ◌∷◌, ◌≡◌, ◌≢◌}
use opsy_ami_operator.Go.{Error, Result, ok, err, panics, pure, ◌>>=◌}
use opsy_ami_operator.Notifier.Multi.{NotificationService, send_all}

-- Every service of the list is called once, one after the other; the errors are those of the calls
-- that failed.
pub data AreSent {W : Type 0} (subject message : String)
    : List (NotificationService W) → W → List Error → W → Type 0 where
  none_left : {w : W} → AreSent subject message [] w [] w
  delivered :
      {s : NotificationService W} {services : List (NotificationService W)} {w w₁ w₂ : W}
      {errors : List Error}
      → s.send_to subject message w ≡ (ok tt, w₁)
      → AreSent subject message services w₁ errors w₂
      → AreSent subject message (s ∷ services) w errors w₂
  refused :
      {s : NotificationService W} {services : List (NotificationService W)} {w w₁ w₂ : W}
      {e : Error} {errors : List Error}
      → s.send_to subject message w ≡ (err e, w₁)
      → AreSent subject message services w₁ errors w₂
      → AreSent subject message (s ∷ services) w (e ∷ errors) w₂

module _ {W : Type 0} (subject message : String) where
  -- The result of the services that are left, after an error of the first.
  abbrev with_error : Error → Result (List Error) × W → Result (List Error) × W
  with_error e x = ((λ (_ : W). x) >>= λ errors. pure (e ∷ errors)) x.1

  -- A call of `send_all` that does not panic.
  abbrev AllSent : List (NotificationService W) → W → Result (List Error) → W → Type 0
  AllSent services w r w' =
      (errors : List Error) × (r ≡ ok errors) × AreSent subject message services w errors w'

  -- What is to be shown of a list of services.
  abbrev IsTold : List (NotificationService W) → Type 0
  IsTold services =
      (w w' : W) (r : Result (List Error))
      → send_all services subject message w ≡ (r, w')
      → r ≢ panics
      → AllSent services w r w'
