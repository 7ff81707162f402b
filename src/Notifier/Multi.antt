-- ===== src/Notifier/Multi.antt =====
-- pkg/notifier/notifier.go, ses.go and sns.go: the notification services and the sending to all of
-- them at once.
pub mod Sent
use opsy_ami_operator.Prelude.{String, List, [], ◌∷◌, ◌++◌, map}
use opsy_ami_operator.Prelude.Texts.{join}
use opsy_ami_operator.Go.{
  Exec, Error, Result, ok, err, errorf, pure, raise, lift, total, handling, ◌>>=◌,
}
use opsy_ami_operator.Env.{Env}

pub record NotificationService (W : Type 0) : Type 0 where
  pub send_to : String → String → Exec W (Unit {0})

pub record MultiNotifier (W : Type 0) : Type 0 where
  pub services : List (NotificationService W)

-- The order in which the goroutines of the services run; each one's call is one step.
abbrev pub RunOrder : Type 0 → Type 0
RunOrder W = List (NotificationService W) → W → List (NotificationService W) × W

-- `NewMultiNotifier`
unfoldable pub new_multi_notifier : {W : Type 0} → MultiNotifier W
new_multi_notifier = record { services = [] }

-- `AddService`
unfoldable pub add_service :
    {W : Type 0} → NotificationService W → MultiNotifier W → MultiNotifier W
add_service service mn = record { services = mn.services ++ (service ∷ []) }

abbrev message_of : Error → String
message_of e = e.message

-- What `Send` returns for the errors of the channel.
abbrev pub outcome : List Error → Result (Unit {0})
outcome [] = ok tt
outcome (e ∷ es) =
    let texts = join (map message_of (e ∷ es)) " " in
    err (errorf ("errors occurred while sending notifications: [" ∷ texts ∷ "]" ∷ []))

module _ {W : Type 0} where
  -- The goroutines, with the errors in the order in which they reach the channel.
  unfoldable pub send_all : List (NotificationService W) → String → String → Exec W (List Error)
  send_all [] subject message = pure []
  send_all (s ∷ services) subject message =
      handling (s.send_to subject message)
        (λ e. send_all services subject message >>= λ errors. pure (e ∷ errors))
        (λ _. send_all services subject message)

  -- `Send`
  unfoldable pub send_multi : RunOrder W → MultiNotifier W → String → String → Exec W (Unit {0})
  send_multi order mn subject message = do
    services ← total (order mn.services)
    errors ← send_all services subject message
    lift (outcome errors)

pub record Email : Type 0 where
  pub source : String
  pub to_addresses : List String
  pub subject : String
  pub subject_charset : String
  pub body : String
  pub body_charset : String

-- The calls of SES and SNS: the message, and topic, subject and text.
pub record MessageApi (W : Type 0) : Type 0 where
  pub send_email : Email → Exec W (Unit {0})
  pub publish : String → String → String → Exec W (Unit {0})

pub record SesService : Type 0 where
  pub sender : String
  pub to : List String

pub record SnsService : Type 0 where
  pub topic_arn : String

-- `NewSESService`, but for the client of the configuration.
abbrev new_ses_service : String → List String → SesService
new_ses_service sender to = record { sender = sender; to = to }

module _ {W : Type 0} (api : MessageApi W) where
  -- `(*SESService).Send`
  unfoldable pub send_ses : SesService → NotificationService W
  send_ses s = record {
    send_to = λ subject message. api.send_email (record {
      source = s.sender;
      to_addresses = s.to;
      subject = subject;
      subject_charset = "UTF-8";
      body = message;
      body_charset = "UTF-8";
    });
  }

  -- `(*SNSService).Send`
  unfoldable pub send_sns : SnsService → NotificationService W
  send_sns s = record { send_to = λ subject message. api.publish s.topic_arn subject message }

-- `NewSNSService`
unfoldable pub new_sns_service : {W : Type 0} → Env W → String → String → Exec W SnsService
new_sns_service env region topic_arn =
    handling (env.load_default_config region)
      (λ e. raise (errorf ("unable to load SDK config: " ∷ e.message ∷ [])))
      (λ _. pure (record { topic_arn = topic_arn }))
