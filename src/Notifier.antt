-- ===== src/Notifier.antt =====
-- pkg/notifier/slack.go: the message that Slack gets about a builder.
pub mod Multi
use opsy_ami_operator.Prelude.{String, [], ◌∷◌, ◌==◌, if◌then◌else◌}
use opsy_ami_operator.Prelude.Texts.{concat}
use opsy_ami_operator.Go.{Exec}
use opsy_ami_operator.Env.{Env, SlackPost, header, context, divider, section}

pub record Message : Type 0 where
  pub name : String
  pub latest_base_ami : String
  pub latest_built_ami : String
  pub message : String
  pub status : String

unfoldable pub color_of : String → String
color_of status =
    if status == "Success" then "#36a64f" else if status == "Failure" then "#ff0000" else "#f2c744"

unfoldable pub post_of : String → Message → SlackPost
unfolding color_of
post_of subject m = record {
  blocks =
      header subject
      ∷ context (concat (":gear: *Builder:* " ∷ m.name ∷ []))
      ∷ divider
      ∷ section (concat ("*Status:* " ∷ m.status ∷ [])) (
          concat ("*Base AMI:*\n" ∷ m.latest_base_ami ∷ [])
          ∷ concat ("*Built AMI:*\n" ∷ m.latest_built_ami ∷ [])
          ∷ [])
      ∷ divider
      ∷ section (concat ("*Details:*\n" ∷ m.message ∷ [])) []
      ∷ [];
  color = color_of m.status;
  fallback = subject;
}

-- `NewSlackService(token, channel).Send(ctx, subject, m)`
unfoldable pub send : {W : Type 0} → Env W → String → String → String → Message → Exec W (Unit {0})
send env token channel subject m = env.post_message token channel (post_of subject m)
