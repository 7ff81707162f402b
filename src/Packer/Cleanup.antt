-- ===== src/Packer/Cleanup.antt =====
-- pkg/manager_packer/manager.go: removing what packer leaves behind in AWS.
use opsy_ami_operator.Prelude.{String, Option, none, some, if◌then◌else◌}
use opsy_ami_operator.Go.{Exec, has_code, pure, raise, panic, handling}
use opsy_ami_operator.Env.{Env}
use opsy_ami_operator.Packer.Manager.{ManagerPacker}

module _ {W : Type 0} (env : Env W) where
  -- `DeleteKeyPair`; a key pair that is not there is a success.
  unfoldable pub delete_key_pair : Option ManagerPacker → String → Exec W (Unit {0})
  delete_key_pair none name = panic
  delete_key_pair (some m) name =
      handling (env.describe_key_pairs name)
        (λ e. if has_code "InvalidKeyPair.NotFound" e.cause then pure tt else raise e)
        (λ _. env.delete_key_pair name)

  -- `DeleteSecurityGroup`; likewise.
  unfoldable pub delete_security_group : Option ManagerPacker → String → Exec W (Unit {0})
  delete_security_group none id = panic
  delete_security_group (some m) id =
      handling (env.describe_security_groups id)
        (λ e. if has_code "InvalidGroup.NotFound" e.cause then pure tt else raise e)
        (λ _. env.delete_security_group id)
