-- ===== src/Packer/Images/Deprecate.antt =====
-- manager.go: which images are deprecated.
use opsy_ami_operator.Prelude.{
  String, true, false, not, List, [], ◌∷◌, ◌≡◌, refl, ◌==◌, if◌then◌else◌,
}
use opsy_ami_operator.Prelude.{keep_if}
use opsy_ami_operator.Go.{Exec, pure, ◌>>◌}
use opsy_ami_operator.Env.{Env}
use opsy_ami_operator.Env.Aws.{Image}
use opsy_ami_operator.Packer.Images.{deprecate_ami, deprecate_others}

-- One action after the other, up to the first error.
abbrev pub for_each : {S A : Type 0} → (A → Exec S (Unit {0})) → List A → Exec S (Unit {0})
for_each f [] = pure tt
for_each f (x ∷ xs) = f x >> for_each f xs

-- The images with another identifier.
abbrev pub others : String → List Image → List Image
others exclude images = keep_if (λ image. not (image.image_id == exclude)) images

module _ {W : Type 0} (env : Env W) where
  -- The images that are deprecated are all but the excluded one, in their order, up to an error.
  pub deprecate_others_lem :
      (exclude : String) (images : List Image)
      → deprecate_others env exclude images
        ≡ for_each (λ image. deprecate_ami env image.image_id) (others exclude images)
  unfolding deprecate_others
  deprecate_others_lem exclude [] = refl
  deprecate_others_lem exclude (image ∷ images) =
      rw (deprecate_others_lem exclude images)
        (elim (image.image_id == exclude)
          as (λ b.
            (if b
              then for_each (λ i. deprecate_ami env i.image_id) (others exclude images)
              else deprecate_ami env image.image_id
                >> for_each (λ i. deprecate_ami env i.image_id) (others exclude images))
            ≡ for_each (λ i. deprecate_ami env i.image_id)
                (if not b then image ∷ others exclude images else others exclude images)) [
                  | true ↦ refl
                  | false ↦ refl
                ])
