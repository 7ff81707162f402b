-- ===== src/Ami/Latest.antt =====
-- ami.go: which image `FindLatestImage` returns.
use opsy_ami_operator.Prelude.{
  String, ◌≡◌, refl, ap, ◌⊎◌, inl, inr, true, List, [], ◌∷◌, ◌++◌, All, Bool-cases,
}
use opsy_ami_operator.Prelude.Int.{ltb_ℤ, ◌≤ℤ◌, ltb_ℤ_trans, le_of_not-ltb_ℤ, ltb_ℤ_of_le}
use opsy_ami_operator.Go.{Result, ok, and_then-eq-ok}
use opsy_ami_operator.Api.Conditions.{Time}
use opsy_ami_operator.Env.Aws.{Image}
use opsy_ami_operator.Ami.{image_timestamp, latest_from, find_latest_image}

module _ (parse : String → Result Time) where
  -- The image has a time that is not after `t`, or that is before `t`.
  abbrev pub NotAfter : Time → Image → Type 0
  NotAfter t image = (u : Time) × (image_timestamp parse image ≡ ok u) × (u ≤ℤ t)

  abbrev pub Before : Time → Image → Type 0
  Before t image = (u : Time) × (image_timestamp parse image ≡ ok u) × (ltb_ℤ u t ≡ true)

  -- `image` with its time `t` is the first of the latest of `images`.
  abbrev pub IsFirstLatest : Image → Time → List Image → Type 0
  IsFirstLatest image t images =
      (earlier : List Image) × (others : List Image) × (images ≡ earlier ++ (image ∷ others))
      × (image_timestamp parse image ≡ ok t)
      × All (Before t) earlier
      × All (NotAfter t) others

  -- Where the loop ends that starts with `image` of time `t`: at it, or at a later image.
  abbrev Stays : Image → Time → List Image → Image → Time → Type 0
  Stays image t images latest u = (latest ≡ image) × (u ≡ t) × All (NotAfter t) images

  abbrev Moves : Time → List Image → Image → Time → Type 0
  Moves t images latest u =
      (earlier : List Image) × (others : List Image) × (images ≡ earlier ++ (latest ∷ others))
      × (image_timestamp parse latest ≡ ok u)
      × (ltb_ℤ t u ≡ true)
      × All (Before u) earlier
      × All (NotAfter u) others

  latest_from-ends :
      (image : Image) (t : Time) (images : List Image) {latest : Image} {u : Time}
      → latest_from parse image t images ≡ ok (latest, u)
      → Stays image t images latest u ⊎ Moves t images latest u
  unfolding latest_from
  latest_from-ends image t [] h = inl (cc, cc, tt)
  latest_from-ends image t (next ∷ images) {latest} {u} h =
      let (v, ev, hv) = and_then-eq-ok (image_timestamp parse next) _ h in
      elim (Bool-cases (ltb_ℤ t v)) [
        | inl newer ↦ elim (latest_from-ends next v images (rw newer at hv)) [
          | inl (same, at_v, rest) ↦ inr (rw (same, at_v) ([], images, refl, ev, newer, tt, rest))
          | inr (earlier, others, split, eu, later, be, na) ↦ inr (
            next ∷ earlier,
            others,
            ap (λ (l : List Image). next ∷ l) split,
            eu,
            ltb_ℤ_trans t v u newer later,
            ((v, ev, later), be),
            na,
          )
        ]
        | inr older ↦ elim (latest_from-ends image t images (rw older at hv)) [
          | inl (same, at_t, rest) ↦ inl (same, at_t, ((v, ev, le_of_not-ltb_ℤ v t older), rest))
          | inr (earlier, others, split, eu, later, be, na) ↦ inr (
            next ∷ earlier,
            others,
            ap (λ (l : List Image). next ∷ l) split,
            eu,
            later,
            ((v, ev, ltb_ℤ_of_le v t u (le_of_not-ltb_ℤ v t older) later), be),
            na,
          )
        ]
      ]

  -- When `FindLatestImage` returns an image and a time, the time is the image's, every image has
  -- a time, those of the images before it are before that time, and those behind it not after.
  pub find_latest_image-first :
      (images : List Image) {latest : Image} {u : Time}
      → find_latest_image parse images ≡ ok (latest, u)
      → IsFirstLatest latest u images
  unfolding find_latest_image
  find_latest_image-first [] h = cc
  find_latest_image-first (image ∷ images) {latest} {u} h =
      let (t, et, ht) = and_then-eq-ok (image_timestamp parse image) _ h in
      elim (latest_from-ends image t images ht) [
        | inl (same, at_t, rest) ↦ rw (same, at_t) ([], images, refl, et, tt, rest)
        | inr (earlier, others, split, eu, later, be, na) ↦ (
          image ∷ earlier,
          others,
          ap (λ (l : List Image). image ∷ l) split,
          eu,
          ((t, et, later), be),
          na,
        )
      ]

  abbrev pub HasTime : Image → Type 0
  HasTime image = (u : Time) × (image_timestamp parse image ≡ ok u)

  latest_from_total :
      (image : Image) (t : Time) (images : List Image)
      → All HasTime images
      → (found : Image × Time) × (latest_from parse image t images ≡ ok found)
  unfolding latest_from
  latest_from_total image t [] h = ((image, t), refl)
  latest_from_total image t (next ∷ images) ((v, ev), rest) = rw ev (elim (Bool-cases (ltb_ℤ t v)) [
    | inl newer ↦ rw newer (latest_from_total next v images rest)
    | inr older ↦ rw older (latest_from_total image t images rest)
  ])

  -- When there are images and each has a time, `FindLatestImage` returns one.
  pub find_latest_image_total :
      (image : Image) (images : List Image)
      → All HasTime (image ∷ images)
      → (found : Image × Time) × (find_latest_image parse (image ∷ images) ≡ ok found)
  unfolding find_latest_image
  find_latest_image_total image images ((t, et), rest) =
      rw et (latest_from_total image t images rest)
