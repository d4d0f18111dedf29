-- ===== src/Config/Update.antt =====
-- What a walk to the first element that passes a test (the loops of src/rss_config.c) has done.
use raptor_common.Base.{
  Bool, true, false, List, [], ◌∷◌, some, ◌≡◌, inl, inr, arith, Bool-cases, Option-cases, map,
}
use raptor_common.Config.Types.{update_first}

module _ {ℓ} {A : Type ℓ} (test : A → Bool) (f : A → A) where
  pub update_first-applies :
      (xs : List A) (y : A) (ys : List A)
      → update_first test f xs ≡ some (y, ys)
      → (x : A) × (y ≡ f x) × (test x ≡ true)
  unfolding update_first
  update_first-applies [] y ys h = cc
  update_first-applies (x ∷ xs) y ys h = elim (Bool-cases (test x)) [
    | inl here ↦ (x, ground arith, here)
    | inr later ↦ elim (Option-cases (update_first test f xs)) [
      | inl no_hit ↦ absurd (ground arith)
      | inr ((z, zs), hit) ↦
          let (s, e, t) = update_first-applies xs z zs hit in (s, ground (arith, hit), t)
    ]
  ]

  -- What `f` leaves alone, the walk leaves alone in every element.
  pub map-update_first {κ} :
      {B : Type κ} (g : A → B) (xs : List A) (y : A) (ys : List A)
      → ((x : A) → g (f x) ≡ g x)
      → update_first test f xs ≡ some (y, ys)
      → map g ys ≡ map g xs
  unfolding update_first
  map-update_first g [] y ys same h = cc
  map-update_first g (x ∷ xs) y ys same h = elim (Option-cases (update_first test f xs)) [
    | inl no_hit ↦ ground (arith, same x)
    | inr ((z, zs), hit) ↦ ground (arith, same x, hit, map-update_first g xs z zs same hit)
  ]

-- The same walk as a relation: `ys` is `xs` with the first element that passes changed by `f`.
pub data Updated {ℓ} {A : Type ℓ} (test : A → Bool) (f : A → A) : List A → List A → Type ℓ where
  here : {x : A} {xs : List A} → test x ≡ true → Updated test f (x ∷ xs) (f x ∷ xs)
  there :
      {x : A} {xs ys : List A}
      → test x ≡ false
      → Updated test f xs ys
      → Updated test f (x ∷ xs) (x ∷ ys)

module _ {ℓ} {A : Type ℓ} (test : A → Bool) (f : A → A) where
  pub update_first-Updated :
      (xs : List A) (y : A) (ys : List A)
      → update_first test f xs ≡ some (y, ys)
      → Updated test f xs ys
  unfolding update_first
  update_first-Updated [] y ys h = cc
  update_first-Updated (x ∷ xs) y ys h = elim (Bool-cases (test x)) [
    | inl hit ↦ let e : ys ≡ f x ∷ xs = ground (arith, hit) in rw e (here hit)
    | inr later ↦ elim (Option-cases (update_first test f xs)) [
      | inl no_hit ↦ absurd (ground (arith, no_hit, later))
      | inr ((z, zs), hit) ↦
          let e : ys ≡ x ∷ zs = ground (arith, hit, later) in
          rw e (there later (update_first-Updated xs z zs hit))
    ]
  ]
