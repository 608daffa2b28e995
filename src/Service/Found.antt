-- ===== src/Service/Found.antt =====
-- src/service/mod.rs: what `Iterator::find` gives, seen from one element of the list.
use rxh.Prelude.{
  Bool, ◌≡◌, refl, ap, true, false, ◌⊎◌, inl, inr, Option, none, some, List, [], ◌∷◌, ◌++◌, map,
  Bool-cases, Option-cases, if◌then◌else◌,
}
use rxh.Service.Dispatch.{find}

-- Whether `u` is the first that passes, behind `us`.
abbrev pub first : {B : Type 0} → (B → Bool) → List B → B → Bool
first f [] u = f u
first f (v ∷ us) u = if f v then false else first f us u

module _ {A B : Type 0} (g : A → B) (before : List A) (x : A) (after : List A) where
  -- `x` still stands in the list, behind elements with the same images.
  abbrev pub Around : List A → Type 0
  Around l =
      (before' : List A) × (after' : List A) × (l ≡ before' ++ x ∷ after')
      × (map g before' ≡ map g before)

  -- What `find` gives in a list around `x`.
  abbrev pub Found : (B → Bool) → Option (List A × A × List A) → Type 0
  Found f o =
      ((first f (map g before) (g x) ≡ true) × (o ≡ some (before, x, after)))
      ⊎ ((first f (map g before) (g x) ≡ false)
          × ((o ≡ none)
              ⊎ ((b : List A) × (y : A) × (a : List A) × (o ≡ some (b, y, a))
                  × ((z : A) → g z ≡ g y → Around (b ++ z ∷ a)))))

pub find-Found :
    {A B : Type 0} (g : A → B) (f : B → Bool) (before : List A) (x : A) (after : List A)
    → Found g before x after f (find (λ y. f (g y)) (before ++ x ∷ after))
unfolding find
find-Found g f [] x after = elim (Bool-cases (f (g x))) [
  | inl e ↦ inl (e, rw e refl)
  | inr e ↦ inr (
    e,
    elim (Option-cases (find (λ y. f (g y)) after)) [
      | inl n ↦ inl (rw (e, n) refl)
      | inr ((b, y, a), s) ↦ inr (x ∷ b, y, a, rw (e, s) refl, λ z h. ([], b ++ z ∷ a, refl, refl))
    ],
  )
]
find-Found g f (v ∷ before) x after = elim (Bool-cases (f (g v))) [
  | inl e ↦ inr (
    rw e refl,
    inr (
      [],
      v,
      before ++ x ∷ after,
      rw e refl,
      λ z h. (z ∷ before, after, refl, ap (λ t. t ∷ map g before) h),
    ),
  )
  | inr e ↦ elim (find-Found g f before x after) [
    | inl (t, s) ↦ inl (rw e t, rw (e, s) refl)
    | inr (t, inl n) ↦ inr (rw e t, inl (rw (e, n) refl))
    | inr (t, inr (b, y, a, s, k)) ↦ inr (
      rw e t,
      inr (
        v ∷ b,
        y,
        a,
        rw (e, s) refl,
        λ z h.
            let (before', after', l, same) = k z h in
            (v ∷ before', after', ap (λ l. v ∷ l) l, ap (λ l. g v ∷ l) same),
      ),
    )
  ]
]
