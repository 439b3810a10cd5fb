-- ===== src/Events/Order.antt =====
-- Lists of messages from which some are missing.
use ghpulse.Prelude.{ℕ, zero, suc, List, [], ◌∷◌, ◌++◌}

-- `Without n xs ys`: the first list is the second less `n` of its items, in the same order.
pub data Without {ℓ} {A : Type ℓ} : ℕ → List A → List A → Type ℓ where
  nothing : Without zero [] []
  keep : {n : ℕ} {xs ys : List A} (x : A) → Without n xs ys → Without n (x ∷ xs) (x ∷ ys)
  lose : {n : ℕ} {xs ys : List A} (x : A) → Without n xs ys → Without (suc n) xs (x ∷ ys)

-- `Removes l l'`: the second list is the first less one of its items.
pub data Removes {ℓ} {A : Type ℓ} : List A → List A → Type ℓ where
  here : {l : List A} (z : A) → Removes (z ∷ l) l
  there : {l m : List A} (x : A) → Removes l m → Removes (x ∷ l) (x ∷ m)

module _ {ℓ} {A : Type ℓ} where
  pub Without-snoc :
      {n : ℕ} {xs ys : List A} (z : A)
      → Without n xs ys
      → Without n (xs ++ (z ∷ [])) (ys ++ (z ∷ []))
  Without-snoc z nothing = keep z nothing
  Without-snoc z (keep x w) = keep x (Without-snoc z w)
  Without-snoc z (lose x w) = lose x (Without-snoc z w)

  pub Removes-append : (xs : List A) (z : A) (zs : List A) → Removes (xs ++ (z ∷ zs)) (xs ++ zs)
  Removes-append [] z zs = here z
  Removes-append (x ∷ xs) z zs = there x (Removes-append xs z zs)

  -- One item more is missing, whichever it is.
  pub Without-Removes :
      {n : ℕ} {xs xs' ys : List A} → Without n xs ys → Removes xs xs' → Without (suc n) xs' ys
  Without-Removes nothing r = elim r [ ]
  Without-Removes (keep x w) (here _) = lose x w
  Without-Removes (keep x w) (there _ r) = keep x (Without-Removes w r)
  Without-Removes (lose x w) r = lose x (Without-Removes w r)
