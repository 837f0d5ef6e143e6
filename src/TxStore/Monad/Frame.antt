-- ===== src/TxStore/Monad/Frame.antt =====
-- What a call leaves alone, on every outcome: a view of the store that is the same after it.
use btcwallet.Prelude.{ℕ, suc, ◌≡◌, refl, ◌∙◌, Option, none, some, List, [], ◌∷◌}
use btcwallet.TxStore.Types.{Store, Error, Result, ok, err, panic}
use btcwallet.TxStore.Monad.{
  M, continue_with, pure, fail, crash, gets, try, modify, ◌>>=◌, each, each_indexed,
}

pub record Keeps {A X : Type 0} (view : Store → X) (m : M A) : Type 0 where
  pub same : (s : Store) → view (m s).1 ≡ view s

module _ {X : Type 0} {view : Store → X} where
  pub try-Keeps : {A : Type 0} (f : Store → Result A) → Keeps view (try f)
  try-Keeps f = record { same = λ s. refl }

  pub gets-Keeps : {A : Type 0} (f : Store → A) → Keeps view (gets f)
  gets-Keeps f = record { same = λ s. refl }

  pub pure-Keeps : {A : Type 0} (a : A) → Keeps view (pure a)
  pure-Keeps a = record { same = λ s. refl }

  pub fail-Keeps : {A : Type 0} (e : Error) → Keeps view (fail {A = A} e)
  fail-Keeps e = record { same = λ s. refl }

  pub crash-Keeps : {A : Type 0} → Keeps view (crash {A = A})
  crash-Keeps = record { same = λ s. refl }

  pub modify-Keeps :
      (f : Store → Store) → ((s : Store) → view (f s) ≡ view s) → Keeps view (modify f)
  modify-Keeps f h = record { same = h }

  bind_same :
      {A B : Type 0} (p : Result A × Store) (f : A → M B)
      → ((a : A) → Keeps view (f a))
      → view (continue_with p f).1 ≡ view p.1
  bind_same (ok a, s) f h = (h a).same s
  bind_same (err e, s) f h = refl
  bind_same (panic, s) f h = refl

  pub >>=-Keeps :
      {A B : Type 0} (m : M A) (f : A → M B)
      → Keeps view m
      → ((a : A) → Keeps view (f a))
      → Keeps view (m >>= f)
  >>=-Keeps m f h hf = record { same = λ s. bind_same (m s) f hf ∙ h.same s }

  pub each-Keeps {ℓ} :
      {A : Type ℓ} (f : A → M (Unit {0})) (xs : List A)
      → ((x : A) → Keeps view (f x))
      → Keeps view (each f xs)
  unfolding each
  each-Keeps f [] h = pure-Keeps tt
  each-Keeps f (x ∷ xs) h = >>=-Keeps (f x) _ (h x) (λ _. each-Keeps f xs h)

  pub each_indexed-Keeps {ℓ} :
      {A : Type ℓ} (f : ℕ → A → M (Unit {0})) (n : ℕ) (xs : List A)
      → ((n : ℕ) (x : A) → Keeps view (f n x))
      → Keeps view (each_indexed f n xs)
  unfolding each_indexed
  each_indexed-Keeps f n [] h = pure-Keeps tt
  each_indexed-Keeps f n (x ∷ xs) h =
      >>=-Keeps (f n x) _ (h n x) (λ _. each_indexed-Keeps f (suc n) xs h)

  pub option-Keeps {ℓ} :
      {A : Type 0} {Y : Type ℓ} (o : Option Y) (m : M A) (f : Y → M A)
      → Keeps view m
      → ((y : Y) → Keeps view (f y))
      → Keeps view (elim o [ none ↦ m | some y ↦ f y ])
  option-Keeps none m f h hf = h
  option-Keeps (some y) m f h hf = hf y
