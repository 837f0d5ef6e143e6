-- ===== src/Reader/Laws.antt =====
-- What the readers of the package have in common, and the rules by which a reader that is put
-- together from parts has it too.
use btcwallet.Prelude.{
  ℕ, zero, suc, ◌+◌, ◌^◌, ◌<◌, ◌≡◌, refl, ◌≢◌, List, [], ◌∷◌, ◌++◌, map, arith, length, All,
  length-append, take-append_length, drop-append_length, length-drop,
}
use btcwallet.Errors.{Error, Result, ok, err, panic, eof}
use btcwallet.Bytes.{get_uint, put_uint, length-put_uint, get_uint-put_uint}
use btcwallet.Reader.{
  Reader, pure, lift, continue_with, ◌>>=◌, read_full, read_uint, no_eof_error, no_eof, mid,
  write_list, read_list, read_times, measure,
}
use mathlib.Core.List.{append_assoc, append-nil}
use mathlib.Core.Path.{subst}

module _ {A : Type 0} where
  -- The bytes reported as read are those that are gone.
  abbrev pub IsCounted : Reader A → Type 0
  IsCounted m = (s : List ℕ) → (m s).1 + length (m s).2 ≡ length s

  -- io.EOF means that there was nothing to read.
  abbrev pub IsClean : Reader A → Type 0
  IsClean m = (s : List ℕ) → (m s).0 ≡ err eof → s ≡ []

  abbrev pub IsEofFree : Reader A → Type 0
  IsEofFree m = (s : List ℕ) → (m s).0 ≢ err eof

  abbrev pub IsPanicFree : Reader A → Type 0
  IsPanicFree m = (s : List ℕ) → (m s).0 ≢ panic

  -- A reader of a whole value, and one that stands inside a value.
  pub record IsReader (m : Reader A) : Type 0 where
    pub counted : IsCounted m
    pub clean : IsClean m
    pub no_panic : IsPanicFree m

  pub record IsInner (m : Reader A) : Type 0 where
    pub counted : IsCounted m
    pub eof_free : IsEofFree m
    pub no_panic : IsPanicFree m

  -- The reader takes `w` from the front of any input and gives `a`.
  pub record Decodes (m : Reader A) (w : List ℕ) (a : A) : Type 0 where
    pub run : (rest : List ℕ) → m (w ++ rest) ≡ (ok a, length w, rest)

no_eof_error_lem : (e : Error) → no_eof_error e ≢ eof
no_eof_error_lem eof h = cc
no_eof_error_lem _ h = cc

module _ {A : Type 0} where
  pub pure-IsInner : (a : A) → IsInner (pure a)
  unfolding pure
  pure-IsInner a = record { counted = λ s. omega arith; eof_free = λ s e. cc; no_panic = λ s e. cc }

  -- A check of what was read.
  pub lift-IsInner : {r : Result A} → r ≢ err eof → r ≢ panic → IsInner (lift r)
  unfolding lift
  lift-IsInner h k = record { counted = λ s. omega arith; eof_free = λ s. h; no_panic = λ s. k }

  mid_result : (r : Result A) → r ≢ panic → (no_eof r ≢ err eof) × (no_eof r ≢ panic)
  mid_result (ok a) h = (λ e. cc, λ e. cc)
  mid_result (err e) h = (λ p. no_eof_error_lem e (ground arith), λ p. cc)
  mid_result panic h = absurd (h refl)

  pub mid-IsInner : {m : Reader A} → IsReader m → IsInner (mid m)
  unfolding mid
  mid-IsInner h = record {
    counted = h.counted;
    eof_free = λ s. (mid_result _ (h.no_panic s)).0;
    no_panic = λ s. (mid_result _ (h.no_panic s)).1;
  }

  -- Where only the counting is known of a reader, as of one that is not the package's own.
  pub mid_counted-IsInner : (m : Reader A) → IsCounted m → IsPanicFree m → IsInner (mid m)
  unfolding mid
  mid_counted-IsInner m h k = record {
    counted = h;
    eof_free = λ s. (mid_result _ (k s)).0;
    no_panic = λ s. (mid_result _ (k s)).1;
  }

  pub IsInner-IsReader : {m : Reader A} → IsInner m → IsReader m
  IsInner-IsReader h = record {
    counted = h.counted;
    clean = λ s e. absurd (h.eof_free s e);
    no_panic = h.no_panic;
  }

  pub mid-Decodes : {m : Reader A} {w : List ℕ} {a : A} → Decodes m w a → Decodes (mid m) w a
  unfolding mid
  mid-Decodes h = record { run = λ rest. rw (h.run rest) }

  pub pure-Decodes : (a : A) → Decodes (pure a) [] a
  unfolding pure
  pure-Decodes a = record { run = λ rest. refl }

  pub Decodes-eq : {m : Reader A} {w : List ℕ} {a b : A} → Decodes m w a → a ≡ b → Decodes m w b
  Decodes-eq {m} {w} h e = subst (λ x. Decodes m w x) e h

module _ {A B : Type 0} where
  continue_counted :
      (p : Result A × ℕ × List ℕ) (f : A → Reader B) (n : ℕ)
      → p.1 + length p.2 ≡ n
      → ((a : A) → IsCounted (f a))
      → (continue_with p f).1 + length (continue_with p f).2 ≡ n
  unfolding continue_with
  continue_counted (ok a, k, rest) f n h hf = omega (arith, hf a rest)
  continue_counted (err e, k, rest) f n h hf = h
  continue_counted (panic, k, rest) f n h hf = h

  continue_no_eof :
      (p : Result A × ℕ × List ℕ) (f : A → Reader B)
      → ((a : A) → IsEofFree (f a))
      → (continue_with p f).0 ≡ err eof
      → p.0 ≡ err eof
  unfolding continue_with
  continue_no_eof (ok a, k, rest) f hf e = absurd (hf a rest e)
  continue_no_eof (err x, k, rest) f hf e = cc
  continue_no_eof (panic, k, rest) f hf e = cc

  continue_no_panic :
      (p : Result A × ℕ × List ℕ) (f : A → Reader B)
      → ((a : A) → IsPanicFree (f a))
      → (continue_with p f).0 ≡ panic
      → p.0 ≡ panic
  unfolding continue_with
  continue_no_panic (ok a, k, rest) f hf e = absurd (hf a rest e)
  continue_no_panic (err x, k, rest) f hf e = cc
  continue_no_panic (panic, k, rest) f hf e = refl

  pub >>=-IsReader :
      {m : Reader A} {f : A → Reader B}
      → IsReader m
      → ((a : A) → IsInner (f a))
      → IsReader (m >>= f)
  unfolding ◌>>=◌
  >>=-IsReader {m} {f} h hf = record {
    counted = λ s. continue_counted (m s) f (length s) (h.counted s) (λ a. (hf a).counted);
    clean = λ s e. h.clean s (continue_no_eof (m s) f (λ a. (hf a).eof_free) e);
    no_panic = λ s e. h.no_panic s (continue_no_panic (m s) f (λ a. (hf a).no_panic) e);
  }

  pub >>=-IsInner :
      {m : Reader A} {f : A → Reader B} → IsInner m → ((a : A) → IsInner (f a)) → IsInner (m >>= f)
  unfolding ◌>>=◌
  >>=-IsInner {m} {f} h hf = record {
    counted = λ s. continue_counted (m s) f (length s) (h.counted s) (λ a. (hf a).counted);
    eof_free = λ s e. h.eof_free s (continue_no_eof (m s) f (λ a. (hf a).eof_free) e);
    no_panic = λ s e. h.no_panic s (continue_no_panic (m s) f (λ a. (hf a).no_panic) e);
  }

  pub >>=-Decodes :
      {m : Reader A} (f : A → Reader B) {w v : List ℕ} {a : A} {b : B}
      → Decodes m w a
      → Decodes (f a) v b
      → Decodes (m >>= f) (w ++ v) b
  unfolding ◌>>=◌ continue_with
  >>=-Decodes f {w} {v} h hf = record {
    run =
        λ rest. rw (append_assoc w v rest, h.run (v ++ rest), hf.run rest, length-append w v) refl;
  }

  -- A step after which nothing is read.
  pub only-Decodes :
      {m : Reader A} (f : A → Reader B) {w : List ℕ} {a : A} {b : B}
      → Decodes m w a
      → Decodes (f a) [] b
      → Decodes (m >>= f) w b
  only-Decodes {m} f {w} {b} h hf =
      subst (λ v. Decodes (m >>= f) v b) (append-nil w) (>>=-Decodes f h hf)

  -- The last step of a chain, which only builds the value.
  pub last-Decodes :
      {m : Reader A} (g : A → B) {w : List ℕ} {a : A}
      → Decodes m w a
      → Decodes (m >>= λ x. pure (g x)) w (g a)
  unfolding ◌>>=◌ continue_with pure
  last-Decodes g h = record { run = λ rest. rw (h.run rest) (ground arith) }

  -- A check that passes adds nothing.
  pub lift-Decodes :
      {r : Result A} (f : A → Reader B) {a : A} {w : List ℕ} {b : B}
      → r ≡ ok a
      → Decodes (f a) w b
      → Decodes (lift r >>= f) w b
  unfolding lift ◌>>=◌ continue_with
  lift-Decodes f e h = record { run = λ rest. rw e (ground (arith, h.run rest)) }

module _ where
  read_full-clean : (k : ℕ) (s : List ℕ) → (read_full k s).0 ≡ err eof → s ≡ []
  unfolding read_full
  read_full-clean k [] e = refl
  read_full-clean k (b ∷ s) e = ground arith

  pub read_full-IsReader : (k : ℕ) → IsReader (read_full k)
  unfolding read_full
  read_full-IsReader k = record {
    counted = λ s. ground (arith, length-drop k s);
    clean = read_full-clean k;
    no_panic = λ s e. ground arith;
  }

  pub read_full-Decodes : (bs : List ℕ) → Decodes (read_full (length bs)) bs bs
  unfolding read_full
  read_full-Decodes bs = record {
    run = λ rest.
        ground
          (arith, length-append bs rest, take-append_length bs rest, drop-append_length bs rest);
  }

  pub read_uint-IsReader : (w : ℕ) → IsReader (read_uint w)
  unfolding read_uint
  read_uint-IsReader w = >>=-IsReader (read_full-IsReader w) (λ bs. pure-IsInner (get_uint bs))

  pub read_uint-Decodes : (w n : ℕ) → n < 256 ^ w → Decodes (read_uint w) (put_uint w n) n
  unfolding read_uint ◌>>=◌ continue_with pure
  read_uint-Decodes w n h = record {
    run = λ rest. ground (
      arith,
      rw (length-put_uint w n) at ((read_full-Decodes (put_uint w n)).run rest),
      length-put_uint w n,
      get_uint-put_uint w n h,
    );
  }

module _ {A : Type 0} where
  pub read_list-IsInner : (n : ℕ) {r : Reader A} → IsReader r → IsInner (read_list n r)
  unfolding read_list
  read_list-IsInner zero h = pure-IsInner []
  read_list-IsInner (suc n) {r} h =
      >>=-IsInner (mid-IsInner h)
        (λ x. >>=-IsInner (read_list-IsInner n h) (λ xs. pure-IsInner (x ∷ xs)))

  -- `g x` is what is read back of `x`.
  pub read_list-Decodes :
      (r : Reader A) (f : A → List ℕ) (g : A → A) (P : A → Type 0) (xs : List A)
      → ((x : A) → P x → Decodes r (f x) (g x))
      → All P xs
      → Decodes (read_list (length xs) r) (write_list f xs) (map g xs)
  unfolding read_list write_list
  read_list-Decodes r f g P [] d h = pure-Decodes []
  read_list-Decodes r f g P (x ∷ xs) d h =
      >>=-Decodes _ (mid-Decodes (d x h.0)) (last-Decodes _ (read_list-Decodes r f g P xs d h.1))

  pub read_times-Decodes :
      (r : Reader A) (f : A → List ℕ) (P : A → Type 0) (xs : List A)
      → ((x : A) → P x → Decodes r (f x) x)
      → All P xs
      → Decodes (read_times (length xs) r) (write_list f xs) xs
  unfolding read_times write_list
  read_times-Decodes r f P [] d h = pure-Decodes []
  read_times-Decodes r f P (x ∷ xs) d h =
      >>=-Decodes _ (d x h.0) (last-Decodes _ (read_times-Decodes r f P xs d h.1))

  pub measure-Decodes :
      {m : Reader A} {w : List ℕ} {a : A} → Decodes m w a → Decodes (measure m) w (a, length w)
  unfolding measure
  measure-Decodes h = record { run = λ rest. rw (h.run rest) refl }

-- A reader of which only the counting is known, whatever its errors.
module _ {A : Type 0} where
  pub record IsMeasured (m : Reader A) : Type 0 where
    pub measured : IsCounted m

  pub pure-IsMeasured : (a : A) → IsMeasured (pure a)
  unfolding pure
  pure-IsMeasured a = record { measured = λ s. omega arith }

  pub lift-IsMeasured : (r : Result A) → IsMeasured (lift r)
  unfolding lift
  lift-IsMeasured r = record { measured = λ s. omega arith }

module _ {A B : Type 0} where
  pub >>=-IsMeasured :
      {m : Reader A} {f : A → Reader B}
      → IsMeasured m
      → ((a : A) → IsMeasured (f a))
      → IsMeasured (m >>= f)
  unfolding ◌>>=◌
  >>=-IsMeasured {m} {f} h hf = record {
    measured = λ s. continue_counted (m s) f (length s) (h.measured s) (λ a. (hf a).measured);
  }

module _ where
  pub read_full-IsMeasured : (k : ℕ) → IsMeasured (read_full k)
  read_full-IsMeasured k = record { measured = (read_full-IsReader k).counted }

  pub read_uint-IsMeasured : (w : ℕ) → IsMeasured (read_uint w)
  read_uint-IsMeasured w = record { measured = (read_uint-IsReader w).counted }

  pub ruleset measuring =
      (>>=-IsMeasured, pure-IsMeasured, lift-IsMeasured, read_full-IsMeasured, read_uint-IsMeasured)
