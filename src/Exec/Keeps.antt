-- ===== src/Exec/Keeps.antt =====
-- Properties of the state that an action keeps, always or where it fails, and their rules for bind.
use go_bemu.Base.{◌≡◌, refl, sym, subst, Bool, true, false, if◌then◌else◌}
use go_bemu.Exec.{Exec, Result, ok, err, continue, lift, fail_if, ◌>>=◌}

pub record Keeps {S E A : Type 0} (P : S → Type 0) (m : Exec S E A) : Type 0 where
  pub at : (s : S) → P s → P (m s).1

-- `m` keeps P on the runs that return an error.
pub record KeepsOnError {S E A : Type 0} (P : S → Type 0) (m : Exec S E A) : Type 0 where
  pub at : (s : S) → P s → (x : E) → (m s).0 ≡ err x → P (m s).1

module _ {S E A B : Type 0} {P : S → Type 0} (f : A → Exec S E B) where
  continue-Keeps : ((a : A) → Keeps P (f a)) → (r : Result E A) (s : S) → P s → P (continue r f s).1
  continue-Keeps kf (ok a) s h = (kf a).at s h
  continue-Keeps kf (err e) s h = h

  pub >>=-Keeps : (m : Exec S E A) → Keeps P m → ((a : A) → Keeps P (f a)) → Keeps P (m >>= f)
  >>=-Keeps m km kf = record { at = λ s h. continue-Keeps kf (m s).0 (m s).1 (km.at s h) }

  continue-KeepsOnError :
      ((a : A) → KeepsOnError P (f a))
      → (r : Result E A) (s : S) → P s
      → (x : E) → (continue r f s).0 ≡ err x
      → P (continue r f s).1
  continue-KeepsOnError kf (ok a) s h x e = (kf a).at s h x e
  continue-KeepsOnError kf (err y) s h x e = h

  pub >>=-KeepsOnError :
      (m : Exec S E A) → Keeps P m → ((a : A) → KeepsOnError P (f a)) → KeepsOnError P (m >>= f)
  >>=-KeepsOnError m km kf = record {
    at = λ s h x e. continue-KeepsOnError kf (m s).0 (m s).1 (km.at s h) x e;
  }

-- The state after a bind: it failed in the first part, or went on from there.
module _ {S E A B : Type 0} (Q : S → Type 0) (m : Exec S E A) (f : A → Exec S E B) (s : S) where
  continue-post :
      (r : Result E A) (s' : S)
      → ((x : E) → r ≡ err x → Q s')
      → ((a : A) → r ≡ ok a → Q (f a s').1)
      → Q (continue r f s').1
  continue-post (ok a) s' he ho = ho a refl
  continue-post (err x) s' he ho = he x refl

  pub >>=-post :
      ((x : E) → (m s).0 ≡ err x → Q (m s).1)
      → ((a : A) → (m s).0 ≡ ok a → Q (f a (m s).1).1)
      → Q ((m >>= f) s).1
  >>=-post he ho = continue-post (m s).0 (m s).1 he ho

-- Where the rest cannot fail, an error comes from the first part.
module _ {S E A B : Type 0} (f : A → Exec S E B)
    (total : (a : A) (s : S) (x : E) → ¬ ((f a s).0 ≡ err x)) where
  continue-total :
      (r : Result E A) (s : S) (x : E)
      → (continue r f s).0 ≡ err x
      → (r ≡ err x) × ((continue r f s).1 ≡ s)
  continue-total (ok a) s x h = absurd (total a s x h)
  continue-total (err y) s x h = (cc, refl)

  pub >>=-KeepsOnError_total :
      {P : S → Type 0} (m : Exec S E A) → KeepsOnError P m → KeepsOnError P (m >>= f)
  >>=-KeepsOnError_total {P} m km = record {
    at = λ s h x e.
        let (r, q) = continue-total (m s).0 (m s).1 x e in subst P (sym q) (km.at s h x r);
  }

-- The same, where what the first part returns is known to satisfy R.
module _ {S E A B : Type 0} {P : S → Type 0} (R : A → Type 0) (f : A → Exec S E B) where
  continue-KeepsOnError_with :
      ((a : A) → R a → KeepsOnError P (f a))
      → (r : Result E A) (s : S) → ((a : A) → r ≡ ok a → R a)
      → P s
      → (x : E) → (continue r f s).0 ≡ err x
      → P (continue r f s).1
  continue-KeepsOnError_with kf (ok a) s hr h x e = (kf a (hr a refl)).at s h x e
  continue-KeepsOnError_with kf (err y) s hr h x e = h

  pub >>=-KeepsOnError_with :
      (m : Exec S E A)
      → Keeps P m
      → ((s : S) (a : A) → (m s).0 ≡ ok a → R a)
      → ((a : A) → R a → KeepsOnError P (f a))
      → KeepsOnError P (m >>= f)
  >>=-KeepsOnError_with m km hr kf = record {
    at = λ s h x e. continue-KeepsOnError_with kf (m s).0 (m s).1 (hr s) (km.at s h) x e;
  }

module _ {S E A : Type 0} {P : S → Type 0} (m n : Exec S E A) where
  pub Keeps-if : (b : Bool) → Keeps P m → Keeps P n → Keeps P (λ s. if b then m s else n s)
  Keeps-if true km kn = record { at = km.at }
  Keeps-if false km kn = record { at = kn.at }

  pub KeepsOnError-if :
      (b : Bool)
      → KeepsOnError P m
      → KeepsOnError P n
      → KeepsOnError P (λ s. if b then m s else n s)
  KeepsOnError-if true km kn = record { at = km.at }
  KeepsOnError-if false km kn = record { at = kn.at }

module _ {S E : Type 0} {P : S → Type 0} where
  pub Keeps-lift : {A : Type 0} (r : Result E A) → Keeps P (lift r)
  Keeps-lift r = record { at = λ s h. h }

  pub Keeps-fail_if : (b : Bool) (e : E) → Keeps P (fail_if b e)
  Keeps-fail_if true e = record { at = λ s h. h }
  Keeps-fail_if false e = record { at = λ s h. h }
