-- ===== src/Os/Rules.antt =====
-- Rules for sequences: when two continuations agree, and when a property of the machine is kept.
use scalable_server.Prelude.{◌≡◌, refl}
use scalable_server.Os.Monad.{Machine, Res, ret, err, fault, more, M, resume, ◌>>=◌}

module _ {S A B : Type 0} where
  resume-congr :
      (r : Res A × Machine S) (f g : A → M S B)
      → ((a : A) → r.0 ≡ ret a → f a r.1 ≡ g a r.1)
      → resume r f ≡ resume r g
  resume-congr (ret a, w) f g h = h a refl
  resume-congr (err, w) f g h = refl
  resume-congr (fault, w) f g h = refl
  resume-congr (more, w) f g h = refl

  resume-keeps {ℓ} :
      (P : Machine S → Type ℓ) (r : Res A × Machine S) (f : A → M S B)
      → P r.1
      → ((a : A) → r.0 ≡ ret a → P r.1 → P (f a r.1).1)
      → P (resume r f).1
  resume-keeps P (ret a, w) f p h = h a refl p
  resume-keeps P (err, w) f p h = p
  resume-keeps P (fault, w) f p h = p
  resume-keeps P (more, w) f p h = p

  pub >>=-congr :
      (m : M S A) (f g : A → M S B) (w : Machine S)
      → ((a : A) → (m w).0 ≡ ret a → f a (m w).1 ≡ g a (m w).1)
      → (m >>= f) w ≡ (m >>= g) w
  >>=-congr m f g w h = resume-congr (m w) f g h

  pub >>=-keeps {ℓ} :
      (P : Machine S → Type ℓ) (m : M S A) (f : A → M S B) (w : Machine S)
      → P (m w).1
      → ((a : A) → (m w).0 ≡ ret a → P (m w).1 → P (f a (m w).1).1)
      → P ((m >>= f) w).1
  >>=-keeps P m f w p h = resume-keeps P (m w) f p h

  resume-ret : (r : Res A × Machine S) (f : A → M S B) (a : A) → r.0 ≡ ret a → resume r f ≡ f a r.1
  resume-ret (r, w) f a e = rw e

  -- A sequence goes on from a value, and stops at anything else.
  pub >>=-ret :
      (m : M S A) (f : A → M S B) (w : Machine S) (a : A)
      → (m w).0 ≡ ret a
      → (m >>= f) w ≡ f a (m w).1
  >>=-ret m f w a e = resume-ret (m w) f a e

  pub >>=-err :
      (m : M S A) (f : A → M S B) (w : Machine S) → (m w).0 ≡ err → (m >>= f) w ≡ (err, (m w).1)
  >>=-err m f w e = rw (e, resume)

  pub >>=-fault :
      (m : M S A) (f : A → M S B) (w : Machine S) → (m w).0 ≡ fault → (m >>= f) w ≡ (fault, (m w).1)
  >>=-fault m f w e = rw (e, resume)

-- What holds of the value that a function returns, if it returns one.
abbrev pub Yields {ℓ} : {A : Type 0} → (A → Type ℓ) → Res A → Type ℓ
Yields P (ret a) = P a
Yields P err = Unit
Yields P fault = Unit
Yields P more = Unit

pub Yields-ret {ℓ} :
    {A : Type 0} (P : A → Type ℓ) (r : Res A) (a : A) → Yields P r → r ≡ ret a → P a
Yields-ret P r a y e = rw e at y

module _ {S A B : Type 0} where
  resume-Yields {ℓ} :
      (P : B → Type ℓ) (r : Res A × Machine S) (f : A → M S B)
      → ((a : A) (v : Machine S) → Yields P (f a v).0)
      → Yields P (resume r f).0
  resume-Yields P (ret a, w) f h = h a w
  resume-Yields P (err, w) f h = tt
  resume-Yields P (fault, w) f h = tt
  resume-Yields P (more, w) f h = tt

  pub >>=-Yields {ℓ} :
      (P : B → Type ℓ) (m : M S A) (f : A → M S B) (w : Machine S)
      → ((a : A) (v : Machine S) → Yields P (f a v).0)
      → Yields P ((m >>= f) w).0
  >>=-Yields P m f w h = resume-Yields P (m w) f h
