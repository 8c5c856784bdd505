-- ===== src/HttpApi/Server/Keeps.antt =====
-- Rules for what every step of a handler preserves.
use mist_ui.HttpApi.Server.{Outcome, return, value, Response, M, ◌>>=◌, or_exit, final}
use mist_ui.Base.{◌≡◌, refl, Result, ok, err}

abbrev pub Keeps : {S A : Type 0} → (S → Type 0) → (S → A × S) → Type 0
Keeps {S} P m = (s : S) → P s → P (m s).1

module _ {S : Type 0} (P : S → Type 0) where
  bind_outcome :
      {A B : Type 0} (f : A → M S B) (o : Outcome A) (t : S)
      → ((a : A) → Keeps P (f a))
      → P t
      → P (◌>>=◌ (λ _. (o, t)) f t).1
  bind_outcome f (return r) t keep p = p
  bind_outcome f (value a) t keep p = keep a t p

  pub Keeps-bind :
      {A B : Type 0} (m : M S A) (f : A → M S B)
      → Keeps P m
      → ((a : A) → Keeps P (f a))
      → Keeps P (m >>= f)
  Keeps-bind m f h keep s p = bind_outcome f (m s).0 (m s).1 keep (h s p)

  -- A step that goes on only with a result lets the rest know that result.
  pub Keeps-or_exit :
      {A B : Type 0} (x : Result A) (r : Response) (f : A → M S B)
      → ((a : A) → x ≡ ok a → Keeps P (f a))
      → Keeps P (or_exit x r >>= f)
  Keeps-or_exit (ok a) r f keep s p = keep a refl s p
  Keeps-or_exit (err e) r f keep s p = p

  final_outcome : (o : Outcome Response) (t : S) → P t → P (final (o, t)).1
  final_outcome (return r) t p = p
  final_outcome (value r) t p = p

  pub Keeps-final : (m : M S Response) → Keeps P m → Keeps P (λ s. final (m s))
  Keeps-final m h s p = final_outcome (m s).0 (m s).1 (h s p)
