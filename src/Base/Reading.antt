-- ===== src/Base/Reading.antt =====
-- Calls that leave the state alone, whether they return or raise, joined the way calls are joined.
use autonomous_vehicle_llm.Base.Calls.{
  Exc, Result, ok, raise, Call, ◌>>=◌, ◌>>◌, pure, fail, raise_if, when,
}
use autonomous_vehicle_llm.Base.Post.{Post, bind-keeps}
use autonomous_vehicle_llm.Base.Kept.{Kept}
use autonomous_vehicle_llm.Base.Tests.{if◌then◌else◌}
use mathlib.Core.Path.{◌≡◌, refl, sym, ◌∙◌, ap, subst}
use mathlib.Core.Bool.{Bool, true, false}

pub record Reading {S A : Type 0} (m : Call S A) : Type 0 where
  pub at : (s : S) → (m s).1 ≡ s

module _ {S A : Type 0} where
  pub if-Reading :
      (b : Bool) {m k : Call S A} → Reading m → Reading k → Reading (if b then m else k)
  if-Reading true r q = r
  if-Reading false r q = q

  pub pure-Reading : (a : A) → Reading {S = S} (pure a)
  pure-Reading a = record { at = λ s. refl }

  pub fail-Reading : (e : Exc) → Reading {S = S} {A = A} (fail e)
  fail-Reading e = record { at = λ s. refl }

module _ {S : Type 0} where
  pub raise_if-Reading : (b : Bool) (e : Exc) → Reading {S = S} (raise_if b e)
  raise_if-Reading true e = record { at = λ s. refl }
  raise_if-Reading false e = record { at = λ s. refl }

  pub when-Reading : (b : Bool) {m : Call S (Unit {0})} → Reading m → Reading (when b m)
  when-Reading true r = record { at = r.at }
  when-Reading false r = record { at = λ s. refl }

module _ {S A B : Type 0} where
  pub bind-Reading :
      {m : Call S A} {f : A → Call S B} → Reading m → ((a : A) → Reading (f a)) → Reading (m >>= f)
  bind-Reading {m} {f} r k = record {
    at = λ s. bind-keeps (λ t. t ≡ s) m f s (r.at s) (λ a t e. (k a).at t ∙ e);
  }

  pub then-Reading : {m : Call S A} {k : Call S B} → Reading m → Reading k → Reading (m >> k)
  then-Reading r k = bind-Reading r (λ a. k)

  -- After a call that leaves the state alone, what follows starts where the call started.
  pub Post-observe :
      (Q : B → S → Type 0) (m : Call S A) (f : A → Call S B) (s : S)
      → Reading m
      → ((a : A) → m s ≡ (ok a, s) → Post Q (λ e t. t ≡ s) (f a s))
      → Post Q (λ e t. t ≡ s) ((m >>= f) s)
  Post-observe Q m f s r k = from (m s) refl (r.at s)
    where
      from :
          (x : Result A × S) → m s ≡ x → x.1 ≡ s → Post Q (λ e t. t ≡ s) (((λ (u : S). x) >>= f) s)
      from (ok a, t) h e =
          subst (λ u. Post Q (λ e t. t ≡ s) (f a u)) (sym e) (k a (h ∙ ap (λ u. (ok a, u)) e))
      from (raise x, t) h e = e

  pub reading-keeps :
      (P : S → Type 0) (m : Call S A) (f : A → Call S B) (s : S)
      → Reading m
      → P s
      → ((a : A) → m s ≡ (ok a, s) → P (f a s).1)
      → P ((m >>= f) s).1
  reading-keeps P m f s r p k = from (m s) refl (r.at s)
    where
      from : (x : Result A × S) → m s ≡ x → x.1 ≡ s → P (((λ (u : S). x) >>= f) s).1
      from (ok a, t) h e = subst (λ u. P (f a u).1) (sym e) (k a (h ∙ ap (λ u. (ok a, u)) e))
      from (raise x, t) h e = subst P (sym e) p

module _ {S A : Type 0} {P : S → Type 0} where
  pub Reading-Kept : {m : Call S A} → Reading m → Kept P m
  Reading-Kept r = record { at = λ s h. subst P (sym (r.at s)) h }
