-- ===== src/Base/Post.antt =====
-- Postconditions of calls, with a rule for each way in which calls are joined; and the parts of a
-- call that returned.
use autonomous_vehicle_llm.Base.Calls.{Exc, Result, ok, raise, Call, ◌>>=◌, handle, raise_if}
use mathlib.Core.Bool.{Bool, true, false}
use mathlib.Core.Path.{◌≡◌, refl, ap, sym, subst}
use native.Mathlib.Omega.{arith}

module _ {S A : Type 0} where
  -- `Q` holds of what the call returned, `E` of the state in which it raised.
  abbrev pub Post : (A → S → Type 0) → (Exc → S → Type 0) → Result A × S → Type 0
  Post Q E (ok a, s) = Q a s
  Post Q E (raise e, s) = E e s

  pub Post-mono :
      (Q R : A → S → Type 0) (E D : Exc → S → Type 0) (r : Result A × S)
      → ((a : A) (s : S) → Q a s → R a s)
      → ((e : Exc) (s : S) → E e s → D e s)
      → Post Q E r
      → Post R D r
  Post-mono Q R E D (ok a, s) f g p = f a s p
  Post-mono Q R E D (raise e, s) f g p = g e s p

  -- What holds after a call holds together with what the call did.
  pub Post-outcome :
      (Q : A → S → Type 0) (E : Exc → S → Type 0) (r : Result A × S)
      → Post Q E r
      → Post (λ a s. Q a s × (r ≡ (ok a, s))) E r
  Post-outcome Q E (ok a, s) p = (p, refl)
  Post-outcome Q E (raise e, s) p = p

module _ {S A B : Type 0} where
  bind_at :
      (Q : A → S → Type 0) (R : B → S → Type 0) (E : Exc → S → Type 0) (r : Result A × S)
      (f : A → Call S B)
      → Post Q E r
      → ((a : A) (t : S) → Q a t → Post R E (f a t))
      → Post R E (((λ s. r) >>= f) r.1)
  bind_at Q R E (ok a, s) f p k = k a s p
  bind_at Q R E (raise e, s) f p k = p

  pub Post-bind :
      (Q : A → S → Type 0) (R : B → S → Type 0) (E : Exc → S → Type 0) (m : Call S A)
      (f : A → Call S B) (s : S)
      → Post Q E (m s)
      → ((a : A) (t : S) → Q a t → Post R E (f a t))
      → Post R E ((m >>= f) s)
  Post-bind Q R E m f s p k = bind_at Q R E (m s) f p k

  handle_at :
      (Q : A → S → Type 0) (R : B → S → Type 0) (D E : Exc → S → Type 0) (r : Result A × S)
      (k : A → Call S B) (h : Exc → Call S B)
      → Post Q D r
      → ((a : A) (t : S) → Q a t → Post R E (k a t))
      → ((e : Exc) (t : S) → D e t → Post R E (h e t))
      → Post R E (handle (λ s. r) k h r.1)
  handle_at Q R D E (ok a, s) k h p f g = f a s p
  handle_at Q R D E (raise e, s) k h p f g = g e s p

  pub Post-handle :
      (Q : A → S → Type 0) (R : B → S → Type 0) (D E : Exc → S → Type 0) (m : Call S A)
      (k : A → Call S B) (h : Exc → Call S B) (s : S)
      → Post Q D (m s)
      → ((a : A) (t : S) → Q a t → Post R E (k a t))
      → ((e : Exc) (t : S) → D e t → Post R E (h e t))
      → Post R E (handle m k h s)
  Post-handle Q R D E m k h s p f g = handle_at Q R D E (m s) k h p f g

  -- A call, then what follows it; its own raises must meet what is said of the whole.
  pub Post-then :
      (Q : A → S → Type 0) (R : B → S → Type 0) (D E : Exc → S → Type 0) (m : Call S A)
      (f : A → Call S B) (s : S)
      → Post Q D (m s)
      → ((a : A) (t : S) → Q a t → Post R E (f a t))
      → ((e : Exc) (t : S) → D e t → E e t)
      → Post R E ((m >>= f) s)
  Post-then Q R D E m f s p k g = handle_at Q R D E (m s) f (λ e t. (raise e, t)) p k g

-- A call keeps what the state it starts in satisfies.
pub bind-keeps :
    {S A B : Type 0} (P : S → Type 0) (m : Call S A) (f : A → Call S B) (s : S)
    → P (m s).1
    → ((a : A) (t : S) → P t → P (f a t).1)
    → P ((m >>= f) s).1
bind-keeps {S} {A} {B} P m f s p k = at (m s) p
  where
    at : (r : Result A × S) → P r.1 → P (((λ t. r) >>= f) s).1
    at (ok a, t) q = k a t q
    at (raise e, t) q = q

pub handle-keeps :
    {S A B : Type 0} (P : S → Type 0) (m : Call S A) (k : A → Call S B) (h : Exc → Call S B) (s : S)
    → P (m s).1
    → ((a : A) (t : S) → P t → P (k a t).1)
    → ((e : Exc) (t : S) → P t → P (h e t).1)
    → P (handle m k h s).1
handle-keeps {S} {A} {B} P m k h s p f g = at (m s) p
  where
    at : (r : Result A × S) → P r.1 → P (handle (λ t. r) k h s).1
    at (ok a, t) q = f a t q
    at (raise e, t) q = g e t q

pub raise_if-keeps :
    {S : Type 0} (P : S → Type 0) (b : Bool) (e : Exc) (s : S) → P s → P (raise_if b e s).1
raise_if-keeps P true e s p = p
raise_if-keeps P false e s p = p

module _ {S A B : Type 0} where
  pub record Returned (m : Call S A) (f : A → Call S B) (s : S) (b : B) (t : S) : Type 0 where
    pub value : A
    pub between : S
    pub first : m s ≡ (ok value, between)
    pub rest : f value between ≡ (ok b, t)

  -- After a call that returned comes what follows it.
  pub bind_after :
      (m : Call S A) (f : A → Call S B) (s : S) (a : A) (t : S)
      → m s ≡ (ok a, t)
      → (m >>= f) s ≡ f a t
  bind_after m f s a t h = ap (λ r. ((λ (u : S). r) >>= f) s) h

  pub Post-after :
      (Q : B → S → Type 0) (E : Exc → S → Type 0) (m : Call S A) (f : A → Call S B) (s : S) (a : A)
      (t : S)
      → m s ≡ (ok a, t)
      → Post Q E (f a t)
      → Post Q E ((m >>= f) s)
  Post-after Q E m f s a t h p = subst (Post Q E) (sym (bind_after m f s a t h)) p

  pub bind-Returned :
      (m : Call S A) (f : A → Call S B) (s : S) (b : B) (t : S)
      → (m >>= f) s ≡ (ok b, t)
      → Returned m f s b t
  bind-Returned m f s b t h = at (m s) refl h
    where
      at : (r : Result A × S) → m s ≡ r → ((λ u. r) >>= f) s ≡ (ok b, t) → Returned m f s b t
      at (ok a, u) e h = record { value = a; between = u; first = e; rest = h }
      at (raise x, u) e h = absurd (ground (arith, h))

module _ {S : Type 0} where
  pub Post-any : {A : Type 0} (r : Result A × S) → Post (λ x t. Unit) (λ e t. Unit) r
  Post-any (ok x, t) = tt
  Post-any (raise e, t) = tt

  -- After a call of which nothing is known.
  pub after_any :
      {A B : Type 0} (Q : B → S → Type 0) (m : Call S A) (f : A → Call S B) (s : S)
      → ((a : A) (t : S) → Post Q (λ e t. Unit) (f a t))
      → Post Q (λ e t. Unit) ((m >>= f) s)
  after_any Q m f s k =
      Post-bind (λ x t. Unit) Q (λ e t. Unit) m f s (Post-any (m s)) (λ a t u. k a t)
