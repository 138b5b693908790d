-- ===== src/Base/Kept.antt =====
-- Calls that keep what the state they start in satisfies, joined the way calls are joined.
use autonomous_vehicle_llm.Base.Calls.{
  Exc, Call, ◌>>=◌, ◌>>◌, pure, fail, modify, handle, raise_if, when, on_adapter_error,
  adapter_execution_error, exception,
}
use autonomous_vehicle_llm.Base.Post.{bind-keeps, handle-keeps, raise_if-keeps}
use mathlib.Core.Bool.{Bool, true, false}
use Prim.Native.String.{String}

pub record Kept {S A : Type 0} (P : S → Type 0) (m : Call S A) : Type 0 where
  pub at : (s : S) → P s → P (m s).1

module _ {S A : Type 0} {P : S → Type 0} where
  pub pure-Kept : (a : A) → Kept P (pure a)
  pure-Kept a = record { at = λ s h. h }

  pub fail-Kept : (e : Exc) → Kept P (fail {A = A} e)
  fail-Kept e = record { at = λ s h. h }

module _ {S : Type 0} {P : S → Type 0} where
  pub modify-Kept : (f : S → S) → ((s : S) → P s → P (f s)) → Kept P (modify f)
  modify-Kept f h = record { at = h }

  pub raise_if-Kept : (b : Bool) (e : Exc) → Kept P (raise_if b e)
  raise_if-Kept b e = record { at = raise_if-keeps P b e }

  pub when-Kept : (b : Bool) {m : Call S (Unit {0})} → Kept P m → Kept P (when b m)
  when-Kept true k = record { at = k.at }
  when-Kept false k = record { at = λ s h. h }

module _ {S A B : Type 0} {P : S → Type 0} where
  pub bind-Kept :
      {m : Call S A} {f : A → Call S B} → Kept P m → ((a : A) → Kept P (f a)) → Kept P (m >>= f)
  bind-Kept {m} {f} p k = record { at = λ s h. bind-keeps P m f s (p.at s h) (λ a t. (k a).at t) }

  pub then-Kept : {m : Call S A} {k : Call S B} → Kept P m → Kept P k → Kept P (m >> k)
  then-Kept {m} {k} p q = record {
    at = λ s h. bind-keeps P m (λ _. k) s (p.at s h) (λ a t. q.at t);
  }

  pub handle-Kept :
      {m : Call S A} {k : A → Call S B} {g : Exc → Call S B}
      → Kept P m
      → ((a : A) → Kept P (k a))
      → ((e : Exc) → Kept P (g e))
      → Kept P (handle m k g)
  handle-Kept {m} {k} {g} p q r = record {
    at = λ s h. handle-keeps P m k g s (p.at s h) (λ a t. (q a).at t) (λ e t. (r e).at t);
  }

module _ {S B : Type 0} {P : S → Type 0} where
  pub on_adapter_error-Kept :
      {h : String → Call S B}
      → ((message : String) → Kept P (h message))
      → (e : Exc) → Kept P (on_adapter_error h e)
  on_adapter_error-Kept k (adapter_execution_error message) = record { at = (k message).at }
  on_adapter_error-Kept k (exception message) = record { at = λ s h. h }
