-- ===== src/Base/Calls.antt =====
-- A Python call: it reads and changes a state, and returns or raises. What was changed before a
-- raise stays changed.
use mathlib.Core.Bool.{Bool, true, false}
use Prim.Native.String.{String}

-- `AdapterExecutionError` (errors.py), and any other exception, each with its text.
pub data Exc : Type 0 where
  adapter_execution_error : String → Exc
  exception : String → Exc

pub data Result {ℓ} (A : Type ℓ) : Type ℓ where
  ok : A → Result A
  raise : Exc → Result A

-- `str(exc)`
abbrev pub exc_text : Exc → String
exc_text (adapter_execution_error s) = s
exc_text (exception s) = s

abbrev pub Call : Type 0 → Type 0 → Type 0
Call S A = S → Result A × S

infixl 5 ◌>>=◌ ◌>>◌
abbrev pub ◌>>=◌ : {S A B : Type 0} → Call S A → (A → Call S B) → Call S B
◌>>=◌ m f s = let (r, t) = m s in elim r [ ok a ↦ f a t | raise e ↦ (raise e, t) ]

abbrev pub ◌>>◌ : {S A B : Type 0} → Call S A → Call S B → Call S B
m >> k = m >>= λ _. k

abbrev pub pure : {S A : Type 0} → A → Call S A
pure a s = (ok a, s)

abbrev pub fail : {S A : Type 0} → Exc → Call S A
fail e s = (raise e, s)

abbrev pub get_state : {S : Type 0} → Call S S
get_state s = (ok s, s)

abbrev pub modify : {S : Type 0} → (S → S) → Call S (Unit {0})
modify f s = (ok tt, f s)

-- `try: a = m; else: k(a)`, with `except Exception as e: h(e)` around `m` alone.
abbrev pub handle : {S A B : Type 0} → Call S A → (A → Call S B) → (Exc → Call S B) → Call S B
handle m k h s = let (r, t) = m s in elim r [ ok a ↦ k a t | raise e ↦ h e t ]

-- `except AdapterExecutionError as e: h(str(e))`; any other exception goes on.
abbrev pub on_adapter_error : {S B : Type 0} → (String → Call S B) → Exc → Call S B
on_adapter_error h (adapter_execution_error message) = h message
on_adapter_error h (exception message) = fail (exception message)

-- `if b: raise e`
abbrev pub raise_if : {S : Type 0} → Bool → Exc → Call S (Unit {0})
raise_if true e s = (raise e, s)
raise_if false e s = (ok tt, s)

abbrev pub when : {S : Type 0} → Bool → Call S (Unit {0}) → Call S (Unit {0})
when true m s = m s
when false m s = (ok tt, s)
