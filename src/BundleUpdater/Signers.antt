-- ===== src/BundleUpdater/Signers.antt =====
-- The signers of an applied bundle, the gate that a global one has passed, and what a canary leaves
-- alone (src/autonomy/bundle_updater.py).
use autonomous_vehicle_llm.Base.{
  ℕ, ◌≤◌, String, true, false, ◌≡◌, refl, sym, ap, subst, Option, none, some, List, [], ◌∷◌, ◌++◌,
  arith, Bool-cases, contains, length, ok, raise, Result, ◌>>=◌, ◌⊎◌, inl, inr, string_eq, eq_iff,
  ◌==◌, ◌||◌,
}
use autonomous_vehicle_llm.Base.Post.{bind-Returned}
use autonomous_vehicle_llm.Text.{TextOps}
use autonomous_vehicle_llm.Json.{Value, Fields, null, bool, int, float, str, arr, obj, get, as_obj}
use autonomous_vehicle_llm.Values.{ValueOps}
use autonomous_vehicle_llm.Transport.{Verdict, valid}
use autonomous_vehicle_llm.BundleUpdater.{UpdaterOutside, or_end, obj_at}
use autonomous_vehicle_llm.BundleUpdater.Quorum.{
  SignatureCheck, signature_check, count_verdict, count_check, count_signatures, keys_or_raise,
  require_quorum, verify_signatures, signed_content,
}
use autonomous_vehicle_llm.BundleUpdater.Apply.{Bundle}

-- No text occurs twice.
abbrev pub AllDiffer : List String → Type 0
AllDiffer [] = Unit
AllDiffer (s ∷ ss) = (contains ss s ≡ false) × AllDiffer ss

contains-append :
    (ss : List String) (t u : String) → contains (ss ++ (t ∷ [])) u ≡ (contains ss u || t == u)
contains-append [] t u = ground arith
contains-append (s ∷ ss) t u = ground (arith, contains-append ss t u)

AllDiffer-append :
    (ss : List String) (t : String)
    → contains ss t ≡ false
    → AllDiffer ss
    → AllDiffer (ss ++ (t ∷ []))
AllDiffer-append [] t h a = (refl, tt)
AllDiffer-append (s ∷ ss) t h a = (
  rw contains-append (ground (arith, h, a.0, eq_iff s t, eq_iff t s)),
  AllDiffer-append ss t (ground (arith, h)) a.1,
)

abbrev kids_of : {S : Type 0} → List String → Result (List String) × S → List String
kids_of first (ok kids, s) = kids
kids_of first (raise e, s) = first

module _ {F K : Type 0} ⦃tx : TextOps⦄ ⦃vo : ValueOps F⦄ (out : UpdaterOutside F K) where
  -- One of the signatures is by the key of that name, and is valid for the text.
  pub IsSignedBy : Fields F → String → List (Fields F) → String → Type 0
  IsSignedBy keys canonical [] kid = ⊥
  IsSignedBy keys canonical (signature ∷ signatures) kid =
      ((c : SignatureCheck) × (signature_check keys signature ≡ some c)
        × (c.kid ≡ kid)
        × (out.verify c.public_key_b64 c.sig_value canonical ≡ valid))
      ⊎ IsSignedBy keys canonical signatures kid

  -- Names of different keys, each of which has signed the text, or is among the first ones.
  record Counted (keys : Fields F) (canonical : String) (first : List String)
      (signatures : List (Fields F)) (kids : List String) : Type 0 where
    differ : AllDiffer kids
    signers :
        (kid : String)
        → contains kids kid ≡ true
        → (contains first kid ≡ true) ⊎ IsSignedBy keys canonical signatures kid

  -- What one signature does to the names: nothing, or a valid signature by a new key adds it.
  record Adds (canonical : String) (first : List String) (o : Option SignatureCheck)
      (kids : List String) : Type 0 where
    check : SignatureCheck
    given : o ≡ some check
    new : contains first check.kid ≡ false
    verified : out.verify check.public_key_b64 check.sig_value canonical ≡ valid
    added : kids ≡ first ++ (check.kid ∷ [])

  count_verdict-cases :
      {S : Type 0} (canonical : String) (first : List String) (c : SignatureCheck) (v : Verdict)
      (s t : S) (kids : List String)
      → out.verify c.public_key_b64 c.sig_value canonical ≡ v
      → contains first c.kid ≡ false
      → count_verdict out first c.kid v s ≡ (ok kids, t)
      → (kids ≡ first) ⊎ Adds canonical first (some c) kids
  count_verdict-cases canonical first c valid s t kids e new h = inr record {
    check = c;
    given = refl;
    new = new;
    verified = e;
    added = ap (kids_of first) (sym h);
  }
  count_verdict-cases canonical first c Verdict.invalid s t kids e new h =
      inl (ap (kids_of first) (sym h))
  count_verdict-cases canonical first c (Verdict.other x) s t kids e new h =
      absurd (ground (arith, h))

  count_check-cases :
      {S : Type 0} (canonical : String) (first : List String) (o : Option SignatureCheck) (s t : S)
      (kids : List String)
      → count_check out canonical first o s ≡ (ok kids, t)
      → (kids ≡ first) ⊎ Adds canonical first o kids
  count_check-cases canonical first none s t kids h = inl (ap (kids_of first) (sym h))
  count_check-cases canonical first (some c) s t kids h = elim (Bool-cases (contains first c.kid)) [
    | inl e ↦ inl (ap (kids_of first) (sym (rw (e, count_check) at h)))
    | inr e ↦
        count_verdict-cases canonical first c (out.verify c.public_key_b64 c.sig_value canonical) s
          t kids refl e (rw (e, count_check) at h)
  ]

  count_signatures-Counted :
      {S : Type 0} (keys : Fields F) (canonical : String) (first : List String)
      (signatures : List (Fields F)) (s t : S) (kids : List String)
      → AllDiffer first
      → count_signatures out keys canonical first signatures s ≡ (ok kids, t)
      → Counted keys canonical first signatures kids
  unfolding count_signatures IsSignedBy
  count_signatures-Counted keys canonical first [] s t kids a h =
      let same : first ≡ kids = ap (kids_of first) h in
      record {
        differ = subst AllDiffer same a;
        signers = λ kid e. inl (subst (λ ks. contains ks kid ≡ true) (sym same) e);
      }
  count_signatures-Counted keys canonical first (signature ∷ signatures) s t kids a h =
      let r =
        bind-Returned (count_check out canonical first (signature_check keys signature))
          (λ ks. count_signatures out keys canonical ks signatures) s kids t h in
      elim (count_check-cases canonical first (signature_check keys signature) s r.between r.value
        r.first) [
          | inl same ↦
              let k =
                count_signatures-Counted keys canonical r.value signatures r.between t kids
                  (subst AllDiffer (sym same) a) r.rest in
              record {
                differ = k.differ;
                signers = λ kid e. elim (k.signers kid e) [
                  | inl f ↦ inl (subst (λ ks. contains ks kid ≡ true) same f)
                  | inr w ↦ inr (inr w)
                ];
              }
          | inr x ↦
              let k =
                count_signatures-Counted keys canonical r.value signatures r.between t kids
                  (subst AllDiffer (sym x.added) (AllDiffer-append first x.check.kid x.new a))
                  r.rest in
              record {
                differ = k.differ;
                signers = λ kid e. elim (k.signers kid e) [
                  | inl f ↦ elim (Bool-cases (contains first kid)) [
                    | inl g ↦ inl g
                    | inr g ↦ inr (
                        inl (
                          x.check,
                          x.given,
                          (eq_iff x.check.kid kid).0 (
                              ground (
                                arith,
                                g,
                                contains-append first x.check.kid kid,
                                subst (λ ks. contains ks kid ≡ true) x.added f,
                              )),
                          x.verified,
                        ))
                  ]
                  | inr w ↦ inr (inr w)
                ];
              }
        ]

  -- At least `n` different keys of the trust store have signed the metadata and the payload.
  pub record Quorum (b : Bundle F) (trust_store : Fields F) (n : ℕ) : Type 0 where
    pub kids : List String
    pub differ : AllDiffer kids
    pub enough : n ≤ length kids
    pub signers :
        (kid : String)
        → contains kids kid ≡ true
        → IsSignedBy
            (obj_at "keys" trust_store)
            (signed_content b.metadata b.payload)
            b.signatures
            kid

  keys_or_raise-eq :
      {S : Type 0} (trust_store keys : Fields F) (s t : S)
      → keys_or_raise (get "keys" trust_store) s ≡ (ok keys, t)
      → obj_at "keys" trust_store ≡ keys
  keys_or_raise-eq trust_store keys s t h = at (get "keys" trust_store) h
    where
      at : (o : Option (Value F)) → keys_or_raise o s ≡ (ok keys, t) → or_end (as_obj o) ≡ keys
      at none e = ground (arith, e)
      at (some (obj d)) e = ground (arith, e)
      at (some null) e = absurd (ground (arith, e))
      at (some (bool b)) e = absurd (ground (arith, e))
      at (some (int n)) e = absurd (ground (arith, e))
      at (some (float x)) e = absurd (ground (arith, e))
      at (some (str u)) e = absurd (ground (arith, e))
      at (some (arr vs)) e = absurd (ground (arith, e))

  pub verify_signatures-Quorum :
      {S : Type 0} (b : Bundle F) (trust_store : Fields F) (n : ℕ) (u : Unit {0}) (s t : S)
      → verify_signatures out b.metadata b.payload b.signatures trust_store n s ≡ (ok u, t)
      → Quorum b trust_store n
  unfolding verify_signatures
  verify_signatures-Quorum b trust_store n u s t h =
      let canonical = signed_content b.metadata b.payload in
      let r =
        bind-Returned (keys_or_raise (get "keys" trust_store))
          (λ keys. count_signatures out keys canonical [] b.signatures >>= require_quorum n) s u t
          h in
      let q =
        bind-Returned (count_signatures out r.value canonical [] b.signatures) (require_quorum n)
          r.between u t r.rest in
      let k =
        count_signatures-Counted r.value canonical [] b.signatures r.between q.between q.value tt
          q.first in
      record {
        kids = q.value;
        differ = k.differ;
        enough = ground (arith, q.rest);
        signers = λ kid e. elim (k.signers kid e) [
          | inl f ↦ absurd (ground (arith, f))
          | inr w ↦
              subst (λ keys. IsSignedBy keys canonical b.signatures kid)
                (sym (keys_or_raise-eq trust_store r.value s r.between r.first)) w
        ];
      }
