-- ===== src/ApprovalAudit/Chain.antt =====
-- What it is for lines to be a chain of sealed entries, against the loop of
-- src/autonomy/approval_audit.py that checks them.
use autonomous_vehicle_llm.Base.{
  ℕ, ◌+◌, suc, String, true, false, ◌≡◌, ◌↔◌, refl, Option, none, some, List, [], ◌∷◌, string_eq,
  eq_iff, eq_refl, arith, ◌>>=◌, pure, fail, exception, ok, Bool-cases, inl, inr, sym, ◌∙◌, ap, Exc,
  subst,
}
use autonomous_vehicle_llm.Base.Post.{bind-Returned, bind_after}
use autonomous_vehicle_llm.Text.{TextOps}
use autonomous_vehicle_llm.Json.{Value, Fields, str, obj, null, bool, int, float, arr}
use autonomous_vehicle_llm.Values.{ValueOps, text_at}
use autonomous_vehicle_llm.ApprovalAudit.{
  AuditOutside, ApprovalConfig, record_hash, unsigned, seal_record, with_hash, is_ascii, is_blank,
  check_entry, check_line, load, verify_lines, verify_file, verified, verify_chain, entry_or_raise,
  mismatch, ApprovalAudit, Verified,
}

module _ {F K : Type 0} ⦃tx : TextOps⦄ ⦃vo : ValueOps F⦄ (out : AuditOutside F K)
    (config : ApprovalConfig K) where
  -- An entry that follows the hash `p`, with its own hash `q`.
  pub record IsEntry (p : String) (d : Fields F) (q : String) : Type 0 where
    pub follows : text_at "prev_hash" d ≡ p
    pub named : text_at "record_hash" d ≡ q
    pub hashed : q ≡ record_hash out config (unsigned d)
    pub sealed : text_at "seal" d ≡ seal_record out config (with_hash q (unsigned d))
    pub seal_ascii : is_ascii (text_at "seal" d) ≡ true

  -- Lines that go on from the hash `p` with `n` entries, the last with the hash `q`.
  pub data IsLinked : String → List String → ℕ → String → Type 0 where
    done : (p : String) → IsLinked p [] 0 p
    blank :
        (p line q : String) (lines : List String) (n : ℕ)
        → is_blank line ≡ true
        → IsLinked p lines n q
        → IsLinked p (line ∷ lines) n q
    entry :
        (p line h q : String) (d : Fields F) (lines : List String) (n : ℕ)
        → is_blank line ≡ false
        → vo.loads line ≡ some (obj d)
        → IsEntry p d h
        → IsLinked h lines n q
        → IsLinked p (line ∷ lines) (suc n) q

  check_entry-IsEntry :
      {S : Type 0} (p q : String) (d : Fields F) (s : S)
      → IsEntry p d q
      → check_entry out config p d s ≡ (ok q, s)
  unfolding check_entry
  check_entry-IsEntry p q d s e =
      rw
        (
          e.follows,
          e.named,
          ← e.hashed,
          ← e.sealed,
          e.seal_ascii,
          eq_refl p,
          eq_refl q,
          eq_refl (text_at "seal" d),
        )
        refl

  IsEntry-of_check :
      {S : Type 0} (p q : String) (d : Fields F) (s t : S)
      → check_entry out config p d s ≡ (ok q, t)
      → IsEntry p d q
  unfolding check_entry
  IsEntry-of_check p q d s t h = record {
    follows = ground (arith, h, eq_iff (text_at "prev_hash" d) p);
    named = ground (arith, h);
    hashed =
        ground (arith, h, eq_iff (text_at "record_hash" d) (record_hash out config (unsigned d)));
    sealed =
        let named : text_at "record_hash" d ≡ q = ground (arith, h) in
        rw (← named) (
          ground (
            arith,
            h,
            eq_iff (text_at "seal" d)
                (seal_record out config (with_hash (text_at "record_hash" d) (unsigned d))),
          ));
    seal_ascii = ground (arith, h);
  }

  check_line-IsEntry :
      {S : Type 0} (p line q : String) (d : Fields F) (s : S)
      → vo.loads line ≡ some (obj d)
      → IsEntry p d q
      → check_line out config p line s ≡ (ok q, s)
  unfolding check_line
  check_line-IsEntry p line q d s l e = rw (l, load, check_entry-IsEntry p q d s e) refl

  entry_or_raise-IsEntry :
      {S : Type 0} (p q : String) (x : Exc) (v : Value F) (s t : S)
      → (entry_or_raise x v >>= check_entry out config p) s ≡ (ok q, t)
      → (d : Fields F) × (v ≡ obj d) × IsEntry p d q
  entry_or_raise-IsEntry p q x (obj d) s t h = (d, refl, IsEntry-of_check p q d s t h)
  entry_or_raise-IsEntry p q x null s t h = absurd (ground (arith, h))
  entry_or_raise-IsEntry p q x (bool b) s t h = absurd (ground (arith, h))
  entry_or_raise-IsEntry p q x (int n) s t h = absurd (ground (arith, h))
  entry_or_raise-IsEntry p q x (float y) s t h = absurd (ground (arith, h))
  entry_or_raise-IsEntry p q x (str y) s t h = absurd (ground (arith, h))
  entry_or_raise-IsEntry p q x (arr vs) s t h = absurd (ground (arith, h))

  IsEntry-of_line :
      {S : Type 0} (p line q : String) (s t : S)
      → check_line out config p line s ≡ (ok q, t)
      → (d : Fields F) × (vo.loads line ≡ some (obj d)) × IsEntry p d q
  unfolding check_line
  IsEntry-of_line {S} p line q s t h = at (vo.loads line) refl h
    where
      at :
          (o : Option (Value F))
          → vo.loads line ≡ o
          → ((elim o [ none ↦ fail (exception "JSONDecodeError") | some v ↦ pure v ])
                >>= entry_or_raise (mismatch "approval audit entry is invalid")
                >>= check_entry out config p)
              s
            ≡ (ok q, t)
          → (d : Fields F) × (vo.loads line ≡ some (obj d)) × IsEntry p d q
      at none e h = absurd (ground (arith, h))
      at (some v) e h =
          let (d, f, g) = entry_or_raise-IsEntry p q _ v s t h in (d, e ∙ ap some f, g)

  pub verify_lines-IsLinked :
      {S : Type 0} (p q : String) (lines : List String) (n k : ℕ) (s : S)
      → IsLinked p lines n q
      → verify_lines out config p k lines s ≡ (ok (k + n), s)
  unfolding verify_lines
  verify_lines-IsLinked p q lines n k s (done _) = ap (λ i. (ok i, s)) (omega arith)
  verify_lines-IsLinked p q lines n k s (blank _ line _ rest _ b c) =
      rw (b, verify_lines) (verify_lines-IsLinked p q rest n k s c)
  verify_lines-IsLinked p q lines n k s (entry _ line h _ d rest m b l e c) =
      rw (b, verify_lines)
        (bind_after (check_line out config p line)
            (λ hash. verify_lines out config hash (k + 1) rest) s h s
            (check_line-IsEntry p line h d s l e)
          ∙ verify_lines-IsLinked h q rest m (k + 1) s c
          ∙ ap (λ i. (ok i, s)) (omega arith))

  IsLinked-of_verify :
      {S : Type 0} (p : String) (lines : List String) (k m : ℕ) (s t : S)
      → verify_lines out config p k lines s ≡ (ok m, t)
      → (n : ℕ) × (q : String) × (m ≡ k + n) × IsLinked p lines n q
  unfolding verify_lines
  IsLinked-of_verify p [] k m s t h = (0, p, ground (arith, h), done p)
  IsLinked-of_verify p (line ∷ lines) k m s t h = elim (Bool-cases (is_blank line)) [
    | inl b ↦
        let (n, q, e, c) = IsLinked-of_verify p lines k m s t (rw (b, verify_lines) at h) in
        (n, q, e, blank p line q lines n b c)
    | inr b ↦
        let r =
          bind-Returned (check_line out config p line)
            (λ hash. verify_lines out config hash (k + 1) lines) s m t
            (rw (b, verify_lines) at h) in
        let (n, q, e, c) = IsLinked-of_verify r.value lines (k + 1) m r.between t r.rest in
        let (d, l, f) = IsEntry-of_line p line r.value s r.between r.first in
        (suc n, q, omega (arith, e), entry p line r.value q d lines n b l f c)
  ]

  abbrev pub Verifies : ApprovalAudit → ℕ → Type 0
  Verifies s m =
      (v : Verified F) × (t : ApprovalAudit) × (verify_chain out config s ≡ (ok v, t))
      × (v.records ≡ m)

  -- On a ledger with a file, `verify_chain` returns with `m` records exactly if the lines are a
  -- chain of `m` sealed entries from the empty hash.
  pub verify_chain-IsLinked :
      (s : ApprovalAudit) (lines : List String) (m : ℕ)
      → s.lines ≡ some lines
      → Verifies s m ↔ ((q : String) × IsLinked "" lines m q)
  unfolding verify_chain
  verify_chain-IsLinked s lines m e = (sound, complete)
    where
      at : verify_chain out config s ≡ verify_file out config (some lines) s
      at = ap (λ o. verify_file out config o s) e

      sound : Verifies s m → (q : String) × IsLinked "" lines m q
      sound (v, t, h, c) =
          let r =
            bind-Returned (verify_lines out config "" 0 lines) (verified out config) s v t
              (sym at ∙ h) in
          let (n, q, f, chain) = IsLinked-of_verify "" lines 0 r.value s r.between r.first in
          let same : n ≡ m = ground (arith, f, c, r.rest) in
          (q, subst (λ i. IsLinked "" lines i q) same chain)

      complete : (q : String) × IsLinked "" lines m q → Verifies s m
      complete (q, c) = (
        record { records = m; verified_at = out.clock s.tick },
        record s { tick = s.tick + 1 },
        at
            ∙ bind_after (verify_lines out config "" 0 lines) (verified out config) s m s
                (verify_lines-IsLinked "" q lines m 0 s c ∙ ap (λ i. (ok i, s)) (omega arith)),
        refl,
      )
