-- ===== src/ApprovalAudit/Appending.antt =====
-- Appending to the ledger of canary approvals (src/autonomy/approval_audit.py), and sequences of
-- appends.
use autonomous_vehicle_llm.Base.{
  Option, ℕ, ◌+◌, suc, String, Bool, true, false, ◌&&◌, ◌≡◌, refl, none, some, List, [], ◌∷◌, ◌++◌,
  nat_eq, arith, All, All-append, ◌>>◌, ok, pure, when, ◌⊎◌, inl, inr, sym, ap, subst, not, ◌>>◌,
}
use autonomous_vehicle_llm.Base.Post.{Post, Post-bind, Post-mono}
use autonomous_vehicle_llm.Text.{TextOps}
use autonomous_vehicle_llm.Json.{Value, Fields, str, float, obj, field, end, has}
use autonomous_vehicle_llm.Values.{ValueOps, text_at}
use autonomous_vehicle_llm.ApprovalAudit.{
  AuditOutside, ApprovalConfig, ApprovalAudit, is_ascii, is_blank, verify_chain, verify_file,
  verified, verify_lines, check_chain, lines_of, last_line, last_hash, hash_of_line, hash_of_last,
  write_record, append_after, load, approval_record, signed_record, append, verify_first,
  verify_if_due, write_line,
}
use autonomous_vehicle_llm.ApprovalAudit.Chain.{
  IsEntry, IsLinked, done, blank, entry, verify_lines-IsLinked,
}

-- A dictionary of texts and floats whose keys differ.
abbrev pub is_plain_value : {F : Type 0} → Value F → Bool
is_plain_value (str s) = true
is_plain_value (float x) = true
is_plain_value v = false

abbrev pub is_flat : {F : Type 0} → Fields F → Bool
is_flat end = true
is_flat (field k v d) = not (has k d) && is_plain_value v && is_flat d

-- What the theorems use of `str`, of the json module and of hexadecimal digests.
pub record IsJson {F K : Type 0} (tx : TextOps) (vo : ValueOps F) (out : AuditOutside F K)
    : Type 0 where
  pub str_text : (s : String) → vo.to_str (str s) ≡ s
  pub line_filled : (d : Fields F) → is_blank ⦃tx = tx⦄ (vo.to_line d) ≡ false
  pub loads-to_line : (d : Fields F) → is_flat d ≡ true → vo.loads (vo.to_line d) ≡ some (obj d)
  pub digest_ascii : (k : K) (s : String) → is_ascii (out.hmac k s) ≡ true

module _ {F K : Type 0} ⦃tx : TextOps⦄ ⦃vo : ValueOps F⦄ (out : AuditOutside F K)
    (config : ApprovalConfig K) where
  -- A ledger of `n` entries without blank lines, the last with the hash `q`.
  pub record IsLedger (lines : List String) (n : ℕ) (q : String) (s : ApprovalAudit) : Type 0 where
    pub stored : lines_of s.lines ≡ lines
    pub chain : IsLinked out config "" lines n q
    pub filled : All (λ line. is_blank line ≡ false) lines

  IsLinked-nil :
      (p q : String) (lines : List String) (n : ℕ)
      → IsLinked out config p lines n q
      → [] ≡ lines
      → 0 ≡ n
  IsLinked-nil p q lines n (done _) e = refl
  IsLinked-nil p q lines n (blank _ line _ rest _ b c) e = absurd (ground (arith, e))
  IsLinked-nil p q lines n (entry _ line h _ d rest m b l i c) e = absurd (ground (arith, e))

  pub verify_chain-IsLedger :
      (lines : List String) (n : ℕ) (q : String) (s : ApprovalAudit)
      → IsLedger lines n q s
      → Post (λ v t. (v.records ≡ n) × IsLedger lines n q t) (λ e t. ⊥) (verify_chain out config s)
  unfolding verify_chain
  verify_chain-IsLedger lines n q s l = at s.lines l.stored
    where
      at :
          (o : Option (List String))
          → lines_of o ≡ lines
          → Post
              (λ v t. (v.records ≡ n) × IsLedger lines n q t)
              (λ e t. ⊥)
              (verify_file out config o s)
      at none e = (
        IsLinked-nil "" q lines n l.chain e,
        record { stored = l.stored; chain = l.chain; filled = l.filled },
      )
      at (some ls) e =
          Post-bind (λ m t. (m ≡ n) × IsLedger lines n q t) _ (λ e t. ⊥)
            (verify_lines out config "" 0 ls) (verified out config) s
            (rw (e, verify_lines-IsLinked out config "" q lines n 0 s l.chain) (omega arith, l))
            (λ m t (f, k). (f, record { stored = k.stored; chain = k.chain; filled = k.filled }))

  pub check_chain-IsLedger :
      (b : Bool) (lines : List String) (n : ℕ) (q : String) (s : ApprovalAudit)
      → IsLedger lines n q s
      → Post (λ v t. IsLedger lines n q t) (λ e t. ⊥) (when b (check_chain out config) s)
  check_chain-IsLedger true lines n q s l =
      Post-bind (λ v t. (v.records ≡ n) × IsLedger lines n q t) _ (λ e t. ⊥)
        (verify_chain out config) (λ v. pure tt) s (verify_chain-IsLedger lines n q s l)
        (λ v t k. k.1)
  check_chain-IsLedger false lines n q s l = l

  -- The last line of a chain without blank lines is its last entry.
  EndsWith : List String → String → Type 0
  EndsWith lines q =
      (line : String) × (d : Fields F) × (last_line lines ≡ some line)
      × (vo.loads line ≡ some (obj d))
      × (text_at "record_hash" d ≡ q)

  last_line-IsLinked :
      (p q : String) (lines : List String) (n : ℕ)
      → IsLinked out config p lines n q
      → All (λ line. is_blank line ≡ false) lines
      → ((lines ≡ []) × (p ≡ q)) ⊎ EndsWith lines q
  unfolding EndsWith
  last_line-IsLinked p q lines n (done _) f = inl (refl, refl)
  last_line-IsLinked p q lines n (blank _ first _ rest _ b c) f = absurd (ground (arith, b, f.0))
  last_line-IsLinked p q lines n (entry _ first h _ d [] m b l e (done _)) f =
      inr (first, d, refl, l, e.named)
  last_line-IsLinked p q lines n (entry _ first h _ d (next ∷ rest) m b l e c) f =
      elim (last_line-IsLinked h q (next ∷ rest) m c f.1) [
        | inl (g, _) ↦ absurd (ground (arith, g))
        | inr w ↦ inr w
      ]

  last_hash-IsLedger :
      (lines : List String) (n : ℕ) (q : String) (s : ApprovalAudit)
      → IsLedger lines n q s
      → last_hash F s ≡ (ok q, s)
  unfolding last_hash EndsWith
  last_hash-IsLedger lines n q s l = rw l.stored at_end
    where
      at_end : hash_of_last F (last_line lines) s ≡ (ok q, s)
      at_end = elim (last_line-IsLinked "" q lines n l.chain l.filled) [
        | inl (e, f) ↦ rw (e, f) refl
        | inr (line, d, e, f, g) ↦ rw (e, hash_of_line, load, f, g) refl
      ]

  IsLinked-append :
      (p q h line : String) (d : Fields F) (lines : List String) (n : ℕ)
      → IsLinked out config p lines n q
      → is_blank line ≡ false
      → vo.loads line ≡ some (obj d)
      → IsEntry out config q d h
      → IsLinked out config p (lines ++ (line ∷ [])) (suc n) h
  IsLinked-append p q h line d lines n (done _) b l e = entry p line h h d [] 0 b l e (done h)
  IsLinked-append p q h line d lines n (blank _ first _ rest _ b c) b' l e =
      blank p first h (rest ++ (line ∷ [])) (suc n) b (IsLinked-append p q h line d rest n c b' l e)
  IsLinked-append p q h line d lines n (entry _ first g _ f rest m b i e c) b' l e' =
      entry p first g h f (rest ++ (line ∷ [])) (suc m) b i e
        (IsLinked-append g q h line d rest m c b' l e')

  -- The record that `append` makes from the hash `p` of the last one.
  abbrev pub made : F → String → String → String → String → String → String → Fields F
  made ts environment bundle_hash approver reason status p =
      signed_record out config (approval_record ts environment bundle_hash approver reason status p)

  made-IsEntry :
      IsJson tx vo out
      → (ts : F) (environment bundle_hash approver reason status p : String)
      → let d = made ts environment bundle_hash approver reason status p in
        IsEntry out config p d (text_at "record_hash" d)
  made-IsEntry j ts environment bundle_hash approver reason status p = record {
    follows = j.str_text p;
    named = refl;
    hashed = j.str_text _;
    sealed = rw (j.str_text, j.str_text) refl;
    seal_ascii = rw j.str_text (j.digest_ascii _ _);
  }

  write_record-IsLedger :
      (lines : List String) (n : ℕ) (q : String) (d : Fields F) (s : ApprovalAudit)
      → is_blank (vo.to_line d) ≡ false
      → vo.loads (vo.to_line d) ≡ some (obj d)
      → IsEntry out config q d (text_at "record_hash" d)
      → IsLedger lines n q s
      → Post
          (λ a t.
            (a ≡ d) × IsLedger (lines ++ (vo.to_line d ∷ [])) (suc n) (text_at "record_hash" d) t)
          (λ e t. ⊥)
          (write_record out config d s)
  write_record-IsLedger lines n q d s b i e l =
      Post-bind (λ a t. IsLedger added (suc n) (text_at "record_hash" d) t) _ (λ e t. ⊥)
        (write_line (vo.to_line d) >> verify_if_due out config) (λ a. pure d) s
        (check_chain-IsLedger _ added (suc n) (text_at "record_hash" d) _ record {
          stored = ap (λ ls. ls ++ (vo.to_line d ∷ [])) l.stored;
          chain =
              IsLinked-append "" q (text_at "record_hash" d) (vo.to_line d) d lines n l.chain b i e;
          filled = All-append _ lines (vo.to_line d ∷ []) l.filled (b, tt);
        })
        (λ a t k. (refl, k))
    where
      added : List String
      added = lines ++ (vo.to_line d ∷ [])

  -- What `append` returns, and leaves behind.
  pub record Appended (lines : List String) (n : ℕ) (q : String)
      (environment bundle_hash approver reason status : String) (d : Fields F) (t : ApprovalAudit)
      : Type 0 where
    pub ts : F
    pub made_of : d ≡ made ts environment bundle_hash approver reason status q
    pub ledger : IsLedger (lines ++ (vo.to_line d ∷ [])) (suc n) (text_at "record_hash" d) t

  append_after-Appended :
      IsJson tx vo out
      → (lines : List String) (n : ℕ) (q : String) (s : ApprovalAudit) → IsLedger lines n q s
      → (environment bundle_hash approver reason status : String)
      → Post
          (Appended lines n q environment bundle_hash approver reason status)
          (λ e t. ⊥)
          (append_after out config environment bundle_hash approver reason status q s)
  append_after-Appended j lines n q s l environment bundle_hash approver reason status =
      Post-mono
        (λ a t.
          (a ≡ d) × IsLedger (lines ++ (vo.to_line d ∷ [])) (suc n) (text_at "record_hash" d) t)
        (Appended lines n q environment bundle_hash approver reason status) (λ e t. ⊥) (λ e t. ⊥)
        (write_record out config d u)
        (λ a t (e, k). record {
          ts = ts;
          made_of = e;
          ledger =
              subst
                (λ x. IsLedger (lines ++ (vo.to_line x ∷ [])) (suc n) (text_at "record_hash" x) t)
                (sym e) k;
        })
        (λ e t x. x)
        (write_record-IsLedger lines n q d u (j.line_filled d) (j.loads-to_line d refl)
          (made-IsEntry j ts environment bundle_hash approver reason status q)
          record { stored = l.stored; chain = l.chain; filled = l.filled })
    where
      ts : F
      ts = out.clock s.tick

      u : ApprovalAudit
      u = record s { tick = s.tick + 1 }

      d : Fields F
      d = made ts environment bundle_hash approver reason status q

  -- On a ledger whose lines are a chain with no blank line in it, `append` returns the record of the
  -- approval that follows the last hash, and leaves the lines with that record's line at the end,
  -- again such a chain.
  pub append-Appended :
      IsJson tx vo out
      → (lines : List String) (n : ℕ) (q : String) (s : ApprovalAudit) → IsLedger lines n q s
      → (environment bundle_hash approver reason status : String)
      → Post
          (Appended lines n q environment bundle_hash approver reason status)
          (λ e t. ⊥)
          (append out config environment bundle_hash approver reason status s)
  unfolding append
  append-Appended j lines n q s l environment bundle_hash approver reason status =
      Post-bind (λ p t. (p ≡ q) × IsLedger lines n q t)
        (Appended lines n q environment bundle_hash approver reason status) (λ e t. ⊥)
        (verify_first out config >> last_hash F)
        (append_after out config environment bundle_hash approver reason status) s
        (Post-bind (λ u t. IsLedger lines n q t) (λ p t. (p ≡ q) × IsLedger lines n q t) (λ e t. ⊥)
          (verify_first out config) (λ u. last_hash F) s (check_chain-IsLedger _ lines n q s l)
          (λ u t k. rw (last_hash-IsLedger lines n q t k) (refl, k)))
        (λ p t (e, k).
          subst
            (λ x.
              Post (Appended lines n q environment bundle_hash approver reason status) (λ e t. ⊥)
                (append_after out config environment bundle_hash approver reason status x t))
            (sym e)
            (append_after-Appended j lines n q t k environment bundle_hash approver reason status))
