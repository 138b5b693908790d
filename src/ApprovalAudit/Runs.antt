-- ===== src/ApprovalAudit/Runs.antt =====
-- A new ledger of canary approvals (src/autonomy/approval_audit.py) and the approvals appended to
-- it one after the other.
use autonomous_vehicle_llm.Base.{
  subst, ltb, ℕ, ◌+◌, suc, String, ◌≡◌, refl, List, [], ◌∷◌, arith, length, Call, ◌>>◌, pure,
}
use autonomous_vehicle_llm.Base.Post.{Post, Post-bind, Post-mono}
use autonomous_vehicle_llm.Text.{TextOps}
use autonomous_vehicle_llm.Values.{ValueOps}
use autonomous_vehicle_llm.ApprovalAudit.{
  AuditOutside, ApprovalConfig, ApprovalAudit, append, verify_chain, open_audit, line_count,
}
use autonomous_vehicle_llm.ApprovalAudit.Appending.{
  IsJson, IsLedger, Appended, append-Appended, verify_chain-IsLedger, check_chain-IsLedger,
}

pub record Approval : Type 0 where
  pub environment : String
  pub bundle_hash : String
  pub approver : String
  pub reason : String
  pub status : String

module _ {F K : Type 0} ⦃tx : TextOps⦄ ⦃vo : ValueOps F⦄ (out : AuditOutside F K)
    (config : ApprovalConfig K) where
  pub append_all : List Approval → Call ApprovalAudit (Unit {0})
  append_all [] = pure tt
  append_all (a ∷ approvals) =
      append out config a.environment a.bundle_hash a.approver a.reason a.status
      >> append_all approvals

  HasEntries : ℕ → ApprovalAudit → Type 0
  HasEntries n s = (lines : List String) × (q : String) × IsLedger out config lines n q s

  append_all-HasEntries :
      IsJson tx vo out
      → (approvals : List Approval) (n m : ℕ) (s : ApprovalAudit) → n + length approvals ≡ m
      → HasEntries n s
      → Post (λ u t. HasEntries m t) (λ e t. ⊥) (append_all approvals s)
  unfolding append_all HasEntries
  append_all-HasEntries j [] n m s e (lines, q, l) =
      (lines, q, subst (λ i. IsLedger out config lines i q s) (omega (arith, e)) l)
  append_all-HasEntries j (a ∷ approvals) n m s e (lines, q, l) =
      Post-bind (λ d t. HasEntries (suc n) t) (λ u t. HasEntries m t) (λ e t. ⊥)
        (append out config a.environment a.bundle_hash a.approver a.reason a.status)
        (λ d. append_all approvals) s
        (Post-mono
          (Appended out config lines n q a.environment a.bundle_hash a.approver a.reason a.status)
          (λ d t. HasEntries (suc n) t) (λ e t. ⊥) (λ e t. ⊥)
          (append out config a.environment a.bundle_hash a.approver a.reason a.status s)
          (λ d t k. (_, _, k.ledger)) (λ e t x. x)
          (append-Appended out config j lines n q s l a.environment a.bundle_hash a.approver
            a.reason a.status))
        (λ d t k. append_all-HasEntries j approvals (suc n) m t (omega (arith, e)) k)

  -- On a ledger that is a chain of `n` entries with no blank line in it, every approval is appended
  -- after `__init__`, whenever the chain is verified in between, and the file then verifies with as
  -- many more records.
  pub verify_chain-append_all :
      IsJson tx vo out
      → (approvals : List Approval) (lines : List String) (n : ℕ) (q : String) (s : ApprovalAudit)
      → IsLedger out config lines n q s
      → Post
          (λ v t. v.records ≡ n + length approvals)
          (λ e t. ⊥)
          ((open_audit out config >> append_all approvals >> verify_chain out config) s)
  unfolding open_audit HasEntries
  verify_chain-append_all j approvals lines n q s l =
      Post-bind (λ u t. HasEntries (n + length approvals) t)
        (λ v t. v.records ≡ n + length approvals) (λ e t. ⊥)
        (open_audit out config >> append_all approvals) (λ u. verify_chain out config) s
        (Post-bind (λ u t. IsLedger out config lines n q t)
          (λ u t. HasEntries (n + length approvals) t) (λ e t. ⊥) (open_audit out config)
          (λ u. append_all approvals) s
          (check_chain-IsLedger out config (ltb 0 (line_count s.lines)) lines n q
            (record s { append_count = line_count s.lines })
            record { stored = l.stored; chain = l.chain; filled = l.filled })
          (λ u t k. append_all-HasEntries j approvals n _ t refl (lines, q, k)))
        (λ u t (ls, r, k).
          Post-mono
            (λ v t'.
              (v.records ≡ n + length approvals)
              × IsLedger out config ls (n + length approvals) r t')
            (λ v t'. v.records ≡ n + length approvals) (λ e t'. ⊥) (λ e t'. ⊥)
            (verify_chain out config t) (λ v t' h. h.0) (λ e t' x. x)
            (verify_chain-IsLedger out config ls (n + length approvals) r t k))
