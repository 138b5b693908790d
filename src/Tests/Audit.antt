-- ===== src/Tests/Audit.antt =====
-- A ledger of canary approvals with an appended approval.
use autonomous_vehicle_llm.Base.{String, ◌≡◌, refl, some, true, List, [], ◌∷◌, ◌↔◌, ◌>>◌}
use autonomous_vehicle_llm.Base.Post.{Post}
use autonomous_vehicle_llm.Float.Hundredths.{Hundredths, hundredths_ops}
use autonomous_vehicle_llm.Json.{Fields}
use autonomous_vehicle_llm.ApprovalAudit.{
  AuditOutside, ApprovalConfig, ApprovalAudit, append, verify_chain, open_audit,
}
use autonomous_vehicle_llm.ApprovalAudit.Chain.{
  IsLinked, done, entry, Verifies, verify_chain-IsLinked,
}
use autonomous_vehicle_llm.ApprovalAudit.Appending.{
  IsJson, IsLedger, Appended, append-Appended, made,
}
use autonomous_vehicle_llm.ApprovalAudit.Runs.{Approval, append_all, verify_chain-append_all}
use autonomous_vehicle_llm.Tests.Codec.{encode, decode-encode, encode_filled}
use autonomous_vehicle_llm.Tests.Texts.{sample_texts, sample_values}

abbrev pub outside : AuditOutside Hundredths String
outside = record {
  clock = λ n. hundredths_ops.lit 1 2;
  sha256 = λ s. "hash";
  hmac = λ k s. "seal";
  token_bytes = "k";
  b64encode = λ k. k;
  b64decode = λ s. some s;
}

abbrev pub config : ApprovalConfig String
config = record { seal_key = "k"; verify_every_writes = 1; verify_before_append = true }

sample-IsJson : IsJson sample_texts sample_values outside
sample-IsJson = record {
  str_text = λ s. refl;
  line_filled = λ d. rw encode_filled refl;
  loads-to_line = decode-encode;
  digest_ascii = λ k s. refl;
}

abbrev sample_entry : Fields Hundredths
sample_entry = made outside config (hundredths_ops.lit 1 2) "dev" "h" "ann" "ok" "pending" ""

abbrev sample_lines : List String
sample_lines = encode sample_entry ∷ []

abbrev sample_audit : ApprovalAudit
sample_audit = record { lines = some sample_lines; append_count = 1; tick = 1 }

sample-IsLinked : IsLinked outside config "" sample_lines 1 "hash"
sample-IsLinked =
    entry "" (encode sample_entry) "hash" "hash" sample_entry [] 0 refl refl
      (record { follows = refl; named = refl; hashed = refl; sealed = refl; seal_ascii = refl })
      (done "hash")

sample-IsLedger : IsLedger outside config sample_lines 1 "hash" sample_audit
sample-IsLedger = record { stored = refl; chain = sample-IsLinked; filled = (refl, tt) }

verify_chain-IsLinked_example :
    Verifies outside config sample_audit 1
    ↔ ((q : String) × IsLinked outside config "" sample_lines 1 q)
verify_chain-IsLinked_example =
    verify_chain-IsLinked outside config sample_audit sample_lines 1 refl

append-Appended_example :
    Post
      (Appended outside config sample_lines 1 "hash" "dev" "h" "ann" "ok" "pending")
      (λ e t. ⊥)
      (append outside config "dev" "h" "ann" "ok" "pending" sample_audit)
append-Appended_example =
    append-Appended outside config sample-IsJson sample_lines 1 "hash" sample_audit sample-IsLedger
      "dev" "h" "ann" "ok" "pending"

abbrev approvals : List Approval
approvals =
    record {
      environment = "dev";
      bundle_hash = "h";
      approver = "ann";
      reason = "ok";
      status = "pending";
    }
    ∷ []

verify_chain-append_all_example :
    Post
      (λ v t. v.records ≡ 2)
      (λ e t. ⊥)
      ((open_audit outside config
          >> append_all outside config approvals
          >> verify_chain outside config)
        sample_audit)
verify_chain-append_all_example =
    verify_chain-append_all outside config sample-IsJson approvals sample_lines 1 "hash"
      sample_audit sample-IsLedger

-- Another approval, in another file. Under a hash that does not tell texts apart it verifies up to the
-- same last hash.
abbrev other_entry : Fields Hundredths
other_entry = made outside config (hundredths_ops.lit 1 2) "prod" "g" "bob" "no" "pending" ""

abbrev other_lines : List String
other_lines = encode other_entry ∷ []
