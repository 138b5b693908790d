-- ===== src/ApprovalAudit.antt =====
-- The sealed ledger of canary approvals (src/autonomy/approval_audit.py): its file as lines, the
-- checks of an entry, and appending. A dumped record is one line, since the json module escapes
-- line breaks. The clock, SHA-256, the keyed hash, base64 and the random key are parameters.
pub mod Chain
pub mod Appending
pub mod Tampering
pub mod Runs
use Prim.Native.Char.{Char, code}
use autonomous_vehicle_llm.Base.{
  ℕ, ◌+◌, ◌%◌, suc, String, Bool, true, false, not, ◌&&◌, Option, none, some, List, [], ◌∷◌, ◌++◌,
  keep, length, ltb, ◌==◌, nat_eq, string_eq, if◌then◌else◌, Exc, ok, adapter_execution_error,
  exception, Call, ◌>>=◌, ◌>>◌, pure, fail, modify, get_state, raise_if, when,
}
use autonomous_vehicle_llm.Text.{TextOps, chars, is_nonempty}
use autonomous_vehicle_llm.Json.{Value, Fields, str, float, obj, end, field, put, remove}
use autonomous_vehicle_llm.Values.{ValueOps, text_at}

pub record AuditOutside (F K : Type 0) : Type 0 where
  pub clock : ℕ → F
  pub sha256 : String → String
  -- `hmac.new(key, s.encode("utf-8"), hashlib.sha256).hexdigest()`
  pub hmac : K → String → String
  -- `secrets.token_bytes(32)`, and base64 with `validate=True`, which may raise a `ValueError`
  pub token_bytes : K
  pub b64encode : K → String
  pub b64decode : String → Option K

pub record ApprovalConfig (K : Type 0) : Type 0 where
  pub seal_key : K
  -- at least 1
  pub verify_every_writes : ℕ
  pub verify_before_append : Bool

-- The lines of the file, which are `none` while there is no file. The tick numbers the calls of
-- the clock.
pub record ApprovalAudit : Type 0 where
  pub lines : Option (List String)
  pub append_count : ℕ
  pub tick : ℕ

pub record Verified (F : Type 0) : Type 0 where
  pub records : ℕ
  pub verified_at : F

-- `s.isascii()`, which `hmac.compare_digest` asks of texts.
abbrev all_ascii : List Char → Bool
all_ascii [] = true
all_ascii (c ∷ cs) = ltb (code c) 128 && all_ascii cs

abbrev pub is_ascii : String → Bool
is_ascii s = all_ascii (chars s)

abbrev pub compare_digest : {S : Type 0} → String → String → Call S Bool
compare_digest a b =
    if is_ascii a && is_ascii b then pure (a == b) else fail (exception "TypeError")

abbrev pub mismatch : String → Exc
mismatch message = adapter_execution_error message

abbrev pub last_line : List String → Option String
last_line [] = none
last_line (line ∷ []) = some line
last_line (line ∷ l ∷ lines) = last_line (l ∷ lines)

abbrev pub lines_of : Option (List String) → List String
lines_of none = []
lines_of (some lines) = lines

abbrev pub write_line : String → Call ApprovalAudit (Unit {0})
write_line line = modify (λ s. record s {
  lines = some (lines_of s.lines ++ (line ∷ []));
  append_count = s.append_count + 1;
})

module _ {F : Type 0} ⦃vo : ValueOps F⦄ where
  abbrev pub unsigned : Fields F → Fields F
  unsigned d = remove "seal" (remove "record_hash" d)

  -- `json.loads(line)`
  abbrev pub load : {S : Type 0} → String → Call S (Value F)
  load line = elim (vo.loads line) [ none ↦ fail (exception "JSONDecodeError") | some v ↦ pure v ]

  abbrev pub entry_or_raise : {S : Type 0} → Exc → Value F → Call S (Fields F)
  entry_or_raise e (obj d) = pure d
  entry_or_raise e v = fail e

  -- `{**d, "record_hash": hash}`
  abbrev pub with_hash : String → Fields F → Fields F
  with_hash hash d = put "record_hash" (str hash) d

  abbrev pub hash_of : Fields F → Call ApprovalAudit String
  hash_of d = pure (text_at "record_hash" d)

  -- The record of `append` before it is hashed.
  abbrev pub approval_record : F → String → String → String → String → String → String → Fields F
  approval_record ts environment bundle_hash approver reason status prev_hash =
      field "ts" (float ts) (
        field "environment" (str environment) (
          field "bundle_hash" (str bundle_hash) (
            field "approver" (str approver) (
              field "reason" (str reason)
                (field "status" (str status) (field "prev_hash" (str prev_hash) end))))))

module _ (F : Type 0) ⦃vo : ValueOps F⦄ where
  abbrev pub hash_of_line : String → Call ApprovalAudit String
  hash_of_line line = load {F = F} line >>= entry_or_raise (exception "AttributeError") >>= hash_of

  abbrev pub hash_of_last : Option String → Call ApprovalAudit String
  hash_of_last none = pure ""
  hash_of_last (some line) = hash_of_line line

  -- Without a file there are no lines.
  unfoldable pub last_hash : Call ApprovalAudit String
  last_hash = get_state >>= λ s. hash_of_last (last_line (lines_of s.lines))

module _ ⦃tx : TextOps⦄ where
  abbrev pub is_blank : String → Bool
  is_blank line = not (is_nonempty (tx.strip line))

  abbrev pub line_count : Option (List String) → ℕ
  line_count none = 0
  line_count (some lines) = length (keep (λ line. not (is_blank line)) lines)

module _ {F K : Type 0} ⦃tx : TextOps⦄ ⦃vo : ValueOps F⦄ (out : AuditOutside F K) where
  -- On the text of the key file.
  unfoldable pub load_or_create_seal_key : Call (Option String) K
  load_or_create_seal_key = get_state >>= λ file. elim file [
    | some raw ↦ elim (out.b64decode (tx.strip raw)) [
      | some key ↦ pure key
      | none ↦ fail (adapter_execution_error "invalid approval audit seal key file")
    ]
    | none ↦ modify (λ s. some (out.b64encode out.token_bytes)) >> pure out.token_bytes
  ]

  abbrev pub now : Call ApprovalAudit F
  now s = (ok (out.clock s.tick), record s { tick = s.tick + 1 })

  module _ (config : ApprovalConfig K) where
    abbrev pub seal_record : Fields F → String
    seal_record d = out.hmac config.seal_key (vo.dumps d)

    abbrev pub record_hash : Fields F → String
    record_hash d = out.sha256 (vo.dumps d)

    -- The checks of one entry, which return its hash.
    unfoldable pub check_entry : {S : Type 0} → String → Fields F → Call S String
    check_entry expected d =
        raise_if (not (text_at "prev_hash" d == expected))
          (mismatch "approval audit hash chain mismatch")
        >> raise_if (not (text_at "record_hash" d == record_hash (unsigned d)))
            (mismatch "approval audit record hash mismatch")
        >> (compare_digest (text_at "seal" d)
              (seal_record (with_hash (text_at "record_hash" d) (unsigned d)))
            >>= λ same. raise_if (not same) (mismatch "approval audit seal mismatch"))
        >> pure (text_at "record_hash" d)

    unfoldable pub check_line : {S : Type 0} → String → String → Call S String
    check_line expected line =
        load line
        >>= entry_or_raise (mismatch "approval audit entry is invalid")
        >>= check_entry expected

    -- The loop, which counts the entries.
    unfoldable pub verify_lines : {S : Type 0} → String → ℕ → List String → Call S ℕ
    verify_lines expected n [] = pure n
    verify_lines expected n (line ∷ lines) = elim (is_blank line) [
      | true ↦ verify_lines expected n lines
      | false ↦ check_line expected line >>= λ hash. verify_lines hash (n + 1) lines
    ]

    abbrev pub verified : ℕ → Call ApprovalAudit (Verified F)
    verified n = now >>= λ t. pure (record { records = n; verified_at = t })

    abbrev pub verify_file : Option (List String) → Call ApprovalAudit (Verified F)
    verify_file none = verified 0
    verify_file (some lines) = verify_lines "" 0 lines >>= verified

    unfoldable pub verify_chain : Call ApprovalAudit (Verified F)
    verify_chain = get_state >>= λ s. verify_file s.lines

    abbrev pub check_chain : Call ApprovalAudit (Unit {0})
    check_chain = verify_chain >>= λ v. pure tt

    -- The end of `__init__`, with the file as the state.
    unfoldable pub open_audit : Call ApprovalAudit (Unit {0})
    open_audit = modify (λ s. record s { append_count = line_count s.lines }) >> get_state >>= λ s.
        when (ltb 0 s.append_count) check_chain

    abbrev pub with_seal : Fields F → Fields F
    with_seal d = put "seal" (str (seal_record d)) d

    -- What `append` writes for a record.
    abbrev pub signed_record : Fields F → Fields F
    signed_record d = with_seal (with_hash (record_hash d) d)

    abbrev pub verify_if_due : Call ApprovalAudit (Unit {0})
    verify_if_due =
        get_state >>= λ s. when (s.append_count % config.verify_every_writes == 0) check_chain

    abbrev pub verify_first : Call ApprovalAudit (Unit {0})
    verify_first =
        get_state >>= λ s. when (config.verify_before_append && ltb 0 s.append_count) check_chain

    abbrev pub write_record : Fields F → Call ApprovalAudit (Fields F)
    write_record d = write_line (vo.to_line d) >> verify_if_due >> pure d

    abbrev pub append_after :
        String → String → String → String → String → String → Call ApprovalAudit (Fields F)
    append_after environment bundle_hash approver reason status previous_hash = now >>= λ ts.
        write_record (
          signed_record
            (approval_record ts environment bundle_hash approver reason status previous_hash))

    unfoldable pub append :
        String → String → String → String → String → Call ApprovalAudit (Fields F)
    append environment bundle_hash approver reason status =
        verify_first >> last_hash F >>= append_after environment bundle_hash approver reason status
