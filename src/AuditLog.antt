-- ===== src/AuditLog.antt =====
-- The signed audit log (src/autonomy/audit.py): its file as lines, each chained to the signature of
-- the one before. The clock and the keyed hash are parameters; the secret is a text.
use autonomous_vehicle_llm.Base.{
  ℕ, ◌+◌, String, ◌<>◌, ◌≡◌, refl, ap, ◌∙◌, Option, none, some, List, [], ◌∷◌, ◌++◌, ok, exception,
  Call, ◌>>=◌, ◌>>◌, pure, modify, get_state, Bool, true, not, ◌&&◌,
}
use autonomous_vehicle_llm.Base.Post.{bind_after}
use autonomous_vehicle_llm.Json.{Fields, str, obj, field, end, get, has}
use autonomous_vehicle_llm.Values.{ValueOps, text_at}
use autonomous_vehicle_llm.ApprovalAudit.{load, entry_or_raise, last_line, lines_of}

pub record AuditRecord (F : Type 0) : Type 0 where
  pub timestamp : String
  pub event_type : String
  pub payload : Fields F
  pub prev_hash : String
  pub signature : String

pub record LogOutside : Type 0 where
  -- `datetime.now(UTC).isoformat()`
  pub clock : ℕ → String
  -- `hmac.new(secret, s.encode("utf-8"), hashlib.sha256).hexdigest()`
  pub hmac : String → String → String

-- The lines of the file, which are `none` while there is no file.
pub record SignedAuditLogger : Type 0 where
  pub lines : Option (List String)
  pub last_hash : String
  pub tick : ℕ

module _ {F : Type 0} where
  -- `asdict(record)`
  abbrev pub as_fields : AuditRecord F → Fields F
  as_fields r = field "timestamp" (str r.timestamp) (
      field "event_type" (str r.event_type) (
        field "payload" (obj r.payload)
          (field "prev_hash" (str r.prev_hash) (field "signature" (str r.signature) end))))

module _ (F : Type 0) ⦃vo : ValueOps F⦄ where
  abbrev signature_of : Fields F → Call SignedAuditLogger String
  signature_of d = pure (text_at "signature" d)

  abbrev signature_of_last : Option String → Call SignedAuditLogger String
  signature_of_last none = pure ""
  signature_of_last (some line) =
      load {F = F} line >>= entry_or_raise (exception "AttributeError") >>= signature_of

  -- Without a file there are no lines.
  unfoldable pub load_last_hash : Call SignedAuditLogger String
  load_last_hash = get_state >>= λ s. signature_of_last (last_line (lines_of s.lines))

  -- `__init__`, with the file as the state.
  abbrev pub open_log : Call SignedAuditLogger (Unit {0})
  open_log = load_last_hash >>= λ hash. modify (λ s. record s { last_hash = hash })

module _ {F : Type 0} ⦃vo : ValueOps F⦄ (out : LogOutside) (secret : String) where
  abbrev pub signature : String → String → Fields F → String → String
  signature timestamp event_type payload last_hash =
      out.hmac secret
        (timestamp <> "|" <> event_type <> "|" <> vo.dumps payload <> "|" <> last_hash)

  -- The record of `log` in a state.
  abbrev pub record_for : String → Fields F → SignedAuditLogger → AuditRecord F
  record_for event_type payload s = record {
    timestamp = out.clock s.tick;
    event_type = event_type;
    payload = payload;
    prev_hash = s.last_hash;
    signature = signature (out.clock s.tick) event_type payload s.last_hash;
  }

  abbrev pub logged : AuditRecord F → SignedAuditLogger → SignedAuditLogger
  logged r s = record s {
    lines = some (lines_of s.lines ++ (vo.to_line (as_fields r) ∷ []));
    last_hash = r.signature;
    tick = s.tick + 1;
  }

  unfoldable pub log : String → Fields F → Call SignedAuditLogger (AuditRecord F)
  log event_type payload s = let r = record_for event_type payload s in (ok r, logged r s)

-- No key occurs twice.
abbrev pub keys_differ : {F : Type 0} → Fields F → Bool
keys_differ end = true
keys_differ (field k v d) = not (has k d) && keys_differ d

-- What the theorem uses of `str` and of the json module: a text is its own `str`, and a line that
-- was dumped for a dictionary is read with the texts under its keys.
pub record KeepsTexts {F : Type 0} (vo : ValueOps F) : Type 0 where
  pub str_text : (s : String) → vo.to_str (str s) ≡ s
  pub line_texts :
      (d : Fields F) (k s : String)
      → keys_differ d ≡ true
      → get k d ≡ some (str s)
      → (e : Fields F) × (vo.loads (vo.to_line d) ≡ some (obj e)) × (get k e ≡ some (str s))

last_line-append :
    (lines : List String) (line : String) → last_line (lines ++ (line ∷ [])) ≡ some line
last_line-append [] line = refl
last_line-append (first ∷ []) line = refl
last_line-append (first ∷ next ∷ lines) line = last_line-append (next ∷ lines) line

module _ {F : Type 0} ⦃vo : ValueOps F⦄ where
  signature_of_line :
      (line hash : String) (d : Fields F) (s : SignedAuditLogger)
      → vo.loads line ≡ some (obj d)
      → text_at "signature" d ≡ hash
      → signature_of_last F (some line) s ≡ (ok hash, s)
  signature_of_line line hash d s l h = rw (l, load) (ap (λ t. (ok t, s)) h)

  text_at-text :
      (k s : String) (d : Fields F) → get k d ≡ some (str s) → text_at k d ≡ vo.to_str (str s)
  text_at-text k s d h = rw (text_at, h) refl

module _ {F : Type 0} ⦃vo : ValueOps F⦄ (out : LogOutside) (secret : String) where
  -- A logger that is opened again on the file after a record was logged goes on as the one that
  -- logged it: the next record, the file and the state are the same, whatever it remembered before.
  pub log-open_log :
      KeepsTexts vo
      → (event_type next_type : String) (payload next_payload : Fields F) (s : SignedAuditLogger)
        (forgotten : String)
      → let t = (log out secret event_type payload s).1 in
        (open_log F >> log out secret next_type next_payload) (record t { last_hash = forgotten })
        ≡ log out secret next_type next_payload t
  unfolding load_last_hash log
  log-open_log j event_type next_type payload next_payload s forgotten =
      bind_after (open_log F) (λ u. log out secret next_type next_payload) (reopened forgotten) tt
        (reopened r.signature)
        (bind_after (load_last_hash F)
          (λ hash. modify (λ (u : SignedAuditLogger). record u { last_hash = hash }))
          (reopened forgotten) r.signature (reopened forgotten) last)
    where
      r : AuditRecord F
      r = record_for out secret event_type payload s

      reopened : String → SignedAuditLogger
      reopened hash = record (logged out secret r s) { last_hash = hash }

      last : load_last_hash F (reopened forgotten) ≡ (ok r.signature, reopened forgotten)
      last =
          let (e, read, found) = j.line_texts (as_fields r) "signature" r.signature refl refl in
          ap (λ o. signature_of_last F o (reopened forgotten))
            (last_line-append (lines_of s.lines) (vo.to_line (as_fields r)))
          ∙ signature_of_line (vo.to_line (as_fields r)) r.signature e (reopened forgotten) read
              (text_at-text "signature" r.signature e found ∙ j.str_text r.signature)
