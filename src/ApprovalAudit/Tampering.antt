-- ===== src/ApprovalAudit/Tampering.antt =====
-- Two files that src/autonomy/approval_audit.py verifies up to the same last hash.
use autonomous_vehicle_llm.Base.{
  String, true, false, ◌≡◌, ◌≢◌, Option, some, List, [], ◌∷◌, IsMember, string_eq,
}
use autonomous_vehicle_llm.Text.{TextOps}
use autonomous_vehicle_llm.Json.{Value, Fields, str, obj, get}
use autonomous_vehicle_llm.Values.{ValueOps}
use autonomous_vehicle_llm.ApprovalAudit.{unsigned, is_blank}

-- Two different texts with the same hash, one in each of two lists.
pub record Collision (hash : String → String) (forms others : List String) : Type 0 where
  pub first : String
  pub second : String
  pub in_first : IsMember first forms
  pub in_second : IsMember second others
  pub differ : first ≢ second
  pub same_hash : hash first ≡ hash second

-- What the theorem uses of `str` and of the canonical form: a text is its own `str`, and the form
-- has the texts that a dictionary holds.
pub record IsCanonical {F : Type 0} (vo : ValueOps F) : Type 0 where
  pub str_text : (s : String) → vo.to_str (str s) ≡ s
  pub dumps_text :
      (k s : String) (d e : Fields F)
      → vo.dumps d ≡ vo.dumps e
      → get k d ≡ some (str s)
      → get k e ≡ some (str s)

module _ {F : Type 0} ⦃vo : ValueOps F⦄ where
  abbrev form_of : Option (Value F) → List String → List String
  form_of (some (obj d)) forms = vo.dumps (unsigned d) ∷ forms
  form_of o forms = forms

module _ (F : Type 0) ⦃tx : TextOps⦄ ⦃vo : ValueOps F⦄ where
  -- The canonical forms of the entries, in order, without their hashes and seals.
  unfoldable pub canonical_forms : List String → List String
  canonical_forms [] = []
  canonical_forms (line ∷ lines) = elim (is_blank line) [
    | true ↦ canonical_forms lines
    | false ↦ form_of (vo.loads line) (canonical_forms lines)
  ]

  -- The entry of a line has a text for its previous hash, as every entry has that is appended.
  abbrev pub NamesPrevious : String → Type 0
  NamesPrevious line =
      (d : Fields F)
      → vo.loads line ≡ some (obj d)
      → (u : String) × (get "prev_hash" d ≡ some (str u))
