-- ===== src/Tests/Codec.antt =====
-- A coding of dictionaries of texts and numbers as texts, for samples: a token is its characters,
-- each after a mark, and an end mark.
use Prim.Native.Char.{Char, code}
use autonomous_vehicle_llm.Base.{
  ℕ, zero, suc, String, ◌≡◌, refl, ap, ◌∙◌, sym, Option, none, some, ◌==◌, nat_eq, string_eq,
  Bool-cases, eq_iff, inl, inr, false, if◌then◌else◌, arith, List, [], ◌∷◌, true,
}
use autonomous_vehicle_llm.Base.Int.{ℤ, pos, negsuc}
use autonomous_vehicle_llm.Float.Hundredths.{Hundredths, hundredths}
use autonomous_vehicle_llm.Text.{chars, of_chars}
use autonomous_vehicle_llm.Json.{
  Value, Fields, str, float, null, bool, int, obj, arr, end, field, get,
}
use autonomous_vehicle_llm.ApprovalAudit.Appending.{is_flat, is_plain_value}

abbrev token : List Char → List Char → List Char
token [] rest = "e" ∷ rest
token (c ∷ cs) rest = "c" ∷ c ∷ token cs rest

abbrev onto_first : Char → List (List Char) → List (List Char)
onto_first c [] = []
onto_first c (t ∷ ts) = (c ∷ t) ∷ ts

abbrev tokens : List Char → List (List Char)
tokens [] = []
tokens (m ∷ []) = [] ∷ []
tokens (m ∷ c ∷ cs) = if code m == b'c' then onto_first c (tokens cs) else [] ∷ tokens (c ∷ cs)

tokens-token : (t rest : List Char) → tokens (token t rest) ≡ t ∷ tokens rest
tokens-token [] [] = refl
tokens-token [] (c ∷ cs) = refl
tokens-token (c ∷ t) rest = ap (onto_first c) (tokens-token t rest)

abbrev ticks : ℕ → List Char
ticks zero = []
ticks (suc n) = "t" ∷ ticks n

abbrev count : List Char → ℕ
count [] = 0
count (c ∷ cs) = suc (count cs)

count-ticks : (n : ℕ) → count (ticks n) ≡ n
count-ticks zero = refl
count-ticks (suc n) = ap suc (count-ticks n)

of_chars-chars : (s : String) → of_chars (chars s) ≡ s
of_chars-chars String.[] = refl
of_chars-chars (String.◌∷◌ c s) = ap (String.◌∷◌ c) (of_chars-chars s)

chars-of_chars : (cs : List Char) → chars (of_chars cs) ≡ cs
chars-of_chars [] = refl
chars-of_chars (c ∷ cs) = ap (λ ds. c ∷ ds) (chars-of_chars cs)

abbrev kind : Value Hundredths → List Char
kind (str s) = "s" ∷ []
kind (float x) = elim x.units [ pos n ↦ "p" ∷ [] | negsuc n ↦ "n" ∷ [] ]
kind v = []

abbrev content : Value Hundredths → List Char
content (str s) = chars s
content (float x) = elim x.units [ pos n ↦ ticks n | negsuc n ↦ ticks n ]
content v = []

abbrev value_of : List Char → List Char → Value Hundredths
value_of (k ∷ _) cs =
    if code k == b's'
    then str (of_chars cs)
    else (if code k == b'p'
        then float (hundredths (pos (count cs)))
        else float (hundredths (negsuc (count cs))))
value_of [] cs = null

abbrev plain : Value Hundredths → Value Hundredths
plain (str s) = str s
plain (float x) = float x
plain v = null

value-content : (v : Value Hundredths) → value_of (kind v) (content v) ≡ plain v
value-content (str s) = ap str (of_chars-chars s)
value-content (float x) = at x.units refl
  where
    at : (n : ℤ) → x.units ≡ n → value_of (kind (float x)) (content (float x)) ≡ float x
    at (pos n) e = rw e (ap (λ i. float (hundredths (pos i))) (count-ticks n))
    at (negsuc n) e = rw e (ap (λ i. float (hundredths (negsuc i))) (count-ticks n))
value-content null = refl
value-content (bool b) = refl
value-content (int n) = refl
value-content (arr vs) = refl
value-content (obj d) = refl

plain_flat : (v : Value Hundredths) → is_plain_value v ≡ true → plain v ≡ v
plain_flat (str s) h = refl
plain_flat (float x) h = refl
plain_flat null h = absurd (ground arith)
plain_flat (bool b) h = absurd (ground arith)
plain_flat (int n) h = absurd (ground arith)
plain_flat (arr vs) h = absurd (ground arith)
plain_flat (obj d) h = absurd (ground arith)

abbrev coded : Fields Hundredths → List Char
coded end = []
coded (field k v d) = token (chars k) (token (kind v) (token (content v) (coded d)))

abbrev fields_of : List (List Char) → Fields Hundredths
fields_of (k ∷ t ∷ v ∷ rest) = field (of_chars k) (value_of t v) (fields_of rest)
fields_of ts = end

abbrev pub encode : Fields Hundredths → String
encode d = of_chars ("d" ∷ coded d)

abbrev fields_from : List Char → Fields Hundredths
fields_from [] = end
fields_from (c ∷ cs) = fields_of (tokens cs)

abbrev pub decode : String → Option (Value Hundredths)
decode s = some (obj (fields_from (chars s)))

abbrev pub plain_fields : Fields Hundredths → Fields Hundredths
plain_fields end = end
plain_fields (field k v d) = field k (plain v) (plain_fields d)

fields_of-coded : (d : Fields Hundredths) → fields_of (tokens (coded d)) ≡ plain_fields d
fields_of-coded end = refl
fields_of-coded (field k v d) =
    let step : tokens (coded (field k v d)) ≡ chars k ∷ kind v ∷ content v ∷ tokens (coded d) =
      rw (tokens-token (chars k), tokens-token (kind v), tokens-token (content v)) refl in
    rw (step, of_chars-chars k, value-content v, fields_of-coded d) refl

plain_fields_flat : (d : Fields Hundredths) → is_flat d ≡ true → plain_fields d ≡ d
plain_fields_flat end h = refl
plain_fields_flat (field k v d) h =
    rw (plain_flat v (ground (arith, h)), plain_fields_flat d (ground (arith, h))) refl

pub decode_plain : (d : Fields Hundredths) → decode (encode d) ≡ some (obj (plain_fields d))
decode_plain d = rw chars-of_chars (ap (λ f. some (obj f)) (fields_of-coded d))

pub decode-encode : (d : Fields Hundredths) → is_flat d ≡ true → decode (encode d) ≡ some (obj d)
decode-encode d h = decode_plain d ∙ ap (λ f. some (obj f)) (plain_fields_flat d h)

abbrev pub plain_option : Option (Value Hundredths) → Option (Value Hundredths)
plain_option none = none
plain_option (some v) = some (plain v)

pub get-plain_fields :
    (k : String) (d : Fields Hundredths) → get k (plain_fields d) ≡ plain_option (get k d)
get-plain_fields k end = refl
get-plain_fields k (field j v d) = ground (arith, get-plain_fields k d)

text_of_plain :
    (o : Option (Value Hundredths)) (s : String) → plain_option o ≡ some (str s) → o ≡ some (str s)
text_of_plain none s h = absurd (ground (arith, h))
text_of_plain (some (str t)) s h = h
text_of_plain (some (float x)) s h = absurd (ground (arith, h))
text_of_plain (some null) s h = absurd (ground (arith, h))
text_of_plain (some (bool b)) s h = absurd (ground (arith, h))
text_of_plain (some (int n)) s h = absurd (ground (arith, h))
text_of_plain (some (arr vs)) s h = absurd (ground (arith, h))
text_of_plain (some (obj d)) s h = absurd (ground (arith, h))

abbrev pub fields_or_end : Option (Value Hundredths) → Fields Hundredths
fields_or_end (some (obj d)) = d
fields_or_end o = end

-- Equal codes come from dictionaries with the same texts.
pub encode_text :
    (k s : String) (d e : Fields Hundredths)
    → encode d ≡ encode e
    → get k d ≡ some (str s)
    → get k e ≡ some (str s)
encode_text k s d e h g =
    let same : plain_fields d ≡ plain_fields e =
      ap fields_or_end (sym (decode_plain d) ∙ ap decode h ∙ decode_plain e) in
    text_of_plain (get k e) s (
      sym (get-plain_fields k e) ∙ ap (get k) (sym same) ∙ get-plain_fields k d ∙ ap plain_option g)

pub encode_filled : (d : Fields Hundredths) → (encode d == "") ≡ false
encode_filled d = elim (Bool-cases (encode d == "")) [
  | inl e ↦
      let same : "d" ∷ chars (of_chars (coded d)) ≡ [] = ap chars ((eq_iff (encode d) "").0 e) in
      absurd (ground (arith, same))
  | inr e ↦ e
]
