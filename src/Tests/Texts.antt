-- ===== src/Tests/Texts.antt =====
-- The methods of texts and values, for samples: texts are left as they are.
use Prim.Native.Char.{Char, code}
use autonomous_vehicle_llm.Base.{
  String, Bool, true, false, refl, ◌&&◌, ◌||◌, ◌==◌, nat_eq, string_eq, leb, arith, [], ◌∷◌, Option,
  none, some,
}
use autonomous_vehicle_llm.Base.Int.{pos}
use autonomous_vehicle_llm.Float.Hundredths.{Hundredths, hundredths_ops}
use autonomous_vehicle_llm.Text.{TextOps, IsText, chars}
use autonomous_vehicle_llm.Json.{Value, bool, int, float, str}
use autonomous_vehicle_llm.Values.{ValueOps, IntOf, parsed, invalid}
use autonomous_vehicle_llm.Tests.Codec.{encode, decode}
use autonomous_vehicle_llm.ReasonCodes.{slugify_reason}
use autonomous_vehicle_llm.ReasonCodes.Slug.{IsSlug, slugify_reason-IsSlug}

abbrev is_alnum : Char → Bool
is_alnum c = (leb b'0' (code c) && leb (code c) b'9') || (leb b'a' (code c) && leb (code c) b'z')

instance abbrev pub sample_texts : TextOps
sample_texts = record {
  strip = λ s. s;
  lower = λ s. s;
  is_alnum = is_alnum;
  lower_char = λ c. c ∷ [];
  str_of_nat = λ n. "0";
}

sample_texts-IsText : IsText sample_texts
sample_texts-IsText = record {
  plain = λ s h. refl;
  lower_alnum = λ c h. ((ground arith, tt), λ e. absurd (ground arith));
}

abbrev to_float : Value Hundredths → Option Hundredths
to_float (int n) = some (hundredths_ops.of_int n)
to_float (float x) = some x
to_float v = none

abbrev to_int : Value Hundredths → IntOf
to_int (int n) = parsed n
to_int (bool true) = parsed (pos 1)
to_int (bool false) = parsed (pos 0)
to_int v = invalid

abbrev to_str : Value Hundredths → String
to_str (str s) = s
to_str v = "?"

abbrev is_same : Value Hundredths → Value Hundredths → Bool
is_same (str s) (str t) = s == t
is_same v w = false

instance abbrev pub sample_values : ValueOps Hundredths
sample_values = record {
  eq = is_same;
  to_float = to_float;
  to_int = to_int;
  to_str = to_str;
  dumps = encode;
  to_line = encode;
  loads = decode;
}

slugify_reason-IsSlug_example : IsSlug (chars (slugify_reason "wind_ too strong!"))
slugify_reason-IsSlug_example = slugify_reason-IsSlug sample_texts-IsText "wind_ too strong!"
